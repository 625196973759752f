-- ===== src/Model/History.antt =====
-- rust/engine/crates/app_core/src/model/history.rs: listening history, its settings, and what became
-- of the listens that were recorded before a login.
use media_app.Prelude.{
  ℕ, String, Bool, false, ◌||◌, ◌&&◌, Option, none, some, List, [], is_blank, is_finite, ltb,
  if◌then◌else◌,
}
use media_app.Model.Catalog.{EngineTrack}
use media_app.Model.Effect.{F32}
use media_app.Model.Error.{
  EngineError, EngineResult, ok, err, engine_error, invalid_input, answered, ◌>>=◌,
}

pub record EngineHistoryIdentity : Type 0 where
  pub account_id : String
  pub session_id : String

abbrev invalid_history_input : String → EngineError
invalid_history_input message = engine_error invalid_input message false

-- `EngineHistoryIdentity::new`.
unfoldable pub history_identity_of : String → String → EngineResult EngineHistoryIdentity
history_identity_of account_id session_id =
    if is_blank account_id || is_blank session_id
    then err (invalid_history_input "history identity requires account and current session ids")
    else ok (record { account_id = account_id; session_id = session_id })

pub record EngineHistorySettings : Type 0 where
  pub enabled : Bool

pub record EngineHistorySettingsUpdate : Type 0 where
  pub settings : EngineHistorySettings
  pub deleted_count : ℕ

pub record EnginePlaybackRecord : Type 0 where
  pub track_id : String
  pub duration_millis : ℕ
  pub completion_ratio : F32

-- `value.clamp(0.0, 1.0)` on the bits of a finite `f32`: below zero, above one, or as it is.
unfoldable pub clamp_ratio : F32 → F32
clamp_ratio value =
    if ltb 0x80000000 value
    then 0
    else (if ltb 0x3f800000 value && ltb value 0x80000000 then 0x3f800000 else value)

unfoldable pub normalize_completion_ratio : F32 → EngineResult F32
unfolding clamp_ratio
normalize_completion_ratio value =
    if is_finite value
    then ok (clamp_ratio value)
    else err (invalid_history_input "playback completion ratio must be finite")

-- `EnginePlaybackRecord::new`.
unfoldable pub playback_record : String → ℕ → F32 → EngineResult EnginePlaybackRecord
unfolding normalize_completion_ratio
playback_record track_id duration_millis completion_ratio =
    if is_blank track_id
    then err (invalid_history_input "playback track id is required")
    else (normalize_completion_ratio completion_ratio >>= λ ratio. ok (record {
      track_id = track_id;
      duration_millis = duration_millis;
      completion_ratio = ratio;
    }))

pub record EngineHistoryEntry : Type 0 where
  pub id : String
  pub played_at_epoch_millis : Option ℕ
  pub duration_millis : ℕ
  pub completion_ratio : F32
  pub track : Option EngineTrack

unfoldable pub to_playback_record : EngineHistoryEntry → Option EnginePlaybackRecord
unfolding playback_record
to_playback_record entry = elim entry.track [
  | none ↦ none
  | some track ↦ answered (playback_record track.id entry.duration_millis entry.completion_ratio)
]

pub record HistoryReconciliation : Type 0 where
  pub promoted_entry_ids : List String
  pub clear_anonymous : Bool
  pub error : Option EngineError

-- `HistoryReconciliation::default()`.
abbrev pub no_reconciliation : HistoryReconciliation
no_reconciliation = record { promoted_entry_ids = []; clear_anonymous = false; error = none }
