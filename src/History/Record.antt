-- ===== src/History/Record.antt =====
-- rust/engine/crates/app_core/src/engine/core/history.rs: how a listen comes into the history: of
-- an account through the history service, and otherwise into the anonymous buffer.
pub mod Bounds
pub mod Repeats
use media_app.Prelude.{
  ℕ, String, text_append, Bool, true, false, ◌&&◌, Option, none, some, List, [], ◌∷◌, max, is_blank,
  is_some, leb, ltb, opt_eq, decimal, ratio_f32, saturating_add, if◌then◌else◌, ◌==◌,
}
use media_app.Model.Effect.{F32}
use media_app.Model.Error.{EngineError, EngineResult, ok, err}
use media_app.Model.History.{
  EngineHistoryEntry, EngineHistorySettings, EnginePlaybackRecord, playback_record,
}
use media_app.Library.{AuthIdentity, from_state}
use media_app.History.{
  HistoryState, elapsed_millis, history_auto_record_threshold_millis, history_track_from_snapshot,
  max_history_page_size, sync_history_listen_tracker, truncated, without_entry, available,
  anonymous, authenticated,
}
use media_app.History.Service.{
  HistoryPort, clear_anonymous_history, failed, history_context, owner_history_identity,
  history_result_for_current_identity, reconcile_anonymous_history,
}

abbrev pub recorded_as : Option ℕ → HistoryState → HistoryState
recorded_as instance s = record s {
  history_listen = record s.history_listen { recorded_instance_id = instance };
}

-- The entry goes to the front of the entries that are shown, which are cut at a page.
unfoldable pub publish_history_entry : EngineHistoryEntry → HistoryState → HistoryState
unfolding truncated without_entry
publish_history_entry entry s = recorded_as s.current_playback_instance_id (record s {
  history_generation = saturating_add s.history_generation 1;
  history_entries =
      truncated max_history_page_size (entry ∷ without_entry entry.id s.history_entries);
})

-- `format!("anonymous-history-{played_at}-{sequence}")`.
unfoldable pub anonymous_id : ℕ → ℕ → String
unfolding decimal
anonymous_id played_at sequence =
    text_append "anonymous-history-"
      (text_append (decimal played_at) (text_append "-" (decimal sequence)))

unfoldable pub anonymous_entry : EnginePlaybackRecord → HistoryState → EngineHistoryEntry
unfolding anonymous_id history_track_from_snapshot
anonymous_entry listen s = record {
  id = anonymous_id s.snapshot.updated_at_epoch_millis s.anonymous_history.next_sequence;
  played_at_epoch_millis = some s.snapshot.updated_at_epoch_millis;
  duration_millis = listen.duration_millis;
  completion_ratio = listen.completion_ratio;
  track = some (history_track_from_snapshot listen s.snapshot);
}

unfoldable pub record_anonymous_history_event : EnginePlaybackRecord → HistoryState → HistoryState
unfolding anonymous_entry publish_history_entry truncated
record_anonymous_history_event listen s =
    let entry = anonymous_entry listen s in
    publish_history_entry entry (record s {
      anonymous_history = record s.anonymous_history {
        next_sequence = saturating_add s.anonymous_history.next_sequence 1;
        buffered = truncated s.anonymous_history.max_entries (entry ∷ s.anonymous_history.buffered);
      };
      history_projection_owner = some anonymous;
    })

-- The settings of the anonymous history, where none are shown.
abbrev pub with_default_settings : Option EngineHistorySettings → HistoryState → HistoryState
with_default_settings (some settings) s = s
with_default_settings none s = record s {
  history_settings = some (record { enabled = s.anonymous_history.enabled });
  history_availability = available;
}

abbrev pub with_settings : HistoryState → HistoryState
with_settings s = with_default_settings s.history_settings s

-- `format!("engine-history-{played_at}-{sequence}")`.
unfoldable pub recorded_id : ℕ → ℕ → String
unfolding decimal
recorded_id played_at sequence =
    text_append "engine-history-"
      (text_append (decimal played_at) (text_append "-" (decimal sequence)))

-- The account owns the projection, if there is one.
abbrev pub owned_by : Option AuthIdentity → HistoryState → HistoryState
owned_by none s = s
owned_by (some identity) s = record s { history_projection_owner = some (authenticated identity) }

unfoldable pub recorded_entry : EnginePlaybackRecord → HistoryState → EngineHistoryEntry
unfolding recorded_id history_track_from_snapshot
recorded_entry listen s = record {
  id = recorded_id s.snapshot.updated_at_epoch_millis s.next_history_record_sequence;
  played_at_epoch_millis = some s.snapshot.updated_at_epoch_millis;
  duration_millis = listen.duration_millis;
  completion_ratio = listen.completion_ratio;
  track = some (history_track_from_snapshot listen s.snapshot);
}

unfoldable pub publish_recorded_history_entry : EnginePlaybackRecord → HistoryState → HistoryState
unfolding recorded_entry publish_history_entry from_state
publish_recorded_history_entry listen s = publish_history_entry (recorded_entry listen s) (
    owned_by (from_state s.snapshot.auth_state)
      (record s { next_history_record_sequence = saturating_add s.next_history_record_sequence 1 }))

-- What the service answers to a listen.
unfoldable pub answered_listen :
    EngineResult Bool → EnginePlaybackRecord → HistoryState → HistoryState
unfolding publish_recorded_history_entry
answered_listen (ok true) listen s = publish_recorded_history_entry listen s
answered_listen (ok false) listen s = s
answered_listen (err e) listen s = failed e s

-- The listen goes to the service, after the listens from before the login.
unfoldable pub send_listen : Option HistoryPort → EnginePlaybackRecord → HistoryState → HistoryState
unfolding history_context reconcile_anonymous_history history_result_for_current_identity
    answered_listen
send_listen port listen s = elim (history_context port s) [
  | err e ↦ failed e s
  | ok owner ↦
      let reconciled = reconcile_anonymous_history owner.1 owner.0 s in
      let seen =
        history_result_for_current_identity owner.0
          (owner.1.record_listen reconciled.requests (owner_history_identity owner.0) listen)
          reconciled in
      answered_listen seen.0 listen seen.1
]

abbrev pub is_enabled : Option EngineHistorySettings → Bool
is_enabled none = false
is_enabled (some settings) = settings.enabled

unfoldable pub send_enabled :
    Option HistoryPort → EnginePlaybackRecord → HistoryState → HistoryState
unfolding send_listen clear_anonymous_history
send_enabled port listen s =
    if is_enabled s.history_settings then send_listen port listen s else clear_anonymous_history s

-- The settings of the account have come.
unfoldable pub settled :
    HistoryPort → AuthIdentity → EngineHistorySettings → HistoryState → HistoryState
unfolding reconcile_anonymous_history clear_anonymous_history
settled port identity settings s =
    let known = record s {
      history_projection_owner = some (authenticated identity);
      history_settings = some settings;
      history_availability = available;
    } in
    if settings.enabled
    then reconcile_anonymous_history port identity known
    else clear_anonymous_history known

-- What follows the answer to the settings.
unfoldable pub asked_settings :
    Option HistoryPort
    → EnginePlaybackRecord
    → HistoryPort
    → AuthIdentity
    → EngineResult EngineHistorySettings
    → HistoryState
    → HistoryState
unfolding send_enabled settled
asked_settings port listen p identity (ok settings) s =
    send_enabled port listen (settled p identity settings s)
asked_settings port listen p identity (err e) s = failed e s

-- The listen of an account, whose settings are asked for first where they are not known.
unfoldable pub record_for_account :
    Option HistoryPort → EnginePlaybackRecord → HistoryState → HistoryState
unfolding send_enabled history_context history_result_for_current_identity asked_settings
record_for_account port listen s = elim s.history_settings [
  | some settings ↦ send_enabled port listen s
  | none ↦ elim (history_context port s) [
    | err e ↦ failed e s
    | ok owner ↦
        let seen =
          history_result_for_current_identity owner.0
            (owner.1.get_settings s.requests (owner_history_identity owner.0)) s in
        asked_settings port listen owner.1 owner.0 seen.0 seen.1
  ]
]

unfoldable pub record_history_listen :
    Option HistoryPort → EnginePlaybackRecord → HistoryState → HistoryState
unfolding from_state record_anonymous_history_event record_for_account
record_history_listen port listen s =
    let shown = with_settings s in
    if is_some (from_state s.snapshot.auth_state)
    then record_for_account port listen s
    else (if shown.anonymous_history.enabled
        then record_anonymous_history_event listen shown
        else shown)

-- The length that the listen is compared with, and the part of it that was heard.
abbrev pub listen_duration : Option ℕ → ℕ → ℕ
listen_duration none listened = listened
listen_duration (some duration) listened =
    if ltb 0 duration then max duration listened else listened

abbrev pub completion_ratio : ℕ → ℕ → F32
completion_ratio listened duration = if duration == 0 then 0 else ratio_f32 listened duration

-- An error that is shown frees the instance for another record.
unfoldable pub retried : HistoryState → HistoryState
retried s =
    if is_some s.snapshot.last_error
      && opt_eq s.history_listen.recorded_instance_id s.current_playback_instance_id
    then recorded_as none s
    else s

-- A record that is refused, or the record of this instance.
unfoldable pub record_answer :
    Option HistoryPort → EngineResult EnginePlaybackRecord → HistoryState → HistoryState
unfolding record_history_listen retried
record_answer port (err e) s = s
record_answer port (ok listen) s =
    retried (record_history_listen port listen (recorded_as s.current_playback_instance_id s))

-- The record of a track that was listened to for long enough.
unfoldable pub record_qualified : Option HistoryPort → String → ℕ → HistoryState → HistoryState
unfolding playback_record record_answer
record_qualified port track_id elapsed s =
    let listened = max elapsed s.snapshot.position_millis in
    let duration = listen_duration s.snapshot.duration_millis listened in
    record_answer port (playback_record track_id listened (completion_ratio listened duration)) s

-- The time of the snapshot, at least the time of the record.
abbrev pub stamped : ℕ → HistoryState → HistoryState
stamped now s = record s {
  snapshot = record s.snapshot {
    updated_at_epoch_millis = max s.snapshot.updated_at_epoch_millis now;
  };
}

abbrev pub record_shown : Option HistoryPort → Option String → ℕ → HistoryState → HistoryState
record_shown port none elapsed s = s
record_shown port (some track_id) elapsed s =
    if is_blank track_id then s else record_qualified port track_id elapsed s

-- The instance that plays was recorded already.
abbrev pub is_recorded : HistoryState → Bool
is_recorded s =
    opt_eq s.history_listen.recorded_instance_id s.current_playback_instance_id
    && is_some s.current_playback_instance_id

unfoldable pub maybe_auto_record_history : Option HistoryPort → ℕ → HistoryState → HistoryState
unfolding sync_history_listen_tracker elapsed_millis record_qualified
maybe_auto_record_history port now s =
    let synced = sync_history_listen_tracker now s.snapshot.playback_state s in
    let elapsed = elapsed_millis synced.history_listen now in
    if is_recorded synced
    then synced
    else (if ltb elapsed history_auto_record_threshold_millis
        then synced
        else record_shown port synced.snapshot.media_id elapsed (stamped now synced))
