-- ===== src/History/Service.antt =====
-- rust/engine/crates/app_core/src/engine/core/history.rs: what the history of an account asks of the
-- history service, and how the listens from before the login become listens of the account.
pub mod Bounds
use media_app.Prelude.{
  ℕ, ◌+◌, String, Bool, true, false, not, ◌||◌, Option, none, some, List, [], ◌∷◌, ◌++◌,
  saturating_add, str_eq, if◌then◌else◌,
}
use media_app.Model.Error.{
  EngineError, EngineErrorType, EngineResult, ok, err, engine_error, failed_precondition,
  login_required,
}
use media_app.Model.History.{
  EngineHistoryEntry, EngineHistoryIdentity, EngineHistorySettings, EnginePlaybackRecord,
  to_playback_record,
}
use media_app.Library.{AuthIdentity, Reply, from_state, is_identity}
use media_app.History.{HistoryState, clear_history_projection}

-- `HistoryPort` and the authentication provider, by the number of the request.
pub record HistoryPort : Type 0 where
  pub get_settings : ℕ → EngineHistoryIdentity → Reply EngineHistorySettings
  pub record_listen : ℕ → EngineHistoryIdentity → EnginePlaybackRecord → Reply Bool

-- `AuthIdentity::history_identity`.
abbrev pub owner_history_identity : AuthIdentity → EngineHistoryIdentity
owner_history_identity identity = record {
  account_id = identity.account_id;
  session_id = identity.session_id;
}

abbrev pub history_login_required : EngineError
history_login_required =
    engine_error login_required "history operation requires the current authenticated session" false

-- `history_context`: whose history it is, and the service.
unfoldable pub history_context :
    Option HistoryPort → HistoryState → EngineResult (AuthIdentity × HistoryPort)
unfolding from_state
history_context port s = elim (from_state s.snapshot.auth_state) [
  | none ↦ err history_login_required
  | some identity ↦ elim port [
    | none ↦ err (engine_error failed_precondition "history service is not configured" false)
    | some p ↦ ok (identity, p)
  ]
]

abbrev pub failed : EngineError → HistoryState → HistoryState
failed error s = record s { snapshot = record s.snapshot { last_error = some error } }

-- `history_result_for_current_identity`: the answer counts only for the identity that asked.
unfoldable pub history_result_for_current_identity :
    {A : Type 0} → AuthIdentity → Reply A → HistoryState → EngineResult A × HistoryState
unfolding from_state
history_result_for_current_identity expected reply s =
    let seen = record s {
      snapshot = record s.snapshot { auth_state = reply.auth };
      requests = s.requests + 1;
    } in
    if is_identity (from_state reply.auth) expected then (reply.answer, seen) else (
      err history_login_required,
      record (clear_history_projection seen) { history_projection_owner = none },
    )

abbrev pub invalidate_history_pages : HistoryState → HistoryState
invalidate_history_pages s = record s {
  history_generation = saturating_add s.history_generation 1;
  history_entries = [];
}

abbrev pub with_buffered : List EngineHistoryEntry → HistoryState → HistoryState
with_buffered entries s = record s {
  anonymous_history = record s.anonymous_history { buffered = entries };
}

-- `AnonymousHistoryBuffer::is_empty`, of its entries.
abbrev pub is_empty : List EngineHistoryEntry → Bool
is_empty [] = true
is_empty (x ∷ xs) = false

-- `clear_anonymous_history_for_authenticated_disabled`.
unfoldable pub clear_anonymous_history : HistoryState → HistoryState
clear_anonymous_history s =
    if is_empty s.anonymous_history.buffered
    then s
    else invalidate_history_pages (with_buffered [] s)

unfoldable pub is_promoted : String → List String → Bool
is_promoted id [] = false
is_promoted id (x ∷ xs) = str_eq x id || is_promoted id xs

-- `retain(|entry| !promoted_ids.contains(&entry.id))`.
unfoldable pub not_promoted : List String → List EngineHistoryEntry → List EngineHistoryEntry
unfolding is_promoted
not_promoted ids [] = []
not_promoted ids (x ∷ xs) =
    let kept = not_promoted ids xs in if is_promoted x.id ids then kept else x ∷ kept

-- `iter().rev()`, in front of what was taken before.
unfoldable pub oldest_first :
    List EngineHistoryEntry → List EngineHistoryEntry → List EngineHistoryEntry
oldest_first taken [] = taken
oldest_first taken (x ∷ xs) = oldest_first (x ∷ taken) xs

-- The loop over the pending entries: what is promoted, or the error that ends it.
unfoldable pub promote :
    HistoryPort
    → AuthIdentity
    → List String
    → List EngineHistoryEntry
    → HistoryState
    → EngineResult (List String) × HistoryState
unfolding to_playback_record history_result_for_current_identity
promote port identity promoted [] s = (ok promoted, s)
promote port identity promoted (entry ∷ pending) s = elim (to_playback_record entry) [
  | none ↦ promote port identity (promoted ++ entry.id ∷ []) pending s
  | some listen ↦
      let seen =
        history_result_for_current_identity identity
          (port.record_listen s.requests (owner_history_identity identity) listen) s in
      elim seen.0 [
        | err e ↦ (err e, seen.1)
        | ok accepted ↦
            promote port identity (if accepted then promoted ++ entry.id ∷ [] else promoted) pending
              seen.1
      ]
]

-- After the loop: an error, or the promoted entries are taken out.
unfoldable pub settle_promoted :
    EngineResult (List String) → HistoryState → Option EngineError × HistoryState
unfolding not_promoted
settle_promoted (err e) s = (some e, s)
settle_promoted (ok []) s = (none, s)
settle_promoted (ok (id ∷ ids)) s = (
  none,
  invalidate_history_pages (with_buffered (not_promoted (id ∷ ids) s.anonymous_history.buffered) s),
)

unfoldable pub reconcile_with :
    HistoryPort
    → AuthIdentity
    → EngineHistorySettings
    → HistoryState
    → Option EngineError × HistoryState
unfolding promote settle_promoted oldest_first clear_anonymous_history
reconcile_with port identity settings s =
    let promoted = promote port identity [] (oldest_first [] s.anonymous_history.buffered) s in
    if settings.enabled
    then settle_promoted promoted.0 promoted.1
    else (none, clear_anonymous_history s)

-- `reconcile_anonymous_history_impl`, its error as `some`.
unfoldable pub reconcile_anonymous_history_impl :
    HistoryPort → AuthIdentity → HistoryState → Option EngineError × HistoryState
unfolding reconcile_with history_result_for_current_identity
reconcile_anonymous_history_impl port identity s = elim s.history_settings [
  | some settings ↦ reconcile_with port identity settings s
  | none ↦
      let seen =
        history_result_for_current_identity identity
          (port.get_settings s.requests (owner_history_identity identity)) s in
      elim seen.0 [
        | err e ↦ (some e, seen.1)
        | ok settings ↦
            reconcile_with port identity settings
              (record seen.1 { history_settings = some settings })
      ]
]

abbrev pub failed_if : Option EngineError → HistoryState → HistoryState
failed_if none s = s
failed_if (some error) s = failed error s

unfoldable pub reconcile_anonymous_history :
    HistoryPort → AuthIdentity → HistoryState → HistoryState
unfolding reconcile_anonymous_history_impl
reconcile_anonymous_history port identity s =
    let reconciled =
      reconcile_anonymous_history_impl port identity
        (record s { reconciliation_in_flight = true }) in
    if s.reconciliation_in_flight || is_empty s.anonymous_history.buffered
    then s
    else failed_if reconciled.0 (record reconciled.1 { reconciliation_in_flight = false })
