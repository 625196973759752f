-- ===== src/History/Record/Bounds.antt =====
-- rust/engine/crates/app_core/src/engine/core/history.rs: the anonymous history and the entries that are
-- shown stay within their limits.
use media_app.Prelude.{
  ℕ, max, String, Bool, true, false, Option, none, some, ◌∷◌, inl, inr, Option-cases, arith,
  if◌then◌else◌, is_blank, is_some, ltb, saturating_add,
}
use media_app.Model.Error.{EngineResult, EngineResult-cases, ok, err}
use media_app.Model.History.{
  EngineHistoryEntry, EngineHistorySettings, EnginePlaybackRecord, playback_record,
}
use media_app.Library.{AuthIdentity, from_state}
use media_app.History.{
  HistoryState, max_history_page_size, sync_history_listen_tracker, elapsed_millis,
  history_auto_record_threshold_millis, without_entry,
}
use media_app.History.Service.{
  HistoryPort, clear_anonymous_history, history_context, owner_history_identity,
  history_result_for_current_identity, reconcile_anonymous_history,
}
use media_app.History.Service.Bounds.{
  IsBounded, clear-IsBounded, reconcile-IsBounded, result-IsBounded, truncated-length,
}
use media_app.History.Record.{
  answered_listen, asked_settings, owned_by, recorded_entry, is_enabled,
  publish_recorded_history_entry, record_for_account, send_enabled, send_listen, settled,
  maybe_auto_record_history, publish_history_entry, record_anonymous_history_event, anonymous_entry,
  record_answer, record_history_listen, record_qualified, record_shown, recorded_as, retried,
  stamped, with_settings, with_default_settings, completion_ratio, is_recorded, listen_duration,
}

anonymous-IsBounded :
    (listen : EnginePlaybackRecord) (s : HistoryState)
    → IsBounded (record_anonymous_history_event listen s)
unfolding record_anonymous_history_event publish_history_entry
anonymous-IsBounded listen s =
    let entry = anonymous_entry listen s in
    (
      truncated-length s.anonymous_history.max_entries (entry ∷ s.anonymous_history.buffered),
      truncated-length max_history_page_size (entry ∷ without_entry entry.id s.history_entries),
    )

settings-IsBounded :
    (o : Option EngineHistorySettings) (s : HistoryState)
    → IsBounded s
    → IsBounded (with_default_settings o s)
settings-IsBounded none s b = b
settings-IsBounded (some settings) s b = b

if-IsBounded :
    (b : Bool) (s t : HistoryState) → IsBounded s → IsBounded t → IsBounded (if b then s else t)
if-IsBounded true s t x y = x
if-IsBounded false s t x y = y

publish-IsBounded :
    (entry : EngineHistoryEntry) (s : HistoryState)
    → IsBounded s
    → IsBounded (publish_history_entry entry s)
unfolding publish_history_entry
publish-IsBounded entry s b =
    (b.0, truncated-length max_history_page_size (entry ∷ without_entry entry.id s.history_entries))

owned_by-IsBounded :
    (owner : Option AuthIdentity) (s : HistoryState) → IsBounded s → IsBounded (owned_by owner s)
owned_by-IsBounded none s b = b
owned_by-IsBounded (some identity) s b = b

recorded-IsBounded :
    (listen : EnginePlaybackRecord) (s : HistoryState)
    → IsBounded s
    → IsBounded (publish_recorded_history_entry listen s)
unfolding publish_recorded_history_entry
recorded-IsBounded listen s b =
    let counted = record s {
      next_history_record_sequence = saturating_add s.next_history_record_sequence 1;
    } in
    let owner = from_state s.snapshot.auth_state in
    publish-IsBounded (recorded_entry listen s) (owned_by owner counted)
      (owned_by-IsBounded owner counted b)

answered-IsBounded :
    (answer : EngineResult Bool) (listen : EnginePlaybackRecord) (s : HistoryState)
    → IsBounded s
    → IsBounded (answered_listen answer listen s)
unfolding answered_listen
answered-IsBounded (ok true) listen s b = recorded-IsBounded listen s b
answered-IsBounded (ok false) listen s b = b
answered-IsBounded (err e) listen s b = b

module _ (port : Option HistoryPort) (listen : EnginePlaybackRecord) where
  send-IsBounded : (s : HistoryState) → IsBounded s → IsBounded (send_listen port listen s)
  unfolding send_listen
  send-IsBounded s b = elim (EngineResult-cases (history_context port s)) [
    | inl (owner, e) ↦
        rw (e, send_listen)
          (let reconciled = reconcile_anonymous_history owner.1 owner.0 s in
            let reply =
              owner.1.record_listen reconciled.requests (owner_history_identity owner.0) listen in
            let seen = history_result_for_current_identity owner.0 reply reconciled in
            answered-IsBounded seen.0 listen seen.1
              (result-IsBounded owner.0 reply reconciled (reconcile-IsBounded owner.1 owner.0 s b)))
    | inr (error, e) ↦ rw (e, send_listen) b
  ]

  enabled-IsBounded : (s : HistoryState) → IsBounded s → IsBounded (send_enabled port listen s)
  unfolding send_enabled
  enabled-IsBounded s b =
      if-IsBounded (is_enabled s.history_settings) (send_listen port listen s)
        (clear_anonymous_history s) (send-IsBounded s b) (clear-IsBounded s b)

  settled-IsBounded :
      (p : HistoryPort) (identity : AuthIdentity) (settings : EngineHistorySettings)
      (s : HistoryState)
      → IsBounded s
      → IsBounded (settled p identity settings s)
  unfolding settled
  settled-IsBounded p identity settings s b =
      if-IsBounded settings.enabled _ _ (reconcile-IsBounded p identity _ b) (clear-IsBounded _ b)

  asked-IsBounded :
      (p : HistoryPort) (identity : AuthIdentity) (answer : EngineResult EngineHistorySettings)
      (s : HistoryState)
      → IsBounded s
      → IsBounded (asked_settings port listen p identity answer s)
  unfolding asked_settings
  asked-IsBounded p identity (ok settings) s b =
      enabled-IsBounded (settled p identity settings s) (settled-IsBounded p identity settings s b)
  asked-IsBounded p identity (err e) s b = b

  account-IsBounded :
      (s : HistoryState) → IsBounded s → IsBounded (record_for_account port listen s)
  unfolding record_for_account
  account-IsBounded s b = elim (Option-cases s.history_settings) [
    | inr (settings, e) ↦ rw (e, record_for_account) (enabled-IsBounded s b)
    | inl e ↦ elim (EngineResult-cases (history_context port s)) [
      | inl (owner, f) ↦
          let reply = owner.1.get_settings s.requests (owner_history_identity owner.0) in
          let seen = history_result_for_current_identity owner.0 reply s in
          rw (e, f, record_for_account)
            (asked-IsBounded owner.1 owner.0 seen.0 seen.1 (result-IsBounded owner.0 reply s b))
      | inr (error, f) ↦ rw (e, f, record_for_account) b
    ]
  ]

  listen-IsBounded :
      (s : HistoryState) → IsBounded s → IsBounded (record_history_listen port listen s)
  unfolding record_history_listen
  listen-IsBounded s b =
      let shown = with_settings s in
      let known = settings-IsBounded s.history_settings s b in
      if-IsBounded (is_some (from_state s.snapshot.auth_state)) (record_for_account port listen s) _
        (account-IsBounded s b)
        (if-IsBounded shown.anonymous_history.enabled (record_anonymous_history_event listen shown)
          shown (anonymous-IsBounded listen shown) known)

retried-IsBounded : (s : HistoryState) → IsBounded s → IsBounded (retried s)
unfolding retried
retried-IsBounded s b = ground arith

answer-IsBounded :
    (port : Option HistoryPort) (answer : EngineResult EnginePlaybackRecord) (s : HistoryState)
    → IsBounded s
    → IsBounded (record_answer port answer s)
unfolding record_answer
answer-IsBounded port (err e) s b = b
answer-IsBounded port (ok listen) s b =
    let marked = recorded_as s.current_playback_instance_id s in
    retried-IsBounded (record_history_listen port listen marked)
      (listen-IsBounded port listen marked b)

shown-IsBounded :
    (port : Option HistoryPort) (media_id : Option String) (elapsed : ℕ) (s : HistoryState)
    → IsBounded s
    → IsBounded (record_shown port media_id elapsed s)
unfolding record_qualified
shown-IsBounded port none elapsed s b = b
shown-IsBounded port (some id) elapsed s b =
    let listened = max elapsed s.snapshot.position_millis in
    let duration = listen_duration s.snapshot.duration_millis listened in
    if-IsBounded (is_blank id) s (record_qualified port id elapsed s) b
      (answer-IsBounded port (playback_record id listened (completion_ratio listened duration)) s b)

-- A check of the current track, which may record a listen in the anonymous history or with the history
-- service, whatever the service answers, keeps the anonymous history within its limit and the
-- entries that are shown within a page.
pub maybe_auto_record_history-IsBounded :
    (port : Option HistoryPort) (now : ℕ) (s : HistoryState)
    → IsBounded s
    → IsBounded (maybe_auto_record_history port now s)
unfolding maybe_auto_record_history sync_history_listen_tracker
maybe_auto_record_history-IsBounded port now s b =
    let synced = sync_history_listen_tracker now s.snapshot.playback_state s in
    let elapsed = elapsed_millis synced.history_listen now in
    let rest = record_shown port synced.snapshot.media_id elapsed (stamped now synced) in
    let waiting = if ltb elapsed history_auto_record_threshold_millis then synced else rest in
    if-IsBounded (is_recorded synced) synced waiting b (
      if-IsBounded (ltb elapsed history_auto_record_threshold_millis) synced rest b
        (shown-IsBounded port synced.snapshot.media_id elapsed (stamped now synced) b))
