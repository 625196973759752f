-- ===== src/History/Record/Repeats.antt =====
-- rust/engine/crates/app_core/src/engine/core/history.rs: when a listen is recorded again.
use media_app.Prelude.{
  ℕ, ◌≡◌, refl, ap, ◌∙◌, Bool, true, false, Option, none, some, List, [], ◌∷◌, opt_eq_refl, is_some,
  arith, if◌then◌else◌,
}
use media_app.Model.Error.{ok}
use media_app.Model.History.{EngineHistorySettings, EnginePlaybackRecord}
use media_app.Model.Playback.{PlaybackState, same_state}
use media_app.Library.{from_state}
use media_app.History.{
  HistoryListenTracker, HistoryState, clocked, sync_history_listen_tracker, tracker_of, truncated,
  max_history_page_size, without_entry,
}
use media_app.History.Service.{HistoryPort}
use media_app.History.Record.{
  anonymous_entry, is_recorded, maybe_auto_record_history, publish_history_entry,
  record_anonymous_history_event, record_answer, record_history_listen, recorded_as, retried,
  with_settings, with_default_settings,
}

-- A check at a time at which playback is in some state.
abbrev pub check_at : Option HistoryPort → ℕ → PlaybackState → HistoryState → HistoryState
check_at port now state s =
    maybe_auto_record_history port now
      (record s { snapshot = record s.snapshot { playback_state = state } })

-- One check after another.
unfoldable pub checks : Option HistoryPort → List (ℕ × PlaybackState) → HistoryState → HistoryState
checks port [] s = s
checks port ((now, state) ∷ more) s = checks port more (check_at port now state s)

-- The instance that plays is marked as recorded.
abbrev pub IsMarked : ℕ → HistoryState → Type 0
IsMarked i s =
    (s.current_playback_instance_id ≡ some i)
    × (s.history_listen.playback_instance_id ≡ some i)
    × (s.history_listen.recorded_instance_id ≡ some i)

-- The same history, shown and buffered.
abbrev pub SameHistory : HistoryState → HistoryState → Type 0
SameHistory s t =
    (t.history_entries ≡ s.history_entries)
    × (t.anonymous_history ≡ s.anonymous_history)
    × (t.history_generation ≡ s.history_generation)

synced-same :
    (now : ℕ) (state : PlaybackState) (s : HistoryState)
    → SameHistory s (sync_history_listen_tracker now state s)
unfolding sync_history_listen_tracker
synced-same now state s = (refl, refl, refl)

clocked-keeps :
    (playing : Bool) (now : ℕ) (t : HistoryListenTracker)
    → ((clocked playing now t).playback_instance_id ≡ t.playback_instance_id)
      × ((clocked playing now t).recorded_instance_id ≡ t.recorded_instance_id)
unfolding clocked
clocked-keeps true now t = ground arith
clocked-keeps false now t = ground arith

tracker_of-same :
    (i : ℕ) (instance : Option ℕ) (t : HistoryListenTracker)
    → instance ≡ some i
    → t.playback_instance_id ≡ some i
    → tracker_of instance t ≡ t
unfolding tracker_of
tracker_of-same i instance t h k = ground (arith, opt_eq_refl (some i))

IsMarked-sync :
    (i now : ℕ) (state : PlaybackState) (s : HistoryState)
    → IsMarked i s
    → IsMarked i (sync_history_listen_tracker now state s)
unfolding sync_history_listen_tracker
IsMarked-sync i now state s m =
    let same = tracker_of-same i s.current_playback_instance_id s.history_listen m.0 m.1 in
    let keeps =
      clocked-keeps (same_state state PlaybackState.playing) now
        (tracker_of s.current_playback_instance_id s.history_listen) in
    (
      m.0,
      keeps.0 ∙ ap (λ t. t.playback_instance_id) same ∙ m.1,
      keeps.1 ∙ ap (λ t. t.recorded_instance_id) same ∙ m.2,
    )

marked-is_recorded : (i : ℕ) (s : HistoryState) → IsMarked i s → is_recorded s ≡ true
marked-is_recorded i s m = ground (arith, m.0, m.2, opt_eq_refl (some i))

IsMarked-check :
    (port : Option HistoryPort) (i now : ℕ) (state : PlaybackState) (s : HistoryState)
    → IsMarked i s
    → IsMarked i (check_at port now state s) × SameHistory s (check_at port now state s)
unfolding maybe_auto_record_history
IsMarked-check port i now state s m =
    let s' = record s { snapshot = record s.snapshot { playback_state = state } } in
    let synced = sync_history_listen_tracker now state s' in
    let marked = IsMarked-sync i now state s' m in
    rw (marked-is_recorded i synced marked, if◌then◌else◌) (marked, synced-same now state s')

-- Once the instance that plays is marked as recorded, no number of further checks, at any times and
-- in any states of playback, adds to the history.
pub marked-checks :
    (port : Option HistoryPort) (i : ℕ) (times : List (ℕ × PlaybackState)) (s : HistoryState)
    → IsMarked i s
    → SameHistory s (checks port times s)
unfolding checks
marked-checks port i [] s m = (refl, refl, refl)
marked-checks port i ((now, state) ∷ more) s m =
    let (marked, same) = IsMarked-check port i now state s m in
    let last = marked-checks port i more (check_at port now state s) marked in
    (last.0 ∙ same.0, last.1 ∙ same.1, last.2 ∙ same.2)

same_entry :
    (listen : EnginePlaybackRecord) (s : HistoryState)
    → (anonymous_entry listen (recorded_as s.current_playback_instance_id s)
        ≡ anonymous_entry listen s)
unfolding anonymous_entry
same_entry listen s = refl

-- An anonymous entry of a listen, and what it is put in front of.
settings-keeps :
    (listen : EnginePlaybackRecord) (o : Option EngineHistorySettings) (s : HistoryState)
    → (anonymous_entry listen (with_default_settings o s) ≡ anonymous_entry listen s)
      × ((with_default_settings o s).anonymous_history ≡ s.anonymous_history)
      × ((with_default_settings o s).history_entries ≡ s.history_entries)
      × ((with_default_settings o s).snapshot.last_error ≡ s.snapshot.last_error)
      × ((with_default_settings o s).current_playback_instance_id ≡ s.current_playback_instance_id)
unfolding anonymous_entry
settings-keeps listen none s = (refl, refl, refl, refl, refl)
settings-keeps listen (some settings) s = (refl, refl, refl, refl, refl)

listen-anonymous :
    (port : Option HistoryPort) (listen : EnginePlaybackRecord) (s : HistoryState)
    → from_state s.snapshot.auth_state ≡ none
    → s.anonymous_history.enabled ≡ true
    → (record_history_listen port listen s
        ≡ record_anonymous_history_event listen (with_settings s))
unfolding record_history_listen
listen-anonymous port listen s a e =
    let enabled : (with_settings s).anonymous_history.enabled ≡ true =
      ap (λ h. h.enabled) (settings-keeps listen s.history_settings s).1 ∙ e in
    rw (a, enabled, if◌then◌else◌)

retried-keeps :
    (s : HistoryState)
    → ((retried s).anonymous_history ≡ s.anonymous_history)
      × ((retried s).history_entries ≡ s.history_entries)
unfolding retried
retried-keeps s = ground arith

retried-mark :
    (s : HistoryState)
    → s.history_listen.recorded_instance_id ≡ s.current_playback_instance_id
    → ((retried s).history_listen.recorded_instance_id
        ≡ (if is_some s.snapshot.last_error then none else s.current_playback_instance_id))
unfolding retried
retried-mark s h = ground (arith, opt_eq_refl s.current_playback_instance_id)

-- Without an account, and while the anonymous history is enabled, a listen comes to the front of the
-- buffer and of the entries that are shown, which are cut at their limits, and its instance is
-- marked; but where the snapshot shows an error, of whatever, the mark is taken away again.
pub record_answer-marks :
    (port : Option HistoryPort) (listen : EnginePlaybackRecord) (s : HistoryState)
    → from_state s.snapshot.auth_state ≡ none
    → s.anonymous_history.enabled ≡ true
    → ((record_answer port (ok listen) s).anonymous_history.buffered
        ≡ truncated s.anonymous_history.max_entries
            (anonymous_entry listen s ∷ s.anonymous_history.buffered))
      × ((record_answer port (ok listen) s).history_entries
          ≡ truncated max_history_page_size (
              anonymous_entry listen s
              ∷ without_entry (anonymous_entry listen s).id s.history_entries))
      × ((record_answer port (ok listen) s).history_listen.recorded_instance_id
          ≡ (if is_some s.snapshot.last_error then none else s.current_playback_instance_id))
unfolding record_answer record_anonymous_history_event publish_history_entry
record_answer-marks port listen s a e =
    let marked = recorded_as s.current_playback_instance_id s in
    let shown = with_settings marked in
    let recorded = record_anonymous_history_event listen shown in
    let keeps = settings-keeps listen marked.history_settings marked in
    let entry : anonymous_entry listen shown ≡ anonymous_entry listen s =
      keeps.0 ∙ same_entry listen s in
    rw (listen-anonymous port listen marked a e) (
      ap (λ h. h.buffered) (retried-keeps recorded).0
          ∙ ap (λ h. truncated h.max_entries (anonymous_entry listen shown ∷ h.buffered)) keeps.1
          ∙ ap (λ x. truncated s.anonymous_history.max_entries (x ∷ s.anonymous_history.buffered))
              entry,
      (retried-keeps recorded).1
          ∙ ap
              (λ xs.
                truncated max_history_page_size (
                  anonymous_entry listen shown
                  ∷ without_entry (anonymous_entry listen shown).id xs))
              keeps.2
          ∙ ap (λ x. truncated max_history_page_size (x ∷ without_entry x.id s.history_entries))
              entry,
      retried-mark recorded refl
          ∙ ap (λ o. if is_some o then none else shown.current_playback_instance_id) keeps.3
          ∙ ap (λ i. if is_some s.snapshot.last_error then none else i) keeps.4,
    )
