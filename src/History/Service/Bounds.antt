-- ===== src/History/Service/Bounds.antt =====
-- rust/engine/crates/app_core/src/engine/core/history.rs: what the service answers keeps the anonymous
-- history and the entries that are shown within their limits.
use media_app.Prelude.{
  ℕ, zero, suc, ◌≤◌, String, true, false, Option, none, some, List, [], ◌∷◌, length, ◌++◌, inl, inr,
  Option-cases, Bool-cases, arith, if◌then◌else◌, ◌||◌,
}
use media_app.Model.Error.{EngineError, EngineResult, EngineResult-cases, ok, err}
use media_app.Model.History.{EngineHistoryEntry, EngineHistorySettings, to_playback_record}
use media_app.Library.{AuthIdentity, Reply}
use media_app.History.{HistoryState, max_history_page_size, truncated}
use media_app.History.Service.{
  HistoryPort, clear_anonymous_history, failed_if, owner_history_identity,
  history_result_for_current_identity, is_empty, not_promoted, oldest_first, promote,
  reconcile_anonymous_history, reconcile_anonymous_history_impl, reconcile_with, settle_promoted,
}

pub truncated-length : (n : ℕ) (xs : List EngineHistoryEntry) → length (truncated n xs) ≤ n
unfolding truncated
truncated-length zero [] = omega arith
truncated-length (suc n) [] = omega arith
truncated-length zero (x ∷ xs) = omega arith
truncated-length (suc n) (x ∷ xs) = omega (arith, truncated-length n xs)

not_promoted-length :
    (ids : List String) (xs : List EngineHistoryEntry) → length (not_promoted ids xs) ≤ length xs
unfolding not_promoted
not_promoted-length ids [] = omega arith
not_promoted-length ids (x ∷ xs) = ground (arith, not_promoted-length ids xs)

-- The buffer has room for what it holds, and a page for what is shown.
abbrev pub IsBounded : HistoryState → Type 0
IsBounded s =
    (length s.anonymous_history.buffered ≤ s.anonymous_history.max_entries)
    × (length s.history_entries ≤ max_history_page_size)

pub clear-IsBounded : (s : HistoryState) → IsBounded s → IsBounded (clear_anonymous_history s)
unfolding clear_anonymous_history
clear-IsBounded s b = ground arith

pub result-IsBounded :
    {A : Type 0} (identity : AuthIdentity) (reply : Reply A) (s : HistoryState)
    → IsBounded s
    → IsBounded (history_result_for_current_identity identity reply s).1
unfolding history_result_for_current_identity
result-IsBounded identity reply s b = ground arith

failed_if-IsBounded :
    (error : Option EngineError) (s : HistoryState) → IsBounded s → IsBounded (failed_if error s)
failed_if-IsBounded none s b = b
failed_if-IsBounded (some error) s b = b

settle_promoted-IsBounded :
    (answer : EngineResult (List String)) (s : HistoryState)
    → IsBounded s
    → IsBounded (settle_promoted answer s).1
unfolding settle_promoted
settle_promoted-IsBounded (err e) s b = b
settle_promoted-IsBounded (ok []) s b = b
settle_promoted-IsBounded (ok (id ∷ ids)) s b =
    (omega (arith, b.0, not_promoted-length (id ∷ ids) s.anonymous_history.buffered), omega arith)

module _ (port : HistoryPort) (identity : AuthIdentity) where
  promote-IsBounded :
      (promoted : List String) (pending : List EngineHistoryEntry) (s : HistoryState)
      → IsBounded s
      → IsBounded (promote port identity promoted pending s).1
  unfolding promote
  promote-IsBounded promoted [] s b = b
  promote-IsBounded promoted (entry ∷ pending) s b =
      elim (Option-cases (to_playback_record entry)) [
        | inl e ↦ rw (e, promote) (promote-IsBounded (promoted ++ entry.id ∷ []) pending s b)
        | inr (listen, e) ↦
            let reply = port.record_listen s.requests (owner_history_identity identity) listen in
            let seen = history_result_for_current_identity identity reply s in
            let known = result-IsBounded identity reply s b in
            elim (EngineResult-cases seen.0) [
              | inl (accepted, f) ↦
                  rw (e, f, promote)
                    (promote-IsBounded (if accepted then promoted ++ entry.id ∷ [] else promoted)
                      pending seen.1 known)
              | inr (error, f) ↦ rw (e, f, promote) known
            ]
      ]

  reconcile_with-IsBounded :
      (settings : EngineHistorySettings) (s : HistoryState)
      → IsBounded s
      → IsBounded (reconcile_with port identity settings s).1
  unfolding reconcile_with
  reconcile_with-IsBounded settings s b =
      let pending = oldest_first [] s.anonymous_history.buffered in
      let promoted = promote port identity [] pending s in
      let done =
        settle_promoted-IsBounded promoted.0 promoted.1 (promote-IsBounded [] pending s b) in
      let cleared = clear-IsBounded s b in
      elim (Bool-cases settings.enabled) [
        | inl e ↦ rw (e, if◌then◌else◌) done
        | inr e ↦ rw (e, if◌then◌else◌) cleared
      ]

  impl-IsBounded :
      (s : HistoryState)
      → IsBounded s
      → IsBounded (reconcile_anonymous_history_impl port identity s).1
  unfolding reconcile_anonymous_history_impl
  impl-IsBounded s b = elim (Option-cases s.history_settings) [
    | inr (settings, e) ↦
        rw (e, reconcile_anonymous_history_impl) (reconcile_with-IsBounded settings s b)
    | inl e ↦
        let reply = port.get_settings s.requests (owner_history_identity identity) in
        let known = result-IsBounded identity reply s b in
        elim (EngineResult-cases (history_result_for_current_identity identity reply s).0) [
          | inl (settings, f) ↦
              rw (e, f, reconcile_anonymous_history_impl)
                (reconcile_with-IsBounded settings _ known)
          | inr (error, f) ↦ rw (e, f, reconcile_anonymous_history_impl) known
        ]
  ]

  pub reconcile-IsBounded :
      (s : HistoryState) → IsBounded s → IsBounded (reconcile_anonymous_history port identity s)
  unfolding reconcile_anonymous_history
  reconcile-IsBounded s b =
      let started = record s { reconciliation_in_flight = true } in
      let reconciled = reconcile_anonymous_history_impl port identity started in
      let done = record reconciled.1 { reconciliation_in_flight = false } in
      let kept = failed_if-IsBounded reconciled.0 done (impl-IsBounded started b) in
      elim (Bool-cases (s.reconciliation_in_flight || is_empty s.anonymous_history.buffered)) [
        | inl e ↦ rw (e, if◌then◌else◌) b
        | inr e ↦ rw (e, if◌then◌else◌) kept
      ]
