-- ===== src/Actor/Ledger/Closing.antt =====
-- rust/engine/crates/app_core/src/engine/actor/state.rs: what the end of the actor leaves, on the
-- ledger.
use mathlib.Core.List.{append_assoc, append-nil}
use media_app.Prelude.{
  ℕ, ◌≡◌, refl, true, List, [], ◌∷◌, ◌++◌, ◌⊎◌, inl, inr, arith, ap, Bool-cases, if◌then◌else◌,
}
use media_app.Actor.State.{contains}
use media_app.Actor.Ledger.{Ledger, accept, conclude, accept_each, drain, settle_open, close}
use media_app.Actor.Ledger.Invariant.{unique, IsSound, unique-middle, append-contains}

-- What the ledger says at the end: nothing waits in the mailbox; what was in it is accepted; and the
-- outcomes are those of the accepted commands, each of which has exactly one.
pub record IsClosed (before after : Ledger) : Type 0 where
  pub drained : after.queued ≡ []
  pub accepts : after.accepted ≡ before.accepted ++ before.queued
  pub answers : (x : ℕ) → contains x after.outcomes ≡ contains x after.accepted
  pub once : unique after.outcomes ≡ true

accept_each-append :
    (ids : List ℕ) (l : Ledger)
    → unique (l.accepted ++ ids) ≡ true
    → (accept_each ids l ≡ record l { accepted = l.accepted ++ ids })
unfolding accept_each accept
accept_each-append [] l h = rw (append-nil l.accepted)
accept_each-append (id ∷ ids) l h =
    let u : unique ((l.accepted ++ id ∷ []) ++ ids) ≡ true =
      rw (append_assoc l.accepted (id ∷ []) ids) h in
    let step : accept id l ≡ record l { accepted = l.accepted ++ id ∷ [] } =
      rw ((unique-middle id l.accepted ids h).0, if◌then◌else◌) in
    rw (
      step,
      accept_each-append ids (record l { accepted = l.accepted ++ id ∷ [] }) u,
      append_assoc l.accepted (id ∷ []) ids,
    )

-- Settling what is open.
record Settles (ids : List ℕ) (l m : Ledger) : Type 0 where
  same_queue : m.queued ≡ l.queued
  same_accepted : m.accepted ≡ l.accepted
  covers : (x : ℕ) → contains x ids ≡ true → contains x m.terminal ≡ true
  keeps : (x : ℕ) → contains x l.terminal ≡ true → contains x m.terminal ≡ true
  adds :
      (x : ℕ)
      → contains x m.terminal ≡ true
      → (contains x l.terminal ≡ true) ⊎ (contains x ids ≡ true)
  reports : l.outcomes ≡ l.terminal → m.outcomes ≡ m.terminal
  stays_unique : unique l.terminal ≡ true → unique m.terminal ≡ true

settle_open-Settles : (ids : List ℕ) (l : Ledger) → Settles ids l (settle_open ids l)
unfolding settle_open contains unique
settle_open-Settles [] l = record {
  same_queue = refl;
  same_accepted = refl;
  covers = λ x h. ground arith;
  keeps = λ x h. h;
  adds = λ x h. inl h;
  reports = λ h. h;
  stays_unique = λ h. h;
}
settle_open-Settles (id ∷ ids) l = elim (Bool-cases (contains id l.terminal)) [
  | inl e ↦
      let r = settle_open-Settles ids l in
      rw (e, if◌then◌else◌)
        (record {
          same_queue = r.same_queue;
          same_accepted = r.same_accepted;
          covers = λ x h. ground (arith, r.covers x, r.keeps x);
          keeps = r.keeps;
          adds = λ x h. ground (arith, r.adds x);
          reports = r.reports;
          stays_unique = r.stays_unique;
        })
  | inr e ↦
      let r = settle_open-Settles ids (conclude id l) in
      rw (e, if◌then◌else◌)
        (record {
          same_queue = r.same_queue;
          same_accepted = r.same_accepted;
          covers = λ x h. ground (arith, r.covers x, r.keeps x);
          keeps = λ x h. ground (arith, r.keeps x);
          adds = λ x h. ground (arith, r.adds x);
          reports = λ h. r.reports (rw h);
          stays_unique = λ h. ground (arith, r.stays_unique);
        })
]

drain_lem :
    (l : Ledger)
    → IsSound l
    → (drain l ≡ record l { queued = []; accepted = l.accepted ++ l.queued })
unfolding drain
drain_lem l s = rw (accept_each-append l.queued l s.issued)

-- The terminal commands are the accepted ones, where they were among them.
settled-members :
    (x : ℕ) (ids : List ℕ) (l : Ledger)
    → (contains x l.terminal ≡ true → contains x ids ≡ true)
    → Settles ids l (settle_open ids l)
    → (contains x (settle_open ids l).terminal ≡ contains x ids)
settled-members x ids l known r = elim (Bool-cases (contains x ids)) [
  | inl e ↦ rw (e, r.covers x e)
  | inr e ↦ elim (Bool-cases (contains x (settle_open ids l).terminal)) [
    | inl t ↦ elim (r.adds x t) [ inl h ↦ rw (t, known h) | inr h ↦ rw (t, h) ]
    | inr t ↦ rw (e, t)
  ]
]

close_lem :
    (l : Ledger)
    → IsSound l
    → (close l
        ≡ settle_open
            (l.accepted ++ l.queued)
            (record l { queued = []; accepted = l.accepted ++ l.queued }))
unfolding close
close_lem l s = ap (λ m. settle_open m.accepted m) (drain_lem l s)

-- The end of the actor answers every command that was issued, and none twice.
pub close-IsClosed : (l : Ledger) → IsSound l → IsClosed l (close l)
close-IsClosed l s =
    let ids = l.accepted ++ l.queued in
    let d = record l { queued = []; accepted = ids } in
    let r = settle_open-Settles ids d in
    rw (close_lem l s) (record {
      drained = r.same_queue;
      accepts = r.same_accepted;
      answers = λ x.
          rw (r.reports s.reported, r.same_accepted)
            (settled-members x ids d
              (λ h. append-contains x l.accepted l.queued (inl (s.known x h))) r);
      once = rw (r.reports s.reported) (r.stays_unique s.once);
    })
