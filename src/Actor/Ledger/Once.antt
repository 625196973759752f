-- ===== src/Actor/Ledger/Once.antt =====
-- rust/engine/crates/app_core/src/engine/actor/state.rs: the rules of the ledger keep the invariant,
-- and its end gives every command its one outcome.
use mathlib.Core.List.{append_assoc}
use media_app.Prelude.{ℕ, ◌≡◌, sym, true, false, List, [], ◌∷◌, ◌++◌, inr, arith}
use media_app.Actor.State.{contains}
use media_app.Actor.Ledger.{
  Ledger, conclude, park, unpark, ◌⇒◌, idle, submitted, refused, answered, launched, completed,
  issue,
}
use media_app.Actor.Ledger.Invariant.{
  unique, commands, IsSound, append-contains, below-contains, below-snoc, below_mono, unique-snoc,
  unique-middle, remove_key-contains, unique-remove_key, find_key-contains, find_key-remove_key,
  accept-fresh, accept-IsSound,
}

-- An accepted command that has no outcome and no operation gets its outcome.
settle-IsSound :
    (id : ℕ) (l : Ledger)
    → IsSound l
    → contains id l.accepted ≡ true
    → contains id l.terminal ≡ false
    → contains id (commands l.pending) ≡ false
    → IsSound (conclude id l)
unfolding unique contains
settle-IsSound id l s a t p = record {
  fresh = s.fresh;
  issued = s.issued;
  reported = rw s.reported;
  once = ground (arith, s.once);
  known = λ x h. ground (arith, s.known x);
  single = s.single;
  waiting = s.waiting;
  unanswered = λ x h. ground (arith, s.unanswered x);
}

unpark-IsSound : (key : ℕ) (l : Ledger) → IsSound l → IsSound (unpark key l)
unfolding unpark
unpark-IsSound key l s = record {
  fresh = s.fresh;
  issued = s.issued;
  reported = s.reported;
  once = s.once;
  known = s.known;
  single = unique-remove_key key l.pending s.single;
  waiting = λ x h. s.waiting x (remove_key-contains key x l.pending h);
  unanswered = λ x h. s.unanswered x (remove_key-contains key x l.pending h);
}

park-IsSound :
    (key id : ℕ) (l : Ledger)
    → IsSound l
    → contains id l.accepted ≡ true
    → contains id l.terminal ≡ false
    → contains id (commands l.pending) ≡ false
    → IsSound (park key id l)
unfolding unique contains commands park
park-IsSound key id l s a t p = record {
  fresh = s.fresh;
  issued = s.issued;
  reported = s.reported;
  once = s.once;
  known = s.known;
  single =
      ground
        (arith, unique-remove_key key l.pending s.single, remove_key-contains key id l.pending);
  waiting = λ x h. ground (arith, s.waiting x, remove_key-contains key x l.pending);
  unanswered = λ x h. ground (arith, s.unanswered x, remove_key-contains key x l.pending);
}

issue-IsSound : (l : Ledger) → IsSound l → IsSound (issue l)
issue-IsSound l s =
    let all = l.accepted ++ l.queued in
    let shift = sym (append_assoc l.accepted l.queued (l.next ∷ [])) in
    record {
      fresh = rw shift (below-snoc l.next all s.fresh);
      issued = rw shift (unique-snoc l.next all s.issued (below-contains l.next all s.fresh));
      reported = s.reported;
      once = s.once;
      known = s.known;
      single = s.single;
      waiting = s.waiting;
      unanswered = s.unanswered;
    }

-- The command that heads the mailbox is unknown to the rest of the ledger.
head_unknown :
    (id : ℕ) (ids : List ℕ) (l : Ledger)
    → IsSound l
    → l.queued ≡ id ∷ ids
    → (contains id l.terminal ≡ false) × (contains id (commands l.pending) ≡ false)
head_unknown id ids l s q =
    let u : unique (l.accepted ++ id ∷ ids) ≡ true = rw (sym q) s.issued in
    let fresh = (unique-middle id l.accepted ids u).0 in
    (ground (arith, s.known id), ground (arith, s.waiting id))

accepted_head : (id : ℕ) (xs : List ℕ) → contains id (xs ++ id ∷ []) ≡ true
unfolding contains
accepted_head id xs = append-contains id xs (id ∷ []) (inr (ground arith))

-- Every rule keeps the invariant.
pub ⇒-IsSound : {l m : Ledger} → l ⇒ m → IsSound l → IsSound m
unfolding unpark
⇒-IsSound idle s = s
⇒-IsSound {l} (submitted h) s = issue-IsSound l s
⇒-IsSound {l} (refused h) s = record {
  fresh = below_mono l.next (l.accepted ++ l.queued) s.fresh;
  issued = s.issued;
  reported = s.reported;
  once = s.once;
  known = s.known;
  single = s.single;
  waiting = s.waiting;
  unanswered = s.unanswered;
}
⇒-IsSound {l} (answered id ids q) s =
    let new = head_unknown id ids l s q in
    rw (accept-fresh id ids l s q) (
      settle-IsSound id (record l { queued = ids; accepted = l.accepted ++ id ∷ [] })
        (accept-IsSound id ids l s q) (accepted_head id l.accepted) new.0 new.1)
⇒-IsSound {l} (launched id ids key q) s =
    let new = head_unknown id ids l s q in
    rw (accept-fresh id ids l s q) (
      park-IsSound key id (record l { queued = ids; accepted = l.accepted ++ id ∷ [] })
        (accept-IsSound id ids l s q) (accepted_head id l.accepted) new.0 new.1)
⇒-IsSound {l} (completed key id h) s =
    let c = find_key-contains key l.pending id h in
    settle-IsSound id (unpark key l) (unpark-IsSound key l s) (s.waiting id c) (s.unanswered id c)
      (find_key-remove_key key l.pending id s.single h)
