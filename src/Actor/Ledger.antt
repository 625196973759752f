-- ===== src/Actor/Ledger.antt =====
-- rust/engine/crates/app_core/src/engine/actor/state.rs: what the actor promises of commands, without
-- engine, snapshots, generations and messages. A ledger holds identifiers only; the actor moves it
-- by the rules here.
pub mod Invariant
pub mod Once
pub mod Closing
use media_app.Prelude.{
  ℕ, zero, suc, ◌+◌, ◌<◌, ◌≡◌, Bool, Option, none, some, List, [], ◌∷◌, ◌++◌, ◌==◌, if◌then◌else◌,
}
use media_app.Actor.State.{contains}

-- The commands by their identifiers: those that wait in the mailbox, those that were accepted, those
-- whose operation is pending (by the operation), those that are terminal, and those that have an
-- outcome, once for each.
pub record Ledger : Type 0 where
  pub next : ℕ
  pub queued : List ℕ
  pub accepted : List ℕ
  pub pending : List (ℕ × ℕ)
  pub terminal : List ℕ
  pub outcomes : List ℕ

-- A caller submits a command.
abbrev pub issue : Ledger → Ledger
issue l = record l { next = l.next + 1; queued = l.queued ++ l.next ∷ [] }

unfoldable pub accept : ℕ → Ledger → Ledger
unfolding contains
accept id l = if contains id l.accepted then l else record l { accepted = l.accepted ++ id ∷ [] }

-- A command gets its outcome.
abbrev pub conclude : ℕ → Ledger → Ledger
conclude id l = record l { terminal = id ∷ l.terminal; outcomes = id ∷ l.outcomes }

unfoldable pub find_key : ℕ → List (ℕ × ℕ) → Option ℕ
find_key key [] = none
find_key key ((k, id) ∷ rest) = let found = find_key key rest in if k == key then some id else found

unfoldable pub remove_key : ℕ → List (ℕ × ℕ) → List (ℕ × ℕ)
remove_key key [] = []
remove_key key ((k, id) ∷ rest) =
    let kept = remove_key key rest in if k == key then kept else (k, id) ∷ kept

-- A command waits for its operation.
unfoldable pub park : ℕ → ℕ → Ledger → Ledger
unfolding remove_key
park key id l = record l { pending = (key, id) ∷ remove_key key l.pending }

-- The operation of a command is done.
unfoldable pub unpark : ℕ → Ledger → Ledger
unfolding remove_key
unpark key l = record l { pending = remove_key key l.pending }

unfoldable pub accept_each : List ℕ → Ledger → Ledger
unfolding accept
accept_each [] l = l
accept_each (id ∷ ids) l = accept_each ids (accept id l)

-- Every command of the mailbox is accepted.
unfoldable pub drain : Ledger → Ledger
unfolding accept_each
drain l = record (accept_each l.queued l) { queued = [] }

unfoldable pub settle_open : List ℕ → Ledger → Ledger
unfolding contains
settle_open [] l = l
settle_open (id ∷ ids) l = settle_open ids (if contains id l.terminal then l else conclude id l)

-- The end of the actor: the mailbox is drained, and every command that is open gets its outcome.
unfoldable pub close : Ledger → Ledger
unfolding drain settle_open
close l = let drained = drain l in settle_open drained.accepted drained

-- The number of identifiers.
abbrev pub id_limit : ℕ
id_limit = 18446744073709551615

infix 40 ◌⇒◌
pub data ◌⇒◌ : Ledger → Ledger → Type 0 where
  idle : {l : Ledger} → l ⇒ l
  submitted : {l : Ledger} → l.next < id_limit → l ⇒ issue l
  refused : {l : Ledger} → l.next < id_limit → l ⇒ record l { next = l.next + 1 }
  answered :
      {l : Ledger} (id : ℕ) (ids : List ℕ)
      → l.queued ≡ id ∷ ids
      → l ⇒ conclude id (accept id (record l { queued = ids }))
  launched :
      {l : Ledger} (id : ℕ) (ids : List ℕ) (key : ℕ)
      → l.queued ≡ id ∷ ids
      → l ⇒ park key id (accept id (record l { queued = ids }))
  completed :
      {l : Ledger} (key id : ℕ) → find_key key l.pending ≡ some id → l ⇒ conclude id (unpark key l)
