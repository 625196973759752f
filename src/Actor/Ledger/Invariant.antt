-- ===== src/Actor/Ledger/Invariant.antt =====
-- rust/engine/crates/app_core/src/engine/actor/state.rs: no command has two outcomes, on the ledger.
use mathlib.Core.List.{append_assoc}
use media_app.Prelude.{
  ℕ, ◌+◌, ◌≡◌, refl, sym, if◌then◌else◌, Bool, true, false, not, ◌&&◌, some, List, [], ◌∷◌, ◌++◌,
  ltb, ◌⊎◌, inl, inr, arith,
}
use media_app.Actor.State.{contains}
use media_app.Actor.Ledger.{Ledger, accept, find_key, remove_key}

-- No identifier stands twice in a list.
unfoldable pub unique : List ℕ → Bool
unfolding contains
unique [] = true
unique (x ∷ xs) = not (contains x xs) && unique xs

unfoldable pub below : ℕ → List ℕ → Bool
below n [] = true
below n (x ∷ xs) = ltb x n && below n xs

unfoldable pub commands : List (ℕ × ℕ) → List ℕ
commands [] = []
commands ((key, id) ∷ rest) = id ∷ commands rest

pub contains-append :
    (x : ℕ) (xs ys : List ℕ)
    → contains x (xs ++ ys) ≡ true
    → (contains x xs ≡ true) ⊎ (contains x ys ≡ true)
unfolding contains
contains-append x [] ys h = inr h
contains-append x (y ∷ xs) ys h = ground (arith, contains-append x xs ys)

pub append-contains :
    (x : ℕ) (xs ys : List ℕ)
    → (contains x xs ≡ true) ⊎ (contains x ys ≡ true)
    → (contains x (xs ++ ys) ≡ true)
unfolding contains
append-contains x [] ys (inl h) = ground arith
append-contains x [] ys (inr h) = h
append-contains x (y ∷ xs) ys h = ground (arith, append-contains x xs ys)

pub below-contains : (n : ℕ) (xs : List ℕ) → below n xs ≡ true → contains n xs ≡ false
unfolding contains below
below-contains n [] h = refl
below-contains n (x ∷ xs) h = ground (arith, below-contains n xs)

pub below_mono : (n : ℕ) (xs : List ℕ) → below n xs ≡ true → below (n + 1) xs ≡ true
unfolding below
below_mono n [] h = refl
below_mono n (x ∷ xs) h = ground (arith, below_mono n xs)

pub below-snoc : (n : ℕ) (xs : List ℕ) → below n xs ≡ true → below (n + 1) (xs ++ n ∷ []) ≡ true
unfolding below
below-snoc n [] h = ground arith
below-snoc n (x ∷ xs) h = ground (arith, below-snoc n xs)

pub unique-snoc :
    (x : ℕ) (xs : List ℕ)
    → unique xs ≡ true
    → contains x xs ≡ false
    → (unique (xs ++ x ∷ []) ≡ true)
unfolding unique contains
unique-snoc x [] h k = refl
unique-snoc x (y ∷ xs) h k = ground (arith, unique-snoc x xs, contains-append y xs (x ∷ []))

-- What stands between two parts of such a list is in neither.
pub unique-middle :
    (x : ℕ) (xs ys : List ℕ)
    → unique (xs ++ x ∷ ys) ≡ true
    → (contains x xs ≡ false) × (contains x ys ≡ false)
unfolding unique contains
unique-middle x [] ys h = ground arith
unique-middle x (y ∷ xs) ys h = ground (arith, unique-middle x xs ys, append-contains y xs (x ∷ ys))

-- The commands issued so far are distinct, and so are those with an outcome, which are the terminal
-- ones. A pending command is accepted, has no outcome yet, and no other operation.
pub record IsSound (l : Ledger) : Type 0 where
  pub fresh : below l.next (l.accepted ++ l.queued) ≡ true
  pub issued : unique (l.accepted ++ l.queued) ≡ true
  pub reported : l.outcomes ≡ l.terminal
  pub once : unique l.terminal ≡ true
  pub known : (x : ℕ) → contains x l.terminal ≡ true → contains x l.accepted ≡ true
  pub single : unique (commands l.pending) ≡ true
  pub waiting : (x : ℕ) → contains x (commands l.pending) ≡ true → contains x l.accepted ≡ true
  pub unanswered : (x : ℕ) → contains x (commands l.pending) ≡ true → contains x l.terminal ≡ false

pub remove_key-contains :
    (key x : ℕ) (ps : List (ℕ × ℕ))
    → contains x (commands (remove_key key ps)) ≡ true
    → (contains x (commands ps) ≡ true)
unfolding contains commands remove_key
remove_key-contains key x [] h = h
remove_key-contains key x ((k, id) ∷ ps) h = ground (arith, remove_key-contains key x ps)

pub unique-remove_key :
    (key : ℕ) (ps : List (ℕ × ℕ))
    → unique (commands ps) ≡ true
    → (unique (commands (remove_key key ps)) ≡ true)
unfolding unique contains commands remove_key
unique-remove_key key [] h = refl
unique-remove_key key ((k, id) ∷ ps) h =
    ground (arith, unique-remove_key key ps, remove_key-contains key id ps)

pub find_key-contains :
    (key : ℕ) (ps : List (ℕ × ℕ)) (id : ℕ)
    → find_key key ps ≡ some id
    → (contains id (commands ps) ≡ true)
unfolding contains commands find_key
find_key-contains key [] id h = ground arith
find_key-contains key ((k, i) ∷ ps) id h = ground (arith, find_key-contains key ps id)

-- The command of an operation has no other: it is gone with it.
pub find_key-remove_key :
    (key : ℕ) (ps : List (ℕ × ℕ)) (id : ℕ)
    → unique (commands ps) ≡ true
    → find_key key ps ≡ some id
    → (contains id (commands (remove_key key ps)) ≡ false)
unfolding unique contains commands find_key remove_key
find_key-remove_key key [] id u h = ground arith
find_key-remove_key key ((k, i) ∷ ps) id u h = ground (
  arith,
  find_key-remove_key key ps id,
  find_key-contains key ps id,
  remove_key-contains key id ps,
  remove_key-contains key i ps,
)

pub accept-fresh :
    (id : ℕ) (ids : List ℕ) (l : Ledger)
    → IsSound l
    → l.queued ≡ id ∷ ids
    → (accept id (record l { queued = ids })
        ≡ record l { queued = ids; accepted = l.accepted ++ id ∷ [] })
unfolding accept
accept-fresh id ids l s q =
    let u : unique (l.accepted ++ id ∷ ids) ≡ true = rw (sym q) s.issued in
    rw ((unique-middle id l.accepted ids u).0, if◌then◌else◌)

-- The next command of the mailbox is accepted.
pub accept-IsSound :
    (id : ℕ) (ids : List ℕ) (l : Ledger)
    → IsSound l
    → l.queued ≡ id ∷ ids
    → IsSound (record l { queued = ids; accepted = l.accepted ++ id ∷ [] })
accept-IsSound id ids l s q = record {
  fresh = rw (append_assoc l.accepted (id ∷ []) ids, sym q) s.fresh;
  issued = rw (append_assoc l.accepted (id ∷ []) ids, sym q) s.issued;
  reported = s.reported;
  once = s.once;
  known = λ x h. append-contains x l.accepted (id ∷ []) (inl (s.known x h));
  single = s.single;
  waiting = λ x h. append-contains x l.accepted (id ∷ []) (inl (s.waiting x h));
  unanswered = s.unanswered;
}
