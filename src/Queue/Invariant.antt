-- ===== src/Queue/Invariant.antt =====
-- data/queue/manager.rs: the cursor of a queue points into it, whatever its callers do.
use media_app.Prelude.{ℕ, ◌<◌, Bool, Option, none, some, List, [], ◌∷◌, arith, length}
use media_app.Model.Media.{MediaItem}
use media_app.Queue.Mode.{RepeatMode}
use media_app.Queue.{
  QueueManager, new, set_current_index, next_item, previous_item, set_shuffle, set_repeat_mode,
  set_items,
}

-- The cursor, if there is one, is the index of an item.
abbrev pub InRange : Option ℕ → List MediaItem → Type 0
InRange none items = Unit {0}
InRange (some i) items = i < length items

abbrev pub IsValid : QueueManager → Type 0
IsValid q = InRange q.current_index q.items

-- The calls that a client can make.
pub data Call : Type 0 where
  select : ℕ → Call
  next : Call
  previous : Call
  shuffle : Bool → Call
  repeat : RepeatMode → Call
  replace : List MediaItem → Call

unfoldable pub apply : QueueManager → Call → QueueManager
apply q (select i) = set_current_index q i
apply q next = (next_item q).0
apply q previous = (previous_item q).0
apply q (shuffle b) = set_shuffle q b
apply q (repeat m) = set_repeat_mode q m
apply q (replace items) = set_items q items

unfoldable pub run : QueueManager → List Call → QueueManager
run q [] = q
run q (c ∷ cs) = run (apply q c) cs

pub next_item-IsValid : (q : QueueManager) → IsValid q → IsValid (next_item q).0
unfolding next_item
next_item-IsValid q h = ground arith

pub previous_item-IsValid : (q : QueueManager) → IsValid q → IsValid (previous_item q).0
unfolding previous_item
previous_item-IsValid q h = ground arith

pub set_items-IsValid : (q : QueueManager) (items : List MediaItem) → IsValid (set_items q items)
unfolding set_items
set_items-IsValid q items = ground arith

pub set_current_index-IsValid :
    (q : QueueManager) (i : ℕ) → IsValid q → IsValid (set_current_index q i)
unfolding set_current_index
set_current_index-IsValid q i h = ground arith

-- One call keeps the cursor in range.
pub apply-IsValid : (q : QueueManager) (c : Call) → IsValid q → IsValid (apply q c)
unfolding apply set_shuffle set_repeat_mode
apply-IsValid q (select i) h = set_current_index-IsValid q i h
apply-IsValid q next h = next_item-IsValid q h
apply-IsValid q previous h = previous_item-IsValid q h
apply-IsValid q (shuffle b) h = h
apply-IsValid q (repeat m) h = h
apply-IsValid q (replace items) h = set_items-IsValid q items

run-IsValid : (q : QueueManager) (cs : List Call) → IsValid q → IsValid (run q cs)
unfolding run
run-IsValid q [] h = h
run-IsValid q (c ∷ cs) h = run-IsValid (apply q c) cs (apply-IsValid q c h)

-- A queue built by `new` and used through any sequence of calls has its cursor, if it has one, at
-- an item of the queue.
pub new-run-IsValid : (items : List MediaItem) (cs : List Call) → IsValid (run (new items) cs)
unfolding new
new-run-IsValid items cs = run-IsValid (new items) cs tt
