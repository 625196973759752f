-- ===== src/Queue.antt =====
-- rust/engine/crates/app_core/src/data/queue/manager.rs: `QueueManager`. A method that takes
-- `&mut self` returns the new queue, beside its result where it has one. `usize` and `u64` are
-- natural numbers; `generation` keeps its saturation.
pub mod Mode
pub mod Invariant
pub mod Cursor
pub mod Traversal
use media_app.Prelude.{
  ℕ, ◌+◌, ◌-◌, ◌%◌, Bool, true, false, ◌&&◌, Option, none, some, List, [], ◌∷◌, length, get_elem?,
  ltb, ◌==◌, if◌then◌else◌, is_some, saturating_add,
}
use mathlib.Core.Option
use media_app.Model.Media.{MediaItem}
use Mode.{RepeatMode, is_all, repeats}

pub record QueueManager : Type 0 where
  pub items : List MediaItem
  pub current_index : Option ℕ
  pub shuffle_enabled : Bool
  pub repeat_mode : RepeatMode
  pub generation : ℕ

abbrev pub is_nil : List MediaItem → Bool
is_nil [] = true
is_nil (_ ∷ _) = false

unfoldable pub new : List MediaItem → QueueManager
new items = record {
  items = items;
  current_index = none;
  shuffle_enabled = false;
  repeat_mode = RepeatMode.none;
  generation = if is_nil items then 0 else 1;
}

-- `self.current_index.and_then(|idx| self.items.get(idx))`.
unfoldable pub current_item : QueueManager → Option MediaItem
current_item q = elim q.current_index [ none ↦ none | some i ↦ get_elem? q.items i ]

unfoldable pub set_current_index : QueueManager → ℕ → QueueManager
set_current_index q index =
    if ltb index (length q.items) then record q { current_index = some index } else q

-- `self.current_index.unwrap_or(0)`.
abbrev pub cursor : QueueManager → ℕ
cursor q = Option.get_or q.current_index 0

-- The `match` of `next_item` on the repeat mode; `none` is its early return.
unfoldable pub next_index : RepeatMode → ℕ → ℕ → Option ℕ
next_index RepeatMode.one current n = some current
next_index RepeatMode.all current n = some ((current + 1) % n)
next_index RepeatMode.none current n = if ltb (current + 1) n then some (current + 1) else none

-- Moves the cursor to a target, if there is one, and returns the item there.
unfoldable pub move_to : QueueManager → Option ℕ → QueueManager × Option MediaItem
unfolding current_item
move_to q none = (q, none)
move_to q (some i) = let q' = record q { current_index = some i } in (q', current_item q')

unfoldable pub next_item : QueueManager → QueueManager × Option MediaItem
unfolding next_index move_to
next_item q =
    if is_nil q.items
    then (q, none)
    else move_to q (next_index q.repeat_mode (cursor q) (length q.items))

-- The `if` of `previous_item`; `none` is its early return.
unfoldable pub previous_index : RepeatMode → ℕ → ℕ → Option ℕ
previous_index mode current n =
    if current == 0 then (if is_all mode then some (n - 1) else none) else some (current - 1)

unfoldable pub previous_item : QueueManager → QueueManager × Option MediaItem
unfolding previous_index move_to
previous_item q =
    if is_nil q.items
    then (q, none)
    else move_to q (previous_index q.repeat_mode (cursor q) (length q.items))

unfoldable pub set_shuffle : QueueManager → Bool → QueueManager
set_shuffle q enabled = record q { shuffle_enabled = enabled }

unfoldable pub set_repeat_mode : QueueManager → RepeatMode → QueueManager
set_repeat_mode q mode = record q { repeat_mode = mode }

unfoldable pub set_items : QueueManager → List MediaItem → QueueManager
set_items q items = record q {
  items = items;
  current_index = if is_nil items then none else some 0;
  generation = saturating_add q.generation 1;
}

unfoldable pub has_next : QueueManager → Bool
has_next q =
    if is_nil q.items
    then false
    else (if repeats q.repeat_mode then true else ltb (cursor q + 1) (length q.items))

unfoldable pub has_previous : QueueManager → Bool
has_previous q =
    if is_nil q.items then false else (if repeats q.repeat_mode then true else ltb 0 (cursor q))

unfoldable pub has_current : QueueManager → Bool
unfolding current_item
has_current q = is_some (current_item q)
