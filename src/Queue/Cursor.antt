-- ===== src/Queue/Cursor.antt =====
-- data/queue/manager.rs: `next_item` and `previous_item` against `has_next`, `has_previous` and
-- one another.
use native.Mathlib.Nat.{mod-eq_of_lt, mod_self}
use media_app.Prelude.{
  if◌then◌else◌, ltb, ℕ, ◌+◌, ◌-◌, ◌%◌, ◌<◌, ◌≡◌, true, false, ◌&&◌, ◌||◌, not, none, some, arith,
  length, is_some-get_elem?, is_some, ◌==◌,
}
use media_app.Queue.Mode.{is_one}
use media_app.Queue.{
  QueueManager, is_nil, cursor, current_item, next_item, previous_item, has_next, has_previous,
}
use media_app.Queue.Invariant.{IsValid}

-- `next_item` selects an item exactly when `has_next` says so.
pub has_next-next_item : (q : QueueManager) → IsValid q → is_some (next_item q).1 ≡ has_next q
unfolding next_item has_next
has_next-next_item q h = ground (
  arith,
  is_some-get_elem? q.items (cursor q),
  is_some-get_elem? q.items (cursor q + 1),
  is_some-get_elem? q.items ((cursor q + 1) % length q.items),
)

-- `previous_item` selects an item exactly when `has_previous` says so, but for a queue that
-- repeats one item and stands at its first index: there `has_previous` promises an item and
-- `previous_item` gives none.
pub has_previous-previous_item :
    (q : QueueManager)
    → IsValid q
    → has_previous q ≡ (
        is_some (previous_item q).1
        || (not (is_nil q.items) && (is_one q.repeat_mode && (cursor q == 0))))
unfolding previous_item has_previous
has_previous-previous_item q h = ground (
  arith,
  is_some-get_elem? q.items (length q.items - 1),
  is_some-get_elem? q.items (cursor q - 1),
)

-- A press of next with nothing to select changes nothing and gives no item.
pub next_item-no_next :
    (q : QueueManager) → IsValid q → has_next q ≡ false → next_item q ≡ (q, none)
unfolding next_item has_next
next_item-no_next q h e = ground arith

-- A press of next that can select an item gives the item at the new cursor, and changes nothing in
-- the queue but the cursor.
pub next_item-selects :
    (q : QueueManager)
    → IsValid q
    → has_next q ≡ true
    → ((next_item q).1 ≡ current_item (next_item q).0)
      × (record (next_item q).0 { current_index = q.current_index } ≡ q)
unfolding next_item has_next
next_item-selects q h e = ground arith

-- Where next leads from an index, in a queue that does not repeat one item.
abbrev after : ℕ → ℕ → ℕ
after i n = if ltb (i + 1) n then i + 1 else 0

module _ (q : QueueManager) (i : ℕ) (e : q.current_index ≡ some i) (h : i < length q.items) where
  next_item-after :
      is_one q.repeat_mode ≡ false
      → has_next q ≡ true
      → (next_item q).0 ≡ record q { current_index = some (after i (length q.items)) }
  unfolding next_item has_next
  next_item-after m n =
      ground (arith, mod-eq_of_lt {n = i + 1} {m = length q.items}, mod_self (length q.items))

  previous_item-after :
      is_one q.repeat_mode ≡ false
      → has_next q ≡ true
      → (previous_item (record q { current_index = some (after i (length q.items)) })).0 ≡ q
  unfolding previous_item has_next
  previous_item-after m n = ground arith

  -- From a cursor on an item of the queue, where there is a next item and not one item is repeated,
  -- next and then previous leave the whole queue as it was.
  pub previous_item-next_item :
      is_one q.repeat_mode ≡ false → has_next q ≡ true → (previous_item (next_item q).0).0 ≡ q
  previous_item-next_item m n = rw (next_item-after m n) (previous_item-after m n)
