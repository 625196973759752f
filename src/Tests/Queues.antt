-- ===== src/Tests/Queues.antt =====
-- Tests of the queue.
use media_app.Prelude.{◌≡◌, refl, true, none, [], ◌∷◌, is_some, ◌||◌, not, ◌&&◌, ◌==◌, arith}
use media_app.Queue.{new, next_item, previous_item, has_next, has_previous, is_nil}
use media_app.Queue.Mode.{RepeatMode, is_one}
use media_app.Queue.Invariant.{IsValid, Call, run, new-run-IsValid}
use media_app.Queue.Cursor.{has_previous-previous_item, previous_item-next_item}
use media_app.Tests.Fixtures.{noon, day, queue_at}

-- In a queue that repeats one item and stands at its first index, back gives nothing although
-- `has_previous` promises an item.
repeat_one_promise :
    (has_previous (queue_at RepeatMode.one 0) ≡ true)
    × ((previous_item (queue_at RepeatMode.one 0)).1 ≡ none)
unfolding has_previous previous_item
repeat_one_promise = (refl, refl)

new-run-IsValid_example :
    IsValid
      (run (new day) (Call.next ∷ Call.select 2 ∷ Call.replace (noon ∷ []) ∷ Call.previous ∷ []))
new-run-IsValid_example =
    new-run-IsValid day (Call.next ∷ Call.select 2 ∷ Call.replace (noon ∷ []) ∷ Call.previous ∷ [])

has_previous-previous_item_example : has_previous (queue_at RepeatMode.one 0) ≡ (
    is_some (previous_item (queue_at RepeatMode.one 0)).1
    || (not (is_nil day) && (is_one RepeatMode.one && (0 == 0))))
has_previous-previous_item_example =
    has_previous-previous_item (queue_at RepeatMode.one 0) (omega arith)

previous_item-next_item_example :
    (previous_item (next_item (queue_at RepeatMode.all 2)).0).0 ≡ queue_at RepeatMode.all 2
unfolding has_next
previous_item-next_item_example =
    previous_item-next_item (queue_at RepeatMode.all 2) 2 refl (omega arith) refl refl
