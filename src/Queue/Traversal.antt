-- ===== src/Queue/Traversal.antt =====
-- data/queue/manager.rs: what a listener hears who presses next again and again.
use media_app.Prelude.{
  inl, inr, leb-cases, ap, ◌∙◌, ℕ, zero, suc, ◌+◌, ◌%◌, ◌≤◌, ◌<◌, ◌≡◌, refl, none, some, List, [],
  ◌∷◌, arith, length, get_elem?, get_elem?-lt, drop, drop-get_elem?, drop_all,
}
use native.Mathlib.Nat.{mod-eq_of_lt, mod-lt, mod-add-mod}
use media_app.Model.Media.{MediaItem}
use media_app.Queue.Mode.{RepeatMode}
use media_app.Queue.{QueueManager, next_item}

-- The queue after a number of presses of next.
unfoldable pub presses : ℕ → QueueManager → QueueManager
presses zero q = q
presses (suc n) q = presses n (next_item q).0

-- The items that next gives until it gives none, for at most the given number of presses.
unfoldable pub play_through : ℕ → QueueManager → List MediaItem
play_through zero q = []
play_through (suc n) q = elim (next_item q).1 [
  | none ↦ []
  | some m ↦ m ∷ play_through n (next_item q).0
]

next_item-all :
    (q : QueueManager) (i : ℕ)
    → q.repeat_mode ≡ RepeatMode.all
    → q.current_index ≡ some i
    → i < length q.items
    → (next_item q).0 ≡ record q { current_index = some ((i + 1) % length q.items) }
unfolding next_item
next_item-all q i m e h = ground arith

next_item-none :
    (q : QueueManager) (i : ℕ)
    → q.repeat_mode ≡ RepeatMode.none
    → q.current_index ≡ some i
    → suc i < length q.items
    → next_item q ≡ (record q { current_index = some (suc i) }, get_elem? q.items (suc i))
unfolding next_item
next_item-none q i m e h = ground arith

next_item-end :
    (q : QueueManager) (i : ℕ)
    → q.repeat_mode ≡ RepeatMode.none
    → q.current_index ≡ some i
    → length q.items ≤ suc i
    → next_item q ≡ (q, none)
unfolding next_item
next_item-end q i m e h = ground arith

-- A queue that repeats all its items goes round: from index `i`, after `n` presses of next, it
-- stands at `(i + n) % len` and is otherwise as before.
pub presses-all :
    (n : ℕ) (q : QueueManager) (i : ℕ)
    → q.repeat_mode ≡ RepeatMode.all
    → q.current_index ≡ some i
    → i < length q.items
    → presses n q ≡ record q { current_index = some ((i + n) % length q.items) }
unfolding presses
presses-all zero q i m e h = ground (arith, mod-eq_of_lt h)
presses-all (suc n) q i m e h =
    let len = length q.items in
    rw (next_item-all q i m e h) (
      presses-all n (record q { current_index = some ((i + 1) % len) }) ((i + 1) % len) m refl
        (mod-lt (i + 1) (omega arith))
      ∙ ap (λ k. record q { current_index = some k })
          (mod-add-mod (i + 1) len n ∙ ap (λ k. k % len) (omega arith)))

-- A queue that does not repeat gives, from index `i` on, each later item once and in order, and
-- then none; as many presses as there are items are enough.
pub play_through-drop :
    (n : ℕ) (q : QueueManager) (i : ℕ)
    → q.repeat_mode ≡ RepeatMode.none
    → q.current_index ≡ some i
    → i < length q.items
    → length q.items ≤ i + n
    → play_through n q ≡ drop (suc i) q.items
unfolding play_through
play_through-drop zero q i m e h f = absurd (omega arith)
play_through-drop (suc n) q i m e h f = elim (leb-cases (suc (suc i)) (length q.items)) [
  | inl more ↦
      let (a, found) = get_elem?-lt q.items (suc i) more in
      let later =
        play_through-drop n (record q { current_index = some (suc i) }) (suc i) m refl more in
      ground (
        arith,
        next_item-none q i m e more,
        found,
        drop-get_elem? q.items (suc i) found,
        later (omega arith),
      )
  | inr last ↦ ground (arith, next_item-end q i m e (omega arith), drop_all q.items (suc i))
]
