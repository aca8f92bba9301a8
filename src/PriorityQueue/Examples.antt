-- ===== src/PriorityQueue/Examples.antt =====
-- The queue's theorems on two values, one of which rises.
use rec_store.Prelude.{
  ℕ, ◌<◌, ◌≤◌, ◌≡◌, ◌≢◌, refl, arith, Bool, true, none, some, [], ltb, ◌==◌, if◌then◌else◌,
}
use rec_store.PriorityQueue.{
  Queue, at, size, swap, heapify_up, heapify_down, push, pop, adjust, push_or_update, pop_x, top,
}
use rec_store.PriorityQueue.Swaps.{Consistent, has}
use rec_store.PriorityQueue.Heapify.{IsHeap}
use rec_store.PriorityQueue.Pushing.{push_or_update-Pushes}
use rec_store.PriorityQueue.Removing.{Removes, pop_x-Removes}
use rec_store.PriorityQueue.Popping.{Popped, pop-Popped}

abbrev own : ℕ → ℕ
own v = v

abbrev raised : ℕ → ℕ
raised v = if v == 5 then 20 else v

abbrev less : (ℕ → ℕ) → ℕ → ℕ → Bool
less rank x y = ltb (rank x) (rank y)

abbrev empty : Queue
empty = record { data_ = []; index_map = λ v. none }

empty-Consistent : Consistent empty
empty-Consistent = record {
  placed = λ i l. absurd (omega arith);
  found = λ v i e. absurd (ground arith);
}

abbrev one : Queue
one = push_or_update (less own) empty 5

one-IsHeap : IsHeap (less own) own (λ x y. refl) one
one-IsHeap =
    (push_or_update-Pushes (less own) own (λ x y. refl) empty-Consistent own
      (λ i p l. absurd (omega arith)) 5 (λ v n. refl)).0

abbrev two : Queue
two = push_or_update (less own) one 9

two-IsHeap : IsHeap (less own) own (λ x y. refl) two
two-IsHeap =
    (push_or_update-Pushes (less own) own (λ x y. refl) one-IsHeap.consistent own one-IsHeap.ordered
      9 (λ v n. refl)).0

unraised : (v : ℕ) → v ≢ 5 → own v ≡ raised v
unraised v n = ground arith

push_or_update-Pushes_example :
    IsHeap (less raised) raised (λ x y. refl) (push_or_update (less raised) two 5)
    × ((v : ℕ) → has (push_or_update (less raised) two 5) v ≡ (if 5 == v then true else has two v))
push_or_update-Pushes_example =
    push_or_update-Pushes (less raised) raised (λ x y. refl) two-IsHeap.consistent own
      two-IsHeap.ordered 5 unraised

five_known : two.index_map 5 ≡ some 1
unfolding push_or_update push adjust heapify_up heapify_down swap
five_known = refl

pop_x-Removes_example :
    Removes (less own) own (λ x y. refl) two-IsHeap 5 1 five_known (pop_x (less own) two 5)
pop_x-Removes_example = pop_x-Removes (less own) own (λ x y. refl) two-IsHeap 5 1 five_known

two_size : 0 < size two
unfolding push_or_update push adjust heapify_up heapify_down swap
two_size = omega arith

pop-Popped_example :
    (r : Queue) × (pop (less own) two ≡ some (at two 0, r))
    × Popped (less own) own (λ x y. refl) two-IsHeap r
    × ((v i : ℕ) → two.index_map v ≡ some i → own v ≤ own (at two 0))
pop-Popped_example = pop-Popped (less own) own (λ x y. refl) two-IsHeap two_size

tops : top two ≡ some 9
unfolding push_or_update push adjust heapify_up heapify_down swap top
tops = refl

raised_tops : top (push_or_update (less raised) two 5) ≡ some 5
unfolding push_or_update push adjust heapify_up heapify_down swap top
raised_tops = refl
