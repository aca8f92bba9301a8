-- ===== src/PriorityQueue.antt =====
-- CustomPriorityQueue (src/base/pq.h): a binary heap of distinct values in a vector, with the greatest
-- on top, and a map from each value to its position. Values are numbers, such as the pointers that
-- the queue is used with; the comparison is a parameter. The lock is left out.
pub mod Order
pub mod Swaps
pub mod Heapify
pub mod Pushing
pub mod TakingOut
pub mod Popping
pub mod Removing
mod Examples
use rec_store.Prelude.{
  ℕ, zero, suc, ◌+◌, ◌-◌, ◌*◌, ◌/◌, Bool, true, false, ◌&&◌, Option, none, some, List, [], ◌∷◌,
  ◌++◌, ◌==◌, ltb, if◌then◌else◌, get_or, set, length,
}

pub record Queue : Type 0 where
  pub data_ : List ℕ
  pub index_map : ℕ → Option ℕ

abbrev pub at : Queue → ℕ → ℕ
at q i = get_or q.data_ i 0

abbrev pub size : Queue → ℕ
size q = length q.data_

abbrev pub parent : ℕ → ℕ
parent i = (i - 1) / 2

-- `index_map_[v] = i`, and `erase`
abbrev pub put_index : (ℕ → Option ℕ) → ℕ → ℕ → ℕ → Option ℕ
put_index m v i x = if v == x then some i else m x

abbrev pub erase : (ℕ → Option ℕ) → ℕ → ℕ → Option ℕ
erase m v x = if v == x then none else m x

-- `std::swap` of two positions, and the two updates of the map after it
unfoldable pub swap : Queue → ℕ → ℕ → Queue
swap q i j = record {
  data_ = set (set q.data_ i (at q j)) j (at q i);
  index_map = put_index (put_index q.index_map (at q j) i) (at q i) j;
}

unfoldable pub pop_back : List ℕ → List ℕ
pop_back [] = []
pop_back (x ∷ []) = []
pop_back (x ∷ y ∷ ys) = x ∷ pop_back (y ∷ ys)

-- `top`
unfoldable pub top : Queue → Option ℕ
top q = elim q.data_ [ [] ↦ none | x ∷ xs ↦ some x ]

-- The queue with the values at k and at the back swapped and the back taken off.
abbrev pub taken_out : Queue → ℕ → Queue
taken_out q k = record {
  data_ = pop_back (set (set q.data_ k (at q (size q - 1))) (size q - 1) (at q k));
  index_map = put_index (erase q.index_map (at q k)) (at q (size q - 1)) k;
}

module _ (compare : ℕ → ℕ → Bool) where
  -- `heapifyUp`, on fuel that bounds the index
  unfoldable pub heapify_up : ℕ → Queue → ℕ → Queue
  unfolding swap
  heapify_up zero q index = q
  heapify_up (suc fuel) q index =
      let rest = heapify_up fuel (swap q index (parent index)) (parent index) in
      if ltb 0 index && compare (at q (parent index)) (at q index) then rest else q

  -- the child that heapifyDown compares with
  abbrev pub smallest_child : Queue → ℕ → ℕ
  smallest_child q index =
      let left = 2 * index + 1 in
      let right = 2 * index + 2 in
      if ltb right (size q) && compare (at q left) (at q right) then right else left

  -- `heapifyDown`, on fuel that bounds what is left of the vector
  unfoldable pub heapify_down : ℕ → Queue → ℕ → Queue
  unfolding swap
  heapify_down zero q index = q
  heapify_down (suc fuel) q index =
      let child = smallest_child q index in
      let rest = heapify_down fuel (swap q index child) child in
      if ltb (2 * index + 1) (size q) && compare (at q index) (at q child) then rest else q

  unfoldable pub push : Queue → ℕ → Queue
  unfolding heapify_up
  push q value =
      let q' : Queue = record {
        data_ = q.data_ ++ value ∷ [];
        index_map = put_index q.index_map value (size q);
      } in
      heapify_up (size q) q' (size q)

  -- `pop`; on an empty queue, where `front` is undefined, it is `none`
  unfoldable pub pop : Queue → Option (ℕ × Queue)
  unfolding heapify_down pop_back
  pop q =
      let only : Queue = record {
        data_ = pop_back q.data_;
        index_map = erase q.index_map (at q 0);
      } in
      if size q == 0
      then none
      else if size q == 1
      then some (at q 0, only)
      else some (at q 0, heapify_down (size q - 1) (taken_out q 0) 0)

  -- `adjustPriority` of a value at a known position
  unfoldable pub adjust : Queue → ℕ → ℕ → Queue
  unfolding heapify_up heapify_down
  adjust q value index =
      if ltb 0 index && compare (at q (parent index)) value
      then heapify_up index q index
      else heapify_down (size q) q index

  -- `PushOrUpdate`
  unfoldable pub push_or_update : Queue → ℕ → Queue
  unfolding push adjust
  push_or_update q value = elim (q.index_map value) [
    | none ↦ push q value
    | some index ↦ adjust q value index
  ]

  -- `pop_x` of a value at a known position
  abbrev pub remove_at : Queue → ℕ → ℕ → Queue
  remove_at q value k =
      let last_off : Queue = record {
        data_ = pop_back q.data_;
        index_map = erase q.index_map value;
      } in
      if size q == 1
      then last_off
      else if k == size q - 1
      then last_off
      else adjust (taken_out q k) (at q (size q - 1)) k

  -- `pop_x`; a value that the queue does not hold is looked up by `[]`, which gives 0
  unfoldable pub pop_x : Queue → ℕ → Queue
  unfolding adjust pop_back
  pop_x q value = remove_at q value (elim (q.index_map value) [ none ↦ 0 | some k ↦ k ])
