-- ===== src/Slab/Allocate.antt =====
-- `New`: the fast path over freed blocks, and the loop over the bits.
use rec_store.Prelude.{
  ℕ, zero, suc, ◌+◌, ◌-◌, ◌*◌, ◌/◌, ◌%◌, Bool, true, false, not, ◌&&◌, ◌||◌, Option, none, some,
  List, [], ◌∷◌, ◌==◌, ltb, leb, if◌then◌else◌, set,
}
use mathlib.Core.Option
use rec_store.Slab.State.{Malloc, is_used, use_block, use_blocks, add64}

-- `New`'s loop with the CHECK that each block was free; a failed CHECK is `none`
unfoldable pub use_checked : List ℕ → ℕ → ℕ → Option (List ℕ)
use_checked ws zero i = some ws
use_checked ws (suc n) i =
    let rest = use_checked (use_block ws i) n (i + 1) in if is_used ws i then none else rest

-- The test of the fast path, on n = memory_block_num + 1 blocks from m.
unfoldable pub fast_fits : List ℕ → ℕ → ℕ → Bool
fast_fits ws zero m = true
fast_fits ws (suc n) m =
    let rest = fast_fits ws n (m + 1) in
    if not (is_used ws m) && is_used ws (m + 1) then false else rest

-- The queue is popped until a block passes.
unfoldable pub pop_fast : List ℕ → ℕ → List ℕ → Option ℕ × List ℕ
pop_fast ws n [] = (none, [])
pop_fast ws n (m ∷ queue) =
    let rest = pop_fast ws n queue in if fast_fits ws n m then (some m, queue) else rest

-- The inner loop: the first of n offsets at which this bit or the next is set.
unfoldable pub scan : List ℕ → ℕ → ℕ → Option ℕ
scan ws zero m = none
scan ws (suc n) m =
    let rest = Option.map suc (scan ws n (m + 1)) in
    if is_used ws m || is_used ws (m + 1) then some 0 else rest

-- How the outer loop ends; `exhausted` is the end of the fuel.
pub data Outcome : Type 0 where
  exhausted full : Outcome
  found : ℕ → Outcome

-- the outer loop, for memory_block_num = k
unfoldable pub search : ℕ → List ℕ → ℕ → ℕ → ℕ → ℕ → Outcome
search zero ws bn k offset m = Outcome.exhausted
search (suc fuel) ws bn k offset m = elim (ltb offset bn) [
  | false ↦ Outcome.full
  | true ↦ elim (leb (m + k + 1) bn) [
    | false ↦ search fuel ws bn k (offset + (bn - m)) 0
    | true ↦
        (let i : ℕ = elim (scan ws (k + 1) m) [ none ↦ 0 | some i ↦ i ] in
          elim (not (is_used ws (m + i)) && not (is_used ws (m + i + 1))) [
            | true ↦ Outcome.found (m + i)
            | false ↦ search fuel ws bn k (offset + i + 1) (m + i + 1)
          ])
  ]
]

-- the header is written, and then the bits of its k blocks
abbrev pub header_written : Malloc → ℕ → ℕ → List ℕ
header_written s m memory_size = set s.words (s.block_num / 64 + m) memory_size

abbrev pub counted : Malloc → ℕ → Malloc
counted s k = record s {
  total_used = add64 s.total_used (k + 1);
  total_malloc = add64 s.total_malloc 1;
}

abbrev pub loop_fuel : ℕ → ℕ
loop_fuel bn = 2 * bn + 3

-- `New` after the fast path. The outer `none` is an abort, or a loop that has not ended; the inner
-- one is NULL.
unfoldable pub new_by_loop : Malloc → ℕ → ℕ → Option (Option ℕ × Malloc)
unfolding search use_checked
new_by_loop s memory_size k =
    elim (search (loop_fuel s.block_num) s.words s.block_num k 0 s.last_malloc_block) [
      | exhausted ↦ none
      | full ↦ some (none, s)
      | found m ↦ elim (use_checked (header_written s m memory_size) k (m + 1)) [
        | none ↦ none
        | some ws ↦
            (let s' = record (counted s k) {
              words = ws;
              last_malloc_block = (m + k + 1) % s.block_num;
            } in
              some (some (8 * (m + 1)), s'))
      ]
    ]

-- the map of queues, by the hash of the number of blocks
unfoldable pub find_list : ℕ → List (ℕ × List ℕ) → Option (List ℕ)
find_list key [] = none
find_list key ((k, q) ∷ ls) = let rest = find_list key ls in if k == key then some q else rest

unfoldable pub put_list : ℕ → List ℕ → List (ℕ × List ℕ) → List (ℕ × List ℕ)
put_list key q [] = (key, q) ∷ []
put_list key q ((k, q') ∷ ls) =
    let rest = put_list key q ls in if k == key then (key, q) ∷ ls else (k, q') ∷ rest

module _ (city_hash : ℕ → ℕ) where
  -- what `New` does with the block that the fast path popped, if any
  abbrev pub after_pop : Malloc → ℕ → ℕ → Option ℕ × List ℕ → Option (Option ℕ × Malloc)
  after_pop s memory_size k popped =
      let s' : Malloc = record s {
        fast_malloc_lists = put_list (city_hash k) popped.1 s.fast_malloc_lists;
      } in
      elim popped.0 [
        | none ↦ new_by_loop s' memory_size k
        | some m ↦
            let s'' : Malloc = record (counted s' k) {
              words = use_blocks (header_written s m memory_size) k (m + 1);
            } in
            some (some (8 * (m + 1)), s'')
      ]

  -- The fast path is for an existing queue, if it is enabled.
  abbrev pub by_queue : Malloc → ℕ → ℕ → Option (List ℕ) → Bool → Option (Option ℕ × Malloc)
  by_queue s memory_size k none enabled = new_by_loop s memory_size k
  by_queue s memory_size k (some queue) false = new_by_loop s memory_size k
  by_queue s memory_size k (some queue) true =
      after_pop s memory_size k (pop_fast s.words (k + 1) queue)

  -- `New`
  unfoldable pub new : Malloc → ℕ → Option (Option ℕ × Malloc)
  unfolding find_list
  new s memory_size =
      let k = (memory_size + 7) / 8 in
      if memory_size == 0
      then some (some (8 * s.block_num), s)
      else by_queue s memory_size k (find_list (city_hash k) s.fast_malloc_lists)
          s.enable_fast_malloc
