-- ===== src/Slab/Release.antt =====
-- `Free`, and the operations that read the allocations back.
use rec_store.Prelude.{
  ℕ, zero, suc, ◌+◌, ◌-◌, ◌*◌, ◌/◌, ◌%◌, Bool, true, false, not, ◌&&◌, ◌||◌, Option, none, some,
  List, [], ◌∷◌, ◌++◌, ◌==◌, ltb, if◌then◌else◌, length,
}
use rec_store.Prelude.Int.{ℤ, pos, negsuc, to_int, bits32}
use mathlib.Core.Option
use rec_store.Slab.State.{
  Malloc, max_fast_list_type, max_fast_list_num, block, block_num_of, is_used, use_blocks,
  free_blocks, unused_memory_valid, add64, sub64,
}
use rec_store.Slab.Allocate.{find_list, put_list}

module _ (city_hash : ℕ → ℕ) where
  -- the queues after block i, of n blocks, is freed
  unfoldable pub remember : List (ℕ × List ℕ) → ℕ → ℕ → List (ℕ × List ℕ)
  unfolding find_list put_list
  remember lists n i =
      let key = city_hash n in
      elim (find_list key lists) [
        | none ↦
            if ltb (length lists) max_fast_list_type then put_list key (i ∷ []) lists else lists
        | some queue ↦
            if ltb (length queue) max_fast_list_num
            then put_list key (queue ++ i ∷ []) lists
            else lists
      ]

  -- the block at i is freed, with its n blocks
  abbrev pub free_sized : Malloc → ℕ → ℤ → Bool × Malloc
  free_sized s i (negsuc n) = (false, s)
  free_sized s i (pos n) = (
    true,
    record s {
      fast_malloc_lists =
          if s.enable_fast_malloc then remember s.fast_malloc_lists n i else s.fast_malloc_lists;
      words = free_blocks s.words (n + 1) i;
      total_used = sub64 s.total_used (n + 1);
      total_malloc = sub64 s.total_malloc 1;
    },
  )

  abbrev pub free_at : Malloc → ℕ → Bool × Malloc
  free_at s i =
      if not (is_used s.words i) && unused_memory_valid s i
      then free_sized s i (block_num_of (block s i))
      else (false, s)

  -- `Free`
  unfoldable pub free : Malloc → ℕ → Bool × Malloc
  unfolding unused_memory_valid remember free_blocks
  free s offset =
      if ltb offset 8 || (not (offset % 8 == 0) || ltb (s.block_num * 8) offset)
      then (false, s)
      else if offset == s.block_num * 8
      then (true, s)
      else free_at s (offset / 8 - 1)

-- `GetMallocOffset`, with -1 as `none`
unfoldable pub get_malloc_offset : Malloc → ℕ → Option ℕ
get_malloc_offset s offset =
    if ltb offset 8 || (not (offset % 8 == 0) || ltb (s.block_num * 8) offset)
    then none
    else some offset

-- `GetMallocSize`: the word before the block, converted to int
unfoldable pub get_malloc_size : Malloc → ℕ → ℤ
get_malloc_size s offset =
    if offset == s.block_num * 8
    then pos 0
    else if ltb offset 8 || (not (offset % 8 == 0) || ltb (s.block_num * 8) offset)
    then negsuc 0
    else to_int (block s (offset / 8 - 1))

-- `GetMallocsAppend`, from block i, with n rounds left; a header that is not positive fails a
-- CHECK, and is `none`
unfoldable pub mallocs_from : Malloc → ℕ → ℕ → Option (List ℕ)
mallocs_from s zero i = some []
mallocs_from s (suc n) i =
    let rest = mallocs_from s n (i + 1) in
    if not (is_used s.words i) && is_used s.words (i + 1)
    then (if block s i == 0 then none else Option.map (λ os. (i + 1) * 8 ∷ os) rest)
    else rest

unfoldable pub get_mallocs : Malloc → Option (List ℕ)
unfolding mallocs_from
get_mallocs s = mallocs_from s (s.block_num - 1) 0

-- `AddMallocs4Recovery`: a failed CHECK is `none`; the size -1 makes no blocks, and so does a header
-- that is negative as an int
unfoldable pub add_malloc : Malloc → ℕ → Option Malloc
unfolding get_malloc_size block_num_of use_blocks
add_malloc s offset =
    if not (ltb offset (s.block_num * 8))
    then none
    else (let s' = record s { total_malloc = add64 s.total_malloc 1 } in
        elim (block_num_of (bits32 (get_malloc_size s offset))) [
          | negsuc n ↦ some (record s' { total_used = sub64 s.total_used n })
          | pos n ↦ some (record s' {
            total_used = add64 s.total_used (n + 1);
            words = use_blocks s.words n (offset / 8);
          })
        ])
