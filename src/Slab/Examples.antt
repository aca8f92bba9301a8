-- ===== src/Slab/Examples.antt =====
-- The allocator's theorems on a file of 128 blocks, and a run that gives memory out twice.
use rec_store.Prelude.{
  ℕ, ◌+◌, ◌-◌, ◌*◌, ◌/◌, ◌≤◌, ◌<◌, ◌≡◌, refl, arith, true, false, Bool-cases, inl, inr, none, some,
  List, [], ◌∷◌, replicate,
}
use rec_store.Slab.State.{
  Malloc, create, initialize, grow, zero_words, is_used, use_block, free_block, use_blocks,
  free_blocks, all_used, unused_memory_valid, block_num_of,
}
use rec_store.Slab.Allocate.{
  new, find_list, put_list, search, scan, use_checked, pop_fast, fast_fits, new_by_loop,
}
use rec_store.Slab.Release.{free, get_mallocs, remember}
use rec_store.Slab.Search.{Fits}
use rec_store.Slab.Invariant.{IsValid, Fits-Clear, placed, released, place-Holds}
use rec_store.Slab.Sizing.{block_num-create, block_num_of-small}
use rec_store.Slab.Taking.{Given, taken, new-Given}
use rec_store.Slab.Fast.{taken_fast, new-IsValid_fast, new-overlaps}
use rec_store.Slab.Releasing.{freed, free-twice}
use rec_store.Slab.Listing.{headers, get_mallocs-headers}
use rec_store.Slab.Recovery.{recover, recover-get_mallocs}

abbrev file : List ℕ
file = replicate 130 0

abbrev nothing : ℕ → ℕ
nothing h = 0

abbrev hash_of : ℕ → ℕ
hash_of k = k

block_num-create_example :
    ((create 1040 file).block_num ≡ 64 * (1040 / 520))
    × ((create 1040 file).block_num / 8 + 8 * (create 1040 file).block_num ≤ 1040)
    × IsValid (create 1040 file) nothing
block_num-create_example = block_num-create 1040 file (omega arith)

abbrev empty : Malloc
empty = record {
  block_num = 128;
  words = file;
  last_malloc_block = 0;
  total_used = 0;
  total_malloc = 0;
  enable_fast_malloc = true;
  fast_malloc_lists = [];
}

empty-IsValid : IsValid empty nothing
unfolding create initialize grow zero_words
empty-IsValid = let (a, b, ok) = block_num-create 1040 file (omega arith) in ok

new-Given_example : Given empty nothing 100 ((100 + 7) / 8) (new hash_of empty 100)
unfolding find_list
new-Given_example = new-Given hash_of empty-IsValid 100 (omega arith) (omega arith) (inr refl)

empty-Fits : (k m : ℕ) → m + k + 1 < 128 → Fits empty.words k m
empty-Fits k m l j b = elim (Bool-cases (is_used file (m + j))) [
  | inr clear ↦ clear
  | inl used ↦
      let (h, c, d) = empty-IsValid.holds.covered (m + j) (omega arith) used in absurd (omega arith)
]

-- The allocation of 13 blocks behind header 0.
abbrev first : ℕ → ℕ
first = placed nothing 0 13

abbrev one : Malloc
one = taken empty 100 13 0

one-IsValid : IsValid one first
one-IsValid = record {
  holds =
      place-Holds empty-IsValid.holds 0 13 100 (omega arith) (omega arith)
        (Fits-Clear 128 file 13 0 (empty-Fits 13 0 (omega arith)))
        (block_num_of-small 100 (omega arith));
  start = omega arith;
}

free-twice_example :
    (free hash_of one (8 * (0 + 1)) ≡ (true, freed hash_of one first 0))
    × IsValid (freed hash_of one first 0) (released first 0)
    × (free hash_of (freed hash_of one first 0) (8 * (0 + 1)) ≡ (false, freed hash_of one first 0))
free-twice_example = free-twice hash_of one-IsValid 0 (omega arith)

get_mallocs-headers_example : get_mallocs one ≡ some (headers first (128 - 1) 0)
get_mallocs-headers_example = get_mallocs-headers one-IsValid (omega arith)

recover-get_mallocs_example :
    (u : Malloc) × (recover (initialize one) (headers first (128 - 1) 0) ≡ some u) × IsValid u first
recover-get_mallocs_example =
    recover-get_mallocs one-IsValid (headers first (128 - 1) 0) (omega arith)
      (get_mallocs-headers one-IsValid (omega arith))

-- The state with a queue for allocations of two blocks, whose head is block m.
abbrev with_queue : Malloc → ℕ → Malloc
with_queue s m = record s { fast_malloc_lists = (2, m ∷ []) ∷ [] }

queue_found :
    (s : Malloc) (m : ℕ) → find_list (hash_of 2) (with_queue s m).fast_malloc_lists ≡ some (m ∷ [])
unfolding find_list
queue_found s m = refl

with_queue-IsValid :
    {s : Malloc} {live : ℕ → ℕ} → IsValid s live → (m : ℕ) → IsValid (with_queue s m) live
with_queue-IsValid v m = record { holds = v.holds; start = v.start }

new-IsValid_fast_example :
    (new hash_of (with_queue empty 5) 16
      ≡ some (some (8 * (5 + 1)), taken_fast hash_of (with_queue empty 5) 16 2 5 []))
    × (nothing 5 ≡ 0)
    × IsValid (taken_fast hash_of (with_queue empty 5) 16 2 5 []) (placed nothing 5 2)
new-IsValid_fast_example =
    new-IsValid_fast hash_of (with_queue empty 5) 16 5 [] (omega arith) refl (queue_found empty 5)
      (with_queue-IsValid empty-IsValid 5) (omega arith) (omega arith)
      (empty-Fits 2 5 (omega arith))

new-overlaps_example :
    (new hash_of (with_queue one 5) 16
      ≡ some (some (8 * (5 + 1)), taken_fast hash_of (with_queue one 5) 16 2 5 []))
    × ¬ IsValid (taken_fast hash_of (with_queue one 5) 16 2 5 []) (placed first 5 2)
new-overlaps_example =
    new-overlaps hash_of (with_queue one 5) 16 5 [] (omega arith) refl (queue_found one 5)
      (with_queue-IsValid one-IsValid 5) 0 (omega arith) (omega arith)

-- Calls of `New` and of `Free`, by size and by pointer, and the pointers given out.
data Call : Type 0 where
  take give : ℕ → Call

run : List Call → Malloc → List ℕ
run [] s = []
run (Call.take size ∷ cs) s = elim (new hash_of s size) [
  | none ↦ []
  | some r ↦ elim r.0 [ none ↦ 0 ∷ run cs r.1 | some p ↦ p ∷ run cs r.1 ]
]
run (Call.give p ∷ cs) s = run cs (free hash_of s p).1

abbrev calls : List Call
calls =
    Call.take 8
    ∷ Call.take 8
    ∷ Call.give 8
    ∷ Call.give 24
    ∷ Call.take 472
    ∷ Call.take 24
    ∷ Call.take 8
    ∷ []

-- The last pointer, 24, lies inside the 24 bytes from 8 that the call before it gave out.
run_overlaps : run calls (create 520 (replicate 65 0)) ≡ 8 ∷ 24 ∷ 40 ∷ 8 ∷ 24 ∷ []
unfolding run create initialize grow zero_words new find_list put_list search scan use_checked
    pop_fast fast_fits new_by_loop free remember unused_memory_valid all_used is_used use_block
    free_block use_blocks free_blocks block_num_of
run_overlaps = refl
