-- ===== src/Chunk/Examples.antt =====
-- The chunk's theorems on 64 entries, of which the first is given out and which a restart has left
-- without a counter.
use rec_store.Prelude.{
  ℕ, ◌<◌, ◌≡◌, ◌⊎◌, refl, arith, true, false, none, some, List, [], ◌∷◌, ◌==◌, if◌then◌else◌,
}
use rec_store.Prelude.Int.{pos, negsuc}
use rec_store.Bitmap.{get, set_zero_pos, set_zero_from, count_trailing}
use rec_store.Chunk.{Chunk, entry, malloc, free_entry, is_full, use_chunk, recovery}
use rec_store.Chunk.Counting.{IsValid, ready, given, malloc_lem, free_entry_lem}
use rec_store.Chunk.Cutting.{Fitting, use_chunk_lem}

abbrev one_word : List ℕ
one_word = 1 ∷ []

abbrev chunk : Chunk
chunk = record {
  slab_size = 128;
  bitmap = record { n = 64; bits = one_word };
  allocated_entries = negsuc 0;
  is_recovered = false;
}

chunk-IsValid : IsValid chunk
chunk-IsValid = record {
  map = record { whole = refl; words = (omega arith, tt) };
  counted = λ e. absurd (ground arith);
  positive = omega arith;
}

malloc_lem_example :
    ((is_full (ready chunk) ≡ true)
      × (malloc chunk ≡ (none, ready chunk))
      × ((m : ℕ) → m < 64 → get chunk.bitmap m ≡ true))
    ⊎ ((is_full (ready chunk) ≡ false)
        × (m : ℕ) × (m < 64)
        × (get chunk.bitmap m ≡ false)
        × (malloc chunk ≡ (some (entry chunk m), given chunk m))
        × IsValid (given chunk m))
malloc_lem_example = malloc_lem chunk chunk-IsValid

first_taken : get chunk.bitmap 0 ≡ true
unfolding get
first_taken = refl

free_entry_lem_example :
    IsValid (free_entry chunk (entry chunk 0))
    × ((q : ℕ)
        → get (free_entry chunk (entry chunk 0)).bitmap q
          ≡ (if 0 == q then false else get chunk.bitmap q))
free_entry_lem_example = free_entry_lem chunk chunk-IsValid 0 (omega arith) first_taken

use_chunk_lem_example :
    (c : Chunk) × (use_chunk 128 ≡ some c)
    × IsValid c
    × (c.slab_size ≡ 128)
    × (c.allocated_entries ≡ pos 0)
    × Fitting 128 c.bitmap.n
use_chunk_lem_example = use_chunk_lem 128 (omega arith) (omega arith) (omega arith)

-- The second entry is given out, behind the header of 32 bytes.
malloc_run : (malloc chunk).0 ≡ some 160
unfolding malloc recovery set_zero_pos set_zero_from count_trailing
malloc_run = refl
