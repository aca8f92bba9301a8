-- ===== src/Chunk.antt =====
-- Chunk of PersistMemoryPool (src/memory/allocators/persist_loop_slab_allocator.h): two mebibytes
-- cut into entries of one slab size, with a bit map of the entries given out. Pointers are offsets
-- from the chunk's start. The lock is left out; a failed CHECK and a null pointer are `none`.
pub mod Counting
pub mod Cutting
mod Examples
use rec_store.Prelude.{
  ℕ, zero, suc, ◌+◌, ◌-◌, ◌*◌, ◌/◌, ◌%◌, ◌^◌, Bool, true, false, Option, none, some, List, [], ◌∷◌,
  ◌==◌, ltb, if◌then◌else◌, replicate,
}
use rec_store.Prelude.Int.{ℤ, pos, negsuc, suc_int, pred_int}
use rec_store.Bitmap.{BitMap, get, clear, number_of_ones, set_zero_pos}

abbrev pub chunk_size : ℕ
chunk_size = 2 * 1024 * 1024

pub record Chunk : Type 0 where
  pub slab_size : ℕ
  pub bitmap : BitMap
  pub allocated_entries : ℤ
  pub is_recovered : Bool

-- `HeaderSize`: a bool, two ints and a bool take 16 bytes, and the map's own header 8
abbrev pub header_size : ℕ → ℕ
header_size nr_entries = 16 + (8 + nr_entries / 64 * 8)

-- the loop of `Use`, on fuel
unfoldable pub fit_entries : ℕ → ℕ → ℕ → ℕ
fit_entries zero slab_size nr = nr
fit_entries (suc fuel) slab_size nr =
    let rest = fit_entries fuel slab_size (nr - 64) in
    if ltb chunk_size (header_size nr + nr * slab_size) then rest else nr

abbrev pub rounded : ℕ → ℕ
rounded slab_size = chunk_size / slab_size - chunk_size / slab_size % 64

-- `Use`, which cuts the chunk; a slab size of 0 is a division by zero, and `none`
unfoldable pub use_chunk : ℕ → Option Chunk
unfolding fit_entries
use_chunk slab_size =
    let nr = fit_entries (rounded slab_size / 64 + 1) slab_size (rounded slab_size) in
    let chunk : Chunk = record {
      slab_size = slab_size;
      bitmap = record { n = nr; bits = replicate (nr / 64) 0 };
      allocated_entries = pos 0;
      is_recovered = true;
    } in
    if slab_size == 0 then none else if nr == 0 then none else some chunk

-- `Recovery`, before the first use after a restart
unfoldable pub recovery : Chunk → Chunk
recovery c =
    if c.is_recovered
    then c
    else record c { allocated_entries = pos (number_of_ones c.bitmap); is_recovered = true }

-- `Entry` and `EntryId`
abbrev pub entry : Chunk → ℕ → ℕ
entry c id = header_size c.bitmap.n + id * c.slab_size

abbrev pub entry_id : Chunk → ℕ → ℕ
entry_id c p = (p - header_size c.bitmap.n) / c.slab_size

-- what `Malloc` does with the answer of `SetZeroPos`
abbrev pub after_search : Chunk → ℤ × BitMap → Option ℕ × Chunk
after_search r (negsuc n, b) = (none, record r { bitmap = b })
after_search r (pos m, b) =
    (some (entry r m), record r { bitmap = b; allocated_entries = suc_int r.allocated_entries })

abbrev pub take_entry : Chunk → Option ℕ × Chunk
take_entry r = after_search r (set_zero_pos r.bitmap)

-- `Malloc`
unfoldable pub malloc : Chunk → Option ℕ × Chunk
unfolding recovery
malloc c = take_entry (recovery c)

abbrev pub give_entry : ℕ → Chunk → Chunk
give_entry p r = record r {
  bitmap = clear r.bitmap (entry_id r p);
  allocated_entries = pred_int r.allocated_entries;
}

-- `Free`; the checks of a DEBUG build, which the build does not define, are left out
unfoldable pub free_entry : Chunk → ℕ → Chunk
unfolding recovery
free_entry c p = give_entry p (recovery c)

-- `Full`
unfoldable pub is_full : Chunk → Bool
is_full c = elim c.allocated_entries [ negsuc n ↦ false | pos k ↦ k == c.bitmap.n ]
