-- ===== src/SimpleMalloc.antt =====
-- PersistSimpleMalloc (src/memory/allocators/persist_loop_slab_allocator.h): slabs of one size, given
-- out in turn and never freed, with the size of each in a table. Pointers are byte offsets from
-- data_; a failed CHECK is `none`. The file and the log are left out.
pub mod Turns
mod Examples
use rec_store.Prelude.{
  ℕ, ◌+◌, ◌/◌, Bool, Option, none, some, List, ◌==◌, ltb, leb, if◌then◌else◌, get_or, set, not,
}

pub record SimpleMalloc : Type 0 where
  pub memory_size : ℕ
  pub slab_size : ℕ
  pub allocated : ℕ
  pub nr_malloc : ℕ
  pub meta_data_block : List ℕ

unfoldable pub initialize : SimpleMalloc → SimpleMalloc
initialize s = record s { allocated = 0 }

-- the constructor on the table that the file holds; the first slab is skipped
unfoldable pub create : ℕ → ℕ → List ℕ → SimpleMalloc
unfolding initialize
create memory_size slab_size table =
    let s : SimpleMalloc = record {
      memory_size = memory_size;
      slab_size = slab_size;
      allocated = 0;
      nr_malloc = 0;
      meta_data_block = table;
    } in
    let i = initialize s in record i { allocated = i.allocated + slab_size }

-- `New`: past the last slab it starts again from the first
unfoldable pub new : SimpleMalloc → ℕ → Option (ℕ × SimpleMalloc)
new s malloc_size =
    let past = leb s.memory_size (s.allocated + s.slab_size) in
    let offset = if past then 0 else s.allocated in
    let s' : SimpleMalloc = record s {
      allocated = if past then 0 else s.allocated + malloc_size;
      nr_malloc = s.nr_malloc + 1;
      meta_data_block = set s.meta_data_block (offset / s.slab_size) malloc_size;
    } in
    if not (malloc_size == s.slab_size)
    then none
    else if ltb s.memory_size (offset + s.slab_size)
    then none
    else some (offset, s')

-- `GetMallocSize` and `GetMallocOffset`
unfoldable pub get_malloc_size : SimpleMalloc → ℕ → ℕ
get_malloc_size s offset = get_or s.meta_data_block (offset / s.slab_size) 0

unfoldable pub get_malloc_offset : SimpleMalloc → ℕ → Option ℕ
get_malloc_offset s data_ = if ltb (data_ + s.slab_size) s.memory_size then some data_ else none
