-- ===== src/Hybrid/Store.antt =====
-- ValueManager (src/storage/hybrid/value.h): values of one to seven bytes inside the index's word,
-- others in shared memory or on disk. The index is a function from keys to words, 0 where there is
-- none; the locks are left out. A null dereference, a failed assertion or an abort is `none`.
use rec_store.Prelude.{
  ℕ, ◌+◌, ◌-◌, ◌%◌, ◌^◌, not, ◌&&◌, Option, none, some, List, ◌==◌, ltb, leb, if◌then◌else◌, length,
  update,
}
use rec_store.Pointer.{
  PointerType, UnifiedPointer, from_invalid, from_raw, from_memory, from_disk_page_id, from_p_mem,
  type, as_memory_pointer, as_disk_page_id,
}
use rec_store.Hybrid.Lru.{Lru, insert}
use rec_store.Hybrid.Lru.Keys.{take}
use rec_store.Hybrid.Blocks.{write_at, peek_len, block_bytes}
use rec_store.Hybrid.Inline.{inline_word}
use rec_store.Hybrid.Allocator.{Allocator}

-- The state; `low_watermark` and `shm_capacity` are bytes.
pub record Store (S D : Type 0) : Type 0 where
  pub index : ℕ → ℕ
  pub shm_manage : S
  pub memory : ℕ → ℕ
  pub ssd_manage : D
  pub disk : ℕ → ℕ
  pub lru : Lru
  pub hot : ℕ → Option ℕ
  pub shm_used_bytes : ℕ
  pub low_watermark : ℕ
  pub shm_capacity : ℕ

-- What the calls of `WriteDisk` to the system answer: all succeed, or one fails after some bytes.
pub data Io : Type 0 where
  done : Io
  failed : ℕ → Io

infixl 5 ◌>>=◌
abbrev pub ◌>>=◌ {ℓ} : {A B : Type ℓ} → Option A → (A → Option B) → Option B
none >>= f = none
some a >>= f = f a

module _ {S D : Type 0} (shm : Allocator S) (ssd : Allocator D) where
  -- `TouchLRU`
  abbrev pub touch_lru : Store S D → ℕ → Option (Store S D)
  touch_lru s key = insert s.lru key >>= λ l. some (record s { lru = l })

  -- `WriteMem` after its call of `New`
  abbrev pub placed_in_memory :
      Store S D → ℕ → List ℕ → Option ℕ × S → Option (UnifiedPointer × Store S D)
  placed_in_memory s key value (none, a) = some (from_invalid, record s { shm_manage = a })
  placed_in_memory s key value (some ptr, a) = insert s.lru key >>= λ l. from_memory ptr >>= λ p.
      some (
        p,
        record s {
          shm_manage = a;
          memory = write_at s.memory ptr (block_bytes value);
          shm_used_bytes = (s.shm_used_bytes + (2 + length value)) % 2 ^ 64;
          lru = l;
        },
      )

  -- `WriteMem`
  unfoldable pub write_mem : Store S D → ℕ → List ℕ → Option (UnifiedPointer × Store S D)
  unfolding inline_word
  write_mem s key value =
      if not (length value == 0) && leb (length value) 7
      then (from_p_mem (inline_word value) >>= λ p. some (p, s))
      else if ltb 65535 (length value)
      then some (from_invalid, s)
      else shm.new s.shm_manage (2 + length value) >>= placed_in_memory s key value

  -- `WriteDisk` after its call of `GetMallocOffset`
  abbrev pub written_at :
      Store S D → List ℕ → Io → D → ℕ → Option ℕ → Option (UnifiedPointer × Store S D)
  written_at s value io a disk_ptr none =
      some (from_invalid, record s { ssd_manage = (ssd.free a disk_ptr).1 })
  written_at s value done a disk_ptr (some pool_off) = from_disk_page_id pool_off >>= λ p.
      some (p, record s { ssd_manage = a; disk = write_at s.disk pool_off (block_bytes value) })
  written_at s value (failed n) a disk_ptr (some pool_off) = some (
    from_invalid,
    record s {
      ssd_manage = (ssd.free a disk_ptr).1;
      disk = write_at s.disk pool_off (take n (block_bytes value));
    },
  )

  -- `WriteDisk` after its call of `New`
  abbrev pub placed_on_disk :
      Store S D → List ℕ → Io → Option ℕ × D → Option (UnifiedPointer × Store S D)
  placed_on_disk s value io (none, a) = some (from_invalid, record s { ssd_manage = a })
  placed_on_disk s value io (some disk_ptr, a) =
      written_at s value io a disk_ptr (ssd.offset a disk_ptr)

  -- `WriteDisk`
  unfoldable pub write_disk : Store S D → List ℕ → Io → Option (UnifiedPointer × Store S D)
  write_disk s value io =
      if ltb 65535 (length value)
      then some (from_invalid, s)
      else ssd.new s.ssd_manage (2 + length value) >>= placed_on_disk s value io

  abbrev pub free_memory : Store S D → ℕ → Store S D
  free_memory s ptr = record s {
    shm_manage = (shm.free s.shm_manage ptr).1;
    shm_used_bytes = (s.shm_used_bytes + 2 ^ 64 - (peek_len s.memory ptr + 2)) % 2 ^ 64;
  }

  abbrev pub free_disk : Store S D → ℕ → Store S D
  free_disk s off = record s { ssd_manage = (ssd.free s.ssd_manage off).1 }

  abbrev pub free_typed : PointerType → UnifiedPointer → Store S D → Option (Store S D)
  free_typed PointerType.invalid p s = some s
  free_typed PointerType.p_mem p s = some s
  free_typed PointerType.memory p s = as_memory_pointer p >>= λ ptr. some (free_memory s ptr)
  free_typed PointerType.disk p s = as_disk_page_id p >>= λ off. some (free_disk s off)

  -- `FreePointer`
  unfoldable pub free_pointer : UnifiedPointer → Store S D → Option (Store S D)
  free_pointer p s = free_typed (type p) p s

  -- the end of `WriteValue`: the index is updated and the old block freed
  unfoldable pub publish : Store S D → ℕ → UnifiedPointer → Option (Store S D)
  unfolding free_pointer
  publish s key p =
      let s' : Store S D = record s { index = update s.index key p.raw } in
      if s.index key == 0 then some s' else free_pointer (from_raw (s.index key)) s'

  abbrev pub in_place_memory : Store S D → ℕ → List ℕ → ℕ → Option (Option (Store S D))
  in_place_memory s key value ptr =
      let s' : Store S D = record s { memory = write_at s.memory (ptr + 2) value } in
      if peek_len s.memory ptr == length value
      then (touch_lru s' key >>= λ t. some (some t))
      else some none

  abbrev pub in_place_disk : Store S D → List ℕ → ℕ → Option (Option (Store S D))
  in_place_disk s value off =
      if peek_len s.disk off == length value
      then some (some (record s { disk = write_at s.disk (off + 2) value }))
      else some none

  abbrev pub in_place_typed :
      PointerType → UnifiedPointer → Store S D → ℕ → List ℕ → Option (Option (Store S D))
  in_place_typed PointerType.memory p s key value =
      as_memory_pointer p >>= in_place_memory s key value
  in_place_typed PointerType.disk p s key value = as_disk_page_id p >>= in_place_disk s value
  in_place_typed _ p s key value = some none

  -- the start of `WriteValue`: a value of the same length is overwritten where it stands
  unfoldable pub write_in_place : Store S D → ℕ → List ℕ → Option (Option (Store S D))
  write_in_place s key value =
      let p = from_raw (s.index key) in
      if s.index key == 0 then some none else in_place_typed (type p) p s key value
