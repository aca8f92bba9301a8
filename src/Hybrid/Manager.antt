-- ===== src/Hybrid/Manager.antt =====
-- WriteValue, RetrieveValue and the rounds of EvictAndPromoteLoop (src/storage/hybrid/value.h).
use rec_store.Prelude.{
  ℕ, ◌+◌, Bool, Option, none, some, List, [], ◌∷◌, ◌==◌, ltb, leb, bit_and, if◌then◌else◌, update,
}
use rec_store.Pointer.{
  PointerType, UnifiedPointer, from_raw, type, is_valid, as_memory_pointer, as_disk_page_id,
  as_p_mem_offset,
}
use rec_store.Hybrid.Lru.{evict_batch}
use rec_store.Hybrid.Blocks.{read_block}
use rec_store.Hybrid.Inline.{inline_value}
use rec_store.Hybrid.Allocator.{Allocator}
use rec_store.Hybrid.Store.{
  Store, Io, ◌>>=◌, touch_lru, write_mem, write_disk, free_pointer, publish, write_in_place,
}

-- How `WriteValue` ends: it also returns when the store is stopped or no memory is left.
pub data Outcome : Type 0 where
  stored stopped no_room : Outcome

-- `kPromoteThreshold`
abbrev pub promote_threshold : ℕ
promote_threshold = 8

-- `hot_.insert` and the count
abbrev pub warmer : Option ℕ → ℕ
warmer none = 1
warmer (some n) = if ltb n promote_threshold then n + 1 else n

module _ {S D : Type 0} (shm : Allocator S) (ssd : Allocator D) (hash : ℕ → ℕ) where
  abbrev pub Manager : Type 0
  Manager = Store S D

  -- the sampled count of a read from disk
  abbrev pub heat : Manager → ℕ → Manager
  heat s key =
      if bit_and (hash key) 7 == 0
      then record s { hot = update s.hot key (some (warmer (s.hot key))) }
      else s

  abbrev pub retrieve_typed : PointerType → UnifiedPointer → Manager → ℕ → Option (List ℕ × Manager)
  retrieve_typed PointerType.memory p s key = as_memory_pointer p >>= λ ptr.
      touch_lru shm ssd s key >>= λ t. some (read_block s.memory ptr, t)
  retrieve_typed PointerType.disk p s key =
      as_disk_page_id p >>= λ off. some (read_block s.disk off, heat s key)
  retrieve_typed PointerType.p_mem p s key =
      as_p_mem_offset p >>= λ w. inline_value w >>= λ v. some (v, s)
  retrieve_typed PointerType.invalid p s key = some ([], s)

  -- `RetrieveValue`
  unfoldable pub retrieve_value : Manager → ℕ → Option (List ℕ × Manager)
  retrieve_value s key = let p = from_raw (s.index key) in retrieve_typed (type p) p s key

  abbrev pub published : ℕ → UnifiedPointer × Manager → Option (Outcome × Manager)
  published key r = publish shm ssd r.1 key r.0 >>= λ t. some (Outcome.stored, t)

  -- the last resort of `WriteValue`
  abbrev pub on_disk : Manager → ℕ → List ℕ → Io → Option (Outcome × Manager)
  on_disk s key value io = write_disk shm ssd s value io >>= λ r.
      if is_valid r.0 then published key r else some (Outcome.no_room, r.1)

  abbrev pub second_try : Manager → ℕ → List ℕ → Io → Option (Outcome × Manager)
  second_try s key value io = write_mem shm ssd s key value >>= λ r.
      if is_valid r.0 then published key r else on_disk r.1 key value io

  -- `WriteValue` after it has found that it cannot write in place; `wait` is what the evicting
  -- thread does to the store meanwhile
  unfoldable pub place_value :
      Manager → ℕ → List ℕ → Io → (Manager → Manager) → Bool → Option (Outcome × Manager)
  place_value s key value io wait stop = write_mem shm ssd s key value >>= λ r.
      if is_valid r.0
      then published key r
      else if stop
      then some (Outcome.stopped, wait r.1)
      else second_try (wait r.1) key value io

  abbrev pub unless_done : Option Manager → Option (Outcome × Manager) → Option (Outcome × Manager)
  unless_done (some t) rest = some (Outcome.stored, t)
  unless_done none rest = rest

  -- `WriteValue`
  unfoldable pub write_value :
      Manager → ℕ → List ℕ → Io → (Manager → Manager) → Bool → Option (Outcome × Manager)
  unfolding place_value
  write_value s key value io wait stop = write_in_place shm ssd s key value >>= λ r.
      unless_done r (place_value s key value io wait stop)

  -- What the evicting thread has in hand between its two critical sections.
  pub data Copy : Type 0 where
    skipped : Manager → Copy
    copied : UnifiedPointer → UnifiedPointer → Manager → Copy

  abbrev pub copy_out : Manager → ℕ → UnifiedPointer → Io → ℕ → Option Copy
  copy_out s key mem_ptr io ptr = write_disk shm ssd s (read_block s.memory ptr) io >>= λ r.
      if is_valid r.0
      then some (copied mem_ptr r.0 r.1)
      else touch_lru shm ssd r.1 key >>= λ t. some (skipped t)

  abbrev pub evict_copy_typed : PointerType → Manager → ℕ → UnifiedPointer → Io → Option Copy
  evict_copy_typed PointerType.memory s key p io = as_memory_pointer p >>= copy_out s key p io
  evict_copy_typed _ s key p io = some (skipped s)

  -- the body of the eviction loop up to the second critical section
  unfoldable pub evict_copy : Manager → ℕ → Io → Option Copy
  evict_copy s key io = let p = from_raw (s.index key) in evict_copy_typed (type p) s key p io

  -- the compare and swap of the index, and what is freed after it; promotion uses it too
  unfoldable pub swap_pointer : Manager → ℕ → UnifiedPointer → UnifiedPointer → Option Manager
  swap_pointer s key old_ptr new_ptr =
      if s.index key == old_ptr.raw
      then free_pointer shm ssd old_ptr (record s { index = update s.index key new_ptr.raw })
      else free_pointer shm ssd new_ptr s

  abbrev pub finish_copy : ℕ → Copy → Option Manager
  finish_copy key (skipped s) = some s
  finish_copy key (copied old_ptr new_ptr s) = swap_pointer s key old_ptr new_ptr

  -- one victim
  unfoldable pub evict_one : Manager → ℕ → Io → Option Manager
  unfolding evict_copy swap_pointer
  evict_one s key io = evict_copy s key io >>= finish_copy key

  -- the loop over the victims; `io` gives what the system answers for each key
  unfoldable pub evict_keys : Manager → List ℕ → (ℕ → Io) → Option Manager
  evict_keys s [] io = some s
  evict_keys s (key ∷ keys) io =
      let rest = evict_one s key (io key) >>= λ t. evict_keys t keys io in
      if leb s.shm_used_bytes s.low_watermark then some s else rest

  -- the first part of a round
  unfoldable pub evict_round : Manager → (ℕ → Io) → Option Manager
  unfolding evict_keys
  evict_round s io =
      let r = evict_batch s.lru 512 in
      let rest = evict_keys (record s { lru = r.1 }) r.0 io in
      if ltb s.low_watermark s.shm_used_bytes then rest else some s
