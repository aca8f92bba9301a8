-- ===== src/Hybrid/Promoting.antt =====
-- The second half of EvictAndPromoteLoop (src/storage/hybrid/value.h): values that were read often
-- move from disk to memory. `keys` is the order in which the map of counts is walked. The walk erases
-- the count at its iterator and then advances the iterator, which C++ leaves undefined; the model
-- ends the round there, as `dangling`.
use rec_store.Prelude.{
  ℕ, zero, suc, ◌-◌, ◌/◌, Bool, true, false, not, ◌||◌, Option, none, some, List, [], ◌∷◌, ◌==◌,
  ltb, leb, if◌then◌else◌, update,
}
use rec_store.Pointer.{PointerType, UnifiedPointer, from_raw, type, is_valid, as_disk_page_id}
use rec_store.Hybrid.Blocks.{read_block}
use rec_store.Hybrid.Allocator.{Allocator}
use rec_store.Hybrid.Store.{Store, Io, ◌>>=◌, write_mem}
use rec_store.Hybrid.Manager.{promote_threshold, swap_pointer, evict_round}

-- `promote_headroom` of the loop
unfoldable pub promote_headroom : ℕ → ℕ → ℕ → ℕ
promote_headroom low capacity used_bytes =
    let floor = if ltb (capacity / 20) low then low - capacity / 20 else low in
    if ltb used_bytes floor then floor - used_bytes else 0

-- how many a count is; a key without one is not walked
abbrev pub count_of : Option ℕ → ℕ
count_of none = 0
count_of (some n) = n

-- one count of the decay
abbrev pub cooler : Option ℕ → Option ℕ
cooler none = none
cooler (some n) = some (n - 1)

-- How the body of the walk ends for a key: the walk goes on, it breaks, or it goes on from an
-- iterator whose node has been erased.
pub data Advance : Type 0 where
  goes_on : Advance
  breaks : Advance
  dangling : Advance

-- A count that the walk does not pass over.
abbrev pub is_hot : Option ℕ → Bool
is_hot count = not (ltb (count_of count) promote_threshold)

-- Some of the first n keys of the walk is hot.
abbrev pub any_hot : ℕ → (ℕ → Option ℕ) → List ℕ → Bool
any_hot zero hot keys = false
any_hot (suc n) hot [] = false
any_hot (suc n) hot (key ∷ keys) = is_hot (hot key) || any_hot n hot keys

module _ {S D : Type 0} (shm : Allocator S) (ssd : Allocator D) (hash : ℕ → ℕ) where
  abbrev pub forget : Store S D → ℕ → Store S D
  forget s key = record s { hot = update s.hot key none }

  -- the swap after a copy to memory
  abbrev pub promote_swap :
      Store S D → ℕ → UnifiedPointer → UnifiedPointer → Option (Advance × Store S D)
  promote_swap s key disk_ptr mem_ptr = swap_pointer shm ssd hash s key disk_ptr mem_ptr >>= λ t.
      if s.index key == disk_ptr.raw
      then some (if leb t.low_watermark t.shm_used_bytes then breaks else dangling, forget t key)
      else some (goes_on, t)

  abbrev pub promote_from : Store S D → ℕ → UnifiedPointer → ℕ → Option (Advance × Store S D)
  promote_from s key disk_ptr off = write_mem shm ssd s key (read_block s.disk off) >>= λ r.
      if is_valid r.0 then promote_swap r.1 key disk_ptr r.0 else some (goes_on, r.1)

  abbrev pub promote_typed :
      PointerType → Store S D → ℕ → UnifiedPointer → Option (Advance × Store S D)
  promote_typed PointerType.disk s key p = as_disk_page_id p >>= promote_from s key p
  promote_typed _ s key p = some (dangling, forget s key)

  -- one key of the walk
  unfoldable pub promote_one : Store S D → ℕ → Option (Advance × Store S D)
  promote_one s key =
      let p = from_raw (s.index key) in
      if is_hot (s.hot key) then promote_typed (type p) s key p else some (goes_on, s)

  abbrev pub unless_over :
      (Store S D → Option (Bool × Store S D)) → Advance × Store S D → Option (Bool × Store S D)
  unless_over f (goes_on, s) = f s
  unless_over f (breaks, s) = some (false, s)
  unless_over f (dangling, s) = some (true, s)

  -- the walk, with the rounds of kPromoteScanBudget that are left; the Boolean says whether it has
  -- advanced an iterator to an erased node
  unfoldable pub promote_keys : ℕ → Store S D → List ℕ → Option (Bool × Store S D)
  unfolding promote_one
  promote_keys zero s keys = some (false, s)
  promote_keys (suc n) s [] = some (false, s)
  promote_keys (suc n) s (key ∷ keys) =
      promote_one s key >>= unless_over (λ t. promote_keys n t keys)

  -- the decay of the first n counts
  unfoldable pub decay : ℕ → Store S D → List ℕ → Store S D
  decay zero s keys = s
  decay (suc n) s [] = s
  decay (suc n) s (key ∷ keys) =
      decay n (record s { hot = update s.hot key (cooler (s.hot key)) }) keys

  abbrev pub unless_dangling : (Store S D → Store S D) → Bool × Store S D → Bool × Store S D
  unless_dangling f (true, s) = (true, s)
  unless_dangling f (false, s) = (false, f s)

  -- a round of `EvictAndPromoteLoop`; `after` is the order of the second walk
  unfoldable pub evict_and_promote :
      Store S D → (ℕ → Io) → List ℕ → List ℕ → Option (Bool × Store S D)
  unfolding promote_headroom promote_keys decay
  evict_and_promote s io keys after = evict_round shm ssd hash s io >>= λ t.
      let promoted =
        promote_keys 512 t keys >>= λ r. some (unless_dangling (λ u. decay 256 u after) r) in
      if promote_headroom t.low_watermark t.shm_capacity t.shm_used_bytes == 0
      then some (false, t)
      else promoted
