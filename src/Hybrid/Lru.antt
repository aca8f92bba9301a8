-- ===== src/Hybrid/Lru.antt =====
-- SimpleLRUCache (src/storage/hybrid/value.h): a list of keys, the one used last at the front, and a
-- map from keys to their nodes. A node is named by its key; the lock is left out.
pub mod Keys
pub mod Recency
pub mod History
use rec_store.Prelude.{
  ℕ, zero, suc, ◌+◌, ◌-◌, Bool, true, false, Option, none, some, List, [], ◌∷◌, ◌++◌, ◌==◌, leb,
  if◌then◌else◌, length, update,
}

pub record Lru : Type 0 where
  pub capacity : ℕ
  pub order : List ℕ
  pub map_ : ℕ → Bool

-- the constructor
abbrev pub new_lru : ℕ → Lru
new_lru capacity = record { capacity = capacity; order = []; map_ = λ k. false }

-- `splice` takes the node of a key out
abbrev pub remove : ℕ → List ℕ → List ℕ
remove key [] = []
remove key (x ∷ xs) = let rest = x ∷ remove key xs in if x == key then xs else rest

-- `back` and `pop_back`; on an empty list the call is undefined
abbrev pub pop_back : List ℕ → Option (ℕ × List ℕ)
pop_back [] = none
pop_back (x ∷ []) = some (x, [])
pop_back (x ∷ y ∷ xs) = elim (pop_back (y ∷ xs)) [ none ↦ none | some r ↦ some (r.0, x ∷ r.1) ]

-- the last three lines of `insert`, which run if the key is new
abbrev pub push_front : Lru → ℕ → Lru
push_front l key = record l { order = key ∷ l.order; map_ = update l.map_ key true }

abbrev pub erase_back : Lru → ℕ × List ℕ → Lru
erase_back l r = record l { order = r.1; map_ = update l.map_ r.0 false }

abbrev pub push_full : Lru → ℕ → Option (ℕ × List ℕ) → Option Lru
push_full l key none = none
push_full l key (some r) = some (push_front (erase_back l r) key)

-- `insert`
unfoldable pub insert : Lru → ℕ → Option Lru
insert l key =
    if l.map_ key
    then some (record l { order = key ∷ remove key l.order })
    else if leb l.capacity (length l.order)
    then push_full l key (pop_back l.order)
    else some (push_front l key)

-- the loop of `evictBatch`
unfoldable pub evict_loop : ℕ → Lru → List ℕ → List ℕ × Lru
evict_loop zero l evicted_keys = (evicted_keys, l)
evict_loop (suc n) l evicted_keys = elim (pop_back l.order) [
  | none ↦ (evicted_keys, l)
  | some r ↦ evict_loop n (erase_back l r) (evicted_keys ++ r.0 ∷ [])
]

-- `evictBatch`
unfoldable pub evict_batch : Lru → ℕ → List ℕ × Lru
unfolding evict_loop
evict_batch l batch_size = evict_loop batch_size l []
