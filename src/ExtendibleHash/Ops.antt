-- ===== src/ExtendibleHash/Ops.antt =====
-- The operations of `ExtendibleHash`.
use rec_store.Prelude.{
  ℕ, zero, suc, ◌+◌, ◌-◌, ◌*◌, ◌/◌, ◌%◌, ◌^◌, Bool, false, not, ◌&&◌, Option, none, some, List, [],
  ◌∷◌, ◌++◌, ◌==◌, ltb, leb, if◌then◌else◌, get_or, set, length,
}
use rec_store.Prelude.Int.{ℤ, pos, negsuc, is_neg}
use rec_store.ExtendibleHash.Power.{mypow}
use rec_store.ExtendibleHash.Slots.{extract_slots}
use rec_store.ExtendibleHash.Block
use rec_store.ExtendibleHash.Block.{Block, new_block}
use rec_store.ExtendibleHash.Directory.{Directory, lsb_update, doubled}

-- The index, with the heap that its directory points into.
pub record ExtendibleHash : Type 0 where
  pub dir : Directory
  pub global_depth : ℕ
  pub heap : List Block

-- a read through an address that holds no block, which the invariant excludes
abbrev pub no_block : Block
no_block = record { slots = []; local_depth = 0; sema = negsuc 0; pattern = 0 }

abbrev pub block_at : ExtendibleHash → ℕ → Block
block_at t a = get_or t.heap a no_block

-- `static_cast<size_t>(log2(n))`, where it is called: n is below 2 ^ 32, for which the logarithm that
-- a double holds has the exact floor
unfoldable pub floor_log2 : ℕ → ℕ → ℕ
floor_log2 zero n = 0
floor_log2 (suc k) n = let rest = floor_log2 k (n / 2) in if leb n 1 then 0 else suc rest

-- the loop of the constructor, for fewer than 2 ^ 32 entries: one block for each
unfoldable pub init_blocks : ℕ → ℕ → ℕ → List Block
init_blocks d zero i = []
init_blocks d (suc k) i = record (new_block d) { pattern = i } ∷ init_blocks d k (i + 1)

unfoldable pub range_from : ℕ → ℕ → List ℕ
range_from zero i = []
range_from (suc k) i = i ∷ range_from k (i + 1)

-- the index that the constructor sets up
unfoldable pub built : ℕ → ExtendibleHash
unfolding init_blocks range_from
built cap =
    let d = floor_log2 64 cap in
    record {
      dir = record { entries = range_from cap 0; capacity = cap; lock = false };
      global_depth = d;
      heap = init_blocks d cap 0;
    }

-- The constructor; a missing or zero `initial_capacity` is 1. Its loop counts in an `unsigned`, which
-- never reaches a capacity of 2 ^ 32 or more: `none`.
unfoldable pub create : Option ℕ → Option ExtendibleHash
create initial_capacity =
    let cap : ℕ = elim initial_capacity [ none ↦ 1 | some c ↦ if c == 0 then 1 else c ] in
    if ltb cap (2 ^ 32) then some (built cap) else none

-- `dir._[key_hash % dir.capacity]`: the address of the block for a hash
unfoldable pub locate : ExtendibleHash → ℕ → ℕ
locate t key_hash = get_or t.dir.entries (key_hash % t.dir.capacity) 0

-- The critical section of `Insert`, for the split blocks at the addresses s0 and s1. `LSBUpdate` takes
-- the capacity as an `int`, which does not hold 2 ^ 31 or more: `none`.
unfoldable pub update_directory : ExtendibleHash → ℕ → ℕ → ℕ → ℕ → Option ExtendibleHash
update_directory t key_hash s0 s1 depth =
    let x = key_hash % t.dir.capacity in
    if ltb (block_at t (get_or t.dir.entries x 0)).local_depth t.global_depth
    then (if ltb t.dir.capacity (2 ^ 31)
        then some (record t {
          dir = record t.dir {
            entries = lsb_update (t.global_depth - depth) t.dir.capacity x s0 s1 t.dir.entries;
          };
        })
        else none)
    else some (record t {
      dir = record {
        entries = doubled t.dir x s0 s1;
        capacity = t.dir.capacity * 2;
        lock = t.dir.lock;
      };
      global_depth = t.global_depth + 1;
    })

module _ (h : ℕ → ℕ) where
  -- The branch of `Insert` for a full block: split it, give the halves their patterns, and enter
  -- them in the directory. A held lock would be waited for, and is `none`; so is, for the retry
  -- that follows, a block that another thread is splitting.
  unfoldable pub split_full : ExtendibleHash → ℕ → ℕ → Option ExtendibleHash
  unfolding update_directory
  split_full t key_hash target = elim (Block.split h (block_at t target)) [
    | none ↦ some t
    | some (old, b0, b1) ↦
        (let low = key_hash % mypow 2 (b0.local_depth - 1) in
          let c0 = record b0 { pattern = low } in
          let c1 = record b1 { pattern = low + 2 ^ (b0.local_depth - 1) } in
          let s0 = length t.heap in
          let grown = record t { heap = set t.heap target old ++ c0 ∷ c1 ∷ [] } in
          if t.dir.lock then none else update_directory grown key_hash s0 (s0 + 1) b0.local_depth)
  ]

  -- one call of `target->Insert`, on the block that the hash selects
  unfoldable pub try_insert : ExtendibleHash → ℕ → ℕ → ℤ × ExtendibleHash
  try_insert t key value =
      let target = locate t (h key) in
      let (ret, b) = Block.insert (block_at t target) key value (h key) in
      (ret, record t { heap = set t.heap target b })

  -- `Insert` on fuel: each round of RETRY, and the call of itself after -2, takes one unit.
  unfoldable pub insert : ℕ → ExtendibleHash → ℕ → ℕ → Option ExtendibleHash
  insert zero t key value = none
  insert (suc fuel) t key value =
      let (ret, t') = try_insert t key value in
      elim ret [
        | pos i ↦ some t'
        | negsuc (suc n) ↦ insert fuel t' key value
        | negsuc zero ↦ elim (split_full t' (h key) (locate t (h key))) [
          | none ↦ none
          | some t'' ↦ insert fuel t'' key value
        ]
      ]

  -- `InsertOnly`, which does not resize
  unfoldable pub insert_only : ExtendibleHash → ℕ → ℕ → Bool × ExtendibleHash
  unfolding try_insert
  insert_only t key value = let (ret, t') = try_insert t key value in (not (is_neg ret), t')

  -- `Delete`, with one more try where the block was being split
  unfoldable pub delete : ExtendibleHash → ℕ → Bool × ExtendibleHash
  delete t key =
      let target = locate t (h key) in
      let (success, b) = Block.delete (block_at t target) key in
      let t' = record t { heap = set t.heap target b } in
      let again : Bool × ExtendibleHash =
        let target' = locate t' (h key) in
        let (success', b') = Block.delete (block_at t' target') key in
        (success', record t' { heap = set t'.heap target' b' }) in
      if not success && is_neg b.sema then again else (success, t')

  -- `Extract`, and `Get`
  unfoldable pub get : ExtendibleHash → ℕ → ℕ
  get t key = extract_slots key (block_at t (locate t (h key))).slots

  -- `BatchGet` and `BatchPut`; the fatal error on no keys is `none`
  unfoldable pub get_all : ExtendibleHash → List ℕ → List ℕ
  get_all t [] = []
  get_all t (k ∷ ks) = get t k ∷ get_all t ks

  unfoldable pub batch_get : ExtendibleHash → List ℕ → Option (List ℕ)
  unfolding get_all
  batch_get t [] = none
  batch_get t (k ∷ ks) = some (get_all t (k ∷ ks))

  unfoldable pub put_all : ℕ → ExtendibleHash → List (ℕ × ℕ) → Option ExtendibleHash
  put_all fuel t [] = some t
  put_all fuel t ((k, v) ∷ kvs) = elim (insert fuel t k v) [
    | none ↦ none
    | some t' ↦ put_all fuel t' kvs
  ]

  unfoldable pub batch_put : ℕ → ExtendibleHash → List (ℕ × ℕ) → Option ExtendibleHash
  unfolding put_all
  batch_put fuel t [] = none
  batch_put fuel t (kv ∷ kvs) = put_all fuel t (kv ∷ kvs)
