-- ===== src/Engine/Examples.antt =====
-- An engine of values of eight bytes, over the slab allocator.
use rec_store.Prelude.{
  ℕ, ◌^◌, ◌≡◌, ◌≢◌, ◌⊎◌, inl, inr, refl, arith, none, some, false, List, [], ◌∷◌, map, replicate,
  update,
}
use rec_store.ExtendibleHash.Ops.{built, floor_log2, init_blocks, range_from}
use rec_store.ExtendibleHash.Slots.{invalid}
use rec_store.ExtendibleHash.Slots.Counting.{tally}
use rec_store.ExtendibleHash.Block.{new_block}
use rec_store.ExtendibleHash.Put.{HasRoom}
use rec_store.ExtendibleHash.Creation.{create-IsValid}
use rec_store.Hybrid.Allocator.{Lawful}
use rec_store.Slab.State as Slab
use rec_store.Slab.State.{Malloc, initialize, grow, zero_words}
use rec_store.Slab.Allocate.{new, find_list, new_by_loop, search, scan, use_checked}
use rec_store.Slab.Sizing.{block_num-create}
use rec_store.Slab.Invariant.{IsValid}
use rec_store.Engine.OverSlab.{slab, slab_offsets, Slabs, slab-Lawful}
use rec_store.Engine.{Engine, put, batch_get}
use rec_store.Engine.PetKv.{pet_config}
use rec_store.Engine.Numbers.{Addresses}
use rec_store.Engine.Serving.{Serves, covered, batch_get-Serves}
use rec_store.Engine.Putting.{Stores, put-Stores}

abbrev same_hash : ℕ → ℕ
same_hash k = k

-- A file of 128 blocks, with the fast path disabled.
abbrev file : List ℕ
file = replicate 130 0

abbrev blocks : Malloc
blocks = record {
  block_num = 128;
  words = file;
  last_malloc_block = 0;
  total_used = 0;
  total_malloc = 0;
  enable_fast_malloc = false;
  fast_malloc_lists = [];
}

blocks-IsValid : IsValid blocks (λ h. 0)
unfolding Slab.create initialize grow zero_words
blocks-IsValid =
    let (n, fits, valid) = block_num-create 1040 file (omega arith) in
    record { holds = valid.holds; start = valid.start }

slab-Lawful_example :
    Lawful (slab same_hash blocks) (Slabs same_hash blocks)
    × Addresses (slab_offsets same_hash blocks) (Slabs same_hash blocks)
slab-Lawful_example = slab-Lawful same_hash blocks (omega arith)

laws :
    Lawful (slab same_hash blocks) (Slabs same_hash blocks)
    × Addresses (slab_offsets same_hash blocks) (Slabs same_hash blocks)
laws = slab-Lawful same_hash blocks (omega arith)

abbrev no_blocks : ℕ → ℕ
no_blocks p = 0

abbrev nothing : ℕ → List ℕ
nothing k = []

abbrev empty : Engine Malloc
empty = record { shm_malloc = blocks; memory = λ a. 0; hash_table = built (2 ^ 1) }

empty-Serves :
    Serves same_hash
      (slab same_hash blocks)
      (slab_offsets same_hash blocks)
      8
      (Slabs same_hash blocks)
      empty
      no_blocks
      nothing
empty-Serves =
    let (made, valid, depth, blank) = create-IsValid same_hash 1 (omega arith) in
    record {
      valid = valid;
      owns = (λ h. 0, blocks-IsValid, refl, refl, (λ p l. absurd (omega arith), λ h. refl));
      absent = λ k v z. refl;
      placed = λ k v z. absurd (z (blank k v));
      unique = λ k j vk vj z e. absurd (z (blank k vk));
      spaced = λ a b la lb ne. absurd (omega arith);
    }

five_valid : 5 ≢ invalid
five_valid e = omega arith

empty-HasRoom : HasRoom same_hash 30 5 (built (2 ^ 1))
unfolding built floor_log2 init_blocks range_from new_block tally
empty-HasRoom = omega arith

abbrev eight_bytes : List ℕ
eight_bytes = 1 ∷ 2 ∷ 3 ∷ 4 ∷ 5 ∷ 6 ∷ 7 ∷ 8 ∷ []

put-Stores_example :
    (e' : Engine Malloc) × (put same_hash
        (slab same_hash blocks)
        (slab_offsets same_hash blocks)
        pet_config
        32
        empty
        5
        eight_bytes
      ≡ some e')
    × (Stores same_hash
          (slab same_hash blocks)
          (slab_offsets same_hash blocks)
          8
          (Slabs same_hash blocks)
          (laws.0)
          (laws.1)
          e'
          (update nothing 5 eight_bytes)
        ⊎ ((s' : Malloc) × ((slab same_hash blocks).new blocks 8 ≡ some (none, s'))
            × Stores same_hash
                (slab same_hash blocks)
                (slab_offsets same_hash blocks)
                8
                (Slabs same_hash blocks)
                (laws.0)
                (laws.1)
                e'
                nothing))
put-Stores_example =
    put-Stores same_hash (slab same_hash blocks) (slab_offsets same_hash blocks) 8
      (Slabs same_hash blocks) (laws.0) (laws.1) 32 empty-Serves 5 30 eight_bytes five_valid
      (omega arith) (omega arith) refl (omega arith) empty-HasRoom (omega arith)

-- The empty engine after a call of `Put`.
five_put :
    (e' : Engine Malloc) × (put same_hash
        (slab same_hash blocks)
        (slab_offsets same_hash blocks)
        pet_config
        32
        empty
        5
        eight_bytes
      ≡ some e')
    × (Stores same_hash
          (slab same_hash blocks)
          (slab_offsets same_hash blocks)
          8
          (Slabs same_hash blocks)
          (laws.0)
          (laws.1)
          e'
          (update nothing 5 eight_bytes)
        ⊎ ((s' : Malloc) × ((slab same_hash blocks).new blocks 8 ≡ some (none, s'))
            × Stores same_hash
                (slab same_hash blocks)
                (slab_offsets same_hash blocks)
                8
                (Slabs same_hash blocks)
                (laws.0)
                (laws.1)
                e'
                nothing))
five_put =
    put-Stores same_hash (slab same_hash blocks) (slab_offsets same_hash blocks) 8
      (Slabs same_hash blocks) (laws.0) (laws.1) 32 empty-Serves 5 30 eight_bytes five_valid
      (omega arith) (omega arith) refl (omega arith) empty-HasRoom (omega arith)

abbrev with_five : Engine Malloc
with_five = five_put.0

first_given : (s : Malloc) × (new same_hash blocks 8 ≡ some (some 8, s))
unfolding new find_list new_by_loop search scan use_checked Slab.is_used
first_given = (_, refl)

five_served :
    (live : ℕ → ℕ) × Serves same_hash
      (slab same_hash blocks)
      (slab_offsets same_hash blocks)
      8
      (Slabs same_hash blocks)
      with_five
      live
      (update nothing 5 eight_bytes)
five_served = elim five_put.2 [
  | inl stores ↦ stores.0
  | inr (s', none_given, stores) ↦ absurd (cc (first_given.1, none_given))
]

batch_get-Serves_example :
    map
      (covered same_hash
        (slab same_hash blocks)
        (slab_offsets same_hash blocks)
        8
        (Slabs same_hash blocks)
        with_five.memory)
      (batch_get same_hash
        (slab same_hash blocks)
        (slab_offsets same_hash blocks)
        pet_config
        8
        with_five
        (5 ∷ 6 ∷ []))
    ≡ eight_bytes ∷ [] ∷ []
batch_get-Serves_example =
    batch_get-Serves same_hash (slab same_hash blocks) (slab_offsets same_hash blocks) 8
      (Slabs same_hash blocks) five_served.1 refl (5 ∷ 6 ∷ []) (λ i l e. ground (arith, l, e))
