-- ===== src/Engine.antt =====
-- KVEngineExtendibleHash (src/storage/kv_engine/engine_extendible_hash.h): values in shared memory,
-- found by the extendible hash index. The locks are left out; an abort, and a call of the index that
-- would wait, is `none`.
mod PetKv
mod Numbers
mod Putting
mod Moving
mod OverSlab
mod Serving
mod Examples
use rec_store.Prelude.{ℕ, ◌/◌, Option, none, some, List, [], ◌∷◌, ◌==◌, if◌then◌else◌, length}
use rec_store.Prelude.Int.{ℤ}
use rec_store.ExtendibleHash.Slots.{none_value}
use rec_store.ExtendibleHash.Ops.{ExtendibleHash, insert}
use rec_store.ExtendibleHash.Ops
use rec_store.Hybrid.Store.{◌>>=◌}
use rec_store.Hybrid.Blocks.{write_at, read_at}
use rec_store.Hybrid.Allocator.{Allocator}
use PetKv.{Config, shm_malloc_offset, set_shm_malloc_offset}
use Numbers.{Addressing}

pub record Engine (S : Type 0) : Type 0 where
  pub shm_malloc : S
  pub memory : ℕ → ℕ
  pub hash_table : ExtendibleHash

module _ {S : Type 0} (h : ℕ → ℕ) (api : Allocator S) (g : Addressing) (c : Config) where
  -- `GetMallocData` of the offset in an index word
  abbrev pub data_of : ℕ → Option ℕ
  data_of word = g.get_malloc_data (shm_malloc_offset c word)

  -- The index word for a block: `SetShmMallocOffset` on a new PetKVData.
  abbrev pub word_of : ℕ → ℕ
  word_of ptr = set_shm_malloc_offset c 0 (g.get_malloc_offset ptr)

  -- The address that the callers look up for a word of the index: none for NONE and where
  -- `GetMallocData` gives a null pointer.
  abbrev pub found : ℕ → Option ℕ
  found word = if word == none_value then none else data_of word

  -- what `Get` copies from the address
  abbrev pub copied : ℕ → (ℕ → ℕ) → Option ℕ → List ℕ
  copied value_size memory none = []
  copied value_size memory (some ptr) = read_at memory ptr value_size

  -- `Get`; no value is the empty string
  unfoldable pub get : ℕ → Engine S → ℕ → List ℕ
  get value_size e key = copied value_size e.memory (found (Ops.get h e.hash_table key))

  -- The part of `Put` that frees the old value; `Free` of a null pointer does nothing.
  abbrev pub free_old : S → Option ℕ → S
  free_old s none = s
  free_old s (some old) = (api.free s old).1

  -- `Put` after its call of `New`
  abbrev pub placed : ℕ → Engine S → ℕ → List ℕ → Option ℕ × S → Option (Engine S)
  placed fuel e key value (none, s) = some (record e { shm_malloc = s })
  placed fuel e key value (some sync_data, s) =
      insert h fuel e.hash_table key (word_of sync_data) >>= λ t. some (record {
        shm_malloc = free_old s (found (Ops.get h e.hash_table key));
        memory = write_at e.memory sync_data value;
        hash_table = t;
      })

  -- `Put`; where New fails an error is logged, and nothing is stored
  unfoldable pub put : ℕ → Engine S → ℕ → List ℕ → Option (Engine S)
  put fuel e key value = api.new e.shm_malloc (length value) >>= placed fuel e key value

  -- what `BatchGet` answers for a key: where its data stands and how many floats it has
  abbrev pub view : ℕ → Engine S → ℕ → Option (ℕ × ℕ)
  view value_size e key = elim (found (Ops.get h e.hash_table key)) [
    | none ↦ none
    | some ptr ↦ some (ptr, value_size / 4)
  ]

  -- `BatchGet`
  unfoldable pub batch_get : ℕ → Engine S → List ℕ → List (Option (ℕ × ℕ))
  batch_get value_size e [] = []
  batch_get value_size e (k ∷ ks) = view value_size e k ∷ batch_get value_size e ks
