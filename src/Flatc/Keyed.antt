-- ===== src/Flatc/Keyed.antt =====
-- FlatKVCompressor and FlatKVCompressReader (src/base/flatc.h): an array of keys before a block of
-- items. The reader of the values works on the buffer from its own position on.
use rec_store.Prelude.{
  ℕ, ◌+◌, ◌-◌, ◌*◌, ◌%◌, ◌^◌, Bool, false, Option, none, some, List, [], ◌∷◌, ◌++◌, ltb,
  if◌then◌else◌, length,
}
use rec_store.Prelude.Int.{ℤ, pos, negsuc, to_int, int_eq, int_ge}
use rec_store.Prelude.Bytes.{le_bytes, words_bytes, drop, read_word}
use rec_store.Flatc.{
  Compressor, item_size, item, byte_size, at_least, new_compressor, pending_size, append_item,
  append_to_block, ◌>>=◌,
}

-- `FlatKVCompressor`
pub record KvCompressor : Type 0 where
  pub block_size : ℤ
  pub keys : List ℕ
  pub values : Compressor

-- the constructor; the values' own limit is kDefaultBlockSize
unfoldable pub new_kv_compressor : ℤ → KvCompressor
unfolding new_compressor
new_kv_compressor block_size = record {
  block_size = block_size;
  keys = [];
  values = new_compressor (pos (2 ^ 20 * 16));
}

-- the bits of an `int`
abbrev pub int_bits : ℤ → ℕ
int_bits (pos n) = n
int_bits (negsuc n) = 2 ^ 32 - 1 - n

-- `byte_size`
unfoldable pub kv_pending_size : KvCompressor → ℤ
unfolding pending_size
kv_pending_size c = to_int (4 + 8 * length c.keys + int_bits (pending_size c.values))

-- the bytes that `ToBlock` puts before the values
abbrev pub keys_bytes : List ℕ → List ℕ
keys_bytes keys = le_bytes 4 (length keys % 2 ^ 32) ++ words_bytes 8 keys

-- `ToBlock`
unfoldable pub kv_to_block : KvCompressor → List (List ℕ) → List (List ℕ) × KvCompressor
unfolding append_to_block
kv_to_block c blocks =
    let (block, values) = append_to_block c.values (keys_bytes c.keys) in
    if ltb (length c.keys) 1
    then (blocks, c)
    else (blocks ++ block ∷ [], record c { keys = []; values = values })

module _ {ℓ} {A : Type ℓ} (compress : A → List ℕ) where
  -- the two lines of `AddItem` that add
  abbrev pub kv_append : KvCompressor → ℕ → A → KvCompressor
  kv_append c key value = record c {
    keys = c.keys ++ key ∷ [];
    values = append_item compress c.values value;
  }

  -- `AddItem`
  unfoldable pub kv_add_item : KvCompressor → ℕ → A → List (List ℕ) → List (List ℕ) × KvCompressor
  unfolding append_item kv_pending_size kv_to_block
  kv_add_item c key value blocks =
      let c' = kv_append c key value in
      if int_ge (kv_pending_size c') c.block_size then kv_to_block c' blocks else (blocks, c')

-- `keys`, and `key`
unfoldable pub kv_key : List ℕ → ℕ → Option ℕ
kv_key block i = read_word 8 block (4 + i * 8)

abbrev pub after_keys : ℤ → Option ℕ
after_keys (pos n) = some (4 + n * 8)
after_keys (negsuc n) = none

-- `value_reader`, as its position
unfoldable pub value_reader : List ℕ → Option ℕ
value_reader block = do size ← read_word 4 block 0; after_keys (to_int size)

-- `value`
unfoldable pub kv_value : List ℕ → ℕ → Option ℕ
unfolding value_reader item
kv_value block i = do base ← value_reader block; p ← item (drop base block) i; some (base + p)

-- `byte_size` of the reader
unfoldable pub kv_byte_size : List ℕ → Option ℤ
unfolding value_reader byte_size
kv_byte_size block = do
  size ← read_word 4 block 0
  base ← value_reader block
  n ← byte_size (drop base block)
  some (to_int (4 + size * 8 + int_bits n))

abbrev pub same_counts : List ℕ → Option Bool
same_counts block = do
  size ← read_word 4 block 0
  base ← value_reader block
  n ← item_size (drop base block)
  some (int_eq (to_int size) n)

-- `Valid`
unfoldable pub kv_valid : List ℕ → ℤ → Option Bool
unfolding kv_byte_size
kv_valid block expect_bytes =
    let counts = same_counts block in
    if at_least 4 expect_bytes
    then (do n ← kv_byte_size block; if int_eq n expect_bytes then counts else some false)
    else some false
