-- ===== src/Flatc.antt =====
-- The flat wire format of parameters (src/base/flatc.h): FlatItemCompressor writes a count, the end
-- of each item and the items; FlatItemCompressReader reads it in place. A buffer is a list of
-- bytes, an address a position in it, and a read past its end is `none`. How an item is written
-- (FlatItemDetail::CompressAppend) is a parameter, as it is a template's in the source.
pub mod Keyed
pub mod Writing
pub mod Pairs
pub mod Framing
pub mod Reading
pub mod Parameters
mod Examples
use rec_store.Prelude.{
  ℕ, zero, suc, ◌+◌, ◌-◌, ◌*◌, ◌%◌, ◌^◌, Bool, true, false, ◌&&◌, Option, none, some, List, [], ◌∷◌,
  ◌++◌, ◌==◌, ltb, leb, if◌then◌else◌, length, get_or, set,
}
use mathlib.Core.Option
use rec_store.Prelude.Int.{ℤ, pos, negsuc, to_int, int_eq, int_ge}
use rec_store.Prelude.Bytes.{words_bytes, read_word}

infixl 5 ◌>>=◌
abbrev pub ◌>>=◌ : {A B : Type 0} → Option A → (A → Option B) → Option B
none >>= f = none
some a >>= f = f a

-- `FlatItemCompressReader`: `this` is position 0 of the buffer

-- the bits of the `int` member `size`
abbrev pub size_bits : List ℕ → Option ℕ
size_bits block = read_word 4 block 0

-- `item_size`
unfoldable pub item_size : List ℕ → Option ℤ
item_size block = Option.map to_int (size_bits block)

-- the sum of a pointer and an `int`
abbrev pub advance : ℕ → ℤ → Option ℕ
advance base (pos n) = some (base + n)
advance base (negsuc n) = if ltb n base then some (base - suc n) else none

-- `values`: the offsets stand at position 4
abbrev pub values_at : ℤ → Option ℕ
values_at (pos n) = some (4 + n * 4)
values_at (negsuc zero) = some 0
values_at (negsuc (suc n)) = none

-- `offset`, the bits of the `int`
abbrev pub offset_bits : List ℕ → ℤ → Option ℕ
offset_bits block (pos zero) = some 0
offset_bits block (pos (suc i)) = read_word 4 block (4 + i * 4)
offset_bits block (negsuc i) = some 0

-- `item`: the address of item i
unfoldable pub item : List ℕ → ℕ → Option ℕ
item block i = do
  size ← size_bits block
  values ← values_at (to_int size)
  offset ← offset_bits block (pos i)
  advance values (to_int offset)

-- `byte_size`; the sum is taken modulo 2 ^ 32
unfoldable pub byte_size : List ℕ → Option ℤ
byte_size block = do
  size ← size_bits block
  offset ← offset_bits block (to_int size)
  some (to_int (4 + size * 4 + offset))

-- an `int` compared with `sizeof`, both unsigned
abbrev pub at_least : ℕ → ℤ → Bool
at_least n (pos m) = leb n m
at_least n (negsuc m) = true

-- `Valid`
unfoldable pub valid : List ℕ → ℤ → Option Bool
unfolding byte_size
valid block expect_bytes =
    if at_least 4 expect_bytes
    then Option.map (λ n. int_eq n expect_bytes) (byte_size block)
    else some false

-- `FlatItemCompressor`: entry 0 of the offsets is where the count goes
pub record Compressor : Type 0 where
  pub block_size : ℤ
  pub offsets : List ℕ
  pub item_data : List ℕ

-- the constructor
unfoldable pub new_compressor : ℤ → Compressor
new_compressor block_size = record { block_size = block_size; offsets = 0 ∷ []; item_data = [] }

-- `Clear`; `resize(1)` keeps the entry that is there
unfoldable pub clear : Compressor → Compressor
clear c = record c { offsets = get_or c.offsets 0 0 ∷ []; item_data = [] }

-- `byte_size` of the compressor
unfoldable pub pending_size : Compressor → ℤ
pending_size c = to_int (length c.offsets * 4 + length c.item_data)

-- `AppendToBlock`, and `AppendToIOBuf` where the buffer is a string
unfoldable pub append_to_block : Compressor → List ℕ → List ℕ × Compressor
unfolding clear
append_to_block c block =
    let offsets = set c.offsets 0 ((length c.offsets - 1) % 2 ^ 32) in
    if ltb (length c.offsets) 2
    then (block, c)
    else (block ++ (words_bytes 4 offsets ++ c.item_data), clear (record c { offsets = offsets }))

-- `ToBlock` into one block
unfoldable pub to_one_block : Compressor → List ℕ → List ℕ × Compressor
unfolding append_to_block
to_one_block c block = if ltb (length c.offsets) 2 then (block, c) else append_to_block c []

abbrev pub is_empty : List ℕ → Bool
is_empty [] = true
is_empty (b ∷ bs) = false

-- the loop of `ToBlock`: the first empty block, or else their number
unfoldable pub first_empty : List (List ℕ) → ℕ
first_empty [] = 0
first_empty (b ∷ bs) = let rest = suc (first_empty bs) in if is_empty b then 0 else rest

abbrev pub write_block : List (List ℕ) → ℕ → List ℕ → List (List ℕ)
write_block blocks i block =
    if ltb i (length blocks) then set blocks i block else blocks ++ block ∷ []

-- `ToBlock` into a list of blocks, and its answer
unfoldable pub to_block : Compressor → List (List ℕ) → ℕ × List (List ℕ) × Compressor
unfolding to_one_block first_empty
to_block c blocks =
    let size = first_empty blocks in
    let (block, c') = to_one_block c (get_or blocks size []) in
    if ltb (length c.offsets) 2
    then (size, blocks, c)
    else (size + 1, write_block blocks size block, c')

module _ {ℓ} {A : Type ℓ} (compress : A → List ℕ) where
  -- the first two lines of `AddItem`, and the body of the loop of `BatchAddItems`
  unfoldable pub append_item : Compressor → A → Compressor
  append_item c x =
      let bytes = c.item_data ++ compress x in
      record c { offsets = c.offsets ++ (length bytes % 2 ^ 32) ∷ []; item_data = bytes }

  -- `BatchAddItems`
  unfoldable pub batch_add_items : Compressor → List A → Compressor
  unfolding append_item
  batch_add_items c [] = c
  batch_add_items c (x ∷ xs) = batch_add_items (append_item c x) xs

  -- `AddItem`, with a pointer to the blocks that is not null
  unfoldable pub add_item : Compressor → A → List (List ℕ) → ℕ × List (List ℕ) × Compressor
  unfolding append_item pending_size to_block
  add_item c x blocks =
      let c' = append_item c x in
      if int_ge (pending_size c') c'.block_size then to_block c' blocks else (0, blocks, c')
