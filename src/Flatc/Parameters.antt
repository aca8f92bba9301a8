-- ===== src/Flatc/Parameters.antt =====
-- Rows on the wire (src/ps/base/parameters.h, src/ps/base/parameters.cpp): ParameterPack is a key,
-- a dimension and the floats of a row, which are kept as their 32-bit patterns.
use rec_store.Prelude.{
  ℕ, zero, suc, ◌+◌, ◌*◌, ◌^◌, ◌<◌, ◌≡◌, refl, ap, sym, ◌∙◌, arith, Option, some, List, [], ◌∷◌,
  ◌++◌, map, ◌==◌, length, length-map, get_or-map, get_or,
}
use mathlib.Core.List.{append-nil}
use mathlib.Core.Option
use rec_store.Prelude.Int.{ℤ, pos}
use rec_store.Prelude.Bytes.{
  le_bytes, le_value, words_bytes, read_bytes, read_word, read_bytes-part, le_value-int,
  le_value-u64, length-le_bytes, length-words_bytes,
}
use rec_store.Flatc.{item_size, item, valid, to_one_block, batch_add_items, ◌>>=◌}
use rec_store.Flatc.Writing.{blank, frame, to_one_block-frame}
use rec_store.Flatc.Reading.{start, item_size-frame, valid-frame, item-frame, read_bytes-item}

pub record ParameterPack : Type 0 where
  pub key : ℕ
  pub dim : ℕ
  pub emb_data : List ℕ

-- `Pack<ParameterCompressItem>::CompressAppend`, where `emb_data` points to `dim` floats
unfoldable pub compress_append : ParameterPack → List ℕ
compress_append pack = le_bytes 8 pack.key ++ (le_bytes 4 pack.dim ++ words_bytes 4 pack.emb_data)

-- `byte_size` of an item of a dimension, and `GetSize`
unfoldable pub get_size : ℕ → ℕ
get_size dim = 12 + dim * 4

-- n floats from position p
abbrev pub read_floats : List ℕ → ℕ → ℕ → Option (List ℕ)
read_floats block p zero = some []
read_floats block p (suc n) = do
  x ← read_word 4 block p
  xs ← read_floats block (p + 4) n
  some (x ∷ xs)

-- `key`, `dim` and `data` of the `ParameterCompressItem` at position p
unfoldable pub read_item : List ℕ → ℕ → Option ParameterPack
read_item block p = do
  key ← read_word 8 block p
  dim ← read_word 4 block (p + 8)
  emb_data ← read_floats block (p + 12) dim
  some (record { key = key; dim = dim; emb_data = emb_data })

-- A row whose fields fit their types and whose floats are as many as it says.
pub record Fits (pack : ParameterPack) : Type 0 where
  pub key_fits : pack.key < 2 ^ 64
  pub dim_fits : pack.dim < 2 ^ 31
  pub sized : pack.dim ≡ length pack.emb_data
  pub floats : (j : ℕ) → get_or pack.emb_data j 0 < 2 ^ 32

pub length-compress_append :
    (pack : ParameterPack) → Fits pack → length (compress_append pack) ≡ get_size pack.dim
unfolding compress_append get_size
length-compress_append pack f = omega (arith, f.sized, length-words_bytes 4 pack.emb_data)

word_part :
    (w v : ℕ) (block bs pre post : List ℕ) (p n q : ℕ)
    → read_bytes block p n ≡ some bs
    → bs ≡ pre ++ (le_bytes w v ++ post)
    → q ≡ p + length pre
    → read_word w block q ≡ some (le_value (le_bytes w v))
word_part w v block bs pre post p n q read parts at = ap (Option.map le_value) (
    read_bytes-part block bs pre (le_bytes w v) post p n q w read parts at
      (sym (length-le_bytes w v)))

read_floats-words :
    (block : List ℕ) (xs : List ℕ) (p n : ℕ)
    → read_bytes block p n ≡ some (words_bytes 4 xs)
    → ((j : ℕ) → get_or xs j 0 < 2 ^ 32)
    → read_floats block p (length xs) ≡ some xs
read_floats-words block [] p n read low = refl
read_floats-words block (x ∷ xs) p n read low =
    let bs = words_bytes 4 (x ∷ xs) in
    let first =
      word_part 4 x block bs [] (words_bytes 4 xs) p n p read refl (omega arith)
      ∙ ap some (le_value-int x (low 0)) in
    let others =
      read_bytes-part block bs (le_bytes 4 x) (words_bytes 4 xs) [] p n (p + 4)
        (length (words_bytes 4 xs)) read
        (ap (λ l. le_bytes 4 x ++ l) (sym (append-nil (words_bytes 4 xs)))) refl refl in
    let rest = read_floats-words block xs (p + 4) _ others (λ j. low (suc j)) in
    ap (λ o. o >>= λ v. read_floats block (p + 4) (length xs) >>= λ vs. some (v ∷ vs)) first
    ∙ ap (λ o. o >>= λ vs. some (x ∷ vs)) rest

-- A row is read back from where its bytes stand.
read_item-compress_append :
    (block : List ℕ) (pack : ParameterPack) (p : ℕ)
    → Fits pack
    → read_bytes block p (length (compress_append pack)) ≡ some (compress_append pack)
    → read_item block p ≡ some pack
unfolding read_item compress_append
read_item-compress_append block pack p f read =
    let n = length (compress_append pack) in
    let bs = compress_append pack in
    let key_bytes = le_bytes 8 pack.key in
    let dim_bytes = le_bytes 4 pack.dim in
    let emb_bytes = words_bytes 4 pack.emb_data in
    let key =
      word_part 8 pack.key block bs [] (dim_bytes ++ emb_bytes) p n p read refl (omega arith)
      ∙ ap some (le_value-u64 pack.key f.key_fits) in
    let dim =
      word_part 4 pack.dim block bs key_bytes emb_bytes p n (p + 8) read refl refl
      ∙ ap some (le_value-int pack.dim (omega (arith, f.dim_fits))) in
    let whole : bs ≡ (key_bytes ++ dim_bytes) ++ (emb_bytes ++ []) =
      ap (λ l. key_bytes ++ (dim_bytes ++ l)) (sym (append-nil emb_bytes)) in
    let floats =
      read_floats-words block pack.emb_data (p + 12) _
        (read_bytes-part block bs (key_bytes ++ dim_bytes) emb_bytes [] p n (p + 12)
          (length emb_bytes) read whole refl refl)
        f.floats in
    let row = λ (k : ℕ) (d : ℕ) (e : List ℕ).
      let r : ParameterPack = record { key = k; dim = d; emb_data = e } in r in
    ap
      (λ o. o >>= λ k.
        read_word 4 block (p + 8) >>= λ d. read_floats block (p + 12) d >>= λ e. some (row k d e))
      key
    ∙ ap (λ o. o >>= λ d. read_floats block (p + 12) d >>= λ e. some (row pack.key d e)) dim
    ∙ ap (λ m. read_floats block (p + 12) m >>= λ e. some (row pack.key pack.dim e)) f.sized
    ∙ ap (λ o. o >>= λ e. some (row pack.key pack.dim e)) floats

abbrev pub no_pack : ParameterPack
no_pack = record { key = 0; dim = 0; emb_data = [] }

-- The block that a compressor of rows makes.
abbrev pub block_of : ℤ → ℕ → List ParameterPack → List ℕ → List ℕ
block_of block_size n packs old =
    (to_one_block (batch_add_items compress_append (blank block_size n) packs) old).0

block_of-frame :
    (b : ℤ) (n : ℕ) (x : ParameterPack) (xs : List ParameterPack) (old : List ℕ)
    → length (frame (map compress_append (x ∷ xs))) < 2 ^ 31
    → block_of b n (x ∷ xs) old ≡ frame (map compress_append (x ∷ xs))
block_of-frame b n x xs old small =
    ap (λ r. r.0) (to_one_block-frame compress_append b n x xs old small)

-- Rows that fit their types, at least one, are added to a compressor that holds nothing and written
-- to one block of fewer than 2 ^ 31 bytes: the block holds the frame of the rows and nothing of
-- what was there; its reader counts the rows, accepts the block's length and no other length, and
-- reads from the address of item i the key, the dimension and the floats of row i.
pub read_item-block_of :
    (b : ℤ) (n : ℕ) (x : ParameterPack) (xs : List ParameterPack) (old : List ℕ)
    → length (frame (map compress_append (x ∷ xs))) < 2 ^ 31
    → ((i : ℕ) → i < length (x ∷ xs) → Fits (get_or (x ∷ xs) i no_pack))
    → let block = block_of b n (x ∷ xs) old in
      (item_size block ≡ some (pos (length (x ∷ xs))))
      × ((m : ℕ) → valid block (pos m) ≡ some (length block == m))
      × ((i : ℕ)
          → i < length (x ∷ xs)
          → (p : ℕ) × (item block i ≡ some p)
            × (read_item block p ≡ some (get_or (x ∷ xs) i no_pack)))
read_item-block_of b n x xs old small fits =
    let items = map compress_append (x ∷ xs) in
    let named = length-map compress_append (x ∷ xs) in
    let end = append-nil (frame items) in
    let at = λ (i : ℕ). 4 + length items * 4 + start items i in
    let size : item_size (frame items) ≡ some (pos (length (x ∷ xs))) =
      ap item_size (sym end) ∙ item_size-frame items [] small ∙ ap (λ k. some (pos k)) named in
    let checks : (m : ℕ) → valid (frame items) (pos m) ≡ some (length (frame items) == m) =
      λ m. ap (λ l. valid l (pos m)) (sym end) ∙ valid-frame items [] small m in
    let rows : (i : ℕ)
        → i < length (x ∷ xs)
        → (p : ℕ) × (item (frame items) i ≡ some p)
          × (read_item (frame items) p ≡ some (get_or (x ∷ xs) i no_pack)) =
      λ i h.
        let inside : i < length items = omega (arith, h, named) in
        let bytes = get_or-map compress_append (x ∷ xs) i no_pack [] h in
        let read = rw (end, bytes) at (read_bytes-item items [] small i inside) in
        (
          at i,
          ap (λ l. item l i) (sym end) ∙ item-frame items [] small i inside,
          read_item-compress_append (frame items) (get_or (x ∷ xs) i no_pack) (at i) (fits i h)
              read,
        ) in
    rw (block_of-frame b n x xs old small) (size, checks, rows)
