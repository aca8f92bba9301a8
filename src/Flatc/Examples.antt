-- ===== src/Flatc/Examples.antt =====
-- Two rows, and two keys with values, on the wire.
use rec_store.Prelude.{
  ℕ, zero, suc, ◌^◌, ◌<◌, ◌≡◌, refl, arith, none, some, List, [], ◌∷◌, ◌==◌, length, get_or,
}
use rec_store.Prelude.Int.{pos}
use rec_store.Prelude.Bytes.{read_bytes}
use rec_store.Flatc.{
  item_size, item, valid, add_item, new_compressor, to_one_block, batch_add_items,
}
use rec_store.Flatc.Parameters.{
  ParameterPack, Fits, no_pack, block_of, read_item, read_item-block_of, compress_append,
}
use rec_store.Flatc.Keyed.{kv_to_block, kv_key, kv_value, kv_valid}
use rec_store.Flatc.Pairs.{kv_append_all, blank_kv, read-kv_to_block}

abbrev row_a : ParameterPack
row_a = record { key = 7; dim = 2; emb_data = 1065353216 ∷ 3 ∷ [] }

abbrev row_b : ParameterPack
row_b = record { key = 300; dim = 1; emb_data = 5 ∷ [] }

two_fit : (i : ℕ) → i < 2 → Fits (get_or (row_a ∷ row_b ∷ []) i no_pack)
two_fit zero h = record {
  key_fits = omega arith;
  dim_fits = omega arith;
  sized = refl;
  floats = below;
}
  where
    below : (j : ℕ) → get_or row_a.emb_data j 0 < 2 ^ 32
    below zero = omega arith
    below (suc zero) = omega arith
    below (suc (suc j)) = omega arith
two_fit (suc zero) h = record {
  key_fits = omega arith;
  dim_fits = omega arith;
  sized = refl;
  floats = below;
}
  where
    below : (j : ℕ) → get_or row_b.emb_data j 0 < 2 ^ 32
    below zero = omega arith
    below (suc j) = omega arith
two_fit (suc (suc i)) h = absurd (omega arith)

read_item-block_of_example :
    let block = block_of (pos 1000) 0 (row_a ∷ row_b ∷ []) (1 ∷ []) in
    (item_size block ≡ some (pos 2))
    × ((m : ℕ) → valid block (pos m) ≡ some (length block == m))
    × ((i : ℕ)
        → i < 2
        → (p : ℕ) × (item block i ≡ some p)
          × (read_item block p ≡ some (get_or (row_a ∷ row_b ∷ []) i no_pack)))
unfolding compress_append
read_item-block_of_example =
    read_item-block_of (pos 1000) 0 row_a (row_b ∷ []) (1 ∷ []) (omega arith) two_fit

block_bytes : length (block_of (pos 1000) 0 (row_a ∷ row_b ∷ []) []) ≡ 48
unfolding compress_append to_one_block batch_add_items
block_bytes = refl

abbrev first_pair : ℕ × List ℕ
first_pair = (7, 1 ∷ 2 ∷ [])

abbrev two_pairs : List (ℕ × List ℕ)
two_pairs = (7, 1 ∷ 2 ∷ []) ∷ (9, []) ∷ []

abbrev raw : List ℕ → List ℕ
raw bs = bs

read-kv_to_block_example :
    (block : List ℕ) × (kv_to_block
        (kv_append_all raw (blank_kv (pos 1000) (pos 1000) 0) two_pairs)
        []
      ≡ (block ∷ [], blank_kv (pos 1000) (pos 1000) 2))
    × ((m : ℕ) → kv_valid block (pos m) ≡ some (length block == m))
    × ((i : ℕ)
        → i < 2
        → (get_or two_pairs i first_pair).0 < 2 ^ 64
        → (kv_key block i ≡ some (get_or two_pairs i first_pair).0)
          × ((at : ℕ) × (kv_value block i ≡ some at)
              × (read_bytes block at (length (get_or two_pairs i first_pair).1)
                  ≡ some (get_or two_pairs i first_pair).1)))
read-kv_to_block_example =
    read-kv_to_block raw (pos 1000) (pos 1000) 0 first_pair ((9, []) ∷ []) [] (omega arith)

-- A block is written when the limit is reached, into the first empty place.
added_at_limit : (add_item raw (new_compressor (pos 10)) (4 ∷ 5 ∷ []) ((1 ∷ []) ∷ [] ∷ [])).0 ≡ 2
unfolding add_item new_compressor
added_at_limit = refl

-- A count beyond the buffer makes Valid read past it.
valid_overruns : valid (5 ∷ 0 ∷ 0 ∷ 0 ∷ []) (pos 4) ≡ none
unfolding valid
valid_overruns = refl
