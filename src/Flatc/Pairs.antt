-- ===== src/Flatc/Pairs.antt =====
-- A block of keys and values is read back (src/base/flatc.h).
use rec_store.Prelude.{
  ℕ, ◌+◌, ◌*◌, ◌^◌, ◌<◌, ◌≡◌, ap, sym, subst, ◌∙◌, arith, false, some, List, [], ◌∷◌, ◌++◌, map,
  ltb, ◌==◌, length, length-map, get_or-map, get_or, length-append,
}
use mathlib.Core.List.{append_assoc, append-nil}
use rec_store.Prelude.Int.{ℤ, pos}
use rec_store.Prelude.Bytes.{read_bytes}
use rec_store.Flatc.{Compressor, batch_add_items, append_item, append_to_block}
use rec_store.Flatc.Writing.{blank, frame, append_to_block-frame}
use rec_store.Flatc.Reading.{start}
use rec_store.Flatc.Keyed.{
  KvCompressor, keys_bytes, kv_append, kv_to_block, kv_key, kv_value, kv_valid,
}
use rec_store.Flatc.Framing.{
  kv_frame, kv_key-kv_frame, kv_value-kv_frame, read_bytes-value, kv_valid-kv_frame,
}

-- A compressor of pairs that holds nothing.
abbrev pub blank_kv : ℤ → ℤ → ℕ → KvCompressor
blank_kv b b' n = record { block_size = b; keys = []; values = blank b' n }

module _ {ℓ} {A : Type ℓ} (compress : A → List ℕ) where
  -- `AddItem` of each pair, where the limit is not reached.
  abbrev pub kv_append_all : KvCompressor → List (ℕ × A) → KvCompressor
  kv_append_all c [] = c
  kv_append_all c ((k, v) ∷ rest) = kv_append_all (kv_append compress c k v) rest

  kv_append_all-keys :
      (c : KvCompressor) (ps : List (ℕ × A))
      → kv_append_all c ps ≡ record c {
        keys = c.keys ++ map (λ p. p.0) ps;
        values = batch_add_items compress c.values (map (λ p. p.1) ps);
      }
  unfolding batch_add_items
  kv_append_all-keys c [] =
      ap (λ l. let r : KvCompressor = record c { keys = l } in r) (sym (append-nil c.keys))
  kv_append_all-keys c ((k, v) ∷ rest) =
      kv_append_all-keys (kv_append compress c k v) rest
      ∙ ap
          (λ l.
            let r : KvCompressor = record c {
              keys = l;
              values =
                  batch_add_items compress (append_item compress c.values v) (map (λ p. p.1) rest);
            } in
            r)
          (append_assoc c.keys (k ∷ []) (map (λ p. p.0) rest))

  abbrev pub keys_of : List (ℕ × A) → List ℕ
  keys_of = map (λ p. p.0)

  abbrev pub bytes_of : List (ℕ × A) → List (List ℕ)
  bytes_of ps = map compress (map (λ p. p.1) ps)

  written :
      (b : ℤ) (keys : List ℕ) (whole : List ℕ) (left : Compressor) (values : Compressor)
      (blocks : List (List ℕ))
      → 0 < length keys
      → append_to_block values (keys_bytes keys) ≡ (whole, left)
      → kv_to_block (record { block_size = b; keys = keys; values = values }) blocks
        ≡ (blocks ++ whole ∷ [], record { block_size = b; keys = []; values = left })
  unfolding kv_to_block
  written b keys whole left values blocks some_keys e =
      let more : ltb (length keys) 1 ≡ false = ground arith in
      rw more (
        ap
          (λ r. (
            blocks ++ r.0 ∷ [],
            let c : KvCompressor = record { block_size = b; keys = []; values = r.1 } in c,
          ))
          e)

  -- The block that `ToBlock` adds to the blocks.
  kv_to_block-kv_frame :
      (b b' : ℤ) (n : ℕ) (p : ℕ × A) (ps : List (ℕ × A)) (blocks : List (List ℕ))
      → length (kv_frame (keys_of (p ∷ ps)) (bytes_of (p ∷ ps))) < 2 ^ 31
      → kv_to_block (kv_append_all (blank_kv b b' n) (p ∷ ps)) blocks ≡ (
        blocks ++ kv_frame (keys_of (p ∷ ps)) (bytes_of (p ∷ ps)) ∷ [],
        blank_kv b b' (length (map (λ q. q.1) (p ∷ ps))),
      )
  kv_to_block-kv_frame b b' n p ps blocks small =
      let keys = keys_of (p ∷ ps) in
      let sizes = length-append (keys_bytes keys) (frame (bytes_of (p ∷ ps))) in
      let below : length (frame (bytes_of (p ∷ ps))) < 2 ^ 31 = omega (arith, sizes) in
      ap (λ c. kv_to_block c blocks) (kv_append_all-keys (blank_kv b b' n) (p ∷ ps))
      ∙ written b keys _ _ _ blocks (omega arith)
          (append_to_block-frame compress b' n p.1 (map (λ q. q.1) ps) (keys_bytes keys) below)

  -- What the reader finds for pair i.
  reads-kv_frame :
      (all : List (ℕ × A)) (d : ℕ × A) (i : ℕ)
      → length (kv_frame (keys_of all) (bytes_of all)) < 2 ^ 31
      → length (keys_of all) ≡ length (bytes_of all)
      → i < length all
      → (get_or all i d).0 < 2 ^ 64
      → (kv_key (kv_frame (keys_of all) (bytes_of all)) i ≡ some (get_or all i d).0)
        × ((at : ℕ) × (kv_value (kv_frame (keys_of all) (bytes_of all)) i ≡ some at)
            × (read_bytes
                  (kv_frame (keys_of all) (bytes_of all))
                  at
                  (length (compress (get_or all i d).1))
                ≡ some (compress (get_or all i d).1)))
  reads-kv_frame all d i small paired h fits =
      let keys = keys_of all in
      let vals = map (λ (q : ℕ × A). q.1) all in
      let values = bytes_of all in
      let hk : i < length keys = omega (arith, length-map (λ (q : ℕ × A). q.0) all) in
      let hv : i < length vals = omega (arith, length-map (λ (q : ℕ × A). q.1) all) in
      let key = get_or-map (λ (q : ℕ × A). q.0) all i d 0 h in
      let value =
        get_or-map compress vals i d.1 [] hv
        ∙ ap compress (get_or-map (λ (q : ℕ × A). q.1) all i d d.1 h) in
      let at = 4 + length keys * 8 + (4 + length values * 4 + start values i) in
      (
        kv_key-kv_frame keys values paired small i hk (omega (arith, key, fits)) ∙ ap some key,
        (
          at,
          kv_value-kv_frame keys values paired small i hk,
          subst (λ v. read_bytes (kv_frame keys values) at (length v) ≡ some v) value
              (read_bytes-value keys values paired small i hk),
        ),
      )

  -- Pairs, at least one, whose count, keys and framed values take fewer than 2 ^ 31 bytes, are added
  -- to a compressor of pairs that holds nothing, without the test of its limit, and written: ToBlock
  -- adds one block to the list and keeps nothing; the block's reader accepts its length and no other
  -- length, and, for each pair whose key has 64 bits, reads the key and finds the bytes of the value
  -- at the address of the value.
  pub read-kv_to_block :
      (b b' : ℤ) (n : ℕ) (p : ℕ × A) (ps : List (ℕ × A)) (blocks : List (List ℕ))
      → length (kv_frame (keys_of (p ∷ ps)) (bytes_of (p ∷ ps))) < 2 ^ 31
      → (whole : List ℕ) × (kv_to_block (kv_append_all (blank_kv b b' n) (p ∷ ps)) blocks
          ≡ (blocks ++ whole ∷ [], blank_kv b b' (length (map (λ q. q.1) (p ∷ ps)))))
        × ((m : ℕ) → kv_valid whole (pos m) ≡ some (length whole == m))
        × ((i : ℕ)
            → i < length (p ∷ ps)
            → (get_or (p ∷ ps) i p).0 < 2 ^ 64
            → (kv_key whole i ≡ some (get_or (p ∷ ps) i p).0)
              × ((at : ℕ) × (kv_value whole i ≡ some at)
                  × (read_bytes whole at (length (compress (get_or (p ∷ ps) i p).1))
                      ≡ some (compress (get_or (p ∷ ps) i p).1))))
  read-kv_to_block b b' n p ps blocks small =
      let all = p ∷ ps in
      let nk = length-map (λ (q : ℕ × A). q.0) all in
      let nv = length-map (λ (q : ℕ × A). q.1) all in
      let nb = length-map compress (map (λ (q : ℕ × A). q.1) all) in
      let paired : length (keys_of all) ≡ length (bytes_of all) = omega (arith, nk, nv, nb) in
      (
        kv_frame (keys_of all) (bytes_of all),
        kv_to_block-kv_frame b b' n p ps blocks small,
        kv_valid-kv_frame (keys_of all) (bytes_of all) paired small,
        λ i h fits. reads-kv_frame all p i small paired h fits,
      )
