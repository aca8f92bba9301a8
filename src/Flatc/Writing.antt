-- ===== src/Flatc/Writing.antt =====
-- The bytes that FlatItemCompressor writes (src/base/flatc.h).
use rec_store.Prelude.{
  ℕ, suc, ◌+◌, ◌-◌, ◌*◌, ◌%◌, ◌^◌, ◌<◌, ◌≡◌, refl, ap, ap₂, sym, ◌∙◌, arith, false, List, [], ◌∷◌,
  ◌++◌, map, ltb, if◌then◌else◌, length, length-map, length-append, length,
}
use mathlib.Core.List.{append_assoc, append-nil}
use rec_store.Prelude.Int.{ℤ}
use rec_store.Prelude.Bytes.{words_bytes, concat, length-words_bytes}
use rec_store.Flatc.{Compressor, clear, append_to_block, to_one_block, append_item, batch_add_items}

-- Where each item ends, from a start on.
abbrev pub ends : ℕ → List (List ℕ) → List ℕ
ends acc [] = []
ends acc (bs ∷ rest) = (acc + length bs) ∷ ends (acc + length bs) rest

-- The block that holds the given items.
abbrev pub frame : List (List ℕ) → List ℕ
frame items = words_bytes 4 (length items ∷ ends 0 items) ++ concat items

-- A compressor that holds nothing: entry 0 of its offsets may keep the last count.
abbrev pub blank : ℤ → ℕ → Compressor
blank block_size n = record { block_size = block_size; offsets = n ∷ []; item_data = [] }

pub length-ends : (acc : ℕ) (items : List (List ℕ)) → length (ends acc items) ≡ length items
length-ends acc [] = refl
length-ends acc (bs ∷ rest) = ap suc (length-ends (acc + length bs) rest)

pub length-frame :
    (items : List (List ℕ)) → length (frame items) ≡ 4 + length items * 4 + length (concat items)
length-frame items = ground (
  arith,
  length-append (words_bytes 4 (length items ∷ ends 0 items)) (concat items),
  length-words_bytes 4 (length items ∷ ends 0 items),
  length-ends 0 items,
)

written :
    (b : ℤ) (os bytes block : List ℕ) (n : ℕ)
    → 0 < length os
    → append_to_block (record { block_size = b; offsets = n ∷ os; item_data = bytes }) block ≡ (
      block ++ (words_bytes 4 ((length os + 1 - 1) % 2 ^ 32 ∷ os) ++ bytes),
      blank b ((length os + 1 - 1) % 2 ^ 32),
    )
unfolding append_to_block clear
written b os bytes block n some_items =
    let more : ltb (suc (length os)) 2 ≡ false = ground arith in
    let same : suc (length os) - 1 ≡ length os + 1 - 1 = omega arith in rw (more, same) refl

module _ {ℓ} {A : Type ℓ} (compress : A → List ℕ) where
  -- The compressor with items added.
  abbrev added : Compressor → List A → Compressor
  added c xs = record c {
    offsets = c.offsets ++ ends (length c.item_data) (map compress xs);
    item_data = c.item_data ++ concat (map compress xs);
  }

  after_one : Compressor → A → Compressor
  after_one c x = record c {
    offsets = c.offsets ++ (length c.item_data + length (compress x)) ∷ [];
    item_data = c.item_data ++ compress x;
  }

  append_item-after_one :
      (c : Compressor) (x : A)
      → length (c.item_data ++ compress x) < 2 ^ 31
      → append_item compress c x ≡ after_one c x
  unfolding append_item after_one
  append_item-after_one c x small =
      let whole : length (c.item_data ++ compress x) % 2 ^ 32
          ≡ length c.item_data + length (compress x) =
        omega (arith, length-append c.item_data (compress x)) in
      rw whole refl

  added-after_one :
      (c : Compressor) (x : A) (xs : List A) → added (after_one c x) xs ≡ added c (x ∷ xs)
  unfolding after_one
  added-after_one c x xs = simp (append_assoc, length-append {0})

  batch_add_items-added :
      (c : Compressor) (xs : List A)
      → length (c.item_data ++ concat (map compress xs)) < 2 ^ 31
      → batch_add_items compress c xs ≡ added c xs
  unfolding batch_add_items
  batch_add_items-added c [] small =
      ap₂ (λ os bs. let r : Compressor = record c { offsets = os; item_data = bs } in r)
        (sym (append-nil c.offsets)) (sym (append-nil c.item_data))
  batch_add_items-added c (x ∷ xs) small =
      let front = length-append c.item_data (compress x) in
      let whole = length-append (c.item_data ++ compress x) (concat (map compress xs)) in
      let assoc : length ((c.item_data ++ compress x) ++ concat (map compress xs)) < 2 ^ 31 =
        rw append_assoc small in
      let one = append_item-after_one c x (omega (arith, whole, assoc)) in
      rw one (
        batch_add_items-added (after_one c x) xs (unfold after_one in assoc)
        ∙ added-after_one c x xs)

  abbrev filled : ℤ → ℕ → A → List A → Compressor
  filled b n x xs = record {
    block_size = b;
    offsets = n ∷ ends 0 (map compress (x ∷ xs));
    item_data = concat (map compress (x ∷ xs));
  }

  append_to_block-filled :
      (b : ℤ) (n : ℕ) (x : A) (xs : List A) (block : List ℕ)
      → length xs + 1 < 2 ^ 32
      → append_to_block (filled b n x xs) block
        ≡ (block ++ frame (map compress (x ∷ xs)), blank b (length (x ∷ xs)))
  append_to_block-filled b n x xs block few =
      let items = map compress (x ∷ xs) in
      let count : (length (ends 0 items) + 1 - 1) % 2 ^ 32 ≡ length items =
        omega (arith, length-ends 0 items, length-map compress xs) in
      let named = length-map compress (x ∷ xs) in
      written b (ends 0 items) (concat items) block n (omega (arith, length-ends 0 items))
      ∙ ap (λ m. (block ++ (words_bytes 4 (m ∷ ends 0 items) ++ concat items), blank b m)) count
      ∙ ap (λ m. (block ++ frame items, blank b m)) named

  -- Items added to a compressor that holds nothing, at least one and with a block of fewer than
  -- 2 ^ 31 bytes, are written behind what the block held as their frame, and nothing is left.
  pub append_to_block-frame :
      (b : ℤ) (n : ℕ) (x : A) (xs : List A) (block : List ℕ)
      → length (frame (map compress (x ∷ xs))) < 2 ^ 31
      → append_to_block (batch_add_items compress (blank b n) (x ∷ xs)) block
        ≡ (block ++ frame (map compress (x ∷ xs)), blank b (length (x ∷ xs)))
  append_to_block-frame b n x xs block small =
      let sizes = length-frame (map compress (x ∷ xs)) in
      let count = length-map compress (x ∷ xs) in
      let all = batch_add_items-added (blank b n) (x ∷ xs) (omega (arith, sizes)) in
      ap (λ c. append_to_block c block) all
      ∙ append_to_block-filled b n x xs block (omega (arith, sizes, count))

  -- So it is by `ToBlock`, which empties the block first.
  pub to_one_block-frame :
      (b : ℤ) (n : ℕ) (x : A) (xs : List A) (old : List ℕ)
      → length (frame (map compress (x ∷ xs))) < 2 ^ 31
      → to_one_block (batch_add_items compress (blank b n) (x ∷ xs)) old
        ≡ (frame (map compress (x ∷ xs)), blank b (length (x ∷ xs)))
  unfolding to_one_block
  to_one_block-frame b n x xs old small =
      let sizes = length-frame (map compress (x ∷ xs)) in
      let count = length-map compress (x ∷ xs) in
      let all = batch_add_items-added (blank b n) (x ∷ xs) (omega (arith, sizes)) in
      let more : ltb (length (filled b n x xs).offsets) 2 ≡ false = ground arith in
      ap (λ c. to_one_block c old) all
      ∙ ap (λ t. if t then (old, filled b n x xs) else append_to_block (filled b n x xs) []) more
      ∙ append_to_block-filled b n x xs [] (omega (arith, sizes, count))
