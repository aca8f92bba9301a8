-- ===== src/Flatc/Reading.antt =====
-- What FlatItemCompressReader reads from a block of items (src/base/flatc.h).
use rec_store.Prelude.{
  ℕ, zero, suc, ◌+◌, ◌*◌, ◌^◌, ◌≤◌, ◌<◌, ◌≡◌, refl, ap, ◌∙◌, arith, some, List, [], ◌∷◌, ◌++◌,
  length, get_or, length-append, leb, Bool-cases, inl, inr, ◌==◌,
}
use mathlib.Core.Option
use mathlib.Core.List.{append_assoc}
use rec_store.Prelude.Int.{pos, to_int, to_int-small}
use rec_store.Prelude.Bytes.{
  le_value, words_bytes, concat, read_bytes, read_word, read_bytes-middle, le_value-int,
  read_bytes-words, length-words_bytes,
}
use rec_store.Flatc.{
  size_bits, item_size, advance, values_at, offset_bits, item, byte_size, valid, ◌>>=◌,
}
use rec_store.Flatc.Writing.{ends, frame, length-ends, length-frame}

-- Where item i starts among the items.
abbrev pub start : List (List ℕ) → ℕ → ℕ
start items zero = 0
start [] (suc i) = 0
start (bs ∷ rest) (suc i) = length bs + start rest i

get_or-ends :
    (acc : ℕ) (items : List (List ℕ)) (j : ℕ)
    → j < length items
    → get_or (ends acc items) j 0 ≡ acc + start items (suc j)
get_or-ends acc [] j h = absurd (omega arith)
get_or-ends acc (bs ∷ rest) zero h = omega arith
get_or-ends acc (bs ∷ rest) (suc j) h =
    omega (arith, get_or-ends (acc + length bs) rest j (omega arith))

start-le : (items : List (List ℕ)) (i : ℕ) → start items i ≤ length (concat items)
start-le items zero = omega arith
start-le [] (suc i) = omega arith
start-le (bs ∷ rest) (suc i) = omega (arith, start-le rest i, length-append bs (concat rest))

start-all : (items : List (List ℕ)) → start items (length items) ≡ length (concat items)
start-all [] = refl
start-all (bs ∷ rest) = omega (arith, start-all rest, length-append bs (concat rest))

read_bytes-concat :
    (items : List (List ℕ)) (pre post : List ℕ) (i p : ℕ)
    → i < length items
    → p ≡ length pre + start items i
    → read_bytes (pre ++ (concat items ++ post)) p (length (get_or items i []))
      ≡ some (get_or items i [])
read_bytes-concat [] pre post i p h e = absurd (omega arith)
read_bytes-concat (bs ∷ rest) pre post zero p h e =
    rw (append_assoc bs (concat rest) post)
      (read_bytes-middle pre bs (concat rest ++ post) p (length bs) (omega arith) refl)
read_bytes-concat (bs ∷ rest) pre post (suc i) p h e =
    rw (append_assoc bs (concat rest) post, ← append_assoc pre bs (concat rest ++ post))
      (read_bytes-concat rest (pre ++ bs) post i p (omega arith)
        (omega (arith, length-append pre bs)))

module _ (whole : List ℕ) (size : ℕ) (counted : size_bits whole ≡ some size) where
  reads-size : item_size whole ≡ some (to_int size)
  unfolding item_size
  reads-size = ap (Option.map to_int) counted

  reads-byte_size :
      (off : ℕ)
      → to_int size ≡ pos size
      → offset_bits whole (pos size) ≡ some off
      → byte_size whole ≡ some (to_int (4 + size * 4 + off))
  unfolding byte_size
  reads-byte_size off small last =
      ap (λ o. o >>= λ n. offset_bits whole (to_int n) >>= λ f. some (to_int (4 + n * 4 + f)))
        counted
      ∙ ap (λ z. offset_bits whole z >>= λ f. some (to_int (4 + size * 4 + f))) small
      ∙ ap (λ o. o >>= λ f. some (to_int (4 + size * 4 + f))) last

  reads-item :
      (i off : ℕ)
      → to_int size ≡ pos size
      → offset_bits whole (pos i) ≡ some off
      → to_int off ≡ pos off
      → item whole i ≡ some (4 + size * 4 + off)
  unfolding item
  reads-item i off small at low =
      ap
        (λ o. o >>= λ n.
          values_at (to_int n) >>= λ v. offset_bits whole (pos i) >>= λ f. advance v (to_int f))
        counted
      ∙ ap (λ z. values_at z >>= λ v. offset_bits whole (pos i) >>= λ f. advance v (to_int f)) small
      ∙ ap (λ o. o >>= λ f. advance (4 + size * 4) (to_int f)) at
      ∙ ap (λ z. advance (4 + size * 4) z) low

module _ (items : List (List ℕ)) (rest : List ℕ) (small : length (frame items) < 2 ^ 31) where
  abbrev whole : List ℕ
  whole = frame items ++ rest

  abbrev heads : List ℕ
  heads = length items ∷ ends 0 items

  block-heads : whole ≡ words_bytes 4 heads ++ (concat items ++ rest)
  block-heads = append_assoc (words_bytes 4 heads) (concat items) rest

  read_word-head :
      (j p : ℕ)
      → j < length heads
      → p ≡ j * 4
      → get_or heads j 0 < 2 ^ 32
      → read_word 4 whole p ≡ some (get_or heads j 0)
  read_word-head j p inside at low =
      ap (λ b. read_word 4 b p) block-heads
      ∙ ap (Option.map le_value)
          (read_bytes-words 4 heads [] (concat items ++ rest) j p inside (omega arith))
      ∙ ap some (le_value-int (get_or heads j 0) low)

  size_bits-frame : size_bits whole ≡ some (length items)
  size_bits-frame = read_word-head 0 0 (omega arith) refl (omega (arith, length-frame items))

  offset_bits-frame : (i : ℕ) → i ≤ length items → offset_bits whole (pos i) ≡ some (start items i)
  offset_bits-frame zero h = refl
  offset_bits-frame (suc j) h =
      let e = get_or-ends 0 items j (omega arith) in
      let within = start-le items (suc j) in
      read_word-head (suc j) (4 + j * 4) (omega (arith, length-ends 0 items)) (omega arith)
        (omega (arith, e, within, length-frame items))
      ∙ ap some (omega (arith, e))

  count-small : length items < 2 ^ 31
  count-small = omega (arith, small, length-frame items)

  count-int : to_int (length items) ≡ pos (length items)
  count-int = to_int-small (length items) count-small

  pub item_size-frame : item_size whole ≡ some (pos (length items))
  item_size-frame = reads-size whole _ size_bits-frame ∙ ap some count-int

  pub byte_size-frame : byte_size whole ≡ some (pos (length (frame items)))
  byte_size-frame =
      let last = offset_bits-frame (length items) (omega arith) in
      let total : 4 + length items * 4 + start items (length items) ≡ length (frame items) =
        omega (arith, start-all items, length-frame items) in
      reads-byte_size whole _ size_bits-frame _ count-int last
      ∙ ap some (ap to_int total ∙ to_int-small _ small)

  pub valid-frame : (m : ℕ) → valid whole (pos m) ≡ some (length (frame items) == m)
  unfolding valid
  valid-frame m = elim (Bool-cases (leb 4 m)) [
    | inl e ↦ rw (e, byte_size-frame) refl
    | inr e ↦ rw e (ap some (ground (arith, length-frame items)))
  ]

  pub item-frame :
      (i : ℕ) → i < length items → item whole i ≡ some (4 + length items * 4 + start items i)
  item-frame i h =
      let within = start-le items i in
      let at = offset_bits-frame i (omega arith) in
      let off = to_int-small (start items i) (omega (arith, within, length-frame items)) in
      reads-item whole _ size_bits-frame i _ count-int at off

  pub read_bytes-item :
      (i : ℕ)
      → i < length items
      → read_bytes whole (4 + length items * 4 + start items i) (length (get_or items i []))
        ≡ some (get_or items i [])
  read_bytes-item i h =
      ap (λ b. read_bytes b (4 + length items * 4 + start items i) (length (get_or items i [])))
        block-heads
      ∙ read_bytes-concat items (words_bytes 4 heads) rest i _ h
          (omega (arith, length-words_bytes 4 heads, length-ends 0 items))
