-- ===== src/Flatc/Framing.antt =====
-- What FlatKVCompressReader reads from the block of keys and values (src/base/flatc.h).
use rec_store.Prelude.{
  ℕ, ◌+◌, ◌*◌, ◌%◌, ◌^◌, ◌≤◌, ◌<◌, ◌≡◌, refl, ap, sym, ◌∙◌, arith, Bool, true, false, some, List,
  [], ◌++◌, leb, if◌then◌else◌, ◌==◌, length, get_or, length-append, Bool-cases, inl, inr,
}
use mathlib.Core.Option
use mathlib.Core.List.{append_assoc, append-nil}
use rec_store.Prelude.Int.{pos, to_int, int_eq, to_int-small, int_eq-pos_self}
use rec_store.Prelude.Bytes.{
  le_bytes, le_value, words_bytes, drop, drop-append, drop_add, prefix, read_bytes, read_word,
  read_bytes-middle, read_bytes-words, le_value-int, le_value-u64, length-words_bytes,
}
use rec_store.Flatc.{item_size, item, byte_size, ◌>>=◌}
use rec_store.Flatc.Writing.{frame}
use rec_store.Flatc.Reading.{start, item_size-frame, byte_size-frame, item-frame, read_bytes-item}
use rec_store.Flatc.Keyed.{
  keys_bytes, kv_key, value_reader, after_keys, kv_value, kv_byte_size, int_bits, same_counts,
  kv_valid,
}

-- The block of keys and of values of given bytes.
abbrev pub kv_frame : List ℕ → List (List ℕ) → List ℕ
kv_frame keys values = keys_bytes keys ++ frame values

if_answer : (b : Bool) → (if b then some true else some false) ≡ some b
if_answer true = refl
if_answer false = refl

valid_of :
    (l : List ℕ) (n m : ℕ)
    → kv_byte_size l ≡ some (pos n)
    → same_counts l ≡ some true
    → 4 ≤ n
    → kv_valid l (pos m) ≡ some (n == m)
unfolding kv_valid
valid_of l n m sized counted enough = elim (Bool-cases (leb 4 m)) [
  | inr e ↦ rw e (ap some (ground arith))
  | inl e ↦ rw e (
      ap (λ o. o >>= λ z. if int_eq z (pos m) then same_counts l else some false) sized
      ∙ ap (λ o. if n == m then o else some false) counted
      ∙ if_answer (n == m))
]

module _ (keys : List ℕ) (values : List (List ℕ)) (paired : length keys ≡ length values)
    (small : length (kv_frame keys values) < 2 ^ 31) where
  abbrev whole : List ℕ
  whole = kv_frame keys values

  abbrev base : ℕ
  base = 4 + length keys * 8

  length-keys_bytes : length (keys_bytes keys) ≡ base
  length-keys_bytes = omega (arith, length-words_bytes 8 keys)

  length-kv_frame : length whole ≡ base + length (frame values)
  length-kv_frame =
      length-append (keys_bytes keys) (frame values) ∙ omega (arith, length-keys_bytes)

  values-small : length (frame values) < 2 ^ 31
  values-small = omega (arith, small, length-kv_frame)

  few : length keys < 2 ^ 31
  few = omega (arith, small, length-kv_frame)

  block-parts : whole ≡ le_bytes 4 (length keys % 2 ^ 32) ++ (words_bytes 8 keys ++ frame values)
  block-parts = append_assoc (le_bytes 4 (length keys % 2 ^ 32)) (words_bytes 8 keys) (frame values)

  size-kv_frame : read_word 4 whole 0 ≡ some (length keys)
  size-kv_frame =
      let low : length keys % 2 ^ 32 ≡ length keys = omega (arith, few) in
      let word = le_bytes 4 (length keys % 2 ^ 32) in
      ap (λ l. read_word 4 l 0) block-parts
      ∙ ap (Option.map le_value)
          (read_bytes-middle [] word (words_bytes 8 keys ++ frame values) 0 4 refl refl)
      ∙ ap (λ n. some (le_value (le_bytes 4 n))) low
      ∙ ap some (le_value-int (length keys) (omega (arith, few)))

  value_reader-kv_frame : value_reader whole ≡ some base
  unfolding value_reader
  value_reader-kv_frame =
      ap (λ o. o >>= λ n. after_keys (to_int n)) size-kv_frame
      ∙ ap after_keys (to_int-small (length keys) few)

  drop-kv_frame : drop base whole ≡ frame values ++ []
  drop-kv_frame =
      ap (λ n. drop n whole) (sym length-keys_bytes)
      ∙ drop-append (keys_bytes keys) (frame values)
      ∙ sym (append-nil (frame values))

  pub kv_key-kv_frame :
      (i : ℕ) → i < length keys → get_or keys i 0 < 2 ^ 64 → kv_key whole i ≡ some (get_or keys i 0)
  unfolding kv_key
  kv_key-kv_frame i inside low =
      ap (λ l. read_word 8 l (4 + i * 8)) block-parts
      ∙ ap (Option.map le_value) (
          read_bytes-words 8 keys (le_bytes 4 (length keys % 2 ^ 32)) (frame values) i (4 + i * 8)
            inside refl)
      ∙ ap some (le_value-u64 (get_or keys i 0) low)

  pub kv_value-kv_frame :
      (i : ℕ)
      → i < length keys
      → kv_value whole i ≡ some (base + (4 + length values * 4 + start values i))
  unfolding kv_value
  kv_value-kv_frame i inside =
      ap (λ o. o >>= λ b. item (drop b whole) i >>= λ p. some (b + p)) value_reader-kv_frame
      ∙ ap (λ l. item l i >>= λ p. some (base + p)) drop-kv_frame
      ∙ ap (λ o. o >>= λ p. some (base + p))
          (item-frame values [] values-small i (omega (arith, inside, paired)))

  pub read_bytes-value :
      (i : ℕ)
      → i < length keys
      → read_bytes whole
          (base + (4 + length values * 4 + start values i))
          (length (get_or values i []))
        ≡ some (get_or values i [])
  read_bytes-value i inside =
      let p = 4 + length values * 4 + start values i in
      let n = length (get_or values i []) in
      ap (prefix n) (drop_add base p whole)
      ∙ ap (λ l. read_bytes l p n) drop-kv_frame
      ∙ read_bytes-item values [] values-small i (omega (arith, inside, paired))

  kv_byte_size-kv_frame : kv_byte_size whole ≡ some (pos (length whole))
  unfolding kv_byte_size
  kv_byte_size-kv_frame =
      let total : 4 + length keys * 8 + length (frame values) ≡ length whole =
        omega (arith, length-kv_frame) in
      ap
        (λ o. o >>= λ n. value_reader whole >>= λ b.
          byte_size (drop b whole) >>= λ z. some (to_int (4 + n * 8 + int_bits z)))
        size-kv_frame
      ∙ ap
          (λ o. o >>= λ b.
            byte_size (drop b whole) >>= λ z. some (to_int (4 + length keys * 8 + int_bits z)))
          value_reader-kv_frame
      ∙ ap (λ l. byte_size l >>= λ z. some (to_int (4 + length keys * 8 + int_bits z)))
          drop-kv_frame
      ∙ ap (λ o. o >>= λ z. some (to_int (4 + length keys * 8 + int_bits z)))
          (byte_size-frame values [] values-small)
      ∙ ap some (ap to_int total ∙ to_int-small (length whole) small)

  same_counts-kv_frame : same_counts whole ≡ some true
  same_counts-kv_frame =
      ap
        (λ o. o >>= λ n.
          value_reader whole >>= λ b. item_size (drop b whole) >>= λ z. some (int_eq (to_int n) z))
        size-kv_frame
      ∙ ap
          (λ o. o >>= λ b. item_size (drop b whole) >>= λ z. some (int_eq (to_int (length keys)) z))
          value_reader-kv_frame
      ∙ ap (λ l. item_size l >>= λ z. some (int_eq (to_int (length keys)) z)) drop-kv_frame
      ∙ ap (λ o. o >>= λ z. some (int_eq (to_int (length keys)) z))
          (item_size-frame values [] values-small)
      ∙ ap (λ z. some (int_eq z (pos (length values)))) (to_int-small (length keys) few)
      ∙ ap (λ n. some (int_eq (pos n) (pos (length values)))) paired
      ∙ ap some (int_eq-pos_self (length values))

  pub kv_valid-kv_frame : (m : ℕ) → kv_valid whole (pos m) ≡ some (length whole == m)
  kv_valid-kv_frame m =
      valid_of whole (length whole) m kv_byte_size-kv_frame same_counts-kv_frame
        (omega (arith, length-kv_frame))
