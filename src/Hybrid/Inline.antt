-- ===== src/Hybrid/Inline.antt =====
-- Values of one to seven bytes are kept inside the pointer (src/storage/hybrid/value.h, WriteMem
-- and RetrieveValue): the length in the upper byte of the 62-bit value, the data in the lower 54
-- bits.
use rec_store.Prelude.{
  ℕ, zero, suc, ◌+◌, ◌-◌, ◌*◌, ◌/◌, ◌%◌, ◌^◌, ◌≤◌, ◌<◌, ◌≡◌, refl, ap, ap₂, sym, ◌∙◌, arith,
  bit_and, bit_or, Option, some, List, [], ◌∷◌, length,
}
use rec_store.Prelude.Bits.{bit_and-mask, bit_or_disjoint}
use rec_store.Prelude.Bytes.{le_bytes, le_value, prefix}

-- the word of a value of at most seven bytes
unfoldable pub inline_word : List ℕ → ℕ
inline_word value = bit_or (length value * 2 ^ 54) (bit_and (le_value value) (2 ^ 54 - 1))

-- what is read back; a length above 8 reads past the buffer
unfoldable pub inline_value : ℕ → Option (List ℕ)
inline_value raw_val = prefix (raw_val / 2 ^ 54 % 256) (le_bytes 8 (bit_and raw_val (2 ^ 54 - 1)))

abbrev pub AllBytes : List ℕ → Type 0
AllBytes [] = Unit
AllBytes (b ∷ bs) = (b < 256) × AllBytes bs

-- What the store keeps of a value: of seven bytes the last loses its two upper bits.
abbrev pub kept : List ℕ → List ℕ
kept (a ∷ b ∷ c ∷ d ∷ e ∷ f ∷ g ∷ []) = a ∷ b ∷ c ∷ d ∷ e ∷ f ∷ (g % 64) ∷ []
kept bs = bs

le_bytes-le_value : (bs : List ℕ) → AllBytes bs → le_bytes (length bs) (le_value bs) ≡ bs
le_bytes-le_value [] h = refl
le_bytes-le_value (b ∷ bs) h =
    ap₂ (λ x xs. x ∷ xs) (omega arith)
      (ap (le_bytes (length bs)) (omega arith) ∙ le_bytes-le_value bs h.1)

prefix-le_bytes : (n w x : ℕ) → n ≤ w → prefix n (le_bytes w x) ≡ some (le_bytes n x)
prefix-le_bytes zero w x h = refl
prefix-le_bytes (suc n) zero x h = absurd (omega arith)
prefix-le_bytes (suc n) (suc w) x h = rw (prefix-le_bytes n w (x / 256) (omega arith)) refl

pub length-kept : (bs : List ℕ) → length (kept bs) ≡ length bs
length-kept (a ∷ b ∷ c ∷ d ∷ e ∷ f ∷ g ∷ []) = refl
length-kept _ = refl

AllBytes-kept : (bs : List ℕ) → AllBytes bs → AllBytes (kept bs)
AllBytes-kept (a ∷ b ∷ c ∷ d ∷ e ∷ f ∷ g ∷ []) h = omega arith
AllBytes-kept _ h = h

low-kept : (bs : List ℕ) → AllBytes bs → length bs ≤ 7 → le_value bs % 2 ^ 54 ≡ le_value (kept bs)
low-kept (a ∷ b ∷ c ∷ d ∷ e ∷ f ∷ g ∷ []) h l = omega arith
low-kept _ h l = omega arith

inline_word-eq :
    (bs : List ℕ)
    → AllBytes bs
    → length bs ≤ 7
    → inline_word bs ≡ length bs * 2 ^ 54 + le_value (kept bs)
unfolding inline_word
inline_word-eq bs h l =
    ap (bit_or (length bs * 2 ^ 54)) (bit_and-mask 54 (le_value bs))
    ∙ bit_or_disjoint 54 (length bs) (le_value bs % 2 ^ 54) (omega arith)
    ∙ ap (λ x. length bs * 2 ^ 54 + x) (low-kept bs h l)

kept-small : (bs : List ℕ) → AllBytes bs → length bs ≤ 7 → le_value (kept bs) < 2 ^ 54
kept-small bs h l = omega (arith, low-kept bs h l)

pub inline_word-lt : (bs : List ℕ) → AllBytes bs → length bs ≤ 7 → inline_word bs < 2 ^ 62
inline_word-lt bs h l = omega (arith, inline_word-eq bs h l, kept-small bs h l)

-- A value of at most seven bytes is read back from the word that is made of it, but that the
-- seventh byte is reduced modulo 64: values of fewer bytes, and of seven bytes with a last byte
-- below 64, come back whole. The word is a 62-bit value, as a pointer holds.
pub inline_value-inline_word :
    (bs : List ℕ)
    → AllBytes bs
    → length bs ≤ 7
    → (inline_value (inline_word bs) ≡ some (kept bs)) × (inline_word bs < 2 ^ 62)
unfolding inline_value
inline_value-inline_word bs h l =
    let word = inline_word-eq bs h l in
    let small = kept-small bs h l in
    let len : inline_word bs / 2 ^ 54 % 256 ≡ length bs = omega (arith, word, small) in
    let low : bit_and (inline_word bs) (2 ^ 54 - 1) ≡ le_value (kept bs) =
      bit_and-mask 54 (inline_word bs) ∙ omega (arith, word, small) in
    (
      ap₂ (λ n x. prefix n (le_bytes 8 x)) len low
          ∙ prefix-le_bytes (length bs) 8 (le_value (kept bs)) (omega arith)
          ∙ ap (λ n. some (le_bytes n (le_value (kept bs)))) (sym (length-kept bs))
          ∙ ap some (le_bytes-le_value (kept bs) (AllBytes-kept bs h)),
      inline_word-lt bs h l,
    )
