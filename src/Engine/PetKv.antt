-- ===== src/Engine/PetKv.antt =====
-- PetKVData (src/storage/nvm/pet_kv/shm_common.h): the word of an index, with an expiry time in its
-- lower bits and the offset of the value, in units of eight bytes, in its upper ones.
use rec_store.Prelude.{
  ℕ, zero, ◌+◌, ◌*◌, ◌-◌, ◌/◌, ◌%◌, ◌^◌, ◌<◌, ◌≤◌, ◌≡◌, refl, sym, ap, subst, ◌∙◌, arith, bit_and,
  bit_or, Option, none, some, true, false, lt→ltb, ltb, ◌==◌, if◌then◌else◌,
}
use rec_store.Prelude.Int.{ℤ, pos, negsuc}
use rec_store.Prelude.Bits.{
  bit_and-mask, bit_or_disjoint, bit_or-lt, bits_ext, bit-bit_or, pow-pos, pow-add,
}
use native.Mathlib.Nat.{
  div-eq_of_lt, mod-mod, mod-lt, suc-mul, mul-le-mul_right, mul-add-div_right,
  mul-add-mod_self_right,
}

pub record Config : Type 0 where
  pub expire_reduct_bit : ℕ
  pub expire_reduct_mark : ℕ
  pub expire_bit : ℕ
  pub expire_mark : ℕ
  pub no_malloc_offset : ℕ

-- The fields for offsets of offset_bit bits. Shifts by 63 and more are not defined in C++.
abbrev pub sized : ℕ → Config
sized offset_bit = record {
  expire_reduct_bit = 32 - (64 - offset_bit);
  expire_reduct_mark = 2 ^ (32 - (64 - offset_bit)) - 1;
  expire_bit = 64 - offset_bit;
  expire_mark = 2 ^ (64 - offset_bit) - 1;
  no_malloc_offset = 2 ^ offset_bit - 1;
}

-- `Config(offset_bit)`; the failed CHECK is `none`
abbrev pub config : ℕ → Option Config
config offset_bit = if ltb offset_bit 32 then none else some (sized offset_bit)

-- `kConfig`, of the default 32
abbrev pub pet_config : Config
pet_config = sized 32

-- the bits of an `int64_t`, and the `int64_t` of 64 bits
abbrev pub word_of_int : ℤ → ℕ
word_of_int (pos n) = n % 2 ^ 64
word_of_int (negsuc n) = 2 ^ 64 - 1 - n % 2 ^ 64

abbrev pub int_of_word : ℕ → ℤ
int_of_word n = if ltb n (2 ^ 63) then pos n else negsuc (2 ^ 64 - 1 - n)

abbrev pub half_shift : ℤ → ℤ
half_shift (pos n) = pos (n / 8)
half_shift (negsuc n) = negsuc (n / 8)

unfoldable pub shm_malloc_offset : Config → ℕ → ℤ
shm_malloc_offset c data_value =
    let offset = data_value / 2 ^ c.expire_bit in
    int_of_word (if offset == c.no_malloc_offset then 2 ^ 64 - 1 else offset * 8 % 2 ^ 64)

-- The offset that `SetShmMallocOffset` shifts into place.
abbrev pub units : Config → ℤ → ℕ
units c (negsuc zero) = c.no_malloc_offset
units c z = word_of_int (half_shift z)

unfoldable pub set_shm_malloc_offset : Config → ℕ → ℤ → ℕ
set_shm_malloc_offset c data_value offset =
    bit_or (bit_and data_value c.expire_mark) (units c offset * 2 ^ c.expire_bit % 2 ^ 64)

unfoldable pub expire_timet : Config → ℕ → ℕ
expire_timet c data_value = bit_and data_value c.expire_mark * 2 ^ c.expire_reduct_bit % 2 ^ 32

bit_or_comm : (n a b : ℕ) → a < 2 ^ n → b < 2 ^ n → bit_or a b ≡ bit_or b a
bit_or_comm n a b p q =
    bits_ext n (bit_or a b) (bit_or b a) (bit_or-lt n a b p q) (bit_or-lt n b a q p)
      (λ i l. bit-bit_or a b i ∙ omega arith ∙ sym (bit-bit_or b a i))

module _ (b : ℕ) (least : 32 ≤ b) (most : b ≤ 62) where
  -- A word is less than 2 ^ 64 if its upper part has b bits.
  joined-lt : (q r : ℕ) → q < 2 ^ b → r < 2 ^ (64 - b) → q * 2 ^ (64 - b) + r < 2 ^ 64
  joined-lt q r l m =
      let sum : 64 ≡ b + (64 - b) = omega arith in
      let whole : 2 ^ 64 ≡ 2 ^ b * 2 ^ (64 - b) = ap (λ n. 2 ^ n) sum ∙ pow-add b (64 - b) in
      let step : q * 2 ^ (64 - b) + 2 ^ (64 - b) ≤ 2 ^ b * 2 ^ (64 - b) =
        subst (λ x. x ≤ 2 ^ b * 2 ^ (64 - b)) (suc-mul q (2 ^ (64 - b)))
          (mul-le-mul_right (2 ^ (64 - b)) l) in
      omega (arith, whole, step)

  -- The word for q units and the lower bits of d.
  joined :
      (d q : ℕ)
      → q < 2 ^ b
      → bit_or (bit_and d (2 ^ (64 - b) - 1)) (q * 2 ^ (64 - b) % 2 ^ 64)
        ≡ q * 2 ^ (64 - b) + d % 2 ^ (64 - b)
  joined d q l =
      let r = mod-lt d (pow-pos (64 - b)) in
      let below = joined-lt q (d % 2 ^ (64 - b)) l r in
      let top : q * 2 ^ (64 - b) % 2 ^ 64 ≡ q * 2 ^ (64 - b) = omega (arith, below) in
      rw (bit_and-mask (64 - b) d, top)
        (bit_or_comm 64 _ _ (omega (arith, below)) (omega (arith, below))
          ∙ bit_or_disjoint (64 - b) q (d % 2 ^ (64 - b)) r)

  read_units : (d q : ℕ) → (q * 2 ^ (64 - b) + d % 2 ^ (64 - b)) / 2 ^ (64 - b) ≡ q
  read_units d q =
      let e = pow-pos (64 - b) in
      let r = mod-lt d e in
      mul-add-div_right e q (d % 2 ^ (64 - b)) ∙ ap (λ z. q + z) (div-eq_of_lt r) ∙ omega arith

  -- An offset that is a multiple of 8 and has fewer than b bits above the lower three reads back as
  -- it was set, and the expiry time is not touched.
  pub shm_malloc_offset-set :
      (d o : ℕ)
      → o % 8 ≡ 0
      → o / 8 < 2 ^ b - 1
      → o < 2 ^ 63
      → (shm_malloc_offset (sized b) (set_shm_malloc_offset (sized b) d (pos o)) ≡ pos o)
        × (expire_timet (sized b) (set_shm_malloc_offset (sized b) d (pos o))
            ≡ expire_timet (sized b) d)
  unfolding shm_malloc_offset set_shm_malloc_offset expire_timet
  shm_malloc_offset-set d o whole small low =
      let q : o / 8 % 2 ^ 64 ≡ o / 8 = omega arith in
      let back : o / 8 * 8 % 2 ^ 64 ≡ o = omega arith in
      let other : (o / 8 == 2 ^ b - 1) ≡ false = ground arith in
      let word = joined d (o / 8) (omega arith) in
      let sign : ltb o (2 ^ 63) ≡ true = lt→ltb o (2 ^ 63) low in
      let lower =
        mul-add-mod_self_right (o / 8) (2 ^ (64 - b)) (d % 2 ^ (64 - b))
        ∙ mod-mod d (2 ^ (64 - b)) in
      (
        rw (q, word, read_units d (o / 8), other, back, sign) refl,
        rw
            (
              q,
              word,
              bit_and-mask (64 - b) (o / 8 * 2 ^ (64 - b) + d % 2 ^ (64 - b)),
              lower,
              bit_and-mask (64 - b) d,
            )
            refl,
      )
