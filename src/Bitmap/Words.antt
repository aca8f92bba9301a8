-- ===== src/Bitmap/Words.antt =====
-- One word: what setting, clearing and searching do to its bits.
use rec_store.Prelude.{
  ℕ, zero, suc, ◌/◌, ◌%◌, ◌^◌, ◌<◌, ◌≡◌, arith, ◌==◌, if◌then◌else◌, Bool-cases, inl, inr,
}
use rec_store.Prelude.Bits.{
  bit, bit-bit_and, bit-bit_or, bit-le, bit-pow_self, bit-pow_ne, bit-complement, bit_or-lt,
  bit_and-le_left, pow-lt,
}
use rec_store.Bitmap.{set_bit, clear_bit, complement, count_trailing}
use native.Mathlib.Nat.{pow-suc, pow-zero}

bit-pow : (k i : ℕ) → bit (2 ^ k) i ≡ (if k == i then 1 else 0)
bit-pow k i = ground (arith, bit-pow_ne k i, bit-pow_self i)

pub bit-set_bit : (v k i : ℕ) → bit (set_bit v k) i ≡ (if k == i then 1 else bit v i)
bit-set_bit v k i = ground (arith, bit-bit_or v (2 ^ k) i, bit-pow k i, bit-le v i)

pub bit-clear_bit :
    (v k i : ℕ) → k < 64 → i < 64 → bit (clear_bit v k) i ≡ (if k == i then 0 else bit v i)
bit-clear_bit v k i hk hi = ground (
  arith,
  bit-bit_and v (complement (2 ^ k)) i,
  bit-pow k i,
  bit-le v i,
  bit-complement 64 (2 ^ k) i (pow-lt k 64 hk) hi,
)

pub set_bit-lt : (v k : ℕ) → v < 2 ^ 64 → k < 64 → set_bit v k < 2 ^ 64
set_bit-lt v k h hk = bit_or-lt 64 v (2 ^ k) h (pow-lt k 64 hk)

pub clear_bit-lt : (v k : ℕ) → v < 2 ^ 64 → clear_bit v k < 2 ^ 64
clear_bit-lt v k h = omega (arith, bit_and-le_left 64 v (complement (2 ^ k)) h)

-- The first bit that is 1.
pub record IsFirstOne (x c : ℕ) : Type 0 where
  pub one : bit x c ≡ 1
  pub below : (j : ℕ) → j < c → bit x j ≡ 0

below_suc :
    (x c : ℕ)
    → x % 2 ≡ 0
    → ((j : ℕ) → j < c → bit (x / 2) j ≡ 0)
    → (j : ℕ) → j < suc c
    → bit x j ≡ 0
unfolding bit
below_suc x c even h zero l = even
below_suc x c even h (suc j) l = h j (omega arith)

pub count_trailing-IsFirstOne :
    (k x : ℕ) → x < 2 ^ k → 0 < x → IsFirstOne x (count_trailing k x) × (count_trailing k x < k)
unfolding count_trailing bit
count_trailing-IsFirstOne zero x h p = absurd (omega (arith, pow-zero 2))
count_trailing-IsFirstOne (suc k) x h p = elim (Bool-cases (x % 2 == 1)) [
  | inl odd ↦
      rw odd (record { one = ground arith; below = λ j l. absurd (omega arith) }, omega arith)
  | inr even ↦
      let half = x / 2 in
      let (first, inside) =
        count_trailing-IsFirstOne k half (omega (arith, pow-suc 2 k)) (ground arith) in
      rw even (
        record {
          one = first.one;
          below = below_suc x (count_trailing k half) (ground arith) first.below;
        },
        omega arith,
      )
]
