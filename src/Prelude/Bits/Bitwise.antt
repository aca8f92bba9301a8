-- ===== src/Prelude/Bits/Bitwise.antt =====
-- The native bit operations at variables, digit by digit.
use Prim.Native.Nat.{
  ℕ, zero, suc, ◌+◌, ◌-◌, ◌*◌, ◌/◌, ◌%◌, ◌^◌, ◌≤◌, ◌<◌, min, max, bit_and, bit_or, digits,
  bit_and-bitwise, bit_or-bitwise,
}
use mathlib.Core.Path.{◌≡◌, refl, ap, ◌∙◌}
use mathlib.Core.Logic.{◌≢◌}
use native.Mathlib.Omega.{arith}
use native.Mathlib.Decide.{ℕ_discrete}
use native.Mathlib.Nat.{
  pow-zero, pow-suc, pow-succ', div-one, div-div-eq-div-mul, mod-one, mod-lt, mod-eq_of_lt,
  mul-add-mod_self_right, div-add-mod,
}

-- The recursion of `digits` halves the left operand, so that fuel beyond it is not used.
module _ (rest : ℕ → ℕ) (op : ℕ → ℕ → ℕ) where
  spare_fuel : (n x y : ℕ) → x ≤ n → digits rest op (suc n) x y ≡ digits rest op n x y
  spare_fuel zero zero y below = refl
  spare_fuel (suc n) zero y below = refl
  spare_fuel zero (suc x) y below = absurd (omega arith)
  spare_fuel (suc n) (suc x) y below = omega (arith, spare_fuel n (suc x / 2) (y / 2) (omega arith))

  stable_fuel : (n k x y : ℕ) → k ≤ n → x ≤ k → digits rest op n x y ≡ digits rest op k x y
  stable_fuel zero k x y less below = let e : k ≡ 0 = omega arith in rw e
  stable_fuel (suc n) k x y less below = elim (ℕ_discrete k (suc n)) [
    | yes e ↦ rw e
    | no other ↦ spare_fuel n x y (omega arith) ∙ stable_fuel n k x y (omega arith) below
  ]

-- A word that is 0 leaves nothing of the other word, or all of it.
bit_or-zero_left : (y : ℕ) → bit_or 0 y ≡ y
bit_or-zero_left y = bit_or-bitwise 0 y

pub bit_and-zero_left : (y : ℕ) → bit_and 0 y ≡ 0
bit_and-zero_left y = bit_and-bitwise 0 y

abbrev Enough : (ℕ → ℕ) → (ℕ → ℕ → ℕ) → ℕ → ℕ → Type 0
Enough rest op x y =
    digits rest op x (suc x / 2) (y / 2) ≡ digits rest op (suc x / 2) (suc x / 2) (y / 2)

half_fuel : (rest : ℕ → ℕ) (op : ℕ → ℕ → ℕ) (x y : ℕ) → Enough rest op x y
half_fuel rest op x y =
    stable_fuel rest op x (suc x / 2) (suc x / 2) (y / 2) (omega arith) (omega arith)

pub bit_or_step : (x y : ℕ) → bit_or x y ≡ max (x % 2) (y % 2) + 2 * bit_or (x / 2) (y / 2)
bit_or_step zero y = omega (arith, bit_or-zero_left y, bit_or-zero_left (y / 2))
bit_or_step (suc x) y =
    let whole = bit_or-bitwise (suc x) y in
    let upper = bit_or-bitwise (suc x / 2) (y / 2) in
    omega (arith, whole, upper, half_fuel (λ r. r) max x y)

pub bit_and_step : (x y : ℕ) → bit_and x y ≡ min (x % 2) (y % 2) + 2 * bit_and (x / 2) (y / 2)
bit_and_step zero y = omega (arith, bit_and-zero_left y, bit_and-zero_left (y / 2))
bit_and_step (suc x) y =
    let whole = bit_and-bitwise (suc x) y in
    let upper = bit_and-bitwise (suc x / 2) (y / 2) in
    omega (arith, whole, upper, half_fuel (λ r. zero) min x y)

bit_and_zero_below : (n a : ℕ) → a ≤ n → bit_and a 0 ≡ 0
bit_and_zero_below zero a h = let e : a ≡ 0 = omega arith in rw e (bit_and-zero_left 0)
bit_and_zero_below (suc n) a h =
    omega (arith, bit_and_step a 0, bit_and_zero_below n (a / 2) (omega arith))

bit_and_zero : (a : ℕ) → bit_and a 0 ≡ 0
bit_and_zero a = bit_and_zero_below a a (omega arith)

bit_or_zero_below : (n a : ℕ) → a ≤ n → bit_or a 0 ≡ a
bit_or_zero_below zero a h = let e : a ≡ 0 = omega arith in rw e (bit_or-zero_left 0)
bit_or_zero_below (suc n) a h =
    omega (arith, bit_or_step a 0, bit_or_zero_below n (a / 2) (omega arith))

bit_or_zero : (a : ℕ) → bit_or a 0 ≡ a
bit_or_zero a = bit_or_zero_below a a (omega arith)

pub pow-pos : (k : ℕ) → 0 < 2 ^ k
pow-pos zero = omega (arith, pow-zero 2)
pow-pos (suc k) = omega (arith, pow-suc 2 k, pow-pos k)

half-pow : (k : ℕ) → 2 ^ suc k / 2 ≡ 2 ^ k
half-pow k = omega (arith, pow-suc 2 k)

-- A remainder by 2^(k+1) is made of the lowest bit and a remainder of the half.
pub mod_split : (k x : ℕ) → x % 2 ^ suc k ≡ x / 2 % 2 ^ k * 2 + x % 2
mod_split k x =
    let p = 2 ^ k in
    let r = x / 2 % p in
    let whole : x ≡ x / 2 / p * (p * 2) + (r * 2 + x % 2) =
      omega (arith, ap (λ (t : ℕ). t * 2) (div-add-mod (x / 2) p)) in
    let small : r * 2 + x % 2 < p * 2 = omega (arith, mod-lt (x / 2) (pow-pos k)) in
    rw pow-suc (
      ap (λ t. t % (p * 2)) whole
      ∙ mul-add-mod_self_right (x / 2 / p) (p * 2) (r * 2 + x % 2)
      ∙ mod-eq_of_lt small)

-- `bit x i` is the bit of weight 2^i: `(x >> i) & 1`.
unfoldable pub bit : ℕ → ℕ → ℕ
bit x zero = x % 2
bit x (suc i) = bit (x / 2) i

half-bit_and : (a b : ℕ) → bit_and a b / 2 ≡ bit_and (a / 2) (b / 2)
half-bit_and a b = omega (arith, bit_and_step a b)

half-bit_or : (a b : ℕ) → bit_or a b / 2 ≡ bit_or (a / 2) (b / 2)
half-bit_or a b = omega (arith, bit_or_step a b)

pub bit-bit_and : (a b i : ℕ) → bit (bit_and a b) i ≡ min (bit a i) (bit b i)
unfolding bit
bit-bit_and a b zero = omega (arith, bit_and_step a b)
bit-bit_and a b (suc i) = rw half-bit_and (bit-bit_and (a / 2) (b / 2) i)

pub bit-bit_or : (a b i : ℕ) → bit (bit_or a b) i ≡ max (bit a i) (bit b i)
unfolding bit
bit-bit_or a b zero = omega (arith, bit_or_step a b)
bit-bit_or a b (suc i) = rw half-bit_or (bit-bit_or (a / 2) (b / 2) i)

pub bit-le : (x i : ℕ) → bit x i ≤ 1
unfolding bit
bit-le x zero = omega arith
bit-le x (suc i) = bit-le (x / 2) i

pub bit-zero : (i : ℕ) → bit 0 i ≡ 0
unfolding bit
bit-zero zero = refl
bit-zero (suc i) = bit-zero i

pub bit_and-one : (x : ℕ) → bit_and x 1 ≡ x % 2
bit_and-one x = omega (arith, bit_and_step x 1, bit_and_zero (x / 2))

-- A shift and a mask read one bit.
pub bit-shift : (x i : ℕ) → bit_and (x / 2 ^ i) 1 ≡ bit x i
unfolding bit
bit-shift x zero = rw (pow-zero, div-one) (bit_and-one x)
bit-shift x (suc i) = rw (pow-succ', ← div-div-eq-div-mul x 2 (2 ^ i)) (bit-shift (x / 2) i)

pub bit-pow_self : (k : ℕ) → bit (2 ^ k) k ≡ 1
unfolding bit
bit-pow_self zero = refl
bit-pow_self (suc k) = rw half-pow (bit-pow_self k)

pub bit-pow_ne : (k i : ℕ) → k ≢ i → bit (2 ^ k) i ≡ 0
unfolding bit
bit-pow_ne zero zero h = absurd (h refl)
bit-pow_ne zero (suc i) h = bit-zero i
bit-pow_ne (suc k) zero h = omega (arith, pow-suc 2 k)
bit-pow_ne (suc k) (suc i) h = rw half-pow (bit-pow_ne k i (λ e. h (ap suc e)))

-- The complement of an n-bit word.
pub bit-complement : (n x i : ℕ) → x < 2 ^ n → i < n → bit (2 ^ n - 1 - x) i + bit x i ≡ 1
unfolding bit
bit-complement zero x i h p = absurd (omega arith)
bit-complement (suc n) x zero h p = omega (arith, pow-suc 2 n)
bit-complement (suc n) x (suc i) h p =
    let e : (2 ^ suc n - 1 - x) / 2 ≡ 2 ^ n - 1 - x / 2 = omega (arith, pow-suc 2 n) in
    rw e (bit-complement n (x / 2) i (omega (arith, pow-suc 2 n)) (omega arith))

pub bits_ext : (n a b : ℕ) → a < 2 ^ n → b < 2 ^ n → ((i : ℕ) → i < n → bit a i ≡ bit b i) → a ≡ b
unfolding bit
bits_ext zero a b p q h = omega (arith, pow-zero 2)
bits_ext (suc n) a b p q h =
    let rest : a / 2 ≡ b / 2 =
      bits_ext n (a / 2) (b / 2) (omega (arith, pow-suc 2 n)) (omega (arith, pow-suc 2 n))
        (λ i l. h (suc i) (omega arith)) in
    let low = h 0 (omega arith) in omega arith

pub bit_or-lt : (n a b : ℕ) → a < 2 ^ n → b < 2 ^ n → bit_or a b < 2 ^ n
bit_or-lt zero a b p q = let e : a ≡ 0 = omega (arith, pow-zero 2) in rw (e, bit_or-zero_left b) q
bit_or-lt (suc n) a b p q = omega (
  arith,
  pow-suc 2 n,
  bit_or_step a b,
  bit_or-lt n (a / 2) (b / 2) (omega (arith, pow-suc 2 n)) (omega (arith, pow-suc 2 n)),
)

pub bit_and-le_left : (n a b : ℕ) → a < 2 ^ n → bit_and a b ≤ a
bit_and-le_left zero a b p =
    let e : a ≡ 0 = omega (arith, pow-zero 2) in rw (e, bit_and-zero_left b) (omega arith)
bit_and-le_left (suc n) a b p =
    omega (arith, bit_and_step a b, bit_and-le_left n (a / 2) (b / 2) (omega (arith, pow-suc 2 n)))

-- `x & (2^k - 1)` is a remainder.
pub bit_and-mask : (k x : ℕ) → bit_and x (2 ^ k - 1) ≡ x % 2 ^ k
bit_and-mask zero x = rw (pow-zero, mod-one) (bit_and_zero x)
bit_and-mask (suc k) x =
    let high : (2 ^ suc k - 1) / 2 ≡ 2 ^ k - 1 = omega (arith, pow-suc 2 k, pow-pos k) in
    let low : (2 ^ suc k - 1) % 2 ≡ 1 = omega (arith, pow-suc 2 k, pow-pos k) in
    rw (bit_and_step x (2 ^ suc k - 1), high, low, bit_and-mask k (x / 2))
      (omega (arith, mod_split k x))

-- `(q << k) | r` is a sum.
pub bit_or_disjoint : (k q r : ℕ) → r < 2 ^ k → bit_or (q * 2 ^ k) r ≡ q * 2 ^ k + r
bit_or_disjoint zero q r h =
    let e : r ≡ 0 = omega (arith, pow-zero 2) in rw (e, bit_or_zero (q * 2 ^ 0)) (omega arith)
bit_or_disjoint (suc k) q r h =
    let high : q * 2 ^ suc k / 2 ≡ q * 2 ^ k = rw pow-suc (omega arith) in
    let low : q * 2 ^ suc k % 2 ≡ 0 = rw pow-suc (omega arith) in
    rw
      (
        bit_or_step (q * 2 ^ suc k) r,
        high,
        low,
        bit_or_disjoint k q (r / 2) (omega (arith, pow-suc 2 k)),
      )
      (rw pow-suc (omega arith))
