-- ===== src/Prelude/Bits.antt =====
-- Shifts, masks and powers of two.
mod Bitwise
pub use Bitwise.*
unfoldable pub use Bitwise.{bit}
use Prim.Native.Nat.{
  ℕ, zero, suc, ◌+◌, ◌-◌, ◌*◌, ◌/◌, ◌%◌, ◌^◌, ◌≤◌, ◌<◌, min, max, bit_and, bit_or, digits,
  bit_and-bitwise, bit_or-bitwise,
}
use mathlib.Core.Path.{◌≡◌, refl, sym, ap, ◌∙◌}
use mathlib.Core.Logic.{◌≢◌}
use native.Mathlib.Omega.{arith}
use native.Mathlib.Decide.{ℕ_discrete}
use native.Mathlib.Nat.{
  pow-zero, pow-suc, pow-succ', div-one, mul-one, div-div-eq-div-mul, mod-one, mod-lt, mod-eq_of_lt,
  mul-add-mod_self_right, add-mul-mod_self_left, div-add-mod,
}

-- A mask whose k lower bits are clear.
pub bit_and-shifted : (k x m : ℕ) → bit_and x (m * 2 ^ k) ≡ bit_and (x / 2 ^ k) m * 2 ^ k
bit_and-shifted zero x m = simp (pow-zero, div-one, mul-one)
bit_and-shifted (suc k) x m =
    let high : m * 2 ^ suc k / 2 ≡ m * 2 ^ k = rw pow-suc (omega arith) in
    let low : m * 2 ^ suc k % 2 ≡ 0 = rw pow-suc (omega arith) in
    rw (bit_and_step x (m * 2 ^ suc k), high, low, bit_and-shifted k (x / 2) m)
      (rw (div-div-eq-div-mul x 2 (2 ^ k), ← pow-succ' 2 k)
        (omega (arith, ap (λ (t : ℕ). bit_and (x / 2 ^ suc k) m * t) (pow-suc 2 k))))

pub pow-lt : (k n : ℕ) → k < n → 2 ^ k < 2 ^ n
pow-lt k zero h = absurd (omega arith)
pow-lt zero (suc n) h = omega (arith, pow-zero 2, pow-suc 2 n, pow-pos n)
pow-lt (suc k) (suc n) h = omega (arith, pow-suc 2 k, pow-suc 2 n, pow-lt k n (omega arith))

pub pow-add : (a b : ℕ) → 2 ^ (a + b) ≡ 2 ^ a * 2 ^ b
pow-add zero b = let e : zero + b ≡ b = omega arith in rw (e, pow-zero) (omega arith)
pow-add (suc a) b =
    let e : suc a + b ≡ suc (a + b) = omega arith in
    rw (e, pow-suc 2 (a + b), pow-suc 2 a) (omega (arith, ap (λ (t : ℕ). t * 2) (pow-add a b)))

-- A remainder by 2^(k+1) adds bit k to the remainder by 2^k.
pub mod-pow_suc : (k x : ℕ) → x % 2 ^ suc k ≡ x % 2 ^ k + x / 2 ^ k % 2 * 2 ^ k
mod-pow_suc k x =
    let p = 2 ^ k in
    let whole : x ≡ x / p / 2 * (p * 2) + (x % p + x / p % 2 * p) =
      omega (arith, div-add-mod x p, ap (λ (t : ℕ). t * p) (div-add-mod (x / p) 2)) in
    let small : x % p + x / p % 2 * p < p * 2 =
      one_bit (x % p) (x / p % 2) p (mod-lt x (pow-pos k)) (omega arith) in
    rw pow-suc (
      ap (λ t. t % (p * 2)) whole
      ∙ mul-add-mod_self_right (x / p / 2) (p * 2) (x % p + x / p % 2 * p)
      ∙ mod-eq_of_lt small)
  where
    one_bit : (r b p : ℕ) → r < p → b < 2 → r + b * p < p * 2
    one_bit r zero p h l = omega arith
    one_bit r (suc zero) p h l = omega arith
    one_bit r (suc (suc b)) p h l = absurd (omega arith)

-- Reading one bit by a shifted mask.
pub bit_and-pow : (x k : ℕ) → bit_and x (2 ^ k) ≡ bit x k * 2 ^ k
bit_and-pow x k =
    let e : 2 ^ k ≡ 1 * 2 ^ k = omega arith in
    ap (bit_and x) e ∙ bit_and-shifted k x 1 ∙ ap (λ t. t * 2 ^ k) (bit-shift x k)

pub bit-div : (x k : ℕ) → bit x k ≡ x / 2 ^ k % 2
bit-div x k = sym (bit-shift x k) ∙ bit_and-one (x / 2 ^ k)

-- The lower bits of a remainder.
pub mod-mod_pow : (l g x : ℕ) → l ≤ g → x % 2 ^ g % 2 ^ l ≡ x % 2 ^ l
mod-mod_pow l g x h =
    let k = 2 ^ (g - l) in
    let e : 2 ^ g ≡ 2 ^ l * k =
      ap (λ t. 2 ^ t) (let s : g ≡ l + (g - l) = omega arith in s) ∙ pow-add l (g - l) in
    rw e (
      sym (add-mul-mod_self_left (x % (2 ^ l * k)) (2 ^ l) (k * (x / (2 ^ l * k))))
      ∙ ap (λ t. t % 2 ^ l)
          (regroup (2 ^ l) k (x / (2 ^ l * k)) (x % (2 ^ l * k)) x (div-add-mod x (2 ^ l * k))))
  where
    regroup : (p k q r x : ℕ) → p * k * q + r ≡ x → r + p * (k * q) ≡ x
    regroup p k q r x e = omega arith

-- Two numbers agree on k + 1 bits exactly when they agree on k bits and on bit k.
pub mod-pow_suc_congr :
    (k x y : ℕ)
    → x % 2 ^ k ≡ y % 2 ^ k
    → x / 2 ^ k % 2 ≡ y / 2 ^ k % 2
    → x % 2 ^ suc k ≡ y % 2 ^ suc k
mod-pow_suc_congr k x y e f = rw (mod-pow_suc k x, mod-pow_suc k y, e, f) refl

pub mod-pow_suc_inv :
    (k x y : ℕ)
    → x % 2 ^ suc k ≡ y % 2 ^ suc k
    → (x % 2 ^ k ≡ y % 2 ^ k) × (x / 2 ^ k % 2 ≡ y / 2 ^ k % 2)
mod-pow_suc_inv k x y e =
    let low : x % 2 ^ k ≡ y % 2 ^ k =
      sym (mod-mod_pow k (suc k) x (omega arith))
      ∙ ap (λ t. t % 2 ^ k) e
      ∙ mod-mod_pow k (suc k) y (omega arith) in
    (
      low,
      same_bit (x / 2 ^ k % 2) (y / 2 ^ k % 2) (2 ^ k) (pow-pos k) (omega arith) (omega arith)
          (omega (arith, mod-pow_suc k x, mod-pow_suc k y)),
    )
  where
    same_bit : (a b p : ℕ) → 0 < p → a < 2 → b < 2 → a * p ≡ b * p → a ≡ b
    same_bit zero zero p h l m e = refl
    same_bit zero (suc zero) p h l m e = absurd (omega arith)
    same_bit (suc zero) zero p h l m e = absurd (omega arith)
    same_bit (suc zero) (suc zero) p h l m e = refl
    same_bit zero (suc (suc b)) p h l m e = absurd (omega arith)
    same_bit (suc zero) (suc (suc b)) p h l m e = absurd (omega arith)
    same_bit (suc (suc a)) b p h l m e = absurd (omega arith)
