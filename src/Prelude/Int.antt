-- ===== src/Prelude/Int.antt =====
-- Signed machine integers that stay in range: `negsuc n` is -(n + 1).
use Prim.Native.Nat.{ℕ, zero, suc, ◌-◌, ◌%◌, ◌^◌, ◌<◌}
use mathlib.Core.Path.{◌≡◌, refl}
use mathlib.Core.Bool.{Bool, true, false}
use native.Mathlib.Omega.{arith}
use rec_store.Prelude.Tests.{ltb, leb, ◌==◌, if◌then◌else◌, ==_self, lt→ltb}

pub data ℤ : Type 0 where
  pos : ℕ → ℤ
  negsuc : ℕ → ℤ

abbrev pub suc_int : ℤ → ℤ
suc_int (pos n) = pos (suc n)
suc_int (negsuc zero) = pos 0
suc_int (negsuc (suc n)) = negsuc n

abbrev pub pred_int : ℤ → ℤ
pred_int (pos zero) = negsuc 0
pred_int (pos (suc n)) = pos n
pred_int (negsuc n) = negsuc (suc n)

abbrev pub is_neg : ℤ → Bool
is_neg (pos n) = false
is_neg (negsuc n) = true

-- the `int` of a word: its lower 32 bits in two's complement
abbrev pub to_int : ℕ → ℤ
to_int n = if ltb (n % 2 ^ 32) (2 ^ 31) then pos (n % 2 ^ 32) else negsuc (2 ^ 32 - 1 - n % 2 ^ 32)

-- the 32 bits of an `int`
abbrev pub bits32 : ℤ → ℕ
bits32 (pos n) = n % 2 ^ 32
bits32 (negsuc n) = 2 ^ 32 - 1 - n % 2 ^ 32

abbrev pub int_eq : ℤ → ℤ → Bool
int_eq (pos a) (pos b) = a == b
int_eq (negsuc a) (negsuc b) = a == b
int_eq _ _ = false

abbrev pub int_ge : ℤ → ℤ → Bool
int_ge (pos a) (pos b) = leb b a
int_ge (pos a) (negsuc b) = true
int_ge (negsuc a) (pos b) = false
int_ge (negsuc a) (negsuc b) = leb a b

pub int_eq-pos_self : (a : ℕ) → int_eq (pos a) (pos a) ≡ true
int_eq-pos_self a = ==_self a

pub to_int-small : (n : ℕ) → n < 2 ^ 31 → to_int n ≡ pos n
to_int-small n h =
    let low : n % 2 ^ 32 ≡ n = omega arith in rw low (let t = lt→ltb n (2 ^ 31) h in rw t refl)
