-- ===== src/Bitmap/Laws.antt =====
-- Reads after writes, and the shape that every operation keeps.
use rec_store.Prelude.{
  ℕ, zero, suc, ◌*◌, ◌/◌, ◌%◌, ◌^◌, ◌<◌, ◌≡◌, arith, true, false, List, [], ◌∷◌, ◌==◌,
  if◌then◌else◌, length, get_or, set, length-set, get_or-set, replicate, length-replicate,
}
use rec_store.Prelude.Bits.{bit, bit-shift}
use rec_store.Bitmap.{BitMap, AllWords, get, put, clear, set_bit, clear_bit}
use rec_store.Bitmap.Words.{bit-set_bit, bit-clear_bit, set_bit-lt, clear_bit-lt}

-- The words cover exactly n bits, and each is a 64-bit word.
pub record IsValid (b : BitMap) : Type 0 where
  pub whole : length b.bits * 64 ≡ b.n
  pub words : AllWords b.bits

pub get_or-lt : (vs : List ℕ) (i : ℕ) → AllWords vs → get_or vs i 0 < 2 ^ 64
get_or-lt [] i h = omega arith
get_or-lt (v ∷ vs) zero h = h.0
get_or-lt (v ∷ vs) (suc i) h = get_or-lt vs i h.1

AllWords-set : (vs : List ℕ) (i v : ℕ) → AllWords vs → v < 2 ^ 64 → AllWords (set vs i v)
AllWords-set [] i v h l = h
AllWords-set (w ∷ vs) zero v h l = (l, h.1)
AllWords-set (w ∷ vs) (suc i) v h l = (h.0, AllWords-set vs i v h.1 l)

AllWords-replicate : (n : ℕ) → AllWords (replicate n 0)
AllWords-replicate zero = tt
AllWords-replicate (suc n) = (omega arith, AllWords-replicate n)

pub get-bit : (b : BitMap) (p : ℕ) → get b p ≡ (bit (get_or b.bits (p / 64) 0) (p % 64) == 1)
unfolding get
get-bit b p = rw bit-shift

-- `Get` after `Set` of a position p inside a valid map: position p reads true, and every other position reads as before.
pub get-put :
    (b : BitMap) (p q : ℕ)
    → IsValid b
    → p < b.n
    → get (put b p) q ≡ (if p == q then true else get b q)
unfolding put
get-put b p q v h =
    rw
      (
        get-bit (put b p) q,
        get-bit b q,
        get_or-set b.bits (p / 64) (q / 64) (set_bit (get_or b.bits (p / 64) 0) (p % 64)) 0
            (omega (arith, v.whole)),
      )
      (ground (arith, bit-set_bit (get_or b.bits (p / 64) 0) (p % 64) (q % 64)))

-- `Get` after `Clear` of a position p inside a valid map: position p reads false, and every other position reads as before.
pub get-clear :
    (b : BitMap) (p q : ℕ)
    → IsValid b
    → p < b.n
    → get (clear b p) q ≡ (if p == q then false else get b q)
unfolding clear
get-clear b p q v h =
    rw
      (
        get-bit (clear b p) q,
        get-bit b q,
        get_or-set b.bits (p / 64) (q / 64) (clear_bit (get_or b.bits (p / 64) 0) (p % 64)) 0
            (omega (arith, v.whole)),
      )
      (ground (
        arith,
        bit-clear_bit (get_or b.bits (p / 64) 0) (p % 64) (q % 64) (omega arith) (omega arith),
      ))

pub put-IsValid : (b : BitMap) (p : ℕ) → IsValid b → IsValid (put b p)
unfolding put
put-IsValid b p v = record {
  whole = rw length-set v.whole;
  words = AllWords-set b.bits (p / 64) _ v.words (
      set_bit-lt (get_or b.bits (p / 64) 0) (p % 64) (get_or-lt b.bits (p / 64) v.words)
        (omega arith));
}

pub clear-IsValid : (b : BitMap) (p : ℕ) → IsValid b → IsValid (clear b p)
unfolding clear
clear-IsValid b p v = record {
  whole = rw length-set v.whole;
  words =
      AllWords-set b.bits (p / 64) _ v.words
        (clear_bit-lt (get_or b.bits (p / 64) 0) (p % 64) (get_or-lt b.bits (p / 64) v.words));
}

pub replicate-IsValid :
    (n : ℕ) → n % 64 ≡ 0 → IsValid (record { n = n; bits = replicate (n / 64) 0 })
replicate-IsValid n h = record {
  whole = rw length-replicate (omega arith);
  words = AllWords-replicate (n / 64);
}
