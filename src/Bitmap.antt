-- ===== src/Bitmap.antt =====
-- BitMap (src/base/bitmap.h): n bits in an array of 64-bit words. A failed CHECK is `none`; a
-- position outside the array is read as 0 and written nowhere, where the source is undefined.
pub mod Words
pub mod Laws
pub mod Search
pub mod Count
mod Examples
use rec_store.Prelude.{
  ℕ, zero, suc, ◌+◌, ◌-◌, ◌*◌, ◌/◌, ◌%◌, ◌^◌, ◌<◌, bit_and, bit_or, Bool, Option, none, some, List,
  [], ◌∷◌, ◌==◌, if◌then◌else◌, get_or, set, replicate, length,
}
use rec_store.Prelude.Int.{ℤ, pos, negsuc}

pub record BitMap : Type 0 where
  pub n : ℕ
  pub bits : List ℕ

-- `sizeof(BitMap)` is 8: the int, padded to the alignment of the words
unfoldable pub memory_size : ℕ → Option ℕ
memory_size n = if n % 64 == 0 then some (8 + n / 64 * 8) else none

-- the constructor from n
unfoldable pub new : ℕ → Option BitMap
new n = if n % 64 == 0 then some (record { n = n; bits = replicate (n / 64) 0 }) else none

-- `Get`
unfoldable pub get : BitMap → ℕ → Bool
get b p = bit_and (get_or b.bits (p / 64) 0 / 2 ^ (p % 64)) 1 == 1

abbrev pub set_bit : ℕ → ℕ → ℕ
set_bit v i = bit_or v (2 ^ i)

-- `~x` of a 64-bit word
abbrev pub complement : ℕ → ℕ
complement x = 2 ^ 64 - 1 - x

abbrev pub clear_bit : ℕ → ℕ → ℕ
clear_bit v i = bit_and v (complement (2 ^ i))

-- `Set`
unfoldable pub put : BitMap → ℕ → BitMap
put b p = record b { bits = set b.bits (p / 64) (set_bit (get_or b.bits (p / 64) 0) (p % 64)) }

-- `Clear(pos)`
unfoldable pub clear : BitMap → ℕ → BitMap
clear b p = record b { bits = set b.bits (p / 64) (clear_bit (get_or b.bits (p / 64) 0) (p % 64)) }

-- `Clear()`: the memset writes n / 8 bytes, which are n / 64 words
unfoldable pub clear_all : BitMap → BitMap
clear_all b = record b { bits = replicate (b.n / 64) 0 }

-- the loop of `NumberOfOnes`, from position i, with k rounds left
unfoldable pub count_ones : BitMap → ℕ → ℕ → ℕ
count_ones b zero i = 0
count_ones b (suc k) i = (if get b i then 1 else 0) + count_ones b k (i + 1)

unfoldable pub number_of_ones : BitMap → ℕ
number_of_ones b = count_ones b b.n 0

-- `__builtin_ctzll` of a word that is not 0
unfoldable pub count_trailing : ℕ → ℕ → ℕ
count_trailing zero x = 0
count_trailing (suc k) x = let rest = count_trailing k (x / 2) in if x % 2 == 1 then 0 else suc rest

abbrev pub ctz : ℕ → ℕ
ctz x = count_trailing 64 x

-- the loop of `FirstZeroPos` over the words, from word i
unfoldable pub first_zero_from : List ℕ → ℕ → ℤ
first_zero_from [] i = negsuc 0
first_zero_from (v ∷ vs) i =
    let b = complement v in
    let rest = first_zero_from vs (i + 1) in if b == 0 then rest else pos (i * 64 + ctz b)

unfoldable pub first_zero_pos : BitMap → ℤ
first_zero_pos b = first_zero_from b.bits 0

-- the loop of `SetZeroPos`, which writes through the reference to the word
unfoldable pub set_zero_from : List ℕ → ℕ → ℤ × List ℕ
set_zero_from [] i = (negsuc 0, [])
set_zero_from (v ∷ vs) i =
    let b = complement v in
    let rest : ℤ × List ℕ = let (r, ws) = set_zero_from vs (i + 1) in (r, v ∷ ws) in
    if b == 0 then rest else (pos (i * 64 + ctz b), set_bit v (ctz b) ∷ vs)

unfoldable pub set_zero_pos : BitMap → ℤ × BitMap
set_zero_pos b = let (r, ws) = set_zero_from b.bits 0 in (r, record b { bits = ws })

-- What the constructor sets up: whole words, all of 64 bits.
abbrev pub AllWords : List ℕ → Type 0
AllWords [] = Unit
AllWords (v ∷ vs) = (v < 2 ^ 64) × AllWords vs
