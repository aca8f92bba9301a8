-- ===== src/Bitmap/Examples.antt =====
-- The bit map's theorems at a map of 128 bits, of which the first 64 are set.
use rec_store.Prelude.{ℕ, ◌+◌, ◌-◌, ◌^◌, ◌≡◌, refl, arith, List, some, [], ◌∷◌, if◌then◌else◌}
use rec_store.Prelude.Int.{pos}
use rec_store.Bitmap.{
  BitMap, new, get, put, clear, number_of_ones, first_zero_pos, set_zero_pos, set_zero_from,
  count_trailing,
}
use rec_store.Bitmap.Laws.{IsValid}
use rec_store.Bitmap.Search.{FirstClear, set_zero_pos_lem}
use rec_store.Bitmap.Count.{number_of_ones-put-clear}

abbrev two_words : List ℕ
two_words = (2 ^ 64 - 1) ∷ 0 ∷ []

abbrev half_full : BitMap
half_full = record { n = 128; bits = two_words }

half_full-IsValid : IsValid half_full
half_full-IsValid = record { whole = refl; words = (omega arith, (omega arith, tt)) }

number_of_ones-put-clear_example :
    (number_of_ones (put half_full 65)
      ≡ number_of_ones half_full + (if get half_full 65 then 0 else 1))
    × (number_of_ones (clear half_full 65) + (if get half_full 65 then 1 else 0)
        ≡ number_of_ones half_full)
number_of_ones-put-clear_example =
    number_of_ones-put-clear half_full 65 half_full-IsValid (omega arith)

set_zero_pos_lem_example :
    (first_zero_pos half_full ≡ (set_zero_pos half_full).0)
    × FirstClear half_full (set_zero_pos half_full)
set_zero_pos_lem_example = set_zero_pos_lem half_full half_full-IsValid

set_zero_pos_run : (set_zero_pos half_full).0 ≡ pos 64
unfolding set_zero_pos set_zero_from count_trailing
set_zero_pos_run = refl

new_run : new 128 ≡ some (record { n = 128; bits = 0 ∷ 0 ∷ [] })
unfolding new
new_run = refl
