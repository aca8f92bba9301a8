-- ===== src/Slab/Sizing.antt =====
-- Sizes in blocks, and the constructor.
use rec_store.Prelude.{
  ℕ, zero, suc, ◌+◌, ◌-◌, ◌*◌, ◌/◌, ◌%◌, ◌^◌, ◌≤◌, ◌<◌, ◌≡◌, refl, arith, List, [], ◌∷◌, length,
  get_or, leb, Bool-cases, inl, inr, false,
}
use rec_store.Prelude.Int.{pos}
use rec_store.Prelude.Bits.{bit_and-zero_left}
use rec_store.Slab.State.{block_num_of, grow, zero_words, initialize, create, is_used}
use rec_store.Slab.Invariant.{Holds, IsValid}

-- A size that fits an int is rounded up to blocks.
pub block_num_of-small : (size : ℕ) → size < 2 ^ 31 - 7 → block_num_of size ≡ pos ((size + 7) / 8)
unfolding block_num_of
block_num_of-small size h =
    let z : (size + 7) % 2 ^ 32 ≡ size + 7 = omega arith in rw z (ground arith)

grow-eq :
    (fuel memory_size j : ℕ)
    → memory_size / 520 < fuel + j
    → j ≤ memory_size / 520
    → grow fuel memory_size (64 * j) ≡ 64 * (memory_size / 520)
unfolding grow
grow-eq zero memory_size j enough below = absurd (omega arith)
grow-eq (suc fuel) memory_size j enough below =
    let next : 64 * j + 64 ≡ 64 * (j + 1) = omega arith in
    elim (Bool-cases (leb ((64 * j + 64) / 8 + (64 * j + 64) * 8) memory_size)) [
      | inl more ↦ rw more (rw next (grow-eq fuel memory_size (j + 1) (omega arith) (ground arith)))
      | inr done ↦ rw done (ground arith)
    ]

length-zero_words : (n : ℕ) (ws : List ℕ) → length (zero_words n ws) ≡ length ws
unfolding zero_words
length-zero_words zero ws = refl
length-zero_words (suc n) [] = refl
length-zero_words (suc n) (w ∷ ws) = omega (arith, length-zero_words n ws)

get_or-zero_words : (n : ℕ) (ws : List ℕ) (i : ℕ) → i < n → get_or (zero_words n ws) i 0 ≡ 0
unfolding zero_words
get_or-zero_words zero ws i h = absurd (omega arith)
get_or-zero_words (suc n) [] i h = refl
get_or-zero_words (suc n) (w ∷ ws) zero h = refl
get_or-zero_words (suc n) (w ∷ ws) (suc i) h = get_or-zero_words n ws i (omega arith)

pub get_or-zero_words_above :
    (n : ℕ) (ws : List ℕ) (i : ℕ) → n ≤ i → get_or (zero_words n ws) i 0 ≡ get_or ws i 0
unfolding zero_words
get_or-zero_words_above zero ws i h = refl
get_or-zero_words_above (suc n) [] i h = refl
get_or-zero_words_above (suc n) (w ∷ ws) zero h = absurd (omega arith)
get_or-zero_words_above (suc n) (w ∷ ws) (suc i) h = get_or-zero_words_above n ws i (omega arith)

is_used-zero_words :
    (n : ℕ) (ws : List ℕ) (i : ℕ) → i < n * 64 → is_used (zero_words n ws) i ≡ false
unfolding is_used
is_used-zero_words n ws i h = rw (get_or-zero_words n ws (i / 64) (omega arith), bit_and-zero_left)

pub zero_words-Holds :
    (bn : ℕ) (file : List ℕ)
    → bn % 64 ≡ 0
    → bn / 64 + bn ≤ length file
    → Holds bn (zero_words (bn / 64) file) (λ h. 0)
zero_words-Holds bn file whole room = record {
  whole = whole;
  room = omega (arith, length-zero_words (bn / 64) file);
  inside = λ h l. absurd (omega arith);
  header = λ h l. absurd (omega arith);
  apart = λ h g a b c. absurd (omega arith);
  covered = λ i l used. absurd (ground (arith, is_used-zero_words (bn / 64) file i (omega arith)));
  marked = λ h i a b. absurd (omega arith);
}

-- The constructor on a file of at least memory_size bytes takes as many blocks as fit, 64 to every
-- 520 bytes, so that the bits and the blocks stay within memory_size; no allocation is live.
pub block_num-create :
    (memory_size : ℕ) (file : List ℕ)
    → memory_size ≤ 8 * length file
    → ((create memory_size file).block_num ≡ 64 * (memory_size / 520))
      × ((create memory_size file).block_num / 8 + 8 * (create memory_size file).block_num
          ≤ memory_size)
      × IsValid (create memory_size file) (λ h. 0)
unfolding create initialize
block_num-create memory_size file h =
    let e : grow (memory_size / 520 + 1) memory_size 0 ≡ 64 * (memory_size / 520) =
      grow-eq (memory_size / 520 + 1) memory_size 0 (omega arith) (omega arith) in
    (
      e,
      omega (arith, e),
      record {
        holds =
            zero_words-Holds (grow (memory_size / 520 + 1) memory_size 0) file (omega (arith, e))
              (omega (arith, e));
        start = omega arith;
      },
    )
