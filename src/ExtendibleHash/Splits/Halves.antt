-- ===== src/ExtendibleHash/Splits/Halves.antt =====
-- The two blocks that `Split` and `Insert` build from a full one.
use rec_store.Prelude.{
  ℕ, zero, suc, ◌+◌, ◌*◌, ◌/◌, ◌%◌, ◌^◌, ◌≤◌, ◌<◌, ◌≡◌, ◌≢◌, refl, arith, Bool, not, ◌&&◌, List, [],
  ◌∷◌, ◌==◌, if◌then◌else◌, length,
}
use rec_store.Prelude.Int.{pos}
use rec_store.Prelude.Bits.{bit, bit-le, bit_and-pow, bit-div, pow-pos}
use rec_store.ExtendibleHash.Slots.{Pair, invalid, extract_slots}
use rec_store.ExtendibleHash.Slots.Counting.{count, tally}
use rec_store.ExtendibleHash.Slots.Splitting.{Split, goes_up}
use rec_store.ExtendibleHash.Block.{Block, num_slot}

abbrev pub bit_of : ℕ → ℕ → ℕ
bit_of x l = x / 2 ^ l % 2

-- The block for the keys of a full block (slots ss, depth l, entry x) whose hash has bit l equal
-- to b.
pub record Half (h : ℕ → ℕ) (l x : ℕ) (ss : List Pair) (b : ℕ) (c : Block) : Type 0 where
  pub size : length c.slots ≡ num_slot
  pub idle : c.sema ≡ pos 0
  pub depth : c.local_depth ≡ suc l
  pub pattern : c.pattern ≡ x % 2 ^ l + b * 2 ^ l
  pub counts :
      (q : ℕ) → q ≢ invalid → count q c.slots ≡ (if bit_of (h q) l == b then count q ss else 0)
  pub reads :
      (q : ℕ) → q ≢ invalid → bit_of (h q) l ≡ b → extract_slots q c.slots ≡ extract_slots q ss
  pub tallies : (p : ℕ → Bool) → tally p c.slots ≤ tally p ss

-- A test that lets fewer keys pass counts fewer.
tally_mono : (c p : ℕ → Bool) (ss : List Pair) → tally (λ k. c k && p k) ss ≤ tally p ss
unfolding tally
tally_mono c p [] = omega arith
tally_mono c p (s ∷ ss) = ground (arith, tally_mono c p ss)

pub goes_up-eq : (h : ℕ → ℕ) (l q : ℕ) → goes_up h l q ≡ (bit_of (h q) l == 1)
goes_up-eq h l q =
    rw (bit_and-pow (h q) l, ← bit-div (h q) l)
      (nonzero (bit (h q) l) (2 ^ l) (pow-pos l) (bit-le (h q) l))
  where
    nonzero : (b p : ℕ) → 0 < p → b ≤ 1 → not (b * p == 0) ≡ (b == 1)
    nonzero zero p h l = ground arith
    nonzero (suc zero) p h l = ground arith
    nonzero (suc (suc b)) p h l = absurd (omega arith)

-- The blocks of the code, with their patterns entered, are the two halves.
module _ (h : ℕ → ℕ) (l x : ℕ) (ss r0 r1 : List Pair) (s : Split h l ss r0 r1) where
  pub low-Half :
      Half h l x ss 0
        (record { slots = r0; local_depth = suc l; sema = pos 0; pattern = x % 2 ^ l })
  low-Half = record {
    size = s.size_low;
    idle = refl;
    depth = refl;
    pattern = omega arith;
    counts = λ q n. ground (arith, s.counts_low q n, goes_up-eq h l q);
    reads = λ q n e. s.reads_low q n (ground (arith, goes_up-eq h l q));
    tallies = λ p. omega (arith, s.tallies_low p, tally_mono (λ k. not (goes_up h l k)) p ss);
  }

  pub high-Half :
      Half h l x ss 1
        (record { slots = r1; local_depth = suc l; sema = pos 0; pattern = x % 2 ^ l + 2 ^ l })
  high-Half = record {
    size = s.size_high;
    idle = refl;
    depth = refl;
    pattern = omega arith;
    counts = λ q n. ground (arith, s.counts_high q n, goes_up-eq h l q);
    reads = λ q n e. s.reads_high q n (ground (arith, goes_up-eq h l q));
    tallies = λ p. omega (arith, s.tallies_high p, tally_mono (goes_up h l) p ss);
  }
