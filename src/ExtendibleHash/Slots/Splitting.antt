-- ===== src/ExtendibleHash/Slots/Splitting.antt =====
-- `Split`'s loop sends each pair to one of two empty blocks, and loses none.
use rec_store.Prelude.{
  ℕ, ◌+◌, ◌^◌, ◌≤◌, ◌≡◌, ◌≢◌, refl, arith, Bool, true, false, not, ◌&&◌, List, [], ◌∷◌, ◌==◌,
  length, replicate, if◌then◌else◌, Bool-cases, inl, inr, ℕ_discrete, bit_and, ◌∙◌,
}
use rec_store.ExtendibleHash.Slots.{
  Pair, invalid, extract_slots, insert4split, num_elem, empty_pair,
}
use rec_store.ExtendibleHash.Slots.Counting.{count, tally, extract-eq-zero, length-num_elem}
use rec_store.ExtendibleHash.Slots.Writes.{Placed, insert4split-Placed}
use rec_store.ExtendibleHash.Block.{num_slot, split_loop}

-- One side of the loop: the pairs whose key is chosen go into `t`, in order.
unfoldable pub gather : (ℕ → Bool) → List Pair → List Pair → List Pair
gather chosen [] t = t
gather chosen (s ∷ ss) t =
    gather chosen ss (if chosen s.key then insert4split s.key s.value t else t)

module _ (h : ℕ → ℕ) (d : ℕ) where
  abbrev pub goes_up : ℕ → Bool
  goes_up k = not (bit_and (h k) (2 ^ d) == 0)

  pub split_loop-gather :
      (ss s0 s1 : List Pair)
      → split_loop h d ss s0 s1 ≡ (gather (λ k. not (goes_up k)) ss s0, gather goes_up ss s1)
  unfolding split_loop gather
  split_loop-gather [] s0 s1 = refl
  split_loop-gather (s ∷ ss) s0 s1 = elim (Bool-cases (goes_up s.key)) [
    | inl up ↦ rw up (split_loop-gather ss s0 (insert4split s.key s.value s1))
    | inr down ↦ rw down (split_loop-gather ss (insert4split s.key s.value s0) s1)
  ]

-- What one side holds at the end.
pub record Gathered (chosen : ℕ → Bool) (ss t r : List Pair) : Type 0 where
  pub size : length r ≡ length t
  pub counts : (q : ℕ) → q ≢ invalid → count q r ≡ (if chosen q then count q ss else 0) + count q t
  pub tallies : (p : ℕ → Bool) → tally p r ≡ tally (λ k. chosen k && p k) ss + tally p t
  pub reads :
      (q : ℕ)
      → q ≢ invalid
      → chosen q ≡ true
      → count q ss + count q t ≤ 1
      → extract_slots q r ≡ (if count q ss == 0 then extract_slots q t else extract_slots q ss)

module _ (chosen : ℕ → Bool) where
  gather-step :
      (s : Pair) (ss t u r : List Pair)
      → chosen s.key ≡ true
      → Placed s.key s.value t u
      → Gathered chosen ss u r
      → Gathered chosen (s ∷ ss) t r
  unfolding count tally extract_slots
  gather-step s ss t u r yes_chosen p g = record {
    size = g.size ∙ p.size;
    counts = λ q n. ground (arith, g.counts q n, p.counts q n);
    tallies = λ f. ground (arith, g.tallies f, p.tallies f);
    reads = λ q n c once. elim (ℕ_discrete s.key q) [
      | yes same ↦
          ground
            (arith, g.reads q n c (ground (arith, p.counts q n)), p.reads q n (inr (ground arith)))
      | no other ↦
          ground (arith, g.reads q n c (ground (arith, p.counts q n)), p.reads q n (inl other))
    ];
  }

  gather-skip :
      (s : Pair) (ss t r : List Pair)
      → chosen s.key ≡ false
      → Gathered chosen ss t r
      → Gathered chosen (s ∷ ss) t r
  unfolding count tally extract_slots
  gather-skip s ss t r not_chosen g = record {
    size = g.size;
    counts = λ q n. ground (arith, g.counts q n);
    tallies = λ f. ground (arith, g.tallies f);
    reads = λ q n c once. ground (arith, g.reads q n c);
  }

  pub gather-Gathered :
      (ss t : List Pair) → num_elem ss ≤ count invalid t → Gathered chosen ss t (gather chosen ss t)
  unfolding gather num_elem
  gather-Gathered [] t room = record {
    size = refl;
    counts = λ q n. unfold count in ground arith;
    tallies = λ f. unfold tally in omega arith;
    reads = λ q n c once. unfold count in refl;
  }
  gather-Gathered (s ∷ ss) t room = elim (Bool-cases (chosen s.key)) [
    | inl up ↦
        let p = insert4split-Placed s.key s.value t (λ valid. ground arith) in
        rw up (
          gather-step s ss t (insert4split s.key s.value t) _ up p
            (gather-Gathered ss (insert4split s.key s.value t) (ground (arith, p.room))))
    | inr down ↦ rw down (gather-skip s ss t _ down (gather-Gathered ss t (ground arith)))
  ]

-- Splitting a block whose keys are distinct: each key is found in the half that its hash chooses,
-- with the value that it had, and the halves hold nothing else.
pub record Split (h : ℕ → ℕ) (d : ℕ) (ss r0 r1 : List Pair) : Type 0 where
  pub size_low : length r0 ≡ num_slot
  pub size_high : length r1 ≡ num_slot
  pub counts_low : (q : ℕ) → q ≢ invalid → count q r0 ≡ (if goes_up h d q then 0 else count q ss)
  pub counts_high : (q : ℕ) → q ≢ invalid → count q r1 ≡ (if goes_up h d q then count q ss else 0)
  pub tallies_low : (p : ℕ → Bool) → tally p r0 ≡ tally (λ k. not (goes_up h d k) && p k) ss
  pub tallies_high : (p : ℕ → Bool) → tally p r1 ≡ tally (λ k. goes_up h d k && p k) ss
  pub reads_low :
      (q : ℕ) → q ≢ invalid → goes_up h d q ≡ false → extract_slots q r0 ≡ extract_slots q ss
  pub reads_high :
      (q : ℕ) → q ≢ invalid → goes_up h d q ≡ true → extract_slots q r1 ≡ extract_slots q ss

abbrev fresh : List Pair
fresh = replicate num_slot empty_pair

count-fresh : (q : ℕ) → q ≢ invalid → count q fresh ≡ 0
unfolding count
count-fresh q n = ground arith

tally-fresh : (p : ℕ → Bool) → tally p fresh ≡ 0
unfolding tally
tally-fresh p = refl

pub split_loop-Split :
    (h : ℕ → ℕ) (d : ℕ) (ss : List Pair)
    → length ss ≡ num_slot
    → ((q : ℕ) → q ≢ invalid → count q ss ≤ 1)
    → Split h d ss (split_loop h d ss fresh fresh).0 (split_loop h d ss fresh fresh).1
split_loop-Split h d ss size once = rw (split_loop-gather h d ss fresh fresh) (
    let room : num_elem ss ≤ count invalid fresh =
      unfold count in omega (arith, length-num_elem ss) in
    let low = gather-Gathered (λ k. not (goes_up h d k)) ss fresh room in
    let high = gather-Gathered (goes_up h d) ss fresh room in
    record {
      size_low = low.size;
      size_high = high.size;
      counts_low = λ q n. ground (arith, low.counts q n, count-fresh q n);
      counts_high = λ q n. ground (arith, high.counts q n, count-fresh q n);
      tallies_low = λ p. ground (arith, low.tallies p, tally-fresh p);
      tallies_high = λ p. ground (arith, high.tallies p, tally-fresh p);
      reads_low = λ q n c. ground (
        arith,
        low.reads q n (rw c) (omega (arith, once q n, count-fresh q n)),
        extract-eq-zero q ss,
        extract-eq-zero q fresh (count-fresh q n),
      );
      reads_high = λ q n c. ground (
        arith,
        high.reads q n c (omega (arith, once q n, count-fresh q n)),
        extract-eq-zero q ss,
        extract-eq-zero q fresh (count-fresh q n),
      );
    })
