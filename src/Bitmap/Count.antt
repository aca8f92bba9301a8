-- ===== src/Bitmap/Count.antt =====
-- `NumberOfOnes` is the number of positions that `Get` reads as true, and follows each write.
use rec_store.Prelude.{
  ℕ, zero, suc, ◌+◌, ◌<◌, ◌≤◌, ◌≡◌, ◌≢◌, refl, arith, dec_lt, true, Bool-cases, inl, inr, false,
  if◌then◌else◌,
}
use rec_store.Bitmap.{BitMap, get, put, clear, count_ones, number_of_ones}
use rec_store.Bitmap.Laws.{IsValid, get-put, get-clear}

-- Positions that read alike count alike.
count_ones_congr :
    (a b : BitMap) (k i : ℕ)
    → ((q : ℕ) → i ≤ q → get a q ≡ get b q)
    → count_ones a k i ≡ count_ones b k i
unfolding count_ones
count_ones_congr a b zero i h = refl
count_ones_congr a b (suc k) i h =
    ground (arith, h i, count_ones_congr a b k (i + 1) (λ q l. h q (omega arith)))

-- Two maps that differ at p alone, which `b` has set.
module _ (a b : BitMap) (p : ℕ) (off : get a p ≡ false) (on : get b p ≡ true)
    (rest : (q : ℕ) → p ≢ q → get a q ≡ get b q) where
  count_ones_differ : (k i : ℕ) → i ≤ p → p < i + k → count_ones b k i ≡ count_ones a k i + 1
  unfolding count_ones
  count_ones_differ zero i l h = absurd (omega arith)
  count_ones_differ (suc k) i l h = elim (dec_lt i p) [
    | yes before ↦
        ground (
          arith,
          rest i (λ e. omega arith),
          count_ones_differ k (i + 1) (omega arith) (omega arith),
        )
    | no here ↦
        let e : i ≡ p = omega arith in
        let same = count_ones_congr a b k (i + 1) (λ q r. rest q (λ c. omega arith)) in
        rw (e, off, on) (omega (arith, rw e at same))
  ]

-- In a valid map, setting a clear position adds one to the count, and clearing a set one takes one off; setting a
-- set position and clearing a clear one leave the count.
pub number_of_ones-put-clear :
    (b : BitMap) (p : ℕ)
    → IsValid b
    → p < b.n
    → (number_of_ones (put b p) ≡ number_of_ones b + (if get b p then 0 else 1))
      × (number_of_ones (clear b p) + (if get b p then 1 else 0) ≡ number_of_ones b)
unfolding number_of_ones put clear
number_of_ones-put-clear b p v h =
    let at_put = λ (q : ℕ). get-put b p q v h in
    let at_clear = λ (q : ℕ). get-clear b p q v h in
    elim (Bool-cases (get b p)) [
      | inl on ↦ rw on (
        (ground (arith, count_ones_congr (put b p) b b.n 0 (λ q l. ground (arith, at_put q)))),
        ground (
          arith,
          count_ones_differ (clear b p) b p (ground (arith, at_clear p)) on
              (λ q r. ground (arith, at_clear q)) b.n 0 (omega arith) (omega arith),
        ),
      )
      | inr off ↦ rw off (
        ground (
          arith,
          count_ones_differ b (put b p) p off (ground (arith, at_put p))
              (λ q r. ground (arith, at_put q)) b.n 0 (omega arith) (omega arith),
        ),
        ground (arith, count_ones_congr (clear b p) b b.n 0 (λ q l. ground (arith, at_clear q))),
      )
    ]
