-- ===== src/ExtendibleHash/Slots/Counting.antt =====
-- How often a key occurs, and what a rewrite does to lookups and occurrences.
use rec_store.Prelude.{
  ℕ, suc, ◌+◌, ◌<◌, ◌≡◌, ◌≢◌, refl, arith, none, some, List, [], ◌∷◌, ◌==◌, length, if◌then◌else◌,
  Bool, true, Bool-cases, Option-cases, ◌⊎◌, inl, inr,
}
use rec_store.ExtendibleHash.Slots.{Pair, invalid, rewrite_first, extract_slots, num_elem}

unfoldable pub count : ℕ → List Pair → ℕ
count k [] = 0
count k (s ∷ ss) = (if s.key == k then 1 else 0) + count k ss

-- The occupied slots whose key passes a test.
unfoldable pub tally : (ℕ → Bool) → List Pair → ℕ
tally p [] = 0
tally p (s ∷ ss) = (if s.key == invalid then 0 else if p s.key then 1 else 0) + tally p ss

pub length-num_elem : (ss : List Pair) → num_elem ss + count invalid ss ≡ length ss
unfolding num_elem count
length-num_elem [] = omega arith
length-num_elem (s ∷ ss) = ground (arith, length-num_elem ss)

pub num_elem-tally : (ss : List Pair) → num_elem ss ≡ tally (λ k. true) ss
unfolding num_elem tally
num_elem-tally [] = refl
num_elem-tally (s ∷ ss) = ground (arith, num_elem-tally ss)

pub extract-eq-zero : (k : ℕ) (ss : List Pair) → count k ss ≡ 0 → extract_slots k ss ≡ 0
unfolding count extract_slots
extract-eq-zero k [] h = refl
extract-eq-zero k (s ∷ ss) h = ground (arith, extract-eq-zero k ss)

-- The rewrite fails exactly when the key does not occur.
pub rewrite_first-eq-none :
    (k : ℕ) (f : Pair → Pair) (ss : List Pair) → rewrite_first k f ss ≡ none → count k ss ≡ 0
unfolding count rewrite_first
rewrite_first-eq-none k f [] h = refl
rewrite_first-eq-none k f (s ∷ ss) h = ground (arith, rewrite_first-eq-none k f ss)

-- A rewrite that succeeds takes the head, or goes on behind another head.
rewrite_first-inv :
    (k : ℕ) (f : Pair → Pair) (s : Pair) (ss : List Pair) (i : ℕ) (ts : List Pair)
    → rewrite_first k f (s ∷ ss) ≡ some (i, ts)
    → ((s.key ≡ k) × (i ≡ 0) × (ts ≡ f s ∷ ss))
      ⊎ ((s.key ≢ k)
          × (j : ℕ) × (us : List Pair) × (rewrite_first k f ss ≡ some (j, us))
          × (i ≡ suc j)
          × (ts ≡ s ∷ us))
unfolding rewrite_first
rewrite_first-inv k f s ss i ts h = elim (Bool-cases (s.key == k)) [
  | inl here ↦ inl (ground arith, ground arith, ground arith)
  | inr later ↦ elim (Option-cases (rewrite_first k f ss)) [
    | inl e ↦ absurd (ground arith)
    | inr ((j, us), e) ↦ inr (ground arith, j, us, e, ground arith, ground arith)
  ]
]

pub rewrite_first-pos :
    (k : ℕ) (f : Pair → Pair) (ss : List Pair) (i : ℕ) (ts : List Pair)
    → rewrite_first k f ss ≡ some (i, ts)
    → 0 < count k ss
unfolding count
rewrite_first-pos k f [] i ts h = unfold rewrite_first in cc
rewrite_first-pos k f (s ∷ ss) i ts h = elim (rewrite_first-inv k f s ss i ts h) [
  | inl (e, z, eq) ↦ ground arith
  | inr (ne, j, us, r, z, eq) ↦ omega (arith, rewrite_first-pos k f ss j us r)
]

module _ (k : ℕ) (f : Pair → Pair) (k' : ℕ) (to : (s : Pair) → s.key ≡ k → (f s).key ≡ k') where
  pub count-rewrite :
      (q : ℕ) (ss : List Pair) (i : ℕ) (ts : List Pair)
      → rewrite_first k f ss ≡ some (i, ts)
      → count q ts + (if k == q then 1 else 0) ≡ count q ss + (if k' == q then 1 else 0)
  unfolding count
  count-rewrite q [] i ts h = unfold rewrite_first in cc
  count-rewrite q (s ∷ ss) i ts h = elim (rewrite_first-inv k f s ss i ts h) [
    | inl (e, z, eq) ↦ rw eq (ground (arith, to s e))
    | inr (ne, j, us, r, z, eq) ↦ rw eq (ground (arith, count-rewrite q ss j us r))
  ]

  pub tally-rewrite :
      (p : ℕ → Bool) (ss : List Pair) (i : ℕ) (ts : List Pair)
      → rewrite_first k f ss ≡ some (i, ts)
      → tally p ts + (if k == invalid then 0 else if p k then 1 else 0)
        ≡ tally p ss + (if k' == invalid then 0 else if p k' then 1 else 0)
  unfolding tally
  tally-rewrite p [] i ts h = unfold rewrite_first in cc
  tally-rewrite p (s ∷ ss) i ts h = elim (rewrite_first-inv k f s ss i ts h) [
    | inl (e, z, eq) ↦ rw (eq, to s e, e) (ground arith)
    | inr (ne, j, us, r, z, eq) ↦ rw eq (ground (arith, tally-rewrite p ss j us r))
  ]

  -- Another key is found as before, unless it is the new key of the slot.
  pub extract-rewrite_ne :
      (q : ℕ) (ss : List Pair) (i : ℕ) (ts : List Pair)
      → rewrite_first k f ss ≡ some (i, ts)
      → k ≢ q
      → k' ≢ q
      → extract_slots q ts ≡ extract_slots q ss
  unfolding extract_slots
  extract-rewrite_ne q [] i ts h a b = unfold rewrite_first in cc
  extract-rewrite_ne q (s ∷ ss) i ts h a b = elim (rewrite_first-inv k f s ss i ts h) [
    | inl (e, z, eq) ↦ rw eq (ground (arith, to s e))
    | inr (ne, j, us, r, z, eq) ↦ rw eq (ground (arith, extract-rewrite_ne q ss j us r a b))
  ]

  -- A key that the slots did not hold, or that is rewritten in place, is found with its new value.
  pub extract-rewrite_new :
      (v : ℕ) (ss : List Pair) (i : ℕ) (ts : List Pair)
      → ((s : Pair) → (f s).value ≡ v)
      → rewrite_first k f ss ≡ some (i, ts)
      → ((k ≡ k') ⊎ (count k' ss ≡ 0))
      → extract_slots k' ts ≡ v
  unfolding extract_slots count
  extract-rewrite_new v [] i ts w h a = unfold rewrite_first in cc
  extract-rewrite_new v (s ∷ ss) i ts w h a = elim (rewrite_first-inv k f s ss i ts h) [
    | inl (e, z, eq) ↦ rw eq (ground (arith, to s e, w s))
    | inr (ne, j, us, r, z, eq) ↦ rw eq (elim a [
      | inl same ↦ ground (arith, extract-rewrite_new v ss j us w r (inl same))
      | inr fresh ↦ ground (arith, extract-rewrite_new v ss j us w r (inr (ground arith)))
    ])
  ]

  pub length-rewrite :
      (ss : List Pair) (i : ℕ) (ts : List Pair)
      → rewrite_first k f ss ≡ some (i, ts)
      → (length ts ≡ length ss) × (i < length ss)
  length-rewrite [] i ts h = unfold rewrite_first in cc
  length-rewrite (s ∷ ss) i ts h = elim (rewrite_first-inv k f s ss i ts h) [
    | inl (e, z, eq) ↦ rw (eq, z) (refl, omega arith)
    | inr (ne, j, us, r, z, eq) ↦
        let (l, m) = length-rewrite ss j us r in rw (eq, z) (omega arith, omega arith)
  ]
