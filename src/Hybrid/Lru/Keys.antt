-- ===== src/Hybrid/Lru/Keys.antt =====
-- Lists of distinct keys: membership, removal, and the first n.
use rec_store.Prelude.{
  ℕ, zero, suc, ◌+◌, ◌≤◌, ◌≡◌, ◌⊎◌, inl, inr, refl, ap, ◌∙◌, arith, Bool, true, false, ◌||◌, none,
  some, List, [], ◌∷◌, ◌++◌, ◌==◌, length, Bool-cases, ℕ_discrete,
}
use rec_store.Hybrid.Lru.{remove, pop_back}

abbrev pub take : ℕ → List ℕ → List ℕ
take zero xs = []
take (suc n) [] = []
take (suc n) (x ∷ xs) = x ∷ take n xs

abbrev pub has : ℕ → List ℕ → Bool
has k [] = false
has k (x ∷ xs) = (x == k) || has k xs

abbrev pub Distinct : List ℕ → Type 0
Distinct [] = Unit
Distinct (x ∷ xs) = (has x xs ≡ false) × Distinct xs

-- A key is used: it comes to the front.
abbrev pub touch : ℕ → List ℕ → List ℕ
touch k h = k ∷ remove k h

pub take-take : (n : ℕ) (h : List ℕ) → take n (take n h) ≡ take n h
take-take zero h = refl
take-take (suc n) [] = refl
take-take (suc n) (x ∷ h) = ap (λ l. x ∷ l) (take-take n h)

pub take-remove-take :
    (k n : ℕ) (h : List ℕ) → take n (remove k (take (suc n) h)) ≡ take n (remove k h)
take-remove-take k n [] = refl
take-remove-take k zero (x ∷ h) = refl
take-remove-take k (suc n) (x ∷ h) = elim (Bool-cases (x == k)) [
  | inl e ↦ rw e (take-take (suc n) h)
  | inr e ↦ rw e (ap (λ l. x ∷ l) (take-remove-take k n h))
]

pub take_of_length-le : (n : ℕ) (xs : List ℕ) → length xs ≤ n → take n xs ≡ xs
take_of_length-le zero [] h = refl
take_of_length-le zero (x ∷ xs) h = absurd (omega arith)
take_of_length-le (suc n) [] h = refl
take_of_length-le (suc n) (x ∷ xs) h = ap (λ l. x ∷ l) (take_of_length-le n xs (omega arith))

length-take-le : (n : ℕ) (xs : List ℕ) → length (take n xs) ≤ n
length-take-le zero xs = omega arith
length-take-le (suc n) [] = omega arith
length-take-le (suc n) (x ∷ xs) = omega (arith, length-take-le n xs)

pub remove_absent : (k : ℕ) (xs : List ℕ) → has k xs ≡ false → remove k xs ≡ xs
remove_absent k [] h = refl
remove_absent k (x ∷ xs) h = ground (arith, remove_absent k xs)

pub length-remove : (k : ℕ) (xs : List ℕ) → has k xs ≡ true → length (remove k xs) + 1 ≡ length xs
length-remove k [] h = absurd (cc)
length-remove k (x ∷ xs) h = ground (arith, length-remove k xs)

pub has-remove_other : (j k : ℕ) (xs : List ℕ) → (k == j) ≡ false → has j (remove k xs) ≡ has j xs
has-remove_other j k [] h = refl
has-remove_other j k (x ∷ xs) h = ground (arith, has-remove_other j k xs h)

pub has-remove_self : (k : ℕ) (xs : List ℕ) → Distinct xs → has k (remove k xs) ≡ false
has-remove_self k [] d = refl
has-remove_self k (x ∷ xs) d = elim (ℕ_discrete x k) [
  | yes e ↦ ground (arith, d.0)
  | no ne ↦ ground (arith, has-remove_self k xs d.1)
]

pub Distinct-remove : (k : ℕ) (xs : List ℕ) → Distinct xs → Distinct (remove k xs)
Distinct-remove k [] d = tt
Distinct-remove k (x ∷ xs) d = elim (Bool-cases (x == k)) [
  | inl e ↦ rw e d.1
  | inr e ↦ rw e (
    let other : (k == x) ≡ false = ground (arith, e) in has-remove_other x k xs other ∙ d.0,
    Distinct-remove k xs d.1,
  )
]

pub has-append : (k : ℕ) (xs ys : List ℕ) → has k (xs ++ ys) ≡ (has k xs || has k ys)
has-append k [] ys = refl
has-append k (x ∷ xs) ys = ground (arith, has-append k xs ys)

pub Distinct-front :
    (xs : List ℕ) (k : ℕ) → Distinct (xs ++ k ∷ []) → Distinct xs × (has k xs ≡ false)
Distinct-front [] k d = (tt, refl)
Distinct-front (x ∷ xs) k d =
    let rest = Distinct-front xs k d.1 in
    let apart = has-append x xs (k ∷ []) in
    (ground (arith, apart, d.0, rest.0), ground (arith, apart, d.0, rest.1))

pub pop_back-append :
    (xs : List ℕ)
    → ((xs ≡ []) × (pop_back xs ≡ none))
      ⊎ ((k : ℕ) × (rest : List ℕ) × (xs ≡ rest ++ k ∷ []) × (pop_back xs ≡ some (k, rest)))
pop_back-append [] = inl (refl, refl)
pop_back-append (x ∷ []) = inr (x, [], refl, refl)
pop_back-append (x ∷ y ∷ xs) = elim (pop_back-append (y ∷ xs)) [
  | inl (e, q) ↦ absurd (cc)
  | inr (k, rest, e, q) ↦ inr (k, x ∷ rest, ap (λ l. x ∷ l) e, rw q refl)
]

pub take-append : (xs : List ℕ) (k n : ℕ) → length xs ≡ n → take n (xs ++ k ∷ []) ≡ xs
take-append [] k zero e = refl
take-append [] k (suc n) e = absurd (omega arith)
take-append (x ∷ xs) k zero e = absurd (omega arith)
take-append (x ∷ xs) k (suc n) e = ap (λ l. x ∷ l) (take-append xs k n (omega arith))
