-- ===== src/ExtendibleHash/Directory/Windows.antt =====
-- Windows of the directory: aligned ranges of indices, their two halves, and residues in them.
use rec_store.Prelude.{
  ℕ, ◌+◌, ◌-◌, ◌*◌, ◌/◌, ◌%◌, ◌≤◌, ◌<◌, ◌≡◌, refl, sym, ap, ◌∙◌, arith, ◌==◌, leb, ◌&&◌,
  if◌then◌else◌, Bool-cases, ◌⊎◌, inl, inr, ==_self, ==_iff,
}
use native.Mathlib.Nat.{
  div-add-mod, div-add-mod', mod-lt, mod-le, add-mul-mod_self_left, div-eq_of_lt, mul-add-div_right,
  add-div_right,
}

-- The lower of the two indices that a window of two halves of length `half` pairs with x.
abbrev pub lower : ℕ → ℕ → ℕ
lower half x = if leb half (x % (half * 2)) then x - half else x

-- An index is determined by its quotient and its remainder.
pub ==-quotient_remainder : (m i j : ℕ) → (i == j) ≡ (i / m == j / m) && (i % m == j % m)
==-quotient_remainder m i j = elim (Bool-cases (i == j)) [
  | inl same ↦
      let e : i ≡ j = (==_iff i j).0 same in rw (e, ==_self j, ==_self (j / m), ==_self (j % m))
  | inr other ↦ ground (arith, div-add-mod' i m, div-add-mod' j m, product m i j)
]
  where
    product : (m i j : ℕ) → i / m ≡ j / m → i / m * m ≡ j / m * m
    product m i j e = ap (λ t. t * m) e

module _ (half x : ℕ) (pos : 0 < half) where
  pub lower-cases :
      ((lower half x + half ≡ x) × (half ≤ x % (half * 2)))
      ⊎ ((lower half x ≡ x) × (x % (half * 2) < half))
  lower-cases = elim (Bool-cases (leb half (x % (half * 2)))) [
    | inl up ↦ inl (rw up (ground (arith, mod-le x (half * 2))), ground arith)
    | inr down ↦ inr (rw down refl, ground arith)
  ]

  pub lower-div : lower half x / half ≡ x / (half * 2) * 2
  lower-div =
      let q = x / (half * 2) in
      let t = x % (half * 2) in
      let whole : half * 2 * q + t ≡ x = div-add-mod x (half * 2) in
      elim lower-cases [
        | inl (e, up) ↦
            let small : t - half < half =
              omega (arith, mod-lt x (let p : 0 < half * 2 = omega arith in p)) in
            let l : lower half x ≡ q * 2 * half + (t - half) = omega arith in
            rw (l, mul-add-div_right pos (q * 2) (t - half), div-eq_of_lt small) (omega arith)
        | inr (e, down) ↦
            let l : lower half x ≡ q * 2 * half + t = omega arith in
            rw (l, mul-add-div_right pos (q * 2) t, div-eq_of_lt down) (omega arith)
      ]

  pub lower-mod : (m k : ℕ) → half ≡ m * k → lower half x % m ≡ x % m
  lower-mod m k e = elim lower-cases [
    | inl (l, up) ↦
        let s : lower half x + m * k ≡ x = rw (← e) l in
        sym (add-mul-mod_self_left (lower half x) m k) ∙ ap (λ t. t % m) s
    | inr (l, down) ↦ ap (λ t. t % m) l
  ]

  pub upper-div : (lower half x + half) / half ≡ x / (half * 2) * 2 + 1
  upper-div = add-div_right (lower half x) pos ∙ ap (λ t. t + 1) lower-div

  pub upper-mod : (m k : ℕ) → half ≡ m * k → (lower half x + half) % m ≡ x % m
  upper-mod m k e =
      let s : (lower half x + half) % m ≡ (lower half x + m * k) % m =
        ap (λ t. (lower half x + t) % m) e in
      s ∙ add-mul-mod_self_left (lower half x) m k ∙ lower-mod m k e
