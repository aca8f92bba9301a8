-- ===== src/ExtendibleHash/Directory/Update.antt =====
-- What `LSBUpdate` writes: every entry of the window that agrees with x on the lower bits.
use rec_store.Prelude.{
  ℕ, zero, suc, ◌+◌, ◌-◌, ◌*◌, ◌/◌, ◌%◌, ◌^◌, ◌≤◌, ◌<◌, ◌≡◌, refl, sym, ap, ◌∙◌, arith, Bool, List,
  ◌==◌, leb, ◌&&◌, if◌then◌else◌, Bool-cases, inl, inr, length, get_or, set, length-set, get_or-set,
}
use native.Mathlib.Nat.{
  div-eq_of_lt, div-add-mod', div-div-eq-div-mul, pow-suc, pow-zero, mul-one, mul_assoc,
}
use rec_store.Prelude.Bits.{pow-pos, pow-add}
use rec_store.ExtendibleHash.Directory.{lsb_update}
use rec_store.ExtendibleHash.Directory.Windows.{
  lower, lower-cases, lower-div, lower-mod, upper-div, upper-mod, ==-quotient_remainder,
}

module _ (half x s0 s1 : ℕ) (pos : 0 < half) (es : List ℕ) where
  half_of_window : half * 2 / 2 ≡ half
  half_of_window = omega arith

  lsb_update-zero :
      lsb_update 0 (half * 2) x s0 s1 es ≡ set (set es (lower half x) s0) (lower half x + half) s1
  unfolding lsb_update
  lsb_update-zero = rw half_of_window (elim (Bool-cases (leb half (x % (half * 2)))) [
    | inl up ↦ elim (lower-cases half x pos) [
      | inl (e, u) ↦ rw up (ap (λ t. set (set es (x - half) s0) t s1) (omega arith))
      | inr (e, d) ↦ absurd (ground arith)
    ]
    | inr down ↦ rw down refl
  ])

  lsb_update-suc :
      (d : ℕ)
      → lsb_update (suc d) (half * 2) x s0 s1 es
        ≡ lsb_update d half (lower half x + half) s0 s1 (lsb_update d half (lower half x) s0 s1 es)
  unfolding lsb_update
  lsb_update-suc d = rw half_of_window (elim (Bool-cases (leb half (x % (half * 2)))) [
    | inl up ↦ elim (lower-cases half x pos) [
      | inl (e, u) ↦ rw up (
          ap (λ t. lsb_update d half t s0 s1 (lsb_update d half (x - half) s0 s1 es)) (omega arith))
      | inr (e, down) ↦ absurd (ground arith)
    ]
    | inr down ↦ rw down refl
  ])

mul-pos : (a b : ℕ) → 0 < a → 0 < b → 0 < a * b
mul-pos a b p q = grind arith

pow_split : (l g : ℕ) → l < g → 2 ^ g ≡ 2 ^ l * 2 ^ (g - (l + 1)) * 2
pow_split l g h =
    let e : suc (l + (g - (l + 1))) ≡ g = omega arith in
    ap (λ t. 2 ^ t) (sym e)
    ∙ pow-suc 2 (l + (g - (l + 1)))
    ∙ ap (λ t. t * 2) (pow-add l (g - (l + 1)))

-- The entries that the split of a block with entry x reaches, in a window of two halves.
abbrev reaches : ℕ → ℕ → ℕ → ℕ → Bool
reaches m half x j = (x / (half * 2) == j / (half * 2)) && (x % m == j % m)

-- Two halves of a window, as tests of the quotient by half its length.
two_halves :
    (w J : ℕ) (same : Bool) (a b c : ℕ)
    → (if (w * 2 + 1 == J) && same then b else if (w * 2 == J) && same then a else c)
      ≡ (if (w == J / 2) && same then (if J % 2 == 0 then a else b) else c)
two_halves w J same a b c = ground arith

either_half :
    (w J : ℕ) (same : Bool) (v c : ℕ)
    → (if (w * 2 + 1 == J) && same then v else if (w * 2 == J) && same then v else c)
      ≡ (if (w == J / 2) && same then v else c)
either_half w J same v c = ground arith

module _ (m s0 s1 : ℕ) (pos : 0 < m) where
  abbrev Updated : ℕ → ℕ → List ℕ → List ℕ → Type 0
  Updated half x es fs =
      (length fs ≡ length es)
      × ((j z : ℕ)
          → get_or fs j z
            ≡ (if reaches m half x j then (if j / m % 2 == 0 then s0 else s1) else get_or es j z))

  lsb_update-Updated_zero :
      (x : ℕ) (es : List ℕ)
      → (x / (m * 2) + 1) * (m * 2) ≤ length es
      → Updated m x es (lsb_update 0 (m * 2) x s0 s1 es)
  lsb_update-Updated_zero x es fit = rw (lsb_update-zero m x s0 s1 pos es) (
      let low = lower m x in
      let q = lower-div m x pos in
      let q' = upper-div m x pos in
      let r = lower-mod m x pos m 1 (omega arith) in
      let r' = upper-mod m x pos m 1 (omega arith) in
      let inside : low + m < length es =
        omega (arith, div-add-mod' (low + m) m, ap (λ t. t * m) q') in
      (
        rw (length-set, length-set),
        λ j z.
            rw
              (
                get_or-set (set es low s0) (low + m) j s1 z (rw length-set inside),
                get_or-set es low j s0 z (omega arith),
              )
              (rw
                (
                  ==-quotient_remainder m (low + m) j,
                  ==-quotient_remainder m low j,
                  q,
                  q',
                  r,
                  r',
                  ← div-div-eq-div-mul j m 2,
                )
                (two_halves (x / (m * 2)) (j / m) (x % m == j % m) s0 s1 (get_or es j z))),
      ))

  lsb_update-Updated-suc :
      (d inner x : ℕ) (es : List ℕ)
      → inner ≡ m * 2 ^ d
      → (x / (inner * 2 * 2) + 1) * (inner * 2 * 2) ≤ length es
      → ((y : ℕ) (fs : List ℕ)
          → (y / (inner * 2) + 1) * (inner * 2) ≤ length fs
          → Updated inner y fs (lsb_update d (inner * 2) y s0 s1 fs))
      → Updated (inner * 2) x es (lsb_update (suc d) (inner * 2 * 2) x s0 s1 es)
  lsb_update-Updated-suc d inner x es e fit ih =
      let half = inner * 2 in
      let half_pos : 0 < half = omega (arith, e, mul-pos m (2 ^ d) pos (pow-pos d)) in
      let k : half ≡ m * (2 ^ d * 2) = ap (λ t. t * 2) e ∙ mul_assoc m (2 ^ d) 2 in
      let low = lower half x in
      let q = lower-div half x half_pos in
      let q' = upper-div half x half_pos in
      let r = lower-mod half x half_pos m (2 ^ d * 2) k in
      let r' = upper-mod half x half_pos m (2 ^ d * 2) k in
      let (size, first) = ih low es (rw q (omega arith)) in
      let (size', second) =
        ih (low + half) (lsb_update d half low s0 s1 es) (rw (q', size) (omega arith)) in
      rw (lsb_update-suc half x s0 s1 half_pos es d) (
        size' ∙ size,
        λ j z.
            rw (second j z, first j z, q, q', r, r', ← div-div-eq-div-mul j half 2)
              (either_half (x / (half * 2)) (j / half) (x % m == j % m)
                (if j / m % 2 == 0 then s0 else s1) (get_or es j z)),
      )

  lsb_update-Updated :
      (d half x : ℕ) (es : List ℕ)
      → half ≡ m * 2 ^ d
      → (x / (half * 2) + 1) * (half * 2) ≤ length es
      → Updated half x es (lsb_update d (half * 2) x s0 s1 es)
  lsb_update-Updated zero half x es e fit =
      let h : half ≡ m = e ∙ ap (λ t. m * t) (pow-zero 2) ∙ mul-one m in
      rw h (lsb_update-Updated_zero x es (rw h at fit))
  lsb_update-Updated (suc d) half x es e fit =
      let inner = m * 2 ^ d in
      let h : half ≡ inner * 2 = e ∙ ap (λ t. m * t) (pow-suc 2 d) ∙ sym (mul_assoc m (2 ^ d) 2) in
      rw h (
        lsb_update-Updated-suc d inner x es refl (rw h at fit)
          (λ y fs f. lsb_update-Updated d inner y fs refl f))

-- `LSBUpdate` on the whole directory of 2 ^ g entries, g at most 30, for a split from depth l to
-- depth l + 1:
-- exactly the entries whose index agrees with x on the l lower bits are rewritten, to the first
-- block where bit l of the index is 0 and to the second where it is 1.
pub lsb_update_lem :
    (g l x s0 s1 : ℕ) (es : List ℕ)
    → g ≤ 30
    → l < g
    → x < 2 ^ g
    → length es ≡ 2 ^ g
    → (length (lsb_update (g - (l + 1)) (2 ^ g) x s0 s1 es) ≡ 2 ^ g)
      × ((j z : ℕ)
          → j < 2 ^ g
          → get_or (lsb_update (g - (l + 1)) (2 ^ g) x s0 s1 es) j z ≡ (
              if x % 2 ^ l == j % 2 ^ l
              then (if j / 2 ^ l % 2 == 0 then s0 else s1)
              else get_or es j z))
lsb_update_lem g l x s0 s1 es small below inside size =
    let d = g - (l + 1) in
    let half = 2 ^ l * 2 ^ d in
    let whole : 2 ^ g ≡ half * 2 = pow_split l g below in
    let x_window : x / (half * 2) ≡ 0 = div-eq_of_lt (rw whole at inside) in
    let (same_size, read) =
      lsb_update-Updated (2 ^ l) s0 s1 (pow-pos l) d half x es refl
        (rw x_window (omega (arith, size, whole))) in
    rw whole (
      same_size ∙ size ∙ whole,
      λ j z b.
          let j_window : j / (half * 2) ≡ 0 = div-eq_of_lt b in
          read j z ∙ rw (x_window, j_window) refl,
    )
