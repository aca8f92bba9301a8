-- ===== src/ExtendibleHash/Directory/Doubling.antt =====
-- Directory doubling: two copies of the entries, with the split block's pair written over them.
use rec_store.Prelude.{
  ℕ, suc, ◌+◌, ◌-◌, ◌*◌, ◌/◌, ◌%◌, ◌^◌, ◌≤◌, ◌<◌, ◌≡◌, sym, ap, ◌∙◌, arith, List, ◌++◌, ◌==◌,
  if◌then◌else◌, length, get_or, set, length-append, length-set, get_or-set, get_or-append_left,
  get_or-append_right, dec_lt,
}
use native.Mathlib.Nat.{mod-eq_of_lt, mod-eq-sub-mod, div-eq_of_lt, add-div_right, pow-suc}
use rec_store.ExtendibleHash.Directory.{Directory, doubled}

module _ (p i : ℕ) (inside : i < p * 2) (high : p ≤ i) where
  mod_high : i % p ≡ i - p
  mod_high = mod-eq-sub-mod high ∙ mod-eq_of_lt (let h : i - p < p = omega arith in h)

  div_high : i / p ≡ 1
  div_high =
      let e : i ≡ i - p + p = omega arith in
      let small : i - p < p = omega arith in
      let pos : 0 < p = omega arith in
      ap (λ t. t / p) e ∙ add-div_right (i - p) pos ∙ ap (λ t. t + 1) (div-eq_of_lt small)

get_or-twice :
    (es : List ℕ) (p i : ℕ)
    → length es ≡ p
    → i < p * 2
    → get_or (es ++ es) i 0 ≡ get_or es (i % p) 0
get_or-twice es p i size inside = elim (dec_lt i p) [
  | yes low ↦ rw (mod-eq_of_lt low) (get_or-append_left es es i 0 (rw size low))
  | no high ↦
      let e : i ≡ length es + (i - p) = omega arith in
      ap (λ n. get_or (es ++ es) n 0) e
      ∙ get_or-append_right es es (i - p) 0
      ∙ ap (λ n. get_or es n 0) (sym (mod_high p i inside (omega arith)))
]

pairs :
    (x s0 s1 j p : ℕ)
    → x < p
    → j < p * 2
    → (c : ℕ)
    → (if x + p == j then s1 else if x == j then s0 else c)
      ≡ (if x == j % p then (if j / p % 2 == 0 then s0 else s1) else c)
pairs x s0 s1 j p a b c = elim (dec_lt j p) [
  | yes low ↦ rw (mod-eq_of_lt low, div-eq_of_lt low) (ground arith)
  | no high ↦ rw (mod_high p j b (omega arith), div_high p j b (omega arith)) (ground arith)
]

-- After doubling from 2 ^ g entries the two entries of x hold the new blocks, and every other entry
-- holds what its lower g bits led to before.
pub doubled_lem :
    (dir : Directory) (g x s0 s1 : ℕ)
    → length dir.entries ≡ 2 ^ g
    → dir.capacity ≡ 2 ^ g
    → x < 2 ^ g
    → (length (doubled dir x s0 s1) ≡ 2 ^ suc g)
      × ((j : ℕ)
          → j < 2 ^ suc g
          → get_or (doubled dir x s0 s1) j 0 ≡ (
              if x == j % 2 ^ g
              then (if j / 2 ^ g % 2 == 0 then s0 else s1)
              else get_or dir.entries (j % 2 ^ g) 0))
unfolding doubled
doubled_lem dir g x s0 s1 size cap inside =
    let es = dir.entries ++ dir.entries in
    let whole : length es ≡ 2 ^ suc g =
      length-append dir.entries dir.entries ∙ rw pow-suc (omega arith) in
    (
      rw (length-set, length-set) whole,
      λ j b.
          let b' : j < 2 ^ g * 2 = rw pow-suc at b in
          rw
            (
              cap,
              get_or-set (set es x s0) (x + 2 ^ g) j s1 0
                  (rw length-set (omega (arith, whole, pow-suc 2 g))),
              get_or-set es x j s0 0 (omega (arith, whole, pow-suc 2 g)),
              get_or-twice dir.entries (2 ^ g) j size b',
            )
            (pairs x s0 s1 j (2 ^ g) inside b' (get_or dir.entries (j % 2 ^ g) 0)),
    )
