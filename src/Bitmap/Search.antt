-- ===== src/Bitmap/Search.antt =====
-- The search for the first clear bit, which the slab allocator takes its entries by.
use rec_store.Prelude.{
  ℕ, suc, ◌+◌, ◌-◌, ◌*◌, ◌/◌, ◌%◌, ◌^◌, ◌<◌, ◌≡◌, refl, ap, arith, true, false, List, [], ◌∷◌, ◌==◌,
  length, get_or, set, ◌⊎◌, inl, inr, Bool-cases, dec_lt, ◌∙◌,
}
use rec_store.Prelude.Int.{ℤ, pos, negsuc}
use rec_store.Prelude.Bits.{bit, bit-complement, bit-zero}
use rec_store.Bitmap.{
  BitMap, AllWords, get, put, set_bit, complement, ctz, first_zero_from, first_zero_pos,
  set_zero_from, set_zero_pos,
}
use rec_store.Bitmap.Words.{count_trailing-IsFirstOne, IsFirstOne}
use rec_store.Bitmap.Laws.{IsValid, get-bit}

abbrev bit_at : List ℕ → ℕ → ℕ
bit_at vs m = bit (get_or vs (m / 64) 0) (m % 64)

bit_at-low : (v : ℕ) (vs : List ℕ) (m : ℕ) → m < 64 → bit_at (v ∷ vs) m ≡ bit v m
bit_at-low v vs m h =
    let q : m / 64 ≡ 0 = omega arith in let r : m % 64 ≡ m = omega arith in rw (q, r)

bit_at-high : (v : ℕ) (vs : List ℕ) (m : ℕ) → bit_at (v ∷ vs) (64 + m) ≡ bit_at vs m
bit_at-high v vs m =
    let q : (64 + m) / 64 ≡ suc (m / 64) = omega arith in
    let r : (64 + m) % 64 ≡ m % 64 = omega arith in rw (q, r)

-- The word whose complement is 0 has every bit set.
complement-zero : (v i : ℕ) → v < 2 ^ 64 → complement v ≡ 0 → i < 64 → bit v i ≡ 1
complement-zero v i h z l =
    let e : bit (complement v) i ≡ 0 = rw z (bit-zero i) in omega (arith, bit-complement 64 v i h l)

-- The search found nothing, or the first clear bit, which it has set.
Outcome : List ℕ → ℕ → ℤ × List ℕ → Type 0
Outcome vs i r =
    ((r ≡ (negsuc 0, vs)) × ((m : ℕ) → m < length vs * 64 → bit_at vs m ≡ 1))
    ⊎ ((m : ℕ) × (r ≡ (pos (i * 64 + m), set vs (m / 64) (set_bit (get_or vs (m / 64) 0) (m % 64))))
        × (m < length vs * 64)
        × (bit_at vs m ≡ 0)
        × ((j : ℕ) → j < m → bit_at vs j ≡ 1))

all_set :
    (v : ℕ) (vs : List ℕ)
    → ((i : ℕ) → i < 64 → bit v i ≡ 1)
    → (n : ℕ) → ((m : ℕ) → m < n → bit_at vs m ≡ 1)
    → (m : ℕ) → m < 64 + n
    → bit_at (v ∷ vs) m ≡ 1
all_set v vs full n rest m l = elim (dec_lt m 64) [
  | yes low ↦ bit_at-low v vs m low ∙ full m low
  | no high ↦
      let e : 64 + (m - 64) ≡ m = omega arith in
      rw e at (bit_at-high v vs (m - 64) ∙ rest (m - 64) (omega arith))
]

Outcome-skip :
    (v : ℕ) (vs : List ℕ) (i : ℕ) (r : ℤ × List ℕ)
    → ((k : ℕ) → k < 64 → bit v k ≡ 1)
    → Outcome vs (i + 1) r
    → Outcome (v ∷ vs) i (r.0, v ∷ r.1)
unfolding Outcome
Outcome-skip v vs i r full (inl (e, all)) =
    inl (ap (λ t. (t.0, v ∷ t.1)) e, λ m l. all_set v vs full (length vs * 64) all m (omega arith))
Outcome-skip v vs i r full (inr (m, e, inside, clear, before)) =
    let q : (64 + m) / 64 ≡ suc (m / 64) = omega arith in
    let s : (64 + m) % 64 ≡ m % 64 = omega arith in
    let p : (i + 1) * 64 + m ≡ i * 64 + (64 + m) = omega arith in
    inr (
      64 + m,
      rw (q, s, ← p) (ap (λ t. (t.0, v ∷ t.1)) e),
      omega arith,
      bit_at-high v vs m ∙ clear,
      all_set v vs full m before,
    )

Outcome-here :
    (v : ℕ) (vs : List ℕ) (i c : ℕ)
    → v < 2 ^ 64
    → c < 64
    → IsFirstOne (complement v) c
    → Outcome (v ∷ vs) i (pos (i * 64 + c), set_bit v c ∷ vs)
unfolding Outcome
Outcome-here v vs i c h l first =
    let q : c / 64 ≡ 0 = omega arith in
    let s : c % 64 ≡ c = omega arith in
    inr (
      c,
      rw (q, s),
      omega arith,
      bit_at-low v vs c l ∙ omega (arith, bit-complement 64 v c h l, first.one),
      λ j b.
          bit_at-low v vs j (omega arith)
          ∙ omega (arith, bit-complement 64 v j h (omega arith), first.below j b),
    )

set_zero_from-Outcome : (vs : List ℕ) (i : ℕ) → AllWords vs → Outcome vs i (set_zero_from vs i)
unfolding set_zero_from
set_zero_from-Outcome [] i h = unfold Outcome in inl (refl, λ m l. absurd (omega arith))
set_zero_from-Outcome (v ∷ vs) i h = elim (Bool-cases (complement v == 0)) [
  | inl full ↦ rw full (
      Outcome-skip v vs i (set_zero_from vs (i + 1))
        (λ k l. complement-zero v k h.0 (ground arith) l) (set_zero_from-Outcome vs (i + 1) h.1))
  | inr room ↦
      let (first, inside) =
        count_trailing-IsFirstOne 64 (complement v) (omega arith) (ground arith) in
      rw room (Outcome-here v vs i (ctz (complement v)) h.0 inside first)
]

first_zero_from-eq : (vs : List ℕ) (i : ℕ) → first_zero_from vs i ≡ (set_zero_from vs i).0
unfolding first_zero_from set_zero_from
first_zero_from-eq [] i = refl
first_zero_from-eq (v ∷ vs) i = ground (arith, first_zero_from-eq vs (i + 1))

-- What `SetZeroPos` promises of its result.
abbrev pub FirstClear : BitMap → ℤ × BitMap → Type 0
FirstClear b r =
    ((r ≡ (negsuc 0, b)) × ((m : ℕ) → m < b.n → get b m ≡ true))
    ⊎ ((m : ℕ) × (r ≡ (pos m, put b m))
        × (m < b.n)
        × (get b m ≡ false)
        × ((j : ℕ) → j < m → get b j ≡ true))

Outcome-FirstClear :
    (b : BitMap) (r : ℤ × List ℕ)
    → IsValid b
    → Outcome b.bits 0 r
    → FirstClear b (r.0, record b { bits = r.1 })
unfolding Outcome put
Outcome-FirstClear b r v (inl (e, all)) = inl (
  ap (λ t. (t.0, record b { bits = t.1 })) e,
  λ m l. get-bit b m ∙ ap (λ t. t == 1) (all m (omega (arith, v.whole))),
)
Outcome-FirstClear b r v (inr (m, e, inside, clear, before)) = inr (
  m,
  ap (λ t. (t.0, record b { bits = t.1 })) e ∙ ap (λ k. (pos k, put b m)) (omega arith),
  omega (arith, v.whole),
  get-bit b m ∙ ap (λ t. t == 1) clear,
  λ j l. get-bit b j ∙ ap (λ t. t == 1) (before j l),
)

-- On a valid map `SetZeroPos` returns -1, with the map unchanged, exactly when every bit is set; otherwise it
-- returns the lowest clear position, and the map is the one that `Set` of that position gives.
-- `FirstZeroPos` returns the same number.
pub set_zero_pos_lem :
    (b : BitMap)
    → IsValid b
    → (first_zero_pos b ≡ (set_zero_pos b).0) × FirstClear b (set_zero_pos b)
unfolding first_zero_pos set_zero_pos
set_zero_pos_lem b v =
    let r = set_zero_from b.bits 0 in
    (first_zero_from-eq b.bits 0, Outcome-FirstClear b r v (set_zero_from-Outcome b.bits 0 v.words))
