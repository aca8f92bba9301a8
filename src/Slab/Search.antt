-- ===== src/Slab/Search.antt =====
-- The loop of `New` ends, and it finds a run of unused blocks if there is one.
use rec_store.Prelude.{
  ℕ, zero, suc, ◌+◌, ◌-◌, ◌*◌, ◌≤◌, ◌<◌, ◌≡◌, ap, ◌∙◌, arith, Bool, true, false, not, ◌&&◌, ◌||◌,
  none, some, List, ltb, leb, Bool-cases, Option-cases, ◌⊎◌, inl, inr, dec_lt,
}
use rec_store.Slab.State.{is_used}
use rec_store.Slab.Allocate.{Outcome, scan, search}

-- The blocks from m, k + 2 of them, are unused: room for a header and k blocks, where the next
-- block does not belong to an allocation with its header at the end.
abbrev pub Fits : List ℕ → ℕ → ℕ → Type 0
Fits ws k m = (j : ℕ) → j ≤ k + 1 → is_used ws (m + j) ≡ false

scan-none :
    (ws : List ℕ) (n m : ℕ)
    → scan ws n m ≡ none
    → (j : ℕ) → j < n
    → (is_used ws (m + j) ≡ false) × (is_used ws (m + j + 1) ≡ false)
unfolding scan
scan-none ws zero m h j l = absurd (omega arith)
scan-none ws (suc n) m h j l = elim (Bool-cases (is_used ws m || is_used ws (m + 1))) [
  | inl u ↦ absurd (ground arith)
  | inr u ↦ elim (Option-cases (scan ws n (m + 1))) [
    | inr (i, e) ↦ absurd (ground arith)
    | inl e ↦ elim (dec_lt 0 j) [
      | no z ↦ let first : j ≡ 0 = omega arith in rw first (ground arith)
      | yes p ↦
          let later : m + 1 + (j - 1) ≡ m + j = omega arith in
          rw later at (scan-none ws n (m + 1) e (j - 1) (omega arith))
    ]
  ]
]

scan-some :
    (ws : List ℕ) (n m i : ℕ)
    → scan ws n m ≡ some i
    → (i < n) × ((is_used ws (m + i) ≡ true) ⊎ (is_used ws (m + i + 1) ≡ true))
unfolding scan
scan-some ws zero m i h = absurd (ground arith)
scan-some ws (suc n) m i h = elim (Bool-cases (is_used ws m || is_used ws (m + 1))) [
  | inl u ↦ let first : i ≡ 0 = ground arith in rw first (omega arith, ground arith)
  | inr u ↦ elim (Option-cases (scan ws n (m + 1))) [
    | inl e ↦ absurd (ground arith)
    | inr (j, e) ↦
        let later : i ≡ suc j = ground arith in
        let next : m + 1 + j ≡ m + suc j = omega arith in
        let (inside, used) = scan-some ws n (m + 1) j e in rw later (omega arith, rw next at used)
  ]
]

module _ (ws : List ℕ) (bn k : ℕ) where
  -- No run from x fits below the end.
  abbrev pub Bad : ℕ → Type 0
  Bad x = x + k + 1 ≤ bn → ¬ Fits ws k x

  -- The loop finds room, or there is none.
  abbrev pub Searched : Outcome → Type 0
  Searched r =
      ((r ≡ Outcome.full) × ((x : ℕ) → Bad x))
      ⊎ ((m : ℕ) × (r ≡ Outcome.found m) × (m + k + 1 ≤ bn) × Fits ws k m)

module _ (ws : List ℕ) (bn k last : ℕ) (start : last ≤ bn) where
  -- What has been tried at a state of the outer loop, before and after it starts again from 0.
  Tried : ℕ → ℕ → ℕ → Type 0
  Tried fuel offset m =
      (m ≤ bn)
      × (((offset + last ≡ m)
            × (2 * bn + 3 ≤ fuel + m)
            × ((x : ℕ) → last ≤ x → x < m → Bad ws bn k x))
          ⊎ ((offset + last ≡ bn + m)
              × (bn + 2 ≤ fuel + m)
              × ((x : ℕ) → (last ≤ x) ⊎ (x < m) → Bad ws bn k x)))

  Fits-scan : (m : ℕ) → scan ws (k + 1) m ≡ none → Fits ws k m
  Fits-scan m e j l = elim (dec_lt j (k + 1)) [
    | yes inside ↦ (scan-none ws (k + 1) m e j inside).0
    | no end ↦
        let at_end : m + k + 1 ≡ m + j = omega arith in
        rw at_end at (scan-none ws (k + 1) m e k (omega arith)).1
  ]

  scan-Bad : (m i x : ℕ) → scan ws (k + 1) m ≡ some i → m ≤ x → x < m + i + 1 → Bad ws bn k x
  scan-Bad m i x e a b within fits =
      let (inside, used) = scan-some ws (k + 1) m i e in
      elim used [
        | inl u ↦
            let at : x + (m + i - x) ≡ m + i = omega arith in
            let v = rw at at (fits (m + i - x) (omega arith)) in ground arith
        | inr u ↦
            let at : x + (m + i + 1 - x) ≡ m + i + 1 = omega arith in
            let v = rw at at (fits (m + i + 1 - x) (omega arith)) in ground arith
      ]

  module _ (fuel offset m : ℕ) where
    abbrev tested : ℕ → Bool → Outcome
    tested i true = Outcome.found (m + i)
    tested i false = search fuel ws bn k (offset + i + 1) (m + i + 1)

    abbrev again : ℕ → Outcome
    again i = tested i (not (is_used ws (m + i)) && not (is_used ws (m + i + 1)))

    again-tested :
        (i : ℕ) (b : Bool)
        → (not (is_used ws (m + i)) && not (is_used ws (m + i + 1))) ≡ b
        → again i ≡ tested i b
    again-tested i b e = ap (tested i) e

    abbrev inner : Bool → Outcome
    inner false = search fuel ws bn k (offset + (bn - m)) 0
    inner true = let i : ℕ = elim (scan ws (k + 1) m) [ none ↦ 0 | some i ↦ i ] in again i

    abbrev outer : Bool → Outcome
    outer false = Outcome.full
    outer true = inner (leb (m + k + 1) bn)

    search-outer : (b : Bool) → ltb offset bn ≡ b → search (suc fuel) ws bn k offset m ≡ outer b
    unfolding search
    search-outer b e = ap outer e

    search-inner :
        (b : Bool)
        → offset < bn
        → leb (m + k + 1) bn ≡ b
        → search (suc fuel) ws bn k offset m ≡ inner b
    search-inner b more e = search-outer true (ground arith) ∙ ap inner e

    again-found : scan ws (k + 1) m ≡ none → again 0 ≡ Outcome.found m
    again-found e =
        let z : m + 0 ≡ m = omega arith in
        let free = scan-none ws (k + 1) m e 0 (omega arith) in
        again-tested 0 true (ground (arith, free)) ∙ ap Outcome.found z

    again-next :
        (i : ℕ)
        → scan ws (k + 1) m ≡ some i
        → again i ≡ search fuel ws bn k (offset + i + 1) (m + i + 1)
    again-next i e =
        again-tested i false
          (elim (scan-some ws (k + 1) m i e).1 [ inl u ↦ ground arith | inr u ↦ ground arith ])

  search-over :
      (fuel offset m : ℕ) → 0 < fuel → bn ≤ offset → search fuel ws bn k offset m ≡ Outcome.full
  search-over zero offset m p l = absurd (omega arith)
  search-over (suc fuel) offset m p l = search-outer fuel offset m false (ground arith)

  Tried-next :
      (fuel offset m i : ℕ)
      → m + k < bn
      → scan ws (k + 1) m ≡ some i
      → Tried (suc fuel) offset m
      → Tried fuel (offset + i + 1) (m + i + 1)
  unfolding Tried
  Tried-next fuel offset m i room e (b, t) =
      let inside = (scan-some ws (k + 1) m i e).0 in
      (
        omega arith,
        elim t [
          | inl (o, enough, seen) ↦ inl (
            omega arith,
            omega arith,
            λ x l h. elim (dec_lt x m) [
              | yes old ↦ seen x l old
              | no new ↦ scan-Bad m i x e (omega arith) h
            ],
          )
          | inr (o, enough, seen) ↦ inr (
            omega arith,
            omega arith,
            λ x l. elim (dec_lt x m) [
              | yes old ↦ seen x (inr old)
              | no new ↦ elim l [
                | inl high ↦ seen x (inl high)
                | inr h ↦ scan-Bad m i x e (omega arith) h
              ]
            ],
          )
        ],
      )

  search-Searched :
      (fuel offset m : ℕ) → Tried fuel offset m → Searched ws bn k (search fuel ws bn k offset m)
  unfolding Tried
  search-Searched zero offset m (b, inl (e, enough, seen)) = absurd (omega arith)
  search-Searched zero offset m (b, inr (e, enough, seen)) = absurd (omega arith)
  search-Searched (suc fuel) offset m (b, t) = elim (dec_lt offset bn) [
    | no over ↦ inl (
      search-outer fuel offset m false (ground arith),
      λ x within. elim t [
        | inl (e, enough, seen) ↦ seen x (omega arith) (omega arith) within
        | inr (e, enough, seen) ↦
            seen x (elim (dec_lt x m) [ yes l ↦ inr l | no l ↦ inl (omega arith) ]) within
      ],
    )
    | yes more ↦ elim (dec_lt (m + k) bn) [
      | no end ↦ rw (search-inner fuel offset m false more (ground arith)) (elim t [
        | inl (e, enough, seen) ↦ search-Searched fuel (offset + (bn - m)) 0 (
          omega arith,
          inr (
            omega arith,
            omega arith,
            λ x l within. elim l [
              | inr low ↦ absurd (omega arith)
              | inl high ↦ seen x high (omega arith) within
            ],
          ),
        )
        | inr (e, enough, seen) ↦ inl (
          search-over fuel (offset + (bn - m)) 0 (omega arith) (omega arith),
          λ x within. seen x (inr (omega arith)) within,
        )
      ])
      | yes room ↦
          rw (search-inner fuel offset m true more (ground arith))
            (elim (Option-cases (scan ws (k + 1) m)) [
              | inl e ↦ rw e (inr (m, again-found fuel offset m e, omega arith, Fits-scan m e))
              | inr (i, e) ↦
                  rw (e, again-next fuel offset m i e)
                    (search-Searched fuel (offset + i + 1) (m + i + 1)
                      (Tried-next fuel offset m i room e (b, t)))
            ])
    ]
  ]

-- The loop of `New` from any block ends within its fuel: it finds a block from which the bits of k
-- blocks, of the header and of the next block are clear, or there is no such block.
pub search-Searched_start :
    (ws : List ℕ) (bn k last : ℕ)
    → last ≤ bn
    → Searched ws bn k (search (2 * bn + 3) ws bn k 0 last)
unfolding Tried
search-Searched_start ws bn k last start =
    search-Searched ws bn k last start (2 * bn + 3) 0 last
      (start, inl (omega arith, omega arith, λ x l h. absurd (omega arith)))
