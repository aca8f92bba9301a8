-- ===== src/ExtendibleHash/Slots/Writes.antt =====
-- The two ways in which a block stores a pair: `Insert`'s loops and `Insert4split`.
use rec_store.Prelude.{
  ℕ, Bool, ◌+◌, ◌≤◌, ◌<◌, ◌≡◌, ◌≢◌, refl, arith, some, List, ◌==◌, length, if◌then◌else◌,
  Option-cases, inl, inr, ℕ_discrete, ◌⊎◌, sym,
}
use rec_store.Prelude.Int.{pos, negsuc}
use rec_store.ExtendibleHash.Slots.{Pair, invalid, rewrite_first, extract_slots, insert4split}
use rec_store.ExtendibleHash.Slots.Counting.{
  count, tally, tally-rewrite, rewrite_first-eq-none, rewrite_first-pos, count-rewrite,
  extract-rewrite_ne, extract-rewrite_new, length-rewrite,
}
use rec_store.ExtendibleHash.Block.{store}

-- The key now reads as the value, and every other key as before; keys stay distinct.
pub record Stored (key value : ℕ) (ss ts : List Pair) : Type 0 where
  pub size : length ts ≡ length ss
  pub reads :
      (q : ℕ) → q ≢ invalid → extract_slots q ts ≡ (if key == q then value else extract_slots q ss)
  pub counts : (q : ℕ) → q ≢ invalid → count q ts ≡ (if key == q then 1 else count q ss)

store_over-Stored :
    (key value : ℕ) (ss : List Pair) (i : ℕ) (ts : List Pair)
    → count key ss ≤ 1
    → rewrite_first key (λ s. record s { value = value }) ss ≡ some (i, ts)
    → Stored key value ss ts
store_over-Stored key value ss i ts once e =
    let f = λ (s : Pair). record s { value = value } in
    let to : (s : Pair) → s.key ≡ key → (f s).key ≡ key = λ s h. h in
    record {
      size = (length-rewrite key f key to ss i ts e).0;
      reads = λ q n. elim (ℕ_discrete key q) [
        | yes same ↦
            ground (arith, extract-rewrite_new key f key to value ss i ts (λ s. refl) e (inl refl))
        | no other ↦ ground (arith, extract-rewrite_ne key f key to q ss i ts e other other)
      ];
      counts = λ q n.
          ground (arith, count-rewrite key f key to q ss i ts e, rewrite_first-pos key f ss i ts e);
    }

-- A free slot takes a pair whose key the slots do not hold.
pub record Placed (key value : ℕ) (ss ts : List Pair) : Type 0 where
  pub size : length ts ≡ length ss
  pub reads :
      (q : ℕ)
      → q ≢ invalid
      → ((key ≢ q) ⊎ (count q ss ≡ 0))
      → extract_slots q ts ≡ (if key == q then value else extract_slots q ss)
  pub counts : (q : ℕ) → q ≢ invalid → count q ts ≡ (if key == q then 1 else 0) + count q ss
  pub tallies :
      (p : ℕ → Bool)
      → tally p ts ≡ (if key == invalid then 0 else if p key then 1 else 0) + tally p ss
  pub room : count invalid ts + (if key == invalid then 0 else 1) ≡ count invalid ss

place-Placed :
    (key value : ℕ) (ss : List Pair) (i : ℕ) (ts : List Pair)
    → rewrite_first invalid (λ s. record { key = key; value = value }) ss ≡ some (i, ts)
    → Placed key value ss ts
place-Placed key value ss i ts e =
    let f = λ (s : Pair). let t : Pair = record { key = key; value = value } in t in
    let to : (s : Pair) → s.key ≡ invalid → (f s).key ≡ key = λ s h. refl in
    record {
      size = (length-rewrite invalid f key to ss i ts e).0;
      reads = λ q n a. elim (ℕ_discrete key q) [
        | yes same ↦ elim a [
          | inl other ↦ absurd (other same)
          | inr fresh ↦ ground (
            arith,
            extract-rewrite_new invalid f key to value ss i ts (λ s. refl) e (inr (rw same fresh)),
          )
        ]
        | no other ↦
            ground (arith, extract-rewrite_ne invalid f key to q ss i ts e (λ h. n (sym h)) other)
      ];
      counts = λ q n. ground (arith, count-rewrite invalid f key to q ss i ts e);
      tallies = λ p. ground (arith, tally-rewrite invalid f key to p ss i ts e);
      room = ground (arith, count-rewrite invalid f key to invalid ss i ts e);
    }

fresh_or_other : (key q : ℕ) (ss : List Pair) → count key ss ≡ 0 → (key ≢ q) ⊎ (count q ss ≡ 0)
fresh_or_other key q ss h = elim (ℕ_discrete key q) [
  | yes same ↦ inr (rw (← same) h)
  | no other ↦ inl other
]

-- `store` fails exactly for a new key with no free slot; else it has stored the pair.
pub store-cases :
    (key value : ℕ) (ss : List Pair)
    → key ≢ invalid
    → count key ss ≤ 1
    → ((store key value ss ≡ (negsuc 0, ss)) × (count key ss ≡ 0) × (count invalid ss ≡ 0))
      ⊎ ((i : ℕ) × (ts : List Pair) × (store key value ss ≡ (pos i, ts)) × Stored key value ss ts)
unfolding store
store-cases key value ss valid once =
    let f = λ (s : Pair). record s { value = value } in
    let g = λ (s : Pair). let t : Pair = record { key = key; value = value } in t in
    elim (Option-cases (rewrite_first key f ss)) [
      | inr ((i, ts), e) ↦ inr (i, ts, rw (e, store), store_over-Stored key value ss i ts once e)
      | inl absent ↦
          let none_left = rewrite_first-eq-none key f ss absent in
          elim (Option-cases (rewrite_first invalid g ss)) [
            | inl full ↦
                inl (rw (absent, full, store), none_left, rewrite_first-eq-none invalid g ss full)
            | inr ((i, ts), e) ↦
                let p = place-Placed key value ss i ts e in
                inr (
                  i,
                  ts,
                  rw (absent, e, store),
                  record {
                    size = p.size;
                    reads = λ q n. p.reads q n (fresh_or_other key q ss none_left);
                    counts = λ q n. ground (arith, p.counts q n);
                  },
                )
          ]
    ]

-- `Insert4split` into slots with room; an unused slot of the old block needs none.
pub insert4split-Placed :
    (key value : ℕ) (ss : List Pair)
    → (key ≢ invalid → 0 < count invalid ss)
    → Placed key value ss (insert4split key value ss)
unfolding insert4split
insert4split-Placed key value ss room =
    let g = λ (s : Pair). let t : Pair = record { key = key; value = value } in t in
    elim (Option-cases (rewrite_first invalid g ss)) [
      | inr ((i, ts), e) ↦ rw (e, insert4split) (place-Placed key value ss i ts e)
      | inl full ↦
          let z = rewrite_first-eq-none invalid g ss full in
          let unused : key ≡ invalid = elim (ℕ_discrete key invalid) [
            | yes same ↦ same
            | no other ↦ absurd (omega (arith, room other))
          ] in
          rw (full, insert4split)
            (record {
              size = refl;
              reads = λ q n a. ground arith;
              counts = λ q n. ground arith;
              tallies = λ p. ground arith;
              room = ground arith;
            })
    ]
