-- ===== src/ExtendibleHash/Storing.antt =====
-- One call of `Block::Insert` and of `Block::Delete` on the block that a key's hash selects.
use rec_store.Prelude.{
  ℕ, ◌%◌, ◌^◌, ◌≤◌, ◌<◌, ◌≡◌, ◌≢◌, refl, sym, ap, subst, ◌∙◌, arith, false, List, ◌==◌,
  if◌then◌else◌, length, bit_and, set, Bool-cases, ◌⊎◌, inl, inr, ==_iff, ==_self, ℕ_discrete,
}
use rec_store.Prelude.Int.{pos}
use rec_store.Prelude.Bits.{bit_and-mask}
use rec_store.ExtendibleHash.Power.{mypow}
use rec_store.ExtendibleHash.Slots.{Pair, invalid, extract_slots}
use rec_store.ExtendibleHash.Slots.Counting.{count}
use rec_store.ExtendibleHash.Slots.Writes.{Stored}
use rec_store.ExtendibleHash.Block
use rec_store.ExtendibleHash.Block.{Block, depth_mask, store}
use rec_store.ExtendibleHash.Ops.{ExtendibleHash, block_at, get}
use rec_store.ExtendibleHash.Invariant.{
  address, entry, BlockFits, IsValid, home, home-lt, home-mod, get-home, entry-replaced,
  replaced-IsValid,
}

pub mypow_two : (d : ℕ) → d ≤ 63 → mypow 2 d ≡ 2 ^ d
unfolding mypow
mypow_two d h = ground arith

pub mask_lem : (d x : ℕ) → d ≤ 63 → bit_and x (depth_mask d) ≡ x % 2 ^ d
mask_lem d x h = let e : d % 2 ^ 32 ≡ d = omega arith in rw (e, mypow_two d h) (bit_and-mask d x)

module _ (h : ℕ → ℕ) {t : ExtendibleHash} (v : IsValid h t) (key : ℕ) where
  abbrev pub target : Block
  target = entry t (home h t key)

  -- The block with other slots.
  abbrev pub refilled : List Pair → Block
  refilled ts = record target { slots = ts; sema = pos 0 }

  abbrev pub stored : List Pair → ExtendibleHash
  stored ts = record t { heap = set t.heap (address t (home h t key)) (refilled ts) }

  abbrev inside : home h t key < 2 ^ t.global_depth
  inside = home-lt h t key

  target_fits : BlockFits h t.global_depth (home h t key) target
  target_fits = v.fits (home h t key) inside

  pub insert-target :
      (value : ℕ)
      → Block.insert target key value (h key)
        ≡ ((store key value target.slots).0, refilled (store key value target.slots).1)
  unfolding Block.insert
  insert-target value =
      let f = target_fits in
      let same : bit_and (h key) (depth_mask target.local_depth) ≡ target.pattern =
        mask_lem target.local_depth (h key) (omega (arith, f.shallow, v.depth))
        ∙ sym (f.pattern ∙ home-mod h t key target.local_depth f.shallow) in
      rw (f.idle, same, ==_self target.pattern) refl

  module _ (ts : List Pair) (size : length ts ≡ length target.slots)
      (once : (q : ℕ) → q ≢ invalid → count q ts ≤ 1)
      (placed : (q : ℕ)
        → q ≢ invalid
        → 0 < count q ts
        → (q ≡ key) ⊎ (0 < count q target.slots)) where
    pub stored-IsValid : IsValid h (stored ts)
    stored-IsValid =
        let f = target_fits in
        replaced-IsValid h v (home h t key) inside (refilled ts) refl (record {
          size = size ∙ f.size;
          idle = refl;
          shallow = f.shallow;
          pattern = f.pattern;
          once = once;
          placed = λ q n c. elim (placed q n c) [
            | inl e ↦ rw e (sym (home-mod h t key target.local_depth f.shallow))
            | inr o ↦ f.placed q n o
          ];
        })

    -- Every key reads the new slots, if its block is this one, and its own block else.
    pub get-stored :
        (q : ℕ)
        → get h (stored ts) q ≡ (
            if address t (home h t key) == address t (home h t q)
            then extract_slots q ts
            else get h t q)
    get-stored q =
        get-home h stored-IsValid q
        ∙ elim (Bool-cases (address t (home h t key) == address t (home h t q))) [
          | inl e ↦ rw (entry-replaced h v (home h t key) inside (refilled ts) (home h t q), e) refl
          | inr e ↦
              rw (entry-replaced h v (home h t key) inside (refilled ts) (home h t q), e)
                (sym (get-home h v q))
        ]

  -- The read of a key whose block is the target reads the target's slots.
  pub get-target :
      (q : ℕ)
      → address t (home h t key) ≡ address t (home h t q)
      → get h t q ≡ extract_slots q target.slots
  get-target q e = get-home h v q ∙ ap (λ a. extract_slots q (block_at t a).slots) (sym e)

  pub other_block :
      (q : ℕ)
      → (address t (home h t key) == address t (home h t q)) ≡ false
      → (value : ℕ) → get h t q ≡ (if key == q then value else get h t q)
  other_block q e value = elim (ℕ_discrete key q) [
    | yes same ↦
        let a = address t (home h t key) in
        let t : (a == a) ≡ false =
          subst (λ k. (a == address t (home h t k)) ≡ false) (sym same) e in
        absurd (ground (arith, t))
    | no other ↦ ground arith
  ]

  -- Storing a pair: the key reads as the value, and every other key as before.
  pub stored-Stored :
      (value : ℕ) (ts : List Pair)
      → Stored key value target.slots ts
      → IsValid h (stored ts)
        × ((q : ℕ) → q ≢ invalid → get h (stored ts) q ≡ (if key == q then value else get h t q))
  stored-Stored value ts s =
      let f = target_fits in
      let once : (q : ℕ) → q ≢ invalid → count q ts ≤ 1 =
        λ q n. ground (arith, s.counts q n, f.once q n) in
      let placed : (q : ℕ) → q ≢ invalid → 0 < count q ts → (q ≡ key) ⊎ (0 < count q target.slots) =
        λ q n c. ground (arith, s.counts q n) in
      (
        stored-IsValid ts s.size once placed,
        λ q n.
            get-stored ts s.size once placed q
            ∙ elim (Bool-cases (address t (home h t key) == address t (home h t q))) [
              | inl e ↦ rw (e, get-target q ((==_iff _ _).0 e)) (s.reads q n)
              | inr e ↦ rw e (other_block q e value)
            ],
      )
