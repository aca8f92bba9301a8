-- ===== src/ExtendibleHash/Removing.antt =====
-- `Delete` and `InsertOnly`.
use rec_store.Prelude.{
  ℕ, ◌+◌, ◌≤◌, ◌<◌, ◌≡◌, ◌≢◌, refl, sym, ap, subst, ◌↔◌, ◌∙◌, arith, Bool, true, false, not, ◌&&◌,
  none, some, List, ◌==◌, if◌then◌else◌, Bool-cases, Option-cases, inl, inr, ==_iff, ℕ_discrete,
  set, ◌⊎◌,
}
use rec_store.Prelude.Int.{ℤ, negsuc, pos, is_neg, pred_int, suc_int}
use rec_store.ExtendibleHash.Slots.{Pair, invalid, rewrite_first}
use rec_store.ExtendibleHash.Slots.Counting.{
  count, extract-eq-zero, rewrite_first-eq-none, rewrite_first-pos, count-rewrite,
  extract-rewrite_ne, length-rewrite,
}
use rec_store.ExtendibleHash.Slots.Writes.{store-cases}
use rec_store.ExtendibleHash.Block
use rec_store.ExtendibleHash.Block.{Block, num_slot, store}
use rec_store.ExtendibleHash.Ops.{ExtendibleHash, block_at, locate, get, delete, insert_only}
use rec_store.ExtendibleHash.Invariant.{address, IsValid, home, home-lt, locate-home}
use rec_store.ExtendibleHash.Storing.{
  target, stored, refilled, stored-IsValid, get-stored, get-target, stored-Stored, other_block,
}
use rec_store.ExtendibleHash.Put.{Puts, try_insert-stored, refused-IsValid, get-refused}

abbrev erase : Pair → Pair
erase s = record s { key = invalid }

module _ (h : ℕ → ℕ) {t : ExtendibleHash} (v : IsValid h t) (key : ℕ) where
  target_idle : (target h v key).sema ≡ pos 0
  target_idle = (v.fits (home h t key) (home-lt h t key)).idle

  abbrev released : Bool → List Pair → ℤ → Bool × Block
  released r ts z =
      let b : Block = record (target h v key) { slots = ts; sema = pred_int (suc_int z) } in (r, b)

  delete-found :
      (i : ℕ) (ts : List Pair)
      → rewrite_first key erase (target h v key).slots ≡ some (i, ts)
      → Block.delete (target h v key) key ≡ (true, refilled h v key ts)
  unfolding Block.delete
  delete-found i ts e = rw (target_idle, e) (ap (released true ts) target_idle)

  delete-absent :
      rewrite_first key erase (target h v key).slots ≡ none
      → Block.delete (target h v key) key ≡ (false, refilled h v key (target h v key).slots)
  unfolding Block.delete
  delete-absent e = rw (target_idle, e) (ap (released false (target h v key).slots) target_idle)

  -- What `Delete` does with the answer of the block at an address.
  abbrev after : ℕ → Bool × Block → Bool × ExtendibleHash
  after a r =
      let t' : ExtendibleHash = record t { heap = set t.heap a r.1 } in
      let again : Bool × ExtendibleHash =
        let target' = locate t' (h key) in
        let (success', b') = Block.delete (block_at t' target') key in
        (success', record t' { heap = set t'.heap target' b' }) in
      if not r.0 && is_neg r.1.sema then again else (r.0, t')

  delete-after :
      (r : Bool × Block)
      → Block.delete (target h v key) key ≡ r
      → delete h t key ≡ after (address t (home h t key)) r
  unfolding delete
  delete-after r e =
      ap (λ a. after a (Block.delete (block_at t a) key)) (locate-home h v key)
      ∙ ap (after (address t (home h t key))) e

  -- The slots with the key's first slot freed: the key is gone, and every other key reads as before.
  erased-stored :
      (i : ℕ) (ts : List Pair)
      → key ≢ invalid
      → rewrite_first key erase (target h v key).slots ≡ some (i, ts)
      → IsValid h (stored h v key ts)
        × ((q : ℕ)
            → q ≢ invalid
            → get h (stored h v key ts) q ≡ (if key == q then 0 else get h t q))
  erased-stored i ts valid e =
      let ss = (target h v key).slots in
      let f = v.fits (home h t key) (home-lt h t key) in
      let to : (s : Pair) → s.key ≡ key → (erase s).key ≡ invalid = λ s _. refl in
      let counts : (q : ℕ) → q ≢ invalid → count q ts + (if key == q then 1 else 0) ≡ count q ss =
        λ q n. ground (arith, count-rewrite key erase invalid to q ss i ts e) in
      let size = (length-rewrite key erase invalid to ss i ts e).0 in
      let once : (q : ℕ) → q ≢ invalid → count q ts ≤ 1 =
        λ q n. omega (arith, counts q n, f.once q n) in
      let placed : (q : ℕ) → q ≢ invalid → 0 < count q ts → (q ≡ key) ⊎ (0 < count q ss) =
        λ q n c. inr (omega (arith, counts q n)) in
      (
        stored-IsValid h v key ts size once placed,
        λ q n.
            get-stored h v key ts size once placed q
            ∙ elim (Bool-cases (address t (home h t key) == address t (home h t q))) [
              | inr b ↦ rw b (other_block h v key q b 0)
              | inl b ↦
                  rw (b, get-target h v key q ((==_iff _ _).0 b))
                    (elim (ℕ_discrete key q) [
                      | yes same ↦
                          extract-eq-zero q ts (ground (arith, counts q n, f.once q n))
                          ∙ ground arith
                      | no other ↦
                          extract-rewrite_ne key erase invalid to q ss i ts e other (λ z. n (sym z))
                          ∙ ground arith
                    ])
            ],
      )

  -- `Delete` on a valid index: it finds the key exactly if its block holds it, the index stays
  -- valid, the key then reads as NONE and every other key as before.
  pub delete_lem :
      key ≢ invalid
      → (((delete h t key).0 ≡ true) ↔ (0 < count key (target h v key).slots))
        × IsValid h (delete h t key).1
        × ((q : ℕ) → q ≢ invalid → get h (delete h t key).1 q ≡ (if key == q then 0 else get h t q))
  delete_lem valid = elim (Option-cases (rewrite_first key erase (target h v key).slots)) [
    | inr ((i, ts), e) ↦
        let (ok, reads) = erased-stored i ts valid e in
        rw (delete-after _ (delete-found i ts e))
          ((λ _. rewrite_first-pos key erase (target h v key).slots i ts e, λ _. refl), ok, reads)
    | inl e ↦
        let z = rewrite_first-eq-none key erase (target h v key).slots e in
        rw (delete-after _ (delete-absent e)) (
          (λ b. absurd (ground arith), λ p. absurd (omega arith)),
          refused-IsValid h v key,
          λ q n. get-refused h v key q ∙ elim (ℕ_discrete key q) [
            | no other ↦ ground arith
            | yes same ↦
                subst (λ k. get h t k ≡ (if key == k then 0 else get h t k)) same
                  (get-target h v key key refl
                    ∙ extract-eq-zero key (target h v key).slots z
                    ∙ ground arith)
          ],
        )
  ]

  insert_only-stored :
      (value : ℕ) (r : ℤ) (ts : List Pair)
      → store key value (target h v key).slots ≡ (r, ts)
      → insert_only h t key value ≡ (not (is_neg r), stored h v key ts)
  unfolding insert_only
  insert_only-stored value r ts e =
      ap (λ p. (not (is_neg p.0), p.1)) (try_insert-stored h v key value)
      ∙ ap (λ p. (not (is_neg p.0), stored h v key p.1)) e

  -- `InsertOnly` of a valid key: if it succeeds then it has done what `Put` promises; it fails only
  -- if the key is not in its block and the block is full, and then every key reads as before.
  pub insert_only_lem :
      (value : ℕ)
      → key ≢ invalid
      → (((insert_only h t key value).0 ≡ true) × Puts h t key value (insert_only h t key value).1)
        ⊎ (((insert_only h t key value).0 ≡ false)
            × (count key (target h v key).slots ≡ 0)
            × (count invalid (target h v key).slots ≡ 0)
            × IsValid h (insert_only h t key value).1
            × ((q : ℕ) → get h (insert_only h t key value).1 q ≡ get h t q))
  insert_only_lem value valid =
      let f = v.fits (home h t key) (home-lt h t key) in
      elim (store-cases key value (target h v key).slots valid (f.once key valid)) [
        | inr (i, ts, e, s) ↦
            let (ok, reads) = stored-Stored h v key value ts s in
            inl (
              rw (insert_only-stored value (pos i) ts e)
                (refl, record { valid = ok; reads = reads }))
        | inl (e, absent, full) ↦ inr (
            rw (insert_only-stored value (negsuc 0) (target h v key).slots e)
              (refl, absent, full, refused-IsValid h v key, get-refused h v key))
      ]
