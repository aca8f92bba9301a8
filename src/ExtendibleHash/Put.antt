-- ===== src/ExtendibleHash/Put.antt =====
-- `Put` ends and stores its pair, however many blocks it has to split.
use rec_store.Prelude.{
  ℕ, zero, suc, ◌-◌, ◌%◌, ◌^◌, ◌≤◌, ◌<◌, ◌≡◌, ◌≢◌, refl, sym, ap, subst, ◌∙◌, arith, Bool, true,
  Option, none, some, List, [], ◌∷◌, ◌==◌, if◌then◌else◌, Bool-cases, ◌⊎◌, inl, inr, ==_iff,
  ==_self, dec_lt, set,
}
use rec_store.Prelude.Int.{ℤ, negsuc, pos}
use rec_store.Prelude.Bits.{mod-mod_pow}
use rec_store.ExtendibleHash.Slots.{Pair, invalid, num_elem}
use rec_store.ExtendibleHash.Slots.Counting.{count, tally, length-num_elem}
use rec_store.ExtendibleHash.Slots.Writes.{store-cases}
use rec_store.ExtendibleHash.Block
use rec_store.ExtendibleHash.Block.{Block, num_slot, store}
use rec_store.ExtendibleHash.Ops.{
  ExtendibleHash, block_at, locate, get, try_insert, insert, split_full,
}
use rec_store.ExtendibleHash.Invariant.{
  address, entry, IsValid, home, home-lt, home-mod, locate-home, entry-replaced,
}
use rec_store.ExtendibleHash.Storing.{
  target, stored, insert-target, stored-IsValid, get-stored, get-target, stored-Stored,
}
use rec_store.ExtendibleHash.Splits.Step.{Splits, split_full-Splits}

-- A test that every stored key passes counts all the elements.
tally-num_elem :
    (p : ℕ → Bool) (ss : List Pair)
    → ((q : ℕ) → q ≢ invalid → 0 < count q ss → p q ≡ true)
    → tally p ss ≡ num_elem ss
unfolding tally num_elem count
tally-num_elem p [] h = refl
tally-num_elem p (s ∷ ss) h =
    let rest = tally-num_elem p ss (λ q n c. h q n (ground arith)) in
    elim (Bool-cases (s.key == invalid)) [
      | inl unused ↦ ground arith
      | inr used ↦ ground (arith, h s.key (ground arith) (ground arith))
    ]

module _ (h : ℕ → ℕ) where
  -- The keys that share the d lower bits of their hash with key k.
  abbrev pub collides : ℕ → ℕ → ℕ → Bool
  collides d k q = h q % 2 ^ d == h k % 2 ^ d

  -- The block of k holds fewer than 16 keys that share d hash bits with k.
  abbrev pub HasRoom : ℕ → ℕ → ExtendibleHash → Type 0
  HasRoom d k t = tally (collides d k) (entry t (home h t k)).slots < num_slot

  module _ {t : ExtendibleHash} (v : IsValid h t) (k : ℕ) where
    -- A full block with room at depth d is not yet that deep.
    full-shallow :
        (d : ℕ)
        → HasRoom d k t
        → count invalid (target h v k).slots ≡ 0
        → (target h v k).local_depth < d
    full-shallow d room full = elim (dec_lt (target h v k).local_depth d) [
      | yes shallow ↦ shallow
      | no deep ↦
          let x = home h t k in
          let f = v.fits x (home-lt h t k) in
          let l = (target h v k).local_depth in
          let all : (q : ℕ)
              → q ≢ invalid
              → 0 < count q (target h v k).slots
              → collides d k q ≡ true =
            λ q n c. (==_iff _ _).1 (
              sym (mod-mod_pow d l (h q) (omega arith))
              ∙ ap (λ r. r % 2 ^ d) (f.placed q n c ∙ home-mod h t k l f.shallow)
              ∙ mod-mod_pow d l (h k) (omega arith)) in
          absurd (
            omega (
              arith,
              tally-num_elem (collides d k) (target h v k).slots all,
              length-num_elem (target h v k).slots,
              f.size,
            ))
    ]

    abbrev pub refused : ExtendibleHash
    refused = stored h v k (target h v k).slots

    -- The block that refused the pair is as it was.
    pub refused-IsValid : IsValid h refused
    refused-IsValid =
        stored-IsValid h v k (target h v k).slots refl (v.fits (home h t k) (home-lt h t k)).once
          (λ q n c. inr c)

    pub get-refused : (q : ℕ) → get h refused q ≡ get h t q
    get-refused q =
        get-stored h v k (target h v k).slots refl (v.fits (home h t k) (home-lt h t k)).once
          (λ q n c. inr c) q
        ∙ elim (Bool-cases (address t (home h t k) == address t (home h t q))) [
          | inl e ↦ rw e (sym (get-target h v k q ((==_iff _ _).0 e)))
          | inr e ↦ rw e refl
        ]

    entry-refused : entry refused (home h t k) ≡ record (target h v k) { sema = pos 0 }
    entry-refused =
        entry-replaced h v (home h t k) (home-lt h t k) _ (home h t k)
        ∙ rw (==_self (address t (home h t k))) refl

  -- What `Put` promises: a valid index, in which the key reads as the value and every other key as
  -- before.
  pub record Puts (t : ExtendibleHash) (key value : ℕ) (u : ExtendibleHash) : Type 0 where
    pub valid : IsValid h u
    pub reads : (q : ℕ) → q ≢ invalid → get h u q ≡ (if key == q then value else get h t q)

  module _ {t : ExtendibleHash} (v : IsValid h t) (key value : ℕ) where
    pub try_insert-stored : try_insert h t key value ≡ (
      (store key value (target h v key).slots).0,
      stored h v key (store key value (target h v key).slots).1,
    )
    unfolding try_insert
    try_insert-stored =
        ap (attempt) (locate-home h v key)
        ∙ ap
            (λ r.
              let u : ExtendibleHash = record t {
                heap = set t.heap (address t (home h t key)) r.1;
              } in
              (r.0, u))
            (insert-target h v key value)
      where
        attempt : ℕ → ℤ × ExtendibleHash
        attempt a =
            let (ret, b) = Block.insert (block_at t a) key value (h key) in
            (ret, record t { heap = set t.heap a b })

    -- What `Insert` does after the call.
    abbrev resume : ℕ → ℤ × ExtendibleHash → Option ExtendibleHash
    resume fuel r = elim r.0 [
      | pos i ↦ some r.1
      | negsuc (suc n) ↦ insert h fuel r.1 key value
      | negsuc zero ↦ elim (split_full h r.1 (h key) (locate t (h key))) [
        | none ↦ none
        | some u ↦ insert h fuel u key value
      ]
    ]

    abbrev retry : ℕ → Option ExtendibleHash → Option ExtendibleHash
    retry fuel none = none
    retry fuel (some u) = insert h fuel u key value

    insert-resume :
        (fuel : ℕ)
        → insert h (suc fuel) t key value
          ≡ resume fuel (
            (store key value (target h v key).slots).0,
            stored h v key (store key value (target h v key).slots).1,
          )
    unfolding insert
    insert-resume fuel = ap (resume fuel) try_insert-stored

    insert-stored :
        (fuel i : ℕ) (ts : List Pair)
        → store key value (target h v key).slots ≡ (pos i, ts)
        → insert h (suc fuel) t key value ≡ some (stored h v key ts)
    insert-stored fuel i ts e =
        insert-resume fuel ∙ ap (λ r. resume fuel (r.0, stored h v key r.1)) e

    insert-refused :
        (fuel : ℕ) (u : ExtendibleHash)
        → store key value (target h v key).slots ≡ (negsuc 0, (target h v key).slots)
        → split_full h (refused v key) (h key) (address t (home h t key)) ≡ some u
        → insert h (suc fuel) t key value ≡ insert h fuel u key value
    insert-refused fuel u e s =
        insert-resume fuel
        ∙ ap (λ r. resume fuel (r.0, stored h v key r.1)) e
        ∙ ap (retry fuel) (ap (split_full h (refused v key) (h key)) (locate-home h v key) ∙ s)

    -- The split after a refusal is a split of the index itself.
    refused-split :
        (target h v key).local_depth < 30
        → (u : ExtendibleHash) × (split_full h (refused v key) (h key) (address t (home h t key))
            ≡ some u)
          × Splits h key t u
    refused-split small =
        let (u, run, s) =
          split_full-Splits h (refused-IsValid v key) key
            (subst (λ b. b.local_depth < 30) (sym (entry-refused v key)) small) in
        (
          u,
          run,
          record {
            valid = s.valid;
            reads = λ q n. s.reads q n ∙ get-refused v key q;
            deeper = s.deeper ∙ ap (λ b. suc b.local_depth) (entry-refused v key);
            lighter = λ p.
                subst (λ b. tally p (entry u (home h u key)).slots ≤ tally p b.slots)
                  (entry-refused v key) (s.lighter p);
          },
        )

    -- The pair is stored, or the key's block is split and the call starts again.
    insert-cases :
        (fuel d : ℕ)
        → key ≢ invalid
        → d ≤ 30
        → HasRoom d key t
        → ((u : ExtendibleHash) × (insert h (suc fuel) t key value ≡ some u) × Puts t key value u)
          ⊎ ((u : ExtendibleHash) × (insert h (suc fuel) t key value ≡ insert h fuel u key value)
              × Splits h key t u
              × ((target h v key).local_depth < d))
    insert-cases fuel d valid small room =
        let f = v.fits (home h t key) (home-lt h t key) in
        elim (store-cases key value (target h v key).slots valid (f.once key valid)) [
          | inr (i, ts, e, s) ↦
              let (ok, reads) = stored-Stored h v key value ts s in
              inl
                (stored h v key ts, insert-stored fuel i ts e, record { valid = ok; reads = reads })
          | inl (e, absent, full) ↦
              let shallow = full-shallow v key d room full in
              let (u, run, step) = refused-split (omega arith) in
              inr (u, insert-refused fuel u e run, step, shallow)
        ]

  -- `Put` of a valid key on a valid index: if the key's block has room for it at some depth d of at
  -- most 30 hash bits, then d + 1 rounds are enough; the result is a valid index in which the key
  -- reads as the value and every other key as before.
  pub insert_total :
      (fuel : ℕ) {t : ExtendibleHash} (v : IsValid h t) (key value d : ℕ)
      → key ≢ invalid
      → d ≤ 30
      → HasRoom d key t
      → d - (entry t (home h t key)).local_depth < fuel
      → (u : ExtendibleHash) × (insert h fuel t key value ≡ some u) × Puts t key value u
  insert_total zero v key value d valid small room enough = absurd (omega arith)
  insert_total (suc fuel) {t} v key value d valid small room enough =
      elim (insert-cases v key value fuel d valid small room) [
        | inl done ↦ done
        | inr (u, run, s, shallow) ↦
            let (w, run', p) =
              insert_total fuel {t = u} s.valid key value d valid small
                (omega (arith, s.lighter (collides d key))) (omega (arith, s.deeper)) in
            (
              w,
              run ∙ run',
              record {
                valid = p.valid;
                reads = λ q n. p.reads q n ∙ ap (λ r. if key == q then value else r) (s.reads q n);
              },
            )
      ]
