-- ===== src/Hybrid/Heating.antt =====
-- The body of the promoting walk keeps the values (src/storage/hybrid/value.h).
use rec_store.Prelude.{
  ℕ, ◌≡◌, inl, inr, refl, ap, sym, subst, ◌∙◌, Bool, true, false, Option, none, some, List, update,
  ◌==◌, leb, if◌then◌else◌, Bool-cases, ==_self,
}
use rec_store.Pointer.{UnifiedPointer, from_raw, from_invalid, type, is_valid}
use rec_store.Hybrid.Blocks.{read_block-BlockAt}
use rec_store.Hybrid.Allocator.{Allocator, Lawful}
use rec_store.Hybrid.Store.{Store, ◌>>=◌, write_mem}
use rec_store.Hybrid.Counts.{KeptHot, write_mem-KeptHot}
use rec_store.Hybrid.Invariant
use rec_store.Hybrid.Invariant.{
  Where, gone, inside, in_memory, pointer_to, kind_of, memory_of, disk_of, Long, Suits, Keeps, Has,
  type-pointer_to, as_disk_page_id-word,
}
use rec_store.Hybrid.Landing.{Wrote, write_mem-Long, Landed-valid, null_invalid}
use rec_store.Hybrid.Promoting.{
  forget, promote_swap, promote_from, promote_typed, promote_one, Advance, is_hot,
}
use rec_store.Hybrid.Evicting.{swap_pointer-Same}

module _ {S D : Type 0} (shm : Allocator S) (ssd : Allocator D) (hash : ℕ → ℕ)
    (OwnsS : S → (ℕ → ℕ) → Type 0) (OwnsD : D → (ℕ → ℕ) → Type 0) (shm_law : Lawful shm OwnsS)
    (ssd_law : Lawful ssd OwnsD) where
  -- What the end of the walk's body for a key says of the counts h before it and h' after it.
  abbrev pub Tells : Advance → (ℕ → Option ℕ) → (ℕ → Option ℕ) → ℕ → Type 0
  Tells Advance.goes_on h h' key = h' ≡ h
  Tells Advance.breaks h h' key = Unit
  Tells Advance.dangling h h' key = is_hot (h key) ≡ true

  -- The body succeeds for a key with the counts h, and the store has the same values.
  abbrev pub SameValues : Option (Advance × Store S D) → (ℕ → Option ℕ) → ℕ → (ℕ → List ℕ) → Type 0
  SameValues r h key m =
      (b : Advance) × (t : Store S D) × (r ≡ some (b, t))
      × Has OwnsS OwnsD t m
      × Tells b h t.hot key

  -- The counts say nothing of the values.
  pub hot-Has :
      (s : Store S D) (m : ℕ → List ℕ) (h : ℕ → Option ℕ)
      → Has OwnsS OwnsD s m
      → Has OwnsS OwnsD (record s { hot = h }) m
  hot-Has s m h (place, ml, dl, k) = (
    place,
    ml,
    dl,
    record {
      owns_shm = k.owns_shm;
      owns_ssd = k.owns_ssd;
      indexed = k.indexed;
      suits = k.suits;
      memory = k.memory;
      disk = k.disk;
      lru = k.lru;
    },
  )

  module _ {s : Store S D} {place : ℕ → Where} {ml dl : ℕ → ℕ} {m : ℕ → List ℕ}
      (k : Keeps OwnsS OwnsD s place ml dl m) (key : ℕ) (hot : is_hot (s.hot key) ≡ true) where
    after_write : ℕ → UnifiedPointer × Store S D → Option (Advance × Store S D)
    after_write a r =
        if is_valid r.0
        then promote_swap shm ssd hash r.1 key (pointer_to (Invariant.on_disk a)) r.0
        else some (Advance.goes_on, r.1)

    after_swap :
        (b : Bool) (h' : ℕ → Option ℕ)
        → Tells (if b then Advance.breaks else Advance.dangling) s.hot h' key
    after_swap true h' = tt
    after_swap false h' = hot

    after_write-Same :
        (a : ℕ) (r : Option (UnifiedPointer × Store S D))
        → s.index key ≡ (pointer_to (Invariant.on_disk a)).raw
        → Wrote shm ssd OwnsS OwnsD shm_law ssd_law r s.index place m (m key)
        → KeptHot shm ssd r s.hot
        → SameValues (r >>= after_write a) s.hot key m
    unfolding after_write
    after_write-Same a r at_key (p, u, ml', dl', e, kept_index, k', inl (null, long)) kept =
        let e' : r ≡ some (from_invalid, u) = e ∙ ap (λ q. some (q, u)) null in
        (
          Advance.goes_on,
          u,
          ap (λ o. o >>= after_write a) e' ∙ rw null_invalid refl,
          (place, ml', dl', k'),
          subst (λ o. KeptHot shm ssd o s.hot) e kept,
        )
    after_write-Same a r at_key (p, u, ml', dl', e, kept_index, k', inr (w, here, landed)) kept =
        let e' : r ≡ some (pointer_to w, u) = e ∙ ap (λ q. some (q, u)) here in
        let at_key' : u.index key ≡ (pointer_to (Invariant.on_disk a)).raw =
          ap (λ f. f key) kept_index ∙ at_key in
        let (t, swapped, has) =
          swap_pointer-Same shm ssd hash OwnsS OwnsD shm_law ssd_law k' key w
            (pointer_to (Invariant.on_disk a)) at_key' landed in
        let valid =
          Landed-valid shm ssd OwnsS OwnsD shm_law ssd_law u place ml' dl' w (m key) landed in
        let same : (u.index key == (pointer_to (Invariant.on_disk a)).raw) ≡ true =
          ap (λ x. x == (pointer_to (Invariant.on_disk a)).raw) at_key' ∙ ==_self _ in
        (
          if leb t.low_watermark t.shm_used_bytes then Advance.breaks else Advance.dangling,
          forget shm ssd hash t key,
          ap (λ o. o >>= after_write a) e'
              ∙ rw valid (
                  ap
                    (λ o. o >>= λ t.
                      if u.index key == (pointer_to (Invariant.on_disk a)).raw
                      then some (
                        if leb t.low_watermark t.shm_used_bytes
                            then Advance.breaks
                            else Advance.dangling,
                        forget shm ssd hash t key,
                      )
                      else some (Advance.goes_on, t))
                    swapped
                  ∙ rw same refl),
          hot-Has t m (update t.hot key none) has,
          after_swap (leb t.low_watermark t.shm_used_bytes) (update t.hot key none),
        )

    promote_from-Same :
        (a : ℕ)
        → place key ≡ Invariant.on_disk a
        → SameValues
            (promote_from shm ssd hash s key (pointer_to (Invariant.on_disk a)) a)
            s.hot
            key
            m
    unfolding after_write
    promote_from-Same a here =
        let (pos, low, room, block) = k.disk.placed key a (ap disk_of here) in
        let (low', pos', long) = subst (λ u. Suits u (m key)) here (k.suits key) in
        let value = read_block-BlockAt s.disk a (m key) block in
        let at_key = k.indexed key ∙ ap (λ u. (pointer_to u).raw) here in
        subst (λ v. SameValues (write_mem shm ssd s key v >>= after_write a) s.hot key m)
          (sym value)
          (after_write-Same a (write_mem shm ssd s key (m key)) at_key
            (write_mem-Long shm ssd OwnsS OwnsD shm_law ssd_law k key (m key) long)
            (write_mem-KeptHot shm ssd s key (m key)))

    forgets : SameValues (some (Advance.dangling, forget shm ssd hash s key)) s.hot key m
    forgets = (
      Advance.dangling,
      forget shm ssd hash s key,
      refl,
      hot-Has s m (update s.hot key none) (place, ml, dl, k),
      hot,
    )

    promote_typed-Same :
        (u : Where)
        → place key ≡ u
        → Suits u (m key)
        → SameValues (promote_typed shm ssd hash (kind_of u) s key (pointer_to u)) s.hot key m
    promote_typed-Same gone here suit = forgets
    promote_typed-Same (inside bs) here suit = forgets
    promote_typed-Same (in_memory a) here suit = forgets
    promote_typed-Same (Invariant.on_disk a) here suit =
        rw (as_disk_page_id-word a suit.0) (promote_from-Same a here)

    promote_one-hot :
        SameValues
          (promote_typed shm ssd hash
            (type (from_raw (s.index key)))
            s
            key
            (from_raw (s.index key)))
          s.hot
          key
          m
    unfolding from_raw
    promote_one-hot =
        let same : promote_typed shm ssd hash (type (from_raw (s.index key))) s key
              (from_raw (s.index key))
            ≡ promote_typed shm ssd hash (kind_of (place key)) s key (pointer_to (place key)) =
          ap
            (λ r.
              let p : UnifiedPointer = record { raw = r } in
              promote_typed shm ssd hash (type p) s key p)
            (k.indexed key)
          ∙ ap (λ y. promote_typed shm ssd hash y s key (pointer_to (place key)))
              (type-pointer_to (place key) (m key) (k.suits key)) in
        subst (λ o. SameValues o s.hot key m) (sym same)
          (promote_typed-Same (place key) refl (k.suits key))

  pub promote_one-Same :
      {s : Store S D} {place : ℕ → Where} {ml dl : ℕ → ℕ} {m : ℕ → List ℕ}
      → Keeps OwnsS OwnsD s place ml dl m
      → (key : ℕ) → SameValues (promote_one shm ssd hash s key) s.hot key m
  unfolding promote_one
  promote_one-Same {s} {place} {ml} {dl} k key = elim (Bool-cases (is_hot (s.hot key))) [
    | inr e ↦ (Advance.goes_on, s, rw e refl, (place, ml, dl, k), refl)
    | inl e ↦ rw e (promote_one-hot k key e)
  ]
