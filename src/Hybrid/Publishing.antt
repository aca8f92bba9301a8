-- ===== src/Hybrid/Publishing.antt =====
-- A key's value moves to where it has been written, and its old block is freed
-- (src/storage/hybrid/value.h).
use rec_store.Prelude.{
  ℕ, ◌<◌, ◌≡◌, ◌≢◌, inl, inr, refl, ap, sym, ◌∙◌, arith, true, false, Option, some, List, update,
  ◌==◌, ℕ_discrete,
}
use rec_store.Pointer.{UnifiedPointer, from_raw}
use rec_store.Hybrid.Allocator.{Allocator, Lawful}
use rec_store.Hybrid.Side.{Side-free}
use rec_store.Hybrid.Store.{Store, ◌>>=◌, free_memory, free_disk, free_typed, free_pointer, publish}
use rec_store.Hybrid.Invariant.{
  Where, gone, inside, in_memory, on_disk, pointer_to, memory_of, disk_of, Suits, Keeps, Has,
  type-pointer_to, raw-ne-zero, as_memory_pointer-word, as_disk_page_id-word,
}
use rec_store.Hybrid.Landing.{Landed}
use rec_store.Hybrid.Indexing.{Elsewhere-update, update_here, indexed_at, indexed-Moved}

module _ {S D : Type 0} (shm : Allocator S) (ssd : Allocator D) (OwnsS : S → (ℕ → ℕ) → Type 0)
    (OwnsD : D → (ℕ → ℕ) → Type 0) (shm_law : Lawful shm OwnsS) (ssd_law : Lawful ssd OwnsD) where
  -- A live block at which no key's value stands.
  abbrev pub Unused : (ℕ → Where) → (ℕ → ℕ) → (ℕ → ℕ) → Where → Type 0
  Unused place ml dl (in_memory a) = ((j : ℕ) → memory_of (place j) ≢ some a) × (0 < ml a)
  Unused place ml dl (on_disk a) = ((j : ℕ) → disk_of (place j) ≢ some a) × (0 < dl a)
  Unused place ml dl _ = Unit

  -- An operation succeeds, and the store has the given values.
  abbrev pub Leads : Option (Store S D) → (ℕ → List ℕ) → Type 0
  Leads r m = (t : Store S D) × (r ≡ some t) × Has OwnsS OwnsD t m

  -- FreePointer of an unused block, or of a null or inline pointer.
  pub free_pointer-Leads :
      {s : Store S D} {place : ℕ → Where} {ml dl : ℕ → ℕ} {m : ℕ → List ℕ}
      → Keeps OwnsS OwnsD s place ml dl m
      → (w : Where) (v : List ℕ) → Suits w v
      → Unused place ml dl w
      → Leads (free_pointer shm ssd (pointer_to w) s) m
  unfolding free_pointer
  free_pointer-Leads {s} {place} {ml} {dl} {m} k gone v suit unused = (
    s,
    ap (λ t. free_typed shm ssd t (pointer_to gone) s) (type-pointer_to gone v suit),
    (place, ml, dl, k),
  )
  free_pointer-Leads {s} {place} {ml} {dl} {m} k (inside bs) v suit unused = (
    s,
    ap (λ t. free_typed shm ssd t (pointer_to (inside bs)) s) (type-pointer_to (inside bs) v suit),
    (place, ml, dl, k),
  )
  free_pointer-Leads {s} {place} {ml} {dl} {m} k (in_memory a) v suit (free, live) = (
    free_memory shm ssd s a,
    ap (λ t. free_typed shm ssd t (pointer_to (in_memory a)) s)
          (type-pointer_to (in_memory a) v suit)
        ∙ ap (λ o. o >>= λ p. some (free_memory shm ssd s p)) (as_memory_pointer-word a suit.0),
    (
      place,
      update ml a 0,
      dl,
      record {
        owns_shm = shm_law.takes s.shm_manage ml a k.owns_shm live;
        owns_ssd = k.owns_ssd;
        indexed = k.indexed;
        suits = k.suits;
        memory = Side-free k.memory a free;
        disk = k.disk;
        lru = k.lru;
      },
    ),
  )
  free_pointer-Leads {s} {place} {ml} {dl} {m} k (on_disk a) v suit (free, live) = (
    free_disk shm ssd s a,
    ap (λ t. free_typed shm ssd t (pointer_to (on_disk a)) s) (type-pointer_to (on_disk a) v suit)
        ∙ ap (λ o. o >>= λ p. some (free_disk shm ssd s p)) (as_disk_page_id-word a suit.0),
    (
      place,
      ml,
      update dl a 0,
      record {
        owns_shm = k.owns_shm;
        owns_ssd = ssd_law.takes s.ssd_manage dl a k.owns_ssd live;
        indexed = k.indexed;
        suits = k.suits;
        memory = k.memory;
        disk = Side-free k.disk a free;
        lru = k.lru;
      },
    ),
  )

  module _ {s : Store S D} {place : ℕ → Where} {ml dl : ℕ → ℕ} {m : ℕ → List ℕ}
      (k : Keeps OwnsS OwnsD s place ml dl m) (key : ℕ) (w : Where) (v : List ℕ)
      (landed : Landed shm ssd OwnsS OwnsD shm_law ssd_law s place ml dl w v) where
    -- A key that stands at an address after the move stood there before, and is another key.
    moved_away :
        (at : Where → Option ℕ) (a : ℕ)
        → at w ≢ some a
        → ((j : ℕ) → at (place j) ≡ some a → j ≡ key)
        → (j : ℕ) → at (update place key w j) ≢ some a
    moved_away at a new_place alone j e = elim (ℕ_discrete key j) [
      | yes z ↦
          new_place
            (sym (ap at (update_here place key w)) ∙ ap (λ i. at (update place key w i)) z ∙ e)
      | no ne ↦
          let same = Elsewhere-update at place key w j (λ z. ne (sym z)) in
          ne (sym (alone j (sym same ∙ e)))
    ]

    new_memory :
        (a : ℕ) (u : Where)
        → place key ≡ in_memory a
        → Landed shm ssd OwnsS OwnsD shm_law ssd_law s place ml dl u v
        → memory_of u ≢ some a
    new_memory a gone here h = absurd h
    new_memory a (inside bs) here h = λ e. cc e
    new_memory a (in_memory b) here h = λ e. h.3 key (ap memory_of here ∙ sym e)
    new_memory a (on_disk b) here h = λ e. cc e

    new_disk :
        (a : ℕ) (u : Where)
        → place key ≡ on_disk a
        → Landed shm ssd OwnsS OwnsD shm_law ssd_law s place ml dl u v
        → disk_of u ≢ some a
    new_disk a gone here h = absurd h
    new_disk a (inside bs) here h = λ e. cc e
    new_disk a (in_memory b) here h = λ e. cc e
    new_disk a (on_disk b) here h = λ e. h.3 key (ap disk_of here ∙ sym e)

    old-Unused : (u : Where) → place key ≡ u → Unused (update place key w) ml dl u
    old-Unused gone here = tt
    old-Unused (inside bs) here = tt
    old-Unused (in_memory a) here =
        let (pos, low, room, block) = k.memory.placed key a (ap memory_of here) in
        (
          moved_away memory_of a (new_memory a w here landed)
              (λ j e. k.memory.unique j key a e (ap memory_of here)),
          omega (arith, room),
        )
    old-Unused (on_disk a) here =
        let (pos, low, room, block) = k.disk.placed key a (ap disk_of here) in
        (
          moved_away disk_of a (new_disk a w here landed)
              (λ j e. k.disk.unique j key a e (ap disk_of here)),
          omega (arith, room),
        )

    -- The index is set to where the value has landed, and the old block is freed.
    pub freed-Leads :
        Leads
          (free_pointer shm ssd
            (from_raw (s.index key))
            (indexed_at shm ssd OwnsS OwnsD shm_law ssd_law k key w))
          (update m key v)
    unfolding from_raw
    freed-Leads =
        let moved = indexed-Moved shm ssd OwnsS OwnsD shm_law ssd_law k key w v landed in
        let (t, done, has) =
          free_pointer-Leads moved (place key) (m key) (k.suits key)
            (old-Unused (place key) refl) in
        (
          t,
          ap
                (λ r.
                  let p : UnifiedPointer = record { raw = r } in
                  free_pointer shm ssd p (indexed_at shm ssd OwnsS OwnsD shm_law ssd_law k key w))
                (k.indexed key)
              ∙ done,
          has,
        )

    pub publish-Leads : Leads (publish shm ssd s key (pointer_to w)) (update m key v)
    unfolding publish
    publish-Leads = elim (raw-ne-zero (place key) (m key) (k.suits key)) [
      | inr ne ↦
          let old : (s.index key == 0) ≡ false = ap (λ r. r == 0) (k.indexed key) ∙ ne in
          rw old freed-Leads
      | inl (none_yet, z) ↦
          let old : (s.index key == 0) ≡ true = ap (λ r. r == 0) (k.indexed key) ∙ z in
          rw old (
            indexed_at shm ssd OwnsS OwnsD shm_law ssd_law k key w,
            refl,
            (
              update place key w,
              ml,
              dl,
              indexed-Moved shm ssd OwnsS OwnsD shm_law ssd_law k key w v landed,
            ),
          )
    ]
