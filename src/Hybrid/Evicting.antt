-- ===== src/Hybrid/Evicting.antt =====
-- Moving values from memory to disk keeps them (src/storage/hybrid/value.h, EvictAndPromoteLoop).
use rec_store.Prelude.{
  ℕ, ◌≡◌, inl, inr, refl, ap, sym, subst, ◌∙◌, arith, true, Option, some, List, [], ◌∷◌, update,
  ◌==◌, leb, ltb, if◌then◌else◌, Bool-cases,
}
use rec_store.Pointer.{UnifiedPointer, from_raw, from_invalid, type, is_valid}
use rec_store.Hybrid.Lru.{evict_batch}
use rec_store.Hybrid.Lru.History.{evict_loop-oldest}
use rec_store.Hybrid.Lru.Recency
use rec_store.Hybrid.Blocks.{read_block-BlockAt}
use rec_store.Hybrid.Allocator.{Allocator, Lawful}
use rec_store.Hybrid.Store.{Store, Io, ◌>>=◌, touch_lru, write_disk, free_pointer}
use rec_store.Hybrid.Manager.{
  Copy, skipped, copied, copy_out, evict_copy_typed, evict_copy, swap_pointer, finish_copy,
  evict_one, evict_keys, evict_round,
}
use rec_store.Hybrid.Invariant
use rec_store.Hybrid.Invariant.{
  Where, gone, inside, in_memory, pointer_to, kind_of, memory_of, disk_of, Long, Suits, Keeps, Has,
  type-pointer_to, as_memory_pointer-word,
}
use rec_store.Hybrid.Landing.{Landed, Wrote, Landed-valid, null_invalid}
use rec_store.Hybrid.DiskLanding.{write_disk-Wrote}
use rec_store.Hybrid.Publishing.{Leads, freed-Leads}
use rec_store.Hybrid.Indexing.{indexed_at}
use rec_store.Hybrid.Serving.{touch_lru-Keeps}

module _ {S D : Type 0} (shm : Allocator S) (ssd : Allocator D) (hash : ℕ → ℕ)
    (OwnsS : S → (ℕ → ℕ) → Type 0) (OwnsD : D → (ℕ → ℕ) → Type 0) (shm_law : Lawful shm OwnsS)
    (ssd_law : Lawful ssd OwnsD) where
  -- The operation succeeds, and the store has the same values.
  abbrev Same : Option (Store S D) → (ℕ → List ℕ) → Type 0
  Same r m = Leads shm ssd OwnsS OwnsD shm_law ssd_law r m

  same_values : (m : ℕ → List ℕ) (key : ℕ) (j : ℕ) → update m key (m key) j ≡ m j
  same_values m key j = elim (Bool-cases (key == j)) [
    | inl e ↦ let z : key ≡ j = ground (arith, e) in rw e (ap m z)
    | inr e ↦ rw e refl
  ]

  -- The swap, where no one has changed the key since its value was copied.
  pub swap_pointer-Same :
      {s : Store S D} {place : ℕ → Where} {ml dl : ℕ → ℕ} {m : ℕ → List ℕ}
      → Keeps OwnsS OwnsD s place ml dl m
      → (key : ℕ) (w : Where) (old : UnifiedPointer) → s.index key ≡ old.raw
      → Landed shm ssd OwnsS OwnsD shm_law ssd_law s place ml dl w (m key)
      → Same (swap_pointer shm ssd hash s key old (pointer_to w)) m
  unfolding swap_pointer from_raw
  swap_pointer-Same {s} {place} {ml} {dl} {m} k key w old same landed =
      let (t, ends, has) = freed-Leads shm ssd OwnsS OwnsD shm_law ssd_law k key w (m key) landed in
      let unchanged : (s.index key == old.raw) ≡ true = ground (arith, same) in
      (
        t,
        rw unchanged (
            ap
              (λ r.
                let p : UnifiedPointer = record { raw = r } in
                free_pointer shm ssd p (indexed_at shm ssd OwnsS OwnsD shm_law ssd_law k key w))
              (sym same)
            ∙ ends),
        (let all : update m key (m key) ≡ m = λ ι. λ j. same_values m key j ι in
            subst (λ f. Has OwnsS OwnsD t f) all has),
      )

  module _ {s : Store S D} {place : ℕ → Where} {ml dl : ℕ → ℕ} {m : ℕ → List ℕ}
      (k : Keeps OwnsS OwnsD s place ml dl m) (key : ℕ) (io : Io) where
    after_write : ℕ → UnifiedPointer × Store S D → Option (Copy shm ssd hash)
    after_write a r =
        if is_valid r.0
        then some (copied (pointer_to (in_memory a)) r.0 r.1)
        else touch_lru shm ssd r.1 key >>= λ t. some (skipped t)

    after_write-Same :
        (a : ℕ) (r : Option (UnifiedPointer × Store S D))
        → s.index key ≡ (pointer_to (in_memory a)).raw
        → Wrote shm ssd OwnsS OwnsD shm_law ssd_law r s.index place m (m key)
        → Same (r >>= after_write a >>= finish_copy shm ssd hash key) m
    unfolding after_write
    after_write-Same a r at_key (p, u, ml', dl', e, kept_index, k', inl (null, long)) =
        let (t, touched, k'') = touch_lru-Keeps shm ssd hash OwnsS OwnsD shm_law ssd_law k' key in
        let e' : r ≡ some (from_invalid, u) = e ∙ ap (λ q. some (q, u)) null in
        (
          t,
          ap (λ o. o >>= after_write a >>= finish_copy shm ssd hash key) e'
              ∙ rw null_invalid (
                  ap (λ o. o >>= (λ x. some (skipped x)) >>= finish_copy shm ssd hash key) touched),
          (place, ml', dl', k''),
        )
    after_write-Same a r at_key (p, u, ml', dl', e, kept_index, k', inr (w, here, landed)) =
        let e' : r ≡ some (pointer_to w, u) = e ∙ ap (λ q. some (q, u)) here in
        let at_key' = ap (λ f. f key) kept_index ∙ at_key in
        let (t, swapped, has) =
          swap_pointer-Same k' key w (pointer_to (in_memory a)) at_key' landed in
        (
          t,
          ap (λ o. o >>= after_write a >>= finish_copy shm ssd hash key) e'
              ∙ (let valid =
                    Landed-valid shm ssd OwnsS OwnsD shm_law ssd_law u place ml' dl' w (m key)
                      landed in
                  rw valid swapped),
          has,
        )

    copy_out-Same :
        (a : ℕ)
        → place key ≡ in_memory a
        → Same
            (copy_out shm ssd hash s key (pointer_to (in_memory a)) io a
              >>= finish_copy shm ssd hash key)
            m
    unfolding after_write
    copy_out-Same a here =
        let (pos, low, room, block) = k.memory.placed key a (ap memory_of here) in
        let (low', pos', long) = subst (λ u. Suits u (m key)) here (k.suits key) in
        let value = read_block-BlockAt s.memory a (m key) block in
        let at_key = k.indexed key ∙ ap (λ u. (pointer_to u).raw) here in
        subst
          (λ v.
            Same (write_disk shm ssd s v io >>= after_write a >>= finish_copy shm ssd hash key) m)
          (sym value)
          (after_write-Same a (write_disk shm ssd s (m key) io) at_key
            (write_disk-Wrote shm ssd OwnsS OwnsD shm_law ssd_law k (m key) io long))

    evict_typed-Same :
        (u : Where)
        → place key ≡ u
        → Suits u (m key)
        → Same
            (evict_copy_typed shm ssd hash (kind_of u) s key (pointer_to u) io
              >>= finish_copy shm ssd hash key)
            m
    evict_typed-Same gone here suit = (s, refl, (place, ml, dl, k))
    evict_typed-Same (inside bs) here suit = (s, refl, (place, ml, dl, k))
    evict_typed-Same (Invariant.on_disk a) here suit = (s, refl, (place, ml, dl, k))
    evict_typed-Same (in_memory a) here suit =
        rw (as_memory_pointer-word a suit.0) (copy_out-Same a here)

    -- One victim: its value is on disk, or where it was.
    pub evict_one-Same : Same (evict_one shm ssd hash s key io) m
    unfolding evict_one evict_copy from_raw
    evict_one-Same =
        let typed = evict_typed-Same (place key) refl (k.suits key) in
        let same : evict_copy_typed shm ssd hash (type (from_raw (s.index key))) s key
              (from_raw (s.index key)) io
            ≡ evict_copy_typed shm ssd hash (kind_of (place key)) s key (pointer_to (place key))
                io =
          ap
            (λ r.
              let p : UnifiedPointer = record { raw = r } in
              evict_copy_typed shm ssd hash (type p) s key p io)
            (k.indexed key)
          ∙ ap (λ y. evict_copy_typed shm ssd hash y s key (pointer_to (place key)) io)
              (type-pointer_to (place key) (m key) (k.suits key)) in
        subst (λ o. Same (o >>= finish_copy shm ssd hash key) m) (sym same) typed

  evict_keys-Same :
      (keys : List ℕ) (io : ℕ → Io) (s : Store S D) (m : ℕ → List ℕ)
      → Has OwnsS OwnsD s m
      → Same (evict_keys shm ssd hash s keys io) m
  unfolding evict_keys
  evict_keys-Same [] io s m has = (s, refl, has)
  evict_keys-Same (key ∷ keys) io s m (place, ml, dl, k) =
      elim (Bool-cases (leb s.shm_used_bytes s.low_watermark)) [
        | inl e ↦ (s, rw e refl, (place, ml, dl, k))
        | inr e ↦
            let (t, one, has) = evict_one-Same k key (io key) in
            let (u, rest, done) = evict_keys-Same keys io t m has in
            (u, rw e (ap (λ o. o >>= λ t. evict_keys shm ssd hash t keys io) one ∙ rest), done)
      ]

  -- A round of eviction on a store that keeps the values m succeeds and keeps them, whatever calls
  -- of the system fail, as long as no other thread runs in between.
  pub evict_round-Same :
      {s : Store S D} {place : ℕ → Where} {ml dl : ℕ → ℕ} {m : ℕ → List ℕ}
      (k : Keeps OwnsS OwnsD s place ml dl m) (io : ℕ → Io)
      → (t : Store S D) × (evict_round shm ssd hash s io ≡ some t) × Has OwnsS OwnsD t m
  unfolding evict_round evict_batch
  evict_round-Same {s} {place} {ml} {dl} {m} k io =
      elim (Bool-cases (ltb s.low_watermark s.shm_used_bytes)) [
        | inr e ↦ (s, rw e refl, (place, ml, dl, k))
        | inl e ↦ rw e (evict_keys-Same _ io _ m (place, ml, dl, taken))
      ]
    where
      taken : Keeps OwnsS OwnsD (record s { lru = (evict_batch s.lru 512).1 }) place ml dl m
      taken =
          let (l, batch, valid, same, order) = evict_loop-oldest 512 s.lru [] k.lru in
          record {
            owns_shm = k.owns_shm;
            owns_ssd = k.owns_ssd;
            indexed = k.indexed;
            suits = k.suits;
            memory = k.memory;
            disk = k.disk;
            lru = subst (λ r. Recency.IsValid r.1) (sym batch) valid;
          }
