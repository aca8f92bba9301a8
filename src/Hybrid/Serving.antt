-- ===== src/Hybrid/Serving.antt =====
-- WriteValue and RetrieveValue against a map from keys to values (src/storage/hybrid/value.h).
use rec_store.Prelude.{
  ℕ, ◌≡◌, inl, inr, refl, ap, sym, ◌∙◌, Option, some, List, ◌==◌, Bool-cases, bit_and,
}
use rec_store.Pointer.{UnifiedPointer, from_raw, type}
use rec_store.Hybrid.Lru.Recency.{insert-IsValid}
use rec_store.Hybrid.Blocks.{read_block, read_block-BlockAt}
use rec_store.Hybrid.Inline.{inline_word, inline_value, inline_word-lt, inline_value-inline_word}
use rec_store.Hybrid.Allocator.{Allocator, Lawful}
use rec_store.Hybrid.Store.{Store, ◌>>=◌, touch_lru}
use rec_store.Hybrid.Manager.{heat, retrieve_typed, retrieve_value}
use rec_store.Hybrid.Invariant.{
  Where, gone, inside, in_memory, pointer_to, kind_of, memory_of, disk_of, Long, Suits, Keeps, Has,
  kept-Long, type-pointer_to, raw-ne-zero, is_valid-pointer_to, as_memory_pointer-word,
  as_disk_page_id-word, as_p_mem_offset-word,
}
use rec_store.Hybrid.Invariant

module _ {S D : Type 0} (shm : Allocator S) (ssd : Allocator D) (hash : ℕ → ℕ)
    (OwnsS : S → (ℕ → ℕ) → Type 0) (OwnsD : D → (ℕ → ℕ) → Type 0) (shm_law : Lawful shm OwnsS)
    (ssd_law : Lawful ssd OwnsD) where
  -- Touching the LRU list changes no value.
  pub touch_lru-Keeps :
      {s : Store S D} {place : ℕ → Where} {ml dl : ℕ → ℕ} {m : ℕ → List ℕ}
      → Keeps OwnsS OwnsD s place ml dl m
      → (key : ℕ)
      → (t : Store S D) × (touch_lru shm ssd s key ≡ some t) × Keeps OwnsS OwnsD t place ml dl m
  touch_lru-Keeps {s} k key =
      let (l, used, valid) = insert-IsValid s.lru key k.lru in
      (
        record s { lru = l },
        ap (λ o. o >>= λ l. let t : Store S D = record s { lru = l } in some t) used,
        record {
          owns_shm = k.owns_shm;
          owns_ssd = k.owns_ssd;
          indexed = k.indexed;
          suits = k.suits;
          memory = k.memory;
          disk = k.disk;
          lru = valid;
        },
      )

  module _ {s : Store S D} {place : ℕ → Where} {ml dl : ℕ → ℕ} {m : ℕ → List ℕ}
      (k : Keeps OwnsS OwnsD s place ml dl m) (key : ℕ) where
    -- `RetrieveValue`, by the kind of the pointer, with the pointer that the place gives.
    Retrieves : Option (List ℕ × Store S D) → Type 0
    Retrieves r = (t : Store S D) × (r ≡ some (m key, t)) × Has OwnsS OwnsD t m

    heat-Keeps : Keeps OwnsS OwnsD (heat shm ssd hash s key) place ml dl m
    heat-Keeps = elim (Bool-cases (bit_and (hash key) 7 == 0)) [
      | inr e ↦ rw e k
      | inl e ↦ rw e (record {
        owns_shm = k.owns_shm;
        owns_ssd = k.owns_ssd;
        indexed = k.indexed;
        suits = k.suits;
        memory = k.memory;
        disk = k.disk;
        lru = k.lru;
      })
    ]

    retrieve-place :
        (w : Where)
        → place key ≡ w
        → Suits w (m key)
        → Retrieves (retrieve_typed shm ssd hash (kind_of w) (pointer_to w) s key)
    unfolding Retrieves
    retrieve-place gone here suit = (s, ap (λ v. some (v, s)) (sym suit), (place, ml, dl, k))
    retrieve-place (inside bs) here (bytes, some_bytes, few, value) = (
      s,
      ap (λ o. o >>= λ w. inline_value w >>= λ v. some (v, s))
            (as_p_mem_offset-word (inline_word bs) (inline_word-lt bs bytes few))
          ∙ ap (λ o. o >>= λ v. some (v, s)) (inline_value-inline_word bs bytes few).0
          ∙ ap (λ v. some (v, s)) (sym value),
      (place, ml, dl, k),
    )
    retrieve-place (in_memory a) here (low, pos, long) =
        let (t, touched, keeps) = touch_lru-Keeps k key in
        let (pos', low', room, block) = k.memory.placed key a (ap memory_of here) in
        (
          t,
          ap (λ o. o >>= λ ptr. touch_lru shm ssd s key >>= λ u. some (read_block s.memory ptr, u))
                (as_memory_pointer-word a low)
              ∙ ap (λ o. o >>= λ u. some (read_block s.memory a, u)) touched
              ∙ ap (λ v. some (v, t)) (read_block-BlockAt s.memory a (m key) block),
          (place, ml, dl, keeps),
        )
    retrieve-place (Invariant.on_disk a) here (low, pos, long) =
        let (pos', low', room, block) = k.disk.placed key a (ap disk_of here) in
        let t = heat shm ssd hash s key in
        (
          t,
          ap (λ o. o >>= λ off. some (read_block s.disk off, t)) (as_disk_page_id-word a low)
              ∙ ap (λ v. some (v, t)) (read_block-BlockAt s.disk a (m key) block),
          (place, ml, dl, heat-Keeps),
        )

    -- RetrieveValue on a store that keeps the values m succeeds, answers the key's value, and keeps
    -- all of them.
    pub retrieve_value-Retrieves :
        (t : Store S D) × (retrieve_value shm ssd hash s key ≡ some (m key, t))
        × Has OwnsS OwnsD t m
    unfolding retrieve_value from_raw Retrieves
    retrieve_value-Retrieves =
        let (t, got, has) = retrieve-place (place key) refl (k.suits key) in
        (
          t,
          ap
                (λ r.
                  let p : UnifiedPointer = record { raw = r } in
                  retrieve_typed shm ssd hash (type p) p s key)
                (k.indexed key)
              ∙ ap (λ y. retrieve_typed shm ssd hash y (pointer_to (place key)) s key)
                  (type-pointer_to (place key) (m key) (k.suits key))
              ∙ got,
          has,
        )
