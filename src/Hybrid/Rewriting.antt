-- ===== src/Hybrid/Rewriting.antt =====
-- WriteValue writes a value of the same length in place (src/storage/hybrid/value.h).
use rec_store.Prelude.{
  ℕ, ◌+◌, ◌≡◌, ◌⊎◌, inl, inr, refl, ap, sym, subst, ◌∙◌, arith, Option, none, some, List, length,
  update, ◌==◌, ℕ_discrete, Bool-cases,
}
use rec_store.Pointer.{UnifiedPointer, from_raw, type}
use rec_store.Hybrid.Blocks.{write_at, peek_len, peek_len-BlockAt}
use rec_store.Hybrid.Allocator.{Allocator, Lawful}
use rec_store.Hybrid.Side.{Side-overwrite, Side-leave}
use rec_store.Hybrid.Store.{
  Store, ◌>>=◌, in_place_memory, in_place_disk, in_place_typed, write_in_place,
}
use rec_store.Hybrid.Invariant
use rec_store.Hybrid.Invariant.{
  Where, gone, inside, in_memory, pointer_to, kind_of, memory_of, disk_of, Long, Suits, Keeps, Has,
  kept-Long, type-pointer_to, raw-ne-zero, is_valid-pointer_to, as_memory_pointer-word,
  as_disk_page_id-word,
}
use rec_store.Hybrid.Indexing.{Elsewhere-update, update_here}
use rec_store.Hybrid.Serving.{touch_lru-Keeps}

module _ {S D : Type 0} (shm : Allocator S) (ssd : Allocator D) (hash : ℕ → ℕ)
    (OwnsS : S → (ℕ → ℕ) → Type 0) (OwnsD : D → (ℕ → ℕ) → Type 0) (shm_law : Lawful shm OwnsS)
    (ssd_law : Lawful ssd OwnsD) where
  -- The first part of WriteValue has done nothing, or the store has the values, and v is long.
  abbrev pub InPlace : Option (Option (Store S D)) → (ℕ → List ℕ) → List ℕ → Type 0
  InPlace r m v =
      (r ≡ some none) ⊎ ((t : Store S D) × (r ≡ some (some t)) × Has OwnsS OwnsD t m × Long v)

  module _ {s : Store S D} {place : ℕ → Where} {ml dl : ℕ → ℕ} {m : ℕ → List ℕ}
      (k : Keeps OwnsS OwnsD s place ml dl m) (key : ℕ) (v : List ℕ) where
    -- The places stay, and the value of the key changes where it stands.
    rewritten-Suits :
        (u : Where) → place key ≡ u → Suits u v → (j : ℕ) → Suits (place j) (update m key v j)
    rewritten-Suits u here suit j = elim (ℕ_discrete key j) [
      | yes e ↦
          let now : update m key v j ≡ v = ap (update m key v) (sym e) ∙ update_here m key v in
          let there : u ≡ place j = sym here ∙ ap place e in
          subst (λ x. Suits (place j) x) (sym now) (subst (λ p. Suits p v) there suit)
      | no ne ↦
          let same = Elsewhere-update (λ (l : List ℕ). l) m key v j (λ z. ne (sym z)) in
          subst (λ x. Suits (place j) x) (sym same) (k.suits j)
    ]

    InPlace-memory :
        (a : ℕ)
        → place key ≡ in_memory a
        → InPlace (in_place_memory shm ssd s key v a) (update m key v) v
    InPlace-memory a here = elim (Bool-cases (peek_len s.memory a == length v)) [
      | inr e ↦ inl (rw e refl)
      | inl e ↦
          let (pos, low, room, block) = k.memory.placed key a (ap memory_of here) in
          let size : length v ≡ length (m key) =
            ground (arith, e, peek_len-BlockAt s.memory a (m key) block) in
          let (low', pos', long) = subst (λ u. Suits u (m key)) here (k.suits key) in
          let now_long : Long v = ground (arith, size, long) in
          let kept_now : Keeps OwnsS OwnsD (record s { memory = write_at s.memory (a + 2) v }) place
              ml dl (update m key v) =
            record {
              owns_shm = k.owns_shm;
              owns_ssd = k.owns_ssd;
              indexed = k.indexed;
              suits = rewritten-Suits (in_memory a) here (low', pos', now_long);
              memory =
                  Side-overwrite k.memory key a v (ap memory_of here) size
                    (Elsewhere-update (λ (l : List ℕ). l) m key v) (update_here m key v);
              disk =
                  Side-leave k.disk key (λ j ne. refl)
                    (Elsewhere-update (λ (l : List ℕ). l) m key v) (ap disk_of here);
              lru = k.lru;
            } in
          let (t, touched, keeps) =
            touch_lru-Keeps shm ssd hash OwnsS OwnsD shm_law ssd_law kept_now key in
          inr
            (t, rw e (ap (λ o. o >>= λ u. some (some u)) touched), (place, ml, dl, keeps), now_long)
    ]

    InPlace-disk :
        (a : ℕ)
        → place key ≡ Invariant.on_disk a
        → InPlace (in_place_disk shm ssd s v a) (update m key v) v
    InPlace-disk a here = elim (Bool-cases (peek_len s.disk a == length v)) [
      | inr e ↦ inl (rw e refl)
      | inl e ↦
          let (pos, low, room, block) = k.disk.placed key a (ap disk_of here) in
          let size : length v ≡ length (m key) =
            ground (arith, e, peek_len-BlockAt s.disk a (m key) block) in
          let (low', pos', long) = subst (λ u. Suits u (m key)) here (k.suits key) in
          let now_long : Long v = ground (arith, size, long) in
          inr (
            record s { disk = write_at s.disk (a + 2) v },
            rw e refl,
            (
              place,
              ml,
              dl,
              record {
                owns_shm = k.owns_shm;
                owns_ssd = k.owns_ssd;
                indexed = k.indexed;
                suits = rewritten-Suits (Invariant.on_disk a) here (low', pos', now_long);
                memory =
                    Side-leave k.memory key (λ j ne. refl)
                      (Elsewhere-update (λ (l : List ℕ). l) m key v) (ap memory_of here);
                disk =
                    Side-overwrite k.disk key a v (ap disk_of here) size
                      (Elsewhere-update (λ (l : List ℕ). l) m key v) (update_here m key v);
                lru = k.lru;
              },
            ),
            now_long,
          )
    ]

    InPlace-typed :
        (u : Where)
        → place key ≡ u
        → Suits u (m key)
        → InPlace (in_place_typed shm ssd (kind_of u) (pointer_to u) s key v) (update m key v) v
    InPlace-typed gone here suit = inl refl
    InPlace-typed (inside bs) here suit = inl refl
    InPlace-typed (in_memory a) here suit =
        rw (as_memory_pointer-word a suit.0) (InPlace-memory a here)
    InPlace-typed (Invariant.on_disk a) here suit =
        rw (as_disk_page_id-word a suit.0) (InPlace-disk a here)

    pub write_in_place-InPlace : InPlace (write_in_place shm ssd s key v) (update m key v) v
    unfolding write_in_place from_raw
    write_in_place-InPlace = elim (Bool-cases (s.index key == 0)) [
      | inl e ↦ inl (rw e refl)
      | inr e ↦ rw e (
          let typed = InPlace-typed (place key) refl (k.suits key) in
          let same : in_place_typed shm ssd (type (from_raw (s.index key))) (from_raw (s.index key))
                s key v
              ≡ in_place_typed shm ssd (kind_of (place key)) (pointer_to (place key)) s key v =
            ap
              (λ r.
                let p : UnifiedPointer = record { raw = r } in
                in_place_typed shm ssd (type p) p s key v)
              (k.indexed key)
            ∙ ap (λ y. in_place_typed shm ssd y (pointer_to (place key)) s key v)
                (type-pointer_to (place key) (m key) (k.suits key)) in
          subst (λ r. InPlace r (update m key v) v) (sym same) typed)
    ]
