-- ===== src/Hybrid/Landing.antt =====
-- WriteMem finds a place for a value (src/storage/hybrid/value.h).
use rec_store.Prelude.{
  ℕ, zero, suc, ◌+◌, ◌^◌, ◌≤◌, ◌<◌, ◌≡◌, ◌≢◌, ◌⊎◌, inl, inr, refl, ap, sym, subst, ◌∙◌, arith, true,
  false, not, ◌&&◌, Option, some, List, [], ◌∷◌, length, update, ◌==◌, ltb, leb, ℕ_discrete,
  Bool-cases, ==_self, ◌%◌,
}
use rec_store.Pointer.{
  PointerType, UnifiedPointer, type, is_valid, from_invalid, from_memory, from_disk_page_id,
  from_p_mem,
}
use rec_store.Pointer.Codec.{word_of, set-eq-some}
use rec_store.Hybrid.Lru.Keys.{take}
use rec_store.Hybrid.Lru.Recency.{insert-IsValid}
use rec_store.Hybrid.Blocks.{write_at, block_bytes, BlockAt, BlockAt-write_at}
use rec_store.Hybrid.Inline.{AllBytes, kept, inline_word, inline_word-lt}
use rec_store.Hybrid.Allocator.{Allocator, Lawful, GaveNone, GaveBlock}
use rec_store.Hybrid.Side.{Side-fresh, unplaced}
use rec_store.Hybrid.Store.{Store, ◌>>=◌, write_mem, placed_in_memory}
use rec_store.Hybrid.Invariant.{
  Where, gone, inside, in_memory, on_disk, pointer_to, memory_of, disk_of, Long, Suits, Keeps,
  kept-Long, is_valid-pointer_to,
}

pub from_memory-word : (a : ℕ) → a < 2 ^ 62 → from_memory a ≡ some (word_of PointerType.memory a)
unfolding from_memory
from_memory-word a h = set-eq-some PointerType.memory a h

pub from_disk-word : (a : ℕ) → a < 2 ^ 62 → from_disk_page_id a ≡ some (word_of PointerType.disk a)
unfolding from_disk_page_id
from_disk-word a h = set-eq-some PointerType.disk a h

from_p_mem-word : (a : ℕ) → a < 2 ^ 62 → from_p_mem a ≡ some (word_of PointerType.p_mem a)
unfolding from_p_mem
from_p_mem-word a h = set-eq-some PointerType.p_mem a h

pub length-block_bytes : (v : List ℕ) → length (block_bytes v) ≡ 2 + length v
length-block_bytes v = omega arith

pub length-take-le : (n : ℕ) (xs : List ℕ) → length (take n xs) ≤ length xs
length-take-le zero xs = omega arith
length-take-le (suc n) [] = omega arith
length-take-le (suc n) (x ∷ xs) = omega (arith, length-take-le n xs)

pub null_invalid : is_valid from_invalid ≡ false
unfolding is_valid from_invalid type
null_invalid = refl

module _ {S D : Type 0} (shm : Allocator S) (ssd : Allocator D) (OwnsS : S → (ℕ → ℕ) → Type 0)
    (OwnsD : D → (ℕ → ℕ) → Type 0) (shm_law : Lawful shm OwnsS) (ssd_law : Lawful ssd OwnsD) where
  -- The value v stands at a place where no key's value stands.
  abbrev pub Landed : Store S D → (ℕ → Where) → (ℕ → ℕ) → (ℕ → ℕ) → Where → List ℕ → Type 0
  Landed s place ml dl gone v = ⊥
  Landed s place ml dl (inside bs) v = Suits (inside bs) v
  Landed s place ml dl (in_memory a) v =
      Suits (in_memory a) v
      × (2 + length v ≤ ml a)
      × BlockAt s.memory a v
      × ((k : ℕ) → memory_of (place k) ≢ some a)
  Landed s place ml dl (on_disk a) v =
      Suits (on_disk a) v
      × (2 + length v ≤ dl a)
      × BlockAt s.disk a v
      × ((k : ℕ) → disk_of (place k) ≢ some a)

  pub Landed-valid :
      (s : Store S D) (place : ℕ → Where) (ml dl : ℕ → ℕ) (w : Where) (u : List ℕ)
      → Landed s place ml dl w u
      → is_valid (pointer_to w) ≡ true
  Landed-valid s place ml dl gone u h = absurd h
  Landed-valid s place ml dl (inside bs) u h = is_valid-pointer_to (inside bs) u h (λ e. cc e)
  Landed-valid s place ml dl (in_memory a) u h = is_valid-pointer_to (in_memory a) u h.0 (λ e. cc e)
  Landed-valid s place ml dl (on_disk a) u h = is_valid-pointer_to (on_disk a) u h.0 (λ e. cc e)

  -- A write succeeds; it changes no key's value, and answers a null pointer or where v stands.
  abbrev pub Wrote :
      Option (UnifiedPointer × Store S D) → (ℕ → ℕ) → (ℕ → Where) → (ℕ → List ℕ) → List ℕ → Type 0
  Wrote r index place m v =
      (p : UnifiedPointer) × (s : Store S D) × (ml : ℕ → ℕ) × (dl : ℕ → ℕ) × (r ≡ some (p, s))
      × (s.index ≡ index)
      × Keeps OwnsS OwnsD s place ml dl m
      × (((p ≡ from_invalid) × Long v)
          ⊎ ((w : Where) × (p ≡ pointer_to w) × Landed s place ml dl w v))

  module _ {s : Store S D} {place : ℕ → Where} {ml dl : ℕ → ℕ} {m : ℕ → List ℕ}
      (k : Keeps OwnsS OwnsD s place ml dl m) where
    placed_in_memory-Wrote :
        (key : ℕ) (v : List ℕ)
        → length v < 65536
        → Long v
        → GaveNone shm OwnsS s.shm_manage (2 + length v) ml
          ⊎ GaveBlock shm OwnsS s.shm_manage (2 + length v) ml
        → Wrote
            (shm.new s.shm_manage (2 + length v) >>= placed_in_memory shm ssd s key v)
            s.index
            place
            m
            v
    placed_in_memory-Wrote key v short long (inl (a, gave, owns)) = (
      from_invalid,
      record s { shm_manage = a },
      ml,
      dl,
      ap (λ r. r >>= placed_in_memory shm ssd s key v) gave,
      refl,
      record {
        owns_shm = owns;
        owns_ssd = k.owns_ssd;
        indexed = k.indexed;
        suits = k.suits;
        memory = k.memory;
        disk = k.disk;
        lru = k.lru;
      },
      inl (refl, long),
    )
    placed_in_memory-Wrote key v short long (inr (p, n, a, gave, fits, pos, low, apart, owns)) =
        let (l, used, valid) = insert-IsValid s.lru key k.lru in
        let small : p < 2 ^ 62 = omega (arith, fits, low) in
        let room : (p == p) ≡ true = ==_self p in
        let s' : Store S D = record s {
          shm_manage = a;
          memory = write_at s.memory p (block_bytes v);
          shm_used_bytes = (s.shm_used_bytes + (2 + length v)) % 2 ^ 64;
          lru = l;
        } in
        (
          word_of PointerType.memory p,
          s',
          update ml p n,
          dl,
          ap (λ r. r >>= placed_in_memory shm ssd s key v) gave
              ∙ ap
                  (λ o. o >>= λ l. from_memory p >>= λ q.
                    let t : Store S D = record s {
                      shm_manage = a;
                      memory = write_at s.memory p (block_bytes v);
                      shm_used_bytes = (s.shm_used_bytes + (2 + length v)) % 2 ^ 64;
                      lru = l;
                    } in
                    some (q, t))
                  used
              ∙ ap (λ o. o >>= λ q. some (q, s')) (from_memory-word p small),
          refl,
          record {
            owns_shm = owns;
            owns_ssd = k.owns_ssd;
            indexed = k.indexed;
            suits = k.suits;
            memory =
                Side-fresh k.memory p n (block_bytes v) apart (omega (arith, fits))
                  (omega (arith, fits, length-block_bytes v));
            disk = k.disk;
            lru = valid;
          },
          inr (
            in_memory p,
            refl,
            (
              (small, pos, long),
              rw room fits,
              BlockAt-write_at s.memory p v short,
              unplaced k.memory p n apart (omega (arith, fits)),
            ),
          ),
        )

    -- WriteMem of a value that is not kept in a pointer answers where it stands in memory, or null.
    pub write_mem-Long :
        (key : ℕ) (v : List ℕ) → Long v → Wrote (write_mem shm ssd s key v) s.index place m v
    unfolding write_mem
    write_mem-Long key v is_long =
        let long : (not (length v == 0) && leb (length v) 7) ≡ false = ground (arith, is_long) in
        elim (Bool-cases (ltb 65535 (length v))) [
          | inl big ↦ (from_invalid, s, ml, dl, rw (long, big) refl, refl, k, inl (refl, is_long))
          | inr fits ↦
              let below : length v < 65536 = ground (arith, fits) in
              let got =
                shm_law.gives s.shm_manage ml (2 + length v) k.owns_shm (omega arith)
                  (omega arith) in
              let wrote = placed_in_memory-Wrote key v below is_long got in rw (long, fits) wrote
        ]

    -- WriteMem of a value of bytes answers where it stands: inside the pointer, if it has one to
    -- seven bytes, and then as `kept`; else in memory, or null.
    pub write_mem-Wrote :
        (key : ℕ) (v : List ℕ)
        → AllBytes v
        → Wrote (write_mem shm ssd s key v) s.index place m (kept v)
    unfolding write_mem
    write_mem-Wrote key v bytes = elim (Bool-cases (not (length v == 0) && leb (length v) 7)) [
      | inl short ↦
          let few : length v ≤ 7 = ground (arith, short) in
          let some_bytes : 0 < length v = ground (arith, short) in
          (
            word_of PointerType.p_mem (inline_word v),
            s,
            ml,
            dl,
            rw short (
                ap (λ o. o >>= λ p. some (p, s))
                  (from_p_mem-word (inline_word v) (inline_word-lt v bytes few))),
            refl,
            k,
            inr (inside v, refl, (bytes, some_bytes, few, refl)),
          )
      | inr long ↦
          let is_long : Long v = elim (ℕ_discrete (length v) 0) [
            | yes z ↦ inl z
            | no nz ↦ inr (ground (arith, long, nz))
          ] in
          subst (λ u. Wrote (write_mem shm ssd s key v) s.index place m u)
            (sym (kept-Long v is_long)) (write_mem-Long key v is_long)
    ]
