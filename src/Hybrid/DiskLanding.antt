-- ===== src/Hybrid/DiskLanding.antt =====
-- WriteDisk finds a place for a value (src/storage/hybrid/value.h).
use rec_store.Prelude.{
  ℕ, ◌+◌, ◌^◌, ◌<◌, ◌≡◌, ◌≢◌, ◌⊎◌, inl, inr, refl, ap, sym, ◌∙◌, arith, true, false, none, some,
  List, length, update, ◌==◌, ltb, Bool-cases, ==_self,
}
use rec_store.Pointer.{PointerType, UnifiedPointer, to_code, from_invalid}
use rec_store.Pointer.Codec.{word_of}
use mathlib.Core.Option.{some-injective}
use rec_store.Hybrid.Lru.Keys.{take}
use rec_store.Hybrid.Blocks.{write_at, block_bytes, BlockAt-write_at}
use rec_store.Hybrid.Allocator.{Allocator, Lawful, GaveNone, GaveBlock}
use rec_store.Hybrid.Side.{Side-fresh, Side-free, unplaced}
use rec_store.Hybrid.Store.{Store, Io, done, failed, ◌>>=◌, write_disk, placed_on_disk, written_at}
use rec_store.Hybrid.Invariant.{Where, on_disk, Long, Keeps}
use rec_store.Hybrid.Landing.{Wrote, length-block_bytes, length-take-le, from_disk-word}

module _ {S D : Type 0} (shm : Allocator S) (ssd : Allocator D) (OwnsS : S → (ℕ → ℕ) → Type 0)
    (OwnsD : D → (ℕ → ℕ) → Type 0) (shm_law : Lawful shm OwnsS) (ssd_law : Lawful ssd OwnsD) where
  module _ {s : Store S D} {place : ℕ → Where} {ml dl : ℕ → ℕ} {m : ℕ → List ℕ}
      (k : Keeps OwnsS OwnsD s place ml dl m) where
    placed_on_disk-Wrote :
        (v : List ℕ) (io : Io)
        → length v < 65536
        → Long v
        → GaveNone ssd OwnsD s.ssd_manage (2 + length v) dl
          ⊎ GaveBlock ssd OwnsD s.ssd_manage (2 + length v) dl
        → Wrote shm ssd OwnsS OwnsD shm_law ssd_law
            (ssd.new s.ssd_manage (2 + length v) >>= placed_on_disk shm ssd s v io)
            s.index
            place
            m
            v
    placed_on_disk-Wrote v io short long (inl (a, gave, owns)) = (
      from_invalid,
      record s { ssd_manage = a },
      ml,
      dl,
      ap (λ r. r >>= placed_on_disk shm ssd s v io) gave,
      refl,
      record {
        owns_shm = k.owns_shm;
        owns_ssd = owns;
        indexed = k.indexed;
        suits = k.suits;
        memory = k.memory;
        disk = k.disk;
        lru = k.lru;
      },
      inl (refl, long),
    )
    placed_on_disk-Wrote v done short long (inr (p, n, a, gave, fits, pos, low, apart, owns)) =
        let small : p < 2 ^ 62 = omega (arith, fits, low) in
        let room : (p == p) ≡ true = ==_self p in
        let live : 0 < update dl p n p = rw room (let l : 0 < n = omega (arith, fits) in l) in
        let s' : Store S D = record s {
          ssd_manage = a;
          disk = write_at s.disk p (block_bytes v);
        } in
        (
          word_of PointerType.disk p,
          s',
          ml,
          update dl p n,
          ap (λ r. r >>= placed_on_disk shm ssd s v done) gave
              ∙ ap (written_at shm ssd s v done a p) (ssd_law.counts a (update dl p n) p owns live)
              ∙ ap (λ o. o >>= λ q. some (q, s')) (from_disk-word p small),
          refl,
          record {
            owns_shm = k.owns_shm;
            owns_ssd = owns;
            indexed = k.indexed;
            suits = k.suits;
            memory = k.memory;
            disk =
                Side-fresh k.disk p n (block_bytes v) apart (omega (arith, fits))
                  (omega (arith, fits, length-block_bytes v));
            lru = k.lru;
          },
          inr (
            on_disk p,
            refl,
            (
              (small, pos, long),
              rw room fits,
              BlockAt-write_at s.disk p v short,
              unplaced k.disk p n apart (omega (arith, fits)),
            ),
          ),
        )
    placed_on_disk-Wrote v (failed b) short long
          (inr (p, n, a, gave, fits, pos, low, apart, owns)) =
        let room : (p == p) ≡ true = ==_self p in
        let live : 0 < update dl p n p = rw room (let l : 0 < n = omega (arith, fits) in l) in
        let bytes = take b (block_bytes v) in
        let given =
          Side-fresh k.disk p n bytes apart (omega (arith, fits))
            (omega (arith, fits, length-block_bytes v, length-take-le b (block_bytes v))) in
        (
          from_invalid,
          record s { ssd_manage = (ssd.free a p).1; disk = write_at s.disk p bytes },
          ml,
          update (update dl p n) p 0,
          ap (λ r. r >>= placed_on_disk shm ssd s v (failed b)) gave
              ∙ ap (written_at shm ssd s v (failed b) a p)
                  (ssd_law.counts a (update dl p n) p owns live),
          refl,
          record {
            owns_shm = k.owns_shm;
            owns_ssd = ssd_law.takes a (update dl p n) p owns live;
            indexed = k.indexed;
            suits = k.suits;
            memory = k.memory;
            disk = Side-free given p (unplaced k.disk p n apart (omega (arith, fits)));
            lru = k.lru;
          },
          inl (refl, long),
        )

    -- WriteDisk of a value that is not kept in a pointer answers where it stands on disk, or null.
    pub write_disk-Wrote :
        (v : List ℕ) (io : Io)
        → Long v
        → Wrote shm ssd OwnsS OwnsD shm_law ssd_law (write_disk shm ssd s v io) s.index place m v
    unfolding write_disk
    write_disk-Wrote v io long = elim (Bool-cases (ltb 65535 (length v))) [
      | inl big ↦ (from_invalid, s, ml, dl, rw big refl, refl, k, inl (refl, long))
      | inr fits ↦
          let below : length v < 65536 = ground (arith, fits) in
          let got =
            ssd_law.gives s.ssd_manage dl (2 + length v) k.owns_ssd (omega arith) (omega arith) in
          let wrote = placed_on_disk-Wrote v io below long got in rw fits wrote
    ]

    -- On a disk that gives the block, and with a system that fails no call, the answer is not null.
    pub write_disk-ample :
        (v : List ℕ) (p : UnifiedPointer) (t : Store S D)
        → length v < 65536
        → ((a' : D) → ssd.new s.ssd_manage (2 + length v) ≢ some (none, a'))
        → write_disk shm ssd s v done ≡ some (p, t)
        → p ≢ from_invalid
    unfolding write_disk from_invalid to_code
    write_disk-ample v p t short ample e null =
        let fits : ltb 65535 (length v) ≡ false = ground (arith, short) in
        elim (ssd_law.gives s.ssd_manage dl (2 + length v) k.owns_ssd (omega arith) (omega arith)) [
          | inl (a, gave, owns) ↦ absurd (ample a gave)
          | inr (q, n, a, gave, fits_in, pos, low, apart, owns) ↦
              let small : q < 2 ^ 62 = omega (arith, fits_in, low) in
              let room : (q == q) ≡ true = ==_self q in
              let live : 0 < update dl q n q =
                rw room (let l : 0 < n = omega (arith, fits_in) in l) in
              let goes =
                ap (λ r. r >>= placed_on_disk shm ssd s v done) gave
                ∙ ap (written_at shm ssd s v done a q)
                    (ssd_law.counts a (update dl q n) q owns live)
                ∙ ap
                    (λ o. o >>= λ w.
                      let u : Store S D = record s {
                        ssd_manage = a;
                        disk = write_at s.disk q (block_bytes v);
                      } in
                      some (w, u))
                    (from_disk-word q small) in
              let left : Store S D = record s {
                ssd_manage = a;
                disk = write_at s.disk q (block_bytes v);
              } in
              let ran : write_disk shm ssd s v done ≡ some (word_of PointerType.disk q, left) =
                rw fits goes in
              let same = some-injective _ _ (sym ran ∙ e) in
              let raw = ap (λ r. r.0.raw) same ∙ ap (λ r. r.raw) null in absurd (omega (arith, raw))
        ]
