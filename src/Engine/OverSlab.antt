-- ===== src/Engine/OverSlab.antt =====
-- PersistLoopShmMalloc (src/memory/allocators/persist_loop_slab_allocator.h), without its fast path,
-- is such an allocator as the engine and the value store need.
use rec_store.Prelude.{
  ℕ, ◌+◌, ◌*◌, ◌/◌, ◌^◌, ◌≤◌, ◌<◌, ◌≡◌, ◌≢◌, ◌⊎◌, inl, inr, ap, sym, subst, ◌∙◌, arith, false, none,
  some, update, ℕ_discrete, dec_lt,
}
use rec_store.Prelude.Int.{pos, negsuc}
use rec_store.Slab.State.{Malloc}
use rec_store.Slab.Allocate.{new}
use rec_store.Slab.Release
use rec_store.Slab.Release.{free}
use rec_store.Slab.Invariant.{IsValid}
use rec_store.Slab.Invariant
use rec_store.Slab.Taking.{new-Given, taken}
use rec_store.Slab.Releasing.{free-twice}
use rec_store.Hybrid.Allocator.{Allocator, Lawful, Separate, GaveNone, GaveBlock}
use rec_store.Engine.Numbers.{Addressing, Numbered, Addresses}

module _ (city_hash : ℕ → ℕ) (start : Malloc) where
  -- Pointers are offsets from `data_`.
  abbrev pub slab : Allocator Malloc
  slab = record { new = new city_hash; free = free city_hash; offset = Release.get_malloc_offset }

  abbrev pub slab_offsets : Addressing
  slab_offsets = record {
    get_malloc_data = λ z. elim z [ pos o ↦ Release.get_malloc_offset start o | negsuc o ↦ none ];
    get_malloc_offset =
        λ p. elim (Release.get_malloc_offset start p) [ none ↦ negsuc 0 | some o ↦ pos o ];
  }

  -- The bytes of the live allocations: the one behind header h has 8 * live h of them, at 8 * (h + 1).
  abbrev pub InBytes : (ℕ → ℕ) → (ℕ → ℕ) → Type 0
  InBytes live bytes =
      ((p : ℕ) → 0 < bytes p → (h : ℕ) × (p ≡ 8 * (h + 1)))
      × ((h : ℕ) → bytes (8 * (h + 1)) ≡ 8 * live h)

  -- A valid state of the file's size whose fast path is disabled.
  abbrev pub Slabs : Malloc → (ℕ → ℕ) → Type 0
  Slabs s bytes =
      (live : ℕ → ℕ) × IsValid s live
      × (s.enable_fast_malloc ≡ false)
      × (s.block_num ≡ start.block_num)
      × InBytes live bytes

  InBytes-placed :
      (live bytes : ℕ → ℕ)
      → InBytes live bytes
      → (m k : ℕ) → InBytes (Invariant.placed live m k) (update bytes (8 * (m + 1)) (8 * k))
  InBytes-placed live bytes (headers, sizes) m k = (
    λ p l. elim (ℕ_discrete (8 * (m + 1)) p) [
      | yes e ↦ (m, sym e)
      | no ne ↦ headers p (ground (arith, l, ne))
    ],
    λ h. elim (ℕ_discrete h m) [ yes e ↦ ground (arith, e) | no ne ↦ ground (arith, ne, sizes h) ],
  )

  InBytes-released :
      (live bytes : ℕ → ℕ)
      → InBytes live bytes
      → (m : ℕ) → InBytes (Invariant.released live m) (update bytes (8 * (m + 1)) 0)
  InBytes-released live bytes (headers, sizes) m = (
    λ p l. headers p (ground (arith, l)),
    λ h. elim (ℕ_discrete h m) [ yes e ↦ ground (arith, e) | no ne ↦ ground (arith, ne, sizes h) ],
  )

  -- A new allocation meets no live one.
  placed-Separate :
      {s' : Malloc} (live bytes : ℕ → ℕ)
      → InBytes live bytes
      → (m k : ℕ) → 0 < k
      → live m ≡ 0
      → IsValid s' (Invariant.placed live m k)
      → Separate bytes (8 * (m + 1)) (8 * k)
  placed-Separate {s'} live bytes (headers, sizes) m k some_blocks fresh valid q l =
      let (h, at) = headers q l in
      let size : bytes q ≡ 8 * live h = ap bytes at ∙ sizes h in
      let lives : 0 < live h = omega (arith, size, l) in
      let other : h ≢ m = λ e. ground (arith, fresh, lives, e) in
      let here : Invariant.placed live m k m ≡ k = ground arith in
      let there : Invariant.placed live m k h ≡ live h = ground arith in
      elim (dec_lt h m) [
        | yes before ↦
            let gap =
              valid.holds.apart h m (omega (arith, there, lives)) (omega (arith, here, some_blocks))
                before in
            inl (omega (arith, gap, there, size, at))
        | no after ↦
            let gap =
              valid.holds.apart m h (omega (arith, here, some_blocks)) (omega (arith, there, lives))
                (omega (arith, after, other)) in
            inr (omega (arith, gap, here, at))
      ]

  module _ (small : start.block_num < 2 ^ 32) where
    slab-gives :
        (s : Malloc) (bytes : ℕ → ℕ) (size : ℕ)
        → Slabs s bytes
        → 0 < size
        → size < 2 ^ 17
        → GaveNone slab Slabs s size bytes ⊎ GaveBlock slab Slabs s size bytes
    slab-gives s bytes size (live, valid, slow, same, laid) some_bytes below =
        elim (new-Given city_hash valid size some_bytes (omega arith) (inl slow)) [
          | inl (run, bad) ↦ inl (s, run, (live, valid, slow, same, laid))
          | inr (m, run, fresh, valid') ↦
              let k = (size + 7) / 8 in
              let here : Invariant.placed live m k m ≡ k = ground arith in
              let inside = valid'.holds.inside m (omega (arith, here)) in
              inr (
                8 * (m + 1),
                8 * k,
                taken s size k m,
                run,
                omega arith,
                omega arith,
                omega (arith, inside, here, same),
                placed-Separate live bytes laid m k (omega arith) fresh valid',
                (Invariant.placed live m k, valid', slow, same, InBytes-placed live bytes laid m k),
              )
        ]

    slab-takes :
        (s : Malloc) (bytes : ℕ → ℕ) (p : ℕ)
        → Slabs s bytes
        → 0 < bytes p
        → Slabs (free city_hash s p).1 (update bytes p 0)
    slab-takes s bytes p (live, valid, slow, same, laid) l =
        let (h, at) = laid.0 p l in
        let lives : 0 < live h = omega (arith, laid.1 h, ap bytes at, l) in
        let (run, valid', again) = free-twice city_hash valid h lives in
        subst (λ q. Slabs (free city_hash s q).1 (update bytes q 0)) (sym at)
          (subst (λ r. Slabs r.1 (update bytes (8 * (h + 1)) 0)) (sym run)
            (Invariant.released live h, valid', slow, same, InBytes-released live bytes laid h))

    offset_of :
        (s : Malloc) (h : ℕ)
        → h + 1 ≤ s.block_num
        → Release.get_malloc_offset s (8 * (h + 1)) ≡ some (8 * (h + 1))
    unfolding Release.get_malloc_offset
    offset_of s h l = ground arith

    slab-counts :
        (s : Malloc) (bytes : ℕ → ℕ) (p : ℕ)
        → Slabs s bytes
        → 0 < bytes p
        → Release.get_malloc_offset s p ≡ some p
    slab-counts s bytes p (live, valid, slow, same, laid) l =
        let (h, at) = laid.0 p l in
        let lives : 0 < live h = omega (arith, laid.1 h, ap bytes at, l) in
        let inside = valid.holds.inside h lives in
        subst (λ q. Release.get_malloc_offset s q ≡ some q) (sym at)
          (offset_of s h (omega (arith, inside)))

    slab-numbers : Addresses slab_offsets Slabs
    slab-numbers s bytes (live, valid, slow, same, laid) p l =
        let (h, at) = laid.0 p l in
        let lives : 0 < live h = omega (arith, laid.1 h, ap bytes at, l) in
        let inside = valid.holds.inside h lives in
        let found = offset_of start h (omega (arith, inside, same)) in
        subst (Numbered slab_offsets) (sym at) (
          8 * (h + 1),
          ap (λ o. elim o [ none ↦ negsuc 0 | some q ↦ pos q ]) found,
          found,
          omega arith,
          omega arith,
          omega (arith, inside, same),
        )

    -- On a file of fewer than 2 ^ 32 blocks, with the fast path disabled, New gives blocks of at
    -- least the size asked for that meet no live one, or none, Free takes a live one back, and every
    -- live block has an offset that an index word of the engine can hold.
    pub slab-Lawful : Lawful slab Slabs × Addresses slab_offsets Slabs
    slab-Lawful =
        (record { gives = slab-gives; takes = slab-takes; counts = slab-counts }, slab-numbers)
