-- ===== src/Slab/Invariant.antt =====
-- What the bits and headers of the file say about the allocations that are live: allocation h, if
-- live h is positive, has its header in block h and live h blocks behind it.
use rec_store.Prelude.{
  ℕ, ◌+◌, ◌-◌, ◌/◌, ◌%◌, ◌≤◌, ◌<◌, ◌≡◌, ap, ◌∙◌, arith, true, false, List, ◌==◌, if◌then◌else◌,
  get_or, set, length, length-set, get_or-set, Bool-cases, inl, inr, ℕ_discrete, dec_lt,
}
use rec_store.Prelude.Int.{pos}
use rec_store.Slab.State.{Malloc, block_num_of, is_used, use_blocks, free_blocks}
use rec_store.Slab.Bits.{
  between, is_used-write, is_used-use_blocks, is_used-free_blocks, get_or-use_blocks,
  get_or-free_blocks, length-use_blocks, length-free_blocks,
}
use rec_store.Slab.Search.{Fits}

pub record Holds (bn : ℕ) (ws : List ℕ) (live : ℕ → ℕ) : Type 0 where
  pub whole : bn % 64 ≡ 0
  pub room : bn / 64 + bn ≤ length ws
  pub inside : (h : ℕ) → 0 < live h → h + live h < bn
  pub header : (h : ℕ) → 0 < live h → block_num_of (get_or ws (bn / 64 + h) 0) ≡ pos (live h)
  pub apart : (h g : ℕ) → 0 < live h → 0 < live g → h < g → h + live h < g
  pub covered : (i : ℕ) → i < bn → is_used ws i ≡ true → (h : ℕ) × (h < i) × (i ≤ h + live h)
  pub marked : (h i : ℕ) → h < i → i ≤ h + live h → is_used ws i ≡ true

pub record IsValid (s : Malloc) (live : ℕ → ℕ) : Type 0 where
  pub holds : Holds s.block_num s.words live
  pub start : s.last_malloc_block ≤ s.block_num

-- The allocations with one more, and with one less.
abbrev pub placed : (ℕ → ℕ) → ℕ → ℕ → ℕ → ℕ
placed live m k h = if h == m then k else live h

abbrev pub released : (ℕ → ℕ) → ℕ → ℕ → ℕ
released live m h = if h == m then 0 else live h

-- The bits of a header at m, of k blocks behind it and of the next block are clear, as far as they
-- are bits.
abbrev pub Clear : ℕ → List ℕ → ℕ → ℕ → Type 0
Clear bn ws k m = (i : ℕ) → m ≤ i → i ≤ m + k + 1 → i < bn → is_used ws i ≡ false

pub Fits-Clear : (bn : ℕ) (ws : List ℕ) (k m : ℕ) → Fits ws k m → Clear bn ws k m
Fits-Clear bn ws k m fits i a b l =
    let e : m + (i - m) ≡ i = omega arith in rw e at (fits (i - m) (omega arith))

module _ {bn : ℕ} {ws : List ℕ} {live : ℕ → ℕ} (v : Holds bn ws live) where
  -- A header's bit is clear.
  pub header-clear : (h : ℕ) → 0 < live h → is_used ws h ≡ false
  header-clear h l = elim (Bool-cases (is_used ws h)) [
    | inr clear ↦ clear
    | inl used ↦
        let (g, a, b) = v.covered h (omega (arith, v.inside h l)) used in
        absurd (omega (arith, v.apart g h (omega arith) l a))
  ]

  -- A clear bit before a set one is a header.
  pub header-live :
      (i : ℕ) → i + 1 < bn → is_used ws i ≡ false → is_used ws (i + 1) ≡ true → 0 < live i
  header-live i l clear used =
      let (h, a, b) = v.covered (i + 1) l used in
      elim (dec_lt h i) [
        | yes before ↦ absurd (ground (arith, v.marked h i before (omega arith)))
        | no same ↦ let e : h ≡ i = omega arith in rw e at (let r : 0 < live h = omega arith in r)
      ]

  module _ (m k size : ℕ) (some_blocks : 0 < k) (end : m + k + 1 ≤ bn) (fits_at : Clear bn ws k m)
      (sized : block_num_of size ≡ pos k) where
    abbrev p : ℕ
    p = bn / 64 + m

    abbrev pub written : List ℕ
    written = use_blocks (set ws p size) k (m + 1)

    pub fresh : live m ≡ 0
    fresh = elim (dec_lt 0 (live m)) [
      | no z ↦ omega arith
      | yes l ↦ absurd (
          ground (
            arith,
            v.marked m (m + 1) (omega arith) (omega arith),
            fits_at (m + 1) (omega arith) (omega arith) (omega arith),
          ))
    ]

    size_set : length (set ws p size) ≡ length ws
    size_set = length-set ws p size

    is_used-written :
        (j : ℕ) → j < bn → is_used written j ≡ (if between (m + 1) k j then true else is_used ws j)
    is_used-written j l =
        is_used-use_blocks k (set ws p size) (m + 1) j (omega (arith, size_set, v.room))
        ∙ ap (λ b. if between (m + 1) k j then true else b)
            (is_used-write ws p size j (omega (arith, v.room)) (omega (arith, v.whole)))

    pub block-written :
        (h : ℕ)
        → get_or written (bn / 64 + h) 0 ≡ (if m == h then size else get_or ws (bn / 64 + h) 0)
    block-written h =
        get_or-use_blocks k (set ws p size) (m + 1) (bn / 64 + h) (omega (arith, size_set, v.room))
          (omega (arith, v.whole))
        ∙ ground (arith, get_or-set ws p (bn / 64 + h) size 0 (omega (arith, v.room)))

    new_apart :
        (h g : ℕ)
        → 0 < placed live m k h
        → 0 < placed live m k g
        → h < g
        → h + placed live m k h < g
    new_apart h g a b l = elim (ℕ_discrete h m) [
      | yes e ↦
          let z : live g ≡ placed live m k g = ground arith in
          elim (dec_lt (m + k) g) [
            | yes after ↦ ground arith
            | no within ↦ absurd (
                ground (
                  arith,
                  v.marked g (g + 1) (omega arith) (omega arith),
                  fits_at (g + 1) (omega arith) (omega arith) (ground (arith, v.inside g)),
                ))
          ]
      | no n ↦
          let old : placed live m k h ≡ live h = ground arith in
          rw old (elim (ℕ_discrete g m) [
            | no other ↦ v.apart h g (ground arith) (ground arith) l
            | yes e ↦ elim (dec_lt (h + live h) m) [
              | yes before ↦ omega arith
              | no over ↦ absurd (
                  ground (
                    arith,
                    v.marked h m (omega arith) (omega arith),
                    fits_at m (omega arith) (omega arith) (omega arith),
                  ))
            ]
          ])
    ]

    -- Room for k blocks may be given to a new allocation.
    pub place-Holds : Holds bn written (placed live m k)
    place-Holds = record {
      whole = v.whole;
      room = omega (arith, length-use_blocks k (set ws p size) (m + 1), size_set, v.room);
      inside =
          λ h l. elim (ℕ_discrete h m) [ yes e ↦ ground arith | no n ↦ ground (arith, v.inside h) ];
      header = λ h l. elim (ℕ_discrete h m) [
        | yes e ↦
            let z : placed live m k h ≡ k = ground arith in
            let r : get_or written (bn / 64 + h) 0 ≡ size = ground (arith, block-written h) in
            rw (r, z) sized
        | no n ↦
            let z : placed live m k h ≡ live h = ground arith in
            let r : get_or written (bn / 64 + h) 0 ≡ get_or ws (bn / 64 + h) 0 =
              ground (arith, block-written h) in
            rw (r, z) (v.header h (ground arith))
      ];
      apart = new_apart;
      covered = λ i l used. elim (Bool-cases (between (m + 1) k i)) [
        | inl new ↦ (m, ground arith, ground arith)
        | inr old ↦
            let (h, a, b) = v.covered i l (ground (arith, is_used-written i l)) in
            (h, a, ground (arith, fresh))
      ];
      marked = λ h i a b. elim (ℕ_discrete h m) [
        | yes e ↦ ground (arith, is_used-written i)
        | no n ↦
            let z : placed live m k h ≡ live h = ground arith in
            ground (arith, is_used-written i, v.marked h i, v.inside h)
      ];
    }

  module _ (m : ℕ) (l : 0 < live m) where
    abbrev pub cleared : List ℕ
    cleared = free_blocks ws (live m + 1) m

    is_used-cleared :
        (j : ℕ) → is_used cleared j ≡ (if between m (live m + 1) j then false else is_used ws j)
    is_used-cleared j =
        is_used-free_blocks (live m + 1) ws m j (omega (arith, v.room, v.inside m l))

    pub block-cleared : (h : ℕ) → get_or cleared (bn / 64 + h) 0 ≡ get_or ws (bn / 64 + h) 0
    block-cleared h =
        get_or-free_blocks (live m + 1) ws m (bn / 64 + h) (omega (arith, v.room, v.inside m l))
          (omega (arith, v.whole, v.inside m l))

    -- An allocation may be taken away.
    pub release-Holds : Holds bn cleared (released live m)
    release-Holds = record {
      whole = v.whole;
      room = omega (arith, length-free_blocks (live m + 1) ws m, v.room);
      inside = λ h a. ground (arith, v.inside h);
      header = λ h a.
          let z : released live m h ≡ live h = ground arith in
          rw (block-cleared h, z) (v.header h (ground arith));
      apart = λ h g a b c. ground (arith, v.apart h g);
      covered = λ i b used.
          let (h, c, d) = v.covered i b (ground (arith, is_used-cleared i)) in
          (h, c, ground (arith, is_used-cleared i));
      marked = λ h i a b. ground (arith, is_used-cleared i, v.marked h i, v.apart h m, v.apart m h);
    }
