-- ===== src/ExtendibleHash/Invariant.antt =====
-- What every reachable index satisfies between two operations.
use rec_store.Prelude.{
  ℕ, ◌%◌, ◌^◌, ◌≤◌, ◌<◌, ◌≡◌, ◌≢◌, refl, sym, ap, subst, ◌∙◌, false, ◌==◌, if◌then◌else◌, length,
  get_or, set, length-set, get_or-set, Bool-cases, inl, inr, ==_iff,
}
use rec_store.Prelude.Int.{pos}
use rec_store.Prelude.Bits.{mod-mod_pow, pow-pos}
use native.Mathlib.Nat.{mod-lt}
use rec_store.ExtendibleHash.Slots.{invalid, extract_slots}
use rec_store.ExtendibleHash.Slots.Counting.{count}
use rec_store.ExtendibleHash.Block.{Block, num_slot}
use rec_store.ExtendibleHash.Ops.{ExtendibleHash, no_block, block_at, locate, get}

-- The address and the block of entry i.
abbrev pub address : ExtendibleHash → ℕ → ℕ
address t i = get_or t.dir.entries i 0

abbrev pub entry : ExtendibleHash → ℕ → Block
entry t i = block_at t (address t i)

module _ (h : ℕ → ℕ) where
  -- A block that entry i may hold: not in use, no deeper than the directory, with distinct keys
  -- whose hashes end in the same bits as i.
  pub record BlockFits (depth i : ℕ) (b : Block) : Type 0 where
    pub size : length b.slots ≡ num_slot
    pub idle : b.sema ≡ pos 0
    pub shallow : b.local_depth ≤ depth
    pub pattern : b.pattern ≡ i % 2 ^ b.local_depth
    pub once : (q : ℕ) → q ≢ invalid → count q b.slots ≤ 1
    pub placed :
        (q : ℕ)
        → q ≢ invalid
        → 0 < count q b.slots
        → h q % 2 ^ b.local_depth ≡ i % 2 ^ b.local_depth

  -- The directory has 2 ^ global_depth entries, within the range of its `int` arithmetic; entries
  -- that agree on the bits of a block share it.
  pub record IsValid (t : ExtendibleHash) : Type 0 where
    pub depth : t.global_depth ≤ 30
    pub capacity : t.dir.capacity ≡ 2 ^ t.global_depth
    pub entries : length t.dir.entries ≡ 2 ^ t.global_depth
    pub unlocked : t.dir.lock ≡ false
    pub within : (i : ℕ) → i < 2 ^ t.global_depth → address t i < length t.heap
    pub fits : (i : ℕ) → i < 2 ^ t.global_depth → BlockFits t.global_depth i (entry t i)
    pub shared :
        (i j : ℕ)
        → i < 2 ^ t.global_depth
        → j < 2 ^ t.global_depth
        → i % 2 ^ (entry t i).local_depth ≡ j % 2 ^ (entry t i).local_depth
        → address t i ≡ address t j

  abbrev pub home : ExtendibleHash → ℕ → ℕ
  home t k = h k % 2 ^ t.global_depth

  pub home-lt : (t : ExtendibleHash) (k : ℕ) → home t k < 2 ^ t.global_depth
  home-lt t k = mod-lt (h k) (pow-pos t.global_depth)

  pub home-mod :
      (t : ExtendibleHash) (k l : ℕ) → l ≤ t.global_depth → home t k % 2 ^ l ≡ h k % 2 ^ l
  home-mod t k l b = mod-mod_pow l t.global_depth (h k) b

  pub locate-home :
      {t : ExtendibleHash} → IsValid t → (k : ℕ) → locate t (h k) ≡ address t (home t k)
  unfolding locate
  locate-home {t} v k = ap (λ c. get_or t.dir.entries (h k % c) 0) v.capacity

  pub get-home :
      {t : ExtendibleHash}
      → IsValid t
      → (q : ℕ) → get h t q ≡ extract_slots q (entry t (home t q)).slots
  unfolding get
  get-home v q = rw (locate-home v q) refl

  moved :
      {depth i : ℕ} (j : ℕ) {b : Block}
      → BlockFits depth i b
      → i % 2 ^ b.local_depth ≡ j % 2 ^ b.local_depth
      → BlockFits depth j b
  moved j f e = record {
    size = f.size;
    idle = f.idle;
    shallow = f.shallow;
    pattern = f.pattern ∙ e;
    once = f.once;
    placed = λ q n c. f.placed q n c ∙ e;
  }

  -- Entries with one address agree on the bits of its block.
  pub same_block :
      {t : ExtendibleHash} (v : IsValid t) (i j : ℕ)
      → i < 2 ^ t.global_depth
      → j < 2 ^ t.global_depth
      → address t i ≡ address t j
      → i % 2 ^ (entry t i).local_depth ≡ j % 2 ^ (entry t i).local_depth
  same_block {t} v i j a b e =
      sym (v.fits i a).pattern
      ∙ subst (λ c. (block_at t c).pattern ≡ j % 2 ^ (block_at t c).local_depth) (sym e)
          (v.fits j b).pattern

  module _ {t : ExtendibleHash} (v : IsValid t) (i : ℕ) (inside : i < 2 ^ t.global_depth)
      (b : Block) where
    abbrev replaced : ExtendibleHash
    replaced = record t { heap = set t.heap (address t i) b }

    pub entry-replaced :
        (j : ℕ) → entry replaced j ≡ (if address t i == address t j then b else entry t j)
    entry-replaced j = get_or-set t.heap (address t i) (address t j) b no_block (v.within i inside)

    depth-replaced :
        b.local_depth ≡ (entry t i).local_depth
        → (j : ℕ) → (entry replaced j).local_depth ≡ (entry t j).local_depth
    depth-replaced same j = elim (Bool-cases (address t i == address t j)) [
      | inl e ↦
          rw (entry-replaced j, e)
            (same ∙ ap (λ a. (block_at t a).local_depth) ((==_iff (address t i) (address t j)).0 e))
      | inr e ↦ rw (entry-replaced j, e) refl
    ]

    -- A block may be replaced by one of the same depth that fits its entry.
    pub replaced-IsValid :
        b.local_depth ≡ (entry t i).local_depth → BlockFits t.global_depth i b → IsValid replaced
    replaced-IsValid same f = record {
      depth = v.depth;
      capacity = v.capacity;
      entries = v.entries;
      unlocked = v.unlocked;
      within = λ j l. rw length-set (v.within j l);
      fits = λ j l. elim (Bool-cases (address t i == address t j)) [
        | inl e ↦
            let a = (==_iff (address t i) (address t j)).0 e in
            rw (entry-replaced j, e) (moved j f (rw same (same_block v i j inside l a)))
        | inr e ↦ rw (entry-replaced j, e) (v.fits j l)
      ];
      shared = λ j k l m e. v.shared j k l m (rw (depth-replaced same j) at e);
    }
