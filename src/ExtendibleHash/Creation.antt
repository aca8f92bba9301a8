-- ===== src/ExtendibleHash/Creation.antt =====
-- The index that the constructor sets up.
use rec_store.Prelude.{
  ℕ, zero, suc, ◌+◌, ◌/◌, ◌%◌, ◌^◌, ◌≤◌, ◌<◌, ◌≡◌, ◌≢◌, refl, sym, ap, subst, ◌∙◌, arith, true,
  false, Option, none, some, ◌==◌, length, Bool-cases, inl, inr, set, get_or, set-get_or, leb, ltb,
  lt→ltb, bit_and, replicate, length-replicate,
}
use rec_store.Prelude.Int.{ℤ, negsuc, pos, is_neg}
use rec_store.Prelude.Bits.{pow-pos, pow-lt}
use native.Mathlib.Nat.{mod-lt, mod-eq_of_lt}
use rec_store.ExtendibleHash.Slots.{invalid, extract_slots, empty_pair}
use rec_store.ExtendibleHash.Slots.Counting.{count, extract-eq-zero}
use rec_store.ExtendibleHash.Block
use rec_store.ExtendibleHash.Block.{Block, num_slot, new_block, depth_mask}
use rec_store.ExtendibleHash.Ops.{
  ExtendibleHash, no_block, block_at, locate, get, create, built, floor_log2, init_blocks,
  range_from, insert, try_insert, split_full,
}
use rec_store.ExtendibleHash.Invariant.{address, entry, BlockFits, IsValid, home, home-lt, get-home}
use rec_store.ExtendibleHash.Storing.{mask_lem}

floor_log2-pow : (k g : ℕ) → g ≤ k → floor_log2 k (2 ^ g) ≡ g
unfolding floor_log2
floor_log2-pow zero g h = omega arith
floor_log2-pow (suc k) zero h = ground arith
floor_log2-pow (suc k) (suc g) h =
    let half : 2 ^ suc g / 2 ≡ 2 ^ g = omega arith in
    rw half (ground (arith, pow-pos g, floor_log2-pow k g (omega arith)))

floor_log2-lt : (k n m : ℕ) → 0 < n → n < 2 ^ m → floor_log2 k n < m
unfolding floor_log2
floor_log2-lt k n zero p h = absurd (omega arith)
floor_log2-lt zero n (suc m) p h = omega arith
floor_log2-lt (suc k) n (suc m) p h = elim (Bool-cases (leb n 1)) [
  | inl small ↦ ground arith
  | inr large ↦ ground (arith, floor_log2-lt k (n / 2) m (ground arith) (omega arith))
]

abbrev made : ℕ → ℕ → ExtendibleHash
made d c = record {
  dir = record { entries = range_from c 0; capacity = c; lock = false };
  global_depth = d;
  heap = init_blocks d c 0;
}

built-made : (c : ℕ) → built c ≡ made (floor_log2 64 c) c
unfolding built
built-made c = refl

create-built : (c : ℕ) → 0 < c → c < 2 ^ 32 → create (some c) ≡ some (built c)
unfolding create
create-built c p small =
    let e : (c == 0) ≡ false = ground arith in
    let l : ltb c (2 ^ 32) ≡ true = lt→ltb c (2 ^ 32) small in rw (e, l) refl

get_or-range_from : (k i j : ℕ) → j < k → get_or (range_from k i) j 0 ≡ i + j
unfolding range_from
get_or-range_from zero i j h = absurd (omega arith)
get_or-range_from (suc k) i zero h = omega arith
get_or-range_from (suc k) i (suc j) h = get_or-range_from k (i + 1) j (omega arith) ∙ omega arith

length-range_from : (k i : ℕ) → length (range_from k i) ≡ k
unfolding range_from
length-range_from zero i = refl
length-range_from (suc k) i = ap suc (length-range_from k (i + 1))

length-init_blocks : (d k i : ℕ) → length (init_blocks d k i) ≡ k
unfolding init_blocks
length-init_blocks d zero i = refl
length-init_blocks d (suc k) i = ap suc (length-init_blocks d k (i + 1))

get_or-init_blocks :
    (d k i j : ℕ)
    → j < k
    → get_or (init_blocks d k i) j no_block ≡ record (new_block d) { pattern = i + j }
unfolding init_blocks
get_or-init_blocks d zero i j h = absurd (omega arith)
get_or-init_blocks d (suc k) i zero h =
    ap (λ p. let b : Block = record (new_block d) { pattern = p } in b) (omega arith)
get_or-init_blocks d (suc k) i (suc j) h =
    get_or-init_blocks d k (i + 1) j (omega arith)
    ∙ ap (λ p. let b : Block = record (new_block d) { pattern = p } in b) (omega arith)

entry-made : (d c x : ℕ) → x < c → entry (made d c) x ≡ record (new_block d) { pattern = x }
entry-made d c x l =
    let z : 0 + x ≡ x = omega arith in
    ap (block_at (made d c)) (get_or-range_from c 0 x l ∙ z)
    ∙ get_or-init_blocks d c 0 x l
    ∙ ap (λ p. let b : Block = record (new_block d) { pattern = p } in b) z

count-replicate : (q n : ℕ) → q ≢ invalid → count q (replicate n empty_pair) ≡ 0
unfolding count
count-replicate q zero h = refl
count-replicate q (suc n) h = ground (arith, count-replicate q n h)

module _ (h : ℕ → ℕ) where
  new_block-BlockFits :
      (d x : ℕ) → x < 2 ^ d → BlockFits h d x (record (new_block d) { pattern = x })
  unfolding new_block
  new_block-BlockFits d x l = record {
    size = length-replicate num_slot empty_pair;
    idle = refl;
    shallow = omega arith;
    pattern = sym (mod-eq_of_lt l);
    once = λ q n. omega (arith, count-replicate q num_slot n);
    placed = λ q n c. absurd (omega (arith, count-replicate q num_slot n));
  }

  made-IsValid : (d : ℕ) → d ≤ 30 → IsValid h (made d (2 ^ d))
  unfolding new_block
  made-IsValid d small = record {
    depth = small;
    capacity = refl;
    entries = length-range_from (2 ^ d) 0;
    unlocked = refl;
    within =
        λ i l. rw (get_or-range_from (2 ^ d) 0 i l, length-init_blocks d (2 ^ d) 0) (omega arith);
    fits = λ i l. rw (entry-made d (2 ^ d) i l) (new_block-BlockFits d i l);
    shared = λ i j l m e. ap (address (made d (2 ^ d))) (
        sym (mod-eq_of_lt l)
        ∙ (let f : i % 2 ^ d ≡ j % 2 ^ d =
              subst (λ b. i % 2 ^ b.local_depth ≡ j % 2 ^ b.local_depth) (entry-made d (2 ^ d) i l)
                e in
            f)
        ∙ mod-eq_of_lt m);
  }

  -- The constructor with a power of two, 2 ^ d with d at most 30, sets up a valid index of global
  -- depth d in which every key reads as NONE.
  pub create-IsValid :
      (d : ℕ)
      → d ≤ 30
      → (create (some (2 ^ d)) ≡ some (built (2 ^ d)))
        × IsValid h (built (2 ^ d))
        × ((built (2 ^ d)).global_depth ≡ d)
        × ((k : ℕ) → k ≢ invalid → get h (built (2 ^ d)) k ≡ 0)
  create-IsValid d small =
      rw (built-made (2 ^ d), floor_log2-pow 64 d (omega arith))
        (
          create-built (2 ^ d) (pow-pos d) (pow-lt d 32 (omega arith))
              ∙ ap some (
                  built-made (2 ^ d)
                  ∙ ap (λ g. made g (2 ^ d)) (floor_log2-pow 64 d (omega arith))),
          made-IsValid d small,
          refl,
          λ k n.
              get-home h (made-IsValid d small) k
              ∙ ap (λ b. extract_slots k b.slots)
                  (entry-made d (2 ^ d) (home h (made d (2 ^ d)) k) (home-lt h (made d (2 ^ d)) k))
              ∙ unfold new_block in
                extract-eq-zero k (replicate num_slot empty_pair) (count-replicate k num_slot n),
        )

  -- A block of another pattern refuses the pair, whatever its counter.
  insert-astray :
      (b : Block) (key value : ℕ)
      → b.local_depth ≤ 63
      → h key % 2 ^ b.local_depth ≢ b.pattern
      → Block.insert b key value (h key) ≡ (negsuc 1, b)
  unfolding Block.insert
  insert-astray b key value small apart =
      let other : (bit_and (h key) (depth_mask b.local_depth) == b.pattern) ≡ false =
        rw (mask_lem b.local_depth (h key) small) (ground arith) in
      elim (Bool-cases (is_neg b.sema)) [
        | inl busy ↦ rw busy refl
        | inr idle ↦ rw (idle, other) refl
      ]

  -- Such a refusal changes nothing, so that every round is like the first.
  insert-endless :
      (fuel : ℕ) (t : ExtendibleHash) (key value : ℕ)
      → Block.insert (block_at t (locate t (h key))) key value (h key)
        ≡ (negsuc 1, block_at t (locate t (h key)))
      → insert h fuel t key value ≡ none
  unfolding insert try_insert locate
  insert-endless zero t key value e = refl
  insert-endless (suc fuel) t key value e =
      ap (resume) e
      ∙ ap (λ heap. let u : ExtendibleHash = record t { heap = heap } in insert h fuel u key value)
          (set-get_or t.heap (locate t (h key)) no_block)
      ∙ insert-endless fuel t key value e
    where
      resume : ℤ × Block → Option ExtendibleHash
      resume r =
          let t' : ExtendibleHash = record t { heap = set t.heap (locate t (h key)) r.1 } in
          elim r.0 [
            | pos i ↦ some t'
            | negsuc (suc n) ↦ insert h fuel t' key value
            | negsuc zero ↦ elim (split_full h t' (h key) (locate t' (h key))) [
              | none ↦ none
              | some t'' ↦ insert h fuel t'' key value
            ]
          ]

  -- The constructor takes a capacity c from 1 to 2 ^ 32 - 1. If the hash of a key has another remainder
  -- by c than by the greatest power of two up to c, `Put` of the key into the fresh index never
  -- returns: no fuel is enough.
  pub insert-create_endless :
      (fuel c key value : ℕ)
      → 0 < c
      → c < 2 ^ 32
      → h key % 2 ^ floor_log2 64 c ≢ h key % c
      → (create (some c) ≡ some (built c)) × (insert h fuel (built c) key value ≡ none)
  insert-create_endless fuel c key value p small apart =
      let d = floor_log2 64 c in
      let x = h key % c in
      let z : 0 + x ≡ x = omega arith in
      let found : locate (made d c) (h key) ≡ x =
        unfold locate in get_or-range_from c 0 x (mod-lt (h key) p) ∙ z in
      let b : Block = record (new_block d) { pattern = x } in
      let at : block_at (made d c) (locate (made d c) (h key)) ≡ b =
        ap (block_at (made d c)) (found ∙ sym (get_or-range_from c 0 x (mod-lt (h key) p) ∙ z))
        ∙ entry-made d c x (mod-lt (h key) p) in
      let deep : b.local_depth ≤ 63 =
        unfold new_block in omega (arith, floor_log2-lt 64 c 32 p small) in
      let other : h key % 2 ^ b.local_depth ≢ x = unfold new_block in apart in
      (
        create-built c p small,
        ap (λ t. insert h fuel t key value) (built-made c)
            ∙ insert-endless fuel (made d c) key value (
                subst (λ b. Block.insert b key value (h key) ≡ (negsuc 1, b)) (sym at)
                  (insert-astray b key value deep other)),
      )
