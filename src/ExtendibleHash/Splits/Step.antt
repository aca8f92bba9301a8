-- ===== src/ExtendibleHash/Splits/Step.antt =====
-- `split_full`, with a directory that is deep enough and with one that must be doubled.
use rec_store.Prelude.{
  ℕ, suc, ◌+◌, ◌-◌, ◌%◌, ◌^◌, ◌≤◌, ◌<◌, ◌≡◌, ◌≢◌, refl, sym, ◌∙◌, arith, Bool, true, false, some,
  List, [], ◌∷◌, ◌++◌, ◌==◌, ltb, if◌then◌else◌, length, replicate, get_or, set, length-set,
  get_or-set, get_or-append_left, ==_self, dec_lt, lt→ltb,
}
use rec_store.Prelude.Bits.{pow-lt}
use rec_store.Prelude.Int.{negsuc, pos}
use native.Mathlib.Nat.{mod-eq_of_lt, pow-suc}
use rec_store.ExtendibleHash.Slots.{Pair, invalid, empty_pair}
use rec_store.ExtendibleHash.Slots.Counting.{tally}
use rec_store.ExtendibleHash.Slots.Splitting.{split_loop-Split}
use rec_store.ExtendibleHash.Block
use rec_store.ExtendibleHash.Block.{Block, num_slot, split_loop}
use rec_store.ExtendibleHash.Directory.{lsb_update, doubled}
use rec_store.ExtendibleHash.Directory.Update.{lsb_update_lem}
use rec_store.ExtendibleHash.Directory.Doubling.{doubled_lem}
use rec_store.ExtendibleHash.Ops.{
  ExtendibleHash, no_block, block_at, get, split_full, update_directory,
}
use rec_store.ExtendibleHash.Invariant.{address, entry, IsValid, home, home-lt, home-mod}
use rec_store.ExtendibleHash.Storing.{mypow_two}
use rec_store.ExtendibleHash.Splits.Halves.{bit_of, Half, low-Half, high-Half}
use rec_store.ExtendibleHash.Splits.Redirect.{
  redirected, redirected-IsValid, get-redirected, entry-home-redirected,
}

-- What a split step gives: a valid index with the same reads, in which the key's block is one bit
-- deeper and no fuller.
pub record Splits (h : ℕ → ℕ) (k : ℕ) (t u : ExtendibleHash) : Type 0 where
  pub valid : IsValid h u
  pub reads : (q : ℕ) → q ≢ invalid → get h u q ≡ get h t q
  pub deeper : (entry u (home h u k)).local_depth ≡ suc (entry t (home h t k)).local_depth
  pub lighter :
      (p : ℕ → Bool) → tally p (entry u (home h u k)).slots ≤ tally p (entry t (home h t k)).slots

module _ (h : ℕ → ℕ) {t : ExtendibleHash} (v : IsValid h t) (k : ℕ) where
  abbrev x : ℕ
  x = home h t k

  abbrev x_in : x < 2 ^ t.global_depth
  x_in = home-lt h t k

  abbrev full : Block
  full = entry t x

  abbrev l : ℕ
  l = full.local_depth

  abbrev fresh : List Pair
  fresh = replicate num_slot empty_pair

  abbrev low_slots : List Pair
  low_slots = (split_loop h l full.slots fresh fresh).0

  abbrev high_slots : List Pair
  high_slots = (split_loop h l full.slots fresh fresh).1

  abbrev c0 : Block
  c0 = record { slots = low_slots; local_depth = suc l; sema = pos 0; pattern = x % 2 ^ l }

  abbrev c1 : Block
  c1 = record { slots = high_slots; local_depth = suc l; sema = pos 0; pattern = x % 2 ^ l + 2 ^ l }

  abbrev closed : Block
  closed = record full { sema = negsuc 0 }

  half0 : Half h l x full.slots 0 c0
  half0 =
      let f = v.fits x x_in in
      low-Half h l x full.slots low_slots high_slots (split_loop-Split h l full.slots f.size f.once)

  half1 : Half h l x full.slots 1 c1
  half1 =
      let f = v.fits x x_in in
      high-Half h l x full.slots low_slots high_slots
        (split_loop-Split h l full.slots f.size f.once)

  abbrev s0 : ℕ
  s0 = length t.heap

  abbrev grown : ExtendibleHash
  grown = record t { heap = set t.heap (address t x) closed ++ c0 ∷ c1 ∷ [] }

  split-full :
      Block.split h full
      ≡ some (
        closed,
        record { slots = low_slots; local_depth = l + 1; sema = pos 0; pattern = 0 },
        record { slots = high_slots; local_depth = l + 1; sema = pos 0; pattern = 0 },
      )
  unfolding Block.split
  split-full = rw ((v.fits x x_in).idle, Block.split) refl

  -- The code up to the critical section.
  split_full-grown :
      split_full h t (h k) (address t x) ≡ update_directory grown (h k) s0 (s0 + 1) (suc l)
  unfolding split_full
  split_full-grown =
      let f = v.fits x x_in in
      let depth : l + 1 ≡ suc l = omega arith in
      let back : suc l - 1 ≡ l = omega arith in
      let low : h k % 2 ^ l ≡ x % 2 ^ l = sym (home-mod h t k l f.shallow) in
      rw (split-full, split_full)
        (rw (v.unlocked, depth, back, mypow_two l (omega (arith, f.shallow, v.depth)), low) refl)

  block-grown : block_at grown (address t x) ≡ closed
  block-grown =
      let inside = v.within x x_in in
      get_or-append_left (set t.heap (address t x) closed) (c0 ∷ c1 ∷ []) (address t x) no_block
        (rw length-set inside)
      ∙ get_or-set t.heap (address t x) (address t x) closed no_block inside
      ∙ rw (==_self (address t x)) refl

  -- The entries after `LSBUpdate`.
  spread : List ℕ
  spread = lsb_update (t.global_depth - suc l) (2 ^ t.global_depth) x s0 (s0 + 1) t.dir.entries

  capacity-lt : 2 ^ t.global_depth < 2 ^ 31
  capacity-lt = pow-lt t.global_depth 31 (omega (arith, v.depth))

  update-spread :
      l < t.global_depth
      → update_directory grown (h k) s0 (s0 + 1) (suc l)
        ≡ some (record {
          dir = record { entries = spread; capacity = 2 ^ t.global_depth; lock = false };
          global_depth = t.global_depth;
          heap = grown.heap;
        })
  unfolding update_directory spread
  update-spread below =
      let test : ltb l t.global_depth ≡ true = lt→ltb l t.global_depth below in
      let narrow : ltb (2 ^ t.global_depth) (2 ^ 31) ≡ true = lt→ltb _ _ capacity-lt in
      rw (v.capacity, v.unlocked, block-grown, test, narrow) refl

  spread-redirects :
      l < t.global_depth
      → (length spread ≡ 2 ^ t.global_depth)
        × ((j : ℕ)
            → j < 2 ^ t.global_depth
            → get_or spread j 0 ≡ (
                if x % 2 ^ l == j % 2 ^ l
                then s0 + bit_of j l
                else address t (j % 2 ^ t.global_depth)))
  unfolding spread
  spread-redirects below =
      let e : l + 1 ≡ suc l = omega arith in
      let (size, read) = rw e at (
        lsb_update_lem t.global_depth l x s0 (s0 + 1) t.dir.entries v.depth below x_in v.entries) in
      (size, λ j p. read j 0 p ∙ rw (mod-eq_of_lt p) (ground arith))

  -- The entries after doubling.
  twice : List ℕ
  twice = doubled (record t.dir { capacity = 2 ^ t.global_depth }) x s0 (s0 + 1)

  update-twice :
      l ≡ t.global_depth
      → update_directory grown (h k) s0 (s0 + 1) (suc l)
        ≡ some (record {
          dir = record { entries = twice; capacity = 2 ^ suc t.global_depth; lock = false };
          global_depth = suc t.global_depth;
          heap = grown.heap;
        })
  unfolding update_directory twice
  update-twice deepest =
      let test : ltb l t.global_depth ≡ false = ground arith in
      let more : t.global_depth + 1 ≡ suc t.global_depth = omega arith in
      rw (v.capacity, v.unlocked, block-grown, test, more, pow-suc) refl

  twice-redirects :
      l ≡ t.global_depth
      → (length twice ≡ 2 ^ suc t.global_depth)
        × ((j : ℕ)
            → j < 2 ^ suc t.global_depth
            → get_or twice j 0 ≡ (
                if x % 2 ^ l == j % 2 ^ l
                then s0 + bit_of j l
                else address t (j % 2 ^ t.global_depth)))
  unfolding twice
  twice-redirects deepest =
      let dir = record t.dir { capacity = 2 ^ t.global_depth } in
      let (size, read) = doubled_lem dir t.global_depth x s0 (s0 + 1) v.entries refl x_in in
      (size, λ j p. read j p ∙ rw (deepest, mod-eq_of_lt x_in) (ground arith))

  -- Any redirection of the block's entries to the two halves is such a step.
  redirect-Splits :
      (g : ℕ) (grows : t.global_depth ≤ g) (small : g ≤ 30) (below : l < g) (es : List ℕ)
      (size : length es ≡ 2 ^ g)
      (read : (j : ℕ)
        → j < 2 ^ g
        → get_or es j 0 ≡ (
            if x % 2 ^ l == j % 2 ^ l then s0 + bit_of j l else address t (j % 2 ^ t.global_depth)))
      → Splits h k t
          (redirected h v x x_in g grows small below es size read closed c0 c1 half0 half1)
  redirect-Splits g grows small below es size read =
      let low : h k % 2 ^ l ≡ x % 2 ^ l = sym (home-mod h t k l (v.fits x x_in).shallow) in
      let (deeper, lighter) =
        entry-home-redirected h v x x_in g grows small below es size read closed c0 c1 half0 half1 k
          low in
      record {
        valid =
            redirected-IsValid h v x x_in g grows small below es size read closed c0 c1 half0 half1;
        reads = get-redirected h v x x_in g grows small below es size read closed c0 c1 half0 half1;
        deeper = deeper;
        lighter = lighter;
      }

  -- The -1 branch of `Insert` on a valid index, for a block of fewer than 30 bits: the split
  -- succeeds, the index stays valid, every key reads as before, the block that the key's hash now
  -- selects is one bit deeper, and of the keys that pass any test it holds no more than the old one.
  pub split_full-Splits :
      l < 30 → (u : ExtendibleHash) × (split_full h t (h k) (address t x) ≡ some u) × Splits h k t u
  split_full-Splits room = elim (dec_lt l t.global_depth) [
    | yes below ↦
        let (size, read) = spread-redirects below in
        let s = redirect-Splits t.global_depth (omega arith) v.depth below spread size read in
        (_, split_full-grown ∙ update-spread below, s)
    | no deep ↦
        let deepest : l ≡ t.global_depth = omega (arith, (v.fits x x_in).shallow) in
        let (size, read) = twice-redirects deepest in
        let s =
          redirect-Splits (suc t.global_depth) (omega arith) (omega arith) (omega arith) twice size
            read in
        (_, split_full-grown ∙ update-twice deepest, s)
  ]
