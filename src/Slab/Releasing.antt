-- ===== src/Slab/Releasing.antt =====
-- `Free` takes one allocation away, and refuses a pointer to none.
use rec_store.Prelude.{
  ℕ, zero, suc, ◌+◌, ◌-◌, ◌*◌, ◌/◌, ◌%◌, ◌≤◌, ◌<◌, ◌≡◌, ◌≢◌, refl, sym, ap, ◌∙◌, arith, true, false,
  not, ◌&&◌, ◌||◌, List, ◌==◌, ltb, if◌then◌else◌, Bool-cases, inl, inr,
}
use rec_store.Prelude.Int.{ℤ, pos, negsuc}
use rec_store.Slab.State.{
  Malloc, block, block_num_of, is_used, all_used, unused_memory_valid, valid_sized, free_blocks,
  sub64,
}
use rec_store.Slab.Release.{remember, free_sized, free_at, free}
use rec_store.Slab.Invariant.{
  IsValid, released, header-clear, header-live, release-Holds, block-cleared,
}

all_used-true :
    (ws : List ℕ) (n i : ℕ)
    → ((j : ℕ) → i ≤ j → j < i + n → is_used ws j ≡ true)
    → all_used ws n i ≡ true
unfolding all_used
all_used-true ws zero i h = refl
all_used-true ws (suc n) i h = ground (
  arith,
  h i (omega arith) (omega arith),
  all_used-true ws n (i + 1) (λ j a b. h j (omega arith) (omega arith)),
)

all_used-first : (ws : List ℕ) (n i : ℕ) → 0 < n → all_used ws n i ≡ true → is_used ws i ≡ true
unfolding all_used
all_used-first ws zero i p h = absurd (omega arith)
all_used-first ws (suc n) i p h = ground arith

valid_sized-first :
    (s : Malloc) (i : ℕ) (z : ℤ)
    → z ≢ pos 0
    → valid_sized s i z ≡ true
    → is_used s.words (i + 1) ≡ true
valid_sized-first s i (negsuc n) nonzero e = absurd (ground arith)
valid_sized-first s i (pos zero) nonzero e = absurd (nonzero refl)
valid_sized-first s i (pos (suc n)) nonzero e =
    all_used-first s.words (suc n) (i + 1) (omega arith) (ground arith)

abbrev abs : ℤ → ℕ
abs (pos n) = n
abs (negsuc n) = n + 1

pub pos-positive : (n : ℕ) → 0 < n → pos n ≢ pos 0
pos-positive n l e = omega (arith, ap abs e)

module _ (city_hash : ℕ → ℕ) where
  -- The state after allocation h is freed.
  abbrev pub freed : Malloc → (ℕ → ℕ) → ℕ → Malloc
  freed s live h = record s {
    fast_malloc_lists =
        if s.enable_fast_malloc
        then remember city_hash s.fast_malloc_lists (live h) h
        else s.fast_malloc_lists;
    words = free_blocks s.words (live h + 1) h;
    total_used = sub64 s.total_used (live h + 1);
    total_malloc = sub64 s.total_malloc 1;
  }

  module _ {s : Malloc} {live : ℕ → ℕ} (v : IsValid s live) (h : ℕ) where
    -- The pointer behind a header passes the test of the range.
    range :
        h + 1 < s.block_num
        → ((ltb (8 * (h + 1)) 8
              || (not (8 * (h + 1) % 8 == 0) || ltb (s.block_num * 8) (8 * (h + 1))))
            ≡ false)
          × ((8 * (h + 1) == s.block_num * 8) ≡ false)
          × (8 * (h + 1) / 8 - 1 ≡ h)
    range l = (ground arith, ground arith, omega arith)

    valid_header : 0 < live h → unused_memory_valid s h ≡ true
    unfolding unused_memory_valid
    valid_header l =
        let inside = v.holds.inside h l in
        let fits : ltb s.block_num (h + 1 + live h) ≡ false = ground arith in
        ap (valid_sized s h) (v.holds.header h l)
        ∙ rw fits (
            all_used-true s.words (live h) (h + 1)
              (λ j a b. v.holds.marked h j (omega arith) (omega arith)))

    free-free_at : h + 1 < s.block_num → free city_hash s (8 * (h + 1)) ≡ free_at city_hash s h
    unfolding free
    free-free_at l = let (a, b, c) = range l in rw (a, b) (ap (free_at city_hash s) c)

    free_at-freed : 0 < live h → free_at city_hash s h ≡ (true, freed s live h)
    free_at-freed l =
        let test : (not (is_used s.words h) && unused_memory_valid s h) ≡ true =
          ground (arith, header-clear v.holds h l, valid_header l) in
        rw test (ap (free_sized city_hash s h) (v.holds.header h l))

    -- A block that is no header, and whose word is no size of 0 blocks, is not freed.
    free_at-refused :
        h + 1 < s.block_num
        → live h ≡ 0
        → block_num_of (block s h) ≢ pos 0
        → free_at city_hash s h ≡ (false, s)
    free_at-refused l dead nonzero =
        let test : (not (is_used s.words h) && unused_memory_valid s h) ≡ false =
          elim (Bool-cases (is_used s.words h)) [
            | inl used ↦ rw used
            | inr clear ↦ elim (Bool-cases (unused_memory_valid s h)) [
              | inr bad ↦ rw (clear, bad)
              | inl ok ↦
                  let next =
                    valid_sized-first s h (block_num_of (block s h)) nonzero
                      (unfold unused_memory_valid in ok) in
                  absurd (omega (arith, header-live v.holds h l clear next))
            ]
          ] in
        rw test

  -- `Free` of a live allocation on a valid state succeeds, and the state is valid without it;
  -- freeing it again fails and changes nothing.
  pub free-twice :
      {s : Malloc} {live : ℕ → ℕ} (v : IsValid s live) (h : ℕ)
      → 0 < live h
      → (free city_hash s (8 * (h + 1)) ≡ (true, freed s live h))
        × IsValid (freed s live h) (released live h)
        × (free city_hash (freed s live h) (8 * (h + 1)) ≡ (false, freed s live h))
  free-twice {s} {live} v h l =
      let inside = v.holds.inside h l in
      let w : IsValid (freed s live h) (released live h) = record {
        holds = release-Holds v.holds h l;
        start = v.start;
      } in
      let gone : released live h h ≡ 0 = ground arith in
      (
        free-free_at v h (omega arith) ∙ free_at-freed v h l,
        w,
        free-free_at w h (omega arith)
            ∙ free_at-refused w h (omega arith) gone (λ e.
              pos-positive (live h) l (
                sym (v.holds.header h l)
                ∙ sym (ap block_num_of (block-cleared v.holds h l h))
                ∙ e)),
      )
