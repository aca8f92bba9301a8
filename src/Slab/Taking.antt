-- ===== src/Slab/Taking.antt =====
-- `New` without the fast path gives out blocks that no live allocation has.
use rec_store.Prelude.{
  ℕ, ◌+◌, ◌-◌, ◌*◌, ◌/◌, ◌%◌, ◌^◌, ◌<◌, ◌≡◌, refl, ap, ◌∙◌, arith, Bool, true, false, Option, none,
  some, List, ◌==◌, ◌⊎◌, inl, inr, length-set,
}
use native.Mathlib.Nat.{mod-lt}
use rec_store.Slab.State.{Malloc, use_blocks}
use rec_store.Slab.Allocate.{
  Outcome, search, header_written, counted, use_checked, new_by_loop, new, find_list, by_queue,
  loop_fuel,
}
use rec_store.Slab.Bits.{is_used-write, use_checked-use_blocks}
use rec_store.Slab.Search.{Bad, search-Searched_start}
use rec_store.Slab.Invariant.{IsValid, placed, Fits-Clear, place-Holds, fresh}
use rec_store.Slab.Sizing.{block_num_of-small}

-- The state after k blocks from m are taken.
abbrev pub taken : Malloc → ℕ → ℕ → ℕ → Malloc
taken s size k m = record (counted s k) {
  words = use_blocks (header_written s m size) k (m + 1);
  last_malloc_block = (m + k + 1) % s.block_num;
}

abbrev finish : Malloc → ℕ → ℕ → ℕ → Option (List ℕ) → Option (Option ℕ × Malloc)
finish s size k m none = none
finish s size k m (some ws) =
    let s' : Malloc = record (counted s k) {
      words = ws;
      last_malloc_block = (m + k + 1) % s.block_num;
    } in
    some (some (8 * (m + 1)), s')

abbrev after : Malloc → ℕ → ℕ → Outcome → Option (Option ℕ × Malloc)
after s size k Outcome.exhausted = none
after s size k Outcome.full = some (none, s)
after s size k (Outcome.found m) =
    finish s size k m (use_checked (header_written s m size) k (m + 1))

new_by_loop-after :
    (s : Malloc) (size k : ℕ) (r : Outcome)
    → search (loop_fuel s.block_num) s.words s.block_num k 0 s.last_malloc_block ≡ r
    → new_by_loop s size k ≡ after s size k r
unfolding new_by_loop
new_by_loop-after s size k r e = ap (after s size k) e

-- What `New` promises without the fast path, for k blocks: a pointer behind a header m, where k
-- blocks and the header belong to no live allocation, or NULL, and then there is no room.
abbrev pub Given : Malloc → (ℕ → ℕ) → ℕ → ℕ → Option (Option ℕ × Malloc) → Type 0
Given s live size k r =
    ((r ≡ some (none, s)) × ((x : ℕ) → Bad s.words s.block_num k x))
    ⊎ ((m : ℕ) × (r ≡ some (some (8 * (m + 1)), taken s size k m))
        × (live m ≡ 0)
        × IsValid (taken s size k m) (placed live m k))

new_by_loop-Given :
    {s : Malloc} {live : ℕ → ℕ} (v : IsValid s live) (size : ℕ)
    → 0 < size
    → size < 2 ^ 31 - 7
    → Given s live size ((size + 7) / 8) (new_by_loop s size ((size + 7) / 8))
new_by_loop-Given {s} {live} v size positive small =
    let k = (size + 7) / 8 in
    let bn = s.block_num in
    elim (search-Searched_start s.words bn k s.last_malloc_block v.start) [
      | inl (e, bad) ↦ inl (new_by_loop-after s size k Outcome.full e, bad)
      | inr (m, e, end, fits) ↦
          let ws = header_written s m size in
          let clear = Fits-Clear bn s.words k m fits in
          let size_set = length-set s.words (bn / 64 + m) size in
          let ok =
            use_checked-use_blocks k ws (m + 1) (omega (arith, size_set, v.holds.room)) (λ j a b.
              let at : m + (j - m) ≡ j = omega arith in
              is_used-write s.words (bn / 64 + m) size j (omega (arith, v.holds.room))
                (omega (arith, v.holds.whole))
              ∙ rw at at (fits (j - m) (omega arith))) in
          inr (
            m,
            new_by_loop-after s size k (Outcome.found m) e ∙ ap (finish s size k m) ok,
            fresh v.holds m k size (omega arith) end clear (block_num_of-small size small),
            record {
              holds =
                  place-Holds v.holds m k size (omega arith) end clear
                    (block_num_of-small size small);
              start = omega (arith, mod-lt (m + k + 1) {m = bn} (omega arith));
            },
          )
    ]

module _ (city_hash : ℕ → ℕ) where
  -- There is no queue of freed blocks to try.
  abbrev pub NoQueue : Malloc → ℕ → Type 0
  NoQueue s k =
      (s.enable_fast_malloc ≡ false) ⊎ (find_list (city_hash k) s.fast_malloc_lists ≡ none)

  by_queue-none :
      (s : Malloc) (size k : ℕ) (queue : Option (List ℕ)) (enabled : Bool)
      → ((enabled ≡ false) ⊎ (queue ≡ none))
      → by_queue city_hash s size k queue enabled ≡ new_by_loop s size k
  by_queue-none s size k none enabled off = refl
  by_queue-none s size k (some queue) false off = refl
  by_queue-none s size k (some queue) true (inl e) = absurd (ground arith)
  by_queue-none s size k (some queue) true (inr e) = absurd (ground arith)

  new-new_by_loop :
      (s : Malloc) (size : ℕ)
      → 0 < size
      → NoQueue s ((size + 7) / 8)
      → new city_hash s size ≡ new_by_loop s size ((size + 7) / 8)
  unfolding new
  new-new_by_loop s size positive off =
      let nonzero : (size == 0) ≡ false = ground arith in
      rw nonzero (by_queue-none s size ((size + 7) / 8) _ s.enable_fast_malloc off)

  -- `New` for a size from 1 to 2 ^ 31 - 8 on a valid state, where the fast path is disabled or has
  -- no queue for the size, returns, and no CHECK fails: either it gives out a header and its blocks
  -- that no live allocation holds, after which the state is valid with that allocation added; or it
  -- gives NULL and changes nothing, and then no run of k + 2 clear bits starts at a block from which
  -- the header and the k blocks fit.
  pub new-Given :
      {s : Malloc} {live : ℕ → ℕ} (v : IsValid s live) (size : ℕ)
      → 0 < size
      → size < 2 ^ 31 - 7
      → NoQueue s ((size + 7) / 8)
      → Given s live size ((size + 7) / 8) (new city_hash s size)
  new-Given {s} {live} v size positive small off =
      rw (new-new_by_loop s size positive off) (new_by_loop-Given v size positive small)
