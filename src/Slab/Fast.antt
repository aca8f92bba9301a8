-- ===== src/Slab/Fast.antt =====
-- The fast path of `New`: what its test lets pass.
use rec_store.Prelude.{
  ℕ, zero, suc, ◌+◌, ◌-◌, ◌*◌, ◌/◌, ◌^◌, ◌≤◌, ◌<◌, ◌≡◌, refl, ap, ◌∙◌, arith, true, false, some,
  List, ◌∷◌, ◌==◌,
}
use rec_store.Slab.State.{Malloc, is_used, use_blocks}
use rec_store.Slab.Allocate.{
  fast_fits, pop_fast, find_list, put_list, counted, header_written, new, by_queue, after_pop,
}
use rec_store.Slab.Search.{Fits}
use rec_store.Slab.Invariant.{IsValid, placed, Fits-Clear, place-Holds, fresh}
use rec_store.Slab.Sizing.{block_num_of-small}

fast_fits-clear :
    (ws : List ℕ) (n m : ℕ)
    → ((j : ℕ) → j ≤ n → is_used ws (m + j) ≡ false)
    → fast_fits ws n m ≡ true
unfolding fast_fits
fast_fits-clear ws zero m h = refl
fast_fits-clear ws (suc n) m h =
    let rest =
      fast_fits-clear ws n (m + 1)
        (λ j l. let e : m + suc j ≡ m + 1 + j = omega arith in rw e at (h (suc j) (omega arith))) in
    ground (arith, h 1 (omega arith))

fast_fits-used :
    (ws : List ℕ) (n m : ℕ)
    → ((i : ℕ) → m ≤ i → i < m + n → is_used ws i ≡ true)
    → fast_fits ws n m ≡ true
unfolding fast_fits
fast_fits-used ws zero m h = refl
fast_fits-used ws (suc n) m h = ground (
  arith,
  h m (omega arith) (omega arith),
  fast_fits-used ws n (m + 1) (λ i a b. h i (omega arith) (omega arith)),
)

module _ (city_hash : ℕ → ℕ) where
  -- The state after the fast path takes k blocks from the head of a queue.
  abbrev pub taken_fast : Malloc → ℕ → ℕ → ℕ → List ℕ → Malloc
  taken_fast s size k m queue = record (counted s k) {
    words = use_blocks (header_written s m size) k (m + 1);
    fast_malloc_lists = put_list (city_hash k) queue s.fast_malloc_lists;
  }

  module _ (s : Malloc) (size m : ℕ) (queue : List ℕ) (positive : 0 < size)
      (enabled : s.enable_fast_malloc ≡ true)
      (queued : find_list (city_hash ((size + 7) / 8)) s.fast_malloc_lists ≡ some (m ∷ queue)) where
    new-fast :
        fast_fits s.words ((size + 7) / 8 + 1) m ≡ true
        → new city_hash s size
          ≡ some (some (8 * (m + 1)), taken_fast s size ((size + 7) / 8) m queue)
    unfolding new
    new-fast passes =
        let k = (size + 7) / 8 in
        let nonzero : (size == 0) ≡ false = ground arith in
        let popped : pop_fast s.words (k + 1) (m ∷ queue) ≡ (some m, queue) =
          unfold pop_fast in rw passes refl in
        rw nonzero (
          ap (λ q. by_queue city_hash s size k q s.enable_fast_malloc) queued
          ∙ ap (by_queue city_hash s size k (some (m ∷ queue))) enabled
          ∙ ap (after_pop city_hash s size k) popped)

    -- If the head of the queue for the size starts a run of k + 2 clear bits that the file has room
    -- for, then `New` on a valid state takes it, and the state is valid with that allocation added.
    pub new-IsValid_fast :
        {live : ℕ → ℕ} (v : IsValid s live)
        → size < 2 ^ 31 - 7
        → m + (size + 7) / 8 + 1 ≤ s.block_num
        → Fits s.words ((size + 7) / 8) m
        → (new city_hash s size
            ≡ some (some (8 * (m + 1)), taken_fast s size ((size + 7) / 8) m queue))
          × (live m ≡ 0)
          × IsValid (taken_fast s size ((size + 7) / 8) m queue) (placed live m ((size + 7) / 8))
    new-IsValid_fast {live} v small end fits =
        let k = (size + 7) / 8 in
        let clear = Fits-Clear s.block_num s.words k m fits in
        (
          new-fast (fast_fits-clear s.words (k + 1) m fits),
          fresh v.holds m k size (omega arith) end clear (block_num_of-small size small),
          record {
            holds =
                place-Holds v.holds m k size (omega arith) end clear
                  (block_num_of-small size small);
            start = v.start;
          },
        )

    -- If the head of the queue lies behind the header g of a live allocation whose blocks reach as far
    -- as those that `New` wants, then `New` gives them out a second time, and the state is not valid
    -- with both allocations.
    pub new-overlaps :
        {live : ℕ → ℕ} (v : IsValid s live) (g : ℕ)
        → g < m
        → m + (size + 7) / 8 ≤ g + live g
        → (new city_hash s size
            ≡ some (some (8 * (m + 1)), taken_fast s size ((size + 7) / 8) m queue))
          × ¬ IsValid (taken_fast s size ((size + 7) / 8) m queue) (placed live m ((size + 7) / 8))
    new-overlaps {live} v g behind within =
        let k = (size + 7) / 8 in
        (
          new-fast (
              fast_fits-used s.words (k + 1) m
                (λ i a b. v.holds.marked g i (omega arith) (omega arith))),
          λ w.
              let other : placed live m k g ≡ live g = ground arith in
              let own : placed live m k m ≡ k = ground arith in
              omega (
                arith,
                w.holds.apart g m (omega (arith, other)) (omega (arith, own)) behind,
                other,
              ),
        )
