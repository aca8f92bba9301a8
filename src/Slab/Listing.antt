-- ===== src/Slab/Listing.antt =====
-- `GetMallocsAppend` lists the live allocations, and `AddMallocs4Recovery` brings one back.
use rec_store.Prelude.{
  ℕ, zero, suc, ◌+◌, ◌-◌, ◌*◌, ◌<◌, ◌≡◌, refl, sym, ap, ◌∙◌, arith, false, List, [], ◌∷◌, some,
  ◌==◌, ltb, if◌then◌else◌, Bool-cases, inl, inr, dec_lt, ==_iff,
}
use rec_store.Prelude.Int.{pos}
use rec_store.Slab.State.{Malloc, block, block_num_of}
use rec_store.Slab.Release.{mallocs_from, get_mallocs}
use rec_store.Slab.Releasing.{pos-positive}
use rec_store.Slab.Invariant.{IsValid, header-clear, header-live}

-- The headers from i on, n of them at most, in order, as pointers.
abbrev pub headers : (ℕ → ℕ) → ℕ → ℕ → List ℕ
headers live zero i = []
headers live (suc n) i =
    let rest = headers live n (i + 1) in if ltb 0 (live i) then (i + 1) * 8 ∷ rest else rest

nonzero_header : (w n : ℕ) → block_num_of w ≡ pos n → 0 < n → (w == 0) ≡ false
unfolding block_num_of
nonzero_header w n e l = elim (Bool-cases (w == 0)) [
  | inr ok ↦ ok
  | inl z ↦ absurd (pos-positive n l (sym e ∙ ap block_num_of ((==_iff w 0).0 z)))
]

module _ {s : Malloc} {live : ℕ → ℕ} (v : IsValid s live) where
  mallocs_from-headers :
      (n i : ℕ) → i + n < s.block_num → mallocs_from s n i ≡ some (headers live n i)
  unfolding mallocs_from
  mallocs_from-headers zero i l = refl
  mallocs_from-headers (suc n) i l =
      let rest = mallocs_from-headers n (i + 1) (omega arith) in
      elim (dec_lt 0 (live i)) [
        | yes h ↦ ground (
          arith,
          rest,
          header-clear v.holds i h,
          v.holds.marked i (i + 1) (omega arith) (omega arith),
          nonzero_header (block s i) (live i) (v.holds.header i h) h,
        )
        | no h ↦ ground (arith, rest, header-live v.holds i (omega arith))
      ]

  -- On a valid state with a block, `GetMallocsAppend` fails no CHECK and lists the live allocations,
  -- all of them and nothing else, in the order of their addresses.
  pub get_mallocs-headers :
      0 < s.block_num → get_mallocs s ≡ some (headers live (s.block_num - 1) 0)
  unfolding get_mallocs
  get_mallocs-headers l = mallocs_from-headers (s.block_num - 1) 0 (omega arith)
