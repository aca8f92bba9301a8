-- ===== src/Slab/Recovery.antt =====
-- `AddMallocs4Recovery` on the pointers of the live allocations rebuilds the bits after a restart.
use rec_store.Prelude.{
  ℕ, zero, suc, ◌+◌, ◌-◌, ◌*◌, ◌/◌, ◌%◌, ◌^◌, ◌≤◌, ◌<◌, ◌≡◌, refl, sym, ap, subst, ◌∙◌, arith, true,
  false, not, ◌||◌, List, [], ◌∷◌, some, none, Option, ◌==◌, ltb, if◌then◌else◌, Bool-cases,
  ℕ_discrete, inl, inr, dec_lt, get_or, set, set-get_or, ==_iff,
}
use rec_store.Prelude.Int.{pos, to_int, bits32}
use rec_store.Slab.State.{
  Malloc, block, block_num_of, is_used, use_blocks, add64, initialize, zero_words,
}
use mathlib.Core.Option.{some-injective}
use rec_store.Slab.Release.{get_mallocs, get_malloc_size, add_malloc}
use rec_store.Slab.Invariant.{Holds, IsValid, placed, Clear, place-Holds, block-written}
use rec_store.Slab.Sizing.{zero_words-Holds, get_or-zero_words_above}
use rec_store.Slab.Listing.{headers, get_mallocs-headers}

-- The state after the allocation of k blocks at m is added.
abbrev pub restored : Malloc → ℕ → ℕ → Malloc
restored s m k = record s {
  total_malloc = add64 s.total_malloc 1;
  total_used = add64 s.total_used (k + 1);
  words = use_blocks s.words k (m + 1);
}

block_num_of-bits32 : (w : ℕ) → block_num_of (bits32 (to_int w)) ≡ block_num_of w
unfolding block_num_of
block_num_of-bits32 w = elim (Bool-cases (ltb (w % 2 ^ 32) (2 ^ 31))) [
  | inl low ↦
      let same : (w % 2 ^ 32 % 2 ^ 32 + 7) % 2 ^ 32 ≡ (w + 7) % 2 ^ 32 = omega arith in
      rw (low, same) refl
  | inr high ↦
      let same : (2 ^ 32 - 1 - (2 ^ 32 - 1 - w % 2 ^ 32) % 2 ^ 32 + 7) % 2 ^ 32 ≡ (w + 7) % 2 ^ 32 =
        omega arith in
      rw (high, same) refl
]

add_malloc-restored :
    (s : Malloc) (m k : ℕ)
    → m + 1 < s.block_num
    → block_num_of (block s m) ≡ pos k
    → add_malloc s (8 * (m + 1)) ≡ some (restored s m k)
unfolding add_malloc get_malloc_size
add_malloc-restored s m k l e =
    let a : ltb (8 * (m + 1)) (s.block_num * 8) ≡ true = ground arith in
    let b : (8 * (m + 1) == s.block_num * 8) ≡ false = ground arith in
    let c : (ltb (8 * (m + 1)) 8
          || (not (8 * (m + 1) % 8 == 0) || ltb (s.block_num * 8) (8 * (m + 1))))
        ≡ false =
      ground arith in
    let i : 8 * (m + 1) / 8 - 1 ≡ m = omega arith in
    let j : 8 * (m + 1) / 8 ≡ m + 1 = omega arith in
    let e' = block_num_of-bits32 (block s m) ∙ e in rw (a, b, c, i, e', j) refl

module _ {s : Malloc} {live : ℕ → ℕ} (v : IsValid s live) (m k : ℕ) (some_blocks : 0 < k)
    (end : m + k + 1 ≤ s.block_num) (fits : Clear s.block_num s.words k m)
    (sized : block_num_of (block s m) ≡ pos k) where
  -- The header is in place, so that writing it would change nothing.
  same_words : set s.words (s.block_num / 64 + m) (block s m) ≡ s.words
  same_words = set-get_or s.words (s.block_num / 64 + m) 0

  restored-IsValid : IsValid (restored s m k) (placed live m k)
  restored-IsValid = record {
    holds =
        subst (λ ws. Holds s.block_num (use_blocks ws k (m + 1)) (placed live m k)) same_words
          (place-Holds v.holds m k (block s m) some_blocks end fits sized);
    start = v.start;
  }

  block-restored : (h : ℕ) → block (restored s m k) h ≡ block s h
  block-restored h =
      subst (λ ws. get_or (use_blocks ws k (m + 1)) (s.block_num / 64 + h) 0 ≡ block s h) same_words
        (block-written v.holds m k (block s m) some_blocks end fits sized h ∙ keeps)
    where
      keeps : (if m == h then block s m else block s h) ≡ block s h
      keeps = elim (Bool-cases (m == h)) [
        | inl e ↦ rw e (ap (block s) ((==_iff m h).0 e))
        | inr e ↦ rw e refl
      ]

-- The client's loop over the pointers that it has kept.
unfoldable pub recover : Malloc → List ℕ → Option Malloc
recover s [] = some s
recover s (o ∷ os) = elim (add_malloc s o) [ none ↦ none | some s' ↦ recover s' os ]

recover-step :
    (s u : Malloc) (o : ℕ) (os : List ℕ)
    → add_malloc s o ≡ some u
    → recover s (o ∷ os) ≡ recover u os
unfolding recover
recover-step s u o os e = ap (resume) e
  where
    resume : Option Malloc → Option Malloc
    resume none = none
    resume (some s') = recover s' os

-- The allocations with headers below i.
abbrev below : (ℕ → ℕ) → ℕ → ℕ → ℕ
below live i h = if ltb h i then live h else 0

-- A restart of the state s keeps the blocks, and so the headers.
module _ {bn : ℕ} {ws : List ℕ} {live : ℕ → ℕ} (old : Holds bn ws live) where
  -- The bits of the next allocation are clear while only those below it are restored.
  Clear-below :
      {s : Malloc} (i : ℕ)
      → IsValid s (below live i)
      → s.block_num ≡ bn
      → 0 < live i
      → Clear s.block_num s.words (live i) i
  Clear-below {s} i v same l j a b inside = elim (Bool-cases (is_used s.words j)) [
    | inr clear ↦ clear
    | inl used ↦
        let (h, c, d) = v.holds.covered j inside used in absurd (ground (arith, old.apart h i))
  ]

  below-suc : (i h : ℕ) → placed (below live i) i (live i) h ≡ below live (i + 1) h
  below-suc i h = elim (ℕ_discrete h i) [ yes e ↦ rw e (ground arith) | no n ↦ ground arith ]

  below-skip : (i h : ℕ) → live i ≡ 0 → below live i h ≡ below live (i + 1) h
  below-skip i h e = elim (ℕ_discrete h i) [
    | yes same ↦ rw same (ground arith)
    | no n ↦ ground arith
  ]

  -- What the loop keeps: the blocks of the old state.
  record Restores (s : Malloc) (i : ℕ) : Type 0 where
    valid : IsValid s (below live i)
    same : s.block_num ≡ bn
    blocks : (h : ℕ) → block s h ≡ get_or ws (bn / 64 + h) 0

  recover-headers :
      (n i : ℕ) (s : Malloc)
      → i + n < bn
      → Restores s i
      → (u : Malloc) × (recover s (headers live n i) ≡ some u) × Restores u (i + n)
  unfolding recover
  recover-headers zero i s l r = let e : i + 0 ≡ i = omega arith in (s, refl, rw e r)
  recover-headers (suc n) i s l r =
      let next : i + 1 + n ≡ i + suc n = omega arith in
      elim (dec_lt 0 (live i)) [
        | no dead ↦
            let z : ltb 0 (live i) ≡ false = ground arith in
            let skipped : Restores s (i + 1) = record {
              valid = subst (IsValid s) (λ ι. λ h. below-skip i h (omega arith) ι) r.valid;
              same = r.same;
              blocks = r.blocks;
            } in
            rw (z, ← next) (recover-headers n (i + 1) s (omega arith) skipped)
        | yes alive ↦
            let k = live i in
            let z : ltb 0 (live i) ≡ true = ground arith in
            let inside : i + k < bn = old.inside i alive in
            let end : i + k + 1 ≤ s.block_num = omega (arith, r.same) in
            let sized : block_num_of (block s i) ≡ pos k =
              ap block_num_of (r.blocks i) ∙ old.header i alive in
            let clear = Clear-below i r.valid r.same alive in
            let more : Restores (restored s i k) (i + 1) = record {
              valid =
                  subst (IsValid (restored s i k)) (λ ι. λ h. below-suc i h ι)
                    (restored-IsValid r.valid i k alive end clear sized);
              same = r.same;
              blocks = λ h. block-restored r.valid i k alive end clear sized h ∙ r.blocks h;
            } in
            let first : add_malloc s ((i + 1) * 8) ≡ some (restored s i k) =
              ap (add_malloc s) (omega arith)
              ∙ add_malloc-restored s i k (omega (arith, r.same)) sized in
            let (u, run, w) = recover-headers n (i + 1) (restored s i k) (omega arith) more in
            rw (z, ← next)
              (u, recover-step s (restored s i k) _ (headers live n (i + 1)) first ∙ run, w)
      ]

-- A restart of a valid state with a block: `Initialize` clears the bits, and the pointers that
-- `GetMallocsAppend` listed before bring back a valid state with the same live allocations.
pub recover-get_mallocs :
    {s : Malloc} {live : ℕ → ℕ} (v : IsValid s live) (pointers : List ℕ)
    → 0 < s.block_num
    → get_mallocs s ≡ some pointers
    → (u : Malloc) × (recover (initialize s) pointers ≡ some u) × IsValid u live
unfolding initialize
recover-get_mallocs {s} {live} v pointers l e =
    let bn = s.block_num in
    let same : headers live (bn - 1) 0 ≡ pointers =
      some-injective _ _ (sym (get_mallocs-headers v l) ∙ e) in
    let blank : Restores v.holds (initialize s) 0 = record {
      valid = record {
        holds =
            subst (Holds bn (zero_words (bn / 64) s.words)) (λ ι. λ h. none_below h ι)
              (zero_words-Holds bn s.words v.holds.whole v.holds.room);
        start = omega arith;
      };
      same = refl;
      blocks = λ h. get_or-zero_words_above (bn / 64) s.words (bn / 64 + h) (omega arith);
    } in
    let (u, run, r) = recover-headers v.holds (bn - 1) 0 (initialize s) (omega arith) blank in
    (
      u,
      ap (recover (initialize s)) (sym same) ∙ run,
      subst (IsValid u) (λ ι. λ h. all_below h ι) r.valid,
    )
  where
    none_below : (h : ℕ) → 0 ≡ below live 0 h
    none_below h = ground arith

    all_below : (h : ℕ) → below live (0 + (s.block_num - 1)) h ≡ live h
    all_below h = ground (arith, v.holds.inside h)
