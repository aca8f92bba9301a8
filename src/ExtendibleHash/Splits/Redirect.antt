-- ===== src/ExtendibleHash/Splits/Redirect.antt =====
-- A directory in which the entries of one block have been redirected to its two halves, doubled or
-- not: the index is valid again, and every key reads as before.
use rec_store.Prelude.{
  ℕ, zero, suc, ◌+◌, ◌%◌, ◌^◌, ◌≤◌, ◌<◌, ◌≡◌, ◌≢◌, refl, sym, ap, ◌∙◌, arith, Bool, true, false,
  List, [], ◌∷◌, ◌++◌, ◌==◌, if◌then◌else◌, length, get_or, set, length-append, length-set,
  get_or-set, get_or-append_left, get_or-append_right, Bool-cases, inl, inr, ==_iff,
}
use rec_store.Prelude.Bits.{mod-pow_suc, mod-pow_suc_congr, mod-pow_suc_inv, mod-mod_pow, pow-pos}
use native.Mathlib.Nat.{mod-lt}
use rec_store.ExtendibleHash.Slots.{invalid, extract_slots}
use rec_store.ExtendibleHash.Slots.Counting.{tally}
use rec_store.ExtendibleHash.Block.{Block}
use rec_store.ExtendibleHash.Ops.{ExtendibleHash, no_block, block_at, get}
use rec_store.ExtendibleHash.Invariant.{
  address, entry, BlockFits, IsValid, home, home-lt, get-home, same_block,
}
use rec_store.ExtendibleHash.Splits.Halves.{bit_of, Half}

abbrev pub pick : Block → Block → ℕ → Block
pick c0 c1 b = if b == 0 then c0 else c1

module _ (h : ℕ → ℕ) {t : ExtendibleHash} (v : IsValid h t) (x : ℕ) (x_in : x < 2 ^ t.global_depth)
    (g : ℕ) (grows : t.global_depth ≤ g) (small : g ≤ 30) (deep : (entry t x).local_depth < g)
    (es : List ℕ) (size : length es ≡ 2 ^ g)
    (redirect : (j : ℕ)
      → j < 2 ^ g
      → get_or es j 0 ≡ (
          if x % 2 ^ (entry t x).local_depth == j % 2 ^ (entry t x).local_depth
          then length t.heap + bit_of j (entry t x).local_depth
          else address t (j % 2 ^ t.global_depth)))
    (old c0 c1 : Block) (half0 : Half h (entry t x).local_depth x (entry t x).slots 0 c0)
    (half1 : Half h (entry t x).local_depth x (entry t x).slots 1 c1) where
  abbrev pub redirected : ExtendibleHash
  redirected = record {
    dir = record { entries = es; capacity = 2 ^ g; lock = false };
    global_depth = g;
    heap = set t.heap (address t x) old ++ c0 ∷ c1 ∷ [];
  }

  abbrev l : ℕ
  l = (entry t x).local_depth

  abbrev touched : ℕ → Bool
  touched j = x % 2 ^ l == j % 2 ^ l

  bit-lt : (j : ℕ) → bit_of j l < 2
  bit-lt j = omega arith

  pick-Half : (b : ℕ) → b < 2 → Half h l x (entry t x).slots b (pick c0 c1 b)
  pick-Half zero p = half0
  pick-Half (suc zero) p = half1
  pick-Half (suc (suc b)) p = absurd (omega arith)

  heap_new : (b : ℕ) → b < 2 → get_or redirected.heap (length t.heap + b) no_block ≡ pick c0 c1 b
  heap_new b p =
      let base = set t.heap (address t x) old in
      let e : length t.heap + b ≡ length base + b = rw length-set refl in
      ap (λ a. get_or redirected.heap a no_block) e
      ∙ get_or-append_right base (c0 ∷ c1 ∷ []) b no_block
      ∙ two b p
    where
      two : (b : ℕ) → b < 2 → get_or (c0 ∷ c1 ∷ []) b no_block ≡ pick c0 c1 b
      two zero p = refl
      two (suc zero) p = refl
      two (suc (suc b)) p = absurd (omega arith)

  address-touched :
      (j : ℕ) → j < 2 ^ g → touched j ≡ true → address redirected j ≡ length t.heap + bit_of j l
  address-touched j p e = redirect j p ∙ rw e refl

  address-untouched :
      (j : ℕ)
      → j < 2 ^ g
      → touched j ≡ false
      → address redirected j ≡ address t (j % 2 ^ t.global_depth)
  address-untouched j p e = redirect j p ∙ rw e refl

  entry-touched :
      (j : ℕ) → j < 2 ^ g → touched j ≡ true → entry redirected j ≡ pick c0 c1 (bit_of j l)
  entry-touched j p e =
      ap (λ a. get_or redirected.heap a no_block) (redirect j p ∙ rw e refl)
      ∙ heap_new (bit_of j l) (bit-lt j)

  abbrev back : ℕ → ℕ
  back j = j % 2 ^ t.global_depth

  back-lt : (j : ℕ) → back j < 2 ^ t.global_depth
  back-lt j = mod-lt j (pow-pos t.global_depth)

  back-mod : (j m : ℕ) → m ≤ t.global_depth → back j % 2 ^ m ≡ j % 2 ^ m
  back-mod j m b = mod-mod_pow m t.global_depth j b

  shallow : l ≤ t.global_depth
  shallow = (v.fits x x_in).shallow

  -- An entry of the split block is touched.
  touched_of_address : (j : ℕ) → address t x ≡ address t (back j) → touched j ≡ true
  touched_of_address j e =
      (==_iff _ _).1 (same_block h v x (back j) x_in (back-lt j) e ∙ back-mod j l shallow)

  address_of_touched : (j : ℕ) → touched j ≡ true → address t x ≡ address t (back j)
  address_of_touched j e =
      v.shared x (back j) x_in (back-lt j) ((==_iff _ _).0 e ∙ sym (back-mod j l shallow))

  entry-untouched : (j : ℕ) → j < 2 ^ g → touched j ≡ false → entry redirected j ≡ entry t (back j)
  entry-untouched j p e =
      let a = address t (back j) in
      let inside = v.within (back j) (back-lt j) in
      ap (λ a. get_or redirected.heap a no_block) (redirect j p ∙ rw e refl)
      ∙ get_or-append_left (set t.heap (address t x) old) (c0 ∷ c1 ∷ []) a no_block
          (rw length-set inside)
      ∙ get_or-set t.heap (address t x) a old no_block (v.within x x_in)
      ∙ elim (Bool-cases (address t x == a)) [
        | inl same ↦ absurd (ground (arith, touched_of_address j ((==_iff _ _).0 same)))
        | inr other ↦ rw other refl
      ]

  fits-touched : (j : ℕ) → touched j ≡ true → BlockFits h g j (pick c0 c1 (bit_of j l))
  fits-touched j e =
      let b = bit_of j l in
      let f = pick-Half b (bit-lt j) in
      let low : x % 2 ^ l ≡ j % 2 ^ l = (==_iff _ _).0 e in
      record {
        size = f.size;
        idle = f.idle;
        shallow = rw f.depth deep;
        pattern = f.pattern ∙ rw (f.depth, low) (sym (mod-pow_suc l j));
        once = λ q n. ground (arith, f.counts q n, (v.fits x x_in).once q n);
        placed = λ q n c.
            let (same, there) = of_half q b (f.counts q n) c in
            rw f.depth (mod-pow_suc_congr l (h q) j ((v.fits x x_in).placed q n there ∙ low) same);
      }
    where
      of_half :
          (q b : ℕ) {n m : ℕ}
          → n ≡ (if bit_of (h q) l == b then m else 0)
          → 0 < n
          → (bit_of (h q) l ≡ b) × (0 < m)
      of_half q b e p = ground arith

  depth-touched : (j : ℕ) → j < 2 ^ g → touched j ≡ true → (entry redirected j).local_depth ≡ suc l
  depth-touched j p e =
      ap (λ c. c.local_depth) (entry-touched j p e) ∙ (pick-Half (bit_of j l) (bit-lt j)).depth

  -- Entries that agree on l + 1 bits, or on the bits of an untouched block, share their block.
  shared-touched :
      (i j : ℕ)
      → i < 2 ^ g
      → j < 2 ^ g
      → touched i ≡ true
      → i % 2 ^ (entry redirected i).local_depth ≡ j % 2 ^ (entry redirected i).local_depth
      → address redirected i ≡ address redirected j
  shared-touched i j p q e agree =
      let (low, same) = mod-pow_suc_inv l i j (rw (depth-touched i p e) at agree) in
      let e' : touched j ≡ true = (==_iff _ _).1 ((==_iff _ _).0 e ∙ low) in
      address-touched i p e ∙ ap (λ b. length t.heap + b) same ∙ sym (address-touched j q e')

  shared-untouched :
      (i j : ℕ)
      → i < 2 ^ g
      → j < 2 ^ g
      → touched i ≡ false
      → i % 2 ^ (entry redirected i).local_depth ≡ j % 2 ^ (entry redirected i).local_depth
      → address redirected i ≡ address redirected j
  shared-untouched i j p q e agree =
      let m = (entry t (back i)).local_depth in
      let m_le = (v.fits (back i) (back-lt i)).shallow in
      let agree' : i % 2 ^ m ≡ j % 2 ^ m = rw (entry-untouched i p e) at agree in
      let same : address t (back i) ≡ address t (back j) =
        v.shared (back i) (back j) (back-lt i) (back-lt j)
          (back-mod i m m_le ∙ agree' ∙ sym (back-mod j m m_le)) in
      elim (Bool-cases (touched j)) [
        | inl e' ↦
            let a = touched_of_address i (address_of_touched j e' ∙ sym same) in
            absurd (ground (arith, a))
        | inr e' ↦ address-untouched i p e ∙ same ∙ sym (address-untouched j q e')
      ]

  fits-untouched : (j : ℕ) → BlockFits h g j (entry t (back j))
  fits-untouched j =
      let f = v.fits (back j) (back-lt j) in
      let e = back-mod j (entry t (back j)).local_depth f.shallow in
      record {
        size = f.size;
        idle = f.idle;
        shallow = omega (arith, f.shallow);
        pattern = f.pattern ∙ e;
        once = f.once;
        placed = λ q n c. f.placed q n c ∙ e;
      }

  within-redirected : (j : ℕ) → j < 2 ^ g → address redirected j < length redirected.heap
  within-redirected j p =
      let n = length-append (set t.heap (address t x) old) (c0 ∷ c1 ∷ []) in
      let m = length-set t.heap (address t x) old in
      elim (Bool-cases (touched j)) [
        | inl e ↦ rw (address-touched j p e) (omega (arith, n, m, bit-lt j))
        | inr e ↦ rw (address-untouched j p e) (omega (arith, n, m, v.within (back j) (back-lt j)))
      ]

  pub redirected-IsValid : IsValid h redirected
  redirected-IsValid = record {
    depth = small;
    capacity = refl;
    entries = size;
    unlocked = refl;
    within = within-redirected;
    fits = λ j p. elim (Bool-cases (touched j)) [
      | inl e ↦ rw (entry-touched j p e) (fits-touched j e)
      | inr e ↦ rw (entry-untouched j p e) (fits-untouched j)
    ];
    shared = λ i j p q agree. elim (Bool-cases (touched i)) [
      | inl e ↦ shared-touched i j p q e agree
      | inr e ↦ shared-untouched i j p q e agree
    ];
  }

  -- Every key reads as before.
  pub get-redirected : (q : ℕ) → q ≢ invalid → get h redirected q ≡ get h t q
  get-redirected q n =
      let j = home h redirected q in
      let p = home-lt h redirected q in
      let b : back j ≡ home h t q = mod-mod_pow t.global_depth g (h q) grows in
      get-home h redirected-IsValid q ∙ elim (Bool-cases (touched j)) [
        | inl e ↦
            let a : address t x ≡ address t (home h t q) =
              address_of_touched j e ∙ ap (address t) b in
            let same = (mod-pow_suc_inv l j (h q) (mod-mod_pow (suc l) g (h q) deep)).1 in
            rw (entry-touched j p e) ((pick-Half (bit_of j l) (bit-lt j)).reads q n (sym same))
            ∙ ap (λ c. extract_slots q (block_at t c).slots) a
            ∙ sym (get-home h v q)
        | inr e ↦ rw (entry-untouched j p e, b) (sym (get-home h v q))
      ]

  -- The block that a key of the split block now goes to is one bit deeper and holds no more keys
  -- of any kind.
  pub entry-home-redirected :
      (k : ℕ)
      → h k % 2 ^ l ≡ x % 2 ^ l
      → ((entry redirected (home h redirected k)).local_depth ≡ suc l)
        × ((p : ℕ → Bool)
            → tally p (entry redirected (home h redirected k)).slots ≤ tally p (entry t x).slots)
  entry-home-redirected k same =
      let j = home h redirected k in
      let p = home-lt h redirected k in
      let e : touched j ≡ true =
        (==_iff _ _).1 (sym same ∙ sym (mod-mod_pow l g (h k) (omega arith))) in
      (
        depth-touched j p e,
        λ f. rw (entry-touched j p e) ((pick-Half (bit_of j l) (bit-lt j)).tallies f),
      )
