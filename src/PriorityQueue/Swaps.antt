-- ===== src/PriorityQueue/Swaps.antt =====
-- The map follows the swaps: it sends each value to its position, and nothing else.
use rec_store.Prelude.{
  ℕ, ◌<◌, ◌≡◌, ◌≢◌, refl, sym, ap, ◌∙◌, arith, Bool, true, false, Option, none, some, ◌==◌,
  if◌then◌else◌, ℕ_discrete, length-set, get_or-set, set,
}
use rec_store.PriorityQueue.{Queue, at, size, swap}
use rec_store.PriorityQueue.Order.{swapped}

pub record Consistent (q : Queue) : Type 0 where
  pub placed : (i : ℕ) → i < size q → q.index_map (at q i) ≡ some i
  pub found : (v i : ℕ) → q.index_map v ≡ some i → (i < size q) × (at q i ≡ v)

-- Whether the queue holds a value.
abbrev pub is_some : Option ℕ → Bool
is_some none = false
is_some (some i) = true

abbrev pub has : Queue → ℕ → Bool
has q v = is_some (q.index_map v)

-- The same values, at positions that the map knows.
pub record Kept (q r : Queue) : Type 0 where
  pub sized : size r ≡ size q
  pub consistent : Consistent r
  pub holds : (v : ℕ) → has r v ≡ has q v

pub distinct :
    {q : Queue} → Consistent q → (i j : ℕ) → i < size q → j < size q → at q i ≡ at q j → i ≡ j
distinct {q} c i j a b e =
    let s : some i ≡ some j = sym (c.placed i a) ∙ ap q.index_map e ∙ c.placed j b in ground arith

module _ {q : Queue} (c : Consistent q) (i j : ℕ) (a : i < size q) (b : j < size q)
    (apart : i ≢ j) where
  pub size-swap : size (swap q i j) ≡ size q
  unfolding swap
  size-swap = rw (length-set, length-set)

  pub at-swap : (x : ℕ) → at (swap q i j) x ≡ swapped (at q) i j x
  unfolding swap
  at-swap x =
      get_or-set (set q.data_ i (at q j)) j x (at q i) 0 (rw length-set b)
      ∙ ground (arith, get_or-set q.data_ i x (at q j) 0 a)

  map-swap :
      (v : ℕ)
      → (swap q i j).index_map v
        ≡ (if at q i == v then some j else if at q j == v then some i else q.index_map v)
  unfolding swap
  map-swap v = refl

  placed-swap : (x : ℕ) → x < size q → (swap q i j).index_map (at (swap q i j) x) ≡ some x
  placed-swap x l = elim (ℕ_discrete x j) [
    | yes e ↦ rw (map-swap, at-swap, e) (ground (arith))
    | no n ↦ elim (ℕ_discrete x i) [
      | yes e ↦ rw (map-swap, at-swap, e) (ground (arith, distinct c i j a b))
      | no m ↦
          rw (map-swap, at-swap)
            (ground (arith, distinct c i x a l, distinct c j x b l, c.placed x l))
    ]
  ]

  found-swap :
      (v x : ℕ) → (swap q i j).index_map v ≡ some x → (x < size q) × (at (swap q i j) x ≡ v)
  found-swap v x e =
      let m = sym (map-swap v) ∙ e in
      elim (ℕ_discrete (at q i) v) [
        | yes w ↦ let z : x ≡ j = ground arith in rw (at-swap, z) (ground arith)
        | no n ↦ elim (ℕ_discrete (at q j) v) [
          | yes w ↦ let z : x ≡ i = ground arith in rw (at-swap, z) (ground arith)
          | no o ↦
              let old : q.index_map v ≡ some x = ground arith in
              let (l, w) = c.found v x old in
              (
                l,
                at-swap x
                    ∙ ground
                        (arith, c.placed i a, c.placed j b, distinct c i x a l, distinct c j x b l),
              )
        ]
      ]

  holds-swap : (v : ℕ) → has (swap q i j) v ≡ has q v
  holds-swap v = ap is_some (map-swap v) ∙ elim (ℕ_discrete (at q i) v) [
    | yes w ↦ let old : q.index_map v ≡ some i = rw w at (c.placed i a) in rw old (ground arith)
    | no n ↦ elim (ℕ_discrete (at q j) v) [
      | yes w ↦ let old : q.index_map v ≡ some j = rw w at (c.placed j b) in rw old (ground arith)
      | no o ↦ ground arith
    ]
  ]

  pub swap-Kept : Kept q (swap q i j)
  swap-Kept = record {
    sized = size-swap;
    consistent = record {
      placed = λ x l. placed-swap x (rw size-swap at l);
      found = λ v x e. let (l, w) = found-swap v x e in (rw size-swap l, w);
    };
    holds = holds-swap;
  }

pub Kept-trans : {q r t : Queue} → Kept q r → Kept r t → Kept q t
Kept-trans a b = record {
  sized = b.sized ∙ a.sized;
  consistent = b.consistent;
  holds = λ v. b.holds v ∙ a.holds v;
}
