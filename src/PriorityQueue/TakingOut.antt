-- ===== src/PriorityQueue/TakingOut.antt =====
-- A value is taken out of the vector and of the map.
use rec_store.Prelude.{
  ℕ, zero, suc, ◌+◌, ◌-◌, ◌<◌, ◌≡◌, ◌≢◌, refl, sym, ◌∙◌, arith, false, some, List, [], ◌∷◌, ◌==◌,
  if◌then◌else◌, ℕ_discrete, get_or, length, set, length-set, get_or-set,
}
use rec_store.PriorityQueue.{Queue, at, size, pop_back, taken_out, erase}
use rec_store.PriorityQueue.Swaps.{Consistent, has, distinct}

pub length-pop_back : (xs : List ℕ) → 0 < length xs → length (pop_back xs) + 1 ≡ length xs
unfolding pop_back
length-pop_back [] h = absurd (omega arith)
length-pop_back (x ∷ []) h = omega arith
length-pop_back (x ∷ y ∷ ys) h = omega (arith, length-pop_back (y ∷ ys))

pub get_or-pop_back :
    (xs : List ℕ) (i : ℕ) → i + 1 < length xs → get_or (pop_back xs) i 0 ≡ get_or xs i 0
unfolding pop_back
get_or-pop_back [] i h = absurd (omega arith)
get_or-pop_back (x ∷ []) i h = absurd (omega arith)
get_or-pop_back (x ∷ y ∷ ys) zero h = refl
get_or-pop_back (x ∷ y ∷ ys) (suc i) h = get_or-pop_back (y ∷ ys) i (omega arith)

-- The value at k, before the back, is taken out: the last value takes its place.
module _ {q : Queue} (c : Consistent q) (k : ℕ) (low : k + 1 < size q) where
  abbrev rest : Queue
  rest = taken_out q k

  abbrev exchanged : List ℕ
  exchanged = set (set q.data_ k (at q (size q - 1))) (size q - 1) (at q k)

  length-exchanged : length exchanged ≡ size q
  length-exchanged = rw (length-set, length-set)

  pub size-rest : size rest + 1 ≡ size q
  size-rest = length-pop_back exchanged (omega (arith, length-exchanged)) ∙ length-exchanged

  pub at-rest : (i : ℕ) → i < size rest → at rest i ≡ (if i == k then at q (size q - 1) else at q i)
  at-rest i l =
      let inner = set q.data_ k (at q (size q - 1)) in
      let sized : length inner ≡ size q = length-set q.data_ k (at q (size q - 1)) in
      get_or-pop_back exchanged i (omega (arith, size-rest, length-exchanged))
      ∙ ground (
        arith,
        size-rest,
        get_or-set inner (size q - 1) i (at q k) 0 (omega (arith, sized)),
        get_or-set q.data_ k i (at q (size q - 1)) 0 (omega arith),
      )

  ends_apart : at q k ≢ at q (size q - 1)
  ends_apart e = omega (arith, distinct c k (size q - 1) (omega arith) (omega arith) e)

  pub rest-Consistent : Consistent rest
  rest-Consistent = record {
    placed = λ i l. elim (ℕ_discrete i k) [
      | yes z ↦ rw (at-rest i l, z) (ground arith)
      | no n ↦
          let m : i < size q = omega (arith, size-rest) in
          let same : at rest i ≡ at q i = ground (arith, at-rest i l) in
          rw same (
            ground (
              arith,
              distinct c k i (omega arith) m,
              distinct c (size q - 1) i (omega arith) m,
              size-rest,
              c.placed i m,
            ))
    ];
    found = λ v i e. elim (ℕ_discrete (at q (size q - 1)) v) [
      | yes back ↦
          let z : i ≡ k = ground arith in
          let inside : k < size rest = omega (arith, size-rest) in
          rw z (inside, at-rest k inside ∙ ground arith)
      | no n ↦
          let front : at q k ≢ v = λ w. absurd (ground arith) in
          let old : q.index_map v ≡ some i = ground arith in
          let (l, w) = c.found v i old in
          let not_front : i ≢ k = λ z. front (rw z at w) in
          let not_back : i ≢ size q - 1 = λ z. n (rw z at w) in
          let m : i < size rest = omega (arith, size-rest) in (m, at-rest i m ∙ ground arith)
    ];
  }

  pub holds-rest : (v : ℕ) → has rest v ≡ (if at q k == v then false else has q v)
  holds-rest v = elim (ℕ_discrete (at q (size q - 1)) v) [
    | yes back ↦
        let old : q.index_map v ≡ some (size q - 1) =
          rw back at (c.placed (size q - 1) (omega arith)) in
        let other : at q k ≢ v = λ w. ends_apart (w ∙ sym back) in rw old (ground arith)
    | no n ↦ elim (ℕ_discrete (at q k) v) [ yes front ↦ ground arith | no o ↦ ground arith ]
  ]

-- The last value is taken off.
module _ {q : Queue} (c : Consistent q) (k : ℕ) (back : k + 1 ≡ size q) where
  abbrev pub last_off : Queue
  last_off = record { data_ = pop_back q.data_; index_map = erase q.index_map (at q k) }

  pub size-last_off : size last_off + 1 ≡ size q
  size-last_off = length-pop_back q.data_ (omega arith)

  pub at-last_off : (i : ℕ) → i < size last_off → at last_off i ≡ at q i
  at-last_off i l = get_or-pop_back q.data_ i (omega (arith, size-last_off))

  pub last_off-Consistent : Consistent last_off
  last_off-Consistent = record {
    placed = λ i l.
        let m : i < size q = omega (arith, size-last_off) in
        rw (at-last_off i l)
          (ground (arith, distinct c k i (omega arith) m, c.placed i m, size-last_off));
    found = λ v i e.
        let front : at q k ≢ v = λ w. absurd (ground arith) in
        let old : q.index_map v ≡ some i = ground arith in
        let (l, w) = c.found v i old in
        let not_back : i ≢ k = λ z. front (rw z at w) in
        let m : i < size last_off = omega (arith, size-last_off) in (m, at-last_off i m ∙ w);
  }
