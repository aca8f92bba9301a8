-- ===== src/PriorityQueue/Popping.antt =====
-- `pop` takes the greatest value off.
use rec_store.Prelude.{
  ℕ, zero, suc, ◌+◌, ◌-◌, ◌≤◌, ◌<◌, ◌≡◌, refl, sym, ap, ◌∙◌, arith, Bool, true, false, some, ltb,
  ◌==◌, if◌then◌else◌, ℕ_discrete, dec_lt,
}
use rec_store.PriorityQueue.{Queue, at, size, parent, heapify_down, pop, taken_out}
use rec_store.PriorityQueue.Order.{Ordered, OrderedBut}
use rec_store.PriorityQueue.Swaps.{has}
use rec_store.PriorityQueue.TakingOut.{
  length-pop_back, size-rest, at-rest, rest-Consistent, holds-rest, last_off, last_off-Consistent,
}
use rec_store.PriorityQueue.Heapify.{IsHeap, rank_at, heapify_down-Mended}

-- In heap order nothing outranks the front; fuel bounds the position.
front-greatest : (f : ℕ → ℕ) (n fuel i : ℕ) → Ordered f n → i ≤ fuel → i < n → f i ≤ f 0
front-greatest f n zero i o b l = let e : i ≡ 0 = omega arith in rw e (omega arith)
front-greatest f n (suc fuel) i o b l = elim (dec_lt 0 i) [
  | no root ↦ let e : i ≡ 0 = omega arith in rw e (omega arith)
  | yes p ↦ omega (arith, o i p l, front-greatest f n fuel (parent i) o (omega arith) (omega arith))
]

module _ (compare : ℕ → ℕ → Bool) (rank : ℕ → ℕ)
    (ranked : (x y : ℕ) → compare x y ≡ ltb (rank x) (rank y)) {q : Queue}
    (h : IsHeap compare rank ranked q) where
  -- What `pop` promises of the queue that is left.
  pub record Popped (r : Queue) : Type 0 where
    pub heap : IsHeap compare rank ranked r
    pub smaller : size r + 1 ≡ size q
    pub holds : (v : ℕ) → has r v ≡ (if at q 0 == v then false else has q v)

  pop-many : 1 < size q → (r : Queue) × (pop compare q ≡ some (at q 0, r)) × Popped r
  unfolding pop
  pop-many many =
      let c = h.consistent in
      let many' : 0 + 1 < size q = omega arith in
      let a : (size q == 0) ≡ false = ground arith in
      let b : (size q == 1) ≡ false = ground arith in
      let rest = taken_out q 0 in
      let sized = size-rest c 0 many' in
      let read = λ (i : ℕ) (l : i < size rest). ap rank (at-rest c 0 many' i l) in
      let almost : OrderedBut (rank_at compare rank ranked rest) (size rest) 0 = record {
        edges = λ i p l other far.
            ground (
              arith,
              read i l,
              read (parent i) (omega arith),
              h.ordered i p (omega (arith, sized)),
            );
        skip = λ i p l e deep. absurd (omega arith);
      } in
      let m =
        heapify_down-Mended compare rank ranked (size q - 1) rest 0 (omega (arith, sized))
          (omega (arith, sized)) (rest-Consistent c 0 many') almost (λ p. absurd (omega arith)) in
      (
        heapify_down compare (size q - 1) rest 0,
        rw (a, b) refl,
        record {
          heap = record { consistent = m.kept.consistent; ordered = m.ordered };
          smaller = omega (arith, m.kept.sized, sized);
          holds = λ v. m.kept.holds v ∙ holds-rest c 0 many' v;
        },
      )

  pop-single : size q ≡ 1 → (r : Queue) × (pop compare q ≡ some (at q 0, r)) × Popped r
  unfolding pop
  pop-single single =
      let a : (size q == 0) ≡ false = ground arith in
      let b : (size q == 1) ≡ true = ground arith in
      let none_left = length-pop_back q.data_ (omega arith) in
      (
        last_off h.consistent 0 (sym single),
        rw (a, b) refl,
        record {
          heap = record {
            consistent = last_off-Consistent h.consistent 0 (sym single);
            ordered = λ i p l. absurd (omega (arith, none_left));
          };
          smaller = omega (arith, none_left);
          holds = λ v. elim (ℕ_discrete (at q 0) v) [ yes z ↦ ground arith | no n ↦ ground arith ];
        },
      )

  -- `pop` of a heap that is not empty gives its front, which no value that the queue holds outranks,
  -- and the queue that is left is a heap, of one value less, that holds the other values.
  pub pop-Popped :
      0 < size q
      → (r : Queue) × (pop compare q ≡ some (at q 0, r))
        × Popped r
        × ((v i : ℕ) → q.index_map v ≡ some i → rank v ≤ rank (at q 0))
  pop-Popped some_values =
      let greatest : (v i : ℕ) → q.index_map v ≡ some i → rank v ≤ rank (at q 0) = λ v i e.
        let (l, w) = h.consistent.found v i e in
        omega (
          arith,
          ap rank w,
          front-greatest (rank_at compare rank ranked q) (size q) i i h.ordered (omega arith) l,
        ) in
      elim (dec_lt 1 (size q)) [
        | yes many ↦ let (r, run, p) = pop-many many in (r, run, p, greatest)
        | no one ↦ let (r, run, p) = pop-single (omega arith) in (r, run, p, greatest)
      ]
