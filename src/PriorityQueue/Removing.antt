-- ===== src/PriorityQueue/Removing.antt =====
-- `pop_x` takes a given value out.
use rec_store.Prelude.{
  subst, ℕ, ◌+◌, ◌-◌, ◌<◌, ◌≡◌, ◌≢◌, sym, ap, ◌∙◌, arith, Bool, true, false, Option, none, some,
  ltb, ◌==◌, if◌then◌else◌, ℕ_discrete, dec_lt,
}
use rec_store.PriorityQueue.{
  erase, pop_back, Queue, at, size, parent, adjust, taken_out, remove_at, pop_x,
}
use rec_store.PriorityQueue.Order.{OrderedBut}
use rec_store.PriorityQueue.Swaps.{has}
use rec_store.PriorityQueue.TakingOut.{
  size-rest, at-rest, rest-Consistent, holds-rest, last_off, size-last_off, at-last_off,
  last_off-Consistent,
}
use rec_store.PriorityQueue.Heapify.{IsHeap, rank_at}
use rec_store.PriorityQueue.Pushing.{adjust-Mended}

module _ (compare : ℕ → ℕ → Bool) (rank : ℕ → ℕ)
    (ranked : (x y : ℕ) → compare x y ≡ ltb (rank x) (rank y)) {q : Queue}
    (h : IsHeap compare rank ranked q) (value k : ℕ) (known : q.index_map value ≡ some k) where
  -- What `pop_x` promises of the queue that is left.
  pub record Removes (r : Queue) : Type 0 where
    pub heap : IsHeap compare rank ranked r
    pub smaller : size r + 1 ≡ size q
    pub holds : (v : ℕ) → has r v ≡ (if value == v then false else has q v)

  inside : k < size q
  inside = (h.consistent.found value k known).0

  here : at q k ≡ value
  here = (h.consistent.found value k known).1

  remove-inner : k + 1 < size q → Removes (adjust compare (taken_out q k) (at q (size q - 1)) k)
  remove-inner low =
      let c = h.consistent in
      let r = taken_out q k in
      let sized = size-rest c k low in
      let read = λ (i : ℕ) (l : i < size r). ap rank (at-rest c k low i l) in
      let almost : OrderedBut (rank_at compare rank ranked r) (size r) k = record {
        edges = λ i p l other far.
            ground (
              arith,
              read i l,
              read (parent i) (omega arith),
              h.ordered i p (omega (arith, sized)),
            );
        skip = λ i p l under deep.
            let e : rank (at q (parent i)) ≡ rank (at q k) = ap (λ j. rank (at q j)) under in
            ground (
              arith,
              e,
              read i l,
              read (parent k) (omega arith),
              h.ordered i p (omega (arith, sized)),
              h.ordered k deep inside,
            );
      } in
      let m =
        adjust-Mended compare rank ranked (rest-Consistent c k low) (at q (size q - 1)) k
          (omega (arith, sized)) (at-rest c k low k (omega (arith, sized)) ∙ ground arith) almost in
      record {
        heap = record { consistent = m.kept.consistent; ordered = m.ordered };
        smaller = omega (arith, m.kept.sized, sized);
        holds = λ v.
            m.kept.holds v
            ∙ holds-rest c k low v
            ∙ ap (λ w. if w == v then false else has q v) here;
      }

  remove-last : (back : k + 1 ≡ size q) → Removes (last_off h.consistent k back)
  remove-last back =
      let c = h.consistent in
      let sized = size-last_off c k back in
      let read = λ (i : ℕ) (l : i < size (last_off c k back)). ap rank (at-last_off c k back i l) in
      record {
        heap = record {
          consistent = last_off-Consistent c k back;
          ordered = λ i p l. omega (
            arith,
            read i l,
            read (parent i) (omega arith),
            h.ordered i p (omega (arith, sized)),
          );
        };
        smaller = sized;
        holds = λ v. elim (ℕ_discrete (at q k) v) [
          | yes z ↦ let w : value ≡ v = sym here ∙ z in ground arith
          | no n ↦ let w : value ≢ v = λ e. n (here ∙ e) in ground arith
        ];
      }

  last_off-erase :
      (back : k + 1 ≡ size q)
      → last_off h.consistent k back
        ≡ record { data_ = pop_back q.data_; index_map = erase q.index_map value }
  last_off-erase back =
      ap
        (λ w.
          let r : Queue = record { data_ = pop_back q.data_; index_map = erase q.index_map w } in r)
        here

  remove_at-Removes : Removes (remove_at compare q value k)
  remove_at-Removes = elim (dec_lt (k + 1) (size q)) [
    | yes low ↦
        let a : (size q == 1) ≡ false = ground arith in
        let b : (k == size q - 1) ≡ false = ground arith in rw (a, b) (remove-inner low)
    | no end ↦
        let back : k + 1 ≡ size q = omega (arith, inside) in
        let r = subst Removes (last_off-erase back) (remove-last back) in
        let b : (k == size q - 1) ≡ true = ground arith in
        elim (ℕ_discrete (size q) 1) [
          | yes one ↦ let a : (size q == 1) ≡ true = ground arith in rw a r
          | no more ↦ let a : (size q == 1) ≡ false = ground arith in rw (a, b) r
        ]
  ]

  -- `pop_x` of a value that a heap holds leaves a heap with a consistent map, of one value less, that
  -- holds the other values.
  pub pop_x-Removes : Removes (pop_x compare q value)
  unfolding pop_x
  pop_x-Removes = subst Removes (sym (ap position known)) remove_at-Removes
    where
      position : Option ℕ → Queue
      position o = remove_at compare q value (elim o [ none ↦ 0 | some k ↦ k ])
