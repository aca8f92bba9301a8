-- ===== src/PriorityQueue/Heapify.antt =====
-- The two loops mend one place of the heap, and end.
use rec_store.Prelude.{
  ℕ, zero, suc, ◌+◌, ◌*◌, ◌≤◌, ◌<◌, ◌≡◌, ◌≢◌, refl, ap, ◌∙◌, arith, Bool, true, false, ◌&&◌, ltb,
  ℕ_discrete, dec_lt,
}
use rec_store.PriorityQueue.{
  Queue, at, size, parent, swap, heapify_up, heapify_down, smallest_child,
}
use rec_store.PriorityQueue.Order.{
  Ordered, OrderedBut, Below, Above, Ordered-done, up-step, down-step,
}
use rec_store.PriorityQueue.Swaps.{Consistent, Kept, Kept-trans, swap-Kept, at-swap}

module _ (compare : ℕ → ℕ → Bool) (rank : ℕ → ℕ)
    (ranked : (x y : ℕ) → compare x y ≡ ltb (rank x) (rank y)) where
  abbrev pub rank_at : Queue → ℕ → ℕ
  rank_at q i = rank (at q i)

  -- A consistent map, and the greatest value on top of every other below it.
  pub record IsHeap (q : Queue) : Type 0 where
    pub consistent : Consistent q
    pub ordered : Ordered (rank_at q) (size q)

  -- The same values in heap order.
  pub record Mended (q r : Queue) : Type 0 where
    pub kept : Kept q r
    pub ordered : Ordered (rank_at r) (size r)

  Kept-refl : {q : Queue} → Consistent q → Kept q q
  Kept-refl c = record { sized = refl; consistent = c; holds = λ v. refl }

  stopped :
      {q : Queue} (k : ℕ)
      → Consistent q
      → OrderedBut (rank_at q) (size q) k
      → Below (rank_at q) (size q) k
      → Above (rank_at q) k
      → Mended q q
  stopped {q} k c o b a = record {
    kept = Kept-refl c;
    ordered = Ordered-done (rank_at q) (size q) k o b a;
  }

  module _ (fuel : ℕ) (q : Queue) (k : ℕ) where
    heapify_up-stop :
        (ltb 0 k && compare (at q (parent k)) (at q k)) ≡ false
        → heapify_up compare (suc fuel) q k ≡ q
    unfolding heapify_up
    heapify_up-stop e = rw e refl

    heapify_up-go :
        (ltb 0 k && compare (at q (parent k)) (at q k)) ≡ true
        → heapify_up compare (suc fuel) q k
          ≡ heapify_up compare fuel (swap q k (parent k)) (parent k)
    unfolding heapify_up
    heapify_up-go e = rw e refl

    heapify_down-stop :
        (ltb (2 * k + 1) (size q) && compare (at q k) (at q (smallest_child compare q k))) ≡ false
        → heapify_down compare (suc fuel) q k ≡ q
    unfolding heapify_down
    heapify_down-stop e = rw e refl

    heapify_down-go :
        (ltb (2 * k + 1) (size q) && compare (at q k) (at q (smallest_child compare q k))) ≡ true
        → heapify_down compare (suc fuel) q k
          ≡ heapify_down compare fuel
              (swap q k (smallest_child compare q k))
              (smallest_child compare q k)
    unfolding heapify_down
    heapify_down-go e = rw e refl

  -- `heapifyUp` ends within k rounds, and mends a heap in which only k may outrank its parent.
  pub heapify_up-Mended :
      (fuel : ℕ) (q : Queue) (k : ℕ)
      → k ≤ fuel
      → k < size q
      → Consistent q
      → OrderedBut (rank_at q) (size q) k
      → Below (rank_at q) (size q) k
      → Mended q (heapify_up compare fuel q k)
  heapify_up-Mended zero q k enough l c o b =
      unfold heapify_up in stopped k c o b (λ p. absurd (omega arith))
  heapify_up-Mended (suc fuel) q k enough l c o b = elim (dec_lt 0 k) [
    | no root ↦
        rw (heapify_up-stop fuel q k (ground arith)) (stopped k c o b (λ p. absurd (root p)))
    | yes p ↦ elim (dec_lt (rank_at q (parent k)) (rank_at q k)) [
      | no fine ↦
          rw (heapify_up-stop fuel q k (ground (arith, ranked (at q (parent k)) (at q k))))
            (stopped k c o b (λ p. omega arith))
      | yes less ↦
          let s = swap q k (parent k) in
          let apart : k ≢ parent k = λ z. omega arith in
          let kept = swap-Kept c k (parent k) l (omega arith) apart in
          let same = kept.sized in
          let (o', b') =
            up-step (rank_at q) (rank_at s) (size q) k p l less o b
              (λ i m. ap rank (at-swap c k (parent k) l (omega arith) apart i) ∙ ground arith) in
          let done =
            heapify_up-Mended fuel s (parent k) (omega arith) (omega (arith, same)) kept.consistent
              (rw same o') (rw same b') in
          rw (heapify_up-go fuel q k (ground (arith, ranked (at q (parent k)) (at q k))))
            (record { kept = Kept-trans kept done.kept; ordered = done.ordered })
    ]
  ]

  -- The chosen child is a child, and no other one outranks it.
  child_lem :
      (q : Queue) (k : ℕ)
      → 2 * k + 1 < size q
      → (0 < smallest_child compare q k)
        × (smallest_child compare q k < size q)
        × (parent (smallest_child compare q k) ≡ k)
        × ((i : ℕ)
            → 0 < i
            → i < size q
            → parent i ≡ k
            → rank_at q i ≤ rank_at q (smallest_child compare q k))
  child_lem q k l =
      let c = ranked (at q (2 * k + 1)) (at q (2 * k + 2)) in
      elim (dec_lt (2 * k + 2) (size q)) [
        | no lone ↦
            let pick : smallest_child compare q k ≡ 2 * k + 1 = ground arith in
            rw pick (
              omega arith,
              l,
              omega arith,
              λ i p m e. let z : i ≡ 2 * k + 1 = omega arith in rw z (omega arith),
            )
        | yes pair ↦ elim (dec_lt (rank_at q (2 * k + 1)) (rank_at q (2 * k + 2))) [
          | yes right ↦
              let pick : smallest_child compare q k ≡ 2 * k + 2 = ground (arith, c) in
              rw pick (
                omega arith,
                pair,
                omega arith,
                λ i p m e. elim (ℕ_discrete i (2 * k + 1)) [
                  | yes z ↦ rw z (omega arith)
                  | no n ↦ let z : i ≡ 2 * k + 2 = omega arith in rw z (omega arith)
                ],
              )
          | no left ↦
              let pick : smallest_child compare q k ≡ 2 * k + 1 = ground (arith, c) in
              rw pick (
                omega arith,
                l,
                omega arith,
                λ i p m e. elim (ℕ_discrete i (2 * k + 1)) [
                  | yes z ↦ rw z (omega arith)
                  | no n ↦ let z : i ≡ 2 * k + 2 = omega arith in rw z (omega arith)
                ],
              )
        ]
      ]

  -- `heapifyDown` ends, and mends a heap in which only k may be outranked by its children.
  pub heapify_down-Mended :
      (fuel : ℕ) (q : Queue) (k : ℕ)
      → size q ≤ fuel + k
      → k < size q
      → Consistent q
      → OrderedBut (rank_at q) (size q) k
      → Above (rank_at q) k
      → Mended q (heapify_down compare fuel q k)
  heapify_down-Mended zero q k enough l c o a = absurd (omega arith)
  heapify_down-Mended (suc fuel) q k enough l c o a = elim (dec_lt (2 * k + 1) (size q)) [
    | no leaf ↦
        rw (heapify_down-stop fuel q k (ground arith))
          (stopped k c o (λ i p m e. absurd (omega arith)) a)
    | yes inner ↦
        let child = smallest_child compare q k in
        let (p, m, under, best) = child_lem q k inner in
        let test = ranked (at q k) (at q child) in
        elim (dec_lt (rank_at q k) (rank_at q child)) [
          | no fine ↦
              rw (heapify_down-stop fuel q k (ground (arith, test)))
                (stopped k c o (λ i r t e. omega (arith, best i r t e)) a)
          | yes less ↦
              let s = swap q k child in
              let apart : k ≢ child = λ z. omega arith in
              let kept = swap-Kept c k child l m apart in
              let same = kept.sized in
              let (o', a') =
                down-step (rank_at q) (rank_at s) (size q) k child p m under less best o a
                  (λ i t. ap rank (at-swap c k child l m apart i) ∙ ground arith) in
              let done =
                heapify_down-Mended fuel s child (omega (arith, same)) (omega (arith, same))
                  kept.consistent (rw same o') a' in
              rw (heapify_down-go fuel q k (ground (arith, test)))
                (record { kept = Kept-trans kept done.kept; ordered = done.ordered })
        ]
  ]
