-- ===== src/PriorityQueue/Pushing.antt =====
-- `PushOrUpdate` of a value that is new, or whose rank has changed.
use rec_store.Prelude.{
  ℕ, ◌+◌, ◌≤◌, ◌<◌, ◌≡◌, ◌≢◌, refl, sym, ap, ◌∙◌, arith, Bool, true, false, ◌&&◌, inl, inr,
  Option-cases, Option, none, some, [], ◌∷◌, ◌++◌, ltb, ◌==◌, if◌then◌else◌, ℕ_discrete, dec_lt,
  Bool-cases, length-append, get_or-append_left, get_or-append_right, get_or,
}
use rec_store.PriorityQueue.{Queue, at, size, parent, push, adjust, push_or_update, put_index}
use rec_store.PriorityQueue.Order.{Ordered, OrderedBut}
use rec_store.PriorityQueue.Swaps.{Consistent, has, distinct}
use rec_store.PriorityQueue.Heapify.{
  IsHeap, Mended, rank_at, heapify_up-Mended, heapify_down-Mended,
}

-- The queue with a new value at the back.
abbrev appended : Queue → ℕ → Queue
appended q value = record {
  data_ = q.data_ ++ value ∷ [];
  index_map = put_index q.index_map value (size q);
}

module _ {q : Queue} (c : Consistent q) (value : ℕ) (new : q.index_map value ≡ none) where
  size-appended : size (appended q value) ≡ size q + 1
  size-appended = length-append q.data_ (value ∷ [])

  at-appended : (i : ℕ) → i < size q → at (appended q value) i ≡ at q i
  at-appended i l = get_or-append_left q.data_ (value ∷ []) i 0 l

  at-appended_back : at (appended q value) (size q) ≡ value
  at-appended_back =
      let e : size q ≡ size q + 0 = omega arith in
      ap (λ i. get_or (q.data_ ++ value ∷ []) i 0) e ∙ get_or-append_right q.data_ (value ∷ []) 0 0

  other_value : (i : ℕ) → i < size q → value ≢ at q i
  other_value i l e =
      let s : none ≡ some i = sym new ∙ ap q.index_map e ∙ c.placed i l in ground arith

  appended-Consistent : Consistent (appended q value)
  appended-Consistent = record {
    placed = λ i l. elim (dec_lt i (size q)) [
      | yes old ↦ rw (at-appended i old) (ground (arith, other_value i old, c.placed i old))
      | no back ↦
          let e : i ≡ size q = omega (arith, size-appended) in
          rw (e, at-appended_back) (ground arith)
    ];
    found = λ v i e. elim (ℕ_discrete value v) [
      | yes same ↦
          let z : i ≡ size q = ground arith in
          rw z (omega (arith, size-appended), at-appended_back ∙ same)
      | no n ↦
          let old : q.index_map v ≡ some i = ground arith in
          let (l, w) = c.found v i old in (omega (arith, size-appended), at-appended i l ∙ w)
    ];
  }

-- `adjustPriority` mends a heap in which one position may outrank its parent or be outranked by its
-- children.
module _ (compare : ℕ → ℕ → Bool) (rank : ℕ → ℕ)
    (ranked : (x y : ℕ) → compare x y ≡ ltb (rank x) (rank y)) {q : Queue} (c : Consistent q)
    (value k : ℕ) (inside : k < size q) (here : at q k ≡ value)
    (almost : OrderedBut (rank_at compare rank ranked q) (size q) k) where
  pub adjust-Mended : Mended compare rank ranked q (adjust compare q value k)
  unfolding adjust
  adjust-Mended =
      let test = ranked (at q (parent k)) value in
      let same = ap rank here in
      elim (dec_lt 0 k) [
        | no root ↦
            let z : (ltb 0 k && compare (at q (parent k)) value) ≡ false = ground arith in
            rw z (
              heapify_down-Mended compare rank ranked (size q) q k (omega arith) inside c almost
                (λ p. absurd (root p)))
        | yes deep ↦ elim (dec_lt (rank (at q (parent k))) (rank value)) [
          | yes less ↦
              let z : (ltb 0 k && compare (at q (parent k)) value) ≡ true = ground (arith, test) in
              rw z (
                heapify_up-Mended compare rank ranked k q k (omega arith) inside c almost
                  (λ i p l under. omega (arith, almost.skip i p l under deep, same)))
          | no fine ↦
              let z : (ltb 0 k && compare (at q (parent k)) value) ≡ false = ground (arith, test) in
              rw z (
                heapify_down-Mended compare rank ranked (size q) q k (omega arith) inside c almost
                  (λ p. omega (arith, same)))
        ]
      ]

module _ (compare : ℕ → ℕ → Bool) (rank : ℕ → ℕ)
    (ranked : (x y : ℕ) → compare x y ≡ ltb (rank x) (rank y)) {q : Queue} (c : Consistent q)
    (before : ℕ → ℕ) (ordered : Ordered (λ i. before (at q i)) (size q)) (value : ℕ)
    (others : (v : ℕ) → v ≢ value → before v ≡ rank v) where
  -- What `PushOrUpdate` promises.
  abbrev pub Pushes : Queue → Type 0
  Pushes r =
      IsHeap compare rank ranked r × ((v : ℕ) → has r v ≡ (if value == v then true else has q v))

  push-Pushes : q.index_map value ≡ none → Pushes (push compare q value)
  unfolding push
  push-Pushes new =
      let n = size q in
      let a = appended q value in
      let f = rank_at compare rank ranked a in
      let old = λ (i : ℕ) (l : i < n).
        ap rank (at-appended c value new i l)
        ∙ sym (others (at q i) (λ e. other_value c value new i l (sym e))) in
      let o : OrderedBut f (size a) n = record {
        edges = λ i p l other far.
            let b : i < n = omega (arith, size-appended c value new) in
            omega (arith, old i b, old (parent i) (omega arith), ordered i p b);
        skip = λ i p l e deep. absurd (omega (arith, size-appended c value new));
      } in
      let m =
        heapify_up-Mended compare rank ranked n a n (omega arith)
          (omega (arith, size-appended c value new)) (appended-Consistent c value new) o
          (λ i p l e. absurd (omega (arith, size-appended c value new))) in
      (
        record { consistent = m.kept.consistent; ordered = m.ordered },
        λ v.
            m.kept.holds v
            ∙ elim (Bool-cases (value == v)) [ inl e ↦ rw e refl | inr e ↦ rw e refl ],
      )

  module _ (k : ℕ) (e : q.index_map value ≡ some k) where
    inside : k < size q
    inside = (c.found value k e).0

    here : at q k ≡ value
    here = (c.found value k e).1

    unmoved : (i : ℕ) → i < size q → i ≢ k → before (at q i) ≡ rank (at q i)
    unmoved i l n = others (at q i) (λ z. n (distinct c i k l inside (z ∙ sym here)))

    skips :
        (i : ℕ) → 0 < i → i < size q → parent i ≡ k → 0 < k → rank (at q i) ≤ rank (at q (parent k))
    skips i p l under deep =
        let first = rw under at (ordered i p l) in
        omega (
          arith,
          first,
          ordered k deep inside,
          unmoved i l (λ z. omega arith),
          unmoved (parent k) (omega arith) (λ z. omega arith),
        )

    almost : OrderedBut (rank_at compare rank ranked q) (size q) k
    almost = record {
      edges = λ i p l other far.
          omega (arith, ordered i p l, unmoved i l other, unmoved (parent i) (omega arith) far);
      skip = skips;
    }

    -- The result of either loop.
    Mended-Pushes : {r : Queue} → Mended compare rank ranked q r → Pushes r
    Mended-Pushes m = (
      record { consistent = m.kept.consistent; ordered = m.ordered },
      λ v. m.kept.holds v ∙ elim (ℕ_discrete value v) [
        | no n ↦ ground arith
        | yes z ↦ let old : q.index_map v ≡ some k = rw z at e in rw old (ground arith)
      ],
    )

    adjust-Pushes : Pushes (adjust compare q value k)
    adjust-Pushes = Mended-Pushes (adjust-Mended compare rank ranked c value k inside here almost)

  abbrev chosen : Option ℕ → Queue
  chosen none = push compare q value
  chosen (some k) = adjust compare q value k

  push_or_update-chosen :
      (o : Option ℕ) → q.index_map value ≡ o → push_or_update compare q value ≡ chosen o
  unfolding push_or_update
  push_or_update-chosen o e = ap chosen e

  -- `PushOrUpdate` on a queue that was in order before the ranks of no value but this one changed, of
  -- a value that may be new: the loops end, the queue is a heap for the new ranks with a consistent
  -- map, and it holds the old values and this one.
  pub push_or_update-Pushes : Pushes (push_or_update compare q value)
  push_or_update-Pushes = elim (Option-cases (q.index_map value)) [
    | inl new ↦ rw (push_or_update-chosen none new) (push-Pushes new)
    | inr (k, e) ↦ rw (push_or_update-chosen (some k) e) (adjust-Pushes k e)
  ]
