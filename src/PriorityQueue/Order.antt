-- ===== src/PriorityQueue/Order.antt =====
-- Heap order of a function on the positions below n, and how a swap mends one place.
use rec_store.Prelude.{ℕ, ◌≤◌, ◌<◌, ◌≡◌, ◌≢◌, arith, ◌==◌, if◌then◌else◌, ℕ_discrete}
use rec_store.PriorityQueue.{parent}

-- No position outranks its parent.
abbrev pub Ordered : (ℕ → ℕ) → ℕ → Type 0
Ordered f n = (i : ℕ) → 0 < i → i < n → f i ≤ f (parent i)

-- Ordered, but for the edges at position k that the two flags allow.
pub record OrderedBut (f : ℕ → ℕ) (n k : ℕ) : Type 0 where
  pub edges : (i : ℕ) → 0 < i → i < n → i ≢ k → parent i ≢ k → f i ≤ f (parent i)
  pub skip : (i : ℕ) → 0 < i → i < n → parent i ≡ k → 0 < k → f i ≤ f (parent k)

-- The edges below k are in order too, or the edge above it is.
abbrev pub Below : (ℕ → ℕ) → ℕ → ℕ → Type 0
Below f n k = (i : ℕ) → 0 < i → i < n → parent i ≡ k → f i ≤ f k

abbrev pub Above : (ℕ → ℕ) → ℕ → Type 0
Above f k = 0 < k → f k ≤ f (parent k)

abbrev pub swapped : (ℕ → ℕ) → ℕ → ℕ → ℕ → ℕ
swapped f a b i = if i == a then f b else if i == b then f a else f i

pub Ordered-done : (f : ℕ → ℕ) (n k : ℕ) → OrderedBut f n k → Below f n k → Above f k → Ordered f n
Ordered-done f n k o b a i p l = elim (ℕ_discrete i k) [
  | yes e ↦ ground (arith, a)
  | no other ↦ elim (ℕ_discrete (parent i) k) [
    | yes e ↦ rw e (b i p l e)
    | no far ↦ o.edges i p l other far
  ]
]

module _ (f g : ℕ → ℕ) (n k : ℕ) where
  -- A position that outranks its parent is swapped with it.
  pub up-step :
      0 < k
      → k < n
      → f (parent k) < f k
      → OrderedBut f n k
      → Below f n k
      → ((i : ℕ) → i < n → g i ≡ swapped f k (parent k) i)
      → OrderedBut g n (parent k) × Below g n (parent k)
  up-step p l less o b e = (
    record {
      edges = λ i q m other far. elim (ℕ_discrete (parent i) k) [
        | yes below ↦ ground (arith, e i m, e (parent i) (omega arith), o.skip i q m below p)
        | no away ↦
            ground (arith, e i m, e (parent i) (omega arith), o.edges i q m (λ z. far (rw z)) away)
      ];
      skip = λ i q m same deep.
          let grand = e (parent (parent k)) (omega arith) in
          let up = o.edges (parent k) deep (omega arith) (λ z. omega arith) (λ z. omega arith) in
          elim (ℕ_discrete i k) [
            | yes z ↦ ground (arith, e i m, grand, up)
            | no other ↦ ground (arith, e i m, grand, up, o.edges i q m other (λ z. omega arith))
          ];
    },
    λ i q m same.
        let top = e (parent k) (omega arith) in
        elim (ℕ_discrete i k) [
          | yes z ↦ ground (arith, e i m, top)
          | no other ↦ ground (arith, e i m, top, o.edges i q m other (λ z. omega arith))
        ],
  )

  -- A position that its greatest child c outranks is swapped with it.
  pub down-step :
      (c : ℕ)
      → 0 < c
      → c < n
      → parent c ≡ k
      → f k < f c
      → ((i : ℕ) → 0 < i → i < n → parent i ≡ k → f i ≤ f c)
      → OrderedBut f n k
      → Above f k
      → ((i : ℕ) → i < n → g i ≡ swapped f k c i)
      → OrderedBut g n c × Above g c
  down-step c q l under less best o a e = (
    record {
      edges = λ i r m other far. elim (ℕ_discrete i k) [
        | yes z ↦
            ground (arith, e i m, e (parent i) (omega arith), o.skip c q l under (omega arith))
        | no away ↦ elim (ℕ_discrete (parent i) k) [
          | yes w ↦ ground (arith, e i m, e (parent i) (omega arith), best i r m w)
          | no v ↦ ground (arith, e i m, e (parent i) (omega arith), o.edges i r m away v)
        ]
      ];
      skip = λ i r m same deep. ground (
        arith,
        e i m,
        e (parent c) (omega arith),
        o.edges i r m (λ z. omega arith) (λ z. omega arith),
      );
    },
    λ p. ground (arith, e c l, e (parent c) (omega arith)),
  )
