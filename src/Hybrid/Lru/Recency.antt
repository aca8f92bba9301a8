-- ===== src/Hybrid/Lru/Recency.antt =====
-- The cache keeps the keys used last (src/storage/hybrid/value.h).
use rec_store.Prelude.{
  ℕ, ◌-◌, suc, ◌≤◌, ◌<◌, ◌≡◌, inl, inr, refl, ap, sym, subst, ◌∙◌, arith, true, false, some, List,
  [], ◌∷◌, ◌++◌, ◌==◌, leb, length, Bool-cases, length-append, ℕ_discrete,
}
use rec_store.Hybrid.Lru.{Lru, remove, push_front, erase_back, insert}
use rec_store.Hybrid.Lru.Keys.{
  take, has, Distinct, touch, take_of_length-le, remove_absent, length-remove, has-remove_other,
  has-remove_self, Distinct-remove, has-append, Distinct-front, pop_back-append, take-append,
}

-- The map knows the keys of the list, which are distinct and not too many.
pub record IsValid (l : Lru) : Type 0 where
  pub positive : 0 < l.capacity
  pub bounded : length l.order ≤ l.capacity
  pub distinct : Distinct l.order
  pub known : (k : ℕ) → l.map_ k ≡ has k l.order

has-touch : (j key : ℕ) (xs : List ℕ) → has key xs ≡ true → has j (touch key xs) ≡ has j xs
has-touch j key xs held = elim (ℕ_discrete key j) [
  | yes e ↦ let h : has j xs ≡ true = rw (← e) held in ground (arith, h, e)
  | no ne ↦
      let other : (key == j) ≡ false = ground (arith, ne) in
      rw other (has-remove_other j key xs other)
]

splice-IsValid :
    (l : Lru) (key : ℕ)
    → IsValid l
    → has key l.order ≡ true
    → IsValid (record l { order = touch key l.order })
splice-IsValid l key v held = record {
  positive = v.positive;
  bounded = omega (arith, length-remove key l.order held, v.bounded);
  distinct = (has-remove_self key l.order v.distinct, Distinct-remove key l.order v.distinct);
  known = λ j. v.known j ∙ sym (has-touch j key l.order held);
}

push_front-IsValid :
    (l : Lru) (key : ℕ)
    → IsValid l
    → has key l.order ≡ false
    → length l.order < l.capacity
    → IsValid (push_front l key)
push_front-IsValid l key v absent room = record {
  positive = v.positive;
  bounded = omega (arith, room);
  distinct = (absent, v.distinct);
  known = λ j. let k = v.known j in ground (arith, k);
}

pub erase_back-IsValid :
    (l : Lru) (k : ℕ) (rest : List ℕ)
    → IsValid l
    → l.order ≡ rest ++ k ∷ []
    → IsValid (erase_back l (k, rest))
erase_back-IsValid l k rest v e =
    let d : Distinct (rest ++ k ∷ []) = subst Distinct e v.distinct in
    let (front, absent) = Distinct-front rest k d in
    let size = ap length e ∙ length-append rest (k ∷ []) in
    record {
      positive = v.positive;
      bounded = omega (arith, size, v.bounded);
      distinct = front;
      known = λ j.
          let before = v.known j ∙ ap (has j) e ∙ has-append j rest (k ∷ []) in
          elim (ℕ_discrete k j) [
            | yes z ↦ let out : has j rest ≡ false = rw (← z) absent in ground (arith, z, out)
            | no ne ↦ ground (arith, before, ne)
          ];
    }

-- Using a key, on a valid cache: it comes to the front, and what does not fit behind it goes.
pub insert-window :
    (l : Lru) (key n : ℕ)
    → IsValid l
    → l.capacity ≡ suc n
    → (l' : Lru) × (insert l key ≡ some l')
      × IsValid l'
      × (l'.capacity ≡ l.capacity)
      × (l'.order ≡ key ∷ take n (remove key l.order))
unfolding insert
insert-window l key n v c = elim (Bool-cases (l.map_ key)) [
  | inl known ↦
      let held : has key l.order ≡ true = sym (v.known key) ∙ known in
      let size = length-remove key l.order held in
      (
        record l { order = key ∷ remove key l.order },
        rw known refl,
        splice-IsValid l key v held,
        refl,
        ap (λ r. key ∷ r)
            (sym (take_of_length-le n (remove key l.order) (omega (arith, c, v.bounded, size)))),
      )
  | inr unknown ↦
      let absent : has key l.order ≡ false = sym (v.known key) ∙ unknown in
      let kept = remove_absent key l.order absent in
      elim (Bool-cases (leb l.capacity (length l.order))) [
        | inr room ↦ (
          push_front l key,
          rw (unknown, room) refl,
          push_front-IsValid l key v absent (ground (arith, room)),
          refl,
          ap (λ r. key ∷ r)
              (sym (ap (take n) kept ∙ take_of_length-le n l.order (ground (arith, c, room)))),
        )
        | inl full ↦ elim (pop_back-append l.order) [
          | inl (e, q) ↦
              absurd (let z = ap (λ xs. length xs) e in ground (arith, z, full, v.positive))
          | inr (k, rest, e, q) ↦
              let size : length rest ≡ n =
                let z = ap length e ∙ length-append rest (k ∷ []) in
                ground (arith, z, full, c, v.bounded) in
              let erased = erase_back-IsValid l k rest v e in
              let out : has key rest ≡ false =
                let z = sym (ap (has key) e ∙ has-append key rest (k ∷ [])) ∙ absent in
                ground (arith, z) in
              (
                push_front (erase_back l (k, rest)) key,
                rw (unknown, full, q) refl,
                push_front-IsValid (erase_back l (k, rest)) key erased out (omega (arith, size, c)),
                refl,
                ap (λ r. key ∷ r) (sym (ap (take n) (kept ∙ e) ∙ take-append rest k n size)),
              )
        ]
      ]
]

pub insert-IsValid :
    (l : Lru) (key : ℕ) → IsValid l → (l' : Lru) × (insert l key ≡ some l') × IsValid l'
insert-IsValid l key v =
    let (l', done, valid, same, order) =
      insert-window l key (l.capacity - 1) v (omega (arith, v.positive)) in
    (l', done, valid)
