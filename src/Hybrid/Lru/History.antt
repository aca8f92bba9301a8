-- ===== src/Hybrid/Lru/History.antt =====
-- A run of the cache against an ideal list of the keys used since the last batch and of those that it
-- left, the latest first, which has no bound between batches (src/storage/hybrid/value.h).
use rec_store.Prelude.{
  ℕ, zero, suc, ◌<◌, ◌≡◌, inl, inr, refl, ap, sym, ◌∙◌, arith, Option, none, some, List, [], ◌∷◌,
  ◌++◌, length,
}
use mathlib.Core.List.{reverse, reverse-append, append_assoc, append-nil, reverse-reverse}
use rec_store.Prelude.Bytes.{drop}
use rec_store.Hybrid.Lru.{
  Lru, new_lru, remove, pop_back, erase_back, insert, evict_loop, evict_batch,
}
use rec_store.Hybrid.Lru.Keys.{take, touch, take-remove-take, take_of_length-le, pop_back-append}
use rec_store.Hybrid.Lru.Recency.{IsValid, insert-window, erase_back-IsValid}

pub data Call : Type 0 where
  use_key : ℕ → Call
  take_batch : ℕ → Call

abbrev pub then_run {ℓ} : {A : Type ℓ} → (Lru → Option A) → Option Lru → Option A
then_run f none = none
then_run f (some l) = f l

abbrev pub answer_first : List ℕ → Option (List (List ℕ) × Lru) → Option (List (List ℕ) × Lru)
answer_first keys none = none
answer_first keys (some r) = some (keys ∷ r.0, r.1)

-- A run of the cache, with what the batches answer.
unfoldable pub run : List Call → Lru → Option (List (List ℕ) × Lru)
run [] l = some ([], l)
run (Call.use_key k ∷ calls) l = then_run (run calls) (insert l k)
run (Call.take_batch n ∷ calls) l =
    let (keys, l') = evict_batch l n in answer_first keys (run calls l')

-- The ideal: a use puts its key in front of a list without a bound; a batch of n forgets the keys
-- behind the first `capacity`, and takes the last n of these, the last one first.
abbrev pub ideal : ℕ → List Call → List ℕ → List (List ℕ) × List ℕ
ideal capacity [] h = ([], h)
ideal capacity (Call.use_key k ∷ calls) h = ideal capacity calls (touch k h)
ideal capacity (Call.take_batch n ∷ calls) h =
    let oldest = reverse (take capacity h) in
    let rest = ideal capacity calls (reverse (drop n oldest)) in (take n oldest ∷ rest.0, rest.1)

evict_loop-stop :
    (n : ℕ) (l : Lru) (out : List ℕ) → pop_back l.order ≡ none → evict_loop (suc n) l out ≡ (out, l)
unfolding evict_loop
evict_loop-stop n l out q = rw (q, evict_loop) refl

evict_loop-next :
    (n : ℕ) (l : Lru) (out : List ℕ) (k : ℕ) (rest : List ℕ)
    → pop_back l.order ≡ some (k, rest)
    → evict_loop (suc n) l out ≡ evict_loop n (erase_back l (k, rest)) (out ++ k ∷ [])
unfolding evict_loop
evict_loop-next n l out k rest q = rw (q, evict_loop) refl

pub evict_loop-oldest :
    (n : ℕ) (l : Lru) (out : List ℕ)
    → IsValid l
    → (l' : Lru) × (evict_loop n l out ≡ (out ++ take n (reverse l.order), l'))
      × IsValid l'
      × (l'.capacity ≡ l.capacity)
      × (l'.order ≡ reverse (drop n (reverse l.order)))
unfolding evict_loop
evict_loop-oldest zero l out v =
    (l, ap (λ o. (o, l)) (sym (append-nil out)), v, refl, sym (reverse-reverse l.order))
evict_loop-oldest (suc n) l out v = elim (pop_back-append l.order) [
  | inl (e, q) ↦ (
    l,
    evict_loop-stop n l out q
        ∙ ap (λ o. (o, l))
            (sym (append-nil out) ∙ ap (λ xs. out ++ take (suc n) (reverse xs)) (sym e)),
    v,
    refl,
    e ∙ ap (λ xs. reverse (drop (suc n) (reverse xs))) (sym e),
  )
  | inr (k, rest, e, q) ↦
      let erased = erase_back-IsValid l k rest v e in
      let back : reverse l.order ≡ k ∷ reverse rest = ap reverse e ∙ reverse-append rest (k ∷ []) in
      let (l', run', v', c, o) =
        evict_loop-oldest n (erase_back l (k, rest)) (out ++ k ∷ []) erased in
      (
        l',
        evict_loop-next n l out k rest q
            ∙ run'
            ∙ ap (λ o. (o, l'))
                (append_assoc out (k ∷ []) (take n (reverse rest))
                  ∙ ap (λ xs. out ++ take (suc n) xs) (sym back)),
        v',
        c,
        o ∙ ap (λ xs. reverse (drop (suc n) xs)) (sym back),
      )
]

window-touch :
    (k n : ℕ) (h : List ℕ) → k ∷ take n (remove k (take (suc n) h)) ≡ take (suc n) (touch k h)
window-touch k n h = ap (λ xs. k ∷ xs) (take-remove-take k n h)

run-window :
    (calls : List Call) (l : Lru) (h : List ℕ) (n : ℕ)
    → IsValid l
    → l.capacity ≡ suc n
    → l.order ≡ take (suc n) h
    → (l' : Lru) × (run calls l ≡ some ((ideal (suc n) calls h).0, l'))
      × IsValid l'
      × (l'.order ≡ take (suc n) (ideal (suc n) calls h).1)
unfolding run evict_batch
run-window [] l h n v c o = (l, refl, v, o)
run-window (Call.use_key k ∷ calls) l h n v c o =
    let (u, done, valid, same, window) = insert-window l k n v c in
    let order = window ∙ ap (λ xs. k ∷ take n (remove k xs)) o ∙ window-touch k n h in
    let (l', rest, v', o') = run-window calls u (touch k h) n valid (same ∙ c) order in
    (l', ap (then_run (run calls)) done ∙ rest, v', o')
run-window (Call.take_batch m ∷ calls) l h n v c o =
    let (u, done, valid, same, left) = evict_loop-oldest m l [] v in
    let h' = reverse (drop m (reverse (take (suc n) h))) in
    let order = left ∙ ap (λ xs. reverse (drop m (reverse xs))) o in
    let size = ap length order in
    let fits = sym (take_of_length-le (suc n) h' (omega (arith, size, valid.bounded, same, c))) in
    let (l', rest, v', o') = run-window calls u h' n valid (same ∙ c) (order ∙ fits) in
    (
      l',
      ap (λ r. answer_first r.0 (run calls r.1)) done
          ∙ ap (answer_first (take m (reverse l.order))) rest
          ∙ ap (λ xs. some (take m (reverse xs) ∷ (ideal (suc n) calls h').0, l')) o,
      v',
      o',
    )

-- From an empty cache of a positive capacity, no run of uses and batches meets an empty list, each
-- batch answers as it does on the ideal list, and the cache holds the first `capacity` keys of that
-- list, in order. The ideal list grows with every new key, and is cut to its first `capacity` keys, less
-- those that are taken, by each batch.
pub run-ideal :
    (capacity : ℕ) (calls : List Call)
    → 0 < capacity
    → (l : Lru) × (run calls (new_lru capacity) ≡ some ((ideal capacity calls []).0, l))
      × (l.order ≡ take capacity (ideal capacity calls []).1)
run-ideal zero calls positive = absurd (omega arith)
run-ideal (suc n) calls positive =
    let (l, done, valid, order) =
      run-window calls (new_lru (suc n)) [] n
        (record { positive = omega arith; bounded = omega arith; distinct = tt; known = λ k. refl })
        refl refl in
    (l, done, order)
