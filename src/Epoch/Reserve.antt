-- ===== src/Epoch/Reserve.antt =====
-- MinEpochTable::ReserveEntry (src/memory/epoch_manager.h): how a thread gets its slot. The test of
-- an entry and its compare-exchange are one step; the outer loop repeats the pass until a timer
-- aborts the program, and no entry is ever given back.
use rec_store.Prelude.{
  ℕ, zero, suc, ◌+◌, ◌-◌, ◌%◌, ◌≤◌, ◌<◌, ◌≡◌, ◌≢◌, ◌⊎◌, inl, inr, refl, arith, Option, none, some,
  ◌==◌, if◌then◌else◌, update, Bool-cases, ℕ_discrete, dec_lt,
}
use native.Mathlib.Nat.{mod-lt, mod-eq_of_lt}

-- one pass over the table of n entries, from round i on; k rounds are left
unfoldable pub reserve_pass : ℕ → ℕ → ℕ → ℕ → ℕ → (ℕ → ℕ) → Option (ℕ × (ℕ → ℕ))
reserve_pass n start_index thread_id zero i ids = none
reserve_pass n start_index thread_id (suc k) i ids =
    let index_to_test = (start_index + i) % n in
    let rest = reserve_pass n start_index thread_id k (i + 1) ids in
    if ids index_to_test == 0
    then some (index_to_test, update ids index_to_test thread_id)
    else rest

-- A pass over the whole table, as a thread with the given hash makes it.
unfoldable pub reserve_entry : ℕ → ℕ → ℕ → (ℕ → ℕ) → Option (ℕ × (ℕ → ℕ))
unfolding reserve_pass
reserve_entry n hash thread_id ids = reserve_pass n (hash % n) thread_id n 0 ids

pass_lem :
    (n start thread_id k i : ℕ) (ids : ℕ → ℕ)
    → 0 < n
    → ((reserve_pass n start thread_id k i ids ≡ none)
        × ((j : ℕ) → i ≤ j → j < i + k → ids ((start + j) % n) ≢ 0))
      ⊎ ((j : ℕ) × (j < n)
          × (ids j ≡ 0)
          × (reserve_pass n start thread_id k i ids ≡ some (j, update ids j thread_id)))
unfolding reserve_pass
pass_lem n start thread_id zero i ids pos = inl (refl, λ j a l. absurd (omega arith))
pass_lem n start thread_id (suc k) i ids pos = elim (Bool-cases (ids ((start + i) % n) == 0)) [
  | inl e ↦ inr ((start + i) % n, mod-lt _ pos, ground arith, rw e refl)
  | inr e ↦ elim (pass_lem n start thread_id k (i + 1) ids pos) [
    | inr (j, l, z, r) ↦ inr (j, l, z, rw e r)
    | inl (r, all) ↦ inl (
      rw e r,
      λ j a l. elim (ℕ_discrete i j) [
        | yes same ↦ ground arith
        | no other ↦ all j (omega arith) (omega arith)
      ],
    )
  ]
]

slot-round : (n start x : ℕ) → start < n → x < n → (j : ℕ) × (j < n) × ((start + j) % n ≡ x)
slot-round n start x s l = elim (dec_lt x start) [
  | no after ↦ (
    x - start,
    omega arith,
    let sum : start + (x - start) ≡ x = omega arith in rw sum (mod-eq_of_lt l),
  )
  | yes below ↦
      let sum : start + (x + n - start) ≡ x + n = omega arith in
      (x + n - start, omega arith, rw sum (grind arith))
]

-- On a table of at least one entry ReserveEntry gives a thread an entry that no thread has, writes
-- its id there and nowhere else; a pass finds none exactly when every entry of the table is taken.
pub reserve_entry_lem :
    (n hash thread_id : ℕ) (ids : ℕ → ℕ)
    → 0 < n
    → ((reserve_entry n hash thread_id ids ≡ none) × ((x : ℕ) → x < n → ids x ≢ 0))
      ⊎ ((j : ℕ) × (j < n)
          × (ids j ≡ 0)
          × (reserve_entry n hash thread_id ids ≡ some (j, update ids j thread_id)))
unfolding reserve_entry
reserve_entry_lem n hash thread_id ids pos = elim (pass_lem n (hash % n) thread_id n 0 ids pos) [
  | inr found ↦ inr found
  | inl (r, all) ↦ inl (
    r,
    λ x l.
        let (j, inside, e) = slot-round n (hash % n) x (mod-lt _ pos) l in
        rw e at (all j (omega arith) (omega arith)),
  )
]
