-- ===== src/ExtendibleHash/Slots.antt =====
-- The slots of a block (Pair of src/storage/hybrid/pair.h) and the loops over them.
pub mod Counting
pub mod Writes
pub mod Splitting
use rec_store.Prelude.{
  ℕ, zero, suc, ◌+◌, ◌-◌, ◌^◌, Bool, Option, none, some, List, [], ◌∷◌, ◌==◌, not, if◌then◌else◌,
}
use mathlib.Core.Option

pub record Pair : Type 0 where
  pub key : ℕ
  pub value : ℕ

abbrev pub sentinel : ℕ
sentinel = 2 ^ 64 - 2

abbrev pub invalid : ℕ
invalid = 2 ^ 64 - 1

-- `NONE`
abbrev pub none_value : ℕ
none_value = 0

-- the default constructor sets the key alone; the value, which no search returns, is 0 here
abbrev pub empty_pair : Pair
empty_pair = record { key = invalid; value = 0 }

-- The loop that all operations share: the first slot with key k is rewritten, and its index is
-- returned.
unfoldable pub rewrite_first : ℕ → (Pair → Pair) → List Pair → Option (ℕ × List Pair)
rewrite_first k f [] = none
rewrite_first k f (s ∷ ss) =
    let rest = Option.map (λ r. (suc r.0, s ∷ r.1)) (rewrite_first k f ss) in
    if s.key == k then some (0, f s ∷ ss) else rest

-- the loop of `Extract`
unfoldable pub extract_slots : ℕ → List Pair → ℕ
extract_slots k [] = none_value
extract_slots k (s ∷ ss) = let rest = extract_slots k ss in if s.key == k then s.value else rest

-- `numElem`
unfoldable pub num_elem : List Pair → ℕ
num_elem [] = 0
num_elem (s ∷ ss) = (if s.key == invalid then 0 else 1) + num_elem ss

-- `Insert4split`
unfoldable pub insert4split : ℕ → ℕ → List Pair → List Pair
insert4split key value slots =
    elim (rewrite_first invalid (λ s. record { key = key; value = value }) slots) [
      | none ↦ slots
      | some (i, ss) ↦ ss
    ]
