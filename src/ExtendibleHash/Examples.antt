-- ===== src/ExtendibleHash/Examples.antt =====
-- The index's theorems on small indexes whose hash is the key itself.
use rec_store.Prelude.{
  ℕ, zero, suc, ◌+◌, ◌-◌, ◌/◌, ◌%◌, ◌^◌, ◌<◌, ◌≡◌, ◌≢◌, ◌↔◌, ◌⊎◌, refl, arith, true, false, none,
  some, List, [], ◌∷◌, ◌==◌, if◌then◌else◌, length, get_or,
}
use mathlib.Core.Option.{Option}
use rec_store.ExtendibleHash.Power.{mypow}
use rec_store.ExtendibleHash.Slots.{invalid, insert4split, rewrite_first, extract_slots}
use rec_store.ExtendibleHash.Slots.Counting.{count, tally}
use rec_store.ExtendibleHash.Block
use rec_store.ExtendibleHash.Block.{new_block, store, split_loop}
use rec_store.ExtendibleHash.Directory.{Directory, lsb_update, doubled}
use rec_store.ExtendibleHash.Directory.Update.{lsb_update_lem}
use rec_store.ExtendibleHash.Directory.Doubling.{doubled_lem}
use rec_store.ExtendibleHash.Ops.{
  ExtendibleHash, create, built, floor_log2, get, insert, insert_only, delete, split_full, put_all,
  locate, try_insert, update_directory, init_blocks, range_from,
}
use rec_store.ExtendibleHash.Invariant.{address, entry, IsValid, home}
use rec_store.ExtendibleHash.Storing.{target}
use rec_store.ExtendibleHash.Splits.Step.{Splits, split_full-Splits}
use rec_store.ExtendibleHash.Put.{HasRoom, Puts, insert_total}
use rec_store.ExtendibleHash.Removing.{delete_lem, insert_only_lem}
use rec_store.ExtendibleHash.Creation.{create-IsValid, insert-create_endless}

abbrev same : ℕ → ℕ
same k = k

abbrev small : ExtendibleHash
small = built (2 ^ 1)

small-IsValid : IsValid same small
small-IsValid = (create-IsValid same 1 (omega arith)).1

five_valid : 5 ≢ invalid
five_valid e = omega arith

small-HasRoom : HasRoom same 30 5 small
unfolding built floor_log2 init_blocks range_from new_block tally
small-HasRoom = omega arith

small-shallow : (entry small (home same small 5)).local_depth < 30
unfolding built floor_log2 init_blocks range_from new_block
small-shallow = omega arith

insert_total_example :
    (u : ExtendibleHash) × (insert same 32 small 5 7 ≡ some u) × Puts same small 5 7 u
insert_total_example =
    insert_total same 32 small-IsValid 5 7 30 five_valid (omega arith) small-HasRoom (omega arith)

split_full-Splits_example :
    (u : ExtendibleHash) × (split_full same small 5 (address small (home same small 5)) ≡ some u)
    × Splits same 5 small u
split_full-Splits_example = split_full-Splits same small-IsValid 5 small-shallow

delete_lem_example :
    (((delete same small 5).0 ≡ true) ↔ (0 < count 5 (target same small-IsValid 5).slots))
    × IsValid same (delete same small 5).1
    × ((q : ℕ)
        → q ≢ invalid
        → get same (delete same small 5).1 q ≡ (if 5 == q then 0 else get same small q))
delete_lem_example = delete_lem same small-IsValid 5 five_valid

insert_only_lem_example :
    (((insert_only same small 5 7).0 ≡ true) × Puts same small 5 7 (insert_only same small 5 7).1)
    ⊎ (((insert_only same small 5 7).0 ≡ false)
        × (count 5 (target same small-IsValid 5).slots ≡ 0)
        × (count invalid (target same small-IsValid 5).slots ≡ 0)
        × IsValid same (insert_only same small 5 7).1
        × ((q : ℕ) → get same (insert_only same small 5 7).1 q ≡ get same small q))
insert_only_lem_example = insert_only_lem same small-IsValid 5 7 five_valid

create-IsValid_example :
    (create (some 2) ≡ some small)
    × IsValid same small
    × (small.global_depth ≡ 1)
    × ((k : ℕ) → k ≢ invalid → get same small k ≡ 0)
create-IsValid_example = create-IsValid same 1 (omega arith)

two_apart : 2 % 2 ^ floor_log2 64 3 ≢ 2 % 3
unfolding floor_log2
two_apart e = omega arith

insert-create_endless_example :
    (create (some 3) ≡ some (built 3)) × (insert same 1000 (built 3) 2 7 ≡ none)
insert-create_endless_example =
    insert-create_endless same 1000 3 2 7 (omega arith) (omega arith) two_apart

abbrev eight : List ℕ
eight = 0 ∷ 1 ∷ 2 ∷ 3 ∷ 0 ∷ 1 ∷ 2 ∷ 3 ∷ []

lsb_update_lem_example :
    (length (lsb_update (3 - (1 + 1)) (2 ^ 3) 5 8 9 eight) ≡ 2 ^ 3)
    × ((j z : ℕ)
        → j < 2 ^ 3
        → get_or (lsb_update (3 - (1 + 1)) (2 ^ 3) 5 8 9 eight) j z ≡ (
            if 5 % 2 ^ 1 == j % 2 ^ 1
            then (if j / 2 ^ 1 % 2 == 0 then 8 else 9)
            else get_or eight j z))
lsb_update_lem_example =
    lsb_update_lem 3 1 5 8 9 eight (omega arith) (omega arith) (omega arith) refl

abbrev wide : Directory
wide = record { entries = eight; capacity = 8; lock = false }

doubled_lem_example :
    (length (doubled wide 5 8 9) ≡ 2 ^ suc 3)
    × ((j : ℕ)
        → j < 2 ^ suc 3
        → get_or (doubled wide 5 8 9) j 0 ≡ (
            if 5 == j % 2 ^ 3
            then (if j / 2 ^ 3 % 2 == 0 then 8 else 9)
            else get_or eight (j % 2 ^ 3) 0))
doubled_lem_example = doubled_lem wide 3 5 8 9 refl refl (omega arith)

-- Seventeen keys that agree on their three lower bits, and two on four.
pairs_from : ℕ → ℕ → List (ℕ × ℕ)
pairs_from zero k = []
pairs_from (suc n) k = (k, k + 1) ∷ pairs_from n (k + 8)

-- The seventeenth splits its block three times.
abbrev readings : Option ExtendibleHash → List ℕ
readings none = []
readings (some t) = t.global_depth ∷ get same t 8 ∷ get same t 136 ∷ get same t 9 ∷ []

put_all_run : readings (put_all same 32 small (pairs_from 17 8)) ≡ 4 ∷ 9 ∷ 137 ∷ 0 ∷ []
unfolding put_all insert built floor_log2 init_blocks range_from new_block pairs_from get locate
    try_insert split_full store split_loop Block.split Block.insert lsb_update doubled
    update_directory insert4split rewrite_first extract_slots mypow
put_all_run = refl
