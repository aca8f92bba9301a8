-- ===== src/Engine/Numbers.antt =====
-- How an allocator numbers its blocks (src/memory/malloc.h, MallocApi): `GetMallocData` and
-- `GetMallocOffset`, which do not depend on what is allocated. A null pointer is `none`.
use rec_store.Prelude.{ℕ, ◌*◌, ◌-◌, ◌%◌, ◌^◌, ◌≤◌, ◌<◌, ◌≡◌, Option, some}
use rec_store.Prelude.Int.{ℤ, pos}

pub record Addressing : Type 0 where
  pub get_malloc_data : ℤ → Option ℕ
  pub get_malloc_offset : ℕ → ℤ

-- The block at p has an offset that is a multiple of 8 and not 0, which a word of an index with
-- 32 bits for it can hold.
abbrev pub Numbered : Addressing → ℕ → Type 0
Numbered g p =
    (o : ℕ) × (g.get_malloc_offset p ≡ pos o)
    × (g.get_malloc_data (pos o) ≡ some p)
    × (8 ≤ o)
    × (o % 8 ≡ 0)
    × (o < 8 * (2 ^ 32 - 1))

-- Every live block has a number.
abbrev pub Addresses : {S : Type 0} → Addressing → (S → (ℕ → ℕ) → Type 0) → Type 0
Addresses {S} g Owns = (s : S) (live : ℕ → ℕ) → Owns s live → (p : ℕ) → 0 < live p → Numbered g p
