-- ===== src/Hybrid/Allocator.antt =====
-- What the value store needs of an allocator (src/memory/malloc.h, MallocApi): New gives out blocks
-- that do not overlap, and Free takes one back.
use rec_store.Prelude.{
  ℕ, ◌+◌, ◌^◌, ◌≤◌, ◌<◌, ◌≡◌, ◌≢◌, ◌⊎◌, sym, ◌∙◌, arith, Bool, Option, none, some, update,
  ℕ_discrete,
}

-- `New` answers an address or a null pointer, the outer `none` is an abort; `Free` answers whether
-- it took the block. Pointers are counted from the allocator's data, so that `GetMallocOffset` of a
-- live block answers the block itself; its answer -1 is `none`.
pub record Allocator (S : Type 0) : Type 0 where
  pub new : S → ℕ → Option (Option ℕ × S)
  pub free : S → ℕ → Bool × S
  pub offset : S → ℕ → Option ℕ

-- The block of n bytes at p meets no live block; `live q` is the size of the block at q, if positive.
abbrev pub Separate : (ℕ → ℕ) → ℕ → ℕ → Type 0
Separate live p n = (q : ℕ) → 0 < live q → (q + live q ≤ p) ⊎ (p + n ≤ q)

-- Two live blocks do not meet.
abbrev pub Spaced : (ℕ → ℕ) → Type 0
Spaced live = (a b : ℕ) → 0 < live a → 0 < live b → a ≢ b → (a + live a ≤ b) ⊎ (b + live b ≤ a)

pub Spaced-update :
    {live : ℕ → ℕ} (p n : ℕ) → Spaced live → Separate live p n → Spaced (update live p n)
Spaced-update {live} p n spaced apart a b la lb ne = elim (ℕ_discrete p a) [
  | yes ea ↦ elim (ℕ_discrete p b) [
    | yes eb ↦ absurd (ne (sym ea ∙ eb))
    | no nb ↦ ground (arith, apart b)
  ]
  | no na ↦ elim (ℕ_discrete p b) [
    | yes eb ↦ ground (arith, apart a)
    | no nb ↦ ground (arith, spaced a b)
  ]
]

pub Spaced-free : {live : ℕ → ℕ} (p : ℕ) → Spaced live → Spaced (update live p 0)
Spaced-free {live} p spaced a b la lb ne = ground (arith, spaced a b)

module _ {S : Type 0} (api : Allocator S) (Owns : S → (ℕ → ℕ) → Type 0) where
  -- `New` gave no block, and the live ones are the same.
  abbrev pub GaveNone : S → ℕ → (ℕ → ℕ) → Type 0
  GaveNone s size live = (s' : S) × (api.new s size ≡ some (none, s')) × Owns s' live

  -- `New` gave a block of at least the size asked for.
  abbrev pub GaveBlock : S → ℕ → (ℕ → ℕ) → Type 0
  GaveBlock s size live =
      (p : ℕ) × (n : ℕ) × (s' : S) × (api.new s size ≡ some (some p, s'))
      × (size ≤ n)
      × (0 < p)
      × (p + n ≤ 2 ^ 62)
      × Separate live p n
      × Owns s' (update live p n)

  pub record Lawful : Type 0 where
    pub gives :
        (s : S) (live : ℕ → ℕ) (size : ℕ)
        → Owns s live
        → 0 < size
        → size < 2 ^ 17
        → GaveNone s size live ⊎ GaveBlock s size live
    pub takes :
        (s : S) (live : ℕ → ℕ) (p : ℕ)
        → Owns s live
        → 0 < live p
        → Owns (api.free s p).1 (update live p 0)
    pub counts : (s : S) (live : ℕ → ℕ) (p : ℕ) → Owns s live → 0 < live p → api.offset s p ≡ some p
