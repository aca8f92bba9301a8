-- ===== src/ExtendibleHash/Directory.antt =====
-- `Directory`: the array of block addresses, doubled on demand, under one lock.
pub mod Windows
pub mod Update
pub mod Doubling
use rec_store.Prelude.{ℕ, zero, suc, ◌+◌, ◌-◌, ◌/◌, ◌%◌, Bool, List, ◌++◌, leb, if◌then◌else◌, set}

pub record Directory : Type 0 where
  pub entries : List ℕ
  pub capacity : ℕ
  pub lock : Bool

-- `LSBUpdate`, by the difference of the depths. The two writes, or the two recursive calls, go to
-- the half of the window that x is in and to the other half. The depths, the window and x are `int`s;
-- this is what the code does for windows of fewer than 2 ^ 31 entries, on which no `int` overflows.
unfoldable pub lsb_update : ℕ → ℕ → ℕ → ℕ → ℕ → List ℕ → List ℕ
lsb_update zero dir_cap x s0 s1 es =
    if leb (dir_cap / 2) (x % dir_cap)
    then set (set es (x - dir_cap / 2) s0) x s1
    else set (set es x s0) (x + dir_cap / 2) s1
lsb_update (suc d) dir_cap x s0 s1 es =
    let low = if leb (dir_cap / 2) (x % dir_cap) then x - dir_cap / 2 else x in
    let high = if leb (dir_cap / 2) (x % dir_cap) then x else x + dir_cap / 2 in
    lsb_update d (dir_cap / 2) high s0 s1 (lsb_update d (dir_cap / 2) low s0 s1 es)

-- directory doubling: two copies, then the entries of the split block
unfoldable pub doubled : Directory → ℕ → ℕ → ℕ → List ℕ
doubled dir x s0 s1 = set (set (dir.entries ++ dir.entries) x s0) (x + dir.capacity) s1
