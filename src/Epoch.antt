-- ===== src/Epoch.antt =====
-- EpochManager (src/memory/epoch_manager.h) and ShmEpochRecycle (src/memory/malloc.h): readers
-- publish the epoch they entered in, and a removed object is freed once every reader of its epoch
-- has left. Each access of a shared word is one step of a thread, and the steps of the threads
-- interleave in any order. Thread i has slot i of the table.
pub mod Steps
pub mod Safety
pub mod Holding
pub mod Reserve
mod Examples
use rec_store.Prelude.{
  ℕ, zero, suc, ◌+◌, ◌-◌, ◌*◌, ◌%◌, ◌^◌, Bool, true, false, not, ◌&&◌, Option, none, some, List, [],
  ◌∷◌, ◌++◌, ◌==◌, ltb, leb, if◌then◌else◌, update, ◌≡◌,
}

-- Where a thread stands: in `Protect` after the load, in `Recycle` before `BumpCurrentEpoch`, in the
-- scan of the table (with the old epoch, the next slot, the oldest epoch seen, and whether `Recycle`
-- called it), or in the loop of `Recycle` that frees.
pub data Pc : Type 0 where
  idle : Pc
  loaded : ℕ → Pc
  recycling : Pc
  scanning : ℕ → ℕ → ℕ → Bool → Pc
  collecting : Pc

-- The manager, the table's epochs, and each thread's recycler: its queue, its counter, and what
-- has been freed.
pub record System : Type 0 where
  pub current : ℕ
  pub safe : ℕ
  pub entry : ℕ → ℕ
  pub pc : ℕ → Pc
  pub queue : ℕ → List (ℕ × ℕ)
  pub recycled_count : ℕ → ℕ
  pub freed : List ℕ

-- the constructors
abbrev pub start : System
start = record {
  current = 1;
  safe = 0;
  entry = λ i. 0;
  pc = λ i. Pc.idle;
  queue = λ i. [];
  recycled_count = λ i. 0;
  freed = [];
}

pub data Act : Type 0 where
  load store un_protect fetch scan publish collect : ℕ → Act
  retire : ℕ → ℕ → Act

-- the body of the loop of `ComputeNewSafeToReclaimEpoch`
abbrev pub older : ℕ → ℕ → ℕ
older entry_epoch oldest_call =
    if not (entry_epoch == 0) && ltb entry_epoch oldest_call then entry_epoch else oldest_call

abbrev pub at_pc : System → ℕ → Pc → System
at_pc s i p = record s { pc = update s.pc i p }

-- `Protect`, the load
abbrev pub load_at : Pc → ℕ → System → Option System
load_at Pc.idle i s = some (at_pc s i (Pc.loaded s.current))
load_at _ i s = none

-- `Protect`, the store of `EnqueProtect`
abbrev pub store_at : Pc → ℕ → System → Option System
store_at (Pc.loaded e) i s =
    some (record s { entry = update s.entry i e; pc = update s.pc i Pc.idle })
store_at _ i s = none

-- `UnProtect`
abbrev pub un_protect_at : Pc → ℕ → System → Option System
un_protect_at Pc.idle i s = some (record s { entry = update s.entry i 0 })
un_protect_at _ i s = none

abbrev pub fetched : ℕ → System → Bool → System
fetched i s back = record s {
  current = (s.current + 1) % 2 ^ 64;
  pc = update s.pc i (Pc.scanning s.current 0 s.current back);
}

-- `BumpCurrentEpoch`, the fetch_add
abbrev pub fetch_at : Pc → ℕ → System → Option System
fetch_at Pc.idle i s = some (fetched i s false)
fetch_at Pc.recycling i s = some (fetched i s true)
fetch_at _ i s = none

-- `ComputeNewSafeToReclaimEpoch`, one round of its loop over a table of n slots
abbrev pub scan_at : ℕ → Pc → ℕ → System → Option System
scan_at n (Pc.scanning old k oldest back) i s =
    if ltb k n
    then some (at_pc s i (Pc.scanning old (k + 1) (older (s.entry k) oldest) back))
    else none
scan_at n _ i s = none

-- `ComputeNewSafeToReclaimEpoch`, the store of what the loop found
abbrev pub publish_at : ℕ → Pc → ℕ → System → Option System
publish_at n (Pc.scanning old k oldest back) i s =
    if ltb k n
    then none
    else some (record s {
      safe = (oldest + 2 ^ 64 - 1) % 2 ^ 64;
      pc = update s.pc i (if back then Pc.collecting else Pc.idle);
    })
publish_at n _ i s = none

-- `Recycle` up to the call of `BumpCurrentEpoch`
abbrev pub retire_at : Pc → ℕ → ℕ → System → Option System
retire_at Pc.idle i ptr s =
    let n = s.recycled_count i + 1 in
    some (record s {
      recycled_count = update s.recycled_count i n;
      queue = update s.queue i (if ptr == 0 then s.queue i else s.queue i ++ (s.current, ptr) ∷ []);
      pc = update s.pc i (if n % 1000 == 0 then Pc.recycling else Pc.collecting);
    })
retire_at _ i ptr s = none

abbrev pub is_safe_to_reclaim : System → ℕ → Bool
is_safe_to_reclaim s epoch = leb epoch s.safe

-- one round of the loop of `Recycle` that frees
abbrev pub collect_front : List (ℕ × ℕ) → ℕ → System → System
collect_front [] i s = at_pc s i Pc.idle
collect_front ((e, p) ∷ q) i s =
    if is_safe_to_reclaim s e
    then record s { queue = update s.queue i q; freed = p ∷ s.freed }
    else at_pc s i Pc.idle

abbrev pub collect_at : Pc → ℕ → System → Option System
collect_at Pc.collecting i s = some (collect_front (s.queue i) i s)
collect_at _ i s = none

-- A step of one thread over a table of n slots; `none` where the thread does not stand there.
unfoldable pub step : ℕ → Act → System → Option System
step n (Act.load i) s = load_at (s.pc i) i s
step n (Act.store i) s = store_at (s.pc i) i s
step n (Act.un_protect i) s = un_protect_at (s.pc i) i s
step n (Act.fetch i) s = fetch_at (s.pc i) i s
step n (Act.scan i) s = scan_at n (s.pc i) i s
step n (Act.publish i) s = publish_at n (s.pc i) i s
step n (Act.retire i ptr) s = retire_at (s.pc i) i ptr s
step n (Act.collect i) s = collect_at (s.pc i) i s

abbrev pub then_run : (System → Option System) → Option System → Option System
then_run f none = none
then_run f (some s) = f s

-- An interleaving: a sequence of steps, each of which can be made.
unfoldable pub run : ℕ → List Act → System → Option System
run n [] s = some s
run n (a ∷ acts) s = then_run (run n acts) (step n a s)

-- Does the step write slot t?
abbrev pub touches : ℕ → Act → Bool
touches t (Act.store i) = i == t
touches t (Act.un_protect i) = i == t
touches t _ = false

-- No step of the sequence writes slot t.
abbrev pub Leaves : ℕ → List Act → Type 0
Leaves t [] = Unit
Leaves t (a ∷ acts) = (touches t a ≡ false) × Leaves t acts
