-- ===== src/Epoch/Steps.antt =====
-- What every interleaving keeps: the epochs are ordered, and a scan finds no epoch above its own.
use rec_store.Prelude.{
  ℕ, suc, ◌+◌, ◌%◌, ◌^◌, ◌≤◌, ◌<◌, ◌≡◌, arith, Bool, true, false, Option, none, some, List, [], ◌∷◌,
  ◌==◌, ltb, if◌then◌else◌, update, Bool-cases, inl, inr, leb,
}
use rec_store.Epoch.{
  Pc, System, at_pc, start, Act, older, load_at, store_at, un_protect_at, fetch_at, fetched,
  scan_at, publish_at, retire_at, collect_front, collect_at, step,
}

-- A predicate of the state that a step or a sequence leads to, if it can be made.
abbrev pub Ensures {ℓ} : (System → Type ℓ) → Option System → Type ℓ
Ensures P none = Unit
Ensures P (some s) = P s

-- The epochs that a thread holds lie between 1 and the current one.
abbrev pub PcOk : ℕ → Pc → Type 0
PcOk c (Pc.loaded e) = (1 ≤ e) × (e ≤ c)
PcOk c (Pc.scanning old k oldest back) = (1 ≤ oldest) × (oldest ≤ old) × (old < c)
PcOk c _ = Unit

-- The state after at most k steps.
pub record Ordered (k : ℕ) (s : System) : Type 0 where
  pub positive : 1 ≤ s.current
  pub counted : s.current ≤ k + 1
  pub below : s.safe < s.current
  pub entries : (i : ℕ) → s.entry i ≤ s.current
  pub pcs : (i : ℕ) → PcOk s.current (s.pc i)

pub All-update {ℓ κ} :
    {A : Type ℓ} (P : A → Type κ) (f : ℕ → A) (i : ℕ) (a : A)
    → ((j : ℕ) → P (f j))
    → P a
    → (j : ℕ) → P (update f i a j)
All-update P f i a all h j = elim (Bool-cases (i == j)) [ inl e ↦ rw e h | inr e ↦ rw e (all j) ]

PcOk-suc : (c : ℕ) (p : Pc) → PcOk c p → PcOk (c + 1) p
PcOk-suc c Pc.idle h = tt
PcOk-suc c (Pc.loaded e) h = omega arith
PcOk-suc c Pc.recycling h = tt
PcOk-suc c (Pc.scanning old k oldest back) h = omega arith
PcOk-suc c Pc.collecting h = tt

module _ {k : ℕ} {s : System} (o : Ordered k s) (i : ℕ) where
  -- A thread goes on and the shared words stay.
  at_pc-Ordered : (p : Pc) → PcOk s.current p → Ordered (suc k) (at_pc s i p)
  at_pc-Ordered p h = record {
    positive = o.positive;
    counted = omega (arith, o.counted);
    below = o.below;
    entries = o.entries;
    pcs = All-update (PcOk s.current) s.pc i p o.pcs h;
  }

  load_at-Ordered : (p : Pc) → Ensures (Ordered (suc k)) (load_at p i s)
  load_at-Ordered Pc.idle = at_pc-Ordered (Pc.loaded s.current) (o.positive, omega arith)
  load_at-Ordered (Pc.loaded e) = tt
  load_at-Ordered _ = tt

  store_at-Ordered : (p : Pc) → PcOk s.current p → Ensures (Ordered (suc k)) (store_at p i s)
  store_at-Ordered (Pc.loaded e) h =
      let moved = at_pc-Ordered Pc.idle tt in
      record {
        positive = moved.positive;
        counted = moved.counted;
        below = moved.below;
        entries = All-update (λ e. e ≤ s.current) s.entry i e o.entries h.1;
        pcs = moved.pcs;
      }
  store_at-Ordered Pc.idle h = tt
  store_at-Ordered _ h = tt

  un_protect_at-Ordered : (p : Pc) → Ensures (Ordered (suc k)) (un_protect_at p i s)
  un_protect_at-Ordered Pc.idle = record {
    positive = o.positive;
    counted = omega (arith, o.counted);
    below = o.below;
    entries = All-update (λ e. e ≤ s.current) s.entry i 0 o.entries (omega arith);
    pcs = o.pcs;
  }
  un_protect_at-Ordered (Pc.loaded e) = tt
  un_protect_at-Ordered _ = tt

  fetched-Ordered : k + 2 < 2 ^ 64 → (back : Bool) → Ordered (suc k) (fetched i s back)
  fetched-Ordered small back =
      let next : (s.current + 1) % 2 ^ 64 ≡ s.current + 1 = omega (arith, o.counted) in
      rw next (record {
        positive = omega arith;
        counted = omega (arith, o.counted);
        below = omega (arith, o.below);
        entries = λ j. omega (arith, o.entries j);
        pcs =
            All-update (PcOk (s.current + 1)) s.pc i (Pc.scanning s.current 0 s.current back)
              (λ j. PcOk-suc s.current (s.pc j) (o.pcs j)) (o.positive, omega arith, omega arith);
      })

  fetch_at-Ordered : k + 2 < 2 ^ 64 → (p : Pc) → Ensures (Ordered (suc k)) (fetch_at p i s)
  fetch_at-Ordered small Pc.idle = fetched-Ordered small false
  fetch_at-Ordered small Pc.recycling = fetched-Ordered small true
  fetch_at-Ordered small (Pc.loaded e) = tt
  fetch_at-Ordered small _ = tt

  scan_at-Ordered :
      (n : ℕ) (p : Pc) → PcOk s.current p → Ensures (Ordered (suc k)) (scan_at n p i s)
  scan_at-Ordered n (Pc.scanning old m oldest back) h = elim (Bool-cases (ltb m n)) [
    | inr e ↦ rw e tt
    | inl e ↦
        rw e
          (at_pc-Ordered (Pc.scanning old (m + 1) (older (s.entry m) oldest) back) (ground arith))
  ]
  scan_at-Ordered n Pc.idle h = tt
  scan_at-Ordered n _ h = tt

  publish_at-Ordered :
      k + 2 < 2 ^ 64
      → (n : ℕ) (p : Pc) → PcOk s.current p
      → Ensures (Ordered (suc k)) (publish_at n p i s)
  publish_at-Ordered small n (Pc.scanning old m oldest back) h = elim (Bool-cases (ltb m n)) [
    | inl e ↦ rw e tt
    | inr e ↦ rw e (record {
      positive = o.positive;
      counted = omega (arith, o.counted);
      below = omega (arith, o.counted, h.0, h.1, h.2);
      entries = o.entries;
      pcs =
          All-update (PcOk s.current) s.pc i (if back then Pc.collecting else Pc.idle) o.pcs
            (ground arith);
    })
  ]
  publish_at-Ordered small n Pc.idle h = tt
  publish_at-Ordered small n _ h = tt

  retire_at-Ordered : (p : Pc) (ptr : ℕ) → Ensures (Ordered (suc k)) (retire_at p i ptr s)
  retire_at-Ordered Pc.idle ptr = record {
    positive = o.positive;
    counted = omega (arith, o.counted);
    below = o.below;
    entries = o.entries;
    pcs =
        All-update (PcOk s.current) s.pc i
          (if (s.recycled_count i + 1) % 1000 == 0 then Pc.recycling else Pc.collecting) o.pcs
          (ground arith);
  }
  retire_at-Ordered (Pc.loaded e) ptr = tt
  retire_at-Ordered _ ptr = tt

  collect_front-Ordered : (q : List (ℕ × ℕ)) → Ordered (suc k) (collect_front q i s)
  collect_front-Ordered [] = at_pc-Ordered Pc.idle tt
  collect_front-Ordered ((e, p) ∷ q) = elim (Bool-cases (leb e s.safe)) [
    | inr h ↦ rw h (at_pc-Ordered Pc.idle tt)
    | inl h ↦ rw h (record {
      positive = o.positive;
      counted = omega (arith, o.counted);
      below = o.below;
      entries = o.entries;
      pcs = o.pcs;
    })
  ]

  collect_at-Ordered : (p : Pc) → Ensures (Ordered (suc k)) (collect_at p i s)
  collect_at-Ordered Pc.collecting = collect_front-Ordered (s.queue i)
  collect_at-Ordered Pc.idle = tt
  collect_at-Ordered _ = tt

-- Every step keeps the order, as long as the epochs do not wrap.
pub step-Ordered :
    {k : ℕ} {s : System} (n : ℕ) (a : Act)
    → Ordered k s
    → k + 2 < 2 ^ 64
    → Ensures (Ordered (suc k)) (step n a s)
unfolding step
step-Ordered {s} n (Act.load i) o small = load_at-Ordered o i (s.pc i)
step-Ordered {s} n (Act.store i) o small = store_at-Ordered o i (s.pc i) (o.pcs i)
step-Ordered {s} n (Act.un_protect i) o small = un_protect_at-Ordered o i (s.pc i)
step-Ordered {s} n (Act.fetch i) o small = fetch_at-Ordered o i small (s.pc i)
step-Ordered {s} n (Act.scan i) o small = scan_at-Ordered o i n (s.pc i) (o.pcs i)
step-Ordered {s} n (Act.publish i) o small = publish_at-Ordered o i small n (s.pc i) (o.pcs i)
step-Ordered {s} n (Act.retire i ptr) o small = retire_at-Ordered o i (s.pc i) ptr
step-Ordered {s} n (Act.collect i) o small = collect_at-Ordered o i (s.pc i)

pub start-Ordered : Ordered 0 start
start-Ordered = record {
  positive = omega arith;
  counted = omega arith;
  below = omega arith;
  entries = λ i. omega arith;
  pcs = λ i. tt;
}
