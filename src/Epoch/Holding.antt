-- ===== src/Epoch/Holding.antt =====
-- What every step keeps for an object that waits (src/memory/epoch_manager.h).
use rec_store.Prelude.{
  ℕ, ◌+◌, ◌%◌, ◌^◌, ◌≤◌, ◌<◌, ◌≡◌, ◌≢◌, ◌⊎◌, inl, inr, arith, Bool, true, false, List, [], ◌∷◌,
  ◌++◌, ◌==◌, ltb, leb, if◌then◌else◌, update, Bool-cases, ℕ_discrete,
}
use rec_store.Epoch.{
  Pc, System, at_pc, Act, older, load_at, store_at, un_protect_at, fetch_at, fetched, scan_at,
  publish_at, retire_at, collect_front, collect_at, step, touches,
}
use rec_store.Epoch.Steps.{Ensures, Ordered, All-update}

-- The object is in the queue with its removal epoch.
abbrev pub Waits : ℕ → ℕ → List (ℕ × ℕ) → Type 0
Waits r ptr [] = ⊥
Waits r ptr ((e, p) ∷ q) = ((e ≡ r) × (p ≡ ptr)) ⊎ Waits r ptr q

pub Waits-append :
    (r ptr : ℕ) (q q' : List (ℕ × ℕ)) → Waits r ptr q ⊎ Waits r ptr q' → Waits r ptr (q ++ q')
Waits-append r ptr [] q' (inr h) = h
Waits-append r ptr [] q' (inl h) = absurd h
Waits-append r ptr ((e, p) ∷ q) q' (inl (inl h)) = inl h
Waits-append r ptr ((e, p) ∷ q) q' (inl (inr h)) = inr (Waits-append r ptr q q' (inl h))
Waits-append r ptr ((e, p) ∷ q) q' (inr h) = inr (Waits-append r ptr q q' (inr h))

module _ (t r w ptr : ℕ) where
  -- A scan that has passed the slot of t found an epoch of at most r.
  abbrev pub Passed : Pc → Type 0
  Passed (Pc.scanning old k oldest back) = (1 ≤ oldest) × (t < k → oldest ≤ r)
  Passed _ = Unit

  -- Slot t holds an epoch of at most r, and the object of epoch r waits in the queue of w.
  pub record Held (s : System) : Type 0 where
    pub taken : s.entry t ≢ 0
    pub older : s.entry t ≤ r
    pub bound : s.safe < r
    pub scans : (i : ℕ) → Passed (s.pc i)
    pub waits : Waits r ptr (s.queue w)

  module _ {k : ℕ} {s : System} (o : Ordered k s) (h : Held s) (i : ℕ) where
    at_pc-Held : (p : Pc) → Passed p → Held (at_pc s i p)
    at_pc-Held p ok = record {
      taken = h.taken;
      older = h.older;
      bound = h.bound;
      scans = All-update Passed s.pc i p h.scans ok;
      waits = h.waits;
    }

    load_at-Held : (p : Pc) → Ensures Held (load_at p i s)
    load_at-Held Pc.idle = at_pc-Held (Pc.loaded s.current) tt
    load_at-Held (Pc.loaded e) = tt
    load_at-Held _ = tt

    store_at-Held : (i == t) ≡ false → (p : Pc) → Ensures Held (store_at p i s)
    store_at-Held other (Pc.loaded e) = record {
      taken = rw other h.taken;
      older = rw other h.older;
      bound = h.bound;
      scans = All-update Passed s.pc i Pc.idle h.scans tt;
      waits = h.waits;
    }
    store_at-Held other Pc.idle = tt
    store_at-Held other _ = tt

    un_protect_at-Held : (i == t) ≡ false → (p : Pc) → Ensures Held (un_protect_at p i s)
    un_protect_at-Held other Pc.idle = record {
      taken = rw other h.taken;
      older = rw other h.older;
      bound = h.bound;
      scans = h.scans;
      waits = h.waits;
    }
    un_protect_at-Held other (Pc.loaded e) = tt
    un_protect_at-Held other _ = tt

    fetched-Held : (back : Bool) → Held (fetched i s back)
    fetched-Held back = record {
      taken = h.taken;
      older = h.older;
      bound = h.bound;
      scans =
          All-update Passed s.pc i (Pc.scanning s.current 0 s.current back) h.scans
            (o.positive, λ l. absurd (omega (arith, l)));
      waits = h.waits;
    }

    fetch_at-Held : (p : Pc) → Ensures Held (fetch_at p i s)
    fetch_at-Held Pc.idle = fetched-Held false
    fetch_at-Held Pc.recycling = fetched-Held true
    fetch_at-Held (Pc.loaded e) = tt
    fetch_at-Held _ = tt

    older-Passed :
        (m oldest : ℕ)
        → 1 ≤ oldest
        → (t < m → oldest ≤ r)
        → (1 ≤ older (s.entry m) oldest) × (t < m + 1 → older (s.entry m) oldest ≤ r)
    older-Passed m oldest pos before = elim (ℕ_discrete m t) [
      | yes e ↦
          let held : (s.entry m ≢ 0) × (s.entry m ≤ r) = rw e (h.taken, h.older) in
          ground (arith, held.0, held.1)
      | no ne ↦ (ground arith, λ l. let b = before (omega (arith, ne, l)) in ground (arith, b))
    ]

    scan_at-Held : (n : ℕ) (p : Pc) → Passed p → Ensures Held (scan_at n p i s)
    scan_at-Held n (Pc.scanning old m oldest back) ok = elim (Bool-cases (ltb m n)) [
      | inr e ↦ rw e tt
      | inl e ↦ rw e (
          at_pc-Held (Pc.scanning old (m + 1) (older (s.entry m) oldest) back)
            (older-Passed m oldest ok.0 ok.1))
    ]
    scan_at-Held n Pc.idle ok = tt
    scan_at-Held n _ ok = tt

    publish_at-Held :
        (n : ℕ) → t < n → r < 2 ^ 64 → (p : Pc) → Passed p → Ensures Held (publish_at n p i s)
    publish_at-Held n inside small (Pc.scanning old m oldest back) ok =
        elim (Bool-cases (ltb m n)) [
          | inl e ↦ rw e tt
          | inr e ↦ rw e (record {
            taken = h.taken;
            older = h.older;
            bound = let found = ok.1 (ground arith) in omega (arith, found, ok.0);
            scans =
                All-update Passed s.pc i (if back then Pc.collecting else Pc.idle) h.scans
                  (ground arith);
            waits = h.waits;
          })
        ]
    publish_at-Held n inside small Pc.idle ok = tt
    publish_at-Held n inside small _ ok = tt

    queue-Waits :
        (q : List (ℕ × ℕ)) → ((i ≡ w) → Waits r ptr q) → Waits r ptr (update s.queue i q w)
    queue-Waits q own = elim (Bool-cases (i == w)) [
      | inr e ↦ rw e h.waits
      | inl e ↦ rw e (own (ground arith))
    ]

    retire_at-Held : (p : Pc) (x : ℕ) → Ensures Held (retire_at p i x s)
    retire_at-Held Pc.idle x = record {
      taken = h.taken;
      older = h.older;
      bound = h.bound;
      scans =
          All-update Passed s.pc i
            (if (s.recycled_count i + 1) % 1000 == 0 then Pc.recycling else Pc.collecting) h.scans
            (ground arith);
      waits = queue-Waits (if x == 0 then s.queue i else s.queue i ++ (s.current, x) ∷ []) kept;
    }
      where
        kept :
            (i ≡ w) → Waits r ptr (if x == 0 then s.queue i else s.queue i ++ (s.current, x) ∷ [])
        kept e =
            let here : Waits r ptr (s.queue i) = rw e h.waits in
            elim (Bool-cases (x == 0)) [
              | inl z ↦ rw z here
              | inr z ↦ rw z (Waits-append r ptr (s.queue i) ((s.current, x) ∷ []) (inl here))
            ]
    retire_at-Held (Pc.loaded e) x = tt
    retire_at-Held _ x = tt

    collect_front-Held : (q : List (ℕ × ℕ)) → (i ≡ w → Waits r ptr q) → Held (collect_front q i s)
    collect_front-Held [] own = at_pc-Held Pc.idle tt
    collect_front-Held ((e, p) ∷ q) own = elim (Bool-cases (leb e s.safe)) [
      | inr z ↦ rw z (at_pc-Held Pc.idle tt)
      | inl z ↦ rw z (record {
        taken = h.taken;
        older = h.older;
        bound = h.bound;
        scans = h.scans;
        waits = queue-Waits q (λ same. later (own same) (ground arith));
      })
    ]
      where
        later : ((e ≡ r) × (p ≡ ptr)) ⊎ Waits r ptr q → e ≤ s.safe → Waits r ptr q
        later (inr x) l = x
        later (inl x) l = absurd (omega (arith, x.0, h.bound))

    collect_at-Held : (p : Pc) → Ensures Held (collect_at p i s)
    collect_at-Held Pc.collecting = collect_front-Held (s.queue i) (λ e. rw e h.waits)
    collect_at-Held Pc.idle = tt
    collect_at-Held _ = tt

  pub step-Held :
      {k : ℕ} {s : System} (n : ℕ) (a : Act)
      → Ordered k s
      → Held s
      → t < n
      → r < 2 ^ 64
      → touches t a ≡ false
      → Ensures Held (step n a s)
  unfolding step
  step-Held {s} n (Act.load i) o h inside small other = load_at-Held o h i (s.pc i)
  step-Held {s} n (Act.store i) o h inside small other = store_at-Held o h i other (s.pc i)
  step-Held {s} n (Act.un_protect i) o h inside small other =
      un_protect_at-Held o h i other (s.pc i)
  step-Held {s} n (Act.fetch i) o h inside small other = fetch_at-Held o h i (s.pc i)
  step-Held {s} n (Act.scan i) o h inside small other = scan_at-Held o h i n (s.pc i) (h.scans i)
  step-Held {s} n (Act.publish i) o h inside small other =
      publish_at-Held o h i n inside small (s.pc i) (h.scans i)
  step-Held {s} n (Act.retire i x) o h inside small other = retire_at-Held o h i (s.pc i) x
  step-Held {s} n (Act.collect i) o h inside small other = collect_at-Held o h i (s.pc i)
