-- ===== src/Epoch/Safety.antt =====
-- An object that is removed while a thread is protected outlives the protection.
use rec_store.Prelude.{
  ℕ, suc, ◌+◌, ◌%◌, ◌^◌, ◌<◌, ◌≡◌, ◌≢◌, inl, inr, refl, arith, true, false, Option, none, some,
  List, [], ◌∷◌, ◌++◌, ◌==◌, if◌then◌else◌, length, ==_self, subst,
}
use mathlib.Core.Option.{some-injective}
use rec_store.Epoch.{
  Pc, System, start, Act, retire_at, is_safe_to_reclaim, step, then_run, run, Leaves,
}
use rec_store.Epoch.Steps.{Ensures, PcOk, Ordered, All-update, step-Ordered, start-Ordered}
use rec_store.Epoch.Holding.{Waits, Waits-append, Passed, Held, step-Held}

run-nil : (n : ℕ) (s s' : System) → run n [] s ≡ some s' → s ≡ s'
unfolding run
run-nil n s s' e = some-injective _ _ e

-- A sequence that can be made goes through a first step to a state where the rest can be made.
run-cons :
    (n : ℕ) (a : Act) (acts : List Act) (s s' : System)
    → run n (a ∷ acts) s ≡ some s'
    → (u : System) × (step n a s ≡ some u) × (run n acts u ≡ some s')
unfolding run
run-cons n a acts s s' e = split (step n a s) refl e
  where
    split :
        (o : Option System)
        → step n a s ≡ o
        → then_run (run n acts) o ≡ some s'
        → (u : System) × (step n a s ≡ some u) × (run n acts u ≡ some s')
    split none q h = absurd (cc)
    split (some u) q h = (u, q, h)

run-Ordered :
    (n : ℕ) (acts : List Act) {k : ℕ} {s s' : System}
    → Ordered k s
    → k + length acts + 1 < 2 ^ 64
    → run n acts s ≡ some s'
    → Ordered (k + length acts) s'
run-Ordered n [] {k} {s} {s'} o small e =
    let sum : k ≡ k + 0 = omega arith in
    subst (λ j. Ordered j s') sum (subst (λ u. Ordered k u) (run-nil n s s' e) o)
run-Ordered n (a ∷ acts) {k} {s} {s'} o small e =
    let (u, first, rest) = run-cons n a acts s s' e in
    let next : Ordered (suc k) u = rw first at (step-Ordered n a o (omega arith)) in
    let done = run-Ordered n acts next (omega arith) rest in
    let sum : suc k + length acts ≡ k + suc (length acts) = omega arith in
    subst (λ j. Ordered j s') sum done

run-Held :
    (n t r w ptr : ℕ) (acts : List Act) {k : ℕ} {s s' : System}
    → Ordered k s
    → Held t r w ptr s
    → t < n
    → r < 2 ^ 64
    → Leaves t acts
    → k + length acts + 1 < 2 ^ 64
    → run n acts s ≡ some s'
    → Held t r w ptr s'
run-Held n t r w ptr [] {s} {s'} o h inside least leaves small e =
    subst (λ u. Held t r w ptr u) (run-nil n s s' e) h
run-Held n t r w ptr (a ∷ acts) {k} {s} {s'} o h inside least leaves small e =
    let (u, first, rest) = run-cons n a acts s s' e in
    let next : Ordered (suc k) u = rw first at (step-Ordered n a o (omega arith)) in
    let held : Held t r w ptr u = rw first at (step-Held t r w ptr n a o h inside least leaves.0) in
    run-Held n t r w ptr acts next held inside least leaves.1 (omega arith) rest

Waits-last : (r ptr : ℕ) (q : List (ℕ × ℕ)) → Waits r ptr (q ++ (r, ptr) ∷ [])
Waits-last r ptr q = Waits-append r ptr q ((r, ptr) ∷ []) (inr (inl (refl, refl)))

-- What `Recycle` of an object leaves, while slot t holds an epoch.
retire-Held :
    (n t w ptr : ℕ) {k : ℕ} {s : System}
    → Ordered k s
    → s.entry t ≢ 0
    → ptr ≢ 0
    → Ensures (Held t s.current w ptr) (step n (Act.retire w ptr) s)
unfolding step
retire-Held n t w ptr {s} o taken real = at_pc w (s.pc w)
  where
    passed_at : (i : ℕ) (p : Pc) → PcOk s.current p → Passed t s.current w ptr p
    passed_at i Pc.idle h = tt
    passed_at i (Pc.scanning old k oldest back) h = (h.0, λ l. omega (arith, h.1, h.2))
    passed_at i (Pc.loaded e) h = tt
    passed_at i _ h = tt

    passed : (i : ℕ) → Passed t s.current w ptr (s.pc i)
    passed i = passed_at i (s.pc i) (o.pcs i)

    at_pc : (i : ℕ) (p : Pc) → Ensures (Held t s.current i ptr) (retire_at p i ptr s)
    at_pc i Pc.idle = record {
      taken = taken;
      older = o.entries t;
      bound = o.below;
      scans =
          All-update (Passed t s.current i ptr) s.pc i
            (if (s.recycled_count i + 1) % 1000 == 0 then Pc.recycling else Pc.collecting) passed
            (ground arith);
      waits =
          let here : (i == i) ≡ true = ==_self i in
          let z : (ptr == 0) ≡ false = ground (arith, real) in
          rw (here, z) (Waits-last s.current ptr (s.queue i));
    }
    at_pc i (Pc.loaded e) = tt
    at_pc i _ = tt

-- Take any interleaving of fewer than 2 ^ 64 - 2 steps after the start in which, at some point, a
-- thread t of the table has an epoch in its slot and a thread w recycles a pointer that is not
-- null. As long as no step writes the slot of t, the object stays in the queue of w with the epoch
-- of its removal, which IsSafeToReclaim refuses.
pub recycled-Waits :
    (n t w ptr : ℕ) (before after : List Act) (s s' : System)
    → t < n
    → ptr ≢ 0
    → run n before start ≡ some s
    → s.entry t ≢ 0
    → run n (Act.retire w ptr ∷ after) s ≡ some s'
    → Leaves t after
    → length before + length after + 2 < 2 ^ 64
    → Waits s.current ptr (s'.queue w) × (is_safe_to_reclaim s' s.current ≡ false)
recycled-Waits n t w ptr before after s s' inside real first taken next leaves few =
    let o = run-Ordered n before start-Ordered (omega arith) first in
    let (u, recycled, rest) = run-cons n (Act.retire w ptr) after s s' next in
    let o' : Ordered (suc (0 + length before)) u =
      rw recycled at (step-Ordered n (Act.retire w ptr) o (omega arith)) in
    let held : Held t s.current w ptr u = rw recycled at (retire-Held n t w ptr o taken real) in
    let kept =
      run-Held n t s.current w ptr after o' held inside (omega (arith, o.counted)) leaves
        (omega arith) rest in
    (kept.waits, ground (arith, kept.bound))
