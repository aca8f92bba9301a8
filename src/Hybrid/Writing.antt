-- ===== src/Hybrid/Writing.antt =====
-- WriteValue against a map from keys to values (src/storage/hybrid/value.h).
use rec_store.Prelude.{
  ℕ, ◌+◌, ◌<◌, ◌≡◌, ◌≢◌, ◌⊎◌, inl, inr, refl, ap, sym, subst, ◌∙◌, arith, Bool, true, false, Option,
  none, some, List, length, update, if◌then◌else◌, Bool-cases,
}
use rec_store.Pointer.{UnifiedPointer, from_invalid, is_valid}
use rec_store.Hybrid.Inline.{AllBytes, kept, length-kept}
use rec_store.Hybrid.Allocator.{Allocator, Lawful}
use rec_store.Hybrid.Store.{Store, Io, done, ◌>>=◌, write_mem, write_disk}
use rec_store.Hybrid.Manager.{
  Outcome, stored, stopped, no_room, published, on_disk, second_try, place_value, unless_done,
  write_value,
}
use rec_store.Hybrid.Invariant.{Where, pointer_to, Long, Keeps, Has, kept-Long}
use rec_store.Hybrid.Landing.{Landed, Wrote, write_mem-Wrote, Landed-valid, null_invalid}
use rec_store.Hybrid.DiskLanding.{write_disk-Wrote, write_disk-ample}
use rec_store.Hybrid.Publishing.{publish-Leads}
use rec_store.Hybrid.Rewriting.{write_in_place-InPlace}

module _ {S D : Type 0} (shm : Allocator S) (ssd : Allocator D) (hash : ℕ → ℕ)
    (OwnsS : S → (ℕ → ℕ) → Type 0) (OwnsD : D → (ℕ → ℕ) → Type 0) (shm_law : Lawful shm OwnsS)
    (ssd_law : Lawful ssd OwnsD) where
  -- New of the disk gives a block of the size whenever it is asked for one.
  abbrev pub Ample : ℕ → Type 0
  Ample size = (a a' : D) (live : ℕ → ℕ) → OwnsD a live → ssd.new a size ≢ some (none, a')

  -- What WriteValue has done when it returns, given the values before.
  abbrev pub Ends : (ℕ → List ℕ) → ℕ → List ℕ → Io → Bool → Outcome → Store S D → Type 0
  Ends m key v io stop stored t = Has OwnsS OwnsD t (update m key (kept v))
  Ends m key v io stop stopped t = Has OwnsS OwnsD t m × (stop ≡ true)
  Ends m key v io stop no_room t =
      Has OwnsS OwnsD t m × Long v × ¬ ((length v < 65536) × (io ≡ done) × Ample (2 + length v))

  abbrev pub Written : Option (Outcome × Store S D) → (ℕ → List ℕ) → ℕ → List ℕ → Io → Bool → Type 0
  Written r m key v io stop =
      (o : Outcome) × (t : Store S D) × (r ≡ some (o, t)) × Ends m key v io stop o t

  module _ (m : ℕ → List ℕ) (key : ℕ) (v : List ℕ) (io : Io) (stop : Bool) where
    -- A value that has landed is published.
    published-Written :
        {s : Store S D} {place : ℕ → Where} {ml dl : ℕ → ℕ}
        → Keeps OwnsS OwnsD s place ml dl m
        → (w : Where) → Landed shm ssd OwnsS OwnsD shm_law ssd_law s place ml dl w (kept v)
        → Written (published shm ssd hash key (pointer_to w, s)) m key v io stop
    published-Written k w landed =
        let (t, ends, has) =
          publish-Leads shm ssd OwnsS OwnsD shm_law ssd_law k key w (kept v) landed in
        (stored, t, ap (λ o. o >>= λ u. some (stored, u)) ends, has)

    -- What follows a write: it is published if its pointer is not null.
    settle :
        (r : Option (UnifiedPointer × Store S D)) (index : ℕ → ℕ) (place : ℕ → Where)
        (next : Store S D → Option (Outcome × Store S D))
        → Wrote shm ssd OwnsS OwnsD shm_law ssd_law r index place m (kept v)
        → ((u : Store S D) (ml dl : ℕ → ℕ)
            → r ≡ some (from_invalid, u)
            → Keeps OwnsS OwnsD u place ml dl m
            → Long (kept v)
            → Written (next u) m key v io stop)
        → Written
            (r >>= λ q. if is_valid q.0 then published shm ssd hash key q else next q.1)
            m
            key
            v
            io
            stop
    settle r index place next (p, s, ml, dl, e, kept_index, k, inl (null, long)) rest =
        let e' : r ≡ some (from_invalid, s) = e ∙ ap (λ q. some (q, s)) null in
        subst
          (λ o.
            Written (o >>= λ q. if is_valid q.0 then published shm ssd hash key q else next q.1) m
              key v io stop)
          (sym e') (rw null_invalid (rest s ml dl e' k long))
    settle r index place next (p, s, ml, dl, e, kept_index, k, inr (w, here, landed)) rest =
        let e' : r ≡ some (pointer_to w, s) = e ∙ ap (λ q. some (q, s)) here in
        let valid =
          Landed-valid shm ssd OwnsS OwnsD shm_law ssd_law s place ml dl w (kept v) landed in
        subst
          (λ o.
            Written (o >>= λ q. if is_valid q.0 then published shm ssd hash key q else next q.1) m
              key v io stop)
          (sym e') (rw valid (published-Written k w landed))

    on_disk-Written :
        {s : Store S D} {place : ℕ → Where} {ml dl : ℕ → ℕ}
        → Keeps OwnsS OwnsD s place ml dl m
        → Long (kept v)
        → Written (on_disk shm ssd hash s key v io) m key v io stop
    on_disk-Written {s} {place} k long =
        let v_long : Long v = ground (arith, long, length-kept v) in
        let same = kept-Long v v_long in
        let wrote : Wrote shm ssd OwnsS OwnsD shm_law ssd_law (write_disk shm ssd s v io) s.index
            place m (kept v) =
          rw same (write_disk-Wrote shm ssd OwnsS OwnsD shm_law ssd_law k v io v_long) in
        settle (write_disk shm ssd s v io) s.index place (λ u. some (no_room, u)) wrote
          (λ u ml' dl' e k' l. (
            no_room,
            u,
            refl,
            (
              (place, ml', dl', k'),
              v_long,
              λ h.
                  write_disk-ample shm ssd OwnsS OwnsD shm_law ssd_law k v from_invalid u h.0
                    (λ a. h.2 s.ssd_manage a _ k.owns_ssd)
                    (ap (write_disk shm ssd s v) (sym h.1) ∙ e) refl,
            ),
          ))

    second_try-Written :
        {s : Store S D} {place : ℕ → Where} {ml dl : ℕ → ℕ}
        → AllBytes v
        → Keeps OwnsS OwnsD s place ml dl m
        → Written (second_try shm ssd hash s key v io) m key v io stop
    second_try-Written {s} {place} bytes k =
        settle (write_mem shm ssd s key v) s.index place (λ u. on_disk shm ssd hash u key v io)
          (write_mem-Wrote shm ssd OwnsS OwnsD shm_law ssd_law k key v bytes)
          (λ u ml' dl' e k' long. on_disk-Written k' long)

  -- WriteValue of a value of bytes, on a store that keeps the values m, where the evicting thread
  -- keeps the values while the call waits, succeeds and keeps the values of all other keys. If it
  -- ends as stored, the key's value is the new one, as `kept` has it, and else the old one. It ends
  -- as stopped only if the store is stopped, and as out of room only for a value of 0 or more than 7
  -- bytes and, if the value has at most 65535 bytes and no system call fails, only if New of the
  -- disk may give no block.
  pub write_value-Written :
      {s : Store S D} {place : ℕ → Where} {ml dl : ℕ → ℕ} {m : ℕ → List ℕ}
      (k : Keeps OwnsS OwnsD s place ml dl m) (key : ℕ) (v : List ℕ) (io : Io)
      (wait : Store S D → Store S D) (stop : Bool)
      → AllBytes v
      → ((u : Store S D) → Has OwnsS OwnsD u m → Has OwnsS OwnsD (wait u) m)
      → Written (write_value shm ssd hash s key v io wait stop) m key v io stop
  unfolding write_value place_value
  write_value-Written {s} {place} {ml} {dl} {m} k key v io wait stop bytes keeps =
      elim (write_in_place-InPlace shm ssd hash OwnsS OwnsD shm_law ssd_law k key v) [
        | inr (t, e, has, long) ↦ (
          stored,
          t,
          ap
              (λ o. o >>= λ r.
                unless_done shm ssd hash r (place_value shm ssd hash s key v io wait stop))
              e,
          rw (kept-Long v long) has,
        )
        | inl e ↦
            let waits : (u : Store S D)
                → Has OwnsS OwnsD u m
                → Written
                    (if stop
                      then some (stopped, wait u)
                      else second_try shm ssd hash (wait u) key v io)
                    m key v io stop =
              λ u has. after_wait u (Bool-cases stop) (keeps u has) in
            let placed =
              settle m key v io stop (write_mem shm ssd s key v) s.index place
                (λ u.
                  if stop
                  then some (stopped, wait u)
                  else second_try shm ssd hash (wait u) key v io)
                (write_mem-Wrote shm ssd OwnsS OwnsD shm_law ssd_law k key v bytes)
                (λ u ml' dl' z k' long. waits u (place, ml', dl', k')) in
            subst
              (λ o.
                Written
                  (o >>= λ r.
                    unless_done shm ssd hash r (place_value shm ssd hash s key v io wait stop))
                  m key v io stop)
              (sym e) placed
      ]
    where
      after_wait :
          (u : Store S D)
          → (stop ≡ true) ⊎ (stop ≡ false)
          → Has OwnsS OwnsD (wait u) m
          → Written
              (if stop then some (stopped, wait u) else second_try shm ssd hash (wait u) key v io)
              m
              key
              v
              io
              stop
      after_wait u (inl e) has = rw e (stopped, wait u, refl, (has, refl))
      after_wait u (inr e) (place', ml', dl', k') =
          rw e (second_try-Written m key v io false bytes k')
