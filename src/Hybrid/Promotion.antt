-- ===== src/Hybrid/Promotion.antt =====
-- Moving values back to memory keeps them (src/storage/hybrid/value.h, EvictAndPromoteLoop).
use rec_store.Prelude.{
  ℕ, zero, suc, ◌≡◌, inl, inr, refl, ap, sym, ◌∙◌, Bool, true, false, ◌||◌, Option, some, List, [],
  ◌∷◌, update, ◌==◌, if◌then◌else◌, Bool-cases,
}
use rec_store.Hybrid.Allocator.{Allocator, Lawful}
use rec_store.Hybrid.Store.{Store, Io, ◌>>=◌}
use rec_store.Hybrid.Manager.{evict_round}
use rec_store.Hybrid.Invariant.{Where, Keeps, Has}
use rec_store.Hybrid.Promoting.{
  promote_headroom, cooler, promote_one, unless_over, promote_keys, decay, evict_and_promote,
  Advance, is_hot, any_hot, unless_dangling,
}
use rec_store.Hybrid.Evicting.{evict_round-Same}
use rec_store.Hybrid.Heating.{SameValues, promote_one-Same, hot-Has}

or_right : (a b : Bool) → b ≡ true → (a || b) ≡ true
or_right true b e = refl
or_right false b e = e

module _ {S D : Type 0} (shm : Allocator S) (ssd : Allocator D) (hash : ℕ → ℕ)
    (OwnsS : S → (ℕ → ℕ) → Type 0) (OwnsD : D → (ℕ → ℕ) → Type 0) (shm_law : Lawful shm OwnsS)
    (ssd_law : Lawful ssd OwnsD) where
  -- The walk ends on a store with the values m, and it ends at an erased node only if some key of
  -- it is hot.
  abbrev pub Walked : Option (Bool × Store S D) → Bool → (ℕ → List ℕ) → Type 0
  Walked r hot m =
      (b : Bool) × (t : Store S D) × (r ≡ some (b, t))
      × Has OwnsS OwnsD t m
      × (b ≡ true → hot ≡ true)

  walk_on :
      (n : ℕ) (s : Store S D) (key : ℕ) (keys : List ℕ) (m : ℕ → List ℕ)
      → SameValues shm ssd hash OwnsS OwnsD shm_law ssd_law
          (promote_one shm ssd hash s key)
          s.hot
          key
          m
      → ((u : Store S D)
          → Has OwnsS OwnsD u m
          → Walked (promote_keys shm ssd hash n u keys) (any_hot n u.hot keys) m)
      → Walked
          (promote_one shm ssd hash s key
            >>= unless_over shm ssd hash (λ t. promote_keys shm ssd hash n t keys))
          (any_hot (suc n) s.hot (key ∷ keys))
          m
  walk_on n s key keys m (Advance.breaks, u, one, has, told) more = (
    false,
    u,
    ap (λ o. o >>= unless_over shm ssd hash (λ t. promote_keys shm ssd hash n t keys)) one,
    has,
    λ z. cc z,
  )
  walk_on n s key keys m (Advance.dangling, u, one, has, told) more = (
    true,
    u,
    ap (λ o. o >>= unless_over shm ssd hash (λ t. promote_keys shm ssd hash n t keys)) one,
    has,
    λ z. rw told refl,
  )
  walk_on n s key keys m (Advance.goes_on, u, one, has, told) more =
      let (b, t, rest, ends, hot) = more u has in
      (
        b,
        t,
        ap (λ o. o >>= unless_over shm ssd hash (λ t. promote_keys shm ssd hash n t keys)) one
            ∙ rest,
        ends,
        λ z.
            or_right (is_hot (s.hot key)) (any_hot n s.hot keys)
              (ap (λ h. any_hot n h keys) (sym told) ∙ hot z),
      )

  promote_keys-Walked :
      (n : ℕ) (s : Store S D) (keys : List ℕ) (m : ℕ → List ℕ)
      → Has OwnsS OwnsD s m
      → Walked (promote_keys shm ssd hash n s keys) (any_hot n s.hot keys) m
  unfolding promote_keys
  promote_keys-Walked zero s keys m has = (false, s, refl, has, λ z. cc z)
  promote_keys-Walked (suc n) s [] m has = (false, s, refl, has, λ z. cc z)
  promote_keys-Walked (suc n) s (key ∷ keys) m (place, ml, dl, k) =
      walk_on n s key keys m (promote_one-Same shm ssd hash OwnsS OwnsD shm_law ssd_law k key)
        (λ u has. promote_keys-Walked n u keys m has)

  decay-Has :
      (n : ℕ) (s : Store S D) (keys : List ℕ) (m : ℕ → List ℕ)
      → Has OwnsS OwnsD s m
      → Has OwnsS OwnsD (decay shm ssd hash n s keys) m
  unfolding decay
  decay-Has zero s keys m has = has
  decay-Has (suc n) s [] m has = has
  decay-Has (suc n) s (key ∷ keys) m has =
      decay-Has n (record s { hot = update s.hot key (cooler (s.hot key)) }) keys m
        (hot-Has shm ssd hash OwnsS OwnsD shm_law ssd_law s m
          (update s.hot key (cooler (s.hot key))) has)

  -- what a round does with the end of the walk
  abbrev cooled : List ℕ → Bool × Store S D → Bool × Store S D
  cooled after r = unless_dangling shm ssd hash (λ u. decay shm ssd hash 256 u after) r

  cooled-Walked :
      (after : List ℕ) (r : Option (Bool × Store S D)) (hot : Bool) (m : ℕ → List ℕ)
      → Walked r hot m
      → Walked (r >>= λ q. some (cooled after q)) hot m
  cooled-Walked after r hot m (true, t, e, has, found) =
      (true, t, ap (λ o. o >>= λ q. some (cooled after q)) e, has, found)
  cooled-Walked after r hot m (false, t, e, has, found) = (
    false,
    decay shm ssd hash 256 t after,
    ap (λ o. o >>= λ q. some (cooled after q)) e,
    decay-Has 256 t after m has,
    found,
  )

  abbrev promotes : List ℕ → List ℕ → Store S D → Option (Bool × Store S D)
  promotes keys after t =
      if promote_headroom t.low_watermark t.shm_capacity t.shm_used_bytes == 0
      then some (false, t)
      else (promote_keys shm ssd hash 512 t keys >>= λ q. some (cooled after q))

  -- A round of EvictAndPromoteLoop, with no other thread in between, on a store that keeps the values
  -- m, whatever calls of the system fail and in whatever order the counts are walked: its eviction
  -- succeeds, and the store keeps the values m at the end of the round or at the point where the
  -- walk advances an iterator to an erased count, which happens only if the count of one of the first
  -- 512 keys of the walk is then at least kPromoteThreshold.
  pub evict_and_promote-Same :
      {s : Store S D} {place : ℕ → Where} {ml dl : ℕ → ℕ} {m : ℕ → List ℕ}
      (k : Keeps OwnsS OwnsD s place ml dl m) (io : ℕ → Io) (keys after : List ℕ)
      → (t : Store S D) × (evict_round shm ssd hash s io ≡ some t)
        × Walked (evict_and_promote shm ssd hash s io keys after) (any_hot 512 t.hot keys) m
  unfolding evict_and_promote
  evict_and_promote-Same {s} {place} {ml} {dl} {m} k io keys after =
      let (t, evicted, has) = evict_round-Same shm ssd hash OwnsS OwnsD shm_law ssd_law k io in
      let walk = promote_keys shm ssd hash 512 t keys in
      let (b, u, promoted, ends, found) =
        cooled-Walked after walk (any_hot 512 t.hot keys) m
          (promote_keys-Walked 512 t keys m has) in
      let head = promote_headroom t.low_watermark t.shm_capacity t.shm_used_bytes in
      elim (Bool-cases (head == 0)) [
        | inl e ↦ (
          t,
          evicted,
          (false, t, ap (λ o. o >>= promotes keys after) evicted ∙ rw e refl, has, λ z. cc z),
        )
        | inr e ↦ (
          t,
          evicted,
          (b, u, ap (λ o. o >>= promotes keys after) evicted ∙ rw e promoted, ends, found),
        )
      ]
