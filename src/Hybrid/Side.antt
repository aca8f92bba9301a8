-- ===== src/Hybrid/Side.antt =====
-- One of the two memories of the value store, with the live blocks and which key's value stands
-- where (src/storage/hybrid/value.h).
use rec_store.Prelude.{
  ℕ, ◌+◌, ◌^◌, ◌≤◌, ◌<◌, ◌≡◌, ◌≢◌, inl, inr, ap, sym, subst, ◌∙◌, arith, Option, none, some, List,
  length, update, ◌==◌, Bool-cases, ℕ_discrete, false,
}
use mathlib.Core.Option.{some-injective}
use rec_store.Hybrid.Blocks.{write_at, BlockAt, BlockAt-write_data, BlockAt-write_other}
use rec_store.Hybrid.Allocator.{Separate, Spaced, Spaced-update}

-- Two families agree but at one key.
abbrev pub Elsewhere : {A : Type 0} → ℕ → (ℕ → A) → (ℕ → A) → Type 0
Elsewhere key f f' = (k : ℕ) → k ≢ key → f' k ≡ f k

-- Key k stands in the block at `at k`, if any, with the value m k.
pub record Side (heap live : ℕ → ℕ) (at : ℕ → Option ℕ) (m : ℕ → List ℕ) : Type 0 where
  pub placed :
      (k a : ℕ)
      → at k ≡ some a
      → (0 < a) × (a < 2 ^ 62) × (2 + length (m k) ≤ live a) × BlockAt heap a (m k)
  pub unique : (k j a : ℕ) → at k ≡ some a → at j ≡ some a → k ≡ j
  pub spaced : Spaced live

module _ {heap live : ℕ → ℕ} {at : ℕ → Option ℕ} {m : ℕ → List ℕ} (s : Side heap live at m) where
  -- A fresh block is given out and something is written to it; no key stands there yet.
  pub Side-fresh :
      (p n : ℕ) (bs : List ℕ)
      → Separate live p n
      → 0 < n
      → length bs ≤ n
      → Side (write_at heap p bs) (update live p n) at m
  Side-fresh p n bs apart some_bytes fits = record {
    placed = λ k a e.
        let (pos, low, room, block) = s.placed k a e in
        let away = apart a (omega (arith, room)) in
        let other : (p == a) ≡ false = ground (arith, away, room) in
        (
          pos,
          low,
          rw other room,
          BlockAt-write_other heap p a (live a) bs (m k) block room (ground (arith, away)),
        );
    unique = s.unique;
    spaced = Spaced-update p n s.spaced apart;
  }

  -- No key stands in a block that was not live.
  pub unplaced : (p n : ℕ) → Separate live p n → 0 < n → (k : ℕ) → at k ≢ some p
  unplaced p n apart some_bytes k e =
      let (pos, low, room, block) = s.placed k p e in
      let away = apart p (omega (arith, room)) in ground (arith, away, room)

  -- A key comes to stand in a live block where no key stands.
  pub Side-put :
      (key p : ℕ) (v : List ℕ) {at' : ℕ → Option ℕ} {m' : ℕ → List ℕ}
      → 0 < p
      → p < 2 ^ 62
      → 2 + length v ≤ live p
      → BlockAt heap p v
      → ((k : ℕ) → at k ≢ some p)
      → Elsewhere key at at'
      → Elsewhere key m m'
      → at' key ≡ some p
      → m' key ≡ v
      → Side heap live at' m'
  Side-put key p v {at'} {m'} pos low room block free same_at same_m here value = record {
    placed = λ k a e. elim (ℕ_discrete k key) [
      | yes z ↦
          let eq : p ≡ a = some-injective _ _ (sym here ∙ ap at' (sym z) ∙ e) in
          let vk : v ≡ m' k = sym value ∙ ap m' (sym z) in
          subst (λ q. (0 < q) × (q < 2 ^ 62) × (2 + length (m' k) ≤ live q) × BlockAt heap q (m' k))
            eq
            (subst (λ w. (0 < p) × (p < 2 ^ 62) × (2 + length w ≤ live p) × BlockAt heap p w) vk
              (pos, low, room, block))
      | no ne ↦
          subst (λ w. (0 < a) × (a < 2 ^ 62) × (2 + length w ≤ live a) × BlockAt heap a w)
            (sym (same_m k ne)) (s.placed k a (sym (same_at k ne) ∙ e))
    ];
    unique = λ k j a ek ej. elim (ℕ_discrete k key) [
      | yes zk ↦ elim (ℕ_discrete j key) [
        | yes zj ↦ zk ∙ sym zj
        | no nj ↦
            let eq : p ≡ a = some-injective _ _ (sym here ∙ ap at' (sym zk) ∙ ek) in
            absurd (free j (sym (same_at j nj) ∙ ej ∙ ap some (sym eq)))
      ]
      | no nk ↦ elim (ℕ_discrete j key) [
        | yes zj ↦
            let eq : p ≡ a = some-injective _ _ (sym here ∙ ap at' (sym zj) ∙ ej) in
            absurd (free k (sym (same_at k nk) ∙ ek ∙ ap some (sym eq)))
        | no nj ↦ s.unique k j a (sym (same_at k nk) ∙ ek) (sym (same_at j nj) ∙ ej)
      ]
    ];
    spaced = s.spaced;
  }

  -- A key leaves this memory, or was not in it.
  pub Side-leave :
      (key : ℕ) {at' : ℕ → Option ℕ} {m' : ℕ → List ℕ}
      → Elsewhere key at at'
      → Elsewhere key m m'
      → at' key ≡ none
      → Side heap live at' m'
  Side-leave key {at'} {m'} same_at same_m gone = record {
    placed = λ k a e. elim (ℕ_discrete k key) [
      | yes z ↦ absurd (let bad = sym gone ∙ ap at' (sym z) ∙ e in cc bad)
      | no ne ↦
          subst (λ w. (0 < a) × (a < 2 ^ 62) × (2 + length w ≤ live a) × BlockAt heap a w)
            (sym (same_m k ne)) (s.placed k a (sym (same_at k ne) ∙ e))
    ];
    unique = λ k j a ek ej. elim (ℕ_discrete k key) [
      | yes z ↦ absurd (let bad = sym gone ∙ ap at' (sym z) ∙ ek in cc bad)
      | no nk ↦ elim (ℕ_discrete j key) [
        | yes z ↦ absurd (let bad = sym gone ∙ ap at' (sym z) ∙ ej in cc bad)
        | no nj ↦ s.unique k j a (sym (same_at k nk) ∙ ek) (sym (same_at j nj) ∙ ej)
      ]
    ];
    spaced = s.spaced;
  }

  -- A block where no key stands is freed.
  pub Side-free : (p : ℕ) → ((k : ℕ) → at k ≢ some p) → Side heap (update live p 0) at m
  Side-free p free = record {
    placed = λ k a e.
        let (pos, low, room, block) = s.placed k a e in
        let other : (p == a) ≡ false = elim (Bool-cases (p == a)) [
          | inr z ↦ z
          | inl z ↦ absurd (free k (e ∙ ap some (ground arith)))
        ] in
        (pos, low, rw other room, block);
    unique = s.unique;
    spaced = λ a b la lb ne. ground (arith, s.spaced a b);
  }

  -- The data of a key's block is overwritten by as many bytes.
  pub Side-overwrite :
      (key p : ℕ) (v : List ℕ) {m' : ℕ → List ℕ}
      → at key ≡ some p
      → length v ≡ length (m key)
      → Elsewhere key m m'
      → m' key ≡ v
      → Side (write_at heap (p + 2) v) live at m'
  Side-overwrite key p v {m'} here size same value = record {
    placed = λ k a e. elim (ℕ_discrete k key) [
      | yes z ↦
          let eq : p ≡ a = some-injective _ _ (sym here ∙ ap at (sym z) ∙ e) in
          let vk : v ≡ m' k = sym value ∙ ap m' (sym z) in
          let (pos, low, room, block) = s.placed key p here in
          subst
            (λ q.
              (0 < q)
              × (q < 2 ^ 62)
              × (2 + length (m' k) ≤ live q)
              × BlockAt (write_at heap (p + 2) v) q (m' k))
            eq
            (subst
              (λ w.
                (0 < p)
                × (p < 2 ^ 62)
                × (2 + length w ≤ live p)
                × BlockAt (write_at heap (p + 2) v) p w)
              vk
              (pos, low, omega (arith, room, size), BlockAt-write_data heap p (m key) v block size))
      | no ne ↦
          let (pos, low, room, block) = s.placed k a e in
          let (pos', low', room', block') = s.placed key p here in
          let apart : a ≢ p = λ z. ne (s.unique k key p (e ∙ ap some z) here) in
          let away = s.spaced a p (omega (arith, room)) (omega (arith, room')) apart in
          subst
            (λ w.
              (0 < a)
              × (a < 2 ^ 62)
              × (2 + length w ≤ live a)
              × BlockAt (write_at heap (p + 2) v) a w)
            (sym (same k ne))
            (
              pos,
              low,
              room,
              BlockAt-write_other heap (p + 2) a (live a) v (m k) block room
                  (ground (arith, away, room', size)),
            )
    ];
    unique = s.unique;
    spaced = s.spaced;
  }
