-- ===== src/Engine/Moving.antt =====
-- A value is written to a new block, and its key moves there (src/storage/kv_engine/engine_extendible_hash.h).
use rec_store.Prelude.{ℕ, ◌≤◌, ◌<◌, ◌≡◌, ◌≢◌, sym, ◌∙◌, arith, List, [], length, update, ℕ_discrete}
use rec_store.ExtendibleHash.Ops
use rec_store.ExtendibleHash.Ops.{insert}
use rec_store.ExtendibleHash.Slots.{invalid}
use rec_store.ExtendibleHash.Put.{Puts}
use rec_store.Hybrid.Blocks.{write_at, read_at-write_other}
use rec_store.Hybrid.Allocator.{Allocator, Separate, Spaced, Spaced-update}
use rec_store.Engine.{Engine, found, free_old}
use rec_store.Engine.PetKv.{pet_config}
use rec_store.Engine.Numbers.{Addressing}
use rec_store.Engine.Serving.{word, word-Numbered, Holds, Serves}

module _ {S : Type 0} (h : ℕ → ℕ) (api : Allocator S) (g : Addressing) (value_size : ℕ)
    (Owns : S → (ℕ → ℕ) → Type 0) where
  -- Giving out a block and writing to it leaves what the keys have.
  pub Serves-fresh :
      {e : Engine S} {live : ℕ → ℕ} {m : ℕ → List ℕ}
      → Serves h api g value_size Owns e live m
      → (p n : ℕ) (s' : S) (bs : List ℕ) → Separate live p n
      → 0 < n
      → length bs ≤ n
      → Owns s' (update live p n)
      → Serves h api g value_size Owns
          (record e { shm_malloc = s'; memory = write_at e.memory p bs })
          (update live p n)
          m
  Serves-fresh {e} {live} {m} s p n s' bs apart some_bytes fits owns = record {
    valid = s.valid;
    owns = owns;
    absent = s.absent;
    placed = λ k valid here.
        let (q, at, (size, lives, number, held)) = s.placed k valid here in
        let away = apart q lives in
        let other : update live p n q ≡ live q = ground (arith, away, lives) in
        (
          q,
          at,
          (
            omega (arith, other, size),
            omega (arith, other, lives),
            number,
            read_at-write_other e.memory p q value_size bs (ground (arith, away, size, fits))
                ∙ held,
          ),
        );
    unique = s.unique;
    spaced = Spaced-update p n s.spaced apart;
  }

  -- Freeing the block of a key that is to be put elsewhere: `left` are the live blocks after it.
  pub record Freed (e : Engine S) (live : ℕ → ℕ) (key p : ℕ) (left : ℕ → ℕ) : Type 0 where
    pub owns :
        Owns
          (free_old h api g pet_config e.shm_malloc
            (found h api g pet_config (Ops.get h e.hash_table key)))
          left
    pub other :
        (k q : ℕ)
        → k ≢ invalid
        → key ≢ k
        → Ops.get h e.hash_table k ≢ 0
        → Ops.get h e.hash_table k ≡ word h g api q
        → left q ≡ live q
    pub same : left p ≡ live p
    pub spaced : Spaced left

  module _ {e : Engine S} {live left : ℕ → ℕ} {m : ℕ → List ℕ}
      (s : Serves h api g value_size Owns e live m) (key p : ℕ) (v : List ℕ)
      {t : Ops.ExtendibleHash} (here : Holds h api g value_size Owns e.memory live p v)
      (free : (k : ℕ) → k ≢ invalid → Ops.get h e.hash_table k ≢ word h g api p)
      (freed : Freed e live key p left) (puts : Puts h e.hash_table key (word h g api p) t) where
    at_key : (k : ℕ) → k ≢ invalid → key ≡ k → Ops.get h t k ≡ word h g api p
    at_key k valid same = puts.reads k valid ∙ ground arith

    at_other : (k : ℕ) → k ≢ invalid → key ≢ k → Ops.get h t k ≡ Ops.get h e.hash_table k
    at_other k valid ne = puts.reads k valid ∙ ground arith

    moved_absent : (k : ℕ) → k ≢ invalid → Ops.get h t k ≡ 0 → update m key v k ≡ []
    moved_absent k valid z =
        let (size, lives, number, held) = here in
        elim (ℕ_discrete key k) [
          | yes same ↦ absurd ((word-Numbered h g api p number).0 (sym (at_key k valid same) ∙ z))
          | no ne ↦ ground (arith, s.absent k valid (sym (at_other k valid ne) ∙ z))
        ]

    moved-Holds :
        (k : ℕ)
        → k ≢ invalid
        → Ops.get h t k ≢ 0
        → (q : ℕ) × (Ops.get h t k ≡ word h g api q)
          × Holds h api g value_size Owns e.memory left q (update m key v k)
    moved-Holds k valid there =
        let (size, lives, number, held) = here in
        elim (ℕ_discrete key k) [
          | yes same ↦ (
            p,
            at_key k valid same,
            (
              omega (arith, freed.same, size),
              omega (arith, freed.same, lives),
              number,
              held ∙ ground arith,
            ),
          )
          | no ne ↦
              let old = at_other k valid ne in
              let (q, at, (size', lives', number', held')) =
                s.placed k valid (λ z. there (old ∙ z)) in
              let live_q = freed.other k q valid ne (λ z. there (old ∙ z)) at in
              (
                q,
                old ∙ at,
                (
                  omega (arith, live_q, size'),
                  omega (arith, live_q, lives'),
                  number',
                  held' ∙ ground arith,
                ),
              )
        ]

    moved_unique :
        (k j : ℕ)
        → k ≢ invalid
        → j ≢ invalid
        → Ops.get h t k ≢ 0
        → Ops.get h t k ≡ Ops.get h t j
        → k ≡ j
    moved_unique k j vk vj there e' = elim (ℕ_discrete key k) [
      | yes sk ↦ elim (ℕ_discrete key j) [
        | yes sj ↦ sym sk ∙ sj
        | no nj ↦ absurd (free j vj (sym (at_other j vj nj) ∙ sym e' ∙ at_key k vk sk))
      ]
      | no nk ↦ elim (ℕ_discrete key j) [
        | yes sj ↦ absurd (free k vk (sym (at_other k vk nk) ∙ e' ∙ at_key j vj sj))
        | no nj ↦
            s.unique k j vk vj (λ z. there (at_other k vk nk ∙ z))
              (sym (at_other k vk nk) ∙ e' ∙ at_other j vj nj)
      ]
    ]

    -- The state with the key put at a live block p, where no key stands, and its old block freed.
    pub Serves-moved :
        Serves h api g value_size Owns
          (record {
            shm_malloc =
                free_old h api g pet_config e.shm_malloc
                  (found h api g pet_config (Ops.get h e.hash_table key));
            memory = e.memory;
            hash_table = t;
          })
          left
          (update m key v)
    Serves-moved = record {
      valid = puts.valid;
      owns = freed.owns;
      absent = moved_absent;
      placed = moved-Holds;
      unique = moved_unique;
      spaced = freed.spaced;
    }
