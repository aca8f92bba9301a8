-- ===== src/Engine/Serving.antt =====
-- What an engine between two calls satisfies, and what `Get` then answers
-- (src/storage/kv_engine/engine_extendible_hash.h).
use rec_store.Prelude.{
  ℕ, ◌*◌, ◌/◌, ◌%◌, ◌≤◌, ◌<◌, ◌≡◌, ◌≢◌, refl, ap, ap₂, suc, get_or, map, ◌∷◌, sym, ◌∙◌, arith,
  false, Option, none, some, List, [], ◌==◌, length, ℕ_discrete,
}
use rec_store.Prelude.Int.{pos, negsuc}
use mathlib.Core.Option.{some-injective}
use rec_store.ExtendibleHash.Ops
use rec_store.ExtendibleHash.Slots.{invalid}
use rec_store.ExtendibleHash.Invariant.{IsValid}
use rec_store.Hybrid.Blocks.{read_at}
use rec_store.Hybrid.Allocator.{Allocator, Spaced}
use rec_store.Engine.{Engine, found, copied, word_of, get, view, batch_get}
use rec_store.Engine.PetKv.{
  pet_config, shm_malloc_offset, set_shm_malloc_offset, shm_malloc_offset-set,
}
use rec_store.Engine.Numbers.{Addressing, Numbered}

-- The word 0 has the offset 0, where no block stands.
shm_malloc_offset-zero : shm_malloc_offset pet_config 0 ≡ pos 0
unfolding shm_malloc_offset
shm_malloc_offset-zero = refl

pos-zero : (o : ℕ) → 0 < o → pos o ≢ pos 0
pos-zero o l e = absurd (omega (arith, l, ap (λ z. elim z [ pos n ↦ n | negsuc n ↦ 0 ]) e))

module _ {S : Type 0} (h : ℕ → ℕ) (g : Addressing) (api : Allocator S) where
  abbrev pub word : ℕ → ℕ
  word p = word_of h api g pet_config p

  -- The word of a numbered block finds the block, and is not the word for no value.
  pub word-Numbered :
      (p : ℕ) → Numbered g p → (word p ≢ 0) × (found h api g pet_config (word p) ≡ some p)
  word-Numbered p (o, offset, back, least, whole, most) =
      let set : ℕ = set_shm_malloc_offset pet_config 0 (pos o) in
      let reads : shm_malloc_offset pet_config set ≡ pos o =
        (shm_malloc_offset-set 32 (omega arith) (omega arith) 0 o whole (omega arith)
          (omega arith)).0 in
      let some_word : set ≢ 0 = λ z.
        pos-zero o (omega (arith, least))
          (sym reads ∙ ap (shm_malloc_offset pet_config) z ∙ shm_malloc_offset-zero) in
      let at : word p ≡ set = ap (set_shm_malloc_offset pet_config 0) offset in
      let other : (set == 0) ≡ false = ground (arith, some_word) in
      (
        λ z. some_word (sym at ∙ z),
        ap (found h api g pet_config) at ∙ rw other (ap g.get_malloc_data reads ∙ back),
      )

  -- Two numbered blocks of one word are one.
  pub word-injective : (p q : ℕ) → Numbered g p → Numbered g q → word p ≡ word q → p ≡ q
  word-injective p q np nq e =
      some-injective p q
        (sym (word-Numbered p np).1 ∙ ap (found h api g pet_config) e ∙ (word-Numbered q nq).1)

module _ {S : Type 0} (h : ℕ → ℕ) (api : Allocator S) (g : Addressing) (value_size : ℕ)
    (Owns : S → (ℕ → ℕ) → Type 0) where
  -- The block at p, with the live block sizes, is live and holds the value.
  abbrev pub Holds : (ℕ → ℕ) → (ℕ → ℕ) → ℕ → List ℕ → Type 0
  Holds memory live p v =
      (value_size ≤ live p) × (0 < live p) × Numbered g p × (read_at memory p value_size ≡ v)

  -- A key of the index stands in a live block of its own with its value under m; a key that the
  -- index does not have has the empty value.
  pub record Serves (e : Engine S) (live : ℕ → ℕ) (m : ℕ → List ℕ) : Type 0 where
    pub valid : IsValid h e.hash_table
    pub owns : Owns e.shm_malloc live
    pub absent : (k : ℕ) → k ≢ invalid → Ops.get h e.hash_table k ≡ 0 → m k ≡ []
    pub placed :
        (k : ℕ)
        → k ≢ invalid
        → Ops.get h e.hash_table k ≢ 0
        → (p : ℕ) × (Ops.get h e.hash_table k ≡ word h g api p) × Holds e.memory live p (m k)
    pub unique :
        (k j : ℕ)
        → k ≢ invalid
        → j ≢ invalid
        → Ops.get h e.hash_table k ≢ 0
        → Ops.get h e.hash_table k ≡ Ops.get h e.hash_table j
        → k ≡ j
    pub spaced : Spaced live

  -- `Get` of a valid key answers its value.
  pub get-Serves :
      {e : Engine S} {live : ℕ → ℕ} {m : ℕ → List ℕ}
      → Serves e live m
      → (k : ℕ) → k ≢ invalid
      → get h api g pet_config value_size e k ≡ m k
  unfolding get
  get-Serves {e} {live} {m} s k valid =
      let from : ℕ → List ℕ =
        λ w. copied h api g pet_config value_size e.memory (found h api g pet_config w) in
      elim (ℕ_discrete (Ops.get h e.hash_table k) 0) [
        | yes z ↦ ap from z ∙ sym (s.absent k valid z)
        | no z ↦
            let (p, at, (size, lives, number, held)) = s.placed k valid z in
            ap from at
            ∙ ap (copied h api g pet_config value_size e.memory) (word-Numbered h g api p number).1
            ∙ held
      ]

  -- the bytes that an answer of `BatchGet` covers
  abbrev pub covered : (ℕ → ℕ) → Option (ℕ × ℕ) → List ℕ
  covered memory none = []
  covered memory (some (ptr, floats)) = read_at memory ptr (floats * 4)

  view-Serves :
      {e : Engine S} {live : ℕ → ℕ} {m : ℕ → List ℕ}
      → Serves e live m
      → value_size % 4 ≡ 0
      → (k : ℕ) → k ≢ invalid
      → covered e.memory (view h api g pet_config value_size e k) ≡ m k
  view-Serves {e} s whole k valid =
      let from : ℕ → List ℕ = λ w.
        covered e.memory
          (elim (found h api g pet_config w) [ none ↦ none | some p ↦ some (p, value_size / 4) ]) in
      let seen : Option ℕ → List ℕ =
        λ o. covered e.memory (elim o [ none ↦ none | some p ↦ some (p, value_size / 4) ]) in
      elim (ℕ_discrete (Ops.get h e.hash_table k) 0) [
        | yes z ↦ ap from z ∙ sym (s.absent k valid z)
        | no z ↦
            let (p, at, (size, lives, number, held)) = s.placed k valid z in
            ap from at
            ∙ ap seen (word-Numbered h g api p number).1
            ∙ ap (read_at e.memory p) (omega arith)
            ∙ held
      ]

  -- `BatchGet` of valid keys answers, in order, views that cover the keys' values, if these are whole
  -- floats.
  pub batch_get-Serves :
      {e : Engine S} {live : ℕ → ℕ} {m : ℕ → List ℕ}
      → Serves e live m
      → value_size % 4 ≡ 0
      → (ks : List ℕ) → ((i : ℕ) → i < length ks → get_or ks i 0 ≢ invalid)
      → map (covered e.memory) (batch_get h api g pet_config value_size e ks) ≡ map m ks
  unfolding batch_get
  batch_get-Serves s whole [] valid = refl
  batch_get-Serves s whole (k ∷ ks) valid =
      ap₂ (λ v vs. v ∷ vs) (view-Serves s whole k (valid 0 (omega arith)))
        (batch_get-Serves s whole ks (λ i l. valid (suc i) (omega arith)))
