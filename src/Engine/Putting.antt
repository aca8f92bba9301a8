-- ===== src/Engine/Putting.antt =====
-- `Put` stores its value and frees the one before (src/storage/kv_engine/engine_extendible_hash.h).
use rec_store.Prelude.{
  ℕ, ◌-◌, ◌^◌, ◌≤◌, ◌<◌, ◌≡◌, ◌≢◌, ◌⊎◌, inl, inr, refl, ap, sym, subst, ◌∙◌, arith, Option, none,
  some, List, length, update, ℕ_discrete,
}
use rec_store.ExtendibleHash.Ops
use rec_store.ExtendibleHash.Ops.{insert}
use rec_store.ExtendibleHash.Slots.{invalid}
use rec_store.ExtendibleHash.Invariant.{entry, home}
use rec_store.ExtendibleHash.Put.{HasRoom, insert_total}
use rec_store.Hybrid.Store.{◌>>=◌}
use rec_store.Hybrid.Blocks.{read_at, write_at, read_at-write_at}
use rec_store.Hybrid.Allocator.{Allocator, Lawful, Separate, Spaced-free}
use rec_store.Engine.{Engine, found, free_old, placed, put, get}
use rec_store.Engine.PetKv.{pet_config}
use rec_store.Engine.Numbers.{Addressing, Addresses}
use rec_store.Engine.Serving.{word, word-Numbered, word-injective, Serves, get-Serves}
use rec_store.Engine.Moving.{Serves-fresh, Freed, Serves-moved}

module _ {S : Type 0} (h : ℕ → ℕ) (api : Allocator S) (g : Addressing) (value_size : ℕ)
    (Owns : S → (ℕ → ℕ) → Type 0) where
  module _ (lawful : Lawful api Owns) (numbers : Addresses g Owns) where
    -- Freeing the old block of a key touches no block of another key, and not p.
    Freed-old :
        {e : Engine S} {live : ℕ → ℕ} {m : ℕ → List ℕ}
        → Serves h api g value_size Owns e live m
        → (key p : ℕ) → key ≢ invalid
        → ((k : ℕ) → k ≢ invalid → Ops.get h e.hash_table k ≢ word h g api p)
        → (left : ℕ → ℕ) × Freed h api g value_size Owns e live key p left
    Freed-old {e} {live} s key p valid free =
        let from : ℕ → Option ℕ = found h api g pet_config in
        elim (ℕ_discrete (Ops.get h e.hash_table key) 0) [
          | yes z ↦
              let nothing : from (Ops.get h e.hash_table key) ≡ none = ap from z in
              (
                live,
                record {
                  owns =
                      subst (λ o. Owns (free_old h api g pet_config e.shm_malloc o) live)
                        (sym nothing) s.owns;
                  other = λ k q vk ne here at. refl;
                  same = refl;
                  spaced = s.spaced;
                },
              )
          | no z ↦
              let (q, at, (size, lives, number, held)) = s.placed key valid z in
              let it : from (Ops.get h e.hash_table key) ≡ some q =
                ap from at ∙ (word-Numbered h g api q number).1 in
              (
                update live q 0,
                record {
                  owns =
                      subst
                        (λ o. Owns (free_old h api g pet_config e.shm_malloc o) (update live q 0))
                        (sym it) (lawful.takes e.shm_malloc live q s.owns lives);
                  other = λ k r vk ne here ak.
                      let apart : q ≢ r =
                        λ qr. ne (s.unique key k valid vk z (at ∙ ap (word h g api) qr ∙ sym ak)) in
                      ground arith;
                  same =
                      let apart : q ≢ p = λ qp. free key valid (at ∙ ap (word h g api) qp) in
                      ground arith;
                  spaced = Spaced-free q s.spaced;
                },
              )
        ]

    -- What `Put` leaves: the key has the value, or, where `New` gave no block, the old one, and `Get`
    -- answers by it.
    abbrev pub Stores : Engine S → (ℕ → List ℕ) → Type 0
    Stores e m =
        ((live : ℕ → ℕ) × Serves h api g value_size Owns e live m)
        × ((k : ℕ) → k ≢ invalid → get h api g pet_config value_size e k ≡ m k)

    Serves-Stores :
        {e : Engine S} {live : ℕ → ℕ} {m : ℕ → List ℕ}
        → Serves h api g value_size Owns e live m
        → Stores e m
    Serves-Stores {e} {live} s = ((live, s), get-Serves h api g value_size Owns s)

    -- No key stands in a block that was just given out.
    no_key :
        {e : Engine S} {live : ℕ → ℕ} {m : ℕ → List ℕ}
        → Serves h api g value_size Owns e live m
        → (p n : ℕ) (s' : S) → Separate live p n
        → 0 < n
        → Owns s' (update live p n)
        → (k : ℕ) → k ≢ invalid
        → Ops.get h e.hash_table k ≢ word h g api p
    no_key {e} {live} s p n s' apart some_bytes owns k valid at =
        let here : 0 < update live p n p = ground arith in
        let number = numbers s' (update live p n) owns p here in
        let (q, at_q, (size, lives, number_q, held)) =
          s.placed k valid (λ z. (word-Numbered h g api p number).0 (sym at ∙ z)) in
        let same = word-injective h g api q p number_q number (sym at_q ∙ at) in
        let away = apart q lives in ground (arith, away, same, lives)

    put-placed :
        (fuel : ℕ) {e : Engine S} {live : ℕ → ℕ} {m : ℕ → List ℕ}
        → Serves h api g value_size Owns e live m
        → (key d : ℕ) (v : List ℕ) → key ≢ invalid
        → 0 < value_size
        → length v ≡ value_size
        → d ≤ 30
        → HasRoom h d key e.hash_table
        → d - (entry e.hash_table (home h e.hash_table key)).local_depth < fuel
        → (p n : ℕ) (s' : S) → value_size ≤ n
        → Separate live p n
        → Owns s' (update live p n)
        → (e' : Engine S) × (placed h api g pet_config fuel e key v (some p, s') ≡ some e')
          × Stores e' (update m key v)
    put-placed fuel {e} {live} s key d v valid positive length_v small room enough p n s' fits apart
          owns =
        let fresh =
          Serves-fresh h api g value_size Owns s p n s' v apart (omega arith)
            (omega (arith, length_v)) owns in
        let free = no_key s p n s' apart (omega arith) owns in
        let here : update live p n p ≡ n = ground arith in
        let number = numbers s' (update live p n) owns p (omega (arith, here)) in
        let (left, freed) = Freed-old fresh key p valid free in
        let (t, run, puts) =
          insert_total h fuel s.valid key (word h g api p) d valid small room enough in
        let held : read_at (write_at e.memory p v) p value_size ≡ v =
          subst (λ z. read_at (write_at e.memory p v) p z ≡ v) length_v
            (read_at-write_at e.memory p v) in
        (
          record {
            shm_malloc =
                free_old h api g pet_config s'
                  (found h api g pet_config (Ops.get h e.hash_table key));
            memory = write_at e.memory p v;
            hash_table = t;
          },
          ap
              (λ o. o >>= λ u. some (record {
                shm_malloc =
                    free_old h api g pet_config s'
                      (found h api g pet_config (Ops.get h e.hash_table key));
                memory = write_at e.memory p v;
                hash_table = u;
              }))
              run,
          Serves-Stores (
              Serves-moved h api g value_size Owns fresh key p v
                (omega (arith, here), omega (arith, here), number, held) free freed puts),
        )

    -- `Put` of a value of value_size bytes, below 2 ^ 17, under a valid key returns, where the key's
    -- block of the index has room at some depth of at most 30 hash bits and the fuel is enough for
    -- it: the key then has the value and the others theirs, or `New` gave no block and all keys have
    -- theirs; `Get` answers by this.
    pub put-Stores :
        (fuel : ℕ) {e : Engine S} {live : ℕ → ℕ} {m : ℕ → List ℕ}
        → Serves h api g value_size Owns e live m
        → (key d : ℕ) (v : List ℕ) → key ≢ invalid
        → 0 < value_size
        → value_size < 2 ^ 17
        → length v ≡ value_size
        → d ≤ 30
        → HasRoom h d key e.hash_table
        → d - (entry e.hash_table (home h e.hash_table key)).local_depth < fuel
        → (e' : Engine S) × (put h api g pet_config fuel e key v ≡ some e')
          × (Stores e' (update m key v)
              ⊎ ((s' : S) × (api.new e.shm_malloc (length v) ≡ some (none, s')) × Stores e' m))
    unfolding put
    put-Stores fuel {e} {live} {m} s key d v valid positive below length_v small room enough =
        let next = placed h api g pet_config fuel e key v in
        elim (lawful.gives e.shm_malloc live (length v) s.owns (omega arith) (omega arith)) [
          | inl (s', run, owns) ↦ (
            record e { shm_malloc = s' },
            ap (λ o. o >>= next) run,
            inr (
              s',
              run,
              Serves-Stores (record {
                valid = s.valid;
                owns = owns;
                absent = s.absent;
                placed = s.placed;
                unique = s.unique;
                spaced = s.spaced;
              }),
            ),
          )
          | inr (p, n, s', run, fits, pos_p, low, apart, owns) ↦
              let (e', run', stores) =
                put-placed fuel s key d v valid positive length_v small room enough p n s'
                  (omega (arith, length_v, fits)) apart owns in
              (e', ap (λ o. o >>= next) run ∙ run', inl stores)
        ]
