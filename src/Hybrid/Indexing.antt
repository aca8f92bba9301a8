-- ===== src/Hybrid/Indexing.antt =====
-- The word of a key is replaced in the index (src/storage/hybrid/value.h).
use rec_store.Prelude.{
  ℕ, ◌≡◌, inl, inr, refl, ap, ◌∙◌, arith, false, none, List, update, ◌==◌, Bool-cases, ==_self,
}
use rec_store.Hybrid.Allocator.{Allocator, Lawful}
use rec_store.Hybrid.Side.{Side, Elsewhere, Side-put, Side-leave}
use rec_store.Hybrid.Store.{Store}
use rec_store.Hybrid.Invariant.{
  Where, gone, inside, in_memory, on_disk, pointer_to, memory_of, disk_of, Suits, Keeps,
}
use rec_store.Hybrid.Landing.{Landed}

pub Elsewhere-update :
    {A B : Type 0} (f : A → B) (g : ℕ → A) (key : ℕ) (a : A)
    → Elsewhere key (λ k. f (g k)) (λ k. f (update g key a k))
Elsewhere-update f g key a k ne =
    let other : (key == k) ≡ false = ground (arith, ne) in rw other refl

pub update_here : {A : Type 0} (g : ℕ → A) (key : ℕ) (a : A) → update g key a key ≡ a
update_here g key a = rw ==_self refl

module _ {S D : Type 0} (shm : Allocator S) (ssd : Allocator D) (OwnsS : S → (ℕ → ℕ) → Type 0)
    (OwnsD : D → (ℕ → ℕ) → Type 0) (shm_law : Lawful shm OwnsS) (ssd_law : Lawful ssd OwnsD) where
  module _ {s : Store S D} {place : ℕ → Where} {ml dl : ℕ → ℕ} {m : ℕ → List ℕ}
      (k : Keeps OwnsS OwnsD s place ml dl m) (key : ℕ) where
    -- The store after the index's word for the key is replaced.
    abbrev pub indexed_at : Where → Store S D
    indexed_at w = record s { index = update s.index key (pointer_to w).raw }

    abbrev Moved : Where → List ℕ → Type 0
    Moved w v = Keeps OwnsS OwnsD (indexed_at w) (update place key w) ml dl (update m key v)

    Moved-sides :
        (w : Where) (v : List ℕ)
        → Suits w v
        → Side s.memory ml (λ j. memory_of (update place key w j)) (update m key v)
        → Side s.disk dl (λ j. disk_of (update place key w j)) (update m key v)
        → Moved w v
    Moved-sides w v suit mem dsk = record {
      owns_shm = k.owns_shm;
      owns_ssd = k.owns_ssd;
      indexed =
          λ j. elim (Bool-cases (key == j)) [ inl e ↦ rw e refl | inr e ↦ rw e (k.indexed j) ];
      suits = λ j. elim (Bool-cases (key == j)) [ inl e ↦ rw e suit | inr e ↦ rw e (k.suits j) ];
      memory = mem;
      disk = dsk;
      lru = k.lru;
    }

    memory-Elsewhere :
        (w : Where)
        → Elsewhere key (λ j. memory_of (place j)) (λ j. memory_of (update place key w j))
    memory-Elsewhere w = Elsewhere-update memory_of place key w

    disk-Elsewhere :
        (w : Where) → Elsewhere key (λ j. disk_of (place j)) (λ j. disk_of (update place key w j))
    disk-Elsewhere w = Elsewhere-update disk_of place key w

    values-Elsewhere : (v : List ℕ) → Elsewhere key m (update m key v)
    values-Elsewhere v = Elsewhere-update (λ (l : List ℕ). l) m key v

    leave_memory :
        (w : Where) (v : List ℕ)
        → memory_of w ≡ none
        → Side s.memory ml (λ j. memory_of (update place key w j)) (update m key v)
    leave_memory w v e =
        Side-leave k.memory key (memory-Elsewhere w) (values-Elsewhere v)
          (ap memory_of (update_here place key w) ∙ e)

    leave_disk :
        (w : Where) (v : List ℕ)
        → disk_of w ≡ none
        → Side s.disk dl (λ j. disk_of (update place key w j)) (update m key v)
    leave_disk w v e =
        Side-leave k.disk key (disk-Elsewhere w) (values-Elsewhere v)
          (ap disk_of (update_here place key w) ∙ e)

    -- The index is set to where a value has landed.
    pub indexed-Moved :
        (w : Where) (v : List ℕ)
        → Landed shm ssd OwnsS OwnsD shm_law ssd_law s place ml dl w v
        → Moved w v
    indexed-Moved gone v h = absurd h
    indexed-Moved (inside bs) v h =
        Moved-sides (inside bs) v h (leave_memory (inside bs) v refl)
          (leave_disk (inside bs) v refl)
    indexed-Moved (in_memory a) v (suit, room, block, free) =
        Moved-sides (in_memory a) v suit
          (Side-put k.memory key a v suit.1 suit.0 room block free (memory-Elsewhere (in_memory a))
            (values-Elsewhere v) (ap memory_of (update_here place key (in_memory a)))
            (update_here m key v))
          (leave_disk (in_memory a) v refl)
    indexed-Moved (on_disk a) v (suit, room, block, free) =
        Moved-sides (on_disk a) v suit (leave_memory (on_disk a) v refl) (
          Side-put k.disk key a v suit.1 suit.0 room block free (disk-Elsewhere (on_disk a))
            (values-Elsewhere v) (ap disk_of (update_here place key (on_disk a)))
            (update_here m key v))
