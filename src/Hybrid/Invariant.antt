-- ===== src/Hybrid/Invariant.antt =====
-- What the value store keeps between operations: where each key's value stands
-- (src/storage/hybrid/value.h).
use rec_store.Prelude.{
  ℕ, ◌^◌, ◌≤◌, ◌<◌, ◌≡◌, ◌≢◌, ◌⊎◌, inl, inr, refl, sym, ◌∙◌, arith, true, false, Option, none, some,
  List, [], ◌∷◌, length, ◌==◌,
}
use rec_store.Pointer.{
  PointerType, UnifiedPointer, to_code, type, value, is_valid, as_memory_pointer, as_disk_page_id,
  as_p_mem_offset,
}
use rec_store.Pointer.Codec.{word_of, type-word_of, value-word_of}
use rec_store.Hybrid.Lru.Recency
use rec_store.Hybrid.Inline.{AllBytes, kept, inline_word, inline_word-lt}
use rec_store.Hybrid.Side.{Side}
use rec_store.Hybrid.Store.{Store}

-- Where the value of a key stands.
pub data Where : Type 0 where
  gone : Where
  inside : List ℕ → Where
  in_memory on_disk : ℕ → Where

-- the pointer that the index holds
abbrev pub pointer_to : Where → UnifiedPointer
pointer_to gone = record { raw = 0 }
pointer_to (inside bs) = word_of PointerType.p_mem (inline_word bs)
pointer_to (in_memory a) = word_of PointerType.memory a
pointer_to (on_disk a) = word_of PointerType.disk a

abbrev pub kind_of : Where → PointerType
kind_of gone = PointerType.invalid
kind_of (inside bs) = PointerType.p_mem
kind_of (in_memory a) = PointerType.memory
kind_of (on_disk a) = PointerType.disk

abbrev pub memory_of : Where → Option ℕ
memory_of (in_memory a) = some a
memory_of _ = none

abbrev pub disk_of : Where → Option ℕ
disk_of (on_disk a) = some a
disk_of _ = none

-- A value that is not kept inside the pointer.
abbrev pub Long : List ℕ → Type 0
Long v = (length v ≡ 0) ⊎ (7 < length v)

-- What a place says of the value by itself.
abbrev pub Suits : Where → List ℕ → Type 0
Suits gone v = v ≡ []
Suits (inside bs) v = AllBytes bs × (0 < length bs) × (length bs ≤ 7) × (v ≡ kept bs)
Suits (in_memory a) v = (a < 2 ^ 62) × (0 < a) × Long v
Suits (on_disk a) v = (a < 2 ^ 62) × (0 < a) × Long v

module _ {S D : Type 0} (OwnsS : S → (ℕ → ℕ) → Type 0) (OwnsD : D → (ℕ → ℕ) → Type 0) where
  -- With live blocks `ml` of the memory and `dl` of the disk, key k has the value m k at `place k`.
  pub record Keeps (s : Store S D) (place : ℕ → Where) (ml dl : ℕ → ℕ) (m : ℕ → List ℕ)
      : Type 0 where
    pub owns_shm : OwnsS s.shm_manage ml
    pub owns_ssd : OwnsD s.ssd_manage dl
    pub indexed : (k : ℕ) → s.index k ≡ (pointer_to (place k)).raw
    pub suits : (k : ℕ) → Suits (place k) (m k)
    pub memory : Side s.memory ml (λ k. memory_of (place k)) m
    pub disk : Side s.disk dl (λ k. disk_of (place k)) m
    pub lru : Recency.IsValid s.lru

  -- The store has these values.
  abbrev pub Has : Store S D → (ℕ → List ℕ) → Type 0
  Has s m = (place : ℕ → Where) × (ml : ℕ → ℕ) × (dl : ℕ → ℕ) × Keeps s place ml dl m

-- Long values are kept whole.
pub kept-Long : (v : List ℕ) → Long v → kept v ≡ v
kept-Long (a ∷ b ∷ c ∷ d ∷ e ∷ f ∷ g ∷ []) h = absurd (ground arith)
kept-Long _ h = refl

pub pointer_small : (w : Where) (v : List ℕ) → Suits w v → (pointer_to w).raw < 2 ^ 64
unfolding to_code
pointer_small gone v h = omega arith
pointer_small (inside bs) v h = omega (arith, inline_word-lt bs h.0 h.2)
pointer_small (in_memory a) v h = omega arith
pointer_small (on_disk a) v h = omega arith

pub type-pointer_to : (w : Where) (v : List ℕ) → Suits w v → type (pointer_to w) ≡ kind_of w
unfolding to_code
type-pointer_to gone v h = type-word_of PointerType.invalid 0 (omega arith)
type-pointer_to (inside bs) v h =
    type-word_of PointerType.p_mem (inline_word bs) (inline_word-lt bs h.0 h.2)
type-pointer_to (in_memory a) v h = type-word_of PointerType.memory a h.0
type-pointer_to (on_disk a) v h = type-word_of PointerType.disk a h.0

-- Only the null pointer is 0.
pub raw-ne-zero :
    (w : Where) (v : List ℕ)
    → Suits w v
    → ((w ≡ gone) × (((pointer_to w).raw == 0) ≡ true)) ⊎ (((pointer_to w).raw == 0) ≡ false)
unfolding to_code
raw-ne-zero gone v h = inl (refl, refl)
raw-ne-zero (inside bs) v h = inr (ground arith)
raw-ne-zero (in_memory a) v h = inr (ground arith)
raw-ne-zero (on_disk a) v h = inr (ground arith)

is_valid-kind : (p : UnifiedPointer) → type p ≢ PointerType.invalid → is_valid p ≡ true
unfolding is_valid
is_valid-kind p ne = ground (arith, ne)

pub is_valid-pointer_to :
    (w : Where) (v : List ℕ) → Suits w v → w ≢ gone → is_valid (pointer_to w) ≡ true
is_valid-pointer_to w v h ne =
    is_valid-kind (pointer_to w) (λ e. kind w ne (sym (type-pointer_to w v h) ∙ e))
  where
    kind : (u : Where) → u ≢ gone → kind_of u ≢ PointerType.invalid
    kind gone z = absurd (z refl)
    kind (inside bs) z = λ e. cc e
    kind (in_memory a) z = λ e. cc e
    kind (on_disk a) z = λ e. cc e

reads_memory :
    (p : UnifiedPointer) (v : ℕ)
    → type p ≡ PointerType.memory
    → value p ≡ v
    → as_memory_pointer p ≡ some v
unfolding as_memory_pointer
reads_memory p v t e = ground arith

reads_disk :
    (p : UnifiedPointer) (v : ℕ)
    → type p ≡ PointerType.disk
    → value p ≡ v
    → as_disk_page_id p ≡ some v
unfolding as_disk_page_id
reads_disk p v t e = ground arith

reads_p_mem :
    (p : UnifiedPointer) (v : ℕ)
    → type p ≡ PointerType.p_mem
    → value p ≡ v
    → as_p_mem_offset p ≡ some v
unfolding as_p_mem_offset
reads_p_mem p v t e = ground arith

pub as_memory_pointer-word :
    (a : ℕ) → a < 2 ^ 62 → as_memory_pointer (word_of PointerType.memory a) ≡ some a
as_memory_pointer-word a h =
    reads_memory _ a (type-word_of PointerType.memory a h) (value-word_of PointerType.memory a h)

pub as_disk_page_id-word :
    (a : ℕ) → a < 2 ^ 62 → as_disk_page_id (word_of PointerType.disk a) ≡ some a
as_disk_page_id-word a h =
    reads_disk _ a (type-word_of PointerType.disk a h) (value-word_of PointerType.disk a h)

pub as_p_mem_offset-word :
    (a : ℕ) → a < 2 ^ 62 → as_p_mem_offset (word_of PointerType.p_mem a) ≡ some a
as_p_mem_offset-word a h =
    reads_p_mem _ a (type-word_of PointerType.p_mem a h) (value-word_of PointerType.p_mem a h)
