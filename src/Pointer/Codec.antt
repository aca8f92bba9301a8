-- ===== src/Pointer/Codec.antt =====
-- The pointer word is a faithful code of the pair of a kind and a 62-bit value.
use rec_store.Prelude.{
  ℕ, ◌+◌, ◌-◌, ◌*◌, ◌/◌, ◌%◌, ◌^◌, ◌≤◌, ◌<◌, bit_and, ◌≡◌, refl, sym, ap, ◌∙◌, true, none, some,
  arith,
}
use mathlib.Core.Option.{some-injective}
use rec_store.Prelude.Bits.{bit_and-mask, bit_or_disjoint, bit_and-shifted}
use rec_store.Pointer.{
  PointerType, UnifiedPointer, to_code, of_code, value_mask, set, from_memory, from_disk_page_id,
  from_p_mem, type, value, is_valid, as_memory_pointer, as_disk_page_id, as_p_mem_offset,
}

abbrev pub word_of : PointerType → ℕ → UnifiedPointer
word_of t v = record { raw = to_code t * 2 ^ 62 + v }

upper_bits : (v : ℕ) → v < 2 ^ 64 → bit_and v (2 ^ 64 - 1 - value_mask) ≡ v / 2 ^ 62 * 2 ^ 62
upper_bits v h = rw (bit_and-shifted 62 v 3, bit_and-mask 2 (v / 2 ^ 62)) (omega arith)

pub set-eq-some : (t : PointerType) (v : ℕ) → v < 2 ^ 62 → set t v ≡ some (word_of t v)
unfolding set
set-eq-some t v h =
    rw (upper_bits v (omega arith), bit_or_disjoint 62 (to_code t) v h) (ground arith)

pub set-eq-none : (t : PointerType) (v : ℕ) → v < 2 ^ 64 → 2 ^ 62 ≤ v → set t v ≡ none
unfolding set
set-eq-none t v h l = rw (upper_bits v h) (ground arith)

to_code-lt : (t : PointerType) → to_code t < 4
unfolding to_code
to_code-lt PointerType.invalid = omega arith
to_code-lt _ = omega arith

of_code-to_code : (t : PointerType) → of_code (to_code t) ≡ t
unfolding of_code to_code
of_code-to_code PointerType.invalid = refl
of_code-to_code _ = refl

to_code-of_code : (c : ℕ) → c < 4 → to_code (of_code c) ≡ c
unfolding of_code to_code
to_code-of_code c h = ground arith

type-eq : (p : UnifiedPointer) → p.raw < 2 ^ 64 → type p ≡ of_code (p.raw / 2 ^ 62)
unfolding type
type-eq p h =
    rw (bit_and-mask 2 (p.raw / 2 ^ 62))
      (let e : p.raw / 2 ^ 62 % 2 ^ 2 ≡ p.raw / 2 ^ 62 = omega arith in ap of_code e)

value-eq : (p : UnifiedPointer) → value p ≡ p.raw % 2 ^ 62
unfolding value
value-eq p = bit_and-mask 62 p.raw

pub type-word_of : (t : PointerType) (v : ℕ) → v < 2 ^ 62 → type (word_of t v) ≡ t
type-word_of t v h =
    let c = to_code-lt t in
    let upper : (to_code t * 2 ^ 62 + v) / 2 ^ 62 ≡ to_code t = omega arith in
    type-eq (word_of t v) (omega arith) ∙ ap of_code upper ∙ of_code-to_code t

pub value-word_of : (t : PointerType) (v : ℕ) → v < 2 ^ 62 → value (word_of t v) ≡ v
value-word_of t v h = value-eq (word_of t v) ∙ omega arith

-- A 62-bit value of any kind is stored in a 64-bit word from which the kind and the value are read
-- back; a wider value is refused by the assertion.
pub set-type_value :
    (t : PointerType) (v : ℕ)
    → v < 2 ^ 64
    → (v < 2 ^ 62
        → (p : UnifiedPointer) × (set t v ≡ some p)
          × (type p ≡ t)
          × (value p ≡ v)
          × (p.raw < 2 ^ 64))
      × (2 ^ 62 ≤ v → set t v ≡ none)
set-type_value t v h = (
  λ small. (
    word_of t v,
    set-eq-some t v small,
    type-word_of t v small,
    value-word_of t v small,
    omega (arith, to_code-lt t),
  ),
  set-eq-none t v h,
)

-- Every 64-bit word is the code of its kind and its value: building a pointer from what `type` and
-- `value` read gives the word back.
pub set-type_value_self : (p : UnifiedPointer) → p.raw < 2 ^ 64 → set (type p) (value p) ≡ some p
set-type_value_self p h =
    let c = to_code-of_code (p.raw / 2 ^ 62) (omega arith) in
    let t = ap to_code (type-eq p h) in
    let whole : to_code (type p) * 2 ^ 62 + value p ≡ p.raw = omega (arith, value-eq p) in
    set-eq-some (type p) (value p) (omega (arith, value-eq p))
    ∙ ap (λ r. some (record { raw = r })) whole

set-reads :
    (t : PointerType) (v : ℕ) (p : UnifiedPointer)
    → v < 2 ^ 62
    → set t v ≡ some p
    → (type p ≡ t) × (value p ≡ v)
set-reads t v p h e =
    let same : word_of t v ≡ p = some-injective _ _ (sym (set-eq-some t v h) ∙ e) in
    rw same at (
      let r : (type (word_of t v) ≡ t) × (value (word_of t v) ≡ v) =
        (type-word_of t v h, value-word_of t v h) in
      r)

-- Each checked reader returns what the builder of its kind stored, and fails on the other kinds.
pub readers-from_kinds :
    (v : ℕ)
    → v < 2 ^ 62
    → (m d q : UnifiedPointer) → from_memory v ≡ some m
    → from_disk_page_id v ≡ some d
    → from_p_mem v ≡ some q
    → ((as_memory_pointer m ≡ some v) × (as_memory_pointer d ≡ none) × (as_memory_pointer q ≡ none))
      × ((as_disk_page_id d ≡ some v) × (as_disk_page_id m ≡ none) × (as_disk_page_id q ≡ none))
      × ((as_p_mem_offset q ≡ some v) × (as_p_mem_offset m ≡ none) × (as_p_mem_offset d ≡ none))
      × ((is_valid m ≡ true) × (is_valid d ≡ true) × (is_valid q ≡ true))
unfolding from_memory from_disk_page_id from_p_mem as_memory_pointer as_disk_page_id as_p_mem_offset
    is_valid
readers-from_kinds v h m d q em ed eq =
    let (tm, vm) = set-reads PointerType.memory v m h em in
    let (td, vd) = set-reads PointerType.disk v d h ed in
    let (tq, vq) = set-reads PointerType.p_mem v q h eq in ground (arith, tm, vm, td, vd, tq, vq)
