-- ===== src/Hybrid/Blocks.antt =====
-- Values in byte-addressed memory (src/storage/hybrid/value.h): two bytes of length, the lower one
-- first, and the data.
use rec_store.Prelude.{
  ℕ, zero, suc, ◌+◌, ◌≤◌, ◌<◌, ◌≡◌, ◌⊎◌, inl, inr, refl, ap, ap₂, sym, ◌∙◌, arith, List, [], ◌∷◌,
  ◌++◌, length, update,
}
use rec_store.Prelude.Bytes.{le_bytes, le_value}

-- `memcpy` to and from an address
abbrev pub write_at : (ℕ → ℕ) → ℕ → List ℕ → ℕ → ℕ
write_at h p [] = h
write_at h p (b ∷ bs) = write_at (update h p b) (p + 1) bs

abbrev pub read_at : (ℕ → ℕ) → ℕ → ℕ → List ℕ
read_at h p zero = []
read_at h p (suc n) = h p ∷ read_at h (p + 1) n

-- the length before a value, and the value
abbrev pub peek_len : (ℕ → ℕ) → ℕ → ℕ
peek_len h p = le_value (read_at h p 2)

abbrev pub read_block : (ℕ → ℕ) → ℕ → List ℕ
read_block h p = read_at h (p + 2) (peek_len h p)

-- the bytes that are written for a value
abbrev pub block_bytes : List ℕ → List ℕ
block_bytes value = le_bytes 2 (length value) ++ value

-- The block of a value stands at an address.
abbrev pub BlockAt : (ℕ → ℕ) → ℕ → List ℕ → Type 0
BlockAt h p value =
    (length value < 65536)
    × (read_at h p 2 ≡ le_bytes 2 (length value))
    × (read_at h (p + 2) (length value) ≡ value)

write_at-before : (h : ℕ → ℕ) (p x : ℕ) (bs : List ℕ) → x < p → write_at h p bs x ≡ h x
write_at-before h p x [] l = refl
write_at-before h p x (b ∷ bs) l =
    write_at-before (update h p b) (p + 1) x bs (omega arith) ∙ ground arith

write_at-after : (h : ℕ → ℕ) (p x : ℕ) (bs : List ℕ) → p + length bs ≤ x → write_at h p bs x ≡ h x
write_at-after h p x [] l = refl
write_at-after h p x (b ∷ bs) l =
    write_at-after (update h p b) (p + 1) x bs (omega arith) ∙ ground arith

read_at-congr :
    (h h' : ℕ → ℕ) (p n : ℕ)
    → ((x : ℕ) → p ≤ x → x < p + n → h' x ≡ h x)
    → read_at h' p n ≡ read_at h p n
read_at-congr h h' p zero same = refl
read_at-congr h h' p (suc n) same =
    ap₂ (λ x xs. x ∷ xs) (same p (omega arith) (omega arith))
      (read_at-congr h h' (p + 1) n (λ x a l. same x (omega arith) (omega arith)))

pub read_at-write_at :
    (h : ℕ → ℕ) (p : ℕ) (bs : List ℕ) → read_at (write_at h p bs) p (length bs) ≡ bs
read_at-write_at h p [] = refl
read_at-write_at h p (b ∷ bs) =
    ap₂ (λ x xs. x ∷ xs) (write_at-before (update h p b) (p + 1) p bs (omega arith) ∙ ground arith)
      (read_at-write_at (update h p b) (p + 1) bs)

-- A write elsewhere leaves what is read.
pub read_at-write_other :
    (h : ℕ → ℕ) (p q n : ℕ) (bs : List ℕ)
    → (q + n ≤ p) ⊎ (p + length bs ≤ q)
    → read_at (write_at h p bs) q n ≡ read_at h q n
read_at-write_other h p q n bs (inl l) =
    read_at-congr h (write_at h p bs) q n (λ x a b. write_at-before h p x bs (omega arith))
read_at-write_other h p q n bs (inr l) =
    read_at-congr h (write_at h p bs) q n (λ x a b. write_at-after h p x bs (omega arith))

read_at-append :
    (h : ℕ → ℕ) (p : ℕ) (xs ys : List ℕ)
    → read_at h p (length (xs ++ ys)) ≡ xs ++ ys
    → (read_at h p (length xs) ≡ xs) × (read_at h (p + length xs) (length ys) ≡ ys)
read_at-append h p [] ys e = (refl, ap (λ q. read_at h q (length ys)) (omega arith) ∙ e)
read_at-append h p (x ∷ xs) ys e =
    let head : h p ≡ x = ap (λ l. elim l [ [] ↦ 0 | y ∷ r ↦ y ]) e in
    let rest = read_at-append h (p + 1) xs ys (ap (λ l. elim l [ [] ↦ [] | y ∷ r ↦ r ]) e) in
    (ap₂ (λ y r. y ∷ r) head rest.0, ap (λ q. read_at h q (length ys)) (omega arith) ∙ rest.1)

pub peek_len-BlockAt :
    (h : ℕ → ℕ) (p : ℕ) (value : List ℕ) → BlockAt h p value → peek_len h p ≡ length value
peek_len-BlockAt h p value b = ap le_value b.1 ∙ omega (arith, b.0)

pub read_block-BlockAt :
    (h : ℕ → ℕ) (p : ℕ) (value : List ℕ) → BlockAt h p value → read_block h p ≡ value
read_block-BlockAt h p value b = ap (read_at h (p + 2)) (peek_len-BlockAt h p value b) ∙ b.2

pub BlockAt-write_at :
    (h : ℕ → ℕ) (p : ℕ) (value : List ℕ)
    → length value < 65536
    → BlockAt (write_at h p (block_bytes value)) p value
BlockAt-write_at h p value small =
    let (head, rest) =
      read_at-append (write_at h p (block_bytes value)) p (le_bytes 2 (length value)) value
        (read_at-write_at h p (block_bytes value)) in
    (small, head, rest)

-- The data of a block is overwritten by data of the same length.
pub BlockAt-write_data :
    (h : ℕ → ℕ) (p : ℕ) (old value : List ℕ)
    → BlockAt h p old
    → length value ≡ length old
    → BlockAt (write_at h (p + 2) value) p value
BlockAt-write_data h p old value b same = (
  omega (arith, b.0),
  read_at-write_other h (p + 2) p 2 value (inl (omega arith)) ∙ b.1 ∙ ap (le_bytes 2) (sym same),
  read_at-write_at h (p + 2) value,
)

-- A write outside a block leaves it.
pub BlockAt-write_other :
    (h : ℕ → ℕ) (p q m : ℕ) (bs value : List ℕ)
    → BlockAt h q value
    → 2 + length value ≤ m
    → (q + m ≤ p) ⊎ (p + length bs ≤ q)
    → BlockAt (write_at h p bs) q value
BlockAt-write_other h p q m bs value b room (inl l) = (
  b.0,
  read_at-write_other h p q 2 bs (inl (omega arith)) ∙ b.1,
  read_at-write_other h p (q + 2) (length value) bs (inl (omega arith)) ∙ b.2,
)
BlockAt-write_other h p q m bs value b room (inr l) = (
  b.0,
  read_at-write_other h p q 2 bs (inr l) ∙ b.1,
  read_at-write_other h p (q + 2) (length value) bs (inr (omega arith)) ∙ b.2,
)
