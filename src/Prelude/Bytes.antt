-- ===== src/Prelude/Bytes.antt =====
-- Bytes in memory: little-endian words, reads at a position, and arrays of words.
use Prim.Native.Nat.{ℕ, zero, suc, ◌+◌, ◌*◌, ◌/◌, ◌%◌, ◌^◌, ◌<◌}
use mathlib.Core.Path.{◌≡◌, refl, ap, ap₂, sym, ◌∙◌}
use mathlib.Core.Option
use mathlib.Core.Option.{Option, none, some, some-injective}
use mathlib.Core.Logic.{inl, inr}
use rec_store.Prelude.Tests.{Option-cases}
use mathlib.Core.List.{List, [], ◌∷◌, ◌++◌}
use mathlib.Core.List.{append_assoc}
use native.Mathlib.Omega.{arith}
use rec_store.Prelude.Arrays.{length, get_or, length-append}

-- the w bytes of a word, the lowest first
abbrev pub le_bytes : ℕ → ℕ → List ℕ
le_bytes zero n = []
le_bytes (suc w) n = (n % 256) ∷ le_bytes w (n / 256)

abbrev pub le_value : List ℕ → ℕ
le_value [] = 0
le_value (b ∷ bs) = b + 256 * le_value bs

-- an array of words of w bytes each
abbrev pub words_bytes : ℕ → List ℕ → List ℕ
words_bytes w [] = []
words_bytes w (n ∷ ns) = le_bytes w n ++ words_bytes w ns

abbrev pub concat : List (List ℕ) → List ℕ
concat [] = []
concat (bs ∷ rest) = bs ++ concat rest

module _ {ℓ} {A : Type ℓ} where
  abbrev pub drop : ℕ → List A → List A
  drop zero xs = xs
  drop (suc n) [] = []
  drop (suc n) (x ∷ xs) = drop n xs

  -- the first n elements, if there are as many
  abbrev pub prefix : ℕ → List A → Option (List A)
  prefix zero xs = some []
  prefix (suc n) [] = none
  prefix (suc n) (x ∷ xs) = Option.map (λ ys. x ∷ ys) (prefix n xs)

  pub drop-append : (xs ys : List A) → drop (length xs) (xs ++ ys) ≡ ys
  drop-append [] ys = refl
  drop-append (x ∷ xs) ys = drop-append xs ys

  pub prefix-append : (xs ys : List A) → prefix (length xs) (xs ++ ys) ≡ some xs
  prefix-append [] ys = refl
  prefix-append (x ∷ xs) ys = rw (prefix-append xs ys) refl

-- n bytes from position p; a read past the end has no value
abbrev pub read_bytes : List ℕ → ℕ → ℕ → Option (List ℕ)
read_bytes bs p n = prefix n (drop p bs)

-- a word of w bytes at position p
abbrev pub read_word : ℕ → List ℕ → ℕ → Option ℕ
read_word w bs p = Option.map le_value (read_bytes bs p w)

pub read_bytes-middle :
    (pre xs post : List ℕ) (p n : ℕ)
    → p ≡ length pre
    → n ≡ length xs
    → read_bytes (pre ++ (xs ++ post)) p n ≡ some xs
read_bytes-middle pre xs post p n hp hn = rw (hp, hn, drop-append) (prefix-append xs post)

pub length-le_bytes : (w n : ℕ) → length (le_bytes w n) ≡ w
length-le_bytes zero n = refl
length-le_bytes (suc w) n = ap suc (length-le_bytes w (n / 256))

pub length-words_bytes : (w : ℕ) (ns : List ℕ) → length (words_bytes w ns) ≡ length ns * w
length-words_bytes w [] = omega arith
length-words_bytes w (n ∷ ns) = grind (
  arith,
  length-append (le_bytes w n) (words_bytes w ns),
  length-le_bytes w n,
  length-words_bytes w ns,
)

pub le_value-int : (n : ℕ) → n < 2 ^ 32 → le_value (le_bytes 4 n) ≡ n
le_value-int n h = omega arith

pub le_value-u64 : (n : ℕ) → n < 2 ^ 64 → le_value (le_bytes 8 n) ≡ n
le_value-u64 n h = omega arith

-- Word i of an array that stands at position p.
pub read_bytes-words :
    (w : ℕ) (ns pre post : List ℕ) (i p : ℕ)
    → i < length ns
    → p ≡ length pre + i * w
    → read_bytes (pre ++ (words_bytes w ns ++ post)) p w ≡ some (le_bytes w (get_or ns i 0))
read_bytes-words w [] pre post i p h e = absurd (omega arith)
read_bytes-words w (n ∷ ns) pre post zero p h e =
    rw (append_assoc (le_bytes w n) (words_bytes w ns) post) (
      read_bytes-middle pre (le_bytes w n) (words_bytes w ns ++ post) p w (omega arith)
        (sym (length-le_bytes w n)))
read_bytes-words w (n ∷ ns) pre post (suc i) p h e =
    rw
      (
        append_assoc (le_bytes w n) (words_bytes w ns) post,
        ← append_assoc pre (le_bytes w n) (words_bytes w ns ++ post),
      )
      (read_bytes-words w ns (pre ++ le_bytes w n) post i p (omega arith)
        (grind (arith, length-append pre (le_bytes w n), length-le_bytes w n)))

module _ {ℓ} {A : Type ℓ} where
  prefix-split : (n : ℕ) (xs ys : List A) → prefix n xs ≡ some ys → (zs : List A) × (xs ≡ ys ++ zs)
  prefix-split zero xs ys e = (xs, ap (λ l. l ++ xs) (some-injective _ _ e))
  prefix-split (suc n) [] ys e = absurd (cc)
  prefix-split (suc n) (x ∷ xs) ys e = elim (Option-cases (prefix n xs)) [
    | inl none_left ↦ absurd (ground (arith, none_left))
    | inr (front, found) ↦
        let (zs, whole) = prefix-split n xs front found in
        let same : x ∷ front ≡ ys =
          some-injective _ _ (sym (ap (Option.map (λ l. x ∷ l)) found) ∙ e) in
        (zs, ap (λ l. x ∷ l) whole ∙ ap (λ l. l ++ zs) same)
  ]

  drop-nil : (n : ℕ) → drop {A = A} n [] ≡ []
  drop-nil zero = refl
  drop-nil (suc n) = refl

  pub drop_add : (a b : ℕ) (xs : List A) → drop (a + b) xs ≡ drop b (drop a xs)
  drop_add zero b xs = ap (λ n. drop n xs) (omega arith)
  drop_add (suc a) b [] = drop-nil (suc a + b) ∙ sym (drop-nil b)
  drop_add (suc a) b (x ∷ xs) =
      let next : suc a + b ≡ suc (a + b) = omega arith in
      ap (λ n. drop n (x ∷ xs)) next ∙ drop_add a b xs

-- A part of what was read can be read by itself.
pub read_bytes-part :
    (block bs pre mid post : List ℕ) (p n q m : ℕ)
    → read_bytes block p n ≡ some bs
    → bs ≡ pre ++ (mid ++ post)
    → q ≡ p + length pre
    → m ≡ length mid
    → read_bytes block q m ≡ some mid
read_bytes-part block bs pre mid post p n q m read parts at size =
    let (zs, whole) = prefix-split n (drop p block) bs read in
    let cut : drop p block ≡ pre ++ (mid ++ (post ++ zs)) =
      whole ∙ ap (λ l. l ++ zs) parts ∙ simp append_assoc in
    ap₂ (λ i k. prefix k (drop i block)) at size
    ∙ ap (prefix (length mid)) (drop_add p (length pre) block ∙ ap (drop (length pre)) cut)
    ∙ read_bytes-middle pre mid (post ++ zs) (length pre) (length mid) refl refl
