-- ===== src/Slab/Bits.antt =====
-- Reads of the bits after the loops over UseBlock and FreeBlock.
use rec_store.Prelude.{
  ℕ, zero, suc, ◌+◌, ◌*◌, ◌/◌, ◌%◌, ◌^◌, ◌≤◌, ◌<◌, ◌≡◌, refl, ◌∙◌, arith, Bool, true, false, not,
  ◌&&◌, some, List, ◌==◌, ltb, leb, if◌then◌else◌, get_or, set, length, length-set, get_or-set,
}
use rec_store.Prelude.Bits.{bit, bit-le, bit_and-pow, pow-pos}
use rec_store.Bitmap.{set_bit, clear_bit}
use rec_store.Bitmap.Words.{bit-set_bit, bit-clear_bit}
use rec_store.Slab.State.{is_used, use_block, free_block, use_blocks, free_blocks}
use rec_store.Slab.Allocate.{use_checked}

is_used-bit : (ws : List ℕ) (i : ℕ) → is_used ws i ≡ (bit (get_or ws (i / 64) 0) (i % 64) == 1)
unfolding is_used
is_used-bit ws i =
    let w = get_or ws (i / 64) 0 in
    rw (bit_and-pow w (i % 64))
      (one_or_zero (bit w (i % 64)) (2 ^ (i % 64)) (bit-le w (i % 64)) (pow-pos (i % 64)))
  where
    one_or_zero : (b p : ℕ) → b ≤ 1 → 0 < p → not (b * p == 0) ≡ (b == 1)
    one_or_zero zero p l h = ground arith
    one_or_zero (suc zero) p l h = ground arith
    one_or_zero (suc (suc b)) p l h = absurd (omega arith)

pub is_used-write :
    (ws : List ℕ) (p v j : ℕ) → p < length ws → j / 64 < p → is_used (set ws p v) j ≡ is_used ws j
unfolding is_used
is_used-write ws p v j inside h =
    let same : get_or (set ws p v) (j / 64) 0 ≡ get_or ws (j / 64) 0 =
      ground (arith, get_or-set ws p (j / 64) v 0 inside) in
    rw same

module _ (ws : List ℕ) (i j : ℕ) (inside : i / 64 < length ws) where
  is_used-use_block : is_used (use_block ws i) j ≡ (if i == j then true else is_used ws j)
  unfolding use_block
  is_used-use_block =
      let w = get_or ws (i / 64) 0 in
      rw
        (
          is_used-bit (use_block ws i) j,
          is_used-bit ws j,
          get_or-set ws (i / 64) (j / 64) (set_bit w (i % 64)) 0 inside,
        )
        (ground (arith, bit-set_bit w (i % 64) (j % 64)))

  is_used-free_block : is_used (free_block ws i) j ≡ (if i == j then false else is_used ws j)
  unfolding free_block
  is_used-free_block =
      let w = get_or ws (i / 64) 0 in
      rw
        (
          is_used-bit (free_block ws i) j,
          is_used-bit ws j,
          get_or-set ws (i / 64) (j / 64) (clear_bit w (i % 64)) 0 inside,
        )
        (ground (arith, bit-clear_bit w (i % 64) (j % 64) (omega arith) (omega arith)))

abbrev pub between : ℕ → ℕ → ℕ → Bool
between i n j = leb i j && ltb j (i + n)

pub length-use_blocks : (n : ℕ) (ws : List ℕ) (i : ℕ) → length (use_blocks ws n i) ≡ length ws
unfolding use_blocks use_block
length-use_blocks zero ws i = refl
length-use_blocks (suc n) ws i =
    length-use_blocks n (use_block ws i) (i + 1) ∙ length-set ws (i / 64) _

pub length-free_blocks : (n : ℕ) (ws : List ℕ) (i : ℕ) → length (free_blocks ws n i) ≡ length ws
unfolding free_blocks free_block
length-free_blocks zero ws i = refl
length-free_blocks (suc n) ws i =
    length-free_blocks n (free_block ws i) (i + 1) ∙ length-set ws (i / 64) _

-- `UseBlock` on n blocks from i sets exactly these bits.
pub is_used-use_blocks :
    (n : ℕ) (ws : List ℕ) (i j : ℕ)
    → i + n ≤ length ws * 64
    → is_used (use_blocks ws n i) j ≡ (if between i n j then true else is_used ws j)
unfolding use_blocks
is_used-use_blocks zero ws i j h = ground arith
is_used-use_blocks (suc n) ws i j h =
    let same : length (use_block ws i) ≡ length ws = unfold use_block in length-set ws (i / 64) _ in
    ground (
      arith,
      is_used-use_blocks n (use_block ws i) (i + 1) j (omega (arith, same)),
      is_used-use_block ws i j (omega arith),
    )

-- `FreeBlock` on n blocks from i clears exactly these bits.
pub is_used-free_blocks :
    (n : ℕ) (ws : List ℕ) (i j : ℕ)
    → i + n ≤ length ws * 64
    → is_used (free_blocks ws n i) j ≡ (if between i n j then false else is_used ws j)
unfolding free_blocks
is_used-free_blocks zero ws i j h = ground arith
is_used-free_blocks (suc n) ws i j h =
    let same : length (free_block ws i) ≡ length ws =
      unfold free_block in length-set ws (i / 64) _ in
    ground (
      arith,
      is_used-free_blocks n (free_block ws i) (i + 1) j (omega (arith, same)),
      is_used-free_block ws i j (omega arith),
    )

-- The words behind the bits are not touched.
pub get_or-use_blocks :
    (n : ℕ) (ws : List ℕ) (i p : ℕ)
    → i + n ≤ length ws * 64
    → i + n ≤ p * 64
    → get_or (use_blocks ws n i) p 0 ≡ get_or ws p 0
unfolding use_blocks use_block
get_or-use_blocks zero ws i p h b = refl
get_or-use_blocks (suc n) ws i p h b =
    let same = length-set ws (i / 64) (set_bit (get_or ws (i / 64) 0) (i % 64)) in
    ground (
      arith,
      get_or-use_blocks n (use_block ws i) (i + 1) p (omega (arith, same)) (omega arith),
      get_or-set ws (i / 64) p (set_bit (get_or ws (i / 64) 0) (i % 64)) 0 (omega arith),
    )

pub get_or-free_blocks :
    (n : ℕ) (ws : List ℕ) (i p : ℕ)
    → i + n ≤ length ws * 64
    → i + n ≤ p * 64
    → get_or (free_blocks ws n i) p 0 ≡ get_or ws p 0
unfolding free_blocks free_block
get_or-free_blocks zero ws i p h b = refl
get_or-free_blocks (suc n) ws i p h b =
    let same = length-set ws (i / 64) (clear_bit (get_or ws (i / 64) 0) (i % 64)) in
    ground (
      arith,
      get_or-free_blocks n (free_block ws i) (i + 1) p (omega (arith, same)) (omega arith),
      get_or-set ws (i / 64) p (clear_bit (get_or ws (i / 64) 0) (i % 64)) 0 (omega arith),
    )

-- The CHECK of `New`'s loop holds if the blocks are unused.
pub use_checked-use_blocks :
    (n : ℕ) (ws : List ℕ) (i : ℕ)
    → i + n ≤ length ws * 64
    → ((j : ℕ) → i ≤ j → j < i + n → is_used ws j ≡ false)
    → use_checked ws n i ≡ some (use_blocks ws n i)
unfolding use_checked use_blocks
use_checked-use_blocks zero ws i h unused = refl
use_checked-use_blocks (suc n) ws i h unused =
    let same : length (use_block ws i) ≡ length ws = unfold use_block in length-set ws (i / 64) _ in
    rw (unused i (omega arith) (omega arith)) (
      use_checked-use_blocks n (use_block ws i) (i + 1) (omega (arith, same))
        (λ j a b. ground (arith, is_used-use_block ws i j (omega arith), unused j)))
