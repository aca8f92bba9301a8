-- ===== src/Slab/State.antt =====
-- The allocator's state, its bits and its constructor.
use rec_store.Prelude.{
  ℕ, zero, suc, ◌+◌, ◌-◌, ◌*◌, ◌/◌, ◌%◌, ◌^◌, bit_and, Bool, true, false, not, List, [], ◌∷◌, ◌==◌,
  ltb, leb, if◌then◌else◌, get_or, set,
}
use rec_store.Prelude.Int.{ℤ, pos, negsuc}
use rec_store.Bitmap.{set_bit, clear_bit}

pub record Malloc : Type 0 where
  pub block_num : ℕ
  pub words : List ℕ
  pub last_malloc_block : ℕ
  pub total_used : ℕ
  pub total_malloc : ℕ
  pub enable_fast_malloc : Bool
  pub fast_malloc_lists : List (ℕ × List ℕ)

abbrev pub max_fast_list_type : ℕ
max_fast_list_type = 32

abbrev pub max_fast_list_num : ℕ
max_fast_list_num = 2 ^ 20

-- The loop of the constructor that finds the number of blocks, on fuel.
unfoldable pub grow : ℕ → ℕ → ℕ → ℕ
grow zero memory_size n = n
grow (suc fuel) memory_size n =
    let rest = grow fuel memory_size (n + 64) in
    if leb ((n + 64) / 8 + (n + 64) * 8) memory_size then rest else n

unfoldable pub zero_words : ℕ → List ℕ → List ℕ
zero_words zero ws = ws
zero_words (suc n) [] = []
zero_words (suc n) (w ∷ ws) = 0 ∷ zero_words n ws

unfoldable pub initialize : Malloc → Malloc
unfolding zero_words
initialize s = record s {
  total_used = 0;
  total_malloc = 0;
  last_malloc_block = 0;
  words = zero_words (s.block_num / 64) s.words;
}

-- The constructor on a mapped file of memory_size bytes; each round of the loop takes 520 of them.
unfoldable pub create : ℕ → List ℕ → Malloc
unfolding grow initialize
create memory_size file =
    let s : Malloc = record {
      block_num = grow (memory_size / 520 + 1) memory_size 0;
      words = file;
      last_malloc_block = 0;
      total_used = 0;
      total_malloc = 0;
      enable_fast_malloc = true;
      fast_malloc_lists = [];
    } in
    initialize s

-- `Used`, `UseBlock` and `FreeBlock` on the words of the file
unfoldable pub is_used : List ℕ → ℕ → Bool
is_used ws i = not (bit_and (get_or ws (i / 64) 0) (2 ^ (i % 64)) == 0)

unfoldable pub use_block : List ℕ → ℕ → List ℕ
use_block ws i = set ws (i / 64) (set_bit (get_or ws (i / 64) 0) (i % 64))

unfoldable pub free_block : List ℕ → ℕ → List ℕ
free_block ws i = set ws (i / 64) (clear_bit (get_or ws (i / 64) 0) (i % 64))

-- `Block()[i]`
abbrev pub block : Malloc → ℕ → ℕ
block s i = get_or s.words (s.block_num / 64 + i) 0

-- `BlockNum`, after the conversion of its argument to int: the sum wraps at 32 bits, and the shift
-- keeps the sign
unfoldable pub block_num_of : ℕ → ℤ
block_num_of size =
    let z = (size + 7) % 2 ^ 32 in
    if ltb z (2 ^ 31) then pos (z / 8) else negsuc ((2 ^ 32 - 1 - z) / 8)

-- the loops over UseBlock and FreeBlock, from index i
unfoldable pub use_blocks : List ℕ → ℕ → ℕ → List ℕ
use_blocks ws zero i = ws
use_blocks ws (suc n) i = use_blocks (use_block ws i) n (i + 1)

unfoldable pub free_blocks : List ℕ → ℕ → ℕ → List ℕ
free_blocks ws zero i = ws
free_blocks ws (suc n) i = free_blocks (free_block ws i) n (i + 1)

-- the loop of `UnusedMemoryValid`
unfoldable pub all_used : List ℕ → ℕ → ℕ → Bool
all_used ws zero i = true
all_used ws (suc n) i =
    let rest = all_used ws n (i + 1) in if not (is_used ws i) then false else rest

abbrev pub valid_sized : Malloc → ℕ → ℤ → Bool
valid_sized s i (negsuc n) = false
valid_sized s i (pos n) = if ltb s.block_num (i + 1 + n) then false else all_used s.words n (i + 1)

unfoldable pub unused_memory_valid : Malloc → ℕ → Bool
unfolding block_num_of all_used
unused_memory_valid s i = valid_sized s i (block_num_of (block s i))

-- The counters are int64.
abbrev pub add64 : ℕ → ℕ → ℕ
add64 a b = (a + b) % 2 ^ 64

abbrev pub sub64 : ℕ → ℕ → ℕ
sub64 a b = (a + (2 ^ 64 - b % 2 ^ 64)) % 2 ^ 64
