-- ===== src/ExtendibleHash/Power.antt =====
-- `mypow` of extendible_hash.cpp: powers in `uint64_t`, which saturate for powers of two.
use rec_store.Prelude.{
  ℕ, zero, suc, ◌-◌, ◌*◌, ◌/◌, ◌%◌, ◌^◌, bit_and, ◌==◌, leb, ltb, ◌&&◌, if◌then◌else◌,
}
use rec_store.Bitmap.{ctz}

-- `std::numeric_limits<uint64_t>::max()`
abbrev pub max_u64 : ℕ
max_u64 = 2 ^ 64 - 1

-- the last loop, on fuel that bounds the exponent
unfoldable pub mypow_loop : ℕ → ℕ → ℕ → ℕ → ℕ
mypow_loop zero base res e = res
mypow_loop (suc k) base res e =
    let res' = if e % 2 == 1 then res * base % 2 ^ 64 else res in
    let e' = e / 2 in
    let base' = if e' == 0 then base else base * base % 2 ^ 64 in
    let rest = mypow_loop k base' res' e' in if e == 0 then res else rest

-- x is a uint64_t and y an unsigned int; `k * 1u * y` wraps at 32 bits
unfoldable pub mypow : ℕ → ℕ → ℕ
mypow x y =
    if x == 2
    then (if leb 64 y then max_u64 else 2 ^ y)
    else if ltb 0 x && (bit_and x (x - 1) == 0)
    then (let shift = ctz x * y % 2 ^ 32 in if leb 64 shift then max_u64 else 2 ^ shift)
    else mypow_loop y x 1 y
