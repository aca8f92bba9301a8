-- ===== src/ExtendibleHash/Block.antt =====
-- `Block`: 16 slots, the depth and the pattern that its keys' hashes share, and a counter of users
-- that is -1 while the block is being split.
use rec_store.Prelude.{
  ℕ, zero, suc, ◌+◌, ◌-◌, ◌%◌, ◌^◌, bit_and, Bool, true, false, not, Option, none, some, List, [],
  ◌∷◌, ◌==◌, if◌then◌else◌, replicate,
}
use rec_store.Prelude.Int.{ℤ, pos, negsuc, suc_int, pred_int, is_neg}
use rec_store.ExtendibleHash.Power.{mypow}
use rec_store.ExtendibleHash.Slots.{Pair, invalid, empty_pair, rewrite_first, insert4split}

-- `kBlockSize / sizeof(Pair)`
abbrev pub num_slot : ℕ
num_slot = 16

pub record Block : Type 0 where
  pub slots : List Pair
  pub local_depth : ℕ
  pub sema : ℤ
  pub pattern : ℕ

-- the constructor from a depth
unfoldable pub new_block : ℕ → Block
new_block depth = record {
  slots = replicate num_slot empty_pair;
  local_depth = depth;
  sema = pos 0;
  pattern = 0;
}

-- `(size_t)mypow(2, local_depth) - 1`, with the conversion of the depth to unsigned int
abbrev pub depth_mask : ℕ → ℕ
depth_mask d = mypow 2 (d % 2 ^ 32) - 1

-- The two loops of `Insert`: a slot with the key gets the new value; else the first free slot is
-- taken (its key is SENTINEL for the moment between the two writes). -1 when the block is full.
unfoldable pub store : ℕ → ℕ → List Pair → ℤ × List Pair
store key value slots =
    let written : Pair = record { key = key; value = value } in
    elim (rewrite_first key (λ s. record s { value = value }) slots) [
      | some (i, ss) ↦ (pos i, ss)
      | none ↦ elim (rewrite_first invalid (λ s. written) slots) [
        | some (i, ss) ↦ (pos i, ss)
        | none ↦ (negsuc 0, slots)
      ]
    ]

-- `Block::Insert`: -2 when the block is being split or is not the key's, else what `store` returns.
-- The counter is taken before the loops and given back after them.
unfoldable pub insert : Block → ℕ → ℕ → ℕ → ℤ × Block
unfolding store
insert b key value key_hash =
    if is_neg b.sema
    then (negsuc 1, b)
    else if not (bit_and key_hash (depth_mask b.local_depth) == b.pattern)
    then (negsuc 1, b)
    else (let taken = suc_int b.sema in
        let (ret, ss) = store key value b.slots in
        (ret, record b { slots = ss; sema = pred_int taken }))

module _ (h : ℕ → ℕ) where
  -- the loop of `Split`
  unfoldable pub split_loop : ℕ → List Pair → List Pair → List Pair → List Pair × List Pair
  split_loop d [] s0 s1 = (s0, s1)
  split_loop d (s ∷ ss) s0 s1 =
      let upper = not (bit_and (h s.key) (2 ^ d) == 0) in
      split_loop d ss (if upper then s0 else insert4split s.key s.value s0)
        (if upper then insert4split s.key s.value s1 else s1)

  -- `Split`: the compare-and-swap of the counter from 0 to -1 comes first; a null pointer is
  -- `none`. The result is the block, now closed, and the two new blocks.
  unfoldable pub split : Block → Option (Block × Block × Block)
  unfolding new_block
  split b = elim b.sema [
    | negsuc n ↦ none
    | pos (suc n) ↦ none
    | pos zero ↦
        (let fresh = new_block (b.local_depth + 1) in
          let (s0, s1) = split_loop b.local_depth b.slots fresh.slots fresh.slots in
          some (
            record b { sema = negsuc 0 },
            record fresh { slots = s0 },
            record fresh { slots = s1 },
          ))
  ]

-- `Block::Delete`: the first slot with the key becomes free, and keeps its value.
unfoldable pub delete : Block → ℕ → Bool × Block
delete b key =
    if is_neg b.sema
    then (false, b)
    else (let taken = suc_int b.sema in
        elim (rewrite_first key (λ s. record s { key = invalid }) b.slots) [
          | some (i, ss) ↦ (true, record b { slots = ss; sema = pred_int taken })
          | none ↦ (false, record b { sema = pred_int taken })
        ])
