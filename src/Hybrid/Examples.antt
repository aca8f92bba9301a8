-- ===== src/Hybrid/Examples.antt =====
-- A store whose allocators give out the next addresses.
use rec_store.Prelude.{
  ℕ, ◌+◌, ◌*◌, ◌^◌, ◌≤◌, ◌<◌, ◌≡◌, ◌⊎◌, inl, inr, refl, arith, true, false, Option, none, some,
  List, [], ◌∷◌, update, leb, if◌then◌else◌, ℕ_discrete, Bool-cases,
}
use rec_store.Pointer
use rec_store.Pointer.{
  from_raw, to_code, type, set, from_disk_page_id, is_valid, as_memory_pointer, as_disk_page_id,
}
use rec_store.Hybrid.Lru.{Lru, new_lru, insert}
use rec_store.Hybrid.Lru.History.{Call, run, run-ideal}
use rec_store.Hybrid.Blocks.{write_at, block_bytes, BlockAt-write_at}
use rec_store.Hybrid.Inline.{inline_word, inline_value, inline_value-inline_word}
use rec_store.Hybrid.Allocator.{Allocator, Lawful, GaveNone, GaveBlock}
use rec_store.Hybrid.Side.{Side, Side-fresh}
use rec_store.Hybrid.Store.{Store, done, failed, write_disk, write_in_place, free_pointer}
use rec_store.Hybrid.Manager.{
  write_value, retrieve_value, evict_copy, finish_copy, Copy, swap_pointer, evict_round,
}
use rec_store.Hybrid.Invariant.{gone, in_memory, Keeps, Has}
use rec_store.Hybrid.Indexing.{indexed-Moved, indexed_at}
use rec_store.Hybrid.Serving.{retrieve_value-Retrieves}
use rec_store.Hybrid.Writing.{Written, write_value-Written}
use rec_store.Hybrid.Promoting.{evict_and_promote, any_hot, promote_keys, promote_one, forget}
use rec_store.Hybrid.Heating.{hot-Has}
use rec_store.Hybrid.Promotion.{Walked, evict_and_promote-Same}

-- The state is the next address.
abbrev bump : Allocator ℕ
bump = record {
  new = λ s n. some (if leb (s + n) (2 ^ 62) then (some s, s + n) else (none, s));
  free = λ s p. (true, s);
  offset = λ s p. some p;
}

abbrev Below : ℕ → (ℕ → ℕ) → Type 0
Below s live = (1 ≤ s) × ((q : ℕ) → 0 < live q → q + live q ≤ s)

bump-gives :
    (s : ℕ) (live : ℕ → ℕ) (size : ℕ)
    → Below s live
    → 0 < size
    → size < 2 ^ 17
    → GaveNone bump Below s size live ⊎ GaveBlock bump Below s size live
bump-gives s live size (pos, below) some_bytes small = elim (Bool-cases (leb (s + size) (2 ^ 62))) [
  | inr e ↦ inl (s, rw e refl, (pos, below))
  | inl e ↦ inr (
    s,
    size,
    s + size,
    rw e refl,
    omega arith,
    pos,
    ground (arith, e),
    λ q l. inl (below q l),
    (
      omega arith,
      λ q l. elim (ℕ_discrete s q) [
        | yes z ↦ ground (arith, z)
        | no ne ↦ ground (arith, ne, below q)
      ],
    ),
  )
]

bump-Lawful : Lawful bump Below
bump-Lawful = record {
  gives = bump-gives;
  counts = λ s live p owns l. refl;
  takes = λ s live p owns l. (owns.0, λ q h. let b = owns.1 q in ground (arith, b));
}

abbrev empty : Store ℕ ℕ
empty = record {
  index = λ k. 0;
  shm_manage = 16;
  memory = λ a. 0;
  ssd_manage = 16;
  disk = λ a. 0;
  lru = new_lru 4096;
  hot = λ k. none;
  shm_used_bytes = 0;
  low_watermark = 4;
  shm_capacity = 1024;
}

abbrev nothing : ℕ → List ℕ
nothing k = []

abbrev no_blocks : ℕ → ℕ
no_blocks q = 0

empty-Side : Side (λ a. 0) no_blocks (λ k. none) nothing
empty-Side = record {
  placed = λ k a e. absurd (cc e);
  unique = λ k j a e f. absurd (cc e);
  spaced = λ a b la lb ne. absurd (omega arith);
}

abbrev old_value : List ℕ
old_value = 1 ∷ 2 ∷ 3 ∷ 4 ∷ 5 ∷ 6 ∷ 7 ∷ 8 ∷ []

-- Key 5 has its value in memory, at address 16.
abbrev filled : Store ℕ ℕ
filled = record empty {
  memory = write_at (λ a. 0) 16 (block_bytes old_value);
  shm_manage = 26;
  shm_used_bytes = 10;
}

filled-Keeps : Keeps Below Below filled (λ k. gone) (update no_blocks 16 10) no_blocks nothing
unfolding to_code
filled-Keeps = record {
  owns_shm = (omega arith, λ q l. ground arith);
  owns_ssd = (omega arith, λ q l. absurd (omega arith));
  indexed = λ k. refl;
  suits = λ k. refl;
  memory =
      Side-fresh empty-Side 16 10 (block_bytes old_value) (λ q l. absurd (omega arith))
        (omega arith) (omega arith);
  disk = empty-Side;
  lru = record { positive = omega arith; bounded = omega arith; distinct = tt; known = λ k. refl };
}

one-Keeps :
    Keeps Below Below
      (indexed_at bump bump Below Below bump-Lawful bump-Lawful filled-Keeps 5 (in_memory 16))
      (update (λ k. gone) 5 (in_memory 16))
      (update no_blocks 16 10)
      no_blocks
      (update nothing 5 old_value)
one-Keeps =
    indexed-Moved bump bump Below Below bump-Lawful bump-Lawful filled-Keeps 5 (in_memory 16)
      old_value
      (
        (omega arith, omega arith, inr (omega arith)),
        omega arith,
        BlockAt-write_at (λ a. 0) 16 old_value (omega arith),
        λ k e. cc e,
      )

abbrev one : Store ℕ ℕ
unfolding to_code
one = record filled { index = update (λ k. 0) 5 (1 * 2 ^ 62 + 16) }

abbrev same_hash : ℕ → ℕ
same_hash k = k

retrieve_value-Retrieves_example :
    (t : Store ℕ ℕ) × (retrieve_value bump bump same_hash one 5 ≡ some (old_value, t))
    × Has Below Below t (update nothing 5 old_value)
unfolding to_code
retrieve_value-Retrieves_example =
    retrieve_value-Retrieves bump bump same_hash Below Below bump-Lawful bump-Lawful {s = one}
      one-Keeps 5

write_value-Written_example :
    Written bump bump same_hash Below Below bump-Lawful bump-Lawful
      (write_value bump bump same_hash one 5 (9 ∷ 9 ∷ []) done (λ s. s) false)
      (update nothing 5 old_value)
      5
      (9 ∷ 9 ∷ [])
      done
      false
unfolding to_code
write_value-Written_example =
    write_value-Written bump bump same_hash Below Below bump-Lawful bump-Lawful {s = one} one-Keeps
      5 (9 ∷ 9 ∷ []) done (λ s. s) false (omega arith) (λ u h. h)

-- The walk meets a key that was read often, whose value is in memory: it erases the key's count, and
-- advances the iterator to it.
abbrev hot_one : Store ℕ ℕ
hot_one = record one { hot = update (λ k. none) 5 (some 8) }

walk_dangles :
    promote_keys bump bump same_hash 512 hot_one (5 ∷ 6 ∷ [])
    ≡ some (true, forget bump bump same_hash hot_one 5)
unfolding promote_keys promote_one type to_code from_raw
walk_dangles = refl

hot_one-Has : Has Below Below hot_one (update nothing 5 old_value)
unfolding to_code
hot_one-Has =
    hot-Has bump bump same_hash Below Below bump-Lawful bump-Lawful one (update nothing 5 old_value)
      hot_one.hot (_, _, _, one-Keeps)

evict_and_promote-Same_example :
    (t : Store ℕ ℕ) × (evict_round bump bump same_hash hot_one (λ k. failed 3) ≡ some t)
    × Walked bump bump same_hash Below Below bump-Lawful bump-Lawful
        (evict_and_promote bump bump same_hash hot_one (λ k. failed 3) (5 ∷ []) [])
        (any_hot 512 t.hot (5 ∷ []))
        (update nothing 5 old_value)
evict_and_promote-Same_example =
    evict_and_promote-Same bump bump same_hash Below Below bump-Lawful bump-Lawful {s = hot_one}
      hot_one-Has.3 (λ k. failed 3) (5 ∷ []) []

inline_value-inline_word_example :
    (inline_value (inline_word (1 ∷ 2 ∷ 3 ∷ 4 ∷ 5 ∷ 6 ∷ 200 ∷ []))
      ≡ some (1 ∷ 2 ∷ 3 ∷ 4 ∷ 5 ∷ 6 ∷ 8 ∷ []))
    × (inline_word (1 ∷ 2 ∷ 3 ∷ 4 ∷ 5 ∷ 6 ∷ 200 ∷ []) < 2 ^ 62)
inline_value-inline_word_example =
    inline_value-inline_word (1 ∷ 2 ∷ 3 ∷ 4 ∷ 5 ∷ 6 ∷ 200 ∷ []) (omega arith) (omega arith)

abbrev used : List Call
used = Call.use_key 1 ∷ Call.use_key 2 ∷ Call.use_key 1 ∷ Call.use_key 3 ∷ Call.take_batch 1 ∷ []

run-ideal_example :
    (l : Lru) × (run used (new_lru 2) ≡ some ((1 ∷ []) ∷ [], l)) × (l.order ≡ 3 ∷ [])
run-ideal_example = run-ideal 2 used (omega arith)

abbrev newer : List ℕ
newer = 8 ∷ 7 ∷ 6 ∷ 5 ∷ 4 ∷ 3 ∷ 2 ∷ 1 ∷ []

abbrev written_between : Copy bump bump same_hash → Option (Copy bump bump same_hash)
unfolding write_value to_code
written_between (Copy.skipped s) = none
written_between (Copy.copied p q s) =
    elim (write_value bump bump same_hash s 5 newer done (λ t. t) false) [
      | none ↦ none
      | some r ↦ some (Copy.copied p q r.1)
    ]

abbrev lost : Option (List ℕ)
unfolding evict_copy retrieve_value written_between to_code write_value
lost = elim (evict_copy bump bump same_hash one 5 done) [
  | none ↦ none
  | some c ↦ elim (written_between c) [
    | none ↦ none
    | some c' ↦ elim (finish_copy bump bump same_hash 5 c') [
      | none ↦ none
      | some s ↦ elim (retrieve_value bump bump same_hash s 5) [ none ↦ none | some r ↦ some r.0 ]
    ]
  ]
]

-- A value that is written in place between the copy and the swap of the evicting thread is lost.
write_lost : lost ≡ some old_value
unfolding evict_copy retrieve_value to_code write_value type from_raw as_memory_pointer write_disk
    Pointer.value from_disk_page_id set is_valid write_in_place insert swap_pointer free_pointer
    as_disk_page_id
write_lost = refl
