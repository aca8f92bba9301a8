-- ===== src/Chunk/Counting.antt =====
-- The counter of a chunk agrees with its map, so that `Full` is right.
use rec_store.Prelude.{
  ℕ, zero, suc, ◌+◌, ◌-◌, ◌*◌, ◌/◌, ◌≤◌, ◌<◌, ◌≡◌, ◌⊎◌, inl, inr, refl, ap, ◌∙◌, arith, true, false,
  none, some, ◌==◌, if◌then◌else◌, dec_lt, Bool-cases,
}
use rec_store.Prelude.Int.{pos, pred_int}
use native.Mathlib.Nat.{mul-div_cancel}
use rec_store.Bitmap.{BitMap, get, put, clear, count_ones, number_of_ones, set_zero_pos}
use rec_store.Bitmap.Laws
use rec_store.Bitmap.Laws.{put-IsValid, clear-IsValid, get-clear}
use rec_store.Bitmap.Count.{number_of_ones-put-clear}
use rec_store.Bitmap.Search.{set_zero_pos_lem}
use rec_store.Chunk.{
  Chunk, recovery, entry, entry_id, header_size, after_search, take_entry, malloc, free_entry,
  is_full,
}

-- After a recovery the counter is the number of set bits.
pub record IsValid (c : Chunk) : Type 0 where
  pub map : Laws.IsValid c.bitmap
  pub counted : c.is_recovered ≡ true → c.allocated_entries ≡ pos (number_of_ones c.bitmap)
  pub positive : 0 < c.slab_size

count_ones-all :
    (b : BitMap) (k i : ℕ) → ((j : ℕ) → i ≤ j → j < i + k → get b j ≡ true) → count_ones b k i ≡ k
unfolding count_ones
count_ones-all b zero i h = refl
count_ones-all b (suc k) i h = ground (
  arith,
  h i (omega arith) (omega arith),
  count_ones-all b k (i + 1) (λ j a l. h j (omega arith) (omega arith)),
)

count_ones-le : (b : BitMap) (k i : ℕ) → count_ones b k i ≤ k
unfolding count_ones
count_ones-le b zero i = omega arith
count_ones-le b (suc k) i = ground (arith, count_ones-le b k (i + 1))

count_ones-lt :
    (b : BitMap) (k i j : ℕ) → i ≤ j → j < i + k → get b j ≡ false → count_ones b k i < k
unfolding count_ones
count_ones-lt b zero i j a l e = absurd (omega arith)
count_ones-lt b (suc k) i j a l e = elim (dec_lt i j) [
  | yes later ↦ ground (arith, count_ones-lt b k (i + 1) j (omega arith) (omega arith) e)
  | no here ↦
      let z : i ≡ j = omega arith in
      let c : get b i ≡ false = rw (← z) at e in ground (arith, count_ones-le b k (i + 1))
]

-- The chunk after its recovery.
abbrev pub ready : Chunk → Chunk
ready c = record c { allocated_entries = pos (number_of_ones c.bitmap); is_recovered = true }

recovery-ready : (c : Chunk) → IsValid c → recovery c ≡ ready c
unfolding recovery
recovery-ready c v = elim (Bool-cases c.is_recovered) [
  | inr e ↦ rw e refl
  | inl e ↦ rw e (
      ap (λ a. let d : Chunk = record c { allocated_entries = a; is_recovered = true } in d)
        (v.counted e))
]

-- The chunk with entry m given out.
abbrev pub given : Chunk → ℕ → Chunk
given c m = record c {
  bitmap = put c.bitmap m;
  allocated_entries = pos (suc (number_of_ones c.bitmap));
  is_recovered = true;
}

malloc-ready : (c : Chunk) → IsValid c → malloc c ≡ after_search (ready c) (set_zero_pos c.bitmap)
unfolding malloc
malloc-ready c v = ap take_entry (recovery-ready c v)

-- `Malloc` on a valid chunk recovers it, if need be; then either `Full` holds, every entry is given
-- out and the result is null, or `Full` does not hold and the result is an entry that was free, whose
-- bit is set and counted in a chunk that stays valid.
pub malloc_lem :
    (c : Chunk) (v : IsValid c)
    → ((is_full (ready c) ≡ true)
        × (malloc c ≡ (none, ready c))
        × ((m : ℕ) → m < c.bitmap.n → get c.bitmap m ≡ true))
      ⊎ ((is_full (ready c) ≡ false)
          × (m : ℕ) × (m < c.bitmap.n)
          × (get c.bitmap m ≡ false)
          × (malloc c ≡ (some (entry c m), given c m))
          × IsValid (given c m))
unfolding is_full number_of_ones
malloc_lem c v = elim (set_zero_pos_lem c.bitmap v.map).1 [
  | inl (e, all) ↦
      let full = count_ones-all c.bitmap c.bitmap.n 0 (λ j a l. all j (omega arith)) in
      inl (ground (arith, full), malloc-ready c v ∙ ap (after_search (ready c)) e, all)
  | inr (m, e, inside, unset, below) ↦
      let room = count_ones-lt c.bitmap c.bitmap.n 0 m (omega arith) (omega arith) unset in
      let more = (number_of_ones-put-clear c.bitmap m v.map inside).0 in
      inr (
        ground (arith, room),
        m,
        inside,
        unset,
        malloc-ready c v ∙ ap (after_search (ready c)) e,
        record {
          map = put-IsValid c.bitmap m v.map;
          counted = λ r. ap pos (ground (arith, more));
          positive = v.positive;
        },
      )
]

-- `Free` of an entry that is given out, on a valid chunk, makes that entry free, leaves the other
-- bits, and keeps the chunk valid.
pub free_entry_lem :
    (c : Chunk) (v : IsValid c) (m : ℕ)
    → m < c.bitmap.n
    → get c.bitmap m ≡ true
    → IsValid (free_entry c (entry c m))
      × ((q : ℕ)
          → get (free_entry c (entry c m)).bitmap q ≡ (if m == q then false else get c.bitmap q))
unfolding free_entry
free_entry_lem c v m inside taken =
    let b = c.bitmap in
    let same : entry_id (ready c) (entry c m) ≡ m = offset-entry in
    let less = (number_of_ones-put-clear b m v.map inside).1 in
    rw (recovery-ready c v, same)
      (
        record {
          map = clear-IsValid b m v.map;
          counted =
              λ r. pred_pos (number_of_ones b) (number_of_ones (clear b m)) (ground (arith, less));
          positive = v.positive;
        },
        λ q. get-clear b m q v.map inside,
      )
  where
    offset-entry : entry_id (ready c) (entry c m) ≡ m
    offset-entry =
        let e : entry c m - header_size c.bitmap.n ≡ m * c.slab_size = omega arith in
        ap (λ x. x / c.slab_size) e ∙ mul-div_cancel m v.positive

    pred_pos : (a b : ℕ) → b + 1 ≡ a → pred_int (pos a) ≡ pos b
    pred_pos zero b h = absurd (omega arith)
    pred_pos (suc a) b h = ap pos (omega arith)
