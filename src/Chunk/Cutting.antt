-- ===== src/Chunk/Cutting.antt =====
-- `Use` cuts the chunk so that header, map and entries fit.
use rec_store.Prelude.{
  ℕ, zero, suc, ◌+◌, ◌-◌, ◌*◌, ◌/◌, ◌%◌, ◌≤◌, ◌<◌, ◌≡◌, refl, sym, ap, ◌∙◌, arith, true, false,
  some, ◌==◌, ltb, Bool-cases, inl, inr, replicate, get_or-replicate, dec_lt,
}
use rec_store.Prelude.Int.{pos}
use rec_store.Prelude.Bits.{bit, bit-zero}
use rec_store.Bitmap.{BitMap, number_of_ones, count_ones, get}
use rec_store.Bitmap.Laws.{replicate-IsValid, get-bit}
use rec_store.Chunk.{Chunk, chunk_size, header_size, fit_entries, rounded, use_chunk}
use rec_store.Chunk.Counting.{IsValid}

-- Entries that fit, 64 of them at least.
abbrev pub Fitting : ℕ → ℕ → Type 0
Fitting slab_size nr = (nr % 64 ≡ 0) × (64 ≤ nr) × (header_size nr + nr * slab_size ≤ chunk_size)

fit_entries-Fitting :
    (fuel slab_size j : ℕ)
    → 32 + 64 * slab_size ≤ chunk_size
    → 0 < j
    → j ≤ fuel
    → Fitting slab_size (fit_entries fuel slab_size (64 * j))
unfolding fit_entries
fit_entries-Fitting zero slab_size j room p l = absurd (omega arith)
fit_entries-Fitting (suc fuel) slab_size j room p l =
    elim (Bool-cases (ltb chunk_size (header_size (64 * j) + 64 * j * slab_size))) [
      | inr fits ↦ rw fits (omega arith, omega arith, ground arith)
      | inl over ↦
          let next : 64 * j - 64 ≡ 64 * (j - 1) = omega arith in
          let more : 0 < j - 1 = elim (dec_lt 1 j) [
            | yes m ↦ omega arith
            | no one ↦
                let e : j ≡ 1 = omega arith in
                absurd (let o = rw e at over in ground (arith, o, room))
          ] in
          rw (over, next) (fit_entries-Fitting fuel slab_size (j - 1) room more (omega arith))
    ]

count_ones-none : (b : BitMap) (k i : ℕ) → ((j : ℕ) → get b j ≡ false) → count_ones b k i ≡ 0
unfolding count_ones
count_ones-none b zero i h = refl
count_ones-none b (suc k) i h = ground (arith, h i, count_ones-none b k (i + 1) h)

abbrev blank : ℕ → BitMap
blank nr = record { n = nr; bits = replicate (nr / 64) 0 }

get-blank : (nr j : ℕ) → get (blank nr) j ≡ false
get-blank nr j =
    get-bit (blank nr) j
    ∙ ap (λ w. bit w (j % 64) == 1) (get_or-replicate (nr / 64) 0 (j / 64))
    ∙ rw (bit-zero (j % 64)) refl

fresh-IsValid :
    (slab_size nr : ℕ)
    → 0 < slab_size
    → nr % 64 ≡ 0
    → IsValid (record {
      slab_size = slab_size;
      bitmap = record { n = nr; bits = replicate (nr / 64) 0 };
      allocated_entries = pos 0;
      is_recovered = true;
    })
fresh-IsValid slab_size nr p whole = record {
  map = replicate-IsValid nr whole;
  counted =
      λ r. ap pos (sym (unfold number_of_ones in count_ones-none (blank nr) nr 0 (get-blank nr)));
  positive = p;
}

-- `Use` of a slab size of which 64 fit beside the header, at most a 64th of the chunk, succeeds: the
-- chunk is valid with no entry given out, it has a whole number of map words and 64 entries at
-- least, and the header, the map and the entries stay within the chunk.
pub use_chunk_lem :
    (slab_size : ℕ)
    → 0 < slab_size
    → 64 ≤ chunk_size / slab_size
    → 32 + 64 * slab_size ≤ chunk_size
    → (c : Chunk) × (use_chunk slab_size ≡ some c)
      × IsValid c
      × (c.slab_size ≡ slab_size)
      × (c.allocated_entries ≡ pos 0)
      × Fitting slab_size c.bitmap.n
unfolding use_chunk
use_chunk_lem slab_size p many room =
    let start : 64 * (rounded slab_size / 64) ≡ rounded slab_size = omega arith in
    let nr = fit_entries (rounded slab_size / 64 + 1) slab_size (rounded slab_size) in
    let fitting : Fitting slab_size nr = rw start at (
      fit_entries-Fitting (rounded slab_size / 64 + 1) slab_size (rounded slab_size / 64) room
        (omega arith) (omega arith)) in
    let a : (slab_size == 0) ≡ false = ground arith in
    let b : (nr == 0) ≡ false = ground arith in
    (_, rw (a, b) refl, fresh-IsValid slab_size nr p fitting.0, refl, refl, fitting)
