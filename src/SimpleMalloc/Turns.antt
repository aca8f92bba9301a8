-- ===== src/SimpleMalloc/Turns.antt =====
-- What `New` gives out, and in which order.
use rec_store.Prelude.{
  ℕ, ◌+◌, ◌*◌, ◌/◌, ◌≤◌, ◌<◌, ◌≡◌, refl, ap, ◌∙◌, arith, true, false, some, ◌==◌, leb, ltb, length,
  if◌then◌else◌, get_or-set, length-set, dec_lt, set,
}
use native.Mathlib.Nat.{mul-div_cancel, div-eq_of_lt, add-mul}
use rec_store.SimpleMalloc.{SimpleMalloc, new, get_malloc_size}

-- The state is at the start of a slab, and the table has an entry for every slab.
pub record IsValid (s : SimpleMalloc) : Type 0 where
  pub positive : 0 < s.slab_size
  pub room : s.slab_size ≤ s.memory_size
  pub turn : ℕ
  pub aligned : s.allocated ≡ turn * s.slab_size
  pub table : (i : ℕ) → i * s.slab_size + s.slab_size ≤ s.memory_size → i < length s.meta_data_block

abbrev pub advanced : SimpleMalloc → SimpleMalloc
advanced s = record s {
  allocated = s.allocated + s.slab_size;
  nr_malloc = s.nr_malloc + 1;
  meta_data_block = set s.meta_data_block (s.allocated / s.slab_size) s.slab_size;
}

abbrev pub wrapped : SimpleMalloc → SimpleMalloc
wrapped s = record s {
  allocated = 0;
  nr_malloc = s.nr_malloc + 1;
  meta_data_block = set s.meta_data_block (0 / s.slab_size) s.slab_size;
}

new-advanced :
    (s : SimpleMalloc)
    → s.allocated + s.slab_size < s.memory_size
    → new s s.slab_size ≡ some (s.allocated, advanced s)
unfolding new
new-advanced s l =
    let a : leb s.memory_size (s.allocated + s.slab_size) ≡ false = ground arith in
    let b : ltb s.memory_size (s.allocated + s.slab_size) ≡ false = ground arith in
    let c : (s.slab_size == s.slab_size) ≡ true = ground arith in rw (a, b, c) refl

new-wrapped :
    (s : SimpleMalloc)
    → s.slab_size ≤ s.memory_size
    → s.memory_size ≤ s.allocated + s.slab_size
    → new s s.slab_size ≡ some (0, wrapped s)
unfolding new
new-wrapped s r l =
    let a : leb s.memory_size (s.allocated + s.slab_size) ≡ true = ground arith in
    let b : ltb s.memory_size (0 + s.slab_size) ≡ false = ground arith in
    let c : (s.slab_size == s.slab_size) ≡ true = ground arith in rw (a, b, c) refl

-- What `New` promises: a whole slab inside the memory, whose size can be read back.
pub record Gives (s : SimpleMalloc) (offset : ℕ) (t : SimpleMalloc) : Type 0 where
  pub inside : offset + s.slab_size ≤ s.memory_size
  pub sized : get_malloc_size t offset ≡ s.slab_size
  pub valid : IsValid t

-- `New` of the slab size on a valid state succeeds: it gives the next slab, or the first one where
-- the next would reach the end of the memory; the slab lies inside the memory, its size is recorded,
-- and the state stays valid.
pub new-Gives :
    (s : SimpleMalloc) (v : IsValid s)
    → (t : SimpleMalloc) × (new s s.slab_size
        ≡ some (if leb s.memory_size (s.allocated + s.slab_size) then 0 else s.allocated, t))
      × Gives s (if leb s.memory_size (s.allocated + s.slab_size) then 0 else s.allocated) t
unfolding get_malloc_size
new-Gives s v = elim (dec_lt (s.allocated + s.slab_size) s.memory_size) [
  | yes more ↦
      let a : leb s.memory_size (s.allocated + s.slab_size) ≡ false = ground arith in
      let index : s.allocated / s.slab_size ≡ v.turn =
        ap (λ x. x / s.slab_size) v.aligned ∙ mul-div_cancel v.turn v.positive in
      let known = v.table v.turn (omega (arith, v.aligned)) in
      rw a (
        advanced s,
        new-advanced s more,
        record {
          inside = omega arith;
          sized = ground (
            arith,
            get_or-set s.meta_data_block (s.allocated / s.slab_size) (s.allocated / s.slab_size)
                s.slab_size 0 (omega (arith, index, known)),
          );
          valid = record {
            positive = v.positive;
            room = v.room;
            turn = v.turn + 1;
            aligned = omega (arith, v.aligned, add-mul v.turn 1 s.slab_size);
            table = λ i l. rw length-set (v.table i l);
          };
        },
      )
  | no last ↦
      let a : leb s.memory_size (s.allocated + s.slab_size) ≡ true = ground arith in
      let index : 0 / s.slab_size ≡ 0 = div-eq_of_lt v.positive in
      let known = v.table 0 (omega (arith, v.room)) in
      rw a (
        wrapped s,
        new-wrapped s v.room (omega arith),
        record {
          inside = omega (arith, v.room);
          sized = ground (
            arith,
            get_or-set s.meta_data_block (0 / s.slab_size) (0 / s.slab_size) s.slab_size 0
                (omega (arith, index, known)),
          );
          valid = record {
            positive = v.positive;
            room = v.room;
            turn = 0;
            aligned = omega arith;
            table = λ i l. rw length-set (v.table i l);
          };
        },
      )
]

-- Where the next slab would reach the end of the memory, two calls of `New` in a row give out the
-- same slab, the first one.
pub new-repeats :
    (s : SimpleMalloc)
    → s.slab_size ≤ s.memory_size
    → s.memory_size ≤ s.allocated + s.slab_size
    → (t u : SimpleMalloc) × (new s s.slab_size ≡ some (0, t)) × (new t s.slab_size ≡ some (0, u))
new-repeats s room end =
    let t = wrapped s in
    elim (dec_lt s.slab_size s.memory_size) [
      | yes more ↦ (t, advanced t, new-wrapped s room end, new-advanced t (omega arith))
      | no single ↦ (t, wrapped t, new-wrapped s room end, new-wrapped t room (omega arith))
    ]
