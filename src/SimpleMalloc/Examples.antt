-- ===== src/SimpleMalloc/Examples.antt =====
-- The allocator's theorems on four slabs of eight bytes.
use rec_store.Prelude.{ℕ, ◌+◌, ◌≡◌, refl, arith, some, List, [], ◌∷◌, leb, if◌then◌else◌}
use rec_store.SimpleMalloc.{SimpleMalloc, create, initialize, new}
use rec_store.SimpleMalloc.Turns.{IsValid, Gives, new-Gives, new-repeats}

abbrev sizes : List ℕ
sizes = 0 ∷ 0 ∷ 0 ∷ 0 ∷ []

abbrev four : SimpleMalloc
four = record {
  memory_size = 32;
  slab_size = 8;
  allocated = 8;
  nr_malloc = 0;
  meta_data_block = sizes;
}

four-IsValid : IsValid four
four-IsValid = record {
  positive = omega arith;
  room = omega arith;
  turn = 1;
  aligned = refl;
  table = λ i l. omega arith;
}

new-Gives_example :
    (t : SimpleMalloc) × (new four 8 ≡ some (if leb 32 (8 + 8) then 0 else 8, t))
    × Gives four (if leb 32 (8 + 8) then 0 else 8) t
new-Gives_example = new-Gives four four-IsValid

abbrev at_end : SimpleMalloc
at_end = record four { allocated = 24 }

new-repeats_example : (t u : SimpleMalloc) × (new at_end 8 ≡ some (0, t)) × (new t 8 ≡ some (0, u))
new-repeats_example = new-repeats at_end (omega arith) (omega arith)

create_run : create 32 8 sizes ≡ four
unfolding create initialize
create_run = refl
