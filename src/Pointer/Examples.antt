-- ===== src/Pointer/Examples.antt =====
-- The codec's theorems at concrete pointers, and runs of the pointer's operations.
use rec_store.Prelude.{◌+◌, ◌*◌, ◌^◌, ◌≤◌, ◌<◌, ◌≡◌, true, none, some, refl, arith}
use rec_store.Pointer.{
  PointerType, UnifiedPointer, to_code, set, from_memory, from_disk_page_id, from_p_mem, type,
  value, is_valid, as_memory_pointer, as_disk_page_id, as_p_mem_offset,
}
use rec_store.Pointer.Codec.{set-type_value, set-type_value_self, readers-from_kinds}

abbrev memory_word : UnifiedPointer
memory_word = record { raw = 2 ^ 62 + 4096 }

abbrev disk_word : UnifiedPointer
disk_word = record { raw = 2 * 2 ^ 62 + 4096 }

abbrev p_mem_word : UnifiedPointer
p_mem_word = record { raw = 3 * 2 ^ 62 + 4096 }

set-type_value_example :
    (4096 < 2 ^ 62
      → (p : UnifiedPointer) × (set PointerType.disk 4096 ≡ some p)
        × (type p ≡ PointerType.disk)
        × (value p ≡ 4096)
        × (p.raw < 2 ^ 64))
    × (2 ^ 62 ≤ 4096 → set PointerType.disk 4096 ≡ none)
set-type_value_example = set-type_value PointerType.disk 4096 (omega arith)

set-type_value_self_example : set (type p_mem_word) (value p_mem_word) ≡ some p_mem_word
set-type_value_self_example = set-type_value_self p_mem_word (omega arith)

from_memory_run : from_memory 4096 ≡ some memory_word
unfolding from_memory set to_code
from_memory_run = refl

from_disk_page_id_run : from_disk_page_id 4096 ≡ some disk_word
unfolding from_disk_page_id set to_code
from_disk_page_id_run = refl

from_p_mem_run : from_p_mem 4096 ≡ some p_mem_word
unfolding from_p_mem set to_code
from_p_mem_run = refl

readers-from_kinds_example :
    ((as_memory_pointer memory_word ≡ some 4096)
      × (as_memory_pointer disk_word ≡ none)
      × (as_memory_pointer p_mem_word ≡ none))
    × ((as_disk_page_id disk_word ≡ some 4096)
        × (as_disk_page_id memory_word ≡ none)
        × (as_disk_page_id p_mem_word ≡ none))
    × ((as_p_mem_offset p_mem_word ≡ some 4096)
        × (as_p_mem_offset memory_word ≡ none)
        × (as_p_mem_offset disk_word ≡ none))
    × ((is_valid memory_word ≡ true) × (is_valid disk_word ≡ true) × (is_valid p_mem_word ≡ true))
readers-from_kinds_example =
    readers-from_kinds 4096 (omega arith) memory_word disk_word p_mem_word from_memory_run
      from_disk_page_id_run from_p_mem_run
