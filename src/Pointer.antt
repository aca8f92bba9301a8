-- ===== src/Pointer.antt =====
-- UnifiedPointer (src/storage/hybrid/pointer.h): a 64-bit word that holds a kind in its two upper
-- bits and a 62-bit value below. A failed `assert` aborts, and is `none` here.
pub mod Codec
mod Examples
use rec_store.Prelude.{
  ℕ, ◌+◌, ◌-◌, ◌*◌, ◌/◌, ◌^◌, bit_and, bit_or, Bool, true, false, not, Option, none, some, ◌==◌,
  if◌then◌else◌,
}

-- `UnifiedPointer::Type`
pub data PointerType : Type 0 where
  invalid memory disk p_mem : PointerType

pub record UnifiedPointer : Type 0 where
  pub raw : ℕ

-- `static_cast<uint64_t>(Type)`
unfoldable pub to_code : PointerType → ℕ
to_code PointerType.invalid = 0
to_code PointerType.memory = 1
to_code PointerType.disk = 2
to_code PointerType.p_mem = 3

-- `static_cast<Type>`, of a number below 4
unfoldable pub of_code : ℕ → PointerType
of_code c =
    if c == 0
    then PointerType.invalid
    else if c == 1
    then PointerType.memory
    else if c == 2
    then PointerType.disk
    else PointerType.p_mem

abbrev pub value_mask : ℕ
value_mask = 2 ^ 62 - 1

-- `FromInvalid`, and the default constructor
unfoldable pub from_invalid : UnifiedPointer
unfolding to_code
from_invalid = record { raw = to_code PointerType.invalid * 2 ^ 62 }

unfoldable pub from_raw : ℕ → UnifiedPointer
from_raw raw = record { raw = raw }

-- `set` on a fresh pointer, its assertion on the 62-bit range included
unfoldable pub set : PointerType → ℕ → Option UnifiedPointer
unfolding to_code
set t v =
    if bit_and v (2 ^ 64 - 1 - value_mask) == 0
    then some (record { raw = bit_or (to_code t * 2 ^ 62) v })
    else none

unfoldable pub from_memory : ℕ → Option UnifiedPointer
from_memory ptr = set PointerType.memory ptr

unfoldable pub from_disk_page_id : ℕ → Option UnifiedPointer
from_disk_page_id page_id = set PointerType.disk page_id

unfoldable pub from_p_mem : ℕ → Option UnifiedPointer
from_p_mem offset = set PointerType.p_mem offset

unfoldable pub type : UnifiedPointer → PointerType
unfolding of_code
type p = of_code (bit_and (p.raw / 2 ^ 62) 3)

unfoldable pub value : UnifiedPointer → ℕ
value p = bit_and p.raw value_mask

-- `explicit operator bool`
unfoldable pub is_valid : UnifiedPointer → Bool
is_valid p = elim (type p) [ PointerType.invalid ↦ false | _ ↦ true ]

-- the three checked readers
unfoldable pub as_memory_pointer : UnifiedPointer → Option ℕ
as_memory_pointer p = elim (type p) [ PointerType.memory ↦ some (value p) | _ ↦ none ]

unfoldable pub as_disk_page_id : UnifiedPointer → Option ℕ
as_disk_page_id p = elim (type p) [ PointerType.disk ↦ some (value p) | _ ↦ none ]

unfoldable pub as_p_mem_offset : UnifiedPointer → Option ℕ
as_p_mem_offset p = elim (type p) [ PointerType.p_mem ↦ some (value p) | _ ↦ none ]
