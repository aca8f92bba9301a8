-- ===== src/Slab.antt =====
-- PersistLoopShmMalloc (src/memory/allocators/persist_loop_slab_allocator.{h,cc}): blocks of eight
-- bytes in a shared-memory file. An allocation is a header block, which holds its size and whose
-- bit is clear, and the blocks behind it, whose bits are set. The file is one list of words, first
-- the bits and then the blocks, so that a read of bit block_num reads the first block, as in the
-- source. Pointers are byte offsets from data_. Locks, flushes and the statistics of Counter are
-- left out; sizes are below 2 ^ 31 - 7, where the int arithmetic does not overflow.
pub mod State
pub mod Allocate
pub mod Release
pub mod Bits
pub mod Search
pub mod Invariant
pub mod Sizing
pub mod Taking
pub mod Fast
pub mod Releasing
pub mod Listing
pub mod Recovery
mod Examples
