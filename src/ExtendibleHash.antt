-- ===== src/ExtendibleHash.antt =====
-- ExtendibleHash (src/storage/dram/extendible_hash.{h,cpp}, src/storage/hybrid/pair.h): the DRAM
-- index, in the configuration that the build uses (LSB, not INPLACE), run by one thread. Blocks
-- live on a heap and the directory holds their addresses, so that several entries share a block.
-- `clflush` and `mfence` have no effect on what is read, and are left out.
pub mod Power
pub mod Slots
pub mod Block
pub mod Directory
pub mod Ops
pub mod Invariant
pub mod Storing
pub mod Splits
pub mod Put
pub mod Removing
pub mod Creation
mod Examples
