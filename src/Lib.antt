-- ===== src/Lib.antt =====
-- RecStore stores embedding parameters for recommendation models: a parameter server keeps rows
-- under 64-bit keys in a storage engine, which finds a row through an index and keeps it in memory
-- that a slab allocator hands out. This library models the DRAM extendible-hash index, the bit map
-- and the tagged pointer that the engine's parts share, the slab allocator and the chunks of the
-- memory pool, the key-value engine over these, the hybrid store that places values in memory or on
-- disk, the epochs by which memory is recycled, the wire format of rows, and the priority queue of
-- the training framework.
--
-- The parts, with their sources from the repository's root:
--   Bitmap (src/base/bitmap.h): BitMap, an array of 64-bit words; Get, Set, Clear, NumberOfOnes,
--     FirstZeroPos and SetZeroPos are get, put, clear, number_of_ones, first_zero_pos and
--     set_zero_pos. Words holds the laws of one word, Laws those of reads after writes, Search the
--     search for a clear bit, Count the counter.
--   Pointer (src/storage/hybrid/pointer.h): UnifiedPointer, a kind in two bits and a value in 62;
--     set, type, value and the builders and readers of each kind. Codec holds its theorems.
--   ExtendibleHash (src/storage/dram/extendible_hash.{h,cpp}, src/storage/hybrid/pair.h): the
--     index. Power is mypow; Slots the Pair array of a block and its loops; Block the operations of
--     Block; Directory LSBUpdate and the doubling; Ops the constructor, Insert, InsertOnly, Delete,
--     Get, BatchGet and BatchPut. Invariant states what an index satisfies between operations;
--     Storing, Splits, Put, Removing and Creation prove the operations against it.
--   Slab (src/memory/allocators/persist_loop_slab_allocator.{h,cc}, with the map of
--     src/base/hashtable.h): PersistLoopShmMalloc, blocks of eight bytes and a bit for each. State
--     is the constructor and the bits; Allocate is New; Release is Free, GetMallocsAppend,
--     AddMallocs4Recovery and the readers of sizes. Bits, Search and Sizing prove the loops,
--     Invariant states which allocations are live, and Taking, Fast, Releasing, Listing and
--     Recovery prove the operations against it.
--   Chunk (src/memory/allocators/persist_loop_slab_allocator.h): Chunk of PersistMemoryPool, two
--     mebibytes cut into entries of one size, with a Bitmap of those given out. Cutting proves Use,
--     Counting Malloc, Free and Full.
--   SimpleMalloc (src/memory/allocators/persist_loop_slab_allocator.h): PersistSimpleMalloc, slabs
--     of one size given out in turn; Turns proves New.
--   Hybrid (src/storage/hybrid/value.h): ValueManager. Lru is SimpleLRUCache, with Keys, Recency
--     and History for its lists, its invariant and its runs; Inline the values that stand in the
--     pointer; Blocks the bytes of a value; Allocator what the store needs of src/memory/malloc.h.
--     Store is WriteMem, WriteDisk, FreePointer and the start and end of WriteValue; Manager
--     WriteValue, RetrieveValue and eviction; Promoting the rest of EvictAndPromoteLoop. Side and
--     Invariant state where values stand; Landing, DiskLanding, Indexing, Publishing, Rewriting,
--     Writing, Serving, Evicting, Counts, Heating and Promotion prove the operations against a map
--     from keys to values.
--   Engine (src/storage/kv_engine/engine_extendible_hash.h): KVEngineExtendibleHash, Get, Put and
--     BatchGet over ExtendibleHash. PetKv is PetKVData of src/storage/nvm/pet_kv/shm_common.h, the
--     word that the index keeps; Numbers the offsets of src/memory/malloc.h. Serving states what an
--     engine has for its keys and proves Get and BatchGet, Moving and Putting prove Put, and
--     OverSlab fills the allocator's interface with Slab.
--   Epoch (src/memory/epoch_manager.h, src/memory/malloc.h): EpochManager and ShmEpochRecycle, as
--     the steps of threads. Steps, Holding and Safety prove the interleavings, Reserve is
--     ReserveEntry.
--   Flatc (src/base/flatc.h, src/ps/base/parameters.{h,cpp}): FlatItemCompressor and its reader,
--     with FlatKVCompressor in Keyed and rows in Parameters. Writing, Reading, Framing and Pairs
--     prove what is read of what was written.
--   PriorityQueue (src/base/pq.h): CustomPriorityQueue, a heap with a map of positions, which
--     Frugal keeps its pending gradients in. Order is heap order and what one swap mends, Swaps the
--     map, Heapify the two loops, TakingOut the removal of a value, Pushing, Popping and Removing
--     the operations.
--
-- The index is modelled in the configuration of the build (LSB defined, INPLACE not), as one thread
-- runs it. Block addresses are positions on a heap of blocks, so that the entries of a directory
-- share blocks as its pointers do; a split allocates two blocks and leaves the closed one. The hash
-- function h of hash.h is a parameter. The constructor is none for a capacity of 2 ^ 32 or more,
-- where its loop does not end. LSBUpdate is modelled for fewer than 2 ^ 31 entries, on which its ints
-- do not overflow; a split on a larger directory is none. A key is a number below 2 ^ 64; the
-- reserved key INVALID is excluded where the code cannot store it.
--
-- Insert retries without a bound, so insert runs on fuel, one unit for each round; none is a call
-- that has not returned. One unit more than the depths that the key's block may still gain is
-- enough, up to a depth of 30 bits, which keeps the directory within the int arithmetic of
-- LSBUpdate.
--
-- The allocator's state is the file as one list of words, the bits before the blocks, and the
-- fields of the object. Pointers are byte offsets from data_. The search of New runs on 2 n + 3
-- rounds for n blocks, which is enough; its abort on a failed CHECK is none. CityHash is a
-- parameter.
--
-- The priority queue takes its comparison as a parameter, with the hypothesis that it compares the
-- ranks of the values; a change of a value's priority is a change of the rank function.
--
-- The hybrid store's index is a function from keys to words, its allocators an interface: New gives
-- blocks that do not overlap, and Free takes one back. The store's operations are run one after the
-- other; what the evicting thread does while WriteValue waits is a parameter that keeps the values.
-- Bytes are addressed one by one in memory and on disk, and the mapping of the file shows what
-- pwrite wrote. Watermarks, which the source computes with floating point, are fields. The walk
-- that promotes values advances an iterator to a count that it has erased, which C++ leaves
-- undefined: the model of a round ends there, and says so. Pointers to the disk's blocks are
-- counted from its data.
--
-- The engine's allocator is the hybrid store's interface with an offset for each block, a multiple
-- of 8 from 8 to 8 * (2 ^ 32 - 2), which is what an index word holds. A value has exactly
-- value_size bytes (XMH_VARIABLE_SIZE_KV is not defined). The locks of the engine are left out.
--
-- An epoch, like every shared word of the epoch manager, is read and written in steps of its own;
-- runs are of fewer than 2 ^ 64 - 2 steps, within which no epoch wraps. Buffers of the wire format
-- are of fewer than 2 ^ 31 bytes, which its int offsets need.
--
-- Not modelled: threads (but for the epochs) and the memory order of the atomic operations,
-- cache-line flushes, logging, FindAnyway, Utilization and Capacity (diagnostics), the SSD index,
-- the network layers, the CUDA code and the Python packages.
pub mod Bitmap
pub mod Chunk
pub mod Engine
pub mod Epoch
pub mod ExtendibleHash
pub mod Flatc
pub mod Hybrid
pub mod Pointer
pub mod Prelude
pub mod PriorityQueue
pub mod SimpleMalloc
pub mod Slab
