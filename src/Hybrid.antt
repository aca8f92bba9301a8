-- ===== src/Hybrid.antt =====
-- The hybrid value store (src/storage/hybrid/value.h): which keys to move to disk (Lru), how a
-- value is placed (Values), and what the store keeps (its theorems).
mod Examples
pub mod Promoting
pub mod Promotion
mod Counts
mod Heating
pub mod Lru
pub mod Evicting
pub mod Writing
pub mod Rewriting
pub mod Serving
pub mod Publishing
pub mod Indexing
pub mod Landing
pub mod DiskLanding
pub mod Invariant
pub mod Manager
pub mod Store
pub mod Allocator
pub mod Side
pub mod Inline
pub mod Blocks
