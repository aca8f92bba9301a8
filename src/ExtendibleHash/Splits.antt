-- ===== src/ExtendibleHash/Splits.antt =====
-- The step in which `Insert` replaces a full block by two: it keeps the invariant and every read.
pub mod Halves
pub mod Redirect
pub mod Step
