-- ===== src/Tests.antt =====
-- The theorems at concrete inputs, over buckets that are association lists.
pub mod ListBolt
pub mod ListIdxDb
pub mod ListRefs
pub mod Memory
mod Drive
mod Cache
mod Index
mod Roots
mod Refs
