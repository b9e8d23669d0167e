-- ===== src/Cache.antt =====
-- skyobject/cache.go: the write-behind cache of objects in front of a CXDS.
pub mod Item
pub mod Clean
pub mod Access
pub mod Filling
pub mod Coherent
pub mod Transparent
pub mod Reads
pub mod Steps
pub mod Get
pub mod Count
pub mod Lost
