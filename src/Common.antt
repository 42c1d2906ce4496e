-- ===== src/Common.antt =====
-- src/common: errors, the rolling index and its map, the LRU cache, trileans and the median.
pub mod Errors
pub mod Platform
pub mod RollingIndex
pub mod RollingIndexMap
pub mod Lru
pub mod Sublist
pub mod Median
pub mod Exec
