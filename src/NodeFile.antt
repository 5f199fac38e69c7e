-- ===== src/NodeFile.antt =====
-- The node files of the prefix tree (THEO/prefixdb/prefixTree.go): entries of a fixed size, a sorted
-- part that compaction writes, an unsorted part to which writes append, and commit tags.
pub mod Entry
pub mod Search
pub mod Compact
pub mod Slices
pub mod Find
pub mod BinarySearch
pub mod Sorted
pub mod Built
pub mod Lookup
pub mod Walk
pub mod Folded
pub mod Hits
pub mod Unsorted
pub mod Header
pub mod File
pub mod Reading
pub mod Joined
pub mod Appended
pub mod Trim
