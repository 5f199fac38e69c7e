-- ===== src/Database.antt =====
-- The database (THEO/theo.go): it sends each key by its data type to the block log, the prefix store
-- or Pebble, and keeps the pairs of the newest block until the block is complete.
pub mod Stores
pub mod State
pub mod Get
pub mod Put
pub mod Batch
pub mod Pending
pub mod Commit
