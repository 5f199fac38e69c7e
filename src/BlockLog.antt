-- ===== src/BlockLog.antt =====
-- The block append-only log (THEO/datablockStore.go, THEO/common.go). `Entry` has the records and
-- their encoding, `Skiplist` the interface of the skip list, `State` the state and the monad of the
-- methods; the other children have the methods and, below them, their properties.
pub mod Entry
pub mod Order
pub mod Skiplist
pub mod State
pub mod Index
pub mod Recent
pub mod Write
pub mod Read
pub mod Boot
pub mod Layout
pub mod Log
