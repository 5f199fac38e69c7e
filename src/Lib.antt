-- ===== src/Lib.antt =====
-- A model of THEO, a key-value store for the data of an Ethereum node.
--
-- The parts of the program:
--   * the types of keys (THEO/common.go, THEO/datatype/datatype.go), told apart by a trie of
--     prefixes: KeyType has the types and the table `key_prefixes`, KeyType/Trie the trie
--     (`Insert`, `GetDataType`, `GetDataTypeFromKey`), KeyType/BlockKey `ParseBlockNumberFromKey`
--     of THEO/theo.go;
--   * the block log (THEO/datablockStore.go, `BlockAppendOnlyLog`), which keeps headers, bodies and
--     receipts in one block of bytes per block number: BlockLog and its children;
--   * the cache of account keys (THEO/account_hash_key_cache.go): AccountCache, with `Get` as
--     `get_key` and `Put` as `put_key`;
--   * the database that routes keys to the block log, the prefix store and Pebble (THEO/theo.go):
--     Database;
--   * the prefix store of trie nodes (THEO/prefixdb), in part: NodeFile has the files of its prefix
--     tree, Segment the records of its logs, SharedCache the cache that its other caches share
--     (THEO/prefixdb/shared_cache.go, `sharedByteCache`), Batches
--     what waits for a commit (THEO/prefixdb/storage_batch.go, THEO/prefixdb/batch.go);
--   * Pebble (THEO/pebblestore), a parameter.
--
-- The block log:
--   * BlockLog/Entry has the records of THEO/common.go and the bytes of a log entry and of an index
--     entry; BlockLog/Order the order in which a block is written and its decoding;
--   * BlockLog/State is the state: the three files as byte strings, the offsets and block numbers
--     as 64-bit patterns, the index buffer, and the index of the recent blocks. A Go map is an
--     association list, a nil map or file is `none`. A method is a function from the state to a
--     result or an error and the new state; what it did before an error stays done. The methods
--     hold the log's lock, so each is one step, and `background_flush` is the goroutine's step;
--   * BlockLog/Index has the index map file (`getBlockIndexEntry`, `writeIndexEntry`,
--     `flushIndexBuffer`, the metadata file), BlockLog/Recent the skip list of the recent blocks,
--     BlockLog/Write the writing methods, BlockLog/Read `Get` and `GetByBlock`, BlockLog/Boot the
--     opening of a log;
--   * BlockLog/Skiplist is the interface to the skip list library, with the laws of a map;
--     BlockLog/Skiplist/Assoc fills it with association lists;
--   * BlockLog/Layout says what a list of blocks looks like on disk, and BlockLog/Log that a state
--     holds these blocks (`IsLog`); the children of BlockLog/Log show what the methods do to that
--     list, and those of BlockLog/Recent how many blocks are tracked.
--
-- The database: Database/State is `Database` of THEO/theo.go with the account keys and the routing
-- by data type, Database/Stores the interfaces to Pebble and to the prefix store, without laws; a
-- store that is nil is `none`. Database/Get has the reading methods, Database/Put
-- `PutWithDataType`, `DeleteWithDataType` and `DeleteRange`, Database/Batch the batch methods,
-- `CommitAOLBatch`, `SyncKeyValue`, `Close` and `MarkBlockCommitted`. They call the block log's own
-- definitions. Database/Pending and Database/Commit follow a pair from the pending block to the log.
--
-- The node files (THEO/prefixdb/prefixTree.go): NodeFile/Entry has the entries of 65 bytes and the
-- commit tags, NodeFile/Search the lookup (`findNodeInfoInSortedSlice`, `nodeFileContainsKey`,
-- `getFromFileNode`), NodeFile/Compact `buildEntriesFromSlices`, NodeFile/Header the header and the
-- compressed sorted part (THEO/prefixdb/compression.go, with zstd as the parameter `Zstd`), and
-- NodeFile/File the operations on a file as a byte string. The other children of NodeFile show what
-- they do.
--
-- The segments (THEO/prefixdb/prefixdb.go): Segment has `serializeStorageSegment`,
-- `appendForwardCommitTag`, the loops that count and build pairs and that look for the newest tag,
-- and `trimFileAfterLastCommitTag` for files without chunks.
--
-- Bounds and fuel: block numbers stay below 2^58, so that the position of a slot in the index map
-- file fits in an `int64`, and files below 2^63 bytes. The loop over the bytes of a block
-- (`decode_block`) runs on as much fuel as there are bytes, and each round takes some. `load_slots`
-- likewise takes 24 bytes in a round. The loops over the records of a segment have one more round
-- than there are bytes, and each takes four or more; the binary search has one more round than there
-- are entries, whose number stays at or below 2^31, so that the sum of two indices fits in 32 bits.
-- The other loops run over lists or count down.
--
-- Not modelled: the errors of the operating system on writes, disk statistics and timings, the
-- iterator of the block log, `evictOldEntries`, whose call in `Append` only logs, the constructors,
-- iterators and batches of THEO/theo.go and its callback for storage keys without an account key,
-- the rest of the prefix store (the accounts' and storage's files, chunks, other caches and
-- background work), the Pebble wrapper (THEO/pebblestore), the workload driver (replayWorkload), and
-- the copy of goleveldb (ChainKV).
--
-- Common has the shared helpers, Tests the runs on concrete inputs.
pub mod Common
pub mod KeyType
pub mod BlockLog
pub mod AccountCache
pub mod Database
pub mod NodeFile
pub mod Segment
mod Tests
pub mod SharedCache
pub mod Batches
