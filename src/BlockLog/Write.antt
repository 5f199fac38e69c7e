-- ===== src/BlockLog/Write.antt =====
-- The writing methods of THEO/datablockStore.go: `Append`, `AppendToNewBlock`, `Delete`,
-- `DeleteByPrefixInBlock`, `MarkBlockCommitted`, `FlushDataAndIndex` and `Close`. The methods hold
-- the log's lock, so each runs as one step; the operating system's writes succeed.
use theo_extension.Common.{
  ℕ, zero, suc, ◌+◌, ◌-◌, Bool, true, ◌&&◌, not, Option, none, some, [], ◌∷◌, ◌++◌, ◌==◌, ltb, leb,
  is_some, if◌then◌else◌, length,
}
use theo_extension.Common.Bytes.{Bytes, bytes_beq, bytes_eq, nat_eq, has_prefix}
use theo_extension.Common.Maps.{contains}
use theo_extension.KeyType.BlockKey.{block_number}
use theo_extension.BlockLog.Entry.{BlockIndexEntry, tombstone_marker, write_log_entry}
use theo_extension.BlockLog.Order.{
  Pairs, write_log_entries, Ending, complete, broken, out_of_fuel, decode,
}
use theo_extension.BlockLog.Skiplist.{SkipList}
use theo_extension.BlockLog.State.{
  BlockAppendOnlyLog, log_closed, err_closed, non_monotonic, block_not_found, decode_failed, ok,
  err, Method, pure, fail, modify, gets, ◌>>=◌, ◌>>◌,
}
use theo_extension.BlockLog.Index.{
  add64, sub64, get_block_index_entry, write_index_entry, flush_index_buffer, save_index_meta,
}
use theo_extension.BlockLog.Recent.{
  build_kv_pointer_for_skiplist, or_empty, set_skiplist_entry, index_entries, update_recent_blocks,
  ensure_write_tracking_initialized,
}
use theo_extension.BlockLog.Read.{ignored_threshold, read_block, collect_pairs}

-- What the monotonicity checks of `Append` decide.
pub data Check : Type 0 where
  go_on ignore refuse : Check

abbrev pub index_entry : ℕ → ℕ → ℕ → BlockIndexEntry
index_entry block_id start_offset end_offset = record {
  block_id = block_id;
  start_offset = start_offset;
  end_offset = end_offset;
}

module _ {T : Type 0} where
  -- `dataWriter.Write` with the `Flush` that follows it: the data file is opened for appending.
  unfoldable pub write_data : Bytes → BlockAppendOnlyLog T → BlockAppendOnlyLog T
  write_data bytes b = record b {
    data_file = elim b.data_file [ none ↦ none | some f ↦ some (f ++ bytes) ];
  }

  abbrev pub set_min : ℕ → BlockAppendOnlyLog T → BlockAppendOnlyLog T
  set_min block_id b = record b {
    min_block_id = if b.min_block_id == 0 then block_id else b.min_block_id;
  }

  abbrev pub set_latest : ℕ → BlockAppendOnlyLog T → BlockAppendOnlyLog T
  set_latest block_id b = record b { latest_block_id = block_id }

  abbrev pub set_offset : ℕ → BlockAppendOnlyLog T → BlockAppendOnlyLog T
  set_offset offset b = record b { current_offset = offset }

  abbrev pub guard_open : Method T (Unit {0})
  guard_open b = if b.closed then (err log_closed, b) else (ok tt, b)

module _ (S : SkipList) where
  open S use {T}

  -- One round of the loop in `fillMissingBlocksUntil`: an empty block at the current offset.
  unfoldable pub fill_one : ℕ → BlockAppendOnlyLog T → BlockAppendOnlyLog T
  fill_one missing b =
      let marked = set_min missing b in
      update_recent_blocks S missing (
        set_latest missing
          (write_index_entry (index_entry missing b.current_offset b.current_offset) marked))

  unfoldable pub fill_loop : ℕ → ℕ → BlockAppendOnlyLog T → BlockAppendOnlyLog T
  fill_loop zero missing b = b
  fill_loop (suc n) missing b = fill_loop n (missing + 1) (fill_one missing b)

  unfoldable pub fill_missing_blocks_until : ℕ → Method T (Unit {0})
  fill_missing_blocks_until target b =
      let next = add64 b.latest_block_id 1 in
      if leb target next
      then (ok tt, b)
      else (do modify (fill_loop (target - next) next); flush_index_buffer; modify save_index_meta)
          b

  abbrev pub is_first_append : BlockAppendOnlyLog T → Bool
  is_first_append b = b.latest_block_id == 0 && b.current_offset == 0

  unfoldable pub check_block_id : ℕ → BlockAppendOnlyLog T → Check
  check_block_id block_id b =
      if not (block_id == 0 && is_first_append b) && leb block_id b.latest_block_id
      then (if is_some (get_block_index_entry b block_id)
          then (if ltb block_id b.latest_block_id then ignore else go_on)
          else refuse)
      else go_on

  -- The gap before a block that does not follow the latest one.
  unfoldable pub fill_gap : ℕ → Method T (Unit {0})
  fill_gap block_id b =
      if not (is_first_append b) && ltb (add64 b.latest_block_id 1) block_id
      then fill_missing_blocks_until block_id b
      else (ok tt, b)

  abbrev pub start_of : BlockAppendOnlyLog T → Option BlockIndexEntry → ℕ
  start_of b none = b.current_offset
  start_of b (some e) = e.end_offset

  abbrev pub first_of : BlockAppendOnlyLog T → Option BlockIndexEntry → ℕ
  first_of b none = b.current_offset
  first_of b (some e) = e.start_offset

  -- A block beyond the latest one becomes the latest.
  unfoldable pub advance_to : ℕ → BlockAppendOnlyLog T → BlockAppendOnlyLog T
  advance_to block_id b =
      if ltb b.latest_block_id block_id
      then save_index_meta
          (update_recent_blocks S block_id (set_latest block_id (set_min block_id b)))
      else b

  abbrev pub end_indexing : Ending → Method T (Unit {0})
  end_indexing complete = pure tt
  end_indexing broken = fail decode_failed
  end_indexing out_of_fuel = fail decode_failed

  -- The bytes of a tracked block are decoded again and indexed.
  unfoldable pub index_block : ℕ → ℕ → Bytes → Method T (Unit {0})
  index_block block_id start bytes b =
      if contains block_id (or_empty b.indexed_blocks)
      then end_indexing (decode bytes).ending (index_entries S start (decode bytes).entries b)
      else (ok tt, b)

  -- `Append` from the point where the pairs are known to be written.
  unfoldable pub append_pairs : ℕ → Pairs → Method T (Unit {0})
  append_pairs block_id kvs b =
      let existing = get_block_index_entry b block_id in
      let start = start_of b existing in
      let bytes = write_log_entries block_id kvs in
      let end_offset = add64 start (length bytes) in
      (do
        modify (write_data bytes)
        modify (set_offset end_offset)
        modify (write_index_entry (index_entry block_id (first_of b existing) end_offset))
        modify (advance_to block_id)
        index_block block_id start bytes
        flush_index_buffer)
        b

  -- `Append` after its monotonicity checks.
  unfoldable pub append_checked : Check → ℕ → Pairs → Method T (Unit {0})
  append_checked ignore block_id kvs = pure tt
  append_checked refuse block_id kvs = fail non_monotonic
  append_checked go_on block_id kvs = do
    fill_gap block_id
    elim kvs [ [] ↦ pure tt | p ∷ ps ↦ append_pairs block_id (p ∷ ps) ]

  -- `Append`; its call of `evictOldEntries`, which only logs, is left out.
  unfoldable pub append : ℕ → Pairs → Method T (Unit {0})
  append block_id kvs = do
    guard_open
    modify (ensure_write_tracking_initialized S)
    check ← gets (check_block_id block_id)
    append_checked check block_id kvs

  abbrev pub fill_before : ℕ → Method T (Unit {0})
  fill_before block_id b =
      if ltb (add64 b.latest_block_id 1) block_id
      then fill_missing_blocks_until block_id b
      else (ok tt, b)

  -- `MarkBlockCommitted`, for a block that is not 0.
  unfoldable pub commit_marker : ℕ → Method T (Unit {0})
  commit_marker block_id b =
      if leb block_id b.latest_block_id
      then (ok tt, b)
      else (do
        fill_before block_id
        modify (set_min block_id)
        modify (λ s. write_index_entry (index_entry block_id s.current_offset s.current_offset) s)
        modify (set_latest block_id)
        modify (update_recent_blocks S block_id)
        flush_index_buffer
        modify save_index_meta)
          b

  unfoldable pub mark_block_committed : ℕ → Method T (Unit {0})
  mark_block_committed block_id b =
      if block_id == 0
      then (ok tt, b)
      else (do guard_open; modify (ensure_write_tracking_initialized S); commit_marker block_id) b

  -- `isLogEmptyInitial`
  abbrev pub is_log_empty_initial : BlockAppendOnlyLog T → Bool
  is_log_empty_initial b = b.latest_block_id == 0 && length (or_empty b.block_index) == 0

  -- `AppendToNewBlock`, for pairs that are not empty.
  unfoldable pub append_new_block : ℕ → Pairs → Method T ℕ
  append_new_block new_block_id kvs b =
      let start = b.current_offset in
      let bytes = write_log_entries new_block_id kvs in
      let end_offset = add64 start (length bytes) in
      (do
        modify (write_data bytes)
        modify (set_offset end_offset)
        modify (set_min new_block_id)
        modify (set_latest new_block_id)
        modify (write_index_entry (index_entry new_block_id start end_offset))
        flush_index_buffer
        modify save_index_meta
        modify (update_recent_blocks S new_block_id)
        index_block new_block_id start bytes
        pure new_block_id)
        b

  abbrev pub next_block_id : BlockAppendOnlyLog T → ℕ
  next_block_id b = if is_log_empty_initial b then 1 else add64 b.latest_block_id 1

  unfoldable pub append_to_new_block : Pairs → Method T ℕ
  append_to_new_block kvs = do
    guard_open
    modify (ensure_write_tracking_initialized S)
    elim kvs [
      | [] ↦ gets (λ b. if is_log_empty_initial b then 0 else b.latest_block_id)
      | p ∷ ps ↦ gets next_block_id >>= λ new_block_id. append_new_block new_block_id (p ∷ ps)
    ]

  -- The block number in a key, 0 where there is none.
  abbrev pub number_or_zero : Option ℕ → ℕ
  number_or_zero none = 0
  number_or_zero (some n) = n

  -- The tombstone of `Delete`, in a block of its own.
  unfoldable pub write_tombstone : ℕ → Bytes → Method T (Unit {0})
  write_tombstone block_id key b =
      let start = b.current_offset in
      let bytes = write_log_entry block_id key tombstone_marker in
      let end_offset = add64 start (length bytes) in
      (do
        modify (write_data bytes)
        modify (set_offset end_offset)
        modify (set_latest block_id)
        modify (write_index_entry (index_entry block_id start end_offset))
        flush_index_buffer
        modify (update_recent_blocks S block_id)
        modify (λ s.
            if contains block_id (or_empty s.indexed_blocks)
            then set_skiplist_entry S block_id key
                (build_kv_pointer_for_skiplist block_id start key tombstone_marker) s
            else s))
        b

  -- The test of `Delete` wraps around where the key's block is beyond the latest one.
  abbrev pub is_too_old : Bytes → BlockAppendOnlyLog T → Bool
  is_too_old key b =
      ltb 0 b.latest_block_id
      && ltb ignored_threshold (sub64 b.latest_block_id (number_or_zero (block_number key)))

  unfoldable pub delete_tracked : Bytes → Method T (Unit {0})
  delete_tracked key b =
      if is_too_old key b
      then (ok tt, b)
      else write_tombstone (if b.latest_block_id == 0 then 1 else add64 b.latest_block_id 1) key b

  unfoldable pub delete : Bytes → Method T (Unit {0})
  delete key = do guard_open; modify (ensure_write_tracking_initialized S); delete_tracked key

  -- The keys of a block that `DeleteByPrefixInBlock` marks.
  unfoldable pub keys_to_tombstone : Bytes → Pairs → Pairs
  keys_to_tombstone prefix [] = []
  keys_to_tombstone prefix ((k, v) ∷ kvs) =
      let rest = keys_to_tombstone prefix kvs in
      if has_prefix k prefix && not (bytes_beq v tombstone_marker)
      then (k, tombstone_marker) ∷ rest
      else rest

  abbrev pub tombstone_all : Pairs → Method T (Unit {0})
  tombstone_all [] = pure tt
  tombstone_all (p ∷ ps) = append_to_new_block (p ∷ ps) >> pure tt

  unfoldable pub delete_by_prefix_in_block : ℕ → Bytes → Method T (Unit {0})
  delete_by_prefix_in_block target prefix b =
      if b.closed then (err log_closed, b) else elim (get_block_index_entry b target) [
        | none ↦ (err block_not_found, b)
        | some e ↦ elim (read_block b e) [
          | err x ↦ (err x, b)
          | ok bytes ↦ elim (decode bytes).ending [
            | complete ↦
                tombstone_all
                  (keys_to_tombstone prefix (collect_pairs (λ v. v) [] (decode bytes).entries)) b
            | _ ↦ (err decode_failed, b)
          ]
        ]
      ]

  -- `FlushDataAndIndex`
  unfoldable pub flush_data_and_index : Method T (Unit {0})
  flush_data_and_index = do guard_open; flush_index_buffer; modify save_index_meta

  abbrev pub close_files : BlockAppendOnlyLog T → BlockAppendOnlyLog T
  close_files b = record b { data_file = none; index_map_file = none }

  -- `Close`: a flush that fails is reported after the files are closed.
  unfoldable pub close : Method T (Unit {0})
  close b =
      if b.closed
      then (err err_closed, b)
      else (let (r, b') = flush_index_buffer (record b { closed = true }) in (r, close_files b'))
