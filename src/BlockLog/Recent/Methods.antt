-- ===== src/BlockLog/Recent/Methods.antt =====
-- The methods of a log keep the window of the recent blocks.
use theo_extension.Common.{
  ℕ, true, Option, none, some, [], ◌∷◌, length, leb, if◌then◌else◌, Bool-cases, inl, inr,
}
use theo_extension.Common.Bytes.{Bytes, nat_eq}
use theo_extension.Common.Maps.{contains}
use theo_extension.BlockLog.Entry.{BlockIndexEntry, tombstone_marker, write_log_entry}
use theo_extension.BlockLog.Order.{
  Pairs, Ending, complete, broken, out_of_fuel, decode, write_log_entries,
}
use theo_extension.BlockLog.Skiplist.{SkipList}
use theo_extension.BlockLog.State.{
  BlockAppendOnlyLog, err_closed, log_closed, decode_failed, block_not_found, Result, ok, err,
  Method, pure, modify, gets, continue, ◌>>=◌, ◌>>◌,
}
use theo_extension.BlockLog.Index.{
  add64, get_block_index_entry, flush_index_buffer, background_flush, write_index_entry,
  save_index_meta,
}
use theo_extension.BlockLog.Recent.{
  or_empty, set_skiplist_entry, record_indexed_key, update_recent_blocks,
  build_kv_pointer_for_skiplist,
}
use theo_extension.BlockLog.Read.{read_block, collect_pairs}
use theo_extension.BlockLog.Write.{
  Check, go_on, ignore, refuse, write_data, index_entry, next_block_id, set_min, set_latest,
  set_offset, guard_open, check_block_id, index_block, append_pairs, append_checked, append,
  fill_before, commit_marker, mark_block_committed, append_new_block, append_to_new_block,
  write_tombstone, delete_tracked, delete, keys_to_tombstone, tombstone_all,
  delete_by_prefix_in_block, flush_data_and_index, close,
}
use theo_extension.BlockLog.Recent.Kept.{
  IsWindow, Keeps, continue-IsWindow, if-IsWindow, flush-Keeps, meta-IsWindow, guard_open-Keeps,
  update-IsWindow, tracking-IsWindow, opened-Keeps, fill-Keeps, fill_gap-Keeps, advance_to-IsWindow,
  index_block-Keeps,
}

module _ (S : SkipList) where
  open S use {T}

  -- What a commit does after the gap.
  abbrev commit_one : ℕ → Method T (Unit {0})
  commit_one i = do
    modify (set_min i)
    modify (λ s. write_index_entry (index_entry i s.current_offset s.current_offset) s)
    modify (set_latest i)
    modify (update_recent_blocks S i)
    flush_index_buffer
    modify save_index_meta

  -- `AppendToNewBlock` up to its flush, and behind it.
  abbrev new_written : ℕ → Bytes → BlockAppendOnlyLog T → BlockAppendOnlyLog T
  new_written i bytes b =
      let end_offset = add64 b.current_offset (length bytes) in
      write_index_entry (index_entry i b.current_offset end_offset)
        (set_latest i (set_min i (set_offset end_offset (write_data bytes b))))

  abbrev new_indexed : ℕ → ℕ → Bytes → Method T ℕ
  new_indexed i start bytes = do
    modify save_index_meta
    modify (update_recent_blocks S i)
    index_block S i start bytes
    pure i

  abbrev track_tombstone : ℕ → ℕ → Bytes → BlockAppendOnlyLog T → BlockAppendOnlyLog T
  track_tombstone i start key s =
      if contains i (or_empty s.indexed_blocks)
      then set_skiplist_entry S i key (build_kv_pointer_for_skiplist i start key tombstone_marker) s
      else s

  abbrev tombstone_written : ℕ → Bytes → BlockAppendOnlyLog T → BlockAppendOnlyLog T
  tombstone_written i bytes b =
      let end_offset = add64 b.current_offset (length bytes) in
      write_index_entry (index_entry i b.current_offset end_offset)
        (set_latest i (set_offset end_offset (write_data bytes b)))

  -- `DeleteByPrefixInBlock` behind the reading of the block, and behind its decoding.
  abbrev delete_decoded :
      Bytes → Bytes → BlockAppendOnlyLog T → Ending → Result (Unit {0}) × BlockAppendOnlyLog T
  delete_decoded prefix bytes b e = elim e [
    | complete ↦
        tombstone_all S
          (keys_to_tombstone S prefix (collect_pairs (λ v. v) [] (decode bytes).entries)) b
    | _ ↦ (err decode_failed, b)
  ]

  abbrev delete_read :
      Bytes → BlockAppendOnlyLog T → Result Bytes → Result (Unit {0}) × BlockAppendOnlyLog T
  delete_read prefix b r = elim r [
    | err x ↦ (err x, b)
    | ok bytes ↦ delete_decoded prefix bytes b (decode bytes).ending
  ]

  abbrev delete_found :
      Bytes
      → BlockAppendOnlyLog T
      → Option BlockIndexEntry
      → Result (Unit {0}) × BlockAppendOnlyLog T
  delete_found prefix b o = elim o [
    | none ↦ (err block_not_found, b)
    | some e ↦ delete_read prefix b (read_block b e)
  ]

module _ (S : SkipList) {N : ℕ} where
  open S use {T}

  append_pairs-Keeps : (i : ℕ) (kvs : Pairs) → Keeps N (append_pairs S i kvs)
  unfolding append_pairs write_data write_index_entry
  append_pairs-Keeps i kvs b h =
      continue-IsWindow _ _ _
        (index_block-Keeps S i _ _ _
          (advance_to-IsWindow S i _ (record { bounded = h.bounded; size = h.size })))
        (λ a s k. flush-Keeps s k)

  append_checked-Keeps : (c : Check) (i : ℕ) (kvs : Pairs) → Keeps N (append_checked S c i kvs)
  unfolding append_checked
  append_checked-Keeps ignore i kvs b h = h
  append_checked-Keeps refuse i kvs b h = h
  append_checked-Keeps go_on i [] b h =
      continue-IsWindow _ _ _ (fill_gap-Keeps S i b h) (λ a s k. k)
  append_checked-Keeps go_on i (p ∷ ps) b h =
      continue-IsWindow _ _ _ (fill_gap-Keeps S i b h) (λ a. append_pairs-Keeps i (p ∷ ps))

  pub append-Keeps : (i : ℕ) (kvs : Pairs) → Keeps N (append S i kvs)
  unfolding append
  append-Keeps i kvs =
      opened-Keeps S (gets (check_block_id S i) >>= λ c. append_checked S c i kvs)
        (λ s k. append_checked-Keeps (check_block_id S i s) i kvs s k)

  fill_before-Keeps : (i : ℕ) → Keeps N (fill_before S i)
  fill_before-Keeps i b h = if-IsWindow _ _ (ok tt, b) (fill-Keeps S i b h) h

  commit_one-Keeps : (i : ℕ) → Keeps N (commit_one S i)
  unfolding write_index_entry
  commit_one-Keeps i b h =
      continue-IsWindow _ _ _
        (flush-Keeps _ (update-IsWindow S i _ (record { bounded = h.bounded; size = h.size })))
        (λ a s k. meta-IsWindow s k)

  commit_marker-Keeps : (i : ℕ) → Keeps N (commit_marker S i)
  unfolding commit_marker
  commit_marker-Keeps i b h =
      let f = fill_before S i b in
      if-IsWindow (leb i b.latest_block_id) (ok tt, b) (continue f.0 (λ _. commit_one S i) f.1) h
        (continue-IsWindow f.0 (λ _. commit_one S i) f.1 (fill_before-Keeps i b h)
          (λ a. commit_one-Keeps i))

  pub mark_block_committed-Keeps : (i : ℕ) → Keeps N (mark_block_committed S i)
  unfolding mark_block_committed
  mark_block_committed-Keeps i b h =
      if-IsWindow _ (ok tt, b) _ h (opened-Keeps S (commit_marker S i) (commit_marker-Keeps i) b h)

  new_indexed-Keeps : (i start : ℕ) (bytes : Bytes) → Keeps N (new_indexed S i start bytes)
  new_indexed-Keeps i start bytes b h =
      let u = update_recent_blocks S i (save_index_meta b) in
      let r = index_block S i start bytes u in
      continue-IsWindow r.0 (λ _. pure i) r.1
        (index_block-Keeps S i start bytes u (update-IsWindow S i _ (meta-IsWindow b h)))
        (λ a s k. k)

  append_new_block-Keeps : (i : ℕ) (kvs : Pairs) → Keeps N (append_new_block S i kvs)
  unfolding append_new_block write_data write_index_entry
  append_new_block-Keeps i kvs b h =
      let bytes = write_log_entries i kvs in
      let f = flush_index_buffer (new_written S i bytes b) in
      continue-IsWindow f.0 (λ _. new_indexed S i b.current_offset bytes) f.1
        (flush-Keeps (new_written S i bytes b) (record { bounded = h.bounded; size = h.size }))
        (λ a. new_indexed-Keeps i b.current_offset bytes)

  pub append_to_new_block-Keeps : (kvs : Pairs) → Keeps N (append_to_new_block S kvs)
  unfolding append_to_new_block
  append_to_new_block-Keeps [] b h =
      continue-IsWindow _ _ _ (guard_open-Keeps b h) (λ a s l. tracking-IsWindow S s l)
  append_to_new_block-Keeps (p ∷ ps) b h =
      opened-Keeps S (gets (next_block_id S) >>= λ i. append_new_block S i (p ∷ ps))
        (λ s k. append_new_block-Keeps (next_block_id S s) (p ∷ ps) s k) b h

  track_tombstone-IsWindow :
      (i start : ℕ) (key : Bytes) (b : BlockAppendOnlyLog T)
      → IsWindow N b
      → IsWindow N (track_tombstone S i start key b)
  unfolding set_skiplist_entry record_indexed_key
  track_tombstone-IsWindow i start key b h =
      elim (Bool-cases (contains i (or_empty b.indexed_blocks))) [
        | inl e ↦ rw e (record { bounded = h.bounded; size = h.size })
        | inr e ↦ rw e h
      ]

  tombstone-Keeps : (i : ℕ) (key : Bytes) → Keeps N (write_tombstone S i key)
  unfolding write_tombstone write_data write_index_entry
  tombstone-Keeps i key b h =
      let start = b.current_offset in
      let written = tombstone_written S i (write_log_entry i key tombstone_marker) b in
      let f = flush_index_buffer written in
      continue-IsWindow f.0
        (λ _. modify (update_recent_blocks S i) >> modify (track_tombstone S i start key)) f.1
        (flush-Keeps written (record { bounded = h.bounded; size = h.size }))
        (λ a s k. track_tombstone-IsWindow i start key _ (update-IsWindow S i s k))

  delete_tracked-Keeps : (key : Bytes) → Keeps N (delete_tracked S key)
  unfolding delete_tracked
  delete_tracked-Keeps key b h = if-IsWindow _ (ok tt, b) _ h (tombstone-Keeps _ key b h)

  pub delete-Keeps : (key : Bytes) → Keeps N (delete S key)
  unfolding delete
  delete-Keeps key = opened-Keeps S (delete_tracked S key) (delete_tracked-Keeps key)

  tombstone_all-Keeps : (kvs : Pairs) → Keeps N (tombstone_all S kvs)
  tombstone_all-Keeps [] b h = h
  tombstone_all-Keeps (p ∷ ps) b h =
      continue-IsWindow _ _ _ (append_to_new_block-Keeps (p ∷ ps) b h) (λ a s k. k)

  flushed_meta-Keeps : Keeps N (flush_index_buffer {T = T} >> modify save_index_meta)
  flushed_meta-Keeps b h =
      let f = flush_index_buffer b in
      continue-IsWindow f.0 (λ _. modify save_index_meta) f.1 (flush-Keeps b h)
        (λ a s k. meta-IsWindow s k)

  pub flush_data_and_index-Keeps : Keeps N (flush_data_and_index S)
  unfolding flush_data_and_index
  flush_data_and_index-Keeps b h =
      let g = guard_open b in
      continue-IsWindow g.0 (λ _. flush_index_buffer >> modify save_index_meta) g.1
        (guard_open-Keeps b h) (λ a. flushed_meta-Keeps)

  pub close-Keeps : Keeps N (close S)
  unfolding close
  close-Keeps b h =
      let f =
        flush-Keeps (record b { closed = true }) (record { bounded = h.bounded; size = h.size }) in
      if-IsWindow b.closed (err err_closed, b) _ h (record { bounded = f.bounded; size = f.size })

  delete_decoded-IsWindow :
      (prefix bytes : Bytes) (b : BlockAppendOnlyLog T) (e : Ending)
      → IsWindow N b
      → IsWindow N (delete_decoded S prefix bytes b e).1
  delete_decoded-IsWindow prefix bytes b complete h = tombstone_all-Keeps _ b h
  delete_decoded-IsWindow prefix bytes b broken h = h
  delete_decoded-IsWindow prefix bytes b out_of_fuel h = h

  delete_read-IsWindow :
      (prefix : Bytes) (b : BlockAppendOnlyLog T) (r : Result Bytes)
      → IsWindow N b
      → IsWindow N (delete_read S prefix b r).1
  delete_read-IsWindow prefix b (err x) h = h
  delete_read-IsWindow prefix b (ok bytes) h =
      delete_decoded-IsWindow prefix bytes b (decode bytes).ending h

  delete_found-IsWindow :
      (prefix : Bytes) (b : BlockAppendOnlyLog T) (o : Option BlockIndexEntry)
      → IsWindow N b
      → IsWindow N (delete_found S prefix b o).1
  delete_found-IsWindow prefix b none h = h
  delete_found-IsWindow prefix b (some e) h = delete_read-IsWindow prefix b (read_block b e) h

  pub delete_by_prefix_in_block-Keeps :
      (target : ℕ) (prefix : Bytes) → Keeps N (delete_by_prefix_in_block S target prefix)
  unfolding delete_by_prefix_in_block
  delete_by_prefix_in_block-Keeps target prefix b h =
      let o = get_block_index_entry b target in
      if-IsWindow b.closed (err log_closed, b) (delete_found S prefix b o) h
        (delete_found-IsWindow prefix b o h)

  pub background_flush-IsWindow :
      (b : BlockAppendOnlyLog T) → IsWindow N b → IsWindow N (background_flush b)
  unfolding background_flush
  background_flush-IsWindow b h = flush-Keeps b h
