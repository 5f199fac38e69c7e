-- ===== src/Tests/Program.antt =====
-- Everything that a run of the block log computes with, under one name.
use theo_extension.Common.Bytes.{
  bytes_beq, bytes_lt, has_prefix, put_uint64, put_uint32, uint_be, read_full, read_at, write_at,
}
use theo_extension.Common.Maps.{lookup, insert, erase, contains, add, discard}
use theo_extension.KeyType.Trie.{get_data_type_from_key}
use theo_extension.KeyType.BlockKey.{parse_block_number_from_key}
use theo_extension.BlockLog.Skiplist.Assoc.{walk}
use theo_extension.BlockLog.Entry.{
  write_log_entry, read_body, read_log_entry, encode_index_entry, decode_index_entry,
}
use theo_extension.BlockLog.Order.{
  baol_write_priority, write_before, insert_pair, sort_pairs, write_pairs, write_log_entries,
  decode_block,
}
use theo_extension.BlockLog.Index.{
  check_entry, find_block_index_entry_on_disk, find_in_buffer, get_block_index_entry_with_source,
  get_block_index_entry, write_index_entry, flush_entries, flush_index_buffer_with_block_id,
  flush_index_buffer, background_flush, save_index_meta, load_index_meta,
}
use theo_extension.BlockLog.Recent.{
  build_kv_pointer_for_skiplist, append_key, record_indexed_key, insert_id, sort_ids,
  set_skiplist_entry, index_entries, remove_keys, scan_remove, evict_old_block_from_skiplist,
  trim_recent, update_recent_blocks, collect_blocks, rebuild_tracking,
  ensure_write_tracking_initialized,
}
use theo_extension.BlockLog.Read.{
  find_key, scan_for_key, collect_pairs, read_data, read_header_in_block, read_header_and_locate,
  read_value_bytes, read_block, find_key_in_one_block, get_from_disk, get_by_number, get_by_block,
  get_value,
}
use theo_extension.BlockLog.Write.{
  write_data, fill_one, fill_loop, fill_missing_blocks_until, check_block_id, fill_gap, advance_to,
  index_block, append_pairs, append_checked, append, commit_marker, mark_block_committed,
  append_new_block, append_to_new_block, write_tombstone, delete_tracked, delete, keys_to_tombstone,
  delete_by_prefix_in_block, flush_data_and_index, close,
}
use theo_extension.BlockLog.Boot.{
  load_entry, load_slot, load_slots, load_block_index, read_and_index_block_from, rebuild_loop,
  rebuild_skiplist, choose_recent, release_bootstrap_resources, initial_state,
  new_block_append_only_log,
}
use theo_extension.AccountCache.{
  entry_of, change_entry, new_account_hash_to_key_cache, link_prev, link_next, detach, link_head,
  attach_front, move_to_front, alloc_index, get_key, reuse_entry, put_new, put_key,
}

unfoldable pub program : Unit {0}
unfolding bytes_beq bytes_lt has_prefix put_uint64 put_uint32 uint_be read_full read_at write_at
    lookup insert erase contains add discard get_data_type_from_key parse_block_number_from_key walk
    write_log_entry read_body read_log_entry encode_index_entry decode_index_entry
    baol_write_priority write_before insert_pair sort_pairs write_pairs write_log_entries
    decode_block check_entry find_block_index_entry_on_disk find_in_buffer
    get_block_index_entry_with_source get_block_index_entry write_index_entry flush_entries
    flush_index_buffer_with_block_id flush_index_buffer background_flush save_index_meta
    load_index_meta build_kv_pointer_for_skiplist append_key record_indexed_key insert_id sort_ids
    set_skiplist_entry index_entries remove_keys scan_remove evict_old_block_from_skiplist
    trim_recent update_recent_blocks collect_blocks rebuild_tracking
    ensure_write_tracking_initialized find_key scan_for_key collect_pairs read_data
    read_header_in_block read_header_and_locate read_value_bytes read_block find_key_in_one_block
    get_from_disk get_by_number get_by_block get_value write_data fill_one fill_loop
    fill_missing_blocks_until check_block_id fill_gap advance_to index_block append_pairs
    append_checked append commit_marker mark_block_committed append_new_block append_to_new_block
    write_tombstone delete_tracked delete keys_to_tombstone delete_by_prefix_in_block
    flush_data_and_index close load_entry load_slot load_slots load_block_index
    read_and_index_block_from rebuild_loop rebuild_skiplist choose_recent
    release_bootstrap_resources initial_state new_block_append_only_log entry_of change_entry
    new_account_hash_to_key_cache link_prev link_next detach link_head attach_front move_to_front
    alloc_index get_key reuse_entry put_new put_key
program = tt
