-- ===== src/Tests/Witnesses.antt =====
-- An instance of each theorem that has hypotheses: the log `three` holds the blocks 5 to 8, of which
-- block 6 is empty.
use mathlib.Core.List.{Perm}
use theo_extension.Common.{
  ℕ, ◌≤◌, ◌+◌, ◌^◌, ◌<◌, ◌≡◌, ◌≢◌, refl, true, some, List, [], ◌∷◌, ◌++◌, arith, length,
}
use theo_extension.Tests.Program.{program}
use theo_extension.Tests.Runs.{no_files, three, body}
use theo_extension.Common.Bytes.{Bytes, bytes_eq}
use theo_extension.Common.Maps.{lookup}
use theo_extension.KeyType.BlockKey.{block_key, block_number, block_number-block_key}
use theo_extension.KeyType.Trie.{get_data_type_from_key}
use theo_extension.KeyType.{key_prefixes, unknown_type}
use theo_extension.KeyType.Match.{
  last_known, prefix_types, registered, get_data_type_from_key-longest,
}
use theo_extension.BlockLog.Entry.{write_log_entry, read_log_entry, entry}
use theo_extension.BlockLog.Entry.RoundTrip.{log_entry, read_log_entry-write_log_entry}
use theo_extension.BlockLog.Order.{
  Pairs, write_pairs, sort_pairs, decode_block, out_of_fuel, complete,
}
use theo_extension.BlockLog.Order.Decode.{
  entries_of, decode_block-write_pairs, decode_block-ne-out_of_fuel,
}
use theo_extension.BlockLog.Order.Sort.{AreInOrder, sort_pairs-perm-AreInOrder}
use theo_extension.BlockLog.Skiplist.Assoc.{assoc_skiplist, Pointers}
use theo_extension.BlockLog.State.{BlockAppendOnlyLog, ok, err, non_monotonic}
use theo_extension.BlockLog.Index.{flush_index_buffer, get_block_index_entry}
use theo_extension.BlockLog.Recent.Reached.{
  length-calls, calls, append_call, append_to_new_block_call, delete_call, close_call,
  background_flush_call,
}
use theo_extension.BlockLog.Boot.{new_block_append_only_log}
use theo_extension.BlockLog.Log.Fresh.{get_value-append_to_new_block}
use theo_extension.BlockLog.Recent.{
  or_empty, build_kv_pointer_for_skiplist, ensure_write_tracking_initialized,
}
use theo_extension.BlockLog.Write.{
  append, append_to_new_block, mark_block_committed, fill_one, fill_missing_blocks_until,
  index_entry,
}
use theo_extension.BlockLog.Read.{get_value, get_by_block, read_value_bytes}
use theo_extension.BlockLog.Read.Values.{read_value_bytes-build}
use theo_extension.BlockLog.Layout.{index_of, data_of, entry_at}
use theo_extension.BlockLog.Log.{IsLog, numbered}
use theo_extension.BlockLog.Log.Waiting.{mapped, get_block_index_entry-IsPending}
use theo_extension.BlockLog.Log.Flush.{IsPending, buffer_of, after_flush, flush-IsPending}
use theo_extension.BlockLog.Log.Fill.{fill_missing_blocks_until-IsLog}
use theo_extension.BlockLog.Log.NewBlock.{append_to_new_block-IsLog}
use theo_extension.BlockLog.Log.Commit.{mark_block_committed-IsLog}
use theo_extension.BlockLog.Log.Reads.{get_by_block-lookup}
use theo_extension.BlockLog.Log.Guards.{append-old_block, append-below_min}

abbrev pub pair : ℕ → ℕ → Bytes × Bytes
pair n v = (body n, v ∷ [])

abbrev pub stored_blocks : List Pairs
stored_blocks = (pair 5 1 ∷ []) ∷ [] ∷ (pair 7 2 ∷ []) ∷ (pair 8 3 ∷ []) ∷ []

abbrev Log : Type 0
Log = BlockAppendOnlyLog Pointers

pub pair_ok : ((9 < 2 ^ 32) × (1 < 2 ^ 32)) × Unit {0}
pair_ok = ((omega arith, omega arith), tt)

pub three-IsLog : IsLog three stored_blocks
unfolding program data_of index_of
three-IsLog = record {
  is_open = refl;
  released = refl;
  flushed = refl;
  stored = refl;
  offset = refl;
  indexed = refl;
  numbers =
      numbered (pair 5 1 ∷ []) ([] ∷ (pair 7 2 ∷ []) ∷ (pair 8 3 ∷ []) ∷ []) (omega arith) refl;
  writable = (pair_ok, (tt, (pair_ok, (pair_ok, tt))));
  small_ids = omega arith;
  small_file = omega arith;
}

append_to_new_block-IsLog_example :
    (c : Log) × (append_to_new_block assoc_skiplist (pair 9 4 ∷ []) three ≡ (ok 9, c))
    × IsLog c (stored_blocks ++ (pair 9 4 ∷ []) ∷ [])
unfolding program
append_to_new_block-IsLog_example =
    append_to_new_block-IsLog assoc_skiplist (pair 9 4) [] three-IsLog (omega arith) pair_ok
      (omega arith)

mark_block_committed-IsLog_example :
    (c : Log) × (mark_block_committed assoc_skiplist 10 three ≡ (ok tt, c))
    × IsLog c (stored_blocks ++ ([] ∷ [] ∷ []))
unfolding program
mark_block_committed-IsLog_example =
    mark_block_committed-IsLog assoc_skiplist 10 three-IsLog (omega arith) (omega arith)

fill_missing_blocks_until-IsLog_example :
    (c : Log) × (fill_missing_blocks_until assoc_skiplist 10 three ≡ (ok tt, c))
    × IsLog c (stored_blocks ++ [] ∷ [])
    × (c.latest_block_id + 1 ≡ 10)
    × (c.current_offset ≡ three.current_offset)
unfolding program
fill_missing_blocks_until-IsLog_example =
    fill_missing_blocks_until-IsLog assoc_skiplist three-IsLog 10 (omega arith) (omega arith)

get_value-append_to_new_block_example :
    get_value assoc_skiplist (append_to_new_block assoc_skiplist (pair 9 4 ∷ []) three).1 (body 9)
    ≡ ok (4 ∷ [], true)
unfolding program
get_value-append_to_new_block_example =
    get_value-append_to_new_block assoc_skiplist (pair 9 4) [] (body 9) (4 ∷ []) three-IsLog
      (omega arith) pair_ok (omega arith) (omega arith) (omega arith, (omega arith, tt)) (refl, tt)
      refl

length-calls_example :
    let b =
      calls assoc_skiplist
        (append_call 5 (pair 5 1 ∷ [])
          ∷ append_call 9 (pair 9 2 ∷ [])
          ∷ background_flush_call
          ∷ append_to_new_block_call (pair 10 3 ∷ [])
          ∷ delete_call (body 5)
          ∷ close_call
          ∷ [])
        (new_block_append_only_log assoc_skiplist 2 no_files).1 in
    length (or_empty b.recent_blocks) ≤ 2
length-calls_example = length-calls assoc_skiplist 2 no_files (
    append_call 5 (pair 5 1 ∷ [])
    ∷ append_call 9 (pair 9 2 ∷ [])
    ∷ background_flush_call
    ∷ append_to_new_block_call (pair 10 3 ∷ [])
    ∷ delete_call (body 5)
    ∷ close_call
    ∷ [])

get_by_block-lookup_example :
    (kvs : Pairs) × (get_by_block three 5 ≡ ok kvs) × (lookup (body 5) kvs ≡ some (1 ∷ []))
unfolding program
get_by_block-lookup_example =
    get_by_block-lookup three-IsLog 0 (pair 5 1 ∷ []) refl (body 5) (refl, tt)

small_old : three.min_block_id + 0 < three.latest_block_id
unfolding program
small_old = omega arith

append-old_block_example :
    append assoc_skiplist 5 (pair 5 9 ∷ []) three
    ≡ (ok tt, ensure_write_tracking_initialized assoc_skiplist three)
unfolding program
append-old_block_example =
    append-old_block assoc_skiplist 0 (pair 5 1 ∷ []) (pair 5 9 ∷ []) three-IsLog refl small_old

append-below_min_example :
    append assoc_skiplist 3 (pair 3 9 ∷ []) three
    ≡ (err non_monotonic, ensure_write_tracking_initialized assoc_skiplist three)
unfolding program
append-below_min_example =
    append-below_min assoc_skiplist 3 (pair 3 9 ∷ []) three-IsLog (omega arith) (omega arith)
      (omega arith)

-- The log with an empty block 9 that waits in the index buffer.
abbrev waiting : Log
waiting = fill_one assoc_skiplist 9 three

waiting-IsPending : IsPending waiting stored_blocks ([] ∷ [])
unfolding program data_of index_of buffer_of
waiting-IsPending = record {
  is_open = refl;
  released = refl;
  buffered = refl;
  stored = refl;
  offset = refl;
  indexed = refl;
  numbers =
      numbered (pair 5 1 ∷ []) ([] ∷ (pair 7 2 ∷ []) ∷ (pair 8 3 ∷ []) ∷ [] ∷ []) (omega arith)
        refl;
  writable = (pair_ok, (tt, (pair_ok, (pair_ok, (tt, tt)))));
  small_ids = omega arith;
  small_file = omega arith;
}

get_block_index_entry-IsPending_example :
    (get_block_index_entry waiting 9 ≡ some (index_entry 9 78 78))
    × (get_block_index_entry (mapped (some ((9, index_entry 9 0 1) ∷ [])) waiting) 9
        ≡ some (index_entry 9 0 1))
unfolding program entry_at
get_block_index_entry-IsPending_example =
    get_block_index_entry-IsPending ((9, index_entry 9 0 1) ∷ []) 9 waiting-IsPending (omega arith)
      (omega arith)

flush-IsPending_example :
    (flush_index_buffer waiting
      ≡ (ok tt, after_flush waiting (index_of 5 0 (stored_blocks ++ [] ∷ []))))
    × IsLog
        (after_flush waiting (index_of 5 0 (stored_blocks ++ [] ∷ [])))
        (stored_blocks ++ [] ∷ [])
unfolding program
flush-IsPending_example = flush-IsPending waiting-IsPending

read_value_bytes-build_example :
    read_value_bytes three (build_kv_pointer_for_skiplist 7 26 (body 7) (2 ∷ [])) ≡ some (2 ∷ [])
unfolding program
read_value_bytes-build_example =
    read_value_bytes-build three (write_log_entry 5 (body 5) (1 ∷ [])) (body 7) (2 ∷ [])
      (write_log_entry 8 (body 8) (3 ∷ [])) 7 26 refl refl (omega arith) (omega arith) (omega arith)

abbrev two_pairs : Pairs
two_pairs = pair 8 3 ∷ pair 9 4 ∷ []

decode_block-write_pairs_example :
    decode_block 100 (write_pairs 8 two_pairs)
    ≡ record { entries = entries_of 8 two_pairs; ending = complete }
unfolding program
decode_block-write_pairs_example =
    decode_block-write_pairs 100 8 two_pairs (omega arith) (pair_ok.0, pair_ok) (omega arith)

decode_block-ne-out_of_fuel_example : (decode_block 4 (0 ∷ 0 ∷ 7 ∷ [])).ending ≢ out_of_fuel
decode_block-ne-out_of_fuel_example = decode_block-ne-out_of_fuel 4 (0 ∷ 0 ∷ 7 ∷ []) (omega arith)

small_body : length (body 7) < 2 ^ 32
unfolding program
small_body = omega arith

read_log_entry-write_log_entry_example :
    read_log_entry (write_log_entry 7 (body 7) (2 ∷ []) ++ (1 ∷ 2 ∷ []))
    ≡ entry (log_entry 7 (body 7) (2 ∷ [])) (1 ∷ 2 ∷ [])
read_log_entry-write_log_entry_example =
    read_log_entry-write_log_entry 7 (body 7) (2 ∷ []) (1 ∷ 2 ∷ []) (omega arith) small_body
      (omega arith)

sort_pairs-perm-AreInOrder_example :
    Perm (sort_pairs two_pairs) two_pairs × AreInOrder (sort_pairs two_pairs)
sort_pairs-perm-AreInOrder_example = sort_pairs-perm-AreInOrder two_pairs

get_data_type_from_key-longest_example :
    get_data_type_from_key (body 7)
    ≡ last_known unknown_type (prefix_types (registered unknown_type key_prefixes) (body 7))
get_data_type_from_key-longest_example = get_data_type_from_key-longest (body 7)

block_number-block_key_example :
    (block_number (block_key b'h' 7 (1 ∷ [])) ≡ some 7)
    × (block_number (block_key b'b' 7 (1 ∷ [])) ≡ some 7)
    × (block_number (block_key b'r' 7 (1 ∷ [])) ≡ some 7)
block_number-block_key_example = block_number-block_key 7 (1 ∷ []) (omega arith)
