-- ===== src/Tests/Nodes.antt =====
-- Node files and logs of pairs on concrete bytes, and an instance of each theorem on them that has
-- hypotheses.
use theo_extension.Common.{
  ℕ, ◌^◌, ◌<◌, ◌≡◌, refl, true, false, Option, none, some, List, [], ◌∷◌, ◌++◌, arith, length, take,
  is_some, le→leb, All,
}
use theo_extension.Common.Bytes.{Bytes, bytes_beq, bytes_lt, put_uint64, put_uint32, uint_be}
use theo_extension.NodeFile.Entry.{
  NodeInfo, tombstone_node_info, encode_node_entry, encode_node_entries, decode_node_entry,
  node_lookup_key, is_node_info_tombstone, node_commit_tag, node_commit_tag_block_id,
}
use theo_extension.NodeFile.Entry.RoundTrip.{IsEncodable, decode_node_entry-encode_node_entry}
use theo_extension.NodeFile.Search.{
  find_node_info_in_sorted_slice, get_from_slices, node_file_contains_key,
}
use theo_extension.NodeFile.Find.{find_entry}
use theo_extension.NodeFile.BinarySearch.{IsEntry}
use theo_extension.NodeFile.Lookup.{find_node_info_in_sorted_slice-eq}
use theo_extension.NodeFile.Compact.{build_entries_from_slices, merged_with}
use theo_extension.NodeFile.Unsorted.{get-compaction, get-put_after_delete}
use theo_extension.NodeFile.Header.{
  Zstd, ok, encode_file_node_header, decode_file_node_header, sorted_compressed_size,
  sorted_compressed, read_file_node, decode_node_file_payload,
}
use theo_extension.NodeFile.Hits.{is_hit}
use theo_extension.NodeFile.File.{
  append_file_node_entries_with_block_id, get_from_file_node, trim_node_file, new_header,
}
use theo_extension.NodeFile.Joined.{joined}
use theo_extension.NodeFile.Appended.{Holds, get-append_file_node_entries}
use theo_extension.NodeFile.Trim.{trim_node_file-crashed}
use theo_extension.Segment.{
  KvPair, serialize_storage_segment, append_forward_commit_tag, count_payload_entries,
  build_pairs_from_payload, last_forward_commit_tag_block_id, trim_file_after_last_commit_tag,
  write_pair,
}
use theo_extension.Segment.Records.{
  Record, written_pair, written_tag, write_record, write_records, IsRecord, is_pair, is_tag, IsTorn,
}
use theo_extension.Segment.Recovery.{trim_file-torn}
use theo_extension.Segment.Parse.{pairs_of, build_pairs-serialize_storage_segment}

-- The account entry of a one-byte key.
abbrev node : ℕ → ℕ → NodeInfo
node k offset = record (tombstone_node_info (k ∷ [])) { account_offset = offset; account_size = 70 }

node-IsEncodable : (k offset : ℕ) → offset < 2 ^ 64 → IsEncodable (node k offset)
node-IsEncodable k offset h = record {
  offset = h;
  size = omega arith;
  file = omega arith;
  storage = omega arith;
  total = omega arith;
}

node-IsEntry : (k offset : ℕ) → offset < 2 ^ 64 → IsEntry (node k offset)
node-IsEntry k offset h = record {
  named = omega arith;
  short = omega arith;
  fits = node-IsEncodable k offset h;
}

decode_node_entry-encode_node_entry_example :
    decode_node_entry (encode_node_entry (node 7 300)) ≡ node 7 300
unfolding node_lookup_key
decode_node_entry-encode_node_entry_example =
    decode_node_entry-encode_node_entry (node 7 300) (node-IsEncodable 7 300 (omega arith))

abbrev sorted : List NodeInfo
sorted = node 3 100 ∷ node 5 200 ∷ node 9 300 ∷ []

sorted_entries : All IsEntry sorted
sorted_entries = (
  node-IsEntry 3 100 (omega arith),
  (node-IsEntry 5 200 (omega arith), (node-IsEntry 9 300 (omega arith), tt)),
)

find_node_info_in_sorted_slice-eq_example :
    find_node_info_in_sorted_slice (encode_node_entries sorted) (5 ∷ []) ≡ some (node 5 200)
unfolding find_entry node_lookup_key bytes_beq bytes_lt
find_node_info_in_sorted_slice-eq_example =
    find_node_info_in_sorted_slice-eq sorted (5 ∷ []) sorted_entries
      ((refl, (refl, tt)), ((refl, tt), (tt, tt))) (omega arith)

abbrev appended : List NodeInfo
appended = node 4 400 ∷ node 5 500 ∷ node 8 600 ∷ []

get-compaction_example :
    get_from_slices (encode_node_entries sorted) (encode_node_entries appended) (5 ∷ [])
    ≡ get_from_slices
        (encode_node_entries
          (build_entries_from_slices (encode_node_entries sorted) (encode_node_entries appended)))
        []
        (5 ∷ [])
unfolding bytes_beq bytes_lt
get-compaction_example =
    get-compaction sorted (node 4 400 ∷ []) (node 5 500) (node 8 600 ∷ []) sorted_entries
      ((refl, (refl, tt)), ((refl, tt), (tt, tt))) (node-IsEntry 4 400 (omega arith), tt)
      (node-IsEntry 5 500 (omega arith)) (node-IsEntry 8 600 (omega arith), tt) (refl, tt)
      (refl, tt) (omega arith)

abbrev revived : List NodeInfo
revived = node 4 400 ∷ tombstone_node_info (5 ∷ []) ∷ node 8 600 ∷ node 5 500 ∷ []

get-put_after_delete_example :
    (get_from_slices (encode_node_entries sorted) (encode_node_entries revived) (5 ∷ []) ≡ none)
    × (node_file_contains_key (encode_node_entries sorted) (encode_node_entries revived) (5 ∷ [])
        ≡ true)
    × (is_some (
          get_from_slices
            (encode_node_entries (
              build_entries_from_slices (encode_node_entries sorted) (encode_node_entries revived)))
            []
            (5 ∷ []))
        ≡ true)
unfolding bytes_beq bytes_lt is_node_info_tombstone
get-put_after_delete_example =
    get-put_after_delete sorted (node 4 400 ∷ []) (node 8 600 ∷ []) (node 5 500) sorted_entries
      (node-IsEntry 4 400 (omega arith), tt) (node-IsEntry 8 600 (omega arith), tt)
      (node-IsEntry 5 500 (omega arith)) refl (omega arith)

-- Compression that puts a byte in front.
abbrev marked : Bytes → Option Bytes
marked [] = none
marked (b ∷ bs) = some bs

abbrev marking : Zstd
marking = record {
  encode_all = λ src. 0 ∷ src;
  decode_all = marked;
  decode-encode = λ src. refl;
  encode_some = λ b src. le→leb 1 (length (0 ∷ b ∷ src)) (omega arith);
}

abbrev small_file : Bytes
small_file =
    encode_file_node_header (record new_header { sorted_entry_count = 1 })
    ++ (encode_node_entry (node 5 200) ++ encode_node_entry (node 8 600))

small_file-Holds :
    Holds marking (some small_file) (node 5 200 ∷ []) (encode_node_entry (node 8 600) ∷ [])
unfolding read_file_node decode_node_file_payload encode_file_node_header decode_file_node_header
    sorted_compressed sorted_compressed_size encode_node_entry encode_node_entries joined put_uint64
    put_uint32 uint_be
small_file-Holds =
    Holds.stored small_file (node 5 200 ∷ []) (encode_node_entry (node 8 600) ∷ []) refl

get-append_file_node_entries_example :
    (g : Bytes) × (append_file_node_entries_with_block_id (node 5 500 ∷ []) 7 (some small_file)
      ≡ (ok tt, some g))
    × (get_from_file_node marking (5 ∷ []) (some g)
        ≡ ok (some (merged_with (some (node 5 200)) (node 5 500))))
unfolding is_hit decode_node_entry encode_node_entry bytes_beq find_entry is_node_info_tombstone
    put_uint64 put_uint32 node_commit_tag_block_id
get-append_file_node_entries_example =
    get-append_file_node_entries marking (some small_file) (node 5 200 ∷ [])
      (encode_node_entry (node 8 600) ∷ []) (node 5 500) 7 small_file-Holds
      (node-IsEntry 5 200 (omega arith), tt) (tt, tt) (node-IsEntry 5 500 (omega arith)) (refl, tt)
      (refl, tt) (omega arith) (omega arith) (omega arith)

trim_node_file-crashed_example :
    trim_node_file (
      small_file
      ++ (node_commit_tag 7 ++ (encode_node_entries (node 6 700 ∷ []) ++ (1 ∷ 2 ∷ 3 ∷ []))))
    ≡ small_file ++ node_commit_tag 7
unfolding encode_file_node_header decode_file_node_header sorted_compressed sorted_compressed_size
    encode_node_entry put_uint64 put_uint32 uint_be
trim_node_file-crashed_example =
    trim_node_file-crashed small_file 7 (node 6 700 ∷ []) (1 ∷ 2 ∷ 3 ∷ []) 87 1 refl (omega arith)
      (omega arith) (omega arith, tt) (omega arith) refl refl (omega arith)

abbrev kv : ℕ → ℕ → KvPair
kv k v = record { key = k ∷ 0 ∷ []; val = v ∷ [] }

abbrev log : List Record
log = written_pair (kv 1 10) ∷ written_tag 6 ∷ written_pair (kv 2 20) ∷ []

pair-IsTorn : IsTorn (take 5 (write_record (written_pair (kv 4 40))))
unfolding write_record write_pair
pair-IsTorn = record {
  torn = written_pair (kv 4 40);
  kept = 5;
  whole = is_pair (kv 4 40) (omega arith) (omega arith) (omega arith);
  short = omega arith;
  cut = refl;
}

some_pair : (k v : ℕ) → IsRecord (written_pair (kv k v))
some_pair k v = is_pair (kv k v) (omega arith) (omega arith) (omega arith)

log-IsRecord : All IsRecord log
log-IsRecord = (some_pair 1 10, (is_tag 6 (omega arith), (some_pair 2 20, tt)))

whole-IsRecord : All IsRecord (log ++ written_tag 7 ∷ written_pair (kv 3 30) ∷ [])
whole-IsRecord = (
  log-IsRecord.0,
  (log-IsRecord.1.0, (log-IsRecord.1.1.0, (is_tag 7 (omega arith), (some_pair 3 30, tt)))),
)

trim_file-torn_example :
    (trim_file_after_last_commit_tag
        (write_records (log ++ written_tag 7 ∷ written_pair (kv 3 30) ∷ [])
          ++ take 5 (write_record (written_pair (kv 4 40))))
        false
      ≡ (write_records (log ++ written_tag 7 ∷ []), true))
    × (last_forward_commit_tag_block_id
          (write_records (log ++ written_tag 7 ∷ written_pair (kv 3 30) ∷ [])
            ++ take 5 (write_record (written_pair (kv 4 40))))
          false
        ≡ some 7)
trim_file-torn_example =
    trim_file-torn log 7 (kv 3 30 ∷ []) (take 5 (write_record (written_pair (kv 4 40))))
      whole-IsRecord pair-IsTorn

build_pairs-serialize_storage_segment_example :
    (s : Bytes) × (serialize_storage_segment (kv 3 30 ∷ []) ≡ some s)
    × (count_payload_entries (write_records log ++ append_forward_commit_tag s 7) ≡ some 3)
    × (build_pairs_from_payload (write_records log ++ append_forward_commit_tag s 7) 3
        ≡ some (kv 1 10 ∷ kv 2 20 ∷ kv 3 30 ∷ []))
unfolding pairs_of
build_pairs-serialize_storage_segment_example =
    build_pairs-serialize_storage_segment log (kv 3 30 ∷ []) 7 log-IsRecord
      ((omega arith, omega arith, omega arith), tt) (omega arith) (omega arith)
