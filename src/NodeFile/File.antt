-- ===== src/NodeFile/File.antt =====
-- The operations on one node file (THEO/prefixdb/prefixTree.go); a file that does not exist is
-- `none`. The cache of decoded files and the snapshot of a running compaction are left out: both
-- hold what the file holds, and each write waits for the compaction and drops the cache.
use theo_extension.Common.{
  ℕ, zero, suc, ◌+◌, ◌-◌, ◌*◌, ◌/◌, ◌%◌, ◌^◌, Bool, true, false, not, Option, none, some, List, [],
  ◌∷◌, ◌++◌, ◌==◌, ltb, leb, if◌then◌else◌, length, take, drop, replicate, is_some,
}
use theo_extension.Common.Bytes.{Bytes}
use theo_extension.NodeFile.Entry.{
  NodeInfo, node_entry_size, tombstone_node_info, encode_node_entry, encode_node_entries,
  append_node_commit_tag, node_commit_tag_block_id,
}
use theo_extension.NodeFile.Search.{get_from_slices, node_file_contains_key}
use theo_extension.NodeFile.Compact.{build_entries_from_slices}
use theo_extension.NodeFile.Header.{
  Outcome, ok, err, open_failed, bad_size, bad_magic, short_payload, not_aligned, Zstd,
  FileNodeHeader, file_node_magic, file_node_version_base, header_size, encode_file_node_header,
  decode_file_node_header, sorted_compressed_size, read_file_node, encode_node_file_payload,
}

abbrev pub File : Type 0
File = Option Bytes

-- The header of a new file.
abbrev pub new_header : FileNodeHeader
new_header = record {
  magic = file_node_magic;
  version = file_node_version_base;
  sorted_entry_count = 0;
  unsorted_entry_count = 0;
  reserved = replicate 8 0;
}

abbrev pub bytes_of : File → Bytes
bytes_of none = []
bytes_of (some f) = f

abbrev append_to_bytes : Bytes → Bytes → Outcome (Unit {0}) × File
append_to_bytes entry_data f =
    if length f == 0
    then (ok tt, some (encode_file_node_header new_header ++ entry_data))
    else if ltb (length f) header_size
    then (err bad_size, some f)
    else (ok tt, some (f ++ entry_data))

unfoldable pub append_file_node_entries_with_block_id :
    List NodeInfo → ℕ → File → Outcome (Unit {0}) × File
append_file_node_entries_with_block_id [] block_id file = (ok tt, file)
append_file_node_entries_with_block_id (n ∷ ns) block_id file =
    append_to_bytes (append_node_commit_tag (encode_node_entries (n ∷ ns)) block_id) (bytes_of file)

-- Where the newest commit tag among `count` entries from `start` ends.
unfoldable pub last_tag_end : ℕ → ℕ → Bytes → Option ℕ
last_tag_end zero start payload = none
last_tag_end (suc count) start payload =
    let cursor = start + suc count * node_entry_size in
    let rest = last_tag_end count start payload in
    if is_some
      (node_commit_tag_block_id (take node_entry_size (drop (cursor - node_entry_size) payload)))
    then some cursor
    else rest

unfoldable pub find_last_node_commit_tag_end : Bytes → Option ℕ
find_last_node_commit_tag_end payload =
    let header = decode_file_node_header payload in
    let unsorted_start = header_size + sorted_compressed_size header in
    if not (ltb header_size (length payload))
    then none
    else if not (header.magic == file_node_magic)
    then none
    else if ltb (length payload) unsorted_start
    then none
    else last_tag_end ((length payload - unsorted_start) / node_entry_size) unsorted_start payload

-- One file of `TrimNodeFilesAfterCommitTag`, which does nothing for block 0.
abbrev pub cut_at : Bytes → Option ℕ → Bytes
cut_at payload none = payload
cut_at payload (some end) = if leb (length payload) end then payload else take end payload

unfoldable pub trim_node_file : Bytes → Bytes
trim_node_file payload = cut_at payload (find_last_node_commit_tag_end payload)

module _ (Z : Zstd) where
  abbrev found_in : Bytes → Outcome (Bytes × Bytes) → Outcome (Option NodeInfo)
  found_in key (ok (sorted, unsorted)) = ok (get_from_slices sorted unsorted key)
  found_in key (err e) = err e

  abbrev get_from_bytes : Bytes → Bytes → Outcome (Option NodeInfo)
  get_from_bytes key f =
      if ltb (length f) header_size
      then err bad_size
      else if not ((decode_file_node_header f).magic == file_node_magic)
      then err bad_magic
      else if length f == header_size
      then ok none
      else found_in key (read_file_node Z f)

  unfoldable pub get_from_file_node : Bytes → File → Outcome (Option NodeInfo)
  get_from_file_node key none = ok none
  get_from_file_node key (some f) = get_from_bytes key f

  abbrev delete_found : Bytes → Bytes → Outcome (Bytes × Bytes) → Outcome Bool × File
  delete_found key f (err e) = (err e, some f)
  delete_found key f (ok (sorted, unsorted)) =
      if not (node_file_contains_key sorted unsorted key)
      then (ok false, some f)
      else (ok true, some (f ++ encode_node_entry (tombstone_node_info key)))

  unfoldable pub delete_from_file_node : Bytes → File → Outcome Bool × File
  delete_from_file_node key none = (err open_failed, none)
  delete_from_file_node key (some f) = delete_found key f (read_file_node Z f)

  -- The file that `compactFileFromState` writes.
  unfoldable pub compacted_file : Bool → List NodeInfo → Bytes
  compacted_file compress entries =
      let (header, payload) =
        encode_node_file_payload Z
          (record new_header { sorted_entry_count = length entries % 2 ^ 32 })
          (encode_node_entries entries) [] compress in
      encode_file_node_header header ++ payload

  -- A compaction of what the file holds now, which there is if it has unsorted entries.
  abbrev compact_found : Bool → Bytes → Outcome (Bytes × Bytes) → Outcome (Unit {0}) × File
  compact_found compress f (err e) = (err e, some f)
  compact_found compress f (ok (sorted, unsorted)) =
      (ok tt, some (compacted_file compress (build_entries_from_slices sorted unsorted)))

  abbrev compact_bytes : Bool → Bytes → Outcome (Unit {0}) × File
  compact_bytes compress f =
      let header = decode_file_node_header f in
      let stored = sorted_compressed_size header in
      let payload_size = length f - header_size in
      if ltb (length f) header_size
      then (err bad_size, some f)
      else if not (header.magic == file_node_magic)
      then (err bad_magic, some f)
      else if payload_size == 0
      then (ok tt, some f)
      else if ltb payload_size stored
      then (err short_payload, some f)
      else if not ((payload_size - stored) % node_entry_size == 0)
      then (err not_aligned, some f)
      else if payload_size == stored
      then (ok tt, some f)
      else compact_found compress f (read_file_node Z f)

  unfoldable pub compact_file : Bool → File → Outcome (Unit {0}) × File
  compact_file compress none = (ok tt, none)
  compact_file compress (some f) = compact_bytes compress f
