-- ===== src/Segment.antt =====
-- The records of a storage segment (THEO/prefixdb/prefixdb.go): pairs with a header of two lengths,
-- and commit tags, which have both lengths 0. Four loops of the source go through such bytes by the
-- same steps; `next_record` is one step of theirs, on the cursor.
pub mod Records
pub mod Loops
pub mod Recovery
pub mod Parse
use theo_extension.Common.{
  ℕ, zero, suc, ◌+◌, ◌*◌, ◌/◌, ◌%◌, ◌^◌, Bool, true, false, ◌&&◌, ◌||◌, not, Option, none, some,
  List, [], ◌∷◌, ◌++◌, ◌==◌, ltb, leb, if◌then◌else◌, length, take, drop, replicate, is_some,
}
use theo_extension.Common.Bytes.{Bytes, put_uint64, uint_be}

-- segmentedChunkEntryHeaderSize and commitTagRecordSize
abbrev pub segmented_chunk_entry_header_size : ℕ
segmented_chunk_entry_header_size = 4

abbrev pub commit_tag_record_size : ℕ
commit_tag_record_size = 12

pub record KvPair : Type 0 where
  pub key : Bytes
  pub val : Bytes

abbrev pub write_uint16_be : ℕ → Bytes
write_uint16_be v = (v / 2 ^ 8 % 256) ∷ (v % 256) ∷ []

unfoldable pub write_pair : KvPair → Bytes
write_pair kv =
    write_uint16_be (length kv.key) ++ (write_uint16_be (length kv.val) ++ (kv.key ++ kv.val))

-- A key or value that is too long is an error.
unfoldable pub serialize_storage_segment : List KvPair → Option Bytes
serialize_storage_segment [] = some []
serialize_storage_segment (kv ∷ kvs) =
    let rest = serialize_storage_segment kvs in
    if ltb 65535 (length kv.key) || ltb 65535 (length kv.val)
    then none
    else elim rest [ none ↦ none | some bytes ↦ some (write_pair kv ++ bytes) ]

unfoldable pub forward_commit_tag : ℕ → Bytes
forward_commit_tag block_id = replicate 4 0 ++ put_uint64 block_id

unfoldable pub append_forward_commit_tag : Bytes → ℕ → Bytes
append_forward_commit_tag dst block_id =
    if block_id == 0 then dst else dst ++ forward_commit_tag block_id

-- `payload[cursor+from : cursor+to]` as a number.
abbrev pub number_at : Bytes → ℕ → ℕ → ℕ
number_at payload cursor size = uint_be (take size (drop cursor payload))

unfoldable pub forward_commit_tag_block_id : Bytes → ℕ → Option ℕ
forward_commit_tag_block_id payload cursor =
    if ltb (length payload) (cursor + commit_tag_record_size)
    then none
    else if not (number_at payload cursor 2 == 0) || not (number_at payload (cursor + 2) 2 == 0)
    then none
    else some (number_at payload (cursor + segmented_chunk_entry_header_size) 8)

pub data Step : Type 0 where
  finished too_short bad_tag cut_off : Step
  tag : ℕ → Step
  pair : KvPair → Step

abbrev tag_or_bad : Option ℕ → Step
tag_or_bad none = bad_tag
tag_or_bad (some block_id) = tag block_id

unfoldable pub next_record : Bytes → ℕ → Step
next_record payload cursor =
    let klen = number_at payload cursor 2 in
    let vlen = number_at payload (cursor + 2) 2 in
    let start = cursor + segmented_chunk_entry_header_size in
    if not (ltb cursor (length payload))
    then finished
    else if ltb (length payload) start
    then too_short
    else if klen == 0 && vlen == 0
    then tag_or_bad (forward_commit_tag_block_id payload cursor)
    else if ltb (length payload) (start + klen + vlen)
    then cut_off
    else pair (record {
      key = take klen (drop start payload);
      val = take vlen (drop (start + klen) payload);
    })

-- Where the record behind a pair begins.
abbrev pub past : ℕ → KvPair → ℕ
past cursor kv = cursor + segmented_chunk_entry_header_size + length kv.key + length kv.val

-- The loops take fuel; each round moves on by four bytes or more.
unfoldable pub count_from : ℕ → Bytes → ℕ → ℕ → Option ℕ
count_from zero payload cursor count = none
count_from (suc fuel) payload cursor count = elim (next_record payload cursor) [
  | finished ↦ some count
  | tag i ↦ count_from fuel payload (cursor + commit_tag_record_size) count
  | pair kv ↦ count_from fuel payload (past cursor kv) (count + 1)
  | _ ↦ none
]

-- `countPayloadEntriesWithHeaderSize`, for the one header size there is.
unfoldable pub count_payload_entries : Bytes → Option ℕ
count_payload_entries payload = count_from (length payload + 1) payload 0 0

abbrev pub with_pair : KvPair → Option (List KvPair) → Option (List KvPair)
with_pair kv none = none
with_pair kv (some kvs) = some (kv ∷ kvs)

-- `buildPairsFromPayload` stops when it has `count` pairs; the end of the bytes is then an error.
unfoldable pub build_pairs_from : ℕ → ℕ → Bytes → ℕ → Option (List KvPair)
build_pairs_from fuel zero payload cursor = some []
build_pairs_from zero (suc count) payload cursor = none
build_pairs_from (suc fuel) (suc count) payload cursor = elim (next_record payload cursor) [
  | tag i ↦ build_pairs_from fuel (suc count) payload (cursor + commit_tag_record_size)
  | pair kv ↦ with_pair kv (build_pairs_from fuel count payload (past cursor kv))
  | _ ↦ none
]

unfoldable pub build_pairs_from_payload : Bytes → ℕ → Option (List KvPair)
build_pairs_from_payload payload count = build_pairs_from (length payload + 1) count payload 0

-- The loop of `findLastForwardCommitTagEndFrom`: it ends at the first record that is not whole.
unfoldable pub find_end_from : ℕ → Bytes → ℕ → Option ℕ → Option ℕ
find_end_from zero payload cursor end = end
find_end_from (suc fuel) payload cursor end = elim (next_record payload cursor) [
  | tag i ↦
      find_end_from fuel payload (cursor + commit_tag_record_size)
        (some (cursor + commit_tag_record_size))
  | pair kv ↦ find_end_from fuel payload (past cursor kv) end
  | _ ↦ end
]

unfoldable pub find_last_forward_commit_tag_end_from : Bytes → ℕ → Option ℕ
find_last_forward_commit_tag_end_from payload start =
    find_end_from (length payload + 1) payload start none

unfoldable pub last_block_id_from : ℕ → Bytes → ℕ → Option ℕ → Option ℕ
last_block_id_from zero payload cursor last = last
last_block_id_from (suc fuel) payload cursor last = elim (next_record payload cursor) [
  | tag i ↦ last_block_id_from fuel payload (cursor + commit_tag_record_size) (some i)
  | pair kv ↦ last_block_id_from fuel payload (past cursor kv) last
  | _ ↦ last
]

unfoldable pub last_forward_commit_tag_block_id_from : Bytes → ℕ → Option ℕ
last_forward_commit_tag_block_id_from payload start =
    last_block_id_from (length payload + 1) payload start none

-- Files of accounts may begin with one byte of padding.
abbrev begins_with_zero : Bytes → Bool
begins_with_zero [] = false
begins_with_zero (b ∷ bs) = b == 0

abbrev pub or_else : Option ℕ → Option ℕ → Option ℕ
or_else (some n) o = some n
or_else none o = o

unfoldable pub find_last_forward_commit_tag_end : Bytes → Bool → Option ℕ
find_last_forward_commit_tag_end payload allow_leading_padding =
    let whole = find_last_forward_commit_tag_end_from payload 0 in
    if allow_leading_padding && begins_with_zero payload
    then or_else (find_last_forward_commit_tag_end_from payload 1) whole
    else whole

unfoldable pub last_forward_commit_tag_block_id : Bytes → Bool → Option ℕ
last_forward_commit_tag_block_id payload allow_leading_padding =
    let whole = last_forward_commit_tag_block_id_from payload 0 in
    if allow_leading_padding && begins_with_zero payload
    then or_else (last_forward_commit_tag_block_id_from payload 1) whole
    else whole

-- `trimFileAfterLastCommitTag` on a file of this format: the file, and whether it has a tag.
abbrev pub cut_at : Bytes → Option ℕ → Bytes × Bool
cut_at payload none = (payload, false)
cut_at payload (some end) = (if ltb end (length payload) then take end payload else payload, true)

unfoldable pub trim_file_after_last_commit_tag : Bytes → Bool → Bytes × Bool
trim_file_after_last_commit_tag payload allow_leading_padding =
    cut_at payload (find_last_forward_commit_tag_end payload allow_leading_padding)
