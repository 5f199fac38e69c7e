-- ===== src/NodeFile/Entry.antt =====
-- The entries of a node file, and the tags that mark the end of a block's entries.
pub mod RoundTrip
use Prim.Native.Nat.{min}
use theo_extension.Common.{
  ℕ, ◌+◌, ◌-◌, Bool, true, false, ◌&&◌, ◌||◌, not, Option, none, some, List, [], ◌∷◌, ◌++◌, ◌==◌,
  ltb, if◌then◌else◌, length, take, drop, replicate, is_some,
}
use theo_extension.Common.Bytes.{Bytes, put_uint64, put_uint32, uint_be}

-- NodeEntrySize and MaxKeySize
abbrev pub node_entry_size : ℕ
node_entry_size = 65

abbrev pub max_key_size : ℕ
max_key_size = 32

-- "CMTBLOCK"
abbrev pub node_commit_tag_magic : ℕ
node_commit_tag_magic = 4849625017472729931

pub record NodeInfo : Type 0 where
  pub key : Bytes
  pub account_offset : ℕ
  pub account_size : ℕ
  pub storage_file_id : ℕ
  pub storage_offset : ℕ
  pub storage_size : ℕ

abbrev pub tombstone_node_info : Bytes → NodeInfo
tombstone_node_info key = record {
  key = key;
  account_offset = 0;
  account_size = 0;
  storage_file_id = 0;
  storage_offset = 0;
  storage_size = 0;
}

unfoldable pub is_node_info_tombstone : NodeInfo → Bool
is_node_info_tombstone n =
    n.account_offset == 0
    && n.account_size == 0
    && n.storage_file_id == 0
    && n.storage_offset == 0
    && n.storage_size == 0

unfoldable pub has_storage_info : NodeInfo → Bool
has_storage_info n =
    not (n.storage_file_id == 0) || not (n.storage_offset == 0) || not (n.storage_size == 0)

-- `mergeNodeInfoForAppend`, past the tombstone.
abbrev merge_account_size : NodeInfo → NodeInfo → NodeInfo
merge_account_size previous next =
    if next.account_size == 0 && next.account_offset == previous.account_offset
    then record next { account_size = previous.account_size }
    else next

abbrev with_storage_of : NodeInfo → NodeInfo → NodeInfo
with_storage_of previous merged = record merged {
  storage_file_id = previous.storage_file_id;
  storage_offset = previous.storage_offset;
  storage_size = previous.storage_size;
}

abbrev merge_storage : NodeInfo → NodeInfo → NodeInfo
merge_storage previous merged =
    if has_storage_info previous && not (has_storage_info merged)
    then (if ltb merged.account_offset previous.account_offset
        then record (with_storage_of previous merged) {
          account_offset = previous.account_offset;
          account_size = previous.account_size;
        }
        else with_storage_of previous merged)
    else merged

unfoldable pub merge_node_info_for_append : NodeInfo → NodeInfo → NodeInfo
merge_node_info_for_append previous next =
    if is_node_info_tombstone next
    then next
    else merge_storage previous (merge_account_size previous next)

unfoldable pub node_lookup_key : Bytes → Bytes
node_lookup_key key = if ltb max_key_size (length key) then take max_key_size key else key

abbrev pub key_len : Bytes → ℕ
key_len key = if ltb max_key_size (length key) then max_key_size else length key

-- The length of the key, the key in 32 bytes, and the numbers.
unfoldable pub encode_node_entry : NodeInfo → Bytes
encode_node_entry n =
    key_len n.key
    ∷ ((take (key_len n.key) n.key ++ replicate (max_key_size - key_len n.key) 0)
        ++ (put_uint64 n.account_offset
            ++ (put_uint32 n.account_size
                ++ (put_uint32 n.storage_file_id
                    ++ (put_uint64 n.storage_offset ++ put_uint64 n.storage_size)))))

-- `entry[start:end]`
abbrev pub slice : ℕ → ℕ → Bytes → Bytes
slice start end entry = take (end - start) (drop start entry)

abbrev no_info : NodeInfo
no_info = tombstone_node_info []

abbrev pub first_byte : Bytes → ℕ
first_byte [] = 0
first_byte (b ∷ bs) = b

unfoldable pub decode_node_entry : Bytes → NodeInfo
decode_node_entry entry = if ltb (length entry) node_entry_size then no_info else record {
  key = take (min max_key_size (first_byte entry)) (drop 1 entry);
  account_offset = uint_be (slice 33 41 entry);
  account_size = uint_be (slice 41 45 entry);
  storage_file_id = uint_be (slice 45 49 entry);
  storage_offset = uint_be (slice 49 57 entry);
  storage_size = uint_be (slice 57 65 entry);
}

unfoldable pub encode_node_entries : List NodeInfo → Bytes
encode_node_entries [] = []
encode_node_entries (n ∷ ns) = encode_node_entry n ++ encode_node_entries ns

-- The entry that `appendNodeCommitTag` adds; block 0 has none.
unfoldable pub node_commit_tag : ℕ → Bytes
node_commit_tag block_id =
    replicate 33 0 ++ (put_uint64 node_commit_tag_magic ++ (replicate 16 0 ++ put_uint64 block_id))

unfoldable pub append_node_commit_tag : Bytes → ℕ → Bytes
append_node_commit_tag dst block_id = if block_id == 0 then dst else dst ++ node_commit_tag block_id

unfoldable pub is_zero_range : Bytes → Bool
is_zero_range [] = true
is_zero_range (b ∷ bs) = b == 0 && is_zero_range bs

unfoldable pub node_commit_tag_block_id : Bytes → Option ℕ
node_commit_tag_block_id entry =
    if ltb (length entry) node_entry_size || not (first_byte entry == 0)
    then none
    else if not (is_zero_range (slice 1 33 entry))
    then none
    else if not (uint_be (slice 33 41 entry) == node_commit_tag_magic)
    then none
    else if not (uint_be (slice 41 45 entry) == 0)
        || not (uint_be (slice 45 49 entry) == 0)
        || not (uint_be (slice 49 57 entry) == 0)
    then none
    else if uint_be (slice 57 65 entry) == 0
    then none
    else some (uint_be (slice 57 65 entry))

abbrev pub is_node_commit_tag_entry : Bytes → Bool
is_node_commit_tag_entry entry = is_some (node_commit_tag_block_id entry)
