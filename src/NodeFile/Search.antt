-- ===== src/NodeFile/Search.antt =====
-- Looking up a key in the two parts of a node file (THEO/prefixdb/prefixTree.go).
use theo_extension.Common.{
  ℕ, zero, suc, ◌+◌, ◌-◌, ◌*◌, ◌/◌, ◌%◌, ◌^◌, Bool, false, ◌||◌, ◌&&◌, not, Option, none, some,
  List, [], ◌∷◌, ◌==◌, ltb, leb, if◌then◌else◌, length, take, drop,
}
use theo_extension.Common.Bytes.{Bytes, bytes_beq, bytes_lt}
use theo_extension.NodeFile.Entry.{
  NodeInfo, node_entry_size, max_key_size, first_byte, decode_node_entry, node_lookup_key,
  is_node_commit_tag_entry, is_node_info_tombstone, has_storage_info, merge_node_info_for_append,
}

-- The first `count` entries of a slice, in order.
unfoldable pub entries_in : ℕ → Bytes → List Bytes
entries_in zero s = []
entries_in (suc count) s = take node_entry_size s ∷ entries_in count (drop node_entry_size s)

-- `uint32(len(s) / NodeEntrySize)`
abbrev pub entry_count : Bytes → ℕ
entry_count s = length s / node_entry_size % 2 ^ 32

abbrev pub entries_of_slice : Bytes → List Bytes
entries_of_slice s = entries_in (entry_count s) s

unfoldable pub reversed : List Bytes → List Bytes → List Bytes
reversed [] acc = acc
reversed (e ∷ es) acc = reversed es (e ∷ acc)

-- Is there a commit tag?
unfoldable pub has_commit_tag : List Bytes → Bool
has_commit_tag [] = false
has_commit_tag (e ∷ es) = is_node_commit_tag_entry e || has_commit_tag es

unfoldable pub find_past_tags : Bytes → List Bytes → Option NodeInfo
find_past_tags key [] = none
find_past_tags key (e ∷ es) =
    let rest = find_past_tags key es in
    if is_node_commit_tag_entry e
    then rest
    else if bytes_beq (decode_node_entry e).key key
    then some (decode_node_entry e)
    else rest

abbrev pub entry_at : Bytes → ℕ → Bytes
entry_at s idx = take node_entry_size (drop (idx * node_entry_size) s)

-- `getKeyAt`
unfoldable pub get_key_at : Bytes → ℕ → Bytes
get_key_at s idx =
    let at = drop (idx * node_entry_size) s in
    take (if ltb max_key_size (first_byte at) then max_key_size else first_byte at) (drop 1 at)

-- The halving loop over `low` to `high`, with fuel.
unfoldable pub search_between : ℕ → Bytes → Bytes → ℕ → ℕ → Option NodeInfo
search_between zero s key low high = none
search_between (suc fuel) s key low high =
    let mid = (low + high) % 2 ^ 32 / 2 in
    let above = search_between fuel s key (mid + 1) high in
    let below = search_between fuel s key low (mid - 1) in
    if not (leb low high)
    then none
    else if bytes_beq (get_key_at s mid) key
    then some (decode_node_entry (entry_at s mid))
    else if bytes_lt (get_key_at s mid) key
    then above
    else if mid == 0
    then none
    else below

unfoldable pub find_node_info_in_sorted_slice : Bytes → Bytes → Option NodeInfo
find_node_info_in_sorted_slice s key =
    if entry_count s == 0
    then none
    else if has_commit_tag (entries_of_slice s)
    then find_past_tags (node_lookup_key key) (entries_of_slice s)
    else search_between (entry_count s + 1) s (node_lookup_key key) 0 (entry_count s - 1)

abbrev is_live : Option NodeInfo → Bool
is_live none = false
is_live (some n) = not (is_node_info_tombstone n)

-- `nodeFileContainsKey`: the last entry of the key decides.
unfoldable pub contains_in_unsorted : Bytes → List Bytes → Option Bool
contains_in_unsorted key [] = none
contains_in_unsorted key (e ∷ es) =
    let rest = contains_in_unsorted key es in
    if is_node_commit_tag_entry e
    then rest
    else if bytes_beq (decode_node_entry e).key key
    then some (not (is_node_info_tombstone (decode_node_entry e)))
    else rest

abbrev or_in_sorted : Bytes → Bytes → Option Bool → Bool
or_in_sorted sorted key (some b) = b
or_in_sorted sorted key none = is_live (find_node_info_in_sorted_slice sorted key)

unfoldable pub node_file_contains_key : Bytes → Bytes → Bytes → Bool
node_file_contains_key sorted unsorted key =
    or_in_sorted sorted (node_lookup_key key)
      (contains_in_unsorted (node_lookup_key key) (reversed (entries_of_slice unsorted) []))

-- The walk of `getFromFileNode` over the unsorted entries, from the last: the newest entry with
-- storage, the newest without, or a tombstone.
pub data Hits : Type 0 where
  deleted : Hits
  hits : Option NodeInfo → Option NodeInfo → Hits

abbrev pub or_newer : Option NodeInfo → NodeInfo → Option NodeInfo
or_newer (some newer) n = some newer
or_newer none n = some n

unfoldable pub scan_unsorted : Bytes → List Bytes → Option NodeInfo → Option NodeInfo → Hits
scan_unsorted key [] storage account = hits storage account
scan_unsorted key (e ∷ es) storage account =
    let n = decode_node_entry e in
    let hit = not (is_node_commit_tag_entry e) && bytes_beq n.key key in
    let rest =
      scan_unsorted key es (if hit && has_storage_info n then or_newer storage n else storage)
        (if hit && not (has_storage_info n) then or_newer account n else account) in
    if hit && is_node_info_tombstone n then deleted else rest

abbrev pub live_only : Option NodeInfo → Option NodeInfo
live_only none = none
live_only (some n) = if is_node_info_tombstone n then none else some n

-- `mergeForRead` on an overlay that is there.
abbrev pub merge_for_read : Option NodeInfo → NodeInfo → NodeInfo
merge_for_read none overlay = overlay
merge_for_read (some base) overlay = merge_node_info_for_append base overlay

abbrev pub merged_hits : Option NodeInfo → Hits → Option NodeInfo
merged_hits sorted_hit deleted = none
merged_hits sorted_hit (hits (some storage) none) = some (merge_for_read sorted_hit storage)
merged_hits sorted_hit (hits (some storage) (some account)) =
    some (merge_for_read (some account) (merge_for_read sorted_hit storage))
merged_hits sorted_hit (hits none (some account)) = some (merge_for_read sorted_hit account)
merged_hits sorted_hit (hits none none) = sorted_hit

unfoldable pub get_from_slices : Bytes → Bytes → Bytes → Option NodeInfo
get_from_slices sorted unsorted key =
    merged_hits (live_only (find_node_info_in_sorted_slice sorted (node_lookup_key key)))
      (scan_unsorted (node_lookup_key key) (reversed (entries_of_slice unsorted) []) none none)
