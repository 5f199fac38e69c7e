-- ===== src/NodeFile/Compact.antt =====
-- Compaction (`buildEntriesFromSlices` of THEO/prefixdb/prefixTree.go): the two parts become one
-- sorted list with an entry for each live key. The map's keys come in an order of its own; the sort
-- makes up for that.
use theo_extension.Common.{
  ◌||◌, ◌==◌, Option, none, some, List, [], ◌∷◌, map, if◌then◌else◌, length,
}
use theo_extension.Common.Bytes.{Bytes, bytes_lt, bytes_eq}
use theo_extension.Common.Maps.{lookup, insert, erase}
use theo_extension.NodeFile.Entry.{
  NodeInfo, decode_node_entry, is_node_commit_tag_entry, is_node_info_tombstone,
  merge_node_info_for_append,
}
use theo_extension.NodeFile.Search.{entries_of_slice}

abbrev pub NodeMap : Type 0
NodeMap = List (Bytes × NodeInfo)

-- One entry of the sorted part.
unfoldable pub add_sorted : Bytes → NodeMap → NodeMap
add_sorted e m =
    let n = decode_node_entry e in
    if is_node_commit_tag_entry e || length n.key == 0 || is_node_info_tombstone n
    then m
    else insert n.key n m

abbrev pub merged_with : Option NodeInfo → NodeInfo → NodeInfo
merged_with none n = n
merged_with (some old) n = merge_node_info_for_append old n

-- One entry of the unsorted part.
unfoldable pub add_unsorted : Bytes → NodeMap → NodeMap
add_unsorted e m =
    let n = decode_node_entry e in
    if is_node_commit_tag_entry e || length n.key == 0
    then m
    else if is_node_info_tombstone n
    then erase n.key m
    else insert n.key (merged_with (lookup n.key m) n) m

unfoldable pub add_all : (Bytes → NodeMap → NodeMap) → List Bytes → NodeMap → NodeMap
add_all step [] m = m
add_all step (e ∷ es) m = add_all step es (step e m)

-- `sort.Slice` by key.
unfoldable pub insert_by_key : NodeInfo → List NodeInfo → List NodeInfo
insert_by_key n [] = n ∷ []
insert_by_key n (m ∷ ms) = if bytes_lt m.key n.key then m ∷ insert_by_key n ms else n ∷ m ∷ ms

unfoldable pub sort_by_key : List NodeInfo → List NodeInfo
sort_by_key [] = []
sort_by_key (n ∷ ns) = insert_by_key n (sort_by_key ns)

unfoldable pub node_map : Bytes → Bytes → NodeMap
node_map sorted unsorted =
    add_all add_unsorted (entries_of_slice unsorted)
      (add_all add_sorted (entries_of_slice sorted) [])

unfoldable pub build_entries_from_slices : Bytes → Bytes → List NodeInfo
build_entries_from_slices sorted unsorted = sort_by_key (map (λ e. e.1) (node_map sorted unsorted))
