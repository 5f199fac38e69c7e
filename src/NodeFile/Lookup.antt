-- ===== src/NodeFile/Lookup.antt =====
-- What a lookup in a node file answers: in its sorted part, after a compaction, and in the unsorted
-- part behind a tombstone.
use theo_extension.Common.{
  ◌+◌, ◌-◌, ◌^◌, ◌≤◌, ◌≡◌, refl, sym, ap, ◌∙◌, subst, false, none, List, [], ◌∷◌, map, arith,
  length, All, Bool-cases, inl, inr, ◌==◌, append-nil, length-take,
}
use theo_extension.Common.Bytes.{Bytes, bytes_beq, bytes_eq}
use theo_extension.Common.Maps.{lookup}
use theo_extension.NodeFile.Entry.{
  NodeInfo, encode_node_entry, encode_node_entries, node_lookup_key,
}
use theo_extension.NodeFile.Entry.RoundTrip.{encode_node_entry-not_tag}
use theo_extension.NodeFile.Slices.{
  entry_count-encode_node_entries, entries_of_slice-encode_node_entries,
}
use theo_extension.NodeFile.Search.{
  has_commit_tag, entries_in, entry_count, entries_of_slice, search_between,
  find_node_info_in_sorted_slice, live_only, scan_unsorted, reversed, get_from_slices,
}
use theo_extension.NodeFile.Find.{find_entry, IsSorted}
use theo_extension.NodeFile.BinarySearch.{IsEntry, search_between-eq}
use theo_extension.NodeFile.Sorted.{
  find_entry-sort_by_key, sort_by_key-IsSorted, All-sort_by_key, length-sort_by_key,
}
use theo_extension.NodeFile.Compact.{
  NodeMap, add_all, add_sorted, add_unsorted, sort_by_key, node_map, build_entries_from_slices,
}
use theo_extension.NodeFile.Built.{
  IsLive, IsGood, sorted-IsGood, unsorted-IsGood, find_entry-values, values-HasDistinctKeys,
  values-IsLive, sorted-length, unsorted-length,
}

no_tags : (ns : List NodeInfo) → All IsEntry ns → has_commit_tag (map encode_node_entry ns) ≡ false
unfolding has_commit_tag
no_tags [] a = refl
no_tags (n ∷ ns) a = rw (encode_node_entry-not_tag n a.0.named) (no_tags ns a.1)

lookup_key_twice : (key : Bytes) → node_lookup_key (node_lookup_key key) ≡ node_lookup_key key
unfolding node_lookup_key
lookup_key_twice key = ground (arith, length-take 32 key)

searched :
    (s key : Bytes)
    → (entry_count s == 0) ≡ false
    → has_commit_tag (entries_of_slice s) ≡ false
    → find_node_info_in_sorted_slice s key
      ≡ search_between (entry_count s + 1) s (node_lookup_key key) 0 (entry_count s - 1)
unfolding find_node_info_in_sorted_slice
searched s key z t = rw (z, t) refl

empty_slice : (key : Bytes) → find_node_info_in_sorted_slice (encode_node_entries []) key ≡ none
unfolding find_node_info_in_sorted_slice encode_node_entries
empty_slice key = refl

length-map : (ns : List NodeInfo) → length (map encode_node_entry ns) ≡ length ns
length-map [] = refl
length-map (n ∷ ns) = omega (arith, length-map ns)

-- In a sorted part written from entries sorted by key, a lookup finds the entry whose key is the
-- lookup key, which is the key cut to 32 bytes, and nothing where no entry has it. Keys have 1 to
-- 32 bytes, the numbers fit in their fields, and there are at most 2^31 entries.
pub find_node_info_in_sorted_slice-eq :
    (ns : List NodeInfo) (key : Bytes)
    → All IsEntry ns
    → IsSorted ns
    → length ns ≤ 2 ^ 31
    → find_node_info_in_sorted_slice (encode_node_entries ns) key
      ≡ find_entry (node_lookup_key key) ns
unfolding find_entry
find_node_info_in_sorted_slice-eq [] key a o h = empty_slice key
find_node_info_in_sorted_slice-eq (n ∷ ns) key a o h =
    let s = encode_node_entries (n ∷ ns) in
    let k = node_lookup_key key in
    let c = entry_count-encode_node_entries (n ∷ ns) (omega arith) in
    let e = entries_of_slice-encode_node_entries (n ∷ ns) (omega arith) in
    let z : (entry_count s == 0) ≡ false = ground (arith, c) in
    searched s key z (ap has_commit_tag e ∙ no_tags (n ∷ ns) a)
    ∙ ap (λ c. search_between (c + 1) s k 0 (c - 1)) c
    ∙ ap
        (λ t.
          search_between (length (n ∷ ns) + 1) (encode_node_entries t) k 0 (length (n ∷ ns) - 1))
        (sym (append-nil (n ∷ ns)))
    ∙ search_between-eq k (length (n ∷ ns) + 1) [] (n ∷ ns) [] 0 (length (n ∷ ns) - 1) a o
        (omega arith) refl (omega arith) (omega arith)

get-only_sorted :
    (sorted key : Bytes)
    → get_from_slices sorted [] key
      ≡ live_only (find_node_info_in_sorted_slice sorted (node_lookup_key key))
unfolding get_from_slices scan_unsorted reversed entries_in
get-only_sorted sorted key = refl

live_only-IsLive :
    (key : Bytes) (ns : List NodeInfo)
    → All IsLive ns
    → live_only (find_entry key ns) ≡ find_entry key ns
unfolding find_entry
live_only-IsLive key [] a = refl
live_only-IsLive key (n ∷ ns) a = elim (Bool-cases (bytes_beq n.key key)) [
  | inl e ↦ rw (e, a.0.1) refl
  | inr e ↦ rw e (live_only-IsLive key ns a.1)
]

entries_of_live : (ns : List NodeInfo) → All IsLive ns → All IsEntry ns
entries_of_live [] a = tt
entries_of_live (n ∷ ns) a = (a.0.0, entries_of_live ns a.1)

length-values : (m : NodeMap) → length (map (λ e. e.1) m) ≡ length m
length-values [] = refl
length-values (e ∷ m) = omega (arith, length-values m)

-- A file written from the values of a good map.
get-compacted :
    (m : NodeMap) (key : Bytes)
    → IsGood m
    → length m ≤ 2 ^ 31
    → get_from_slices (encode_node_entries (sort_by_key (map (λ e. e.1) m))) [] key
      ≡ lookup (node_lookup_key key) m
get-compacted m key g h =
    let vs = map (λ e. e.1) m in
    let live = All-sort_by_key IsLive vs (values-IsLive m g.live) in
    get-only_sorted (encode_node_entries (sort_by_key vs)) key
    ∙ ap live_only (
        find_node_info_in_sorted_slice-eq (sort_by_key vs) (node_lookup_key key)
          (entries_of_live (sort_by_key vs) live)
          (sort_by_key-IsSorted vs (values-HasDistinctKeys m g.live g.unique))
          (omega (arith, length-sort_by_key vs, length-values m))
        ∙ ap (λ k. find_entry k (sort_by_key vs)) (lookup_key_twice key))
    ∙ live_only-IsLive (node_lookup_key key) (sort_by_key vs) live
    ∙ find_entry-sort_by_key (node_lookup_key key) vs
    ∙ find_entry-values (node_lookup_key key) m g.live

module _ (ns ms : List NodeInfo) (sorted_entries : All IsEntry ns)
    (unsorted_entries : All IsEntry ms) (fits : length ns + length ms ≤ 2 ^ 31) where
  abbrev pub built_map : NodeMap
  built_map = node_map (encode_node_entries ns) (encode_node_entries ms)

  pub built_map-eq :
      built_map
      ≡ add_all add_unsorted
          (map encode_node_entry ms)
          (add_all add_sorted (map encode_node_entry ns) [])
  unfolding node_map
  built_map-eq =
      rw
        (
          entries_of_slice-encode_node_entries ns (omega arith),
          entries_of_slice-encode_node_entries ms (omega arith),
        )
        refl

  built_map-IsGood : IsGood built_map
  built_map-IsGood = subst IsGood (sym built_map-eq) (
      unsorted-IsGood ms _ unsorted_entries
        (sorted-IsGood ns [] sorted_entries (record { live = tt; unique = tt })))

  built_map-length : length built_map ≤ 2 ^ 31
  built_map-length =
      let m = add_all add_sorted (map encode_node_entry ns) [] in
      omega (
        arith,
        ap length built_map-eq,
        unsorted-length (map encode_node_entry ms) m,
        sorted-length (map encode_node_entry ns) [],
        length-map ns,
        length-map ms,
      )

  -- After a compaction of a file with sorted entries `ns` and appended entries `ms`, a lookup of a
  -- key answers what the map of the compaction has for the key cut to 32 bytes. The entries have
  -- keys of 1 to 32 bytes and numbers that fit in their fields, and there are at most 2^31.
  pub get-build_entries_from_slices :
      (key : Bytes)
      → get_from_slices
          (encode_node_entries
            (build_entries_from_slices (encode_node_entries ns) (encode_node_entries ms)))
          []
          key
        ≡ lookup (node_lookup_key key) built_map
  unfolding build_entries_from_slices
  get-build_entries_from_slices key = get-compacted built_map key built_map-IsGood built_map-length
