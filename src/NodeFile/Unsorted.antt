-- ===== src/NodeFile/Unsorted.antt =====
-- Lookups that go through the unsorted part: they agree with compaction where a key has one entry
-- there, and not where a key was deleted and put again.
use theo_extension.Common.{
  ◌+◌, ◌^◌, ◌≤◌, ◌<◌, ◌≡◌, refl, sym, ap, ◌∙◌, true, false, none, some, List, [], ◌∷◌, ◌++◌, map,
  arith, length, if◌then◌else◌, All, is_some, append_assoc,
}
use theo_extension.Common.Bytes.{Bytes, bytes_beq, bytes_eq}
use theo_extension.Common.Maps.{lookup, beq_refl}
use theo_extension.NodeFile.Entry.{
  NodeInfo, tombstone_node_info, encode_node_entry, encode_node_entries, is_node_info_tombstone,
}
use theo_extension.NodeFile.Entry.RoundTrip.{encode_node_entry-not_tag}
use theo_extension.NodeFile.Search.{
  find_node_info_in_sorted_slice, live_only, scan_unsorted, reversed, merged_hits, get_from_slices,
  node_file_contains_key,
}
use theo_extension.NodeFile.Find.{find_entry, IsSorted, Lacks}
use theo_extension.NodeFile.BinarySearch.{IsEntry, short_key, decode-IsEntry}
use theo_extension.NodeFile.Compact.{
  NodeMap, add_all, add_sorted, add_unsorted, merged_with, build_entries_from_slices,
}
use theo_extension.NodeFile.Lookup.{
  find_node_info_in_sorted_slice-eq, built_map, built_map-eq, get-build_entries_from_slices,
}
use theo_extension.NodeFile.Walk.{
  map-append-encode, walked, walked-around, unsorted_walk, scan-deleted, tombstone-IsEntry,
  tombstone-deleted, contains-last,
}
use theo_extension.NodeFile.Hits.{
  one_hit, merged-one_hit, read-eq-merged, get-walk, scan-around, folded-around,
}
use theo_extension.NodeFile.Folded.{add_all-append, lookup-add_unsorted, lookup-sorted, lookup-nil}

entries_append :
    (ns : List NodeInfo) (n : NodeInfo) (ms : List NodeInfo)
    → All IsEntry ns
    → IsEntry n
    → All IsEntry ms
    → All IsEntry (ns ++ n ∷ ms)
entries_append [] n ms a h b = (h, b)
entries_append (x ∷ ns) n ms a h b = (a.0, entries_append ns n ms a.1 h b)

-- Compaction does not change what a lookup answers, for a key that has one entry `n` among the
-- appended ones, be it a value or a tombstone. The sorted part has entries sorted by key; all
-- entries have keys of 1 to 32 bytes and numbers that fit in their fields, and there are at most
-- 2^31 of them.
pub get-compaction :
    (sorted olds : List NodeInfo) (n : NodeInfo) (news : List NodeInfo)
    → All IsEntry sorted
    → IsSorted sorted
    → All IsEntry olds
    → IsEntry n
    → All IsEntry news
    → Lacks n.key olds
    → Lacks n.key news
    → length sorted + length (olds ++ n ∷ news) ≤ 2 ^ 31
    → get_from_slices (encode_node_entries sorted) (encode_node_entries (olds ++ n ∷ news)) n.key
      ≡ get_from_slices
          (encode_node_entries (
            build_entries_from_slices
              (encode_node_entries sorted)
              (encode_node_entries (olds ++ n ∷ news))))
          []
          n.key
get-compaction sorted olds n news hs o ha h hb la lb fits =
    let ms = olds ++ n ∷ news in
    let hm = entries_append olds n news ha h hb in
    let k = short_key n.key h.short in
    let found = live_only (find_entry n.key sorted) in
    let m = add_all add_sorted (map encode_node_entry sorted) [] in
    let before : get_from_slices (encode_node_entries sorted) (encode_node_entries ms) n.key
        ≡ (if is_node_info_tombstone n then none else some (merged_with found n)) =
      get-walk (encode_node_entries sorted) n.key ms (omega arith)
      ∙ ap
          (λ j.
            merged_hits (live_only (find_node_info_in_sorted_slice (encode_node_entries sorted) j))
              (scan_unsorted j (walked ms) none none))
          k
      ∙ ap (merged_hits _) (scan-around olds n news ha h hb la lb)
      ∙ ap (λ f. merged_hits (live_only f) (one_hit n))
          (find_node_info_in_sorted_slice-eq sorted n.key hs o (omega arith)
            ∙ ap (λ j. find_entry j sorted) k)
      ∙ merged-one_hit found n
      ∙ ap (λ r. if is_node_info_tombstone n then none else some r) (read-eq-merged found n) in
    before
    ∙ sym (
        get-build_entries_from_slices sorted ms hs hm fits n.key
        ∙ ap (λ j. lookup j (built_map sorted ms hs hm fits)) k
        ∙ ap (lookup n.key) (built_map-eq sorted ms hs hm fits)
        ∙ folded-around olds n news m ha h hb la lb
        ∙ ap (λ f. if is_node_info_tombstone n then none else some (merged_with f n))
            (lookup-sorted n.key sorted [] hs o (lookup-nil n.key)))

hidden :
    (sorted : Bytes) (olds news : List NodeInfo) (n : NodeInfo)
    → IsEntry n
    → length (olds ++ tombstone_node_info n.key ∷ news) < 2 ^ 32
    → get_from_slices sorted (encode_node_entries (olds ++ tombstone_node_info n.key ∷ news)) n.key
      ≡ none
hidden sorted olds news n h fits =
    let t = tombstone_node_info n.key in
    let ht = tombstone-IsEntry n h in
    let d = decode-IsEntry t ht in
    get-walk sorted n.key (olds ++ t ∷ news) fits
    ∙ ap
        (λ j.
          merged_hits (live_only (find_node_info_in_sorted_slice sorted j))
            (scan_unsorted j (walked (olds ++ t ∷ news)) none none))
        (short_key n.key h.short)
    ∙ ap (merged_hits _) (
        ap (λ es. scan_unsorted n.key es none none) (walked-around olds t news)
        ∙ scan-deleted n.key (walked news) (walked olds) (encode_node_entry t) none none
            (encode_node_entry-not_tag t h.named)
            (ap (λ x. bytes_beq x.key n.key) d ∙ beq_refl n.key)
            (ap is_node_info_tombstone d ∙ tombstone-deleted n.key))

contains-put :
    (sorted : Bytes) (ns : List NodeInfo) (n : NodeInfo) (ms : List NodeInfo)
    → ms ≡ ns ++ n ∷ []
    → IsEntry n
    → is_node_info_tombstone n ≡ false
    → length ms < 2 ^ 32
    → node_file_contains_key sorted (encode_node_entries ms) n.key ≡ true
unfolding node_file_contains_key walked reversed
contains-put sorted ns n ms e h l fits =
    rw (unsorted_walk ms fits, short_key n.key h.short, e, walked-around ns n [])
      (rw (contains-last n.key n (walked ns) h refl l) refl)

folded-put :
    (ns : List NodeInfo) (n : NodeInfo) (m : NodeMap)
    → IsEntry n
    → is_node_info_tombstone n ≡ false
    → lookup n.key (add_all add_unsorted (map encode_node_entry (ns ++ n ∷ [])) m)
      ≡ some (merged_with (lookup n.key (add_all add_unsorted (map encode_node_entry ns) m)) n)
unfolding add_all
folded-put ns n m h l =
    ap (λ es. lookup n.key (add_all add_unsorted es m)) (map-append-encode ns (n ∷ []))
    ∙ ap (lookup n.key)
        (add_all-append add_unsorted (map encode_node_entry ns) (map encode_node_entry (n ∷ [])) m)
    ∙ lookup-add_unsorted n (add_all add_unsorted (map encode_node_entry ns) m) h
    ∙ rw l refl

-- A key that was deleted and put again, by the entry `n` at the end of the appended ones, reads as
-- missing: the tombstone hides every later entry. `Delete` finds it nevertheless, and a compaction
-- brings it back. The sorted part has entries sorted by key; all entries have keys of 1 to 32 bytes
-- and numbers that fit in their fields, and there are at most 2^31 of them.
pub get-put_after_delete :
    (sorted olds news : List NodeInfo) (n : NodeInfo)
    → All IsEntry sorted
    → All IsEntry olds
    → All IsEntry news
    → IsEntry n
    → is_node_info_tombstone n ≡ false
    → length sorted + length (olds ++ tombstone_node_info n.key ∷ (news ++ n ∷ [])) ≤ 2 ^ 31
    → (get_from_slices
          (encode_node_entries sorted)
          (encode_node_entries (olds ++ tombstone_node_info n.key ∷ (news ++ n ∷ [])))
          n.key
        ≡ none)
      × (node_file_contains_key
            (encode_node_entries sorted)
            (encode_node_entries (olds ++ tombstone_node_info n.key ∷ (news ++ n ∷ [])))
            n.key
          ≡ true)
      × (is_some (
            get_from_slices
              (encode_node_entries (
                build_entries_from_slices
                  (encode_node_entries sorted)
                  (encode_node_entries (olds ++ tombstone_node_info n.key ∷ (news ++ n ∷ [])))))
              []
              n.key)
          ≡ true)
get-put_after_delete sorted olds news n hs ho hn h l fits =
    let t = tombstone_node_info n.key in
    let ht = tombstone-IsEntry n h in
    let ms = olds ++ t ∷ (news ++ n ∷ []) in
    let split = sym (append_assoc olds (t ∷ news) (n ∷ [])) in
    let hm = entries_append olds t (news ++ n ∷ []) ho ht (entries_append news n [] hn h tt) in
    (
      hidden (encode_node_entries sorted) olds (news ++ n ∷ []) n h (omega arith),
      contains-put (encode_node_entries sorted) (olds ++ t ∷ news) n ms split h l (omega arith),
      ap is_some (
          get-build_entries_from_slices sorted ms hs hm fits n.key
          ∙ ap (λ j. lookup j (built_map sorted ms hs hm fits)) (short_key n.key h.short)
          ∙ ap (lookup n.key) (built_map-eq sorted ms hs hm fits)
          ∙ ap
              (λ es. lookup n.key (
                add_all add_unsorted (map encode_node_entry es)
                  (add_all add_sorted (map encode_node_entry sorted) [])))
              split
          ∙ folded-put (olds ++ t ∷ news) n _ h l),
    )
