-- ===== src/NodeFile/Walk.antt =====
-- The walk over the unsorted entries of a node file, from the last.
use theo_extension.Common.{
  ◌^◌, ◌<◌, ◌≡◌, refl, ap, ◌∙◌, Bool, true, false, Option, some, List, [], ◌∷◌, ◌++◌, map, arith,
  length, if◌then◌else◌,
}
use theo_extension.Common.Bytes.{Bytes, bytes_beq, bytes_beq_iff, bytes_eq}
use theo_extension.NodeFile.Entry.{
  NodeInfo, tombstone_node_info, encode_node_entry, encode_node_entries, decode_node_entry,
  is_node_commit_tag_entry, is_node_info_tombstone,
}
use theo_extension.NodeFile.Entry.RoundTrip.{encode_node_entry-not_tag}
use theo_extension.NodeFile.Slices.{
  entries_of_slice-encode_node_entries, reversed-append, reversed-eq,
}
use theo_extension.NodeFile.Search.{
  entries_of_slice, Hits, deleted, scan_unsorted, reversed, contains_in_unsorted,
}
use theo_extension.NodeFile.BinarySearch.{IsEntry, decode-IsEntry}

-- The lists of bytes that the walk goes through.
unfoldable pub walked : (ns : List NodeInfo) → List Bytes
walked ns = reversed (map encode_node_entry ns) []

pub map-append-encode :
    (ns ms : List NodeInfo)
    → map encode_node_entry (ns ++ ms) ≡ map encode_node_entry ns ++ map encode_node_entry ms
map-append-encode [] ms = refl
map-append-encode (n ∷ ns) ms = ap (λ t. encode_node_entry n ∷ t) (map-append-encode ns ms)

pub walked-around :
    (ns : List NodeInfo) (n : NodeInfo) (ms : List NodeInfo)
    → walked (ns ++ n ∷ ms) ≡ walked ms ++ encode_node_entry n ∷ walked ns
unfolding walked reversed
walked-around ns n ms =
    ap (λ t. reversed t []) (map-append-encode ns (n ∷ ms))
    ∙ reversed-append (map encode_node_entry ns) (map encode_node_entry (n ∷ ms)) []
    ∙ reversed-eq (map encode_node_entry ms)
        (encode_node_entry n ∷ reversed (map encode_node_entry ns) [])

pub unsorted_walk :
    (ns : List NodeInfo)
    → length ns < 2 ^ 32
    → reversed (entries_of_slice (encode_node_entries ns)) [] ≡ walked ns
unfolding walked
unsorted_walk ns h = ap (λ t. reversed t []) (entries_of_slice-encode_node_entries ns h)

pub either_way : (b : Bool) (r : Hits) → r ≡ deleted → (if b then deleted else r) ≡ deleted
either_way true r h = refl
either_way false r h = h

-- A tombstone ends the walk, whatever newer entries the key has.
pub scan-deleted :
    (key : Bytes) (es rest : List Bytes) (e : Bytes) (s a : Option NodeInfo)
    → is_node_commit_tag_entry e ≡ false
    → bytes_beq (decode_node_entry e).key key ≡ true
    → is_node_info_tombstone (decode_node_entry e) ≡ true
    → scan_unsorted key (es ++ e ∷ rest) s a ≡ deleted
unfolding scan_unsorted
scan-deleted key [] rest e s a t k d = rw (t, k, d) refl
scan-deleted key (x ∷ es) rest e s a t k d = either_way _ _ (scan-deleted key es rest e _ _ t k d)

pub tombstone-IsEntry : (n : NodeInfo) → IsEntry n → IsEntry (tombstone_node_info n.key)
tombstone-IsEntry n h = record {
  named = h.named;
  short = h.short;
  fits = record {
    offset = omega arith;
    size = omega arith;
    file = omega arith;
    storage = omega arith;
    total = omega arith;
  };
}

pub tombstone-deleted : (key : Bytes) → is_node_info_tombstone (tombstone_node_info key) ≡ true
unfolding is_node_info_tombstone
tombstone-deleted key = refl

pub contains-last :
    (key : Bytes) (n : NodeInfo) (es : List Bytes)
    → IsEntry n
    → n.key ≡ key
    → is_node_info_tombstone n ≡ false
    → contains_in_unsorted key (encode_node_entry n ∷ es) ≡ some true
unfolding contains_in_unsorted
contains-last key n es h k l =
    rw (decode-IsEntry n h, encode_node_entry-not_tag n h.named, (bytes_beq_iff n.key key).1 k, l)
      refl
