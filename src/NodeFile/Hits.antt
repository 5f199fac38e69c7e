-- ===== src/NodeFile/Hits.antt =====
-- What the walk over the unsorted entries finds of a key with one entry there, and what a compaction
-- makes of it.
use theo_extension.Common.{
  ◌^◌, ◌<◌, ◌≡◌, refl, ap, ◌∙◌, Bool, false, not, ◌&&◌, Option, none, some, List, [], ◌∷◌, ◌++◌,
  map, length, if◌then◌else◌, All, Bool-cases, inl, inr,
}
use theo_extension.Common.Bytes.{Bytes, bytes_beq, bytes_beq_iff, bytes_eq}
use theo_extension.Common.Maps.{lookup}
use theo_extension.NodeFile.Entry.{
  NodeInfo, encode_node_entry, encode_node_entries, decode_node_entry, node_lookup_key,
  is_node_commit_tag_entry, is_node_info_tombstone, has_storage_info,
}
use theo_extension.NodeFile.Entry.RoundTrip.{encode_node_entry-not_tag}
use theo_extension.NodeFile.Search.{
  find_node_info_in_sorted_slice, Hits, deleted, hits, live_only, scan_unsorted, reversed,
  merged_hits, merge_for_read, get_from_slices,
}
use theo_extension.NodeFile.Find.{Lacks}
use theo_extension.NodeFile.BinarySearch.{IsEntry, decode-IsEntry}
use theo_extension.NodeFile.Compact.{NodeMap, add_all, add_unsorted, merged_with}
use theo_extension.NodeFile.Walk.{map-append-encode, walked, walked-around, unsorted_walk}
use theo_extension.NodeFile.Folded.{add_all-append, lookup-add_unsorted, lookup-unsorted_Lacks}

unfoldable pub is_hit : Bytes → Bytes → Bool
is_hit key e = not (is_node_commit_tag_entry e) && bytes_beq (decode_node_entry e).key key

abbrev pub Misses : Bytes → List Bytes → Type 0
Misses key = All (λ e. is_hit key e ≡ false)

pub Misses-Lacks :
    (key : Bytes) (ns : List NodeInfo)
    → All IsEntry ns
    → Lacks key ns
    → Misses key (map encode_node_entry ns)
unfolding is_hit
Misses-Lacks key [] a l = tt
Misses-Lacks key (n ∷ ns) a l = (
  rw (decode-IsEntry n a.0, encode_node_entry-not_tag n a.0.named) l.0,
  Misses-Lacks key ns a.1 l.1,
)

pub Misses-reversed :
    (key : Bytes) (es acc : List Bytes)
    → Misses key es
    → Misses key acc
    → Misses key (reversed es acc)
unfolding reversed
Misses-reversed key [] acc m n = n
Misses-reversed key (e ∷ es) acc m n = Misses-reversed key es (e ∷ acc) m.1 (m.0, n)

pub scan-Misses :
    (key : Bytes) (es rest : List Bytes) (s a : Option NodeInfo)
    → Misses key es
    → scan_unsorted key (es ++ rest) s a ≡ scan_unsorted key rest s a
unfolding scan_unsorted is_hit
scan-Misses key [] rest s a m = refl
scan-Misses key (e ∷ es) rest s a m = rw (m.0) (scan-Misses key es rest s a m.1)

pub scan-all_Misses :
    (key : Bytes) (es : List Bytes) (s a : Option NodeInfo)
    → Misses key es
    → scan_unsorted key es s a ≡ hits s a
unfolding scan_unsorted is_hit
scan-all_Misses key [] s a m = refl
scan-all_Misses key (e ∷ es) s a m = rw (m.0) (scan-all_Misses key es s a m.1)

abbrev pub one_hit : NodeInfo → Hits
one_hit n =
    if is_node_info_tombstone n
    then deleted
    else if has_storage_info n
    then hits (some n) none
    else hits none (some n)

pub scan-one :
    (n : NodeInfo) (es : List Bytes)
    → IsEntry n
    → Misses n.key es
    → scan_unsorted n.key (encode_node_entry n ∷ es) none none ≡ one_hit n
unfolding scan_unsorted
scan-one n es h m =
    rw (decode-IsEntry n h, encode_node_entry-not_tag n h.named, (bytes_beq_iff n.key n.key).1 refl)
      (elim (Bool-cases (is_node_info_tombstone n)) [
        | inl t ↦ rw t refl
        | inr t ↦ elim (Bool-cases (has_storage_info n)) [
          | inl u ↦ rw (t, u) (scan-all_Misses n.key es (some n) none m)
          | inr u ↦ rw (t, u) (scan-all_Misses n.key es none (some n) m)
        ]
      ])

pub merged-one_hit :
    (o : Option NodeInfo) (n : NodeInfo)
    → merged_hits o (one_hit n)
      ≡ (if is_node_info_tombstone n then none else some (merge_for_read o n))
merged-one_hit o n = elim (Bool-cases (is_node_info_tombstone n)) [
  | inl t ↦ rw t refl
  | inr t ↦ elim (Bool-cases (has_storage_info n)) [
    | inl u ↦ rw (t, u) refl
    | inr u ↦ rw (t, u) refl
  ]
]

pub read-eq-merged : (o : Option NodeInfo) (n : NodeInfo) → merge_for_read o n ≡ merged_with o n
read-eq-merged none n = refl
read-eq-merged (some p) n = refl

pub get-walk :
    (sorted key : Bytes) (ns : List NodeInfo)
    → length ns < 2 ^ 32
    → get_from_slices sorted (encode_node_entries ns) key
      ≡ merged_hits
          (live_only (find_node_info_in_sorted_slice sorted (node_lookup_key key)))
          (scan_unsorted (node_lookup_key key) (walked ns) none none)
unfolding get_from_slices
get-walk sorted key ns h = rw (unsorted_walk ns h) refl

-- The one entry of its key, among appended entries.
pub scan-around :
    (olds : List NodeInfo) (n : NodeInfo) (news : List NodeInfo)
    → All IsEntry olds
    → IsEntry n
    → All IsEntry news
    → Lacks n.key olds
    → Lacks n.key news
    → scan_unsorted n.key (walked (olds ++ n ∷ news)) none none ≡ one_hit n
unfolding walked
scan-around olds n news ha h hb la lb =
    let missed = λ (xs : List NodeInfo) (hx : All IsEntry xs) (lx : Lacks n.key xs).
      Misses-reversed n.key (map encode_node_entry xs) [] (Misses-Lacks n.key xs hx lx) tt in
    ap (λ t. scan_unsorted n.key t none none) (walked-around olds n news)
    ∙ scan-Misses n.key (walked news) (encode_node_entry n ∷ walked olds) none none
        (missed news hb lb)
    ∙ scan-one n (walked olds) h (missed olds ha la)

pub folded-around :
    (olds : List NodeInfo) (n : NodeInfo) (news : List NodeInfo) (m : NodeMap)
    → All IsEntry olds
    → IsEntry n
    → All IsEntry news
    → Lacks n.key olds
    → Lacks n.key news
    → lookup n.key (add_all add_unsorted (map encode_node_entry (olds ++ n ∷ news)) m)
      ≡ (if is_node_info_tombstone n then none else some (merged_with (lookup n.key m) n))
unfolding add_all
folded-around olds n news m ha h hb la lb =
    let m' = add_all add_unsorted (map encode_node_entry olds) m in
    ap (λ es. lookup n.key (add_all add_unsorted es m)) (map-append-encode olds (n ∷ news))
    ∙ ap (lookup n.key) (
        add_all-append add_unsorted (map encode_node_entry olds) (map encode_node_entry (n ∷ news))
          m)
    ∙ lookup-unsorted_Lacks n.key news (add_unsorted (encode_node_entry n) m') hb lb
    ∙ lookup-add_unsorted n m' h
    ∙ ap (λ o. if is_node_info_tombstone n then none else some (merged_with o n))
        (lookup-unsorted_Lacks n.key olds m ha la)
