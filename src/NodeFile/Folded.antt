-- ===== src/NodeFile/Folded.antt =====
-- What the map of a compaction has for a key.
use theo_extension.Common.{
  ◌≡◌, refl, ap, ◌∙◌, subst, true, false, none, some, List, [], ◌∷◌, ◌++◌, map, if◌then◌else◌, All,
  Bool-cases, inl, inr,
}
use theo_extension.Common.Bytes.{Bytes, bytes_beq, bytes_beq_iff, bytes_lt, bytes_eq}
use theo_extension.Common.ByteOrder.{bytes_lt-ne_sym}
use theo_extension.Common.Maps.{lookup, lookup-insert, lookup-erase, beq_refl}
use theo_extension.NodeFile.Entry.{NodeInfo, encode_node_entry, is_node_info_tombstone}
use theo_extension.NodeFile.Search.{live_only}
use theo_extension.NodeFile.Find.{find_entry, IsSorted, Lacks}
use theo_extension.NodeFile.BinarySearch.{IsEntry}
use theo_extension.NodeFile.Compact.{NodeMap, add_all, add_sorted, add_unsorted, merged_with}
use theo_extension.NodeFile.Built.{add_sorted-eq, add_unsorted-eq}

pub add_all-append :
    (step : Bytes → NodeMap → NodeMap) (es fs : List Bytes) (m : NodeMap)
    → add_all step (es ++ fs) m ≡ add_all step fs (add_all step es m)
unfolding add_all
add_all-append step [] fs m = refl
add_all-append step (e ∷ es) fs m = add_all-append step es fs (step e m)

pub lookup-add_unsorted :
    (n : NodeInfo) (m : NodeMap)
    → IsEntry n
    → lookup n.key (add_unsorted (encode_node_entry n) m)
      ≡ (if is_node_info_tombstone n then none else some (merged_with (lookup n.key m) n))
lookup-add_unsorted n m h =
    ap (lookup n.key) (add_unsorted-eq n m h) ∙ elim (Bool-cases (is_node_info_tombstone n)) [
      | inl t ↦ rw t (lookup-erase n.key n.key m ∙ rw (beq_refl n.key) refl)
      | inr t ↦
          rw t (
            lookup-insert n.key n.key (merged_with (lookup n.key m) n) m ∙ rw (beq_refl n.key) refl)
    ]

pub lookup-other_unsorted :
    (key : Bytes) (n : NodeInfo) (m : NodeMap)
    → IsEntry n
    → bytes_beq n.key key ≡ false
    → lookup key (add_unsorted (encode_node_entry n) m) ≡ lookup key m
lookup-other_unsorted key n m h k =
    ap (lookup key) (add_unsorted-eq n m h) ∙ elim (Bool-cases (is_node_info_tombstone n)) [
      | inl t ↦ rw t (lookup-erase n.key key m ∙ rw k refl)
      | inr t ↦ rw t (lookup-insert n.key key (merged_with (lookup n.key m) n) m ∙ rw k refl)
    ]

pub lookup-unsorted_Lacks :
    (key : Bytes) (ns : List NodeInfo) (m : NodeMap)
    → All IsEntry ns
    → Lacks key ns
    → lookup key (add_all add_unsorted (map encode_node_entry ns) m) ≡ lookup key m
unfolding add_all
lookup-unsorted_Lacks key [] m a l = refl
lookup-unsorted_Lacks key (n ∷ ns) m a l =
    lookup-unsorted_Lacks key ns (add_unsorted (encode_node_entry n) m) a.1 l.1
    ∙ lookup-other_unsorted key n m a.0 l.0

pub lookup-sorted_Lacks :
    (key : Bytes) (ns : List NodeInfo) (m : NodeMap)
    → All IsEntry ns
    → Lacks key ns
    → lookup key (add_all add_sorted (map encode_node_entry ns) m) ≡ lookup key m
unfolding add_all
lookup-sorted_Lacks key [] m a l = refl
lookup-sorted_Lacks key (n ∷ ns) m a l =
    lookup-sorted_Lacks key ns (add_sorted (encode_node_entry n) m) a.1 l.1
    ∙ ap (lookup key) (add_sorted-eq n m a.0)
    ∙ elim (Bool-cases (is_node_info_tombstone n)) [
      | inl t ↦ rw t refl
      | inr t ↦ rw t (lookup-insert n.key key n m ∙ rw (l.0) refl)
    ]

pub above-key :
    (k : Bytes) (ns : List NodeInfo) → All (λ n. bytes_lt k n.key ≡ true) ns → Lacks k ns
above-key k [] a = tt
above-key k (n ∷ ns) a = (bytes_lt-ne_sym k n.key a.0, above-key k ns a.1)

-- The sorted pass keeps the live entries.
pub lookup-sorted :
    (key : Bytes) (ns : List NodeInfo) (m : NodeMap)
    → All IsEntry ns
    → IsSorted ns
    → lookup key m ≡ none
    → lookup key (add_all add_sorted (map encode_node_entry ns) m) ≡ live_only (find_entry key ns)
unfolding add_all find_entry
lookup-sorted key [] m a o h = h
lookup-sorted key (n ∷ ns) m a o h = elim (Bool-cases (bytes_beq n.key key)) [
  | inl e ↦
      let k = (bytes_beq_iff n.key key).0 e in
      let l = subst (λ j. Lacks j ns) k (above-key n.key ns o.0) in
      rw e (
        lookup-sorted_Lacks key ns (add_sorted (encode_node_entry n) m) a.1 l
        ∙ ap (lookup key) (add_sorted-eq n m a.0)
        ∙ elim (Bool-cases (is_node_info_tombstone n)) [
          | inl t ↦ rw t h
          | inr t ↦ rw t (lookup-insert n.key key n m ∙ rw e refl)
        ])
  | inr e ↦ rw e (
      lookup-sorted key ns (add_sorted (encode_node_entry n) m) a.1 o.1 (
        ap (lookup key) (add_sorted-eq n m a.0) ∙ elim (Bool-cases (is_node_info_tombstone n)) [
          | inl t ↦ rw t h
          | inr t ↦ rw t (lookup-insert n.key key n m ∙ rw e h)
        ]))
]

pub lookup-nil : (key : Bytes) → lookup {V = NodeInfo} key [] ≡ none
unfolding lookup
lookup-nil key = refl
