-- ===== src/NodeFile/Built.antt =====
-- The map that compaction builds: each key stands for a live entry of its own.
use theo_extension.Common.{
  ◌+◌, ◌≤◌, ◌<◌, ◌≡◌, refl, sym, ap, ◌∙◌, subst, false, Option, none, some, List, [], ◌∷◌, map,
  arith, if◌then◌else◌, All, Bool-cases, inl, inr, length, ◌==◌,
}
use theo_extension.Common.Bytes.{Bytes, bytes_beq, bytes_beq_iff, bytes_eq}
use theo_extension.Common.Maps.{lookup, insert, erase, lookup-insert, lookup-erase}
use theo_extension.NodeFile.Entry.{
  NodeInfo, max_key_size, encode_node_entry, decode_node_entry, is_node_info_tombstone,
  merge_node_info_for_append, has_storage_info,
}
use theo_extension.NodeFile.Entry.RoundTrip.{IsEncodable, encode_node_entry-not_tag}
use theo_extension.NodeFile.BinarySearch.{IsEntry, decode-IsEntry}
use theo_extension.NodeFile.Find.{find_entry}
use theo_extension.NodeFile.Sorted.{HasDistinctKeys}
use theo_extension.NodeFile.Compact.{NodeMap, add_sorted, add_unsorted, add_all, merged_with}

abbrev pub IsLive : NodeInfo → Type 0
IsLive n = IsEntry n × (is_node_info_tombstone n ≡ false)

abbrev pub AreLive : NodeMap → Type 0
AreLive = All (λ e. (e.1.key ≡ e.0) × IsLive e.1)

abbrev pub IsUnique : NodeMap → Type 0
IsUnique [] = Unit
IsUnique ((k, n) ∷ m) = (lookup k m ≡ none) × IsUnique m

merge-key : (p n : NodeInfo) → (merge_node_info_for_append p n).key ≡ n.key
unfolding merge_node_info_for_append
merge-key p n = ground arith

merge-live :
    (p n : NodeInfo)
    → is_node_info_tombstone n ≡ false
    → is_node_info_tombstone (merge_node_info_for_append p n) ≡ false
unfolding merge_node_info_for_append is_node_info_tombstone has_storage_info
merge-live p n h = ground arith

merge-IsEncodable :
    (p n : NodeInfo) → IsEncodable p → IsEncodable n → IsEncodable (merge_node_info_for_append p n)
unfolding merge_node_info_for_append
merge-IsEncodable p n a b = ground arith

insert-IsUnique : (k : Bytes) (n : NodeInfo) (m : NodeMap) → IsUnique m → IsUnique (insert k n m)
unfolding insert lookup
insert-IsUnique k n [] u = (refl, tt)
insert-IsUnique k n ((j, w) ∷ m) u =
    ground
      (arith, insert-IsUnique k n m, lookup-insert k j n m, bytes_beq_iff j k, bytes_beq_iff k j)

erase-IsUnique : (k : Bytes) (m : NodeMap) → IsUnique m → IsUnique (erase k m)
unfolding erase lookup
erase-IsUnique k [] u = tt
erase-IsUnique k ((j, w) ∷ m) u = ground (arith, erase-IsUnique k m, lookup-erase k j m)

insert-AreLive :
    (k : Bytes) (n : NodeInfo) (m : NodeMap)
    → n.key ≡ k
    → IsLive n
    → AreLive m
    → AreLive (insert k n m)
unfolding insert
insert-AreLive k n [] e l a = ((e, l), tt)
insert-AreLive k n ((j, w) ∷ m) e l a = elim (Bool-cases (bytes_beq j k)) [
  | inl t ↦ rw t ((e, l), a.1)
  | inr t ↦ rw t (a.0, insert-AreLive k n m e l a.1)
]

erase-AreLive : (k : Bytes) (m : NodeMap) → AreLive m → AreLive (erase k m)
unfolding erase
erase-AreLive k [] a = tt
erase-AreLive k ((j, w) ∷ m) a = elim (Bool-cases (bytes_beq j k)) [
  | inl t ↦ rw t (erase-AreLive k m a.1)
  | inr t ↦ rw t (a.0, erase-AreLive k m a.1)
]

pub add_sorted-eq :
    (n : NodeInfo) (m : NodeMap)
    → IsEntry n
    → add_sorted (encode_node_entry n) m
      ≡ (if is_node_info_tombstone n then m else insert n.key n m)
unfolding add_sorted
add_sorted-eq n m h =
    let z : (length n.key == 0) ≡ false = ground (arith, h.named) in
    rw (decode-IsEntry n h, encode_node_entry-not_tag n h.named, z) refl

pub add_unsorted-eq :
    (n : NodeInfo) (m : NodeMap)
    → IsEntry n
    → add_unsorted (encode_node_entry n) m ≡ (
        if is_node_info_tombstone n
        then erase n.key m
        else insert n.key (merged_with (lookup n.key m) n) m)
unfolding add_unsorted
add_unsorted-eq n m h =
    let z : (length n.key == 0) ≡ false = ground (arith, h.named) in
    rw (decode-IsEntry n h, encode_node_entry-not_tag n h.named, z) refl

lookup-AreLive :
    (k : Bytes) (m : NodeMap) (p : NodeInfo) → AreLive m → lookup k m ≡ some p → IsLive p
unfolding lookup
lookup-AreLive k [] p a h = cc
lookup-AreLive k ((j, w) ∷ m) p a h = elim (Bool-cases (bytes_beq j k)) [
  | inl t ↦ let e : w ≡ p = ground arith in subst IsLive e a.0.1
  | inr t ↦ let e : lookup k m ≡ some p = ground arith in lookup-AreLive k m p a.1 e
]

merged-IsLive :
    (n : NodeInfo) (m : NodeMap) (o : Option NodeInfo)
    → IsLive n
    → AreLive m
    → lookup n.key m ≡ o
    → (merged_with o n).key ≡ n.key × IsLive (merged_with o n)
merged-IsLive n m none l a h = (refl, l)
merged-IsLive n m (some p) l a h =
    let q = lookup-AreLive n.key m p a h in
    let k = merge-key p n in
    (
      k,
      (
        record {
          named = subst (λ b. 0 < length b) (sym k) l.0.named;
          short = subst (λ b. length b ≤ max_key_size) (sym k) l.0.short;
          fits = merge-IsEncodable p n q.0.fits l.0.fits;
        },
        merge-live p n l.1,
      ),
    )

-- What each step keeps.
pub record IsGood (m : NodeMap) : Type 0 where
  pub live : AreLive m
  pub unique : IsUnique m

add_sorted-IsGood :
    (n : NodeInfo) (m : NodeMap)
    → IsEntry n
    → IsGood m
    → IsGood (add_sorted (encode_node_entry n) m)
add_sorted-IsGood n m h g =
    subst IsGood (sym (add_sorted-eq n m h)) (elim (Bool-cases (is_node_info_tombstone n)) [
      | inl t ↦ rw t g
      | inr t ↦ rw t (record {
        live = insert-AreLive n.key n m refl (h, t) g.live;
        unique = insert-IsUnique n.key n m g.unique;
      })
    ])

add_unsorted-IsGood :
    (n : NodeInfo) (m : NodeMap)
    → IsEntry n
    → IsGood m
    → IsGood (add_unsorted (encode_node_entry n) m)
add_unsorted-IsGood n m h g =
    subst IsGood (sym (add_unsorted-eq n m h)) (elim (Bool-cases (is_node_info_tombstone n)) [
      | inl t ↦
          rw t (record {
            live = erase-AreLive n.key m g.live;
            unique = erase-IsUnique n.key m g.unique;
          })
      | inr t ↦
          let q = merged-IsLive n m (lookup n.key m) (h, t) g.live refl in
          rw t (record {
            live = insert-AreLive n.key (merged_with (lookup n.key m) n) m q.0 q.1 g.live;
            unique = insert-IsUnique n.key (merged_with (lookup n.key m) n) m g.unique;
          })
    ])

pub sorted-IsGood :
    (ns : List NodeInfo) (m : NodeMap)
    → All IsEntry ns
    → IsGood m
    → IsGood (add_all add_sorted (map encode_node_entry ns) m)
unfolding add_all
sorted-IsGood [] m a g = g
sorted-IsGood (n ∷ ns) m a g =
    sorted-IsGood ns (add_sorted (encode_node_entry n) m) a.1 (add_sorted-IsGood n m a.0 g)

pub unsorted-IsGood :
    (ns : List NodeInfo) (m : NodeMap)
    → All IsEntry ns
    → IsGood m
    → IsGood (add_all add_unsorted (map encode_node_entry ns) m)
unfolding add_all
unsorted-IsGood [] m a g = g
unsorted-IsGood (n ∷ ns) m a g =
    unsorted-IsGood ns (add_unsorted (encode_node_entry n) m) a.1 (add_unsorted-IsGood n m a.0 g)

-- The values of the map, looked up by their own keys.
pub find_entry-values :
    (key : Bytes) (m : NodeMap) → AreLive m → find_entry key (map (λ e. e.1) m) ≡ lookup key m
unfolding find_entry lookup
find_entry-values key [] a = refl
find_entry-values key ((k, n) ∷ m) a =
    ap (λ j. if bytes_beq j key then some n else find_entry key (map (λ e. e.1) m)) a.0.0
    ∙ ap (λ o. if bytes_beq k key then some n else o) (find_entry-values key m a.1)

pub values-HasDistinctKeys :
    (m : NodeMap) → AreLive m → IsUnique m → HasDistinctKeys (map (λ e. e.1) m)
values-HasDistinctKeys [] a u = tt
values-HasDistinctKeys ((k, n) ∷ m) a u = (
  find_entry-values n.key m a.1 ∙ ap (λ j. lookup j m) a.0.0 ∙ u.0,
  values-HasDistinctKeys m a.1 u.1,
)

pub values-IsLive : (m : NodeMap) → AreLive m → All IsLive (map (λ e. e.1) m)
values-IsLive [] a = tt
values-IsLive ((k, n) ∷ m) a = (a.0.1, values-IsLive m a.1)

insert-length : (k : Bytes) (n : NodeInfo) (m : NodeMap) → length (insert k n m) ≤ length m + 1
unfolding insert
insert-length k n [] = omega arith
insert-length k n ((j, w) ∷ m) = ground (arith, insert-length k n m)

erase-length : (k : Bytes) (m : NodeMap) → length (erase k m) ≤ length m
unfolding erase
erase-length k [] = omega arith
erase-length k ((j, w) ∷ m) = ground (arith, erase-length k m)

pub sorted-length :
    (es : List Bytes) (m : NodeMap) → length (add_all add_sorted es m) ≤ length m + length es
unfolding add_all add_sorted
sorted-length [] m = omega arith
sorted-length (e ∷ es) m =
    let n = decode_node_entry e in
    ground (arith, sorted-length es (add_sorted e m), insert-length n.key n m)

pub unsorted-length :
    (es : List Bytes) (m : NodeMap) → length (add_all add_unsorted es m) ≤ length m + length es
unfolding add_all add_unsorted
unsorted-length [] m = omega arith
unsorted-length (e ∷ es) m =
    let n = decode_node_entry e in
    ground (
      arith,
      unsorted-length es (add_unsorted e m),
      insert-length n.key (merged_with (lookup n.key m) n) m,
      erase-length n.key m,
    )
