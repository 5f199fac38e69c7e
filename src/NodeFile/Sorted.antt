-- ===== src/NodeFile/Sorted.antt =====
-- The sort by key: on entries with distinct keys it gives a sorted list with the same entries.
use theo_extension.Common.{
  ◌≡◌, ◌+◌, length, refl, ap, ◌∙◌, true, false, none, some, List, [], ◌∷◌, arith, if◌then◌else◌,
  All, Bool-cases, inl, inr,
}
use theo_extension.Common.Bytes.{Bytes, bytes_beq, bytes_beq_iff, bytes_lt}
use theo_extension.Common.ByteOrder.{bytes_lt_irrefl, bytes_lt_trans, bytes_lt_total}
use theo_extension.NodeFile.Entry.{NodeInfo}
use theo_extension.NodeFile.Find.{find_entry, IsSorted}
use theo_extension.NodeFile.Compact.{insert_by_key, sort_by_key}

abbrev pub HasDistinctKeys : List NodeInfo → Type 0
HasDistinctKeys [] = Unit
HasDistinctKeys (n ∷ ns) = (find_entry n.key ns ≡ none) × HasDistinctKeys ns

find_entry-insert_by_key :
    (key : Bytes) (n : NodeInfo) (ns : List NodeInfo)
    → find_entry key (insert_by_key n ns) ≡ find_entry key (n ∷ ns)
unfolding insert_by_key find_entry
find_entry-insert_by_key key n [] = refl
find_entry-insert_by_key key n (m ∷ ms) = ground (
  arith,
  find_entry-insert_by_key key n ms,
  bytes_beq_iff n.key key,
  bytes_beq_iff m.key key,
  bytes_lt_irrefl key,
)

pub find_entry-sort_by_key :
    (key : Bytes) (ns : List NodeInfo) → find_entry key (sort_by_key ns) ≡ find_entry key ns
unfolding sort_by_key find_entry
find_entry-sort_by_key key [] = refl
find_entry-sort_by_key key (n ∷ ns) =
    find_entry-insert_by_key key n (sort_by_key ns)
    ∙ ap (λ o. if bytes_beq n.key key then some n else o) (find_entry-sort_by_key key ns)

All-insert_by_key :
    (P : NodeInfo → Type 0) (n : NodeInfo) (ns : List NodeInfo)
    → P n
    → All P ns
    → All P (insert_by_key n ns)
unfolding insert_by_key
All-insert_by_key P n [] p h = (p, tt)
All-insert_by_key P n (m ∷ ms) p h = elim (Bool-cases (bytes_lt m.key n.key)) [
  | inl e ↦ rw e (h.0, All-insert_by_key P n ms p h.1)
  | inr e ↦ rw e (p, h)
]

pub All-sort_by_key :
    (P : NodeInfo → Type 0) (ns : List NodeInfo) → All P ns → All P (sort_by_key ns)
unfolding sort_by_key
All-sort_by_key P [] h = tt
All-sort_by_key P (n ∷ ns) h = All-insert_by_key P n (sort_by_key ns) h.0 (All-sort_by_key P ns h.1)

above-All :
    (k j : Bytes) (ns : List NodeInfo)
    → bytes_lt k j ≡ true
    → All (λ m. bytes_lt j m.key ≡ true) ns
    → All (λ m. bytes_lt k m.key ≡ true) ns
above-All k j [] h a = tt
above-All k j (n ∷ ns) h a = (bytes_lt_trans k j n.key h a.0, above-All k j ns h a.1)

absent_head :
    (key : Bytes) (m : NodeInfo) (ms : List NodeInfo)
    → find_entry key (m ∷ ms) ≡ none
    → (bytes_beq m.key key ≡ false) × (find_entry key ms ≡ none)
unfolding find_entry
absent_head key m ms h = ground arith

insert_by_key-IsSorted :
    (n : NodeInfo) (ns : List NodeInfo)
    → find_entry n.key ns ≡ none
    → IsSorted ns
    → IsSorted (insert_by_key n ns)
unfolding insert_by_key
insert_by_key-IsSorted n [] h o = (tt, tt)
insert_by_key-IsSorted n (m ∷ ms) h o =
    let a = absent_head n.key m ms h in
    elim (Bool-cases (bytes_lt m.key n.key)) [
      | inl e ↦ rw e (
        All-insert_by_key (λ x. bytes_lt m.key x.key ≡ true) n ms e o.0,
        insert_by_key-IsSorted n ms a.1 o.1,
      )
      | inr e ↦
          let t = bytes_lt_total m.key n.key a.0 e in rw e ((t, above-All n.key m.key ms t o.0), o)
    ]

pub sort_by_key-IsSorted : (ns : List NodeInfo) → HasDistinctKeys ns → IsSorted (sort_by_key ns)
unfolding sort_by_key
sort_by_key-IsSorted [] h = tt
sort_by_key-IsSorted (n ∷ ns) h =
    insert_by_key-IsSorted n (sort_by_key ns) (find_entry-sort_by_key n.key ns ∙ h.0)
      (sort_by_key-IsSorted ns h.1)

length-insert_by_key :
    (n : NodeInfo) (ns : List NodeInfo) → length (insert_by_key n ns) ≡ length ns + 1
unfolding insert_by_key
length-insert_by_key n [] = omega arith
length-insert_by_key n (m ∷ ms) = ground (arith, length-insert_by_key n ms)

pub length-sort_by_key : (ns : List NodeInfo) → length (sort_by_key ns) ≡ length ns
unfolding sort_by_key
length-sort_by_key [] = refl
length-sort_by_key (n ∷ ns) =
    omega (arith, length-insert_by_key n (sort_by_key ns), length-sort_by_key ns)
