-- ===== src/NodeFile/Find.antt =====
-- A reference for lookups: the first entry of a key in a list. On a list sorted by key, what stands
-- before and behind an entry does not have its key.
use theo_extension.Common.{
  ℕ, zero, suc, ◌+◌, ◌<◌, ◌≡◌, refl, ap, true, false, Option, none, some, List, [], ◌∷◌, ◌++◌,
  arith, length, if◌then◌else◌, All,
}
use theo_extension.Common.Bytes.{Bytes, bytes_beq, bytes_lt}
use theo_extension.Common.ByteOrder.{bytes_lt_trans, bytes_lt-ne, bytes_lt-ne_sym}
use theo_extension.NodeFile.Entry.{NodeInfo}

unfoldable pub find_entry : Bytes → List NodeInfo → Option NodeInfo
find_entry key [] = none
find_entry key (n ∷ ns) = if bytes_beq n.key key then some n else find_entry key ns

abbrev pub IsSorted : List NodeInfo → Type 0
IsSorted [] = Unit
IsSorted (n ∷ ns) = All (λ m. bytes_lt n.key m.key ≡ true) ns × IsSorted ns

abbrev pub Lacks : Bytes → List NodeInfo → Type 0
Lacks key = All (λ n. bytes_beq n.key key ≡ false)

pub find_entry-Lacks : (key : Bytes) (ns : List NodeInfo) → Lacks key ns → find_entry key ns ≡ none
unfolding find_entry
find_entry-Lacks key [] h = refl
find_entry-Lacks key (n ∷ ns) h = rw (h.0) (find_entry-Lacks key ns h.1)

pub find_entry-past :
    (key : Bytes) (ns ms : List NodeInfo)
    → Lacks key ns
    → find_entry key (ns ++ ms) ≡ find_entry key ms
unfolding find_entry
find_entry-past key [] ms h = refl
find_entry-past key (n ∷ ns) ms h = rw (h.0) (find_entry-past key ns ms h.1)

pub find_entry-before :
    (key : Bytes) (ns ms : List NodeInfo)
    → Lacks key ms
    → find_entry key (ns ++ ms) ≡ find_entry key ns
unfolding find_entry
find_entry-before key [] ms h = find_entry-Lacks key ms h
find_entry-before key (n ∷ ns) ms h = ground (arith, find_entry-before key ns ms h)

-- What a sorted list says of the entries around one of them.
pub record IsAround (ns : List NodeInfo) (m : NodeInfo) (ms : List NodeInfo) : Type 0 where
  pub below : All (λ n. bytes_lt n.key m.key ≡ true) ns
  pub above : All (λ n. bytes_lt m.key n.key ≡ true) ms
  pub sorted_below : IsSorted ns
  pub sorted_above : IsSorted ms

All-append :
    (n : NodeInfo) (ns : List NodeInfo) (m : NodeInfo) (ms : List NodeInfo)
    → All (λ x. bytes_lt n.key x.key ≡ true) (ns ++ m ∷ ms)
    → All (λ x. bytes_lt n.key x.key ≡ true) ns × (bytes_lt n.key m.key ≡ true)
All-append n [] m ms h = (tt, h.0)
All-append n (x ∷ ns) m ms h = let r = All-append n ns m ms h.1 in ((h.0, r.0), r.1)

pub IsSorted-IsAround :
    (ns : List NodeInfo) (m : NodeInfo) (ms : List NodeInfo)
    → IsSorted (ns ++ m ∷ ms)
    → IsAround ns m ms
IsSorted-IsAround [] m ms h = record {
  below = tt;
  above = h.0;
  sorted_below = tt;
  sorted_above = h.1;
}
IsSorted-IsAround (n ∷ ns) m ms h =
    let r = IsSorted-IsAround ns m ms h.1 in
    let a = All-append n ns m ms h.0 in
    record {
      below = (a.1, r.below);
      above = r.above;
      sorted_below = (a.0, r.sorted_below);
      sorted_above = r.sorted_above;
    }

pub below-Lacks :
    (k key : Bytes) (ns : List NodeInfo)
    → bytes_lt k key ≡ true
    → All (λ n. bytes_lt n.key k ≡ true) ns
    → Lacks key ns
below-Lacks k key [] h a = tt
below-Lacks k key (n ∷ ns) h a =
    (bytes_lt-ne n.key key (bytes_lt_trans n.key k key a.0 h), below-Lacks k key ns h a.1)

pub at-Lacks :
    (key : Bytes) (ns : List NodeInfo) → All (λ n. bytes_lt n.key key ≡ true) ns → Lacks key ns
at-Lacks key [] a = tt
at-Lacks key (n ∷ ns) a = (bytes_lt-ne n.key key a.0, at-Lacks key ns a.1)

pub above-Lacks :
    (k key : Bytes) (ns : List NodeInfo)
    → bytes_lt key k ≡ true
    → All (λ n. bytes_lt k n.key ≡ true) ns
    → Lacks key ns
above-Lacks k key [] h a = tt
above-Lacks k key (n ∷ ns) h a =
    (bytes_lt-ne_sym key n.key (bytes_lt_trans key k n.key h a.0), above-Lacks k key ns h a.1)

pub record Split (i : ℕ) (ns : List NodeInfo) : Type 0 where
  pub front : List NodeInfo
  pub middle : NodeInfo
  pub back : List NodeInfo
  pub whole : ns ≡ front ++ middle ∷ back
  pub at : length front ≡ i
  pub total : length front + length back + 1 ≡ length ns

pub split : (i : ℕ) (ns : List NodeInfo) → i < length ns → Split i ns
split i [] h = absurd (omega arith)
split zero (n ∷ ns) h = record {
  front = [];
  middle = n;
  back = ns;
  whole = refl;
  at = refl;
  total = omega arith;
}
split (suc i) (n ∷ ns) h =
    let r = split i ns (omega arith) in
    record {
      front = n ∷ r.front;
      middle = r.middle;
      back = r.back;
      whole = ap (◌∷◌ n) r.whole;
      at = ap suc r.at;
      total = omega (arith, r.total);
    }
