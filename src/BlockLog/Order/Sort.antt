-- ===== src/BlockLog/Order/Sort.antt =====
-- The sort of a block's pairs keeps the pairs and puts them in the order of writing.
use mathlib.Core.List.{Perm}
use mathlib.Core.List.Perm
use theo_extension.Common.{
  ℕ, suc, ◌<◌, ◌≡◌, refl, ◌∙◌, ◌⊎◌, true, false, none, List, [], ◌∷◌, arith, All, Bool-cases, inl,
  inr, ==-refl, ==_iff, ◌==◌, if◌then◌else◌,
}
use theo_extension.Common.Bytes.{Bytes, bytes_beq_iff, bytes_eq, bytes_lt}
use theo_extension.Common.Maps.{lookup}
use theo_extension.KeyType.{DataType, header_type, block_body_type, block_receipts_type}
use theo_extension.KeyType.Trie.{get_data_type_from_key}
use theo_extension.BlockLog.Order.{
  Pairs, baol_write_priority, write_before, insert_pair, sort_pairs,
}
use theo_extension.BlockLog.Order.Decode.{IsWritable}

bytes_lt_irrefl : (k : Bytes) → bytes_lt k k ≡ false
unfolding bytes_lt
bytes_lt_irrefl [] = refl
bytes_lt_irrefl (b ∷ k) = rw (==-refl b) (bytes_lt_irrefl k)

write_before_irrefl : (k : Bytes) → write_before k k ≡ false
unfolding write_before
write_before_irrefl k = rw (==-refl (baol_write_priority k)) (bytes_lt_irrefl k)

-- No key is behind one that should come after it.
abbrev pub IsOrdered : Pairs → Type 0
IsOrdered [] = Unit
IsOrdered (p ∷ ps) = All (λ q. write_before q.0 p.0 ≡ false) ps × IsOrdered ps

insert_pair-perm : (p : Bytes × Bytes) (qs : Pairs) → Perm (insert_pair p qs) (p ∷ qs)
unfolding insert_pair
insert_pair-perm p [] = Perm.refl (p ∷ [])
insert_pair-perm p (q ∷ qs) = elim (Bool-cases (write_before q.0 p.0)) [
  | inl h ↦ rw h (Perm.trans (Perm.cons q (insert_pair-perm p qs)) (Perm.swap p q qs))
  | inr h ↦ rw h (Perm.refl (p ∷ q ∷ qs))
]

pub sort_pairs-perm : (ps : Pairs) → Perm (sort_pairs ps) ps
unfolding sort_pairs
sort_pairs-perm [] = Perm.refl []
sort_pairs-perm (p ∷ ps) =
    Perm.trans (insert_pair-perm p (sort_pairs ps)) (Perm.cons p (sort_pairs-perm ps))

lookup-insert_pair :
    (k : Bytes) (p : Bytes × Bytes) (qs : Pairs) → lookup k (insert_pair p qs) ≡ lookup k (p ∷ qs)
unfolding insert_pair lookup
lookup-insert_pair k p [] = refl
lookup-insert_pair k p (q ∷ qs) = ground (
  arith,
  lookup-insert_pair k p qs,
  bytes_beq_iff q.0 k,
  bytes_beq_iff p.0 k,
  write_before_irrefl k,
)

pub lookup-sort_pairs : (k : Bytes) (ps : Pairs) → lookup k (sort_pairs ps) ≡ lookup k ps
unfolding sort_pairs lookup
lookup-sort_pairs k [] = refl
lookup-sort_pairs k ((j, v) ∷ ps) =
    ground (arith, lookup-insert_pair k (j, v) (sort_pairs ps), lookup-sort_pairs k ps)

-- A Go map has each key once.
abbrev pub HasUniqueKeys : Pairs → Type 0
HasUniqueKeys [] = Unit
HasUniqueKeys ((k, v) ∷ ps) = (lookup k ps ≡ none) × HasUniqueKeys ps

insert_pair-HasUniqueKeys :
    (k v : Bytes) (qs : Pairs)
    → lookup k qs ≡ none
    → HasUniqueKeys qs
    → HasUniqueKeys (insert_pair (k, v) qs)
unfolding insert_pair lookup
insert_pair-HasUniqueKeys k v [] h u = (refl, tt)
insert_pair-HasUniqueKeys k v ((j, w) ∷ qs) h u = ground (
  arith,
  lookup-insert_pair j (k, v) qs,
  insert_pair-HasUniqueKeys k v qs,
  bytes_beq_iff j k,
  bytes_beq_iff k j,
)

pub sort_pairs-HasUniqueKeys : (ps : Pairs) → HasUniqueKeys ps → HasUniqueKeys (sort_pairs ps)
unfolding sort_pairs
sort_pairs-HasUniqueKeys [] u = tt
sort_pairs-HasUniqueKeys ((k, v) ∷ ps) u =
    insert_pair-HasUniqueKeys k v (sort_pairs ps) (lookup-sort_pairs k ps ∙ u.0)
      (sort_pairs-HasUniqueKeys ps u.1)

insert_pair-IsWritable :
    (p : Bytes × Bytes) (qs : Pairs) → IsWritable (p ∷ qs) → IsWritable (insert_pair p qs)
unfolding insert_pair
insert_pair-IsWritable p [] h = h
insert_pair-IsWritable p (q ∷ qs) h = elim (Bool-cases (write_before q.0 p.0)) [
  | inl e ↦ rw e (h.1.0, insert_pair-IsWritable p qs (h.0, h.1.1))
  | inr e ↦ rw e h
]

pub sort_pairs-IsWritable : (ps : Pairs) → IsWritable ps → IsWritable (sort_pairs ps)
unfolding sort_pairs
sort_pairs-IsWritable [] h = tt
sort_pairs-IsWritable (p ∷ ps) h =
    insert_pair-IsWritable p (sort_pairs ps) (h.0, sort_pairs-IsWritable ps h.1)

bytes_lt_asym : (a b : Bytes) → bytes_lt a b ≡ true → bytes_lt b a ≡ false
unfolding bytes_lt
bytes_lt_asym [] [] h = cc
bytes_lt_asym [] (y ∷ ys) h = refl
bytes_lt_asym (x ∷ xs) [] h = cc
bytes_lt_asym (x ∷ xs) (y ∷ ys) h = ground (arith, bytes_lt_asym xs ys)

bytes_ge_trans :
    (a b c : Bytes) → bytes_lt a b ≡ false → bytes_lt b c ≡ false → bytes_lt a c ≡ false
unfolding bytes_lt
bytes_ge_trans [] [] [] h k = refl
bytes_ge_trans [] [] (z ∷ zs) h k = cc
bytes_ge_trans [] (y ∷ ys) c h k = cc
bytes_ge_trans (x ∷ xs) b [] h k = refl
bytes_ge_trans (x ∷ xs) [] (z ∷ zs) h k = cc
bytes_ge_trans (x ∷ xs) (y ∷ ys) (z ∷ zs) h k = ground (arith, bytes_ge_trans xs ys zs)

write_before_asym : (a b : Bytes) → write_before a b ≡ true → write_before b a ≡ false
unfolding write_before
write_before_asym a b h = ground (arith, bytes_lt_asym a b)

write_after_trans :
    (a b c : Bytes) → write_before a b ≡ false → write_before b c ≡ false → write_before a c ≡ false
unfolding write_before
write_after_trans a b c h k = ground (arith, bytes_ge_trans a b c)

abbrev IsAfter : Bytes → Pairs → Type 0
IsAfter k = All (λ q. write_before q.0 k ≡ false)

insert_pair-IsAfter :
    (k : Bytes) (p : Bytes × Bytes) (qs : Pairs)
    → write_before p.0 k ≡ false
    → IsAfter k qs
    → IsAfter k (insert_pair p qs)
unfolding insert_pair
insert_pair-IsAfter k p [] h a = (h, tt)
insert_pair-IsAfter k p (q ∷ qs) h a = elim (Bool-cases (write_before q.0 p.0)) [
  | inl e ↦ rw e (a.0, insert_pair-IsAfter k p qs h a.1)
  | inr e ↦ rw e (h, a)
]

IsAfter-trans : (k j : Bytes) (qs : Pairs) → write_before j k ≡ false → IsAfter j qs → IsAfter k qs
IsAfter-trans k j [] h a = tt
IsAfter-trans k j (q ∷ qs) h a = (write_after_trans q.0 j k a.0 h, IsAfter-trans k j qs h a.1)

insert_pair-IsOrdered :
    (p : Bytes × Bytes) (qs : Pairs) → IsOrdered qs → IsOrdered (insert_pair p qs)
unfolding insert_pair
insert_pair-IsOrdered p [] o = (tt, tt)
insert_pair-IsOrdered p (q ∷ qs) o = elim (Bool-cases (write_before q.0 p.0)) [
  | inl e ↦ rw e (
    insert_pair-IsAfter q.0 p qs (write_before_asym q.0 p.0 e) o.0,
    insert_pair-IsOrdered p qs o.1,
  )
  | inr e ↦ rw e ((e, IsAfter-trans p.0 q.0 qs e o.0), o)
]

sort_pairs-IsOrdered : (ps : Pairs) → IsOrdered (sort_pairs ps)
unfolding sort_pairs
sort_pairs-IsOrdered [] = tt
sort_pairs-IsOrdered (p ∷ ps) = insert_pair-IsOrdered p (sort_pairs ps) (sort_pairs-IsOrdered ps)

-- The kinds of pairs in the order in which a block has them; all other kinds come behind.
abbrev pub kinds_in_order : List DataType
kinds_in_order = header_type ∷ block_body_type ∷ block_receipts_type ∷ []

abbrev pub place_in : List DataType → DataType → ℕ
place_in [] d = 0
place_in (t ∷ ts) d = if d == t then 0 else suc (place_in ts d)

-- The place of a key's kind, which the prefix trie gives.
abbrev pub kind_place : Bytes → ℕ
kind_place key = place_in kinds_in_order (get_data_type_from_key key)

-- The order of a dictionary: the first byte that differs decides, and a prefix comes first.
abbrev pub IsUpTo : Bytes → Bytes → Type 0
IsUpTo [] ys = Unit
IsUpTo (x ∷ xs) [] = ⊥
IsUpTo (x ∷ xs) (y ∷ ys) = (x < y) ⊎ ((x ≡ y) × IsUpTo xs ys)

abbrev pub IsInOrder : Bytes → Bytes → Type 0
IsInOrder a b = (kind_place a < kind_place b) ⊎ ((kind_place a ≡ kind_place b) × IsUpTo a b)

abbrev pub AreInOrder : Pairs → Type 0
AreInOrder [] = Unit
AreInOrder (p ∷ ps) = All (λ q. IsInOrder p.0 q.0) ps × AreInOrder ps

bytes_lt-IsUpTo : (a b : Bytes) → bytes_lt b a ≡ false → IsUpTo a b
unfolding bytes_lt
bytes_lt-IsUpTo [] b h = tt
bytes_lt-IsUpTo (x ∷ xs) [] h = cc
bytes_lt-IsUpTo (x ∷ xs) (y ∷ ys) h = elim (Bool-cases (x == y)) [
  | inl e ↦ inr (ground (arith, e), bytes_lt-IsUpTo xs ys (ground (arith, e)))
  | inr e ↦ inl (ground (arith, e))
]

priority-place : (key : Bytes) → baol_write_priority key ≡ kind_place key
unfolding baol_write_priority
priority-place key = ground arith

write_before-IsInOrder : (a b : Bytes) → write_before b a ≡ false → IsInOrder a b
unfolding write_before
write_before-IsInOrder a b h =
    let pa = priority-place a in
    let pb = priority-place b in
    elim (Bool-cases (baol_write_priority b == baol_write_priority a)) [
      | inl e ↦ inr (
        omega (arith, pa, pb, (==_iff (baol_write_priority b) (baol_write_priority a)).0 e),
        bytes_lt-IsUpTo a b (ground (arith, e)),
      )
      | inr e ↦ inl (ground (arith, pa, pb, e))
    ]

All-IsInOrder :
    (a : Bytes) (ps : Pairs)
    → All (λ q. write_before q.0 a ≡ false) ps
    → All (λ q. IsInOrder a q.0) ps
All-IsInOrder a [] h = tt
All-IsInOrder a (q ∷ ps) h = (write_before-IsInOrder a q.0 h.0, All-IsInOrder a ps h.1)

IsOrdered-AreInOrder : (ps : Pairs) → IsOrdered ps → AreInOrder ps
IsOrdered-AreInOrder [] h = tt
IsOrdered-AreInOrder (p ∷ ps) h = (All-IsInOrder p.0 ps h.0, IsOrdered-AreInOrder ps h.1)

-- For all pairs, the order in which a block is written is a permutation of the pairs in which each
-- pair is in order before every later one: headers come before bodies, bodies before receipts and
-- receipts before all else, as the prefix trie tells the kind of a key, and keys of one place are in
-- the order of a dictionary.
pub sort_pairs-perm-AreInOrder : (ps : Pairs) → Perm (sort_pairs ps) ps × AreInOrder (sort_pairs ps)
sort_pairs-perm-AreInOrder ps =
    (sort_pairs-perm ps, IsOrdered-AreInOrder (sort_pairs ps) (sort_pairs-IsOrdered ps))
