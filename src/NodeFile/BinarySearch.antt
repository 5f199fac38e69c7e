-- ===== src/NodeFile/BinarySearch.antt =====
-- The halving search over the sorted part finds what a walk over its entries finds.
use Prim.Native.Nat.{min}
use theo_extension.Common.{
  ℕ, zero, suc, ◌+◌, ◌-◌, ◌*◌, ◌/◌, ◌%◌, ◌^◌, ◌<◌, ◌≤◌, ◌≡◌, refl, sym, ap, ◌∙◌, subst, true, false,
  Option, none, some, List, [], ◌∷◌, ◌++◌, arith, ltb, leb, le→leb, ge→ltb, length, take, drop,
  drop_prefix, take_prefix, append_assoc, length-append, All, Bool-cases, inl, inr, if◌then◌else◌,
  ◌==◌, ==_iff,
}
use theo_extension.Common.Bytes.{Bytes, bytes_beq, bytes_beq_iff, bytes_lt}
use theo_extension.Common.ByteOrder.{bytes_lt_total}
use theo_extension.NodeFile.Entry.{
  NodeInfo, node_entry_size, max_key_size, first_byte, encode_node_entry, encode_node_entries,
  decode_node_entry, node_lookup_key, key_len,
}
use theo_extension.NodeFile.Entry.RoundTrip.{
  IsEncodable, length-encode_node_entry, decode_node_entry-encode_node_entry, decoded_key,
  numbers_of, padded_key,
}
use theo_extension.NodeFile.Slices.{encode_node_entries-append, length-encode_node_entries}
use theo_extension.NodeFile.Find.{
  find_entry, IsSorted, find_entry-past, find_entry-before, IsAround, IsSorted-IsAround,
  below-Lacks, at-Lacks, above-Lacks, split,
}
use theo_extension.NodeFile.Search.{entry_at, get_key_at, search_between}

-- An entry whose key is stored whole.
pub record IsEntry (n : NodeInfo) : Type 0 where
  pub named : 0 < length n.key
  pub short : length n.key ≤ max_key_size
  pub fits : IsEncodable n

pub short_key : (key : Bytes) → length key ≤ max_key_size → node_lookup_key key ≡ key
unfolding node_lookup_key
short_key key h = rw (ge→ltb max_key_size (length key) h) refl

pub decode-IsEntry : (n : NodeInfo) → IsEntry n → decode_node_entry (encode_node_entry n) ≡ n
decode-IsEntry n h =
    decode_node_entry-encode_node_entry n h.fits
    ∙ ap (λ k. record n { key = k }) (short_key n.key h.short)

-- The entry behind `front` stands at its index.
entry_bytes :
    (front : List NodeInfo) (m : NodeInfo) (back : List NodeInfo) (i : ℕ)
    → i ≡ length front
    → drop (i * node_entry_size) (encode_node_entries (front ++ m ∷ back))
      ≡ encode_node_entry m ++ encode_node_entries back
unfolding encode_node_entries
entry_bytes front m back i e =
    ap (drop (i * node_entry_size)) (encode_node_entries-append front (m ∷ back))
    ∙ drop_prefix (i * node_entry_size) (encode_node_entries front)
        (encode_node_entry m ++ encode_node_entries back)
        (omega (arith, length-encode_node_entries front))

stored_first_key :
    (m : NodeInfo) (rest : Bytes)
    → IsEntry m
    → take
        (if ltb max_key_size (first_byte (encode_node_entry m ++ rest))
          then max_key_size
          else first_byte (encode_node_entry m ++ rest))
        (drop 1 (encode_node_entry m ++ rest))
      ≡ m.key
unfolding encode_node_entry
stored_first_key m rest h =
    let k : min max_key_size (key_len m.key)
        ≡ (if ltb max_key_size (key_len m.key) then max_key_size else key_len m.key) =
      ground arith in
    ap (λ j. take j ((padded_key m.key ++ numbers_of m) ++ rest)) (sym k)
    ∙ ap (take (min max_key_size (key_len m.key)))
        (append_assoc (padded_key m.key) (numbers_of m) rest)
    ∙ decoded_key m.key (numbers_of m ++ rest)
    ∙ short_key m.key h.short

entry_read :
    (front : List NodeInfo) (m : NodeInfo) (back : List NodeInfo) (i : ℕ)
    → i ≡ length front
    → IsEntry m
    → decode_node_entry (entry_at (encode_node_entries (front ++ m ∷ back)) i) ≡ m
entry_read front m back i e h =
    ap (λ t. decode_node_entry (take node_entry_size t)) (entry_bytes front m back i e)
    ∙ ap decode_node_entry (
        take_prefix node_entry_size (encode_node_entry m) (encode_node_entries back)
          (sym (length-encode_node_entry m)))
    ∙ decode-IsEntry m h

key_read :
    (front : List NodeInfo) (m : NodeInfo) (back : List NodeInfo) (i : ℕ)
    → i ≡ length front
    → IsEntry m
    → get_key_at (encode_node_entries (front ++ m ∷ back)) i ≡ m.key
unfolding get_key_at
key_read front m back i e h =
    rw (entry_bytes front m back i e) (stored_first_key m (encode_node_entries back) h)

entries_around :
    (ns : List NodeInfo) (m : NodeInfo) (ms : List NodeInfo)
    → All IsEntry (ns ++ m ∷ ms)
    → All IsEntry ns × IsEntry m × All IsEntry ms
entries_around [] m ms h = (tt, h.0, h.1)
entries_around (n ∷ ns) m ms h = let r = entries_around ns m ms h.1 in ((h.0, r.0), r.1, r.2)

module _ (key : Bytes) where
  -- One round of the loop, at an entry that is known.
  round :
      (fuel : ℕ) (s : Bytes) (low high mid : ℕ) (m : NodeInfo) (answer : Option NodeInfo)
      → (low + high) % 2 ^ 32 / 2 ≡ mid
      → low ≤ high
      → get_key_at s mid ≡ m.key
      → decode_node_entry (entry_at s mid) ≡ m
      → (if bytes_beq m.key key
          then some m
          else if bytes_lt m.key key
          then search_between fuel s key (mid + 1) high
          else if mid == 0
          then none
          else search_between fuel s key low (mid - 1))
        ≡ answer
      → search_between (suc fuel) s key low high ≡ answer
  unfolding search_between
  round fuel s low high mid m answer c h k d e = rw (c, le→leb low high h, k, d) e

  abbrev Claim : ℕ → Type 0
  Claim fuel =
      (front seg back : List NodeInfo) (low high : ℕ)
      → All IsEntry seg
      → IsSorted seg
      → length seg < fuel
      → low ≡ length front
      → high + 1 ≡ low + length seg
      → low + length seg ≤ 2 ^ 31
      → search_between fuel (encode_node_entries (front ++ (seg ++ back))) key low high
        ≡ find_entry key seg

  empty_find : (ns : List NodeInfo) → length ns ≡ 0 → find_entry key ns ≡ none
  unfolding find_entry
  empty_find [] h = refl
  empty_find (n ∷ ns) h = absurd (omega arith)

  module _ (left : List NodeInfo) (m : NodeInfo) (right : List NodeInfo)
      (around : IsAround left m right) where
    found_here : bytes_beq m.key key ≡ true → some m ≡ find_entry key (left ++ m ∷ right)
    unfolding find_entry
    found_here e = sym (
        find_entry-past key left (m ∷ right) (
          at-Lacks key left (
            subst (λ k. All (λ n. bytes_lt n.key k ≡ true) left) ((bytes_beq_iff m.key key).0 e)
              around.below))
        ∙ rw e refl)

    found_above :
        bytes_beq m.key key ≡ false
        → bytes_lt m.key key ≡ true
        → find_entry key (left ++ m ∷ right) ≡ find_entry key right
    unfolding find_entry
    found_above e h =
        find_entry-past key left (m ∷ right) (below-Lacks m.key key left h around.below) ∙ rw e refl

    found_below :
        bytes_beq m.key key ≡ false
        → bytes_lt m.key key ≡ false
        → find_entry key (left ++ m ∷ right) ≡ find_entry key left
    found_below e h =
        find_entry-before key left (m ∷ right)
          (e, above-Lacks m.key key right (bytes_lt_total m.key key e h) around.above)

  halve :
      (fuel : ℕ) (front left : List NodeInfo) (m : NodeInfo) (right back : List NodeInfo)
      (low high mid : ℕ)
      → Claim fuel
      → All IsEntry left × IsEntry m × All IsEntry right
      → IsAround left m right
      → length left + length right < fuel
      → low ≡ length front
      → mid ≡ low + length left
      → high ≡ mid + length right
      → high < 2 ^ 31
      → (low + high) % 2 ^ 32 / 2 ≡ mid
      → search_between
          (suc fuel)
          (encode_node_entries (front ++ ((left ++ m ∷ right) ++ back)))
          key
          low
          high
        ≡ find_entry key (left ++ m ∷ right)
  halve fuel front left m right back low high mid ih a around f l c h b k =
      let at : front ++ ((left ++ m ∷ right) ++ back) ≡ (front ++ left) ++ m ∷ (right ++ back) =
        simp append_assoc in
      let here : mid ≡ length (front ++ left) = omega (arith, length-append front left) in
      let past : (front ++ left ++ m ∷ []) ++ (right ++ back)
          ≡ front ++ ((left ++ m ∷ right) ++ back) =
        simp append_assoc in
      let before : front ++ (left ++ (m ∷ right ++ back)) ≡ front ++ ((left ++ m ∷ right) ++ back) =
        simp append_assoc in
      round fuel _ low high mid m _ k (omega arith)
        (ap (λ t. get_key_at (encode_node_entries t) mid) at
          ∙ key_read (front ++ left) m (right ++ back) mid here a.1)
        (ap (λ t. decode_node_entry (entry_at (encode_node_entries t) mid)) at
          ∙ entry_read (front ++ left) m (right ++ back) mid here a.1)
        (elim (Bool-cases (bytes_beq m.key key)) [
          | inl e ↦ rw e (found_here left m right around e)
          | inr e ↦ elim (Bool-cases (bytes_lt m.key key)) [
            | inl t ↦
                rw (e, t)
                  (ap (λ s. search_between fuel (encode_node_entries s) key (mid + 1) high)
                      (sym past)
                    ∙ ih (front ++ left ++ m ∷ []) right back (mid + 1) high a.2 around.sorted_above
                        (omega arith) (omega (arith, length-append (front ++ left) (m ∷ []), here))
                        (omega arith) (omega arith)
                    ∙ sym (found_above left m right around e t))
            | inr t ↦
                rw (e, t)
                  (elim (Bool-cases (mid == 0)) [
                    | inl z ↦
                        let none_left : length left ≡ 0 = omega (arith, (==_iff mid 0).0 z) in
                        rw z (sym (found_below left m right around e t ∙ empty_find left none_left))
                    | inr z ↦
                        let some_left : 0 < mid = ground arith in
                        rw z (
                          ap (λ s. search_between fuel (encode_node_entries s) key low (mid - 1))
                            (sym before)
                          ∙ ih front left (m ∷ right ++ back) low (mid - 1) a.0 around.sorted_below
                              (omega arith) l (omega arith) (omega arith)
                          ∙ sym (found_below left m right around e t))
                  ])
          ]
        ])

  -- With fuel for each entry, the search between two indices answers what a walk over the entries
  -- between them answers, if these are sorted by key.
  pub search_between-eq : (fuel : ℕ) → Claim fuel
  unfolding search_between find_entry
  search_between-eq zero front seg back low high a o f l h b = absurd (omega arith)
  search_between-eq (suc fuel) front [] back low high a o f l h b =
      let t : leb low high ≡ false = ground arith in rw t refl
  search_between-eq (suc fuel) front (x ∷ xs) back low high a o f l h b =
      let mid = (low + high) % 2 ^ 32 / 2 in
      let at : mid - low < length (x ∷ xs) = omega arith in
      let r = split (mid - low) (x ∷ xs) at in
      let parts = entries_around r.front r.middle r.back (subst (λ q. All IsEntry q) r.whole a) in
      let around = IsSorted-IsAround r.front r.middle r.back (subst IsSorted r.whole o) in
      subst
        (λ q.
          search_between (suc fuel) (encode_node_entries (front ++ (q ++ back))) key low high
          ≡ find_entry key q)
        (sym r.whole)
        (halve fuel front r.front r.middle r.back back low high mid (search_between-eq fuel) parts
          around (omega (arith, r.total)) l (omega (arith, r.at)) (omega (arith, r.at, r.total))
          (omega arith) refl)
