-- ===== src/BlockLog/Layout/Slots.antt =====
-- The slots of the index map file: reading the slot of a block finds the block's entry.
use mathlib.Core.Option
use theo_extension.Common.{
  ℕ, zero, suc, ◌+◌, ◌-◌, ◌*◌, ◌^◌, ◌≤◌, ◌<◌, ◌≡◌, refl, sym, ap, ◌∙◌, none, some, List, [], ◌∷◌,
  ◌++◌, ◌||◌, ◌==◌, arith, length, take, drop, leb, le→leb, if◌then◌else◌, length-append,
  take_prefix,
}
use theo_extension.Common.Bytes.{Bytes, nat_eq, read_at}
use theo_extension.BlockLog.Entry.{BlockIndexEntry, encode_index_entry, decode_index_entry}
use theo_extension.BlockLog.Entry.RoundTrip.{length-encode_index_entry, decode-encode_index_entry}
use theo_extension.BlockLog.Order.{Pairs, write_pairs}
use theo_extension.BlockLog.Index.{slot_pos, check_entry}
use theo_extension.BlockLog.Layout.{data_of, entry_of, index_of, entry_at}

read_at_first : (xs ys : Bytes) → length xs ≡ 24 → read_at (xs ++ ys) 0 24 ≡ some xs
unfolding read_at
read_at_first xs ys e =
    rw
      (
        le→leb (0 + 24) (length (xs ++ ys)) (omega (arith, length-append xs ys)),
        take_prefix 24 xs ys (sym e),
      )
      refl

read_at_nil : (pos : ℕ) → read_at [] pos 24 ≡ none
unfolding read_at
read_at_nil pos = ground arith

drop-drop_prefix : (n m : ℕ) (xs ys : Bytes) → n ≡ length xs → drop (n + m) (xs ++ ys) ≡ drop m ys
drop-drop_prefix n m [] ys e = let e' : n + m ≡ m = omega arith in rw e'
drop-drop_prefix zero m (x ∷ xs) ys e = absurd (omega arith)
drop-drop_prefix (suc n) m (x ∷ xs) ys e =
    let e' : suc n + m ≡ suc (n + m) = omega arith in
    rw e' (drop-drop_prefix n m xs ys (omega arith))

read_at_next :
    (xs ys : Bytes) (m : ℕ) → length xs ≡ 24 → read_at (xs ++ ys) (24 + m) 24 ≡ read_at ys m 24
unfolding read_at
read_at_next xs ys m e =
    rw (drop-drop_prefix 24 m xs ys (sym e))
      (ap (λ t. if t || 24 == 0 then some (take 24 (drop m ys)) else none) same)
  where
    same : leb (24 + m + 24) (length (xs ++ ys)) ≡ leb (m + 24) (length ys)
    same = ground (arith, length-append xs ys)

pub read_slot :
    (i s n : ℕ) (bs : List Pairs)
    → read_at (index_of i s bs) (n * 24) 24 ≡ Option.map encode_index_entry (entry_at i s bs n)
unfolding index_of entry_at
read_slot i s n [] = read_at_nil (n * 24)
read_slot i s zero (ps ∷ bs) =
    read_at_first (encode_index_entry (entry_of i s ps)) _
      (length-encode_index_entry (entry_of i s ps))
read_slot i s (suc n) (ps ∷ bs) =
    let w = s + length (write_pairs i ps) in
    let pos : suc n * 24 ≡ 24 + n * 24 = omega arith in
    rw pos (
      read_at_next (encode_index_entry (entry_of i s ps)) (index_of (suc i) w bs) (n * 24)
        (length-encode_index_entry (entry_of i s ps))
      ∙ read_slot (suc i) w n bs)

-- Where a block's entry points.
pub record IsEntry (i s total n : ℕ) (e : BlockIndexEntry) : Type 0 where
  pub numbered : e.block_id ≡ i + n
  pub above : s ≤ e.start_offset
  pub forward : e.start_offset ≤ e.end_offset
  pub inside : e.end_offset ≤ s + total

pub entry_at-IsEntry :
    (i s n : ℕ) (bs : List Pairs) (e : BlockIndexEntry)
    → entry_at i s bs n ≡ some e
    → IsEntry i s (length (data_of i bs)) n e
unfolding entry_at data_of
entry_at-IsEntry i s n [] e h = cc
entry_at-IsEntry i s zero (ps ∷ bs) e h =
    ground (arith, length-append (write_pairs i ps) (data_of (suc i) bs))
entry_at-IsEntry i s (suc n) (ps ∷ bs) e h = ground (
  arith,
  length-append (write_pairs i ps) (data_of (suc i) bs),
  entry_at-IsEntry (suc i) (s + length (write_pairs i ps)) n bs e h,
)

pub slot_pos_small :
    (block_id min : ℕ)
    → min ≤ block_id
    → block_id < 2 ^ 58
    → slot_pos block_id min ≡ (block_id - min) * 24
slot_pos_small block_id min h k = omega arith

pub check_entry_good :
    (block_id : ℕ) (e : BlockIndexEntry)
    → e.block_id ≡ block_id
    → 0 < block_id
    → e.start_offset ≤ e.end_offset
    → e.end_offset < 2 ^ 63
    → check_entry block_id e ≡ some e
unfolding check_entry
check_entry_good block_id e h p o f = ground arith

-- An entry that was written is read back whole.
pub decode_entry_at :
    (i s n : ℕ) (bs : List Pairs) (e : BlockIndexEntry)
    → entry_at i s bs n ≡ some e
    → i + n < 2 ^ 58
    → s + length (data_of i bs) < 2 ^ 63
    → decode_index_entry (encode_index_entry e) ≡ e
decode_entry_at i s n bs e h small fits =
    let r = entry_at-IsEntry i s n bs e h in
    decode-encode_index_entry e (omega (arith, r.numbered)) (omega (arith, r.forward, r.inside))
      (omega (arith, r.inside))
