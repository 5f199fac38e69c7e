-- ===== src/BlockLog/Log/Reads.antt =====
-- Reading a block of a log from disk: `GetByBlock`, and `Get` of a key in a block that is not
-- indexed.
use mathlib.Core.Option
use theo_extension.Common.{
  ℕ, zero, suc, ◌+◌, ◌-◌, ◌^◌, ◌≤◌, ◌<◌, ◌≡◌, refl, ap, ◌∙◌, subst, inl, inr, false, Option, none,
  some, List, [], ◌∷◌, ◌++◌, ◌==◌, arith, length, append_assoc, length-append, if◌then◌else◌,
  Bool-cases, ge→ltb, get_elem?, All,
}
use theo_extension.Common.Bytes.{Bytes, nat_eq, bytes_beq, bytes_beq_iff, bytes_eq}
use theo_extension.Common.Maps.{lookup, insert, lookup-insert}
use theo_extension.BlockLog.Entry.{LogEntry, BlockIndexEntry, tombstone_marker}
use theo_extension.BlockLog.Order.{Pairs, write_pairs, decode, Decoded, complete}
use theo_extension.BlockLog.Order.Decode.{IsWritable, entries_of, decode_block-write_pairs}
use theo_extension.BlockLog.Order.Sort.{HasUniqueKeys}
use theo_extension.BlockLog.State.{BlockAppendOnlyLog, ok}
use theo_extension.BlockLog.Index.{sub64}
use theo_extension.BlockLog.Read.{
  ◌>>=◌, find_key, scan_for_key, second_pass, shown_if_found, collect_pairs, read_data, read_block,
  find_key_in_one_block, get_from_disk, get_by_block, deleted_text,
}
use theo_extension.BlockLog.Read.Values.{read_data_middle, is_negative_small}
use theo_extension.BlockLog.Layout.{data_of, entry_of, entry_at}
use theo_extension.BlockLog.Log.{
  IsLog, Numbered, numbered, unnumbered, entry_for, get_block_index_entry-eq,
  get_block_index_entry_with_source-eq,
}

-- Where a block stands in the data file.
pub record Cut (i s n : ℕ) (bs : List Pairs) (ps : Pairs) : Type 0 where
  pub front : Bytes
  pub back : Bytes
  pub split : data_of i bs ≡ front ++ (write_pairs (i + n) ps ++ back)
  pub entry : entry_at i s bs n ≡ some (entry_of (i + n) (s + length front) ps)

pub cut : (i s n : ℕ) (bs : List Pairs) (ps : Pairs) → get_elem? bs n ≡ some ps → Cut i s n bs ps
unfolding data_of entry_at
cut i s n [] ps h = cc
cut i s zero (p ∷ bs) ps h =
    let e : p ≡ ps = cc in
    let z : i + 0 ≡ i = omega arith in
    let z' : s + 0 ≡ s = omega arith in
    record {
      front = [];
      back = data_of (suc i) bs;
      split = rw (z, e) refl;
      entry = rw (z, z', e) refl;
    }
cut i s (suc n) (p ∷ bs) ps h =
    let w = write_pairs i p in
    let r = cut (suc i) (s + length w) n bs ps h in
    let z : suc i + n ≡ i + suc n = omega arith in
    let z' : s + length w + length r.front ≡ s + length (w ++ r.front) =
      omega (arith, length-append w r.front) in
    record {
      front = w ++ r.front;
      back = r.back;
      split = ap (λ t. w ++ t) r.split ∙ rw (append_assoc, z) refl;
      entry = r.entry ∙ rw (z, z') refl;
    }

get_elem?-lt : (n : ℕ) (bs : List Pairs) (ps : Pairs) → get_elem? bs n ≡ some ps → n < length bs
get_elem?-lt n [] ps h = cc
get_elem?-lt zero (p ∷ bs) ps h = omega arith
get_elem?-lt (suc n) (p ∷ bs) ps h = omega (arith, get_elem?-lt n bs ps h)

numbers_of :
    {min latest : ℕ} {blocks : List Pairs} (n : ℕ)
    → Numbered min latest blocks
    → n < length blocks
    → (0 < min) × (min + n ≤ latest)
numbers_of n (unnumbered m l) h = absurd (omega arith)
numbers_of n (numbered ps bs m l) h = (m, omega arith)

find_key-entries_of :
    (key : Bytes) (i : ℕ) (ps : Pairs) → find_key key (entries_of i ps) ≡ lookup key ps
unfolding find_key entries_of lookup
find_key-entries_of key i [] = refl
find_key-entries_of key i ((k, v) ∷ ps) = ground (arith, find_key-entries_of key i ps)

collect-lookup :
    (show : Bytes → Bytes) (key : Bytes) (i : ℕ) (ps m : Pairs)
    → HasUniqueKeys ps
    → lookup key (collect_pairs show m (entries_of i ps))
      ≡ elim (lookup key ps) [ none ↦ lookup key m | some v ↦ some (show v) ]
unfolding collect_pairs entries_of lookup
collect-lookup show key i [] m u = refl
collect-lookup show key i ((k, v) ∷ ps) m u =
    collect-lookup show key i ps (insert k (show v) m) u.1 ∙ elim (Bool-cases (bytes_beq k key)) [
      | inl e ↦
          let z : lookup key ps ≡ none =
            subst (λ j. lookup j ps ≡ none) ((bytes_beq_iff k key).0 e) u.0 in
          rw (z, e, lookup-insert k key (show v) m, e) refl
      | inr e ↦ rw e (
          ap (λ d. elim (lookup key ps) [ none ↦ d | some v ↦ some (show v) ])
            (lookup-insert k key (show v) m ∙ rw e refl))
    ]

one_pass :
    (key : Bytes) (es : List (LogEntry × ℕ)) (o : Option Bytes)
    → find_key key es ≡ o
    → scan_for_key key (record { entries = es; ending = complete }) ≡ ok o
unfolding scan_for_key
one_pass key es none h = rw (h, scan_for_key) refl
one_pass key es (some v) h = rw (h, scan_for_key) refl

-- The second pass of `findKeyInOneBlock` does not change what the first has found.
two_passes :
    (key : Bytes) (es : List (LogEntry × ℕ)) (o : Option Bytes)
    → find_key key es ≡ o
    → (scan_for_key key (record { entries = es; ending = complete })
        >>= second_pass key (record { entries = es; ending = complete }))
      ≡ ok o
two_passes key es none h =
    ap (λ r. r >>= second_pass key (record { entries = es; ending = complete }))
      (one_pass key es none h)
    ∙ one_pass key es none h
two_passes key es (some v) h =
    ap (λ r. r >>= second_pass key (record { entries = es; ending = complete }))
      (one_pass key es (some v) h)

shown_lookup :
    (show : Bytes → Bytes) (o : Option Bytes)
    → elim o [ none ↦ none | some v ↦ some (show v) ] ≡ Option.map show o
shown_lookup show none = refl
shown_lookup show (some v) = refl

read_block-empty :
    {T : Type 0} (b : BlockAppendOnlyLog T) (e : BlockIndexEntry)
    → sub64 e.end_offset e.start_offset ≡ 0
    → read_block b e ≡ ok []
unfolding read_block
read_block-empty b e h = rw h refl

read_block-full :
    {T : Type 0} (b : BlockAppendOnlyLog T) (e : BlockIndexEntry) (bytes : Bytes) (n : ℕ)
    → sub64 e.end_offset e.start_offset ≡ n
    → 0 < n
    → n < 2 ^ 63
    → read_data b e.start_offset n ≡ some bytes
    → read_block b e ≡ ok bytes
unfolding read_block
read_block-full b e bytes n h p k r =
    let z : (n == 0) ≡ false = ground arith in rw (h, z, is_negative_small n k, r) refl

-- What a block's index entry points to.
read_block-at :
    {T : Type 0} (b : BlockAppendOnlyLog T) (front bytes back : Bytes) (i : ℕ)
    → b.data_file ≡ some (front ++ (bytes ++ back))
    → length (front ++ (bytes ++ back)) < 2 ^ 63
    → read_block b (record {
      block_id = i;
      start_offset = length front;
      end_offset = length front + length bytes;
    })
      ≡ ok bytes
read_block-at b front [] back i f h = read_block-empty b _ (omega arith)
read_block-at b front (x ∷ bytes) back i f h =
    let total = length-append front ((x ∷ bytes) ++ back) in
    let inner = length-append (x ∷ bytes) back in
    read_block-full b _ (x ∷ bytes) (length (x ∷ bytes)) (omega (arith, total, inner)) (omega arith)
      (omega (arith, total, inner))
      (read_data_middle b front (x ∷ bytes) back (length front) (length (x ∷ bytes)) f refl refl
        (omega (arith, total, inner)))

All-at :
    (bs : List Pairs) (n : ℕ) (ps : Pairs)
    → All IsWritable bs
    → get_elem? bs n ≡ some ps
    → IsWritable ps
All-at [] n ps h e = cc
All-at (p ∷ bs) zero ps h e = let q : p ≡ ps = cc in subst IsWritable q h.0
All-at (p ∷ bs) (suc n) ps h e = All-at bs n ps h.1 e

abbrev pub shown_deleted : Bytes → Bytes
shown_deleted v = if bytes_beq v tombstone_marker then deleted_text else v

module _ {T : Type 0} {b : BlockAppendOnlyLog T} {blocks : List Pairs} (l : IsLog b blocks) (n : ℕ)
    (ps : Pairs) (there : get_elem? blocks n ≡ some ps) where
  abbrev pub number : ℕ
  number = b.min_block_id + n

  pub range : (0 < b.min_block_id) × (number ≤ b.latest_block_id)
  range = numbers_of n l.numbers (get_elem?-lt n blocks ps there)

  abbrev pub place : Cut b.min_block_id 0 n blocks ps
  place = cut b.min_block_id 0 n blocks ps there

  abbrev pub its_entry : BlockIndexEntry
  its_entry = entry_of number (length place.front) ps

  pub entry_for-there : entry_for b.min_block_id blocks number ≡ some its_entry
  entry_for-there =
      let e : number - b.min_block_id ≡ n = omega arith in
      let z : 0 + length place.front ≡ length place.front = omega arith in
      rw (ge→ltb number b.min_block_id (omega arith), e) (place.entry ∙ rw z refl)

  read_there : read_block b its_entry ≡ ok (write_pairs number ps)
  read_there =
      read_block-at b place.front (write_pairs number ps) place.back number
        (l.stored ∙ ap (λ f. some f) place.split)
        (subst (λ f. length f < 2 ^ 63) place.split l.small_file)

  abbrev its_decoding : Decoded
  its_decoding = record { entries = entries_of number ps; ending = complete }

  decode_there : decode (write_pairs number ps) ≡ its_decoding
  decode_there =
      decode_block-write_pairs (length (write_pairs number ps)) number ps
        (omega (arith, range.1, l.small_ids)) (All-at blocks n ps l.writable there) (omega arith)

  find_there : (key : Bytes) → find_key_in_one_block b its_entry key ≡ ok (lookup key ps)
  unfolding find_key_in_one_block
  find_there key =
      rw (read_there, decode_there)
        (two_passes key (entries_of number ps) (lookup key ps) (find_key-entries_of key number ps))

  -- `GetByBlock` of a block that the log holds answers, for every key, the value that the block's
  -- pairs have for it, a tombstone shown as "__DELETED__". The pairs have no key twice.
  pub get_by_block-lookup :
      (key : Bytes)
      → HasUniqueKeys ps
      → (kvs : Pairs) × (get_by_block b number ≡ ok kvs)
        × (lookup key kvs ≡ Option.map shown_deleted (lookup key ps))
  unfolding get_by_block lookup
  get_by_block-lookup key u = (
    collect_pairs shown_deleted [] (entries_of number ps),
    rw
        (
          get_block_index_entry-eq l number (omega (arith, range.1, l.small_ids))
              (omega (arith, range.0)),
          entry_for-there,
          read_there,
          decode_there,
          l.is_open,
        )
        refl,
    collect-lookup shown_deleted key number ps [] u ∙ shown_lookup shown_deleted (lookup key ps),
  )

  pub get_from_disk-lookup :
      (key : Bytes) → get_from_disk b number key ≡ ok (shown_if_found (lookup key ps))
  unfolding get_from_disk
  get_from_disk-lookup key =
      rw
        (
          get_block_index_entry_with_source-eq l number (omega (arith, range.1, l.small_ids))
              (omega (arith, range.0)),
          entry_for-there,
          find_there key,
        )
        refl

abbrev pub or_value : Option Bytes → Option Bytes → Option Bytes
or_value none o = o
or_value (some v) o = some v

-- The latest of the values that pairs have for a key.
abbrev pub last_value : Bytes → Pairs → Option Bytes
last_value key [] = none
last_value key ((k, v) ∷ ps) =
    or_value (last_value key ps) (if bytes_beq k key then some v else none)
