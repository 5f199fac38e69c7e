-- ===== src/BlockLog/Recent/Lookup.antt =====
-- What the skip list answers after a block has been indexed: a pointer to where the pair stands.
use mathlib.Core.Path.{subst₂}
use theo_extension.Common.{
  subst, ℕ, ◌+◌, ◌^◌, ◌<◌, ◌≡◌, refl, sym, ap, ◌∙◌, true, false, Option, none, some, List, [], ◌∷◌,
  ◌++◌, arith, length, if◌then◌else◌, length-append, append_assoc, Bool-cases, inl, inr,
}
use theo_extension.Common.Bytes.{Bytes, bytes_beq, bytes_beq_iff, bytes_eq}
use theo_extension.Common.Maps.{lookup}
use theo_extension.BlockLog.Entry.{LogEntry, KvPointer, header_size, write_log_entry}
use theo_extension.BlockLog.Entry.RoundTrip.{length-write_log_entry}
use theo_extension.BlockLog.Order.{Pairs, write_pairs}
use theo_extension.BlockLog.Order.Decode.{entries_of}
use theo_extension.BlockLog.Order.Sort.{HasUniqueKeys}
use theo_extension.BlockLog.Skiplist.{SkipList}
use theo_extension.BlockLog.State.{BlockAppendOnlyLog}
use theo_extension.BlockLog.Index.{add64}
use theo_extension.BlockLog.Recent.{
  build_kv_pointer_for_skiplist, record_indexed_key, set_skiplist_entry, index_entries,
}

-- The pointer that the entries leave for a key, if `p` was there before.
pub last_pointer : Bytes → ℕ → List (LogEntry × ℕ) → Option KvPointer → Option KvPointer
last_pointer key pos [] p = p
last_pointer key pos ((e, n) ∷ es) p = last_pointer key (add64 pos n) es (
    if bytes_beq e.key key
    then some (build_kv_pointer_for_skiplist e.block_id pos e.key e.value)
    else p)

module _ (S : SkipList) where
  open S use {T, get, get-set}

  pub get-index_entries :
      (key : Bytes) (pos : ℕ) (es : List (LogEntry × ℕ)) (b : BlockAppendOnlyLog T)
      → get key (index_entries S pos es b).skiplist_index
        ≡ last_pointer key pos es (get key b.skiplist_index)
  unfolding index_entries set_skiplist_entry last_pointer record_indexed_key
  get-index_entries key pos [] b = refl
  get-index_entries key pos ((e, n) ∷ es) b =
      let p = build_kv_pointer_for_skiplist e.block_id pos e.key e.value in
      get-index_entries key (add64 pos n) es (set_skiplist_entry S e.block_id e.key p b)
      ∙ ap (last_pointer key (add64 pos n) es) (get-set e.key key p b.skiplist_index)

-- A key that the pairs do not have keeps its pointer.
last_pointer-missing :
    (key : Bytes) (pos i : ℕ) (ps : Pairs) (p : Option KvPointer)
    → lookup key ps ≡ none
    → last_pointer key pos (entries_of i ps) p ≡ p
unfolding last_pointer entries_of lookup
last_pointer-missing key pos i [] p h = refl
last_pointer-missing key pos i ((k, v) ∷ ps) p h =
    ground (arith, last_pointer-missing key (add64 pos (header_size + length k + length v)) i ps p)

-- Where a pair stands among the bytes of its block.
pub record Place (key value : Bytes) (pos i : ℕ) (ps : Pairs) (p : Option KvPointer) : Type 0 where
  pub before : Bytes
  pub behind : Bytes
  pub split : write_pairs i ps ≡ before ++ (write_log_entry i key value ++ behind)
  pub points :
      last_pointer key pos (entries_of i ps) p
      ≡ some (build_kv_pointer_for_skiplist i (pos + length before) key value)

Place-here :
    (key value : Bytes) (pos i : ℕ) (ps : Pairs) (p : Option KvPointer)
    → lookup key ps ≡ none
    → Place key value pos i ((key, value) ∷ ps) p
unfolding write_pairs last_pointer entries_of
Place-here key value pos i ps p h = record {
  before = [];
  behind = write_pairs i ps;
  split = refl;
  points =
      let pos' : pos + 0 ≡ pos = omega arith in
      rw (pos', (bytes_beq_iff key key).1 refl, last_pointer)
        (last_pointer-missing key (add64 pos (header_size + length key + length value)) i ps
          (some (build_kv_pointer_for_skiplist i pos key value)) h);
}

Place-next :
    (key value k v : Bytes) (pos i : ℕ) (ps : Pairs) (p : Option KvPointer)
    → bytes_beq k key ≡ false
    → pos + length (write_pairs i ((k, v) ∷ ps)) < 2 ^ 64
    → Place key value (add64 pos (header_size + length k + length v)) i ps p
    → Place key value pos i ((k, v) ∷ ps) p
unfolding write_pairs last_pointer entries_of
Place-next key value k v pos i ps p ne fits r = record {
  before = write_log_entry i k v ++ r.before;
  behind = r.behind;
  split = rw (r.split, append_assoc);
  points =
      rw (ne, last_pointer)
        (r.points ∙ ap (λ o. some (build_kv_pointer_for_skiplist i o key value)) moved);
}
  where
    moved :
        add64 pos (header_size + length k + length v) + length r.before
        ≡ pos + length (write_log_entry i k v ++ r.before)
    moved = omega (
      arith,
      length-append (write_log_entry i k v) r.before,
      length-append (write_log_entry i k v) (write_pairs i ps),
      length-write_log_entry i k v,
    )

fits_next :
    (k v : Bytes) (pos i : ℕ) (ps : Pairs)
    → pos + length (write_pairs i ((k, v) ∷ ps)) < 2 ^ 64
    → add64 pos (header_size + length k + length v) + length (write_pairs i ps) < 2 ^ 64
unfolding write_pairs
fits_next k v pos i ps h =
    omega (
      arith,
      length-append (write_log_entry i k v) (write_pairs i ps),
      length-write_log_entry i k v,
    )

pub first_pair :
    (key k v value : Bytes) (ps : Pairs)
    → bytes_beq k key ≡ true
    → lookup key ((k, v) ∷ ps) ≡ some value
    → v ≡ value
unfolding lookup
first_pair key k v value ps e h = ground arith

pub later_pair :
    (key k v value : Bytes) (ps : Pairs)
    → bytes_beq k key ≡ false
    → lookup key ((k, v) ∷ ps) ≡ some value
    → lookup key ps ≡ some value
unfolding lookup
later_pair key k v value ps e h = ground arith

pub Place-of :
    (key value : Bytes) (pos i : ℕ) (ps : Pairs) (p : Option KvPointer)
    → HasUniqueKeys ps
    → lookup key ps ≡ some value
    → pos + length (write_pairs i ps) < 2 ^ 64
    → Place key value pos i ps p
unfolding lookup
Place-of key value pos i [] p u h fits = cc
Place-of key value pos i ((k, v) ∷ ps) p u h fits = elim (Bool-cases (bytes_beq k key)) [
  | inl e ↦
      let ek : k ≡ key = (bytes_beq_iff k key).0 e in
      subst₂ (λ a b. Place key value pos i ((a, b) ∷ ps) p) (sym ek)
        (sym (first_pair key k v value ps e h))
        (Place-here key value pos i ps p (subst (λ a. lookup a ps ≡ none) ek u.0))
  | inr e ↦ Place-next key value k v pos i ps p e fits (
      Place-of key value (add64 pos (header_size + length k + length v)) i ps p u.1
        (later_pair key k v value ps e h) (fits_next k v pos i ps fits))
]
