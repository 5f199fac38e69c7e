-- ===== src/Segment/Parse.antt =====
-- Reading back the pairs of a segment or of an account's log, with the tags between them.
use theo_extension.Common.{
  ℕ, zero, suc, ◌+◌, ◌^◌, ◌≤◌, ◌<◌, ◌≡◌, refl, sym, ap, ◌∙◌, false, some, List, [], ◌∷◌, ◌++◌, map,
  arith, ge→ltb, length, length-append, append-nil, All, ◌==◌,
}
use theo_extension.Common.Bytes.{Bytes}
use theo_extension.Segment.{
  KvPair, finished, tag, pair, past, next_record, with_pair, forward_commit_tag, count_from,
  count_payload_entries, build_pairs_from, build_pairs_from_payload, serialize_storage_segment,
  append_forward_commit_tag,
}
use theo_extension.Segment.Records.{
  Record, written_pair, written_tag, write_record, write_records, IsRecord, is_pair, is_tag,
}
use theo_extension.Segment.Loops.{behind-front, moved, first_step, length-write_records}
use theo_extension.Segment.Recovery.{records_append}

unfoldable pub pairs_of : List Record → List KvPair
pairs_of [] = []
pairs_of (written_pair kv ∷ rs) = kv ∷ pairs_of rs
pairs_of (written_tag i ∷ rs) = pairs_of rs

count_pair :
    (fuel : ℕ) (payload : Bytes) (cursor count : ℕ) (kv : KvPair)
    → next_record payload cursor ≡ pair kv
    → count_from (suc fuel) payload cursor count
      ≡ count_from fuel payload (past cursor kv) (count + 1)
unfolding count_from
count_pair fuel payload cursor count kv e = rw (e, count_from) refl

count_tag :
    (fuel : ℕ) (payload : Bytes) (cursor count i : ℕ)
    → next_record payload cursor ≡ tag i
    → count_from (suc fuel) payload cursor count ≡ count_from fuel payload (cursor + 12) count
unfolding count_from
count_tag fuel payload cursor count i e = rw (e, count_from) refl

count_end :
    (fuel : ℕ) (payload : Bytes) (cursor count : ℕ)
    → next_record payload cursor ≡ finished
    → count_from (suc fuel) payload cursor count ≡ some count
unfolding count_from
count_end fuel payload cursor count e = rw (e, count_from) refl

at_end : (front : Bytes) → next_record (front ++ []) (length front) ≡ finished
unfolding next_record
at_end front =
    rw (ge→ltb (length front) (length (front ++ [])) (omega (arith, length-append front []))) refl

count_from-written :
    (rs : List Record) (front : Bytes) (fuel count : ℕ)
    → All IsRecord rs
    → length rs < fuel
    → count_from fuel (front ++ (write_records rs ++ [])) (length front) count
      ≡ some (count + length (pairs_of rs))
unfolding pairs_of write_records
count_from-written rs front zero count w h = absurd (omega arith)
count_from-written [] front (suc fuel) count w h =
    count_end fuel (front ++ []) (length front) count (at_end front) ∙ ap some (omega arith)
count_from-written (written_pair kv ∷ rs) front (suc fuel) count w h =
    let r = written_pair kv in
    count_pair fuel _ (length front) count kv (first_step front r rs [] w.0)
    ∙ ap (λ p. count_from fuel p (past (length front) kv) (count + 1)) (moved front r rs [])
    ∙ ap
        (λ c. count_from fuel ((front ++ write_record r) ++ (write_records rs ++ [])) c (count + 1))
        (behind-front front r)
    ∙ count_from-written rs (front ++ write_record r) fuel (count + 1) w.1 (omega arith)
    ∙ ap some (omega arith)
count_from-written (written_tag i ∷ rs) front (suc fuel) count w h =
    let r = written_tag i in
    count_tag fuel _ (length front) count i (first_step front r rs [] w.0)
    ∙ ap (λ p. count_from fuel p (length front + 12) count) (moved front r rs [])
    ∙ ap (λ c. count_from fuel ((front ++ write_record r) ++ (write_records rs ++ [])) c count)
        (behind-front front r)
    ∙ count_from-written rs (front ++ write_record r) fuel count w.1 (omega arith)

build_pair :
    (fuel count : ℕ) (payload : Bytes) (cursor : ℕ) (kv : KvPair)
    → next_record payload cursor ≡ pair kv
    → build_pairs_from (suc fuel) (suc count) payload cursor
      ≡ with_pair kv (build_pairs_from fuel count payload (past cursor kv))
unfolding build_pairs_from
build_pair fuel count payload cursor kv e = rw (e, build_pairs_from) refl

build_tag :
    (fuel count : ℕ) (payload : Bytes) (cursor i : ℕ)
    → next_record payload cursor ≡ tag i
    → build_pairs_from (suc fuel) (suc count) payload cursor
      ≡ build_pairs_from fuel (suc count) payload (cursor + 12)
unfolding build_pairs_from
build_tag fuel count payload cursor i e = rw (e, build_pairs_from) refl

no_pairs : (kvs : List KvPair) → 0 ≡ length kvs → kvs ≡ []
no_pairs [] h = refl
no_pairs (kv ∷ kvs) h = absurd (omega arith)

build_none :
    (fuel : ℕ) (payload : Bytes) (cursor : ℕ) → build_pairs_from fuel 0 payload cursor ≡ some []
unfolding build_pairs_from
build_none zero payload cursor = refl
build_none (suc fuel) payload cursor = refl

build_pairs_from-written :
    (rs : List Record) (front : Bytes) (fuel count : ℕ)
    → All IsRecord rs
    → length rs ≤ fuel
    → count ≡ length (pairs_of rs)
    → build_pairs_from fuel count (front ++ (write_records rs ++ [])) (length front)
      ≡ some (pairs_of rs)
unfolding pairs_of write_records
build_pairs_from-written rs front fuel zero w h n =
    build_none fuel (front ++ (write_records rs ++ [])) (length front)
    ∙ ap some (sym (no_pairs (pairs_of rs) n))
build_pairs_from-written [] front fuel (suc count) w h n = absurd (omega arith)
build_pairs_from-written (r ∷ rs) front zero (suc count) w h n = absurd (omega arith)
build_pairs_from-written (written_pair kv ∷ rs) front (suc fuel) (suc count) w h n =
    let r = written_pair kv in
    build_pair fuel count _ (length front) kv (first_step front r rs [] w.0)
    ∙ ap (with_pair kv) (
        ap (λ p. build_pairs_from fuel count p (past (length front) kv)) (moved front r rs [])
        ∙ ap
            (λ c.
              build_pairs_from fuel count ((front ++ write_record r) ++ (write_records rs ++ [])) c)
            (behind-front front r)
        ∙ build_pairs_from-written rs (front ++ write_record r) fuel count w.1 (omega arith)
            (omega arith))
build_pairs_from-written (written_tag i ∷ rs) front (suc fuel) (suc count) w h n =
    let r = written_tag i in
    build_tag fuel count _ (length front) i (first_step front r rs [] w.0)
    ∙ ap (λ p. build_pairs_from fuel (suc count) p (length front + 12)) (moved front r rs [])
    ∙ ap
        (λ c.
          build_pairs_from fuel (suc count) ((front ++ write_record r) ++ (write_records rs ++ []))
            c)
        (behind-front front r)
    ∙ build_pairs_from-written rs (front ++ write_record r) fuel (suc count) w.1 (omega arith) n

abbrev pub IsPair : KvPair → Type 0
IsPair kv =
    (length kv.key < 2 ^ 16) × (length kv.val < 2 ^ 16) × (0 < length kv.key + length kv.val)

serialize-written :
    (kvs : List KvPair)
    → All IsPair kvs
    → serialize_storage_segment kvs ≡ some (write_records (map written_pair kvs))
unfolding serialize_storage_segment write_records write_record
serialize-written [] a = refl
serialize-written (kv ∷ kvs) a =
    let k = ge→ltb 65535 (length kv.key) (omega arith) in
    let v = ge→ltb 65535 (length kv.val) (omega arith) in rw (k, v, serialize-written kvs a.1) refl

pairs_of-append : (rs ss : List Record) → pairs_of (rs ++ ss) ≡ pairs_of rs ++ pairs_of ss
unfolding pairs_of
pairs_of-append [] ss = refl
pairs_of-append (written_pair kv ∷ rs) ss = ap (λ t. kv ∷ t) (pairs_of-append rs ss)
pairs_of-append (written_tag i ∷ rs) ss = pairs_of-append rs ss

pairs_of-pairs :
    (kvs : List KvPair) (ss : List Record)
    → pairs_of (map written_pair kvs ++ ss) ≡ kvs ++ pairs_of ss
unfolding pairs_of
pairs_of-pairs [] ss = refl
pairs_of-pairs (kv ∷ kvs) ss = ap (λ t. kv ∷ t) (pairs_of-pairs kvs ss)

All-append : (rs ss : List Record) → All IsRecord rs → All IsRecord ss → All IsRecord (rs ++ ss)
All-append [] ss a b = b
All-append (r ∷ rs) ss a b = (a.0, All-append rs ss a.1 b)

All-pairs : (kvs : List KvPair) → All IsPair kvs → All IsRecord (map written_pair kvs)
All-pairs [] a = tt
All-pairs (kv ∷ kvs) a = (is_pair kv a.0.0 a.0.1 a.0.2, All-pairs kvs a.1)

one_tag : (i : ℕ) → write_records (written_tag i ∷ []) ≡ forward_commit_tag i
unfolding write_records write_record
one_tag i = append-nil (forward_commit_tag i)

log_bytes :
    (rs : List Record) (kvs : List KvPair) (i : ℕ)
    → 0 < i
    → write_records (rs ++ (map written_pair kvs ++ written_tag i ∷ []))
      ≡ write_records rs ++ append_forward_commit_tag (write_records (map written_pair kvs)) i
unfolding append_forward_commit_tag
log_bytes rs kvs i p =
    let z : (i == 0) ≡ false = ground arith in
    records_append rs (map written_pair kvs ++ written_tag i ∷ [])
    ∙ ap (λ t. write_records rs ++ t)
        (records_append (map written_pair kvs) (written_tag i ∷ [])
          ∙ ap (λ t. write_records (map written_pair kvs) ++ t) (one_tag i)
          ∙ rw z refl)

parse-written :
    (rs : List Record)
    → All IsRecord rs
    → (count_payload_entries (write_records rs) ≡ some (length (pairs_of rs)))
      × (build_pairs_from_payload (write_records rs) (length (pairs_of rs)) ≡ some (pairs_of rs))
unfolding count_payload_entries build_pairs_from_payload
parse-written rs w =
    let p = write_records rs in
    let long = length-write_records rs w in
    (
      ap (λ b. count_from (length p + 1) b 0 0) (sym (append-nil p))
          ∙ count_from-written rs [] (length p + 1) 0 w (omega arith)
          ∙ ap some (omega arith),
      ap (λ b. build_pairs_from (length p + 1) (length (pairs_of rs)) b 0) (sym (append-nil p))
          ∙ build_pairs_from-written rs [] (length p + 1) (length (pairs_of rs)) w (omega arith)
              refl,
    )

-- Pairs that are serialized and appended with the tag of block `i` to a log of the records `rs` are
-- read back behind the pairs of the log: counting finds all of them, and building with this count
-- gives all of them in order, the tags left out. Lengths fit in 16 bits, no pair is empty, and the
-- number of a block is above 0 and fits in 64 bits.
pub build_pairs-serialize_storage_segment :
    (rs : List Record) (kvs : List KvPair) (i : ℕ)
    → All IsRecord rs
    → All IsPair kvs
    → 0 < i
    → i < 2 ^ 64
    → (s : Bytes) × (serialize_storage_segment kvs ≡ some s)
      × (count_payload_entries (write_records rs ++ append_forward_commit_tag s i)
          ≡ some (length (pairs_of rs ++ kvs)))
      × (build_pairs_from_payload
            (write_records rs ++ append_forward_commit_tag s i)
            (length (pairs_of rs ++ kvs))
          ≡ some (pairs_of rs ++ kvs))
unfolding pairs_of
build_pairs-serialize_storage_segment rs kvs i w a p h =
    let news = map written_pair kvs ++ written_tag i ∷ [] in
    let all = rs ++ news in
    let good =
      All-append rs news w (
        All-append (map written_pair kvs) (written_tag i ∷ []) (All-pairs kvs a)
          (is_tag i h, tt)) in
    let parsed = parse-written all good in
    let bytes = log_bytes rs kvs i p in
    let pairs : pairs_of all ≡ pairs_of rs ++ kvs =
      pairs_of-append rs news
      ∙ ap (λ t. pairs_of rs ++ t) (pairs_of-pairs kvs (written_tag i ∷ []) ∙ append-nil kvs) in
    (
      write_records (map written_pair kvs),
      serialize-written kvs a,
      ap count_payload_entries (sym bytes) ∙ parsed.0 ∙ ap (λ ps. some (length ps)) pairs,
      ap (λ b. build_pairs_from_payload b (length (pairs_of rs ++ kvs))) (sym bytes)
          ∙ ap (λ ps. build_pairs_from_payload (write_records all) (length ps)) (sym pairs)
          ∙ parsed.1
          ∙ ap some pairs,
    )
