-- ===== src/Segment/Loops.antt =====
-- The loops for the newest tag, on records that were written and bytes of one that was cut off.
use theo_extension.Common.{
  ℕ, zero, suc, ◌+◌, ◌≤◌, ◌≡◌, refl, sym, ap, ◌∙◌, Option, some, List, [], ◌∷◌, ◌++◌, map, arith,
  length, length-append, append_assoc, All,
}
use theo_extension.Common.Bytes.{Bytes}
use theo_extension.Segment.{
  write_pair, forward_commit_tag, KvPair, Step, tag, pair, past, next_record, find_end_from,
  last_block_id_from,
}
use theo_extension.Segment.Records.{
  Record, written_pair, written_tag, write_record, write_records, step_of, IsRecord,
  length-write_pair, length-forward_commit_tag, next_record-written, IsStop, IsTorn,
  next_record-torn,
}

-- Where the newest tag of some records ends, and its block.
unfoldable pub end_of_tags : List Record → ℕ → Option ℕ → Option ℕ
end_of_tags [] pos end = end
end_of_tags (written_pair kv ∷ rs) pos end = end_of_tags rs (past pos kv) end
end_of_tags (written_tag i ∷ rs) pos end = end_of_tags rs (pos + 12) (some (pos + 12))

unfoldable pub last_tag : List Record → Option ℕ → Option ℕ
last_tag [] last = last
last_tag (written_pair kv ∷ rs) last = last_tag rs last
last_tag (written_tag i ∷ rs) last = last_tag rs (some i)

abbrev pub behind : ℕ → Record → ℕ
behind pos (written_pair kv) = past pos kv
behind pos (written_tag i) = pos + 12

pub behind-eq : (pos : ℕ) (r : Record) → behind pos r ≡ pos + length (write_record r)
unfolding write_record
behind-eq pos (written_pair kv) = omega (arith, length-write_pair kv)
behind-eq pos (written_tag i) = omega (arith, length-forward_commit_tag i)

pub behind-front :
    (front : Bytes) (r : Record) → behind (length front) r ≡ length (front ++ write_record r)
behind-front front r = behind-eq (length front) r ∙ sym (length-append front (write_record r))

pub stopped-end :
    (fuel : ℕ) (payload : Bytes) (cursor : ℕ) (end : Option ℕ) (s : Step)
    → next_record payload cursor ≡ s
    → IsStop s
    → find_end_from fuel payload cursor end ≡ end
unfolding find_end_from
stopped-end zero payload cursor end s e h = refl
stopped-end (suc fuel) payload cursor end (tag i) e h = absurd h
stopped-end (suc fuel) payload cursor end (pair kv) e h = absurd h
stopped-end (suc fuel) payload cursor end s e h = rw (e, find_end_from) refl

pub next_end :
    (fuel : ℕ) (payload : Bytes) (cursor : ℕ) (end : Option ℕ) (kv : KvPair)
    → next_record payload cursor ≡ pair kv
    → find_end_from (suc fuel) payload cursor end ≡ find_end_from fuel payload (past cursor kv) end
unfolding find_end_from
next_end fuel payload cursor end kv e = rw (e, find_end_from) refl

pub next_end_tag :
    (fuel : ℕ) (payload : Bytes) (cursor : ℕ) (end : Option ℕ) (i : ℕ)
    → next_record payload cursor ≡ tag i
    → find_end_from (suc fuel) payload cursor end
      ≡ find_end_from fuel payload (cursor + 12) (some (cursor + 12))
unfolding find_end_from
next_end_tag fuel payload cursor end i e = rw (e, find_end_from) refl

pub stopped-block :
    (fuel : ℕ) (payload : Bytes) (cursor : ℕ) (last : Option ℕ) (s : Step)
    → next_record payload cursor ≡ s
    → IsStop s
    → last_block_id_from fuel payload cursor last ≡ last
unfolding last_block_id_from
stopped-block zero payload cursor last s e h = refl
stopped-block (suc fuel) payload cursor last (tag i) e h = absurd h
stopped-block (suc fuel) payload cursor last (pair kv) e h = absurd h
stopped-block (suc fuel) payload cursor last s e h = rw (e, last_block_id_from) refl

pub next_block :
    (fuel : ℕ) (payload : Bytes) (cursor : ℕ) (last : Option ℕ) (kv : KvPair)
    → next_record payload cursor ≡ pair kv
    → last_block_id_from (suc fuel) payload cursor last
      ≡ last_block_id_from fuel payload (past cursor kv) last
unfolding last_block_id_from
next_block fuel payload cursor last kv e = rw (e, last_block_id_from) refl

pub next_block_tag :
    (fuel : ℕ) (payload : Bytes) (cursor : ℕ) (last : Option ℕ) (i : ℕ)
    → next_record payload cursor ≡ tag i
    → last_block_id_from (suc fuel) payload cursor last
      ≡ last_block_id_from fuel payload (cursor + 12) (some i)
unfolding last_block_id_from
next_block_tag fuel payload cursor last i e = rw (e, last_block_id_from) refl

-- The bytes with the first record moved to the front.
pub moved :
    (front : Bytes) (r : Record) (rs : List Record) (bytes : Bytes)
    → front ++ (write_records (r ∷ rs) ++ bytes)
      ≡ (front ++ write_record r) ++ (write_records rs ++ bytes)
unfolding write_records
moved front r rs bytes = simp append_assoc

pub first_step :
    (front : Bytes) (r : Record) (rs : List Record) (bytes : Bytes)
    → IsRecord r
    → next_record (front ++ (write_records (r ∷ rs) ++ bytes)) (length front) ≡ step_of r
unfolding write_records
first_step front r rs bytes w =
    ap (λ t. next_record (front ++ t) (length front))
      (append_assoc (write_record r) (write_records rs) bytes)
    ∙ next_record-written front r (write_records rs ++ bytes) (length front) refl w

pub find_end_from-written :
    (rs : List Record) (front bytes : Bytes) (fuel : ℕ) (end : Option ℕ)
    → All IsRecord rs
    → IsTorn bytes
    → length rs ≤ fuel
    → find_end_from fuel (front ++ (write_records rs ++ bytes)) (length front) end
      ≡ end_of_tags rs (length front) end
unfolding end_of_tags write_records
find_end_from-written [] front bytes fuel end w t h =
    stopped-end fuel (front ++ bytes) (length front) end
      (next_record (front ++ bytes) (length front)) refl
      (next_record-torn front bytes (length front) refl t)
find_end_from-written (r ∷ rs) front bytes zero end w t h = absurd (omega arith)
find_end_from-written (written_pair kv ∷ rs) front bytes (suc fuel) end w t h =
    let r = written_pair kv in
    next_end fuel _ (length front) end kv (first_step front r rs bytes w.0)
    ∙ ap (λ p. find_end_from fuel p (past (length front) kv) end) (moved front r rs bytes)
    ∙ ap (λ c. find_end_from fuel ((front ++ write_record r) ++ (write_records rs ++ bytes)) c end)
        (behind-front front r)
    ∙ find_end_from-written rs (front ++ write_record r) bytes fuel end w.1 t (omega arith)
    ∙ ap (λ c. end_of_tags rs c end) (sym (behind-front front r))
find_end_from-written (written_tag i ∷ rs) front bytes (suc fuel) end w t h =
    let r = written_tag i in
    let found = some (length front + 12) in
    next_end_tag fuel _ (length front) end i (first_step front r rs bytes w.0)
    ∙ ap (λ p. find_end_from fuel p (length front + 12) found) (moved front r rs bytes)
    ∙ ap
        (λ c. find_end_from fuel ((front ++ write_record r) ++ (write_records rs ++ bytes)) c found)
        (behind-front front r)
    ∙ find_end_from-written rs (front ++ write_record r) bytes fuel found w.1 t (omega arith)
    ∙ ap (λ c. end_of_tags rs c found) (sym (behind-front front r))

pub last_block_id_from-written :
    (rs : List Record) (front bytes : Bytes) (fuel : ℕ) (last : Option ℕ)
    → All IsRecord rs
    → IsTorn bytes
    → length rs ≤ fuel
    → last_block_id_from fuel (front ++ (write_records rs ++ bytes)) (length front) last
      ≡ last_tag rs last
unfolding last_tag write_records
last_block_id_from-written [] front bytes fuel last w t h =
    stopped-block fuel (front ++ bytes) (length front) last
      (next_record (front ++ bytes) (length front)) refl
      (next_record-torn front bytes (length front) refl t)
last_block_id_from-written (r ∷ rs) front bytes zero last w t h = absurd (omega arith)
last_block_id_from-written (written_pair kv ∷ rs) front bytes (suc fuel) last w t h =
    let r = written_pair kv in
    next_block fuel _ (length front) last kv (first_step front r rs bytes w.0)
    ∙ ap (λ p. last_block_id_from fuel p (past (length front) kv) last) (moved front r rs bytes)
    ∙ ap
        (λ c.
          last_block_id_from fuel ((front ++ write_record r) ++ (write_records rs ++ bytes)) c last)
        (behind-front front r)
    ∙ last_block_id_from-written rs (front ++ write_record r) bytes fuel last w.1 t (omega arith)
last_block_id_from-written (written_tag i ∷ rs) front bytes (suc fuel) last w t h =
    let r = written_tag i in
    next_block_tag fuel _ (length front) last i (first_step front r rs bytes w.0)
    ∙ ap (λ p. last_block_id_from fuel p (length front + 12) (some i)) (moved front r rs bytes)
    ∙ ap
        (λ c.
          last_block_id_from fuel ((front ++ write_record r) ++ (write_records rs ++ bytes)) c
            (some i))
        (behind-front front r)
    ∙ last_block_id_from-written rs (front ++ write_record r) bytes fuel (some i) w.1 t
        (omega arith)

pub length-write_records :
    (rs : List Record) → All IsRecord rs → length rs ≤ length (write_records rs)
unfolding write_records write_record
length-write_records [] w = omega arith
length-write_records (written_pair kv ∷ rs) w = omega (
  arith,
  length-append (write_pair kv) (write_records rs),
  length-write_pair kv,
  length-write_records rs w.1,
)
length-write_records (written_tag i ∷ rs) w = omega (
  arith,
  length-append (forward_commit_tag i) (write_records rs),
  length-forward_commit_tag i,
  length-write_records rs w.1,
)

pub end_of_pairs :
    (kvs : List KvPair) (pos : ℕ) (end : Option ℕ)
    → end_of_tags (map written_pair kvs) pos end ≡ end
unfolding end_of_tags
end_of_pairs [] pos end = refl
end_of_pairs (kv ∷ kvs) pos end = end_of_pairs kvs (past pos kv) end

pub end_at_tag :
    (rs : List Record) (i : ℕ) (kvs : List KvPair) (pos : ℕ) (end : Option ℕ)
    → end_of_tags (rs ++ written_tag i ∷ map written_pair kvs) pos end
      ≡ some (pos + length (write_records rs) + 12)
unfolding end_of_tags write_records
end_at_tag [] i kvs pos end = end_of_pairs kvs (pos + 12) (some (pos + 12)) ∙ ap some (omega arith)
end_at_tag (written_pair kv ∷ rs) i kvs pos end =
    end_at_tag rs i kvs (past pos kv) end
    ∙ ap some (
        omega (
          arith,
          length-append (write_record (written_pair kv)) (write_records rs),
          behind-eq pos (written_pair kv),
        ))
end_at_tag (written_tag j ∷ rs) i kvs pos end =
    end_at_tag rs i kvs (pos + 12) (some (pos + 12))
    ∙ ap some (
        omega (
          arith,
          length-append (write_record (written_tag j)) (write_records rs),
          behind-eq pos (written_tag j),
        ))

pub block_of_pairs :
    (kvs : List KvPair) (last : Option ℕ) → last_tag (map written_pair kvs) last ≡ last
unfolding last_tag
block_of_pairs [] last = refl
block_of_pairs (kv ∷ kvs) last = block_of_pairs kvs last

pub block_at_tag :
    (rs : List Record) (i : ℕ) (kvs : List KvPair) (last : Option ℕ)
    → last_tag (rs ++ written_tag i ∷ map written_pair kvs) last ≡ some i
unfolding last_tag
block_at_tag [] i kvs last = block_of_pairs kvs (some i)
block_at_tag (written_pair kv ∷ rs) i kvs last = block_at_tag rs i kvs last
block_at_tag (written_tag j ∷ rs) i kvs last = block_at_tag rs i kvs (some j)
