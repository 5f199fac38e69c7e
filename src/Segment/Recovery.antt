-- ===== src/Segment/Recovery.antt =====
-- The loops over a segment's records on bytes that end in a record that was cut off: what stands up
-- to the newest commit tag is found, and trimming keeps that.
use theo_extension.Common.{
  ℕ, ◌+◌, ◌≤◌, ◌≡◌, refl, sym, ap, ◌∙◌, true, false, none, some, List, [], ◌∷◌, ◌++◌, map, arith,
  ltb, length, take, length-append, take_prefix, take_everything, append_assoc, All, Bool-cases,
  inl, inr,
}
use theo_extension.Common.Bytes.{Bytes}
use theo_extension.Segment.{
  forward_commit_tag, KvPair, find_last_forward_commit_tag_end_from,
  last_forward_commit_tag_block_id_from, find_last_forward_commit_tag_end,
  last_forward_commit_tag_block_id, cut_at, trim_file_after_last_commit_tag,
}
use theo_extension.Segment.Records.{
  Record, written_pair, written_tag, write_record, write_records, IsRecord,
  length-forward_commit_tag, IsTorn,
}
use theo_extension.Segment.Loops.{
  find_end_from-written, last_block_id_from-written, length-write_records, end_at_tag, block_at_tag,
}

pub records_append :
    (rs ss : List Record) → write_records (rs ++ ss) ≡ write_records rs ++ write_records ss
unfolding write_records
records_append [] ss = refl
records_append (r ∷ rs) ss =
    ap (λ t. write_record r ++ t) (records_append rs ss)
    ∙ sym (append_assoc (write_record r) (write_records rs) (write_records ss))

module _ (rs : List Record) (i : ℕ) (kvs : List KvPair) (bytes : Bytes)
    (good : All IsRecord (rs ++ written_tag i ∷ map written_pair kvs)) (torn : IsTorn bytes) where
  abbrev pub all_records : List Record
  all_records = rs ++ written_tag i ∷ map written_pair kvs

  abbrev pub torn_file : Bytes
  torn_file = write_records all_records ++ bytes

  enough : length all_records ≤ length torn_file + 1
  enough = omega (
    arith,
    length-append (write_records all_records) bytes,
    length-write_records all_records good,
  )

  tag_end : find_last_forward_commit_tag_end torn_file false ≡ some (length (write_records rs) + 12)
  unfolding find_last_forward_commit_tag_end find_last_forward_commit_tag_end_from
  tag_end =
      find_end_from-written all_records [] bytes (length torn_file + 1) none good torn enough
      ∙ end_at_tag rs i kvs 0 none
      ∙ ap some (omega arith)

  tag_block : last_forward_commit_tag_block_id torn_file false ≡ some i
  unfolding last_forward_commit_tag_block_id last_forward_commit_tag_block_id_from
  tag_block =
      last_block_id_from-written all_records [] bytes (length torn_file + 1) none good torn enough
      ∙ block_at_tag rs i kvs none

  kept_bytes :
      (rest : Bytes) × (torn_file ≡ write_records (rs ++ written_tag i ∷ []) ++ rest)
      × (length (write_records (rs ++ written_tag i ∷ [])) ≡ length (write_records rs) + 12)
  unfolding write_records write_record
  kept_bytes =
      let t = written_tag i in
      let head = records_append rs (t ∷ []) in
      (
        write_records (map written_pair kvs) ++ bytes,
        ap (λ b. b ++ bytes) (records_append rs (t ∷ map written_pair kvs))
            ∙ rw head (simp append_assoc),
        ap length head
            ∙ omega (
              arith,
              length-append (write_records rs) (forward_commit_tag i ++ []),
              length-append (forward_commit_tag i) [],
              length-forward_commit_tag i,
            ),
      )

  -- A file of whole records, the newest tag among them that of block `i`, that ends in the middle
  -- of a record: `trimFileAfterLastCommitTag` keeps the records up to this tag and drops the pairs
  -- behind it with the torn record, and the block that is read off the file is `i`. Lengths fit in
  -- 16 bits, no pair is empty, and the file has no padding.
  pub trim_file-torn :
      (trim_file_after_last_commit_tag torn_file false
        ≡ (write_records (rs ++ written_tag i ∷ []), true))
      × (last_forward_commit_tag_block_id torn_file false ≡ some i)
  unfolding trim_file_after_last_commit_tag
  trim_file-torn =
      let (rest, whole, size) = kept_bytes in
      let end = length (write_records rs) + 12 in
      let kept = write_records (rs ++ written_tag i ∷ []) in
      let cut : take end torn_file ≡ kept =
        ap (take end) whole ∙ take_prefix end kept rest (omega (arith, size)) in
      (
        ap (cut_at torn_file) tag_end
            ∙ ap (λ b. (b, true))
                (elim (Bool-cases (ltb end (length torn_file))) [
                  | inl e ↦ rw e cut
                  | inr e ↦ rw e (sym (take_everything end torn_file (ground arith)) ∙ cut)
                ]),
        tag_block,
      )
