-- ===== src/Database/Commit.antt =====
-- The pending block reaches the block log: by `CommitAOLBatch`, and when `Put` comes to a later
-- block.
use theo_extension.Common.{
  ℕ, ◌+◌, ◌^◌, ◌<◌, ◌≡◌, refl, ap, ◌∙◌, subst, true, false, some, List, [], ◌∷◌, ◌++◌, arith,
  length, replicate, lt→ltb, ◌==◌, append-nil, if◌then◌else◌,
}
use theo_extension.Common.Bytes.{Bytes}
use theo_extension.KeyType.{DataType}
use theo_extension.BlockLog.Order.{Pairs, write_pairs, sort_pairs}
use theo_extension.BlockLog.Order.Decode.{IsWritable}
use theo_extension.BlockLog.Skiplist.{SkipList}
use theo_extension.BlockLog.State.{BlockAppendOnlyLog, ok, err, log_closed}
use theo_extension.BlockLog.Index.{save_index_meta}
use theo_extension.BlockLog.Write.{guard_open, append, flush_data_and_index}
use theo_extension.BlockLog.Layout.{index_of}
use theo_extension.BlockLog.Log.{IsLog}
use theo_extension.BlockLog.Log.Append.{append-IsLog, written_block}
use theo_extension.BlockLog.Log.Gap.{missing}
use theo_extension.BlockLog.Log.Flush.{after_flush, flush-IsPending}
use theo_extension.BlockLog.Log.Fill.{IsLog-IsPending, save_index_meta-IsLog, continue-ok}
use theo_extension.Database.Stores.{PebbleStore, StateStore, done}
use theo_extension.Database.State.{Database, is_aol_handled}
use theo_extension.Database.Put.{block_of, on_log, start_block, put_later_block, put_with_data_type}
use theo_extension.Database.Batch.{is_nothing, commit_aol_batch}

module _ (S : SkipList) where
  open S use {T}

  guard_open-ok : (b : BlockAppendOnlyLog T) → b.closed ≡ false → guard_open b ≡ (ok tt, b)
  guard_open-ok b h = ap (λ c. if c then (err log_closed, b) else (ok tt, b)) h

  pub flush_data_and_index-IsLog :
      {b : BlockAppendOnlyLog T} {blocks : List Pairs}
      → IsLog b blocks
      → (c : BlockAppendOnlyLog T) × (flush_data_and_index S b ≡ (ok tt, c)) × IsLog c blocks
  unfolding flush_data_and_index
  flush_data_and_index-IsLog {b} {blocks} l =
      let f = flush-IsPending (IsLog-IsPending l) in
      let c = after_flush b (index_of b.min_block_id 0 (blocks ++ [])) in
      (
        save_index_meta c,
        continue-ok _ (guard_open-ok b l.is_open) ∙ continue-ok _ f.0,
        save_index_meta-IsLog (subst (λ bs. IsLog c bs) (append-nil blocks) f.1),
      )

module _ (S : SkipList) (PS : PebbleStore) (SS : StateStore) where
  open S use {T}
  open PS use {P}
  open SS use {D}

  appended_on_log :
      (d : Database P D T) (b c : BlockAppendOnlyLog T)
      → append S d.baol_latest_block d.baolkvs b ≡ (ok tt, c)
      → on_log S PS SS b (append S d.baol_latest_block d.baolkvs) d
        ≡ (done tt, record d { block_aol = some c })
  appended_on_log d b c e = rw e refl

  commit_steps :
      (d : Database P D T) (b c f : BlockAppendOnlyLog T)
      → d.block_aol ≡ some b
      → 0 < d.baol_latest_block
      → is_nothing d.baolkvs ≡ false
      → append S d.baol_latest_block d.baolkvs b ≡ (ok tt, c)
      → flush_data_and_index S c ≡ (ok tt, f)
      → commit_aol_batch S PS SS d
        ≡ (done tt, record d { block_aol = some f; baolkvs = []; baol_latest_block = 0 })
  unfolding commit_aol_batch
  commit_steps d b c f s p k e g =
      let z : (d.baol_latest_block == 0) ≡ false = ground arith in rw (s, z, k, e, g) refl

  -- `CommitAOLBatch` with pairs that wait for a block beyond the latest one of a log that holds
  -- `blocks`: it succeeds, no pairs wait any more, the next batch may be of any block, and the log
  -- holds `blocks`, an empty block for each number skipped (none in an empty log), and the pairs,
  -- sorted. The other stores stay as they are. The bounds are those of the append.
  pub commit_aol_batch-IsLog :
      (d : Database P D T) (b : BlockAppendOnlyLog T) (blocks : List Pairs)
      → d.block_aol ≡ some b
      → IsLog b blocks
      → b.latest_block_id < d.baol_latest_block
      → d.baol_latest_block < 2 ^ 58
      → is_nothing d.baolkvs ≡ false
      → IsWritable d.baolkvs
      → b.current_offset + length (write_pairs d.baol_latest_block (sort_pairs d.baolkvs)) < 2 ^ 63
      → (c : BlockAppendOnlyLog T) × (commit_aol_batch S PS SS d
          ≡ (done tt, record d { block_aol = some c; baolkvs = []; baol_latest_block = 0 }))
        × IsLog c (
            blocks
            ++ (replicate (missing b.latest_block_id blocks d.baol_latest_block) []
                ++ written_block d.baolkvs))
  commit_aol_batch-IsLog d b blocks s l h k n w fits =
      let (c, e, lc) = append-IsLog S d.baol_latest_block d.baolkvs l h k w fits in
      let (f, g, lf) = flush_data_and_index-IsLog S lc in
      (f, commit_steps d b c f s (omega arith) n e g, lf)

  later_steps :
      (d : Database P D T) (b c : BlockAppendOnlyLog T) (key value : Bytes) (t : DataType) (n : ℕ)
      → d.is_closed ≡ false
      → is_aol_handled t ≡ true
      → block_of key value t ≡ some n
      → 0 < d.baol_latest_block
      → d.baol_latest_block < n
      → d.block_aol ≡ some b
      → append S d.baol_latest_block d.baolkvs b ≡ (ok tt, c)
      → put_with_data_type S PS SS key value t d
        ≡ start_block S PS SS n key value (record d { block_aol = some c })
  unfolding put_with_data_type put_later_block
  later_steps d b c key value t n o a m p k s e =
      let z : (d.baol_latest_block == 0) ≡ false = ground arith in
      rw (o, a, m, lt→ltb d.baol_latest_block n k, s, z, e) refl

  -- `PutWithDataType` of a pair of a later block than the pending one, which is beyond the latest
  -- one of a log that holds `blocks`: it succeeds, the pair alone waits for its block, and the log
  -- holds `blocks`, an empty block for each number skipped (none in an empty log) and, if pairs
  -- were waiting, these pairs, sorted. The other stores stay as they are. The bounds are those of
  -- the append.
  pub put_with_data_type-IsLog :
      (d : Database P D T) (b : BlockAppendOnlyLog T) (blocks : List Pairs) (key value : Bytes)
      (t : DataType) (n : ℕ)
      → d.is_closed ≡ false
      → is_aol_handled t ≡ true
      → block_of key value t ≡ some n
      → d.block_aol ≡ some b
      → IsLog b blocks
      → b.latest_block_id < d.baol_latest_block
      → d.baol_latest_block < n
      → d.baol_latest_block < 2 ^ 58
      → IsWritable d.baolkvs
      → b.current_offset + length (write_pairs d.baol_latest_block (sort_pairs d.baolkvs)) < 2 ^ 63
      → (c : BlockAppendOnlyLog T) × (put_with_data_type S PS SS key value t d ≡ (
        done tt,
        record d { block_aol = some c; baolkvs = (key, value) ∷ []; baol_latest_block = n },
      ))
        × IsLog c (
            blocks
            ++ (replicate (missing b.latest_block_id blocks d.baol_latest_block) []
                ++ written_block d.baolkvs))
  put_with_data_type-IsLog d b blocks key value t n o a m s l h q k w fits =
      let (c, e, lc) = append-IsLog S d.baol_latest_block d.baolkvs l h k w fits in
      (c, later_steps d b c key value t n o a m (omega arith) q s e, lc)
