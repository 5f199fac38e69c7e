-- ===== src/BlockLog/Log/NewBlock.antt =====
-- `AppendToNewBlock` on the abstract view of the log.
use theo_extension.Common.{
  ℕ, ◌+◌, ◌^◌, ◌<◌, ◌≡◌, refl, sym, ap, ◌∙◌, subst, inr, false, Option, none, some, List, [], ◌∷◌,
  ◌++◌, arith, length,
}
use theo_extension.Common.Bytes.{Bytes, nat_eq}
use theo_extension.BlockLog.Order.{Pairs, write_pairs, sort_pairs, write_log_entries}
use theo_extension.BlockLog.Order.Decode.{IsWritable}
use theo_extension.BlockLog.Order.Sort.{sort_pairs-IsWritable}
use theo_extension.BlockLog.Skiplist.{SkipList}
use theo_extension.BlockLog.State.{BlockAppendOnlyLog, ok}
use theo_extension.BlockLog.Index.{add64, flush_index_buffer, write_index_entry, save_index_meta}
use theo_extension.BlockLog.Recent.{update_recent_blocks, ensure_write_tracking_initialized}
use theo_extension.BlockLog.Write.{
  index_entry, write_data, set_min, set_latest, set_offset, append_new_block, append_to_new_block,
  next_block_id,
}
use theo_extension.BlockLog.Log.{IsLog}
use theo_extension.BlockLog.Log.Frame.{
  IsLog-frame, forget-update_recent_blocks, forget-ensure_write_tracking_initialized,
}
use theo_extension.BlockLog.Log.Flush.{flush-IsPending}
use theo_extension.BlockLog.Log.Grow.{IsGrown, grow-IsPending}
use theo_extension.BlockLog.Log.Fill.{continue-ok, IsLog-IsPending, save_index_meta-IsLog}
use theo_extension.BlockLog.Log.Written.{
  after_indexing, index_block-write_pairs, forget-after_indexing,
}

module _ (S : SkipList) where
  open S use {T}

  -- The state of `AppendToNewBlock` before its flush.
  abbrev pub unflushed : ℕ → Bytes → BlockAppendOnlyLog T → BlockAppendOnlyLog T
  unflushed i bytes b =
      let end = b.current_offset + length bytes in
      write_index_entry (index_entry i b.current_offset end)
        (set_latest i (set_min i (set_offset end (write_data bytes b))))

  pub unflushed-IsGrown :
      (i : ℕ) (ps : Pairs) (b : BlockAppendOnlyLog T)
      → IsGrown b i ps (unflushed i (write_pairs i ps) b)
  unfolding write_index_entry write_data
  unflushed-IsGrown i ps b = record {
    same_closed = refl;
    same_index = refl;
    same_map = refl;
    file = λ f h.
        ap (λ (o : Option Bytes). elim o [ none ↦ none | some f ↦ some (f ++ write_pairs i ps) ]) h;
    moved = refl;
    queued = refl;
    first = refl;
    latest = refl;
  }

  -- What follows the flush.
  abbrev pub finished : ℕ → ℕ → Pairs → BlockAppendOnlyLog T → BlockAppendOnlyLog T
  finished i start ps b = after_indexing S i start ps (update_recent_blocks S i (save_index_meta b))

  pub append_new_block-flushed :
      (i : ℕ) (kvs : Pairs) (b c : BlockAppendOnlyLog T)
      → i < 2 ^ 64
      → IsWritable kvs
      → b.current_offset + length (write_pairs i (sort_pairs kvs)) < 2 ^ 64
      → flush_index_buffer (unflushed i (write_pairs i (sort_pairs kvs)) b) ≡ (ok tt, c)
      → append_new_block S i kvs b ≡ (ok i, finished i b.current_offset (sort_pairs kvs) c)
  unfolding append_new_block write_log_entries
  append_new_block-flushed i kvs b c k w fits e =
      let ps = sort_pairs kvs in
      let no_wrap : add64 b.current_offset (length (write_pairs i ps))
          ≡ b.current_offset + length (write_pairs i ps) =
        omega arith in
      rw no_wrap (
        continue-ok _ e
        ∙ continue-ok _ (
            index_block-write_pairs S i b.current_offset ps
              (update_recent_blocks S i (save_index_meta c)) k (sort_pairs-IsWritable kvs w)))

  finished-IsLog :
      {c : BlockAppendOnlyLog T} {blocks : List Pairs} (i start : ℕ) (ps : Pairs)
      → IsLog c blocks
      → IsLog (finished i start ps c) blocks
  finished-IsLog {c} i start ps l =
      IsLog-frame
        (forget-after_indexing S i start ps (update_recent_blocks S i (save_index_meta c))
          ∙ forget-update_recent_blocks S i (save_index_meta c))
        (save_index_meta-IsLog l)

  pub append_new_block-IsLog :
      {b : BlockAppendOnlyLog T} {blocks : List Pairs} (i : ℕ) (kvs : Pairs)
      → IsLog b blocks
      → i ≡ b.latest_block_id + 1
      → i < 2 ^ 58
      → IsWritable kvs
      → b.current_offset + length (write_pairs i (sort_pairs kvs)) < 2 ^ 63
      → (c : BlockAppendOnlyLog T) × (append_new_block S i kvs b ≡ (ok i, c))
        × IsLog c (blocks ++ sort_pairs kvs ∷ [])
  append_new_block-IsLog {b} i kvs l n k w fits =
      let ps = sort_pairs kvs in
      let f = flush-IsPending (
        grow-IsPending (IsLog-IsPending l) (omega arith, inr n) (unflushed-IsGrown i ps b)
          (sort_pairs-IsWritable kvs w) k fits) in
      (
        _,
        append_new_block-flushed i kvs b _ (omega arith) w (omega arith) f.0,
        finished-IsLog i b.current_offset ps f.1,
      )

  pub next_block_id-eq :
      {b : BlockAppendOnlyLog T} {blocks : List Pairs}
      → IsLog b blocks
      → next_block_id S b ≡ b.latest_block_id + 1
  next_block_id-eq {b} l = ground (arith, l.small_ids, l.released)

  pub to_new_block :
      (p : Bytes × Bytes) (kvs : Pairs) (b : BlockAppendOnlyLog T)
      → b.closed ≡ false
      → append_to_new_block S (p ∷ kvs) b
        ≡ append_new_block S
            (next_block_id S (ensure_write_tracking_initialized S b))
            (p ∷ kvs)
            (ensure_write_tracking_initialized S b)
  unfolding append_to_new_block
  to_new_block p kvs b h = rw h refl

  -- On a log that holds `blocks`, `AppendToNewBlock` of pairs that are not empty succeeds, answers
  -- the number after the latest one, and the log then holds `blocks` and the sorted pairs. The
  -- numbers stay below 2^58, keys and values are shorter than 2^32, and the data file stays below
  -- 2^63 bytes.
  pub append_to_new_block-IsLog :
      {b : BlockAppendOnlyLog T} {blocks : List Pairs} (p : Bytes × Bytes) (kvs : Pairs)
      → IsLog b blocks
      → b.latest_block_id + 1 < 2 ^ 58
      → IsWritable (p ∷ kvs)
      → b.current_offset + length (write_pairs (b.latest_block_id + 1) (sort_pairs (p ∷ kvs)))
        < 2 ^ 63
      → (c : BlockAppendOnlyLog T) × (append_to_new_block S (p ∷ kvs) b
          ≡ (ok (b.latest_block_id + 1), c))
        × IsLog c (blocks ++ sort_pairs (p ∷ kvs) ∷ [])
  append_to_new_block-IsLog {b} p kvs l k w fits =
      let t = ensure_write_tracking_initialized S b in
      let same = forget-ensure_write_tracking_initialized S b in
      let i = b.latest_block_id + 1 in
      let el : t.latest_block_id ≡ b.latest_block_id = ap (λ s. s.latest_block_id) same in
      let eo : t.current_offset ≡ b.current_offset = ap (λ s. s.current_offset) same in
      let lt = IsLog-frame same l in
      let (c, e, lc) =
        append_new_block-IsLog i (p ∷ kvs) lt (omega (arith, el)) k w
          (subst (λ o. o + length (write_pairs i (sort_pairs (p ∷ kvs))) < 2 ^ 63) (sym eo) fits) in
      (
        c,
        to_new_block p kvs b l.is_open
            ∙ ap (λ j. append_new_block S j (p ∷ kvs) t) (next_block_id-eq lt ∙ ap (λ j. j + 1) el)
            ∙ e,
        lc,
      )
