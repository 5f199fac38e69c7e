-- ===== src/BlockLog/Log/Commit.antt =====
-- `MarkBlockCommitted` on the abstract view of the log.
use theo_extension.Common.{
  ℕ, zero, suc, ◌+◌, ◌-◌, ◌^◌, ◌≤◌, ◌<◌, ◌≡◌, refl, sym, ap, ◌∙◌, subst, inl, inr, true, false,
  some, List, [], ◌∷◌, ◌++◌, ◌==◌, arith, replicate, append_assoc, append-nil, ltb, leb, Bool-cases,
  ltb→lt, leb→le,
}
use theo_extension.Common.Bytes.{nat_eq}
use theo_extension.BlockLog.Order.{Pairs, write_pairs}
use theo_extension.BlockLog.Skiplist.{SkipList}
use theo_extension.BlockLog.State.{BlockAppendOnlyLog, ok}
use theo_extension.BlockLog.Index.{add64, flush_index_buffer, write_index_entry, save_index_meta}
use theo_extension.BlockLog.Recent.{update_recent_blocks, ensure_write_tracking_initialized}
use theo_extension.BlockLog.Write.{
  index_entry, set_min, set_latest, fill_before, commit_marker, mark_block_committed,
}
use theo_extension.BlockLog.Log.{IsLog}
use theo_extension.BlockLog.Log.Frame.{
  IsLog-frame, forget-update_recent_blocks, forget-ensure_write_tracking_initialized,
}
use theo_extension.BlockLog.Log.Flush.{flush-IsPending}
use theo_extension.BlockLog.Log.Grow.{IsGrown, IsGrown-frame, grow-IsPending}
use theo_extension.BlockLog.Log.Fill.{
  continue-ok, IsLog-IsPending, save_index_meta-IsLog, fill_missing_blocks_until-IsLog,
}

replicate-snoc : (n : ℕ) (x : Pairs) → replicate n x ++ x ∷ [] ≡ replicate (suc n) x
replicate-snoc zero x = refl
replicate-snoc (suc n) x = ap (◌∷◌ x) (replicate-snoc n x)

module _ (S : SkipList) where
  open S use {T}

  -- The state with the empty block, before its flush.
  abbrev marked : ℕ → BlockAppendOnlyLog T → BlockAppendOnlyLog T
  marked i b =
      set_latest i
        (write_index_entry (index_entry i b.current_offset b.current_offset) (set_min i b))

  marked-IsGrown :
      (i : ℕ) (b : BlockAppendOnlyLog T) → IsGrown b i [] (update_recent_blocks S i (marked i b))
  unfolding write_index_entry write_pairs
  marked-IsGrown i b =
      IsGrown-frame {c = marked i b} (forget-update_recent_blocks S i (marked i b)) (record {
        same_closed = refl;
        same_index = refl;
        same_map = refl;
        file = λ f h. h ∙ ap (λ t. some t) (sym (append-nil f));
        moved = omega arith;
        queued = ap (λ n. b.index_buffer ++ index_entry i b.current_offset n ∷ []) (omega arith);
        first = refl;
        latest = refl;
      })

  fill_before-IsLog :
      {b : BlockAppendOnlyLog T} {blocks : List Pairs} (i : ℕ)
      → IsLog b blocks
      → b.latest_block_id < i
      → i ≤ 2 ^ 58
      → (c : BlockAppendOnlyLog T) × (fill_before S i b ≡ (ok tt, c))
        × IsLog c (blocks ++ replicate (i - (b.latest_block_id + 1)) [])
        × (c.latest_block_id + 1 ≡ i)
  fill_before-IsLog {b} {blocks} i l h k = elim (Bool-cases (ltb (b.latest_block_id + 1) i)) [
    | inl w ↦
        let e : ltb (add64 b.latest_block_id 1) i ≡ true = ground (arith, l.small_ids) in
        let (c, f, lc, n, o) = fill_missing_blocks_until-IsLog S l i k (ltb→lt _ _ w) in
        (c, rw e f, lc, n)
    | inr w ↦
        let e : ltb (add64 b.latest_block_id 1) i ≡ false = ground (arith, l.small_ids) in
        let n : i ≡ b.latest_block_id + 1 = ground arith in
        let z : i - (b.latest_block_id + 1) ≡ 0 = omega arith in
        (b, rw e refl, rw z (subst (λ bs. IsLog b bs) (sym (append-nil blocks)) l), sym n)
  ]

  marker :
      (i : ℕ) (b c d : BlockAppendOnlyLog T)
      → b.latest_block_id < i
      → fill_before S i b ≡ (ok tt, c)
      → flush_index_buffer (update_recent_blocks S i (marked i c)) ≡ (ok tt, d)
      → commit_marker S i b ≡ (ok tt, save_index_meta d)
  unfolding commit_marker
  marker i b c d h e f =
      let z : leb i b.latest_block_id ≡ false = ground arith in
      rw z (continue-ok _ e ∙ continue-ok _ f)

  regroup :
      {c : BlockAppendOnlyLog T} (blocks : List Pairs) (n m : ℕ)
      → suc n ≡ m
      → IsLog c ((blocks ++ replicate n []) ++ [] ∷ [])
      → IsLog c (blocks ++ replicate m [])
  regroup {c} blocks n m e =
      subst (λ bs. IsLog c bs)
        (append_assoc blocks (replicate n []) ([] ∷ [])
          ∙ ap (λ bs. blocks ++ bs) (replicate-snoc n [] ∙ ap (λ n. replicate n []) e))

  commit_marker-IsLog :
      {b : BlockAppendOnlyLog T} {blocks : List Pairs} (i : ℕ)
      → IsLog b blocks
      → i < 2 ^ 58
      → (c : BlockAppendOnlyLog T) × (commit_marker S i b ≡ (ok tt, c))
        × IsLog c (blocks ++ replicate (i - b.latest_block_id) [])
  unfolding commit_marker write_pairs
  commit_marker-IsLog {b} {blocks} i l k = elim (Bool-cases (leb i b.latest_block_id)) [
    | inl w ↦
        let z : i - b.latest_block_id ≡ 0 = omega (arith, leb→le _ _ w) in
        (b, rw w refl, rw z (subst (λ bs. IsLog b bs) (sym (append-nil blocks)) l))
    | inr w ↦
        let h : b.latest_block_id < i = ground arith in
        let (c, e, lc, n) = fill_before-IsLog i l h (omega arith) in
        let f = flush-IsPending (
          grow-IsPending (IsLog-IsPending lc) (omega arith, inr (sym n)) (marked-IsGrown i c) tt k
            (omega (arith, lc.offset, lc.small_file))) in
        let z : suc (i - (b.latest_block_id + 1)) ≡ i - b.latest_block_id = omega arith in
        (
          _,
          marker i b c _ h e f.0,
          regroup blocks (i - (b.latest_block_id + 1)) (i - b.latest_block_id) (omega arith)
              (save_index_meta-IsLog f.1),
        )
  ]

  to_marker :
      (i : ℕ) (b : BlockAppendOnlyLog T)
      → 0 < i
      → b.closed ≡ false
      → mark_block_committed S i b ≡ commit_marker S i (ensure_write_tracking_initialized S b)
  unfolding mark_block_committed
  to_marker i b p h = let z : (i == 0) ≡ false = ground arith in rw (z, h) refl

  -- On a log that holds `blocks`, committing block `i` succeeds, and the log then holds `blocks` and
  -- an empty block for each number above the latest one up to `i` (none where `i` is not above it).
  -- `i` is above 0 and below 2^58.
  pub mark_block_committed-IsLog :
      {b : BlockAppendOnlyLog T} {blocks : List Pairs} (i : ℕ)
      → IsLog b blocks
      → 0 < i
      → i < 2 ^ 58
      → (c : BlockAppendOnlyLog T) × (mark_block_committed S i b ≡ (ok tt, c))
        × IsLog c (blocks ++ replicate (i - b.latest_block_id) [])
  mark_block_committed-IsLog {b} {blocks} i l p k =
      let same = forget-ensure_write_tracking_initialized S b in
      let (c, e, lc) = commit_marker-IsLog i (IsLog-frame same l) k in
      (
        c,
        to_marker i b p l.is_open ∙ e,
        subst (λ n. IsLog c (blocks ++ replicate (i - n) [])) (ap (λ s. s.latest_block_id) same) lc,
      )
