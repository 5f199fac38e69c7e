-- ===== src/BlockLog/Log/Fill.antt =====
-- `fillMissingBlocksUntil`: the empty blocks that fill a gap in the numbers.
use theo_extension.Common.{
  ℕ, zero, suc, ◌+◌, ◌-◌, ◌^◌, ◌≤◌, ◌<◌, ◌≡◌, refl, sym, ap, ◌∙◌, subst, inr, false, some, List, [],
  ◌∷◌, ◌++◌, arith, replicate, append_assoc, append-nil, leb,
}
use theo_extension.Common.Bytes.{nat_eq}
use theo_extension.BlockLog.Order.{Pairs, write_pairs}
use theo_extension.BlockLog.Skiplist.{SkipList}
use theo_extension.BlockLog.State.{BlockAppendOnlyLog, Result, ok, continue, Method}
use theo_extension.BlockLog.Index.{add64, write_index_entry, save_index_meta}
use theo_extension.BlockLog.Write.{
  index_entry, set_min, set_latest, fill_one, fill_loop, fill_missing_blocks_until,
}
use theo_extension.BlockLog.Layout.{index_of}
use theo_extension.BlockLog.Log.{IsLog}
use theo_extension.BlockLog.Log.Frame.{forget-update_recent_blocks}
use theo_extension.BlockLog.Log.Flush.{IsPending, buffer_of, after_flush, flush-IsPending}
use theo_extension.BlockLog.Log.Grow.{IsGrown, IsGrown-frame, grow-IsPending}

-- A step that succeeds hands its state to the next.
pub continue-ok :
    {T A B : Type 0} {r : Result A × BlockAppendOnlyLog T} {a : A} {c : BlockAppendOnlyLog T}
    (f : A → Method T B)
    → r ≡ (ok a, c)
    → continue r.0 f r.1 ≡ f a c
continue-ok f e = ap (λ r. continue r.0 f r.1) e

-- A log has no block that waits.
pub IsLog-IsPending :
    {T : Type 0} {b : BlockAppendOnlyLog T} {blocks : List Pairs}
    → IsLog b blocks
    → IsPending b blocks []
unfolding buffer_of
IsLog-IsPending {b} {blocks} l =
    let r = subst (λ bs. IsLog b bs) (sym (append-nil blocks)) l in
    record {
      is_open = l.is_open;
      released = l.released;
      buffered = l.flushed;
      stored = r.stored;
      offset = r.offset;
      indexed = l.indexed;
      numbers = r.numbers;
      writable = r.writable;
      small_ids = r.small_ids;
      small_file = r.small_file;
    }

-- The metadata file is no part of the abstract view.
pub save_index_meta-IsLog :
    {T : Type 0} {b : BlockAppendOnlyLog T} {blocks : List Pairs}
    → IsLog b blocks
    → IsLog (save_index_meta b) blocks
unfolding save_index_meta
save_index_meta-IsLog l = record {
  is_open = l.is_open;
  released = l.released;
  flushed = l.flushed;
  stored = l.stored;
  offset = l.offset;
  indexed = l.indexed;
  numbers = l.numbers;
  writable = l.writable;
  small_ids = l.small_ids;
  small_file = l.small_file;
}

module _ (S : SkipList) where
  open S use {T}

  fill_one-IsGrown : (i : ℕ) (b : BlockAppendOnlyLog T) → IsGrown b i [] (fill_one S i b)
  unfolding fill_one write_index_entry write_pairs
  fill_one-IsGrown i b =
      IsGrown-frame
        {c = set_latest i
          (write_index_entry (index_entry i b.current_offset b.current_offset) (set_min i b))}
        (forget-update_recent_blocks S i (
          set_latest i
            (write_index_entry (index_entry i b.current_offset b.current_offset) (set_min i b))))
        (record {
          same_closed = refl;
          same_index = refl;
          same_map = refl;
          file = λ f h. h ∙ ap (λ t. some t) (sym (append-nil f));
          moved = omega arith;
          queued = ap (λ n. b.index_buffer ++ index_entry i b.current_offset n ∷ []) (omega arith);
          first = refl;
          latest = refl;
        })

  -- The state after `n` rounds of the loop.
  pub record IsFilled (b : BlockAppendOnlyLog T) (i n : ℕ) (done pending : List Pairs)
      (c : BlockAppendOnlyLog T) : Type 0 where
    pub filled : IsPending c done (pending ++ replicate n [])
    pub reached : c.latest_block_id + 1 ≡ i + n
    pub in_place : c.current_offset ≡ b.current_offset

  pub fill_loop-IsFilled :
      (n i : ℕ) (b : BlockAppendOnlyLog T) (done pending : List Pairs)
      → IsPending b done pending
      → i ≡ b.latest_block_id + 1
      → i + n ≤ 2 ^ 58
      → IsFilled b i n done pending (fill_loop S n i b)
  unfolding fill_loop write_pairs
  fill_loop-IsFilled zero i b done pending p e k = record {
    filled = subst (λ bs. IsPending b done bs) (sym (append-nil pending)) p;
    reached = omega arith;
    in_place = refl;
  }
  fill_loop-IsFilled (suc n) i b done pending p e k =
      let g = fill_one-IsGrown i b in
      let q =
        grow-IsPending p (omega arith, inr e) g tt (omega arith)
          (omega (arith, p.offset, p.small_file)) in
      let r =
        fill_loop-IsFilled n (i + 1) (fill_one S i b) done (pending ++ [] ∷ []) q
          (omega (arith, g.latest)) (omega arith) in
      record {
        filled =
            subst (λ bs. IsPending (fill_loop S n (i + 1) (fill_one S i b)) done bs)
              (append_assoc pending ([] ∷ []) (replicate n [])) r.filled;
        reached = omega (arith, r.reached);
        in_place = omega (arith, r.in_place, g.moved);
      }

  module _ {b : BlockAppendOnlyLog T} {blocks : List Pairs} (l : IsLog b blocks) (i : ℕ)
      (small : i ≤ 2 ^ 58) where
    abbrev gap : ℕ
    gap = i - (b.latest_block_id + 1)

    abbrev looped : BlockAppendOnlyLog T
    looped = fill_loop S gap (b.latest_block_id + 1) b

    abbrev refilled : BlockAppendOnlyLog T
    refilled =
        save_index_meta
          (after_flush looped (index_of looped.min_block_id 0 (blocks ++ replicate gap [])))

    no_wrap : add64 b.latest_block_id 1 ≡ b.latest_block_id + 1
    no_wrap = omega (arith, l.small_ids)

    looped-IsFilled :
        b.latest_block_id < i → IsFilled b (b.latest_block_id + 1) gap blocks [] looped
    looped-IsFilled h =
        fill_loop-IsFilled gap (b.latest_block_id + 1) b blocks [] (IsLog-IsPending l) refl
          (omega arith)

    fills : b.latest_block_id + 1 < i → fill_missing_blocks_until S i b ≡ (ok tt, refilled)
    unfolding fill_missing_blocks_until
    fills h =
        let e : leb i (add64 b.latest_block_id 1) ≡ false = ground (arith, no_wrap) in
        rw (e, no_wrap) (continue-ok _ (flush-IsPending (looped-IsFilled (omega arith)).filled).0)

    -- On a log whose latest block is more than one below `i`, `fill_missing_blocks_until` succeeds,
    -- and its result is the log with an empty block for each number between: the latest is `i - 1`
    -- and the data file is as long as it was. `i` is at most 2^58.
    pub fill_missing_blocks_until-IsLog :
        b.latest_block_id + 1 < i
        → (c : BlockAppendOnlyLog T) × (fill_missing_blocks_until S i b ≡ (ok tt, c))
          × IsLog c (blocks ++ replicate (i - (b.latest_block_id + 1)) [])
          × (c.latest_block_id + 1 ≡ i)
          × (c.current_offset ≡ b.current_offset)
    unfolding save_index_meta
    fill_missing_blocks_until-IsLog h =
        let r = looped-IsFilled (omega arith) in
        (
          refilled,
          fills h,
          save_index_meta-IsLog (flush-IsPending r.filled).1,
          omega (arith, r.reached),
          r.in_place,
        )
