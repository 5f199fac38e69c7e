-- ===== src/BlockLog/Log/Guards.antt =====
-- What `Append` refuses or ignores: blocks that are not beyond the latest.
use theo_extension.Common.{
  ℕ, ◌+◌, ◌≤◌, ◌<◌, ◌≡◌, refl, ap, ◌∙◌, true, false, none, some, List, arith, lt→ltb, is_some,
  get_elem?,
}
use theo_extension.Common.Bytes.{nat_eq}
use theo_extension.BlockLog.Order.{Pairs}
use theo_extension.BlockLog.Skiplist.{SkipList}
use theo_extension.BlockLog.State.{BlockAppendOnlyLog, ok, err, non_monotonic}
use theo_extension.BlockLog.Index.{get_block_index_entry}
use theo_extension.BlockLog.Recent.{ensure_write_tracking_initialized}
use theo_extension.BlockLog.Write.{Check, ignore, refuse, check_block_id, append_checked, append}
use theo_extension.BlockLog.Log.{IsLog, entry_for, get_block_index_entry-eq}
use theo_extension.BlockLog.Log.Frame.{IsLog-frame, forget-ensure_write_tracking_initialized}
use theo_extension.BlockLog.Log.Append.{append-tracked}
use theo_extension.BlockLog.Log.Reads.{entry_for-there, range}

module _ (S : SkipList) where
  open S use {T}

  old_check :
      (b : BlockAppendOnlyLog T) (i : ℕ)
      → 0 < i
      → i < b.latest_block_id
      → is_some (get_block_index_entry b i) ≡ true
      → check_block_id S i b ≡ ignore
  unfolding check_block_id
  old_check b i p h e = ground arith

  low_check :
      (b : BlockAppendOnlyLog T) (i : ℕ)
      → 0 < i
      → i < b.latest_block_id
      → is_some (get_block_index_entry b i) ≡ false
      → check_block_id S i b ≡ refuse
  unfolding check_block_id
  low_check b i p h e = ground arith

  checked :
      (i : ℕ) (kvs : Pairs) (b : BlockAppendOnlyLog T) (x : Check)
      → b.closed ≡ false
      → check_block_id S i (ensure_write_tracking_initialized S b) ≡ x
      → append S i kvs b ≡ append_checked S x i kvs (ensure_write_tracking_initialized S b)
  checked i kvs b x h e =
      append-tracked S i kvs b h
      ∙ ap (λ x. append_checked S x i kvs (ensure_write_tracking_initialized S b)) e

  -- An append to a block that the log holds below the latest one is ignored: it succeeds, and
  -- nothing is written but the tracking of the recent blocks.
  pub append-old_block :
      {b : BlockAppendOnlyLog T} {blocks : List Pairs} (n : ℕ) (ps kvs : Pairs)
      → IsLog b blocks
      → get_elem? blocks n ≡ some ps
      → b.min_block_id + n < b.latest_block_id
      → append S (b.min_block_id + n) kvs b ≡ (ok tt, ensure_write_tracking_initialized S b)
  unfolding append_checked
  append-old_block {b} {blocks} n ps kvs l there h =
      let same = forget-ensure_write_tracking_initialized S b in
      let lt = IsLog-frame same l in
      let el = ap (λ s. s.latest_block_id) same in
      let em = ap (λ s. s.min_block_id) same in
      let i = b.min_block_id + n in
      let p = range l n ps there in
      checked i kvs b ignore l.is_open (
        old_check (ensure_write_tracking_initialized S b) i (omega (arith, p.0)) (omega (arith, el))
          (ap is_some (
            get_block_index_entry-eq lt i (omega (arith, h, l.small_ids)) (omega (arith, p.0))
            ∙ ap (λ m. entry_for m blocks i) em
            ∙ entry_for-there l n ps there)))

  -- An append to a block below the first one of the log is refused as not monotonic, and nothing is
  -- written but the tracking of the recent blocks.
  pub append-below_min :
      {b : BlockAppendOnlyLog T} {blocks : List Pairs} (i : ℕ) (kvs : Pairs)
      → IsLog b blocks
      → 0 < i
      → i < b.min_block_id
      → b.min_block_id ≤ b.latest_block_id
      → append S i kvs b ≡ (err non_monotonic, ensure_write_tracking_initialized S b)
  unfolding append_checked
  append-below_min {b} {blocks} i kvs l p h m =
      let same = forget-ensure_write_tracking_initialized S b in
      let lt = IsLog-frame same l in
      let el = ap (λ s. s.latest_block_id) same in
      let em = ap (λ s. s.min_block_id) same in
      checked i kvs b refuse l.is_open (
        low_check (ensure_write_tracking_initialized S b) i p (omega (arith, el)) (
          ap is_some (
            get_block_index_entry-eq lt i (omega (arith, h, m, l.small_ids)) p
            ∙ ap (λ m. entry_for m blocks i) em
            ∙ below_min)))
    where
      below_min : entry_for b.min_block_id blocks i ≡ none
      below_min = rw (lt→ltb i b.min_block_id h) refl
