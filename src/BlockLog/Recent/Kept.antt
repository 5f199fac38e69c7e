-- ===== src/BlockLog/Recent/Kept.antt =====
-- What keeps the window of the recent blocks: the steps that the methods of a log share.
use theo_extension.Common.{
  ◌≡◌, ◌∙◌, ℕ, zero, suc, ◌+◌, ◌-◌, ◌≤◌, Bool, true, false, ◌&&◌, Option, none, some, List, [], ◌∷◌,
  arith, length, length-drop, ltb, is_some, if◌then◌else◌, Bool-cases, inl, inr,
}
use theo_extension.Common.Bytes.{Bytes, nat_eq}
use theo_extension.BlockLog.Entry.{BlockIndexEntry, LogEntry}
use theo_extension.BlockLog.Order.{Ending, complete, broken, out_of_fuel, decode}
use theo_extension.BlockLog.Skiplist.{SkipList}
use theo_extension.BlockLog.State.{
  BlockAppendOnlyLog, err_closed, log_closed, Result, ok, err, Method, modify, continue, ◌>>◌,
}
use theo_extension.BlockLog.Index.{
  add64, flush_entries, flushed, flush_index_buffer_with_block_id, flush_index_buffer,
  write_index_entry, save_index_meta,
}
use theo_extension.BlockLog.Recent.{
  or_empty, keep_last, index_entries, set_skiplist_entry, record_indexed_key, update_recent_blocks,
  rebuild_tracking, ensure_write_tracking_initialized,
}
use theo_extension.BlockLog.Recent.Window.{
  length-update_recent_blocks, recent_n-update_recent_blocks,
}
use theo_extension.BlockLog.Write.{
  guard_open, fill_one, fill_loop, fill_missing_blocks_until, fill_gap, advance_to, end_indexing,
  index_block,
}

-- At most `recentN` blocks are tracked, and `recentN` is `N`.
pub record IsWindow {T : Type 0} (N : ℕ) (b : BlockAppendOnlyLog T) : Type 0 where
  pub bounded : length (or_empty b.recent_blocks) ≤ b.recent_n
  pub size : b.recent_n ≡ N

abbrev pub Keeps : {T A : Type 0} → ℕ → Method T A → Type 0
Keeps {T} N m = (b : BlockAppendOnlyLog T) → IsWindow N b → IsWindow N (m b).1

pub length-keep_last : (n : ℕ) (ids : List ℕ) → length (keep_last n ids) ≤ n
length-keep_last n ids = elim (Bool-cases (ltb n (length ids))) [
  | inl e ↦ rw e (omega (arith, length-drop (length ids - n) ids))
  | inr e ↦ rw e (ground arith)
]

abbrev flush_of :
    {T : Type 0}
    → BlockAppendOnlyLog T
    → List BlockIndexEntry
    → Option Bytes
    → Result (Unit {0}) × BlockAppendOnlyLog T
flush_of b es file = elim es [
  | [] ↦ (ok tt, b)
  | e ∷ es ↦ elim file [
    | none ↦ (err err_closed, b)
    | some f ↦ flushed b (flush_entries b.min_block_id (e ∷ es) f)
  ]
]

module _ {N : ℕ} where
  pub continue-IsWindow :
      {T A B : Type 0} (r : Result A) (f : A → Method T B) (b : BlockAppendOnlyLog T)
      → IsWindow N b
      → ((a : A) → Keeps N (f a))
      → IsWindow N (continue r f b).1
  continue-IsWindow (ok a) f b h k = k a b h
  continue-IsWindow (err e) f b h k = h

  pub if-IsWindow :
      {T A : Type 0} (t : Bool) (x y : Result A × BlockAppendOnlyLog T)
      → IsWindow N x.1
      → IsWindow N y.1
      → IsWindow N (if t then x else y).1
  if-IsWindow true x y h k = h
  if-IsWindow false x y h k = k

  flushed-IsWindow :
      {T : Type 0} (b : BlockAppendOnlyLog T) (r : Bool × Bytes)
      → IsWindow N b
      → IsWindow N (flushed b r).1
  flushed-IsWindow b (true, f) h = record { bounded = h.bounded; size = h.size }
  flushed-IsWindow b (false, f) h = record { bounded = h.bounded; size = h.size }

  flush_cases :
      {T : Type 0} (b : BlockAppendOnlyLog T) (es : List BlockIndexEntry) (file : Option Bytes)
      → IsWindow N b
      → IsWindow N (flush_of b es file).1
  flush_cases b [] file h = h
  flush_cases b (e ∷ es) none h = h
  flush_cases b (e ∷ es) (some f) h = flushed-IsWindow b (flush_entries b.min_block_id (e ∷ es) f) h

  pub flush-Keeps : {T : Type 0} → Keeps N (flush_index_buffer {T = T})
  unfolding flush_index_buffer flush_index_buffer_with_block_id
  flush-Keeps b h = flush_cases b b.index_buffer b.index_map_file h

  pub meta-IsWindow :
      {T : Type 0} (b : BlockAppendOnlyLog T) → IsWindow N b → IsWindow N (save_index_meta b)
  unfolding save_index_meta
  meta-IsWindow b h = record { bounded = h.bounded; size = h.size }

  pub guard_open-Keeps : {T : Type 0} → Keeps N (guard_open {T = T})
  guard_open-Keeps b h = if-IsWindow b.closed (err log_closed, b) (ok tt, b) h h

module _ (S : SkipList) {N : ℕ} where
  open S use {T}

  pub update-IsWindow :
      (i : ℕ) (b : BlockAppendOnlyLog T) → IsWindow N b → IsWindow N (update_recent_blocks S i b)
  update-IsWindow i b h = record {
    bounded =
        omega
          (arith, length-update_recent_blocks S i b h.bounded, recent_n-update_recent_blocks S i b);
    size = recent_n-update_recent_blocks S i b ∙ h.size;
  }

  pub tracking-IsWindow :
      (b : BlockAppendOnlyLog T) → IsWindow N b → IsWindow N (ensure_write_tracking_initialized S b)
  unfolding ensure_write_tracking_initialized rebuild_tracking
  tracking-IsWindow b h =
      elim (Bool-cases (is_some b.recent_blocks && is_some b.indexed_block_keys)) [
        | inl e ↦ rw e h
        | inr e ↦ rw e (record { bounded = length-keep_last b.recent_n _; size = h.size })
      ]

  -- The front of every writing method.
  pub opened-Keeps :
      {A : Type 0} (m : Method T A)
      → Keeps N m
      → Keeps N (guard_open >> (modify (ensure_write_tracking_initialized S) >> m))
  opened-Keeps m k b h =
      continue-IsWindow _ _ _ (guard_open-Keeps b h) (λ a s l. k _ (tracking-IsWindow s l))

  pub index_entries-IsWindow :
      (pos : ℕ) (es : List (LogEntry × ℕ)) (b : BlockAppendOnlyLog T)
      → IsWindow N b
      → IsWindow N (index_entries S pos es b)
  unfolding index_entries set_skiplist_entry record_indexed_key
  index_entries-IsWindow pos [] b h = h
  index_entries-IsWindow pos ((e, n) ∷ es) b h =
      index_entries-IsWindow (add64 pos n) es _ (record { bounded = h.bounded; size = h.size })

  fill_loop-IsWindow :
      (n i : ℕ) (b : BlockAppendOnlyLog T) → IsWindow N b → IsWindow N (fill_loop S n i b)
  unfolding fill_loop fill_one write_index_entry
  fill_loop-IsWindow zero i b h = h
  fill_loop-IsWindow (suc n) i b h =
      fill_loop-IsWindow n (i + 1) (fill_one S i b)
        (update-IsWindow i _ (record { bounded = h.bounded; size = h.size }))

  pub fill-Keeps : (i : ℕ) → Keeps N (fill_missing_blocks_until S i)
  unfolding fill_missing_blocks_until
  fill-Keeps i b h =
      if-IsWindow _ (ok tt, b) _ h
        (continue-IsWindow _ _ _ (flush-Keeps _ (fill_loop-IsWindow _ _ b h))
          (λ a s k. meta-IsWindow s k))

  pub fill_gap-Keeps : (i : ℕ) → Keeps N (fill_gap S i)
  unfolding fill_gap
  fill_gap-Keeps i b h = if-IsWindow _ _ (ok tt, b) (fill-Keeps i b h) h

  pub advance_to-IsWindow :
      (i : ℕ) (b : BlockAppendOnlyLog T) → IsWindow N b → IsWindow N (advance_to S i b)
  unfolding advance_to
  advance_to-IsWindow i b h = elim (Bool-cases (ltb b.latest_block_id i)) [
    | inl e ↦
        rw e (meta-IsWindow _ (update-IsWindow i _ (record { bounded = h.bounded; size = h.size })))
    | inr e ↦ rw e h
  ]

  pub end_indexing-Keeps : (e : Ending) → Keeps N (end_indexing S e)
  end_indexing-Keeps complete b h = h
  end_indexing-Keeps broken b h = h
  end_indexing-Keeps out_of_fuel b h = h

  pub index_block-Keeps : (i start : ℕ) (bytes : Bytes) → Keeps N (index_block S i start bytes)
  unfolding index_block
  index_block-Keeps i start bytes b h =
      if-IsWindow _ _ (ok tt, b)
        (end_indexing-Keeps (decode bytes).ending _
          (index_entries-IsWindow start (decode bytes).entries b h))
        h
