-- ===== src/BlockLog/Recent/Reached.antt =====
-- The window of the recent blocks through opening a log and all calls on it.
use theo_extension.Common.{
  refl, ◌==◌, if◌then◌else◌, ℕ, ◌≤◌, Option, none, some, List, [], ◌∷◌, arith, length, take,
}
use theo_extension.Common.Bytes.{Bytes, nat_eq, read_full, uint_be}
use theo_extension.Common.Maps.{contains, add}
use theo_extension.BlockLog.Entry.{BlockIndexEntry}
use theo_extension.BlockLog.Order.{Pairs, decode}
use theo_extension.BlockLog.Skiplist.{SkipList}
use theo_extension.BlockLog.State.{BlockAppendOnlyLog, Result, ok, err, modify, continue}
use theo_extension.BlockLog.Index.{get_block_index_entry, background_flush, load_index_meta}
use theo_extension.BlockLog.Recent.{or_empty, sort_ids, index_entries}
use theo_extension.BlockLog.Recent.Kept.{
  IsWindow, Keeps, continue-IsWindow, if-IsWindow, length-keep_last, index_entries-IsWindow,
  end_indexing-Keeps,
}
use theo_extension.BlockLog.Recent.Methods.{
  append-Keeps, append_to_new_block-Keeps, mark_block_committed-Keeps, delete-Keeps,
  delete_by_prefix_in_block-Keeps, flush_data_and_index-Keeps, close-Keeps,
  background_flush-IsWindow,
}
use theo_extension.BlockLog.Read.{read_block}
use theo_extension.BlockLog.Write.{
  end_indexing, append, append_to_new_block, mark_block_committed, delete,
  delete_by_prefix_in_block, flush_data_and_index, close,
}
use theo_extension.BlockLog.Boot.{
  default_recent_n, Files, load_block_index, read_and_index_block_from, index_found, rebuild_loop,
  rebuild_skiplist, choose_recent, release_bootstrap_resources, initial_state,
  new_block_append_only_log,
}

-- The number of tracked blocks that a log is opened with.
abbrev pub window_size : ℕ → ℕ
window_size n = if n == 0 then default_recent_n else n

-- What `loadIndexMeta` makes of the file's head.
abbrev head_loaded :
    {T : Type 0} → BlockAppendOnlyLog T → Option (Bytes × Bytes) → BlockAppendOnlyLog T
head_loaded b o = elim o [
  | none ↦ record b { min_block_id = 0 }
  | some (head, rest) ↦ record b { min_block_id = uint_be (take 8 head) }
]

abbrev meta_loaded : {T : Type 0} → BlockAppendOnlyLog T → Option Bytes → BlockAppendOnlyLog T
meta_loaded b o = elim o [
  | none ↦ record b { min_block_id = 0 }
  | some buf ↦ head_loaded b (read_full 16 buf)
]

head_loaded-IsWindow :
    {T : Type 0} {N : ℕ} (b : BlockAppendOnlyLog T) (o : Option (Bytes × Bytes))
    → IsWindow N b
    → IsWindow N (head_loaded b o)
head_loaded-IsWindow b none h = record { bounded = h.bounded; size = h.size }
head_loaded-IsWindow b (some (head, rest)) h = record { bounded = h.bounded; size = h.size }

meta_loaded-IsWindow :
    {T : Type 0} {N : ℕ} (b : BlockAppendOnlyLog T) (o : Option Bytes)
    → IsWindow N b
    → IsWindow N (meta_loaded b o)
meta_loaded-IsWindow b none h = record { bounded = h.bounded; size = h.size }
meta_loaded-IsWindow b (some buf) h = head_loaded-IsWindow b (read_full 16 buf) h

load_index_meta-IsWindow :
    {T : Type 0} {N : ℕ} (b : BlockAppendOnlyLog T) → IsWindow N b → IsWindow N (load_index_meta b)
unfolding load_index_meta
load_index_meta-IsWindow b h = meta_loaded-IsWindow b b.index_meta_file h

-- The calls that change a log.
pub data Call : Type 0 where
  append_call : ℕ → Pairs → Call
  append_to_new_block_call : Pairs → Call
  mark_block_committed_call : ℕ → Call
  delete_call : Bytes → Call
  delete_by_prefix_in_block_call : ℕ → Bytes → Call
  flush_data_and_index_call close_call background_flush_call : Call

module _ (S : SkipList) where
  open S use {T, new}

  abbrev index_read :
      BlockIndexEntry
      → BlockAppendOnlyLog T
      → Result Bytes
      → Result (Unit {0}) × BlockAppendOnlyLog T
  index_read e b r = elim r [
    | err x ↦ (err x, b)
    | ok bytes ↦
        end_indexing S (decode bytes).ending
          (index_entries S e.start_offset (decode bytes).entries b)
  ]

  unfoldable pub call : Call → BlockAppendOnlyLog T → BlockAppendOnlyLog T
  call (append_call i kvs) b = (append S i kvs b).1
  call (append_to_new_block_call kvs) b = (append_to_new_block S kvs b).1
  call (mark_block_committed_call i) b = (mark_block_committed S i b).1
  call (delete_call key) b = (delete S key b).1
  call (delete_by_prefix_in_block_call i prefix) b = (delete_by_prefix_in_block S i prefix b).1
  call flush_data_and_index_call b = (flush_data_and_index S b).1
  call close_call b = (close S b).1
  call background_flush_call b = background_flush b

  unfoldable pub calls : List Call → BlockAppendOnlyLog T → BlockAppendOnlyLog T
  calls [] b = b
  calls (x ∷ xs) b = calls xs (call x b)

module _ (S : SkipList) {N : ℕ} where
  open S use {T, new}

  index_read-IsWindow :
      (e : BlockIndexEntry) (b : BlockAppendOnlyLog T) (r : Result Bytes)
      → IsWindow N b
      → IsWindow N (index_read S e b r).1
  index_read-IsWindow e b (err x) h = h
  index_read-IsWindow e b (ok bytes) h =
      end_indexing-Keeps S (decode bytes).ending _
        (index_entries-IsWindow S e.start_offset (decode bytes).entries b h)

  index_found-Keeps : (o : Option BlockIndexEntry) → Keeps N (index_found S o)
  unfolding read_and_index_block_from
  index_found-Keeps none b h = h
  index_found-Keeps (some e) b h = index_read-IsWindow e b (read_block b e) h

  rebuild_loop-Keeps : (ids done : List ℕ) → Keeps N (rebuild_loop S ids done)
  unfolding rebuild_loop
  rebuild_loop-Keeps [] done b h = h
  rebuild_loop-Keeps (i ∷ ids) done b h =
      let o = get_block_index_entry b i in
      let r = index_found S o b in
      if-IsWindow (contains i (or_empty b.indexed_blocks))
        (continue r.0 (λ _. rebuild_loop S ids (add i done)) r.1) (rebuild_loop S ids done b)
        (continue-IsWindow r.0 (λ _. rebuild_loop S ids (add i done)) r.1 (index_found-Keeps o b h)
          (λ a. rebuild_loop-Keeps ids (add i done)))
        (rebuild_loop-Keeps ids done b h)

  rebuild_skiplist-Keeps : Keeps N (rebuild_skiplist S)
  unfolding rebuild_skiplist
  rebuild_skiplist-Keeps b h =
      let ids = sort_ids (or_empty b.recent_blocks) in
      let r =
        rebuild_loop S ids [] (record b { skiplist_index = new; indexed_block_keys = some [] }) in
      continue-IsWindow r.0 (λ done. modify (λ s. record s { indexed_blocks = some done })) r.1
        (rebuild_loop-Keeps ids [] _ (record { bounded = h.bounded; size = h.size }))
        (λ a s k. record { bounded = k.bounded; size = k.size })

  call-IsWindow : (x : Call) (b : BlockAppendOnlyLog T) → IsWindow N b → IsWindow N (call S x b)
  unfolding call
  call-IsWindow (append_call i kvs) b h = append-Keeps S i kvs b h
  call-IsWindow (append_to_new_block_call kvs) b h = append_to_new_block-Keeps S kvs b h
  call-IsWindow (mark_block_committed_call i) b h = mark_block_committed-Keeps S i b h
  call-IsWindow (delete_call key) b h = delete-Keeps S key b h
  call-IsWindow (delete_by_prefix_in_block_call i prefix) b h =
      delete_by_prefix_in_block-Keeps S i prefix b h
  call-IsWindow flush_data_and_index_call b h = flush_data_and_index-Keeps S b h
  call-IsWindow close_call b h = close-Keeps S b h
  call-IsWindow background_flush_call b h = background_flush-IsWindow S b h

  calls_kept :
      (xs : List Call) (b : BlockAppendOnlyLog T) → IsWindow N b → IsWindow N (calls S xs b)
  unfolding calls
  calls_kept [] b h = h
  calls_kept (x ∷ xs) b h = calls_kept xs (call S x b) (call-IsWindow x b h)

module _ (S : SkipList) where
  open S use {T}

  opening-IsWindow :
      (n : ℕ) (files : Files) → IsWindow (window_size n) (new_block_append_only_log S n files).1
  unfolding new_block_append_only_log initial_state load_block_index choose_recent
      release_bootstrap_resources
  opening-IsWindow n files =
      let b =
        choose_recent S
          (load_block_index files.index_bytes (load_index_meta (initial_state S n files))) in
      let begun : IsWindow (window_size n) (initial_state S n files) = record {
        bounded = omega arith;
        size = refl;
      } in
      let meta = load_index_meta-IsWindow (initial_state S n files) begun in
      let r = rebuild_skiplist S b in
      continue-IsWindow r.0 (λ _. modify (release_bootstrap_resources S)) r.1
        (rebuild_skiplist-Keeps S b (record { bounded = length-keep_last _ _; size = meta.size }))
        (λ a s k. record { bounded = omega arith; size = k.size })

  -- However a log is opened from its files with a `recentN` of `n`, and whatever calls follow, in any
  -- order, errors and the rounds of the background flush included: at most `n` blocks are tracked
  -- (6000 where `n` is 0), also after the tracking was dropped at the end of opening and built again.
  pub length-calls :
      (n : ℕ) (files : Files) (xs : List Call)
      → let b = calls S xs (new_block_append_only_log S n files).1 in
        length (or_empty b.recent_blocks) ≤ window_size n
  length-calls n files xs =
      let k = calls_kept S xs _ (opening-IsWindow n files) in omega (arith, k.bounded, k.size)
