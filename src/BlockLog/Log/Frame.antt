-- ===== src/BlockLog/Log/Frame.antt =====
-- The index of the recent blocks and the log proper do not touch one another's state.
use theo_extension.Common.{
  ℕ, ◌≡◌, refl, sym, subst, none, List, [], ◌∷◌, arith, ltb, length, Bool-cases, inl, inr,
}
use theo_extension.BlockLog.Entry.{LogEntry}
use theo_extension.BlockLog.Order.{Pairs}
use theo_extension.BlockLog.Skiplist.{SkipList}
use theo_extension.BlockLog.State.{BlockAppendOnlyLog}
use theo_extension.BlockLog.Index.{add64}
use theo_extension.BlockLog.Recent.{
  build_kv_pointer_for_skiplist, record_indexed_key, set_skiplist_entry, index_entries,
  evict_old_block_from_skiplist, trim_recent, update_recent_blocks, rebuild_tracking,
  ensure_write_tracking_initialized,
}
use theo_extension.BlockLog.Log.{IsLog}

-- The state without the index of the recent blocks.
abbrev pub forget : {T : Type 0} → BlockAppendOnlyLog T → BlockAppendOnlyLog (Unit {0})
forget b = record {
  data_file = b.data_file;
  current_offset = b.current_offset;
  index_map_file = b.index_map_file;
  index_meta_file = b.index_meta_file;
  block_index = b.block_index;
  min_block_id = b.min_block_id;
  latest_block_id = b.latest_block_id;
  recent_n = b.recent_n;
  recent_blocks = none;
  skiplist_index = tt;
  indexed_blocks = none;
  indexed_block_keys = none;
  index_buffer = b.index_buffer;
  closed = b.closed;
}

pub IsLog-frame :
    {T : Type 0} {b c : BlockAppendOnlyLog T} {blocks : List Pairs}
    → forget c ≡ forget b
    → IsLog b blocks
    → IsLog c blocks
IsLog-frame {T} {b} {c} {blocks} e l = back (subst (λ s. IsLog s blocks) (sym e) (there l))
  where
    there : IsLog b blocks → IsLog (forget b) blocks
    there l = record {
      is_open = l.is_open;
      released = l.released;
      flushed = l.flushed;
      stored = l.stored;
      offset = l.offset;
      indexed = l.indexed;
      numbers = l.numbers;
      writable = l.writable;
      small_ids = l.small_ids;
      small_file = l.small_file;
    }

    back : IsLog (forget c) blocks → IsLog c blocks
    back l = record {
      is_open = l.is_open;
      released = l.released;
      flushed = l.flushed;
      stored = l.stored;
      offset = l.offset;
      indexed = l.indexed;
      numbers = l.numbers;
      writable = l.writable;
      small_ids = l.small_ids;
      small_file = l.small_file;
    }

module _ (S : SkipList) where
  open S use {T}

  forget-trim_recent :
      (recents indexed : List ℕ) (b : BlockAppendOnlyLog T)
      → forget (trim_recent S recents indexed b) ≡ forget b
  unfolding trim_recent evict_old_block_from_skiplist
  forget-trim_recent [] indexed b = refl
  forget-trim_recent (i ∷ is) indexed b = elim (Bool-cases (ltb b.recent_n (length (i ∷ is)))) [
    | inl h ↦ rw h refl
    | inr h ↦ rw h refl
  ]

  pub forget-update_recent_blocks :
      (i : ℕ) (b : BlockAppendOnlyLog T) → forget (update_recent_blocks S i b) ≡ forget b
  unfolding update_recent_blocks
  forget-update_recent_blocks i b = forget-trim_recent _ _ _

  pub forget-index_entries :
      (pos : ℕ) (es : List (LogEntry × ℕ)) (b : BlockAppendOnlyLog T)
      → forget (index_entries S pos es b) ≡ forget b
  unfolding index_entries set_skiplist_entry record_indexed_key
  forget-index_entries pos [] b = refl
  forget-index_entries pos ((e, n) ∷ es) b = forget-index_entries (add64 pos n) es (
      set_skiplist_entry S e.block_id e.key
        (build_kv_pointer_for_skiplist e.block_id pos e.key e.value) b)

  pub forget-ensure_write_tracking_initialized :
      (b : BlockAppendOnlyLog T) → forget (ensure_write_tracking_initialized S b) ≡ forget b
  unfolding ensure_write_tracking_initialized rebuild_tracking
  forget-ensure_write_tracking_initialized b = ground arith
