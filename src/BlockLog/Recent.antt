-- ===== src/BlockLog/Recent.antt =====
-- The skip list index of the recent blocks in THEO/datablockStore.go: what a write adds to it, and
-- what falls out when more than `recentN` blocks are tracked.
pub mod Lookup
pub mod Window
pub mod Kept
pub mod Methods
pub mod Reached
use theo_extension.Common.{
  ℕ, ◌-◌, ◌%◌, ◌^◌, Bool, true, false, Option, none, some, List, [], ◌∷◌, ◌++◌, ◌==◌, ltb, leb,
  is_some, ◌&&◌, if◌then◌else◌, length, drop,
}
use theo_extension.Common.Bytes.{Bytes, nat_eq}
use theo_extension.Common.Maps.{lookup, insert, erase, contains, add, discard}
use theo_extension.KeyType.{header_type}
use theo_extension.KeyType.Trie.{get_data_type_from_key}
use theo_extension.BlockLog.Entry.{LogEntry, KvPointer}
use theo_extension.BlockLog.Skiplist.{SkipList}
use theo_extension.BlockLog.Index.{add64}
use theo_extension.BlockLog.State.{BlockAppendOnlyLog}

-- Headers keep their value inline.
unfoldable pub build_kv_pointer_for_skiplist : ℕ → ℕ → Bytes → Bytes → KvPointer
build_kv_pointer_for_skiplist block_id entry_offset key value =
    if get_data_type_from_key key == header_type
    then record {
      offset = entry_offset;
      value_len = length value % 2 ^ 32;
      block_id = block_id;
      inline_value = value;
      has_inline_value = true;
    }
    else record {
      offset = entry_offset;
      value_len = length value % 2 ^ 32;
      block_id = block_id;
      inline_value = [];
      has_inline_value = false;
    }

-- A nil map reads as an empty one.
abbrev pub or_empty {ℓ} : {A : Type ℓ} → Option (List A) → List A
or_empty none = []
or_empty (some m) = m

-- `m[id] = append(m[id], key)`
unfoldable pub append_key : ℕ → Bytes → List (ℕ × List Bytes) → List (ℕ × List Bytes)
append_key block_id key m = insert block_id (or_empty (lookup block_id m) ++ key ∷ []) m

unfoldable pub record_indexed_key :
    {T : Type 0} → ℕ → Bytes → BlockAppendOnlyLog T → BlockAppendOnlyLog T
record_indexed_key block_id key b = record b {
  indexed_block_keys = some (append_key block_id key (or_empty b.indexed_block_keys));
}

unfoldable pub insert_id : ℕ → List ℕ → List ℕ
insert_id i [] = i ∷ []
insert_id i (j ∷ js) = if ltb j i then j ∷ insert_id i js else i ∷ j ∷ js

-- `sort.Slice(blockIDs, ...)`, oldest first
unfoldable pub sort_ids : List ℕ → List ℕ
sort_ids [] = []
sort_ids (i ∷ is) = insert_id i (sort_ids is)

-- The `n` last of a list.
abbrev pub keep_last : ℕ → List ℕ → List ℕ
keep_last n ids = if ltb n (length ids) then drop (length ids - n) ids else ids

module _ (S : SkipList) where
  open S use {T, set, get, remove, elements, next_survives}

  unfoldable pub set_skiplist_entry :
      ℕ → Bytes → KvPointer → BlockAppendOnlyLog T → BlockAppendOnlyLog T
  set_skiplist_entry block_id key ptr b =
      record_indexed_key block_id key (record b { skiplist_index = set key ptr b.skiplist_index })

  -- The loop that indexes the entries of a block; `pos` is where the next entry stands in the file.
  unfoldable pub index_entries :
      ℕ → List (LogEntry × ℕ) → BlockAppendOnlyLog T → BlockAppendOnlyLog T
  index_entries pos [] b = b
  index_entries pos ((e, bytes_read) ∷ es) b = index_entries (add64 pos bytes_read) es (
      set_skiplist_entry e.block_id e.key
        (build_kv_pointer_for_skiplist e.block_id pos e.key e.value) b)

  -- The eviction of a block whose keys are tracked.
  unfoldable pub remove_keys : ℕ → List Bytes → T → T
  remove_keys oldest [] t = t
  remove_keys oldest (key ∷ keys) t = remove_keys oldest keys (elim (get key t) [
    | none ↦ t
    | some ptr ↦ if ptr.block_id == oldest then remove key t else t
  ])

  -- The fallback: a scan of the list that removes while it goes.
  unfoldable pub scan_remove : ℕ → List (Bytes × KvPointer) → T → T
  scan_remove oldest [] t = t
  scan_remove oldest ((key, ptr) ∷ es) t =
      let kept = scan_remove oldest es t in
      let went_on = scan_remove oldest es (remove key t) in
      if ptr.block_id == oldest
      then (if next_survives t key then went_on else remove key t)
      else kept

  unfoldable pub evict_old_block_from_skiplist : ℕ → BlockAppendOnlyLog T → BlockAppendOnlyLog T
  evict_old_block_from_skiplist oldest b =
      let keys_map = or_empty b.indexed_block_keys in
      let keys = or_empty (lookup oldest keys_map) in
      record b {
        skiplist_index = elim keys [
          | [] ↦ scan_remove oldest (elements b.skiplist_index) b.skiplist_index
          | tracked ↦ remove_keys oldest tracked b.skiplist_index
        ];
        indexed_block_keys = elim b.indexed_block_keys [
          | none ↦ none
          | some m ↦ some (erase oldest m)
        ];
      }

  -- `recents` is the list with the new block at its end.
  unfoldable pub trim_recent : List ℕ → List ℕ → BlockAppendOnlyLog T → BlockAppendOnlyLog T
  trim_recent [] indexed b = record b { recent_blocks = some []; indexed_blocks = some indexed }
  trim_recent (oldest ∷ recents) indexed b =
      if ltb b.recent_n (length (oldest ∷ recents))
      then evict_old_block_from_skiplist oldest (record b {
        recent_blocks = some recents;
        indexed_blocks = some (discard oldest indexed);
      })
      else record b { recent_blocks = some (oldest ∷ recents); indexed_blocks = some indexed }

  unfoldable pub update_recent_blocks : ℕ → BlockAppendOnlyLog T → BlockAppendOnlyLog T
  update_recent_blocks new_block_id b =
      trim_recent (or_empty b.recent_blocks ++ new_block_id ∷ [])
        (add new_block_id (or_empty b.indexed_blocks))
        (record b { indexed_block_keys = some (or_empty b.indexed_block_keys) })

  -- The scan of the skip list in `ensureWriteTrackingInitialized`.
  unfoldable pub collect_blocks :
      List (Bytes × KvPointer) → List ℕ → List (ℕ × List Bytes) → List ℕ × List (ℕ × List Bytes)
  collect_blocks [] ids keys = (ids, keys)
  collect_blocks ((key, ptr) ∷ es) ids keys =
      collect_blocks es (add ptr.block_id ids) (append_key ptr.block_id key keys)

  unfoldable pub rebuild_tracking : BlockAppendOnlyLog T → BlockAppendOnlyLog T
  rebuild_tracking b =
      let (block_set, block_keys) = collect_blocks (elements b.skiplist_index) [] [] in
      let block_ids = keep_last b.recent_n (sort_ids block_set) in
      record b {
        recent_blocks = some block_ids;
        indexed_blocks = elim b.indexed_blocks [ none ↦ some block_ids | some ids ↦ some ids ];
        indexed_block_keys = some block_keys;
      }

  unfoldable pub ensure_write_tracking_initialized : BlockAppendOnlyLog T → BlockAppendOnlyLog T
  ensure_write_tracking_initialized b =
      if is_some b.recent_blocks && is_some b.indexed_block_keys then b else rebuild_tracking b
