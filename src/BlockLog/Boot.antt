-- ===== src/BlockLog/Boot.antt =====
-- Opening a block log (THEO/datablockStore.go: `NewBlockAppendOnlyLog`, `loadBlockIndex`,
-- `rebuildSkiplist`, `releaseBootstrapResources`). `Files` is what stands on disk.
use theo_extension.Common.{
  ℕ, zero, suc, false, ◌&&◌, ◌||◌, not, Option, none, some, List, [], ◌∷◌, ◌==◌, ltb, map,
  if◌then◌else◌, length,
}
use theo_extension.Common.Bytes.{Bytes, nat_eq, read_full}
use theo_extension.Common.Maps.{insert, contains, add}
use theo_extension.BlockLog.Entry.{BlockIndexEntry, index_entry_size, decode_index_entry, int64_lt}
use theo_extension.BlockLog.Order.{decode}
use theo_extension.BlockLog.Skiplist.{SkipList}
use theo_extension.BlockLog.State.{
  BlockAppendOnlyLog, inconsistent_index, Result, ok, err, Method, fail, modify, gets, continue,
  ◌>>=◌, ◌>>◌,
}
use theo_extension.BlockLog.Index.{add64, get_block_index_entry, load_index_meta}
use theo_extension.BlockLog.Recent.{or_empty, sort_ids, keep_last, index_entries}
use theo_extension.BlockLog.Read.{read_block}
use theo_extension.BlockLog.Write.{end_indexing}

pub record Files : Type 0 where
  pub data_bytes : Bytes
  pub index_bytes : Bytes
  pub meta_bytes : Option Bytes

-- The variables of the loop in `loadBlockIndex`.
pub record Loading : Type 0 where
  pub slot_index : ℕ
  pub inferred_min : ℕ
  pub latest_block : ℕ
  pub loaded : List (ℕ × BlockIndexEntry)

abbrev start_loading : Loading
start_loading = record { slot_index = 0; inferred_min = 0; latest_block = 0; loaded = [] }

-- An entry that passes the checks.
unfoldable pub load_entry : BlockIndexEntry → Loading → Loading
load_entry e l = record l {
  inferred_min =
      if l.inferred_min == 0 || ltb e.block_id l.inferred_min then e.block_id else l.inferred_min;
  latest_block = if ltb l.latest_block e.block_id then e.block_id else l.latest_block;
  loaded = insert e.block_id e l.loaded;
}

-- One round of the loop, for the entry in the next slot.
unfoldable pub load_slot : ℕ → BlockIndexEntry → Loading → Loading
load_slot min_block_id e l =
    let expected = add64 min_block_id l.slot_index in
    let next = record l { slot_index = add64 l.slot_index 1 } in
    if int64_lt e.end_offset e.start_offset
    then next
    else if e.block_id == 0 && e.start_offset == 0 && e.end_offset == 0
    then next
    else if not (min_block_id == 0) && not (e.block_id == expected)
    then next
    else load_entry e next

-- The loop stops at the end of the file or at an incomplete record; each round takes a record, so
-- the length of the file is enough fuel.
unfoldable pub load_slots : ℕ → ℕ → Bytes → Loading → Loading
load_slots min_block_id zero r l = l
load_slots min_block_id (suc fuel) r l = elim (read_full index_entry_size r) [
  | none ↦ l
  | some (buf, rest) ↦
      load_slots min_block_id fuel rest (load_slot min_block_id (decode_index_entry buf) l)
]

abbrev loaded_state : {T : Type 0} → BlockAppendOnlyLog T → Loading → BlockAppendOnlyLog T
loaded_state b l = record b {
  block_index = some l.loaded;
  min_block_id =
      if b.min_block_id == 0 && ltb 0 l.inferred_min then l.inferred_min else b.min_block_id;
  latest_block_id = l.latest_block;
}

unfoldable pub load_block_index : {T : Type 0} → Bytes → BlockAppendOnlyLog T → BlockAppendOnlyLog T
load_block_index f b = loaded_state b (load_slots b.min_block_id (length f) f start_loading)

-- `defaultRecentN`
abbrev pub default_recent_n : ℕ
default_recent_n = 6000

module _ (S : SkipList) where
  open S use {T, new}

  -- `readAndIndexBlockFrom`
  unfoldable pub read_and_index_block_from : BlockIndexEntry → Method T (Unit {0})
  read_and_index_block_from e b = elim (read_block b e) [
    | err x ↦ (err x, b)
    | ok bytes ↦
        end_indexing S (decode bytes).ending
          (index_entries S e.start_offset (decode bytes).entries b)
  ]

  abbrev pub index_found : Option BlockIndexEntry → Method T (Unit {0})
  index_found none = fail inconsistent_index
  index_found (some e) = read_and_index_block_from e

  -- The loop of `rebuildSkiplist`; `done` is the set of blocks indexed so far.
  unfoldable pub rebuild_loop : List ℕ → List ℕ → Method T (List ℕ)
  rebuild_loop [] done b = (ok done, b)
  rebuild_loop (block_id ∷ ids) done b =
      let skipped = rebuild_loop ids done b in
      let indexed =
        continue (index_found (get_block_index_entry b block_id) b).0
          (λ _. rebuild_loop ids (add block_id done))
          (index_found (get_block_index_entry b block_id) b).1 in
      if contains block_id (or_empty b.indexed_blocks) then indexed else skipped

  unfoldable pub rebuild_skiplist : Method T (Unit {0})
  rebuild_skiplist = do
    ids ← gets (λ b. sort_ids (or_empty b.recent_blocks))
    modify (λ b. record b { skiplist_index = new; indexed_block_keys = some [] })
    done ← rebuild_loop ids []
    modify (λ b. record b { indexed_blocks = some done })

  -- The recent blocks are the last `recentN` of those loaded.
  unfoldable pub choose_recent : BlockAppendOnlyLog T → BlockAppendOnlyLog T
  choose_recent b =
      let recents = keep_last b.recent_n (sort_ids (map (λ e. e.0) (or_empty b.block_index))) in
      record b { recent_blocks = some recents; indexed_blocks = some recents }

  unfoldable pub release_bootstrap_resources : BlockAppendOnlyLog T → BlockAppendOnlyLog T
  release_bootstrap_resources b = record b {
    block_index = none;
    recent_blocks = none;
    indexed_block_keys = none;
  }

  unfoldable pub initial_state : ℕ → Files → BlockAppendOnlyLog T
  initial_state recent_n files = record {
    data_file = some files.data_bytes;
    current_offset = length files.data_bytes;
    index_map_file = some files.index_bytes;
    index_meta_file = files.meta_bytes;
    block_index = some [];
    min_block_id = 0;
    latest_block_id = 0;
    recent_n = if recent_n == 0 then default_recent_n else recent_n;
    recent_blocks = some [];
    skiplist_index = new;
    indexed_blocks = some [];
    indexed_block_keys = some [];
    index_buffer = [];
    closed = false;
  }

  -- `NewBlockAppendOnlyLog`: the open log, or the error after which it is closed again.
  unfoldable pub new_block_append_only_log : ℕ → Files → Result (Unit {0}) × BlockAppendOnlyLog T
  new_block_append_only_log recent_n files =
      (do
        modify load_index_meta
        modify (load_block_index files.index_bytes)
        modify choose_recent
        rebuild_skiplist
        modify release_bootstrap_resources)
        (initial_state recent_n files)
