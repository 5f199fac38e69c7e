-- ===== src/BlockLog/Index.antt =====
-- The block index of THEO/datablockStore.go: the buffer of index entries, the index map file with a
-- slot of 24 bytes for each block from `minBlockID` on, and the metadata file.
use theo_extension.Common.{
  ℕ, ◌+◌, ◌-◌, ◌*◌, ◌%◌, ◌^◌, Bool, true, false, ◌&&◌, Option, none, some, List, [], ◌∷◌, ◌++◌,
  ◌==◌, ltb, if◌then◌else◌, take,
}
use theo_extension.Common.Bytes.{Bytes, nat_eq, put_uint64, uint_be, read_at, write_at, read_full}
use theo_extension.Common.Maps.{lookup}
use theo_extension.BlockLog.Entry.{
  BlockIndexEntry, index_entry_size, encode_index_entry, decode_index_entry, int64_lt,
}
use theo_extension.BlockLog.State.{
  BlockAppendOnlyLog, err_closed, negative_offset, Result, ok, err, Method,
}

-- `uint64` and `int64` arithmetic, on 64-bit patterns.
abbrev pub add64 : ℕ → ℕ → ℕ
add64 a b = (a + b) % 2 ^ 64

abbrev pub sub64 : ℕ → ℕ → ℕ
sub64 a b = (a + 2 ^ 64 - b) % 2 ^ 64

abbrev pub is_negative : ℕ → Bool
is_negative a = int64_lt a 0

-- `int64(blockID-minBlockID) * int64(indexEntrySize)`
abbrev pub slot_pos : ℕ → ℕ → ℕ
slot_pos block_id min_block_id = sub64 block_id min_block_id * index_entry_size % 2 ^ 64

-- The checks on an entry that was read from the slot of a block.
unfoldable pub check_entry : ℕ → BlockIndexEntry → Option BlockIndexEntry
check_entry block_id e =
    if e.block_id == block_id
    then (if e.block_id == 0 && e.start_offset == 0 && e.end_offset == 0
        then none
        else if int64_lt e.end_offset e.start_offset
        then none
        else some e)
    else none

unfoldable pub find_block_index_entry_on_disk :
    {T : Type 0} → BlockAppendOnlyLog T → ℕ → Result (Option BlockIndexEntry)
find_block_index_entry_on_disk b block_id =
    if ltb block_id b.min_block_id then ok none else elim b.index_map_file [
      | none ↦ err err_closed
      | some f ↦
          let pos = slot_pos block_id b.min_block_id in
          if is_negative pos then err negative_offset else elim (read_at f pos index_entry_size) [
            | none ↦ ok none
            | some buf ↦ ok (check_entry block_id (decode_index_entry buf))
          ]
    ]

-- The loop over the index buffer: the first entry of the block.
unfoldable pub find_in_buffer : ℕ → List BlockIndexEntry → Option BlockIndexEntry
find_in_buffer block_id [] = none
find_in_buffer block_id (e ∷ es) =
    if e.block_id == block_id then some e else find_in_buffer block_id es

abbrev pub find_in_map : ℕ → Option (List (ℕ × BlockIndexEntry)) → Option BlockIndexEntry
find_in_map block_id none = none
find_in_map block_id (some m) = lookup block_id m

unfoldable pub get_block_index_entry_with_source :
    {T : Type 0} → BlockAppendOnlyLog T → ℕ → Result (Option BlockIndexEntry)
get_block_index_entry_with_source b block_id = elim (find_in_map block_id b.block_index) [
  | some e ↦ ok (some e)
  | none ↦ elim (find_in_buffer block_id b.index_buffer) [
    | some e ↦ ok (some e)
    | none ↦ find_block_index_entry_on_disk b block_id
  ]
]

abbrev pub found : Result (Option BlockIndexEntry) → Option BlockIndexEntry
found (ok o) = o
found (err e) = none

-- An error of the lookup is logged, and the entry counts as missing.
unfoldable pub get_block_index_entry :
    {T : Type 0} → BlockAppendOnlyLog T → ℕ → Option BlockIndexEntry
get_block_index_entry b block_id = found (get_block_index_entry_with_source b block_id)

-- `bufferIndexEntry`, and `writeIndexEntry` on the index map file, which buffers too. The signal to
-- the background flush is a step of its own, see `background_flush`.
unfoldable pub write_index_entry :
    {T : Type 0} → BlockIndexEntry → BlockAppendOnlyLog T → BlockAppendOnlyLog T
write_index_entry e b = record b { index_buffer = b.index_buffer ++ e ∷ [] }

-- The loop of `flushIndexBufferWithBlockID`: whether every write succeeded, and the file.
unfoldable pub flush_entries : ℕ → List BlockIndexEntry → Bytes → Bool × Bytes
flush_entries min_block_id [] f = (true, f)
flush_entries min_block_id (e ∷ es) f =
    let pos = slot_pos e.block_id min_block_id in
    let skipped = flush_entries min_block_id es f in
    let written = flush_entries min_block_id es (write_at f pos (encode_index_entry e)) in
    if ltb e.block_id min_block_id then skipped else if is_negative pos then (false, f) else written

-- The buffer is emptied first, and filled again where a write fails.
abbrev pub flushed :
    {T : Type 0} → BlockAppendOnlyLog T → Bool × Bytes → Result (Unit {0}) × BlockAppendOnlyLog T
flushed b (true, f) = (ok tt, record b { index_map_file = some f; index_buffer = [] })
flushed b (false, f) = (err negative_offset, record b { index_map_file = some f })

unfoldable pub flush_index_buffer_with_block_id : {T : Type 0} → ℕ → Method T (Unit {0})
flush_index_buffer_with_block_id min_block_id b = elim b.index_buffer [
  | [] ↦ (ok tt, b)
  | e ∷ es ↦ elim b.index_map_file [
    | none ↦ (err err_closed, b)
    | some f ↦ flushed b (flush_entries min_block_id (e ∷ es) f)
  ]
]

unfoldable pub flush_index_buffer : {T : Type 0} → Method T (Unit {0})
flush_index_buffer b = flush_index_buffer_with_block_id b.min_block_id b

-- One round of `backgroundFlush`: its error is dropped.
unfoldable pub background_flush : {T : Type 0} → BlockAppendOnlyLog T → BlockAppendOnlyLog T
background_flush b = (flush_index_buffer b).1

unfoldable pub save_index_meta : {T : Type 0} → BlockAppendOnlyLog T → BlockAppendOnlyLog T
save_index_meta b = record b {
  index_meta_file = some (put_uint64 b.min_block_id ++ put_uint64 b.latest_block_id);
}

-- The metadata file gives `minBlockID`; a missing or short file counts as a new log.
unfoldable pub load_index_meta : {T : Type 0} → BlockAppendOnlyLog T → BlockAppendOnlyLog T
load_index_meta b = elim b.index_meta_file [
  | none ↦ record b { min_block_id = 0 }
  | some buf ↦ elim (read_full 16 buf) [
    | none ↦ record b { min_block_id = 0 }
    | some (head, rest) ↦ record b { min_block_id = uint_be (take 8 head) }
  ]
]
