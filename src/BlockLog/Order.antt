-- ===== src/BlockLog/Order.antt =====
-- The order in which a block's pairs are written (`writeLogEntries`, `baolWritePriority` of
-- THEO/datablockStore.go), and the decoding of a block into its entries.
pub mod Decode
pub mod Sort
use theo_extension.Common.{
  ℕ, zero, suc, ◌+◌, ◌-◌, ◌≡◌, Bool, true, false, List, [], ◌∷◌, ◌++◌, ◌==◌, ltb, if◌then◌else◌,
  length,
}
use theo_extension.Common.Bytes.{Bytes, bytes_lt}
use theo_extension.KeyType.{header_type, block_body_type, block_receipts_type}
use theo_extension.KeyType.Trie.{get_data_type_from_key}
use theo_extension.BlockLog.Entry.{
  LogEntry, write_log_entry, ReadEntry, entry, eof, failed, read_log_entry,
}

-- A Go `map[string]string`.
abbrev pub Pairs : Type 0
Pairs = List (Bytes × Bytes)

unfoldable pub baol_write_priority : Bytes → ℕ
baol_write_priority key =
    let dt = get_data_type_from_key key in
    if dt == header_type
    then 0
    else if dt == block_body_type
    then 1
    else if dt == block_receipts_type
    then 2
    else 3

-- The `less` function of the sort.
unfoldable pub write_before : Bytes → Bytes → Bool
write_before a b =
    let pa = baol_write_priority a in
    let pb = baol_write_priority b in if pa == pb then bytes_lt a b else ltb pa pb

unfoldable pub insert_pair : Bytes × Bytes → Pairs → Pairs
insert_pair p [] = p ∷ []
insert_pair p (q ∷ qs) = if write_before q.0 p.0 then q ∷ insert_pair p qs else p ∷ q ∷ qs

-- `sort.Slice(keys, ...)`, each key with its value. The keys of a map differ, so the sorted order
-- is the same whatever order the map was ranged over.
unfoldable pub sort_pairs : Pairs → Pairs
sort_pairs [] = []
sort_pairs (p ∷ ps) = insert_pair p (sort_pairs ps)

unfoldable pub write_pairs : ℕ → Pairs → Bytes
write_pairs block_id [] = []
write_pairs block_id ((k, v) ∷ ps) = write_log_entry block_id k v ++ write_pairs block_id ps

unfoldable pub write_log_entries : ℕ → Pairs → Bytes
write_log_entries block_id kvs = write_pairs block_id (sort_pairs kvs)

-- How the loop over a block's bytes ends: at the end of the block, at bytes that do not decode, or
-- (never, see `Order.Decode`) without fuel.
pub data Ending : Type 0 where
  complete broken out_of_fuel : Ending

pub record Decoded : Type 0 where
  -- Each entry with the number of bytes that it took.
  pub entries : List (LogEntry × ℕ)
  pub ending : Ending

abbrev pub prepend : LogEntry × ℕ → Decoded → Decoded
prepend e d = record { entries = e ∷ d.entries; ending = d.ending }

-- `for reader.Len() > 0 { entry, n, err := readLogEntry(reader) ... }`, the loop that every reader
-- of a block runs; `r` is what the reader has left.
unfoldable pub decode_block : ℕ → Bytes → Decoded
decode_block fuel [] = record { entries = []; ending = complete }
decode_block zero (b ∷ r) = record { entries = []; ending = out_of_fuel }
decode_block (suc fuel) (b ∷ r) = elim (read_log_entry (b ∷ r)) [
  | entry e rest ↦ prepend (e, length (b ∷ r) - length rest) (decode_block fuel rest)
  | eof ↦ record { entries = []; ending = complete }
  | failed ↦ record { entries = []; ending = broken }
]

abbrev pub decode : Bytes → Decoded
decode r = decode_block (length r) r
