-- ===== src/BlockLog/Read.antt =====
-- The reading methods of THEO/datablockStore.go: `Get`, `GetByBlock` and what they call.
pub mod Values
use theo_extension.Common.{
  ℕ, suc, ◌+◌, ◌-◌, Bool, true, false, ◌&&◌, not, Option, none, some, List, [], ◌∷◌, ◌==◌, ltb,
  if◌then◌else◌, take, drop,
}
use theo_extension.Common.Bytes.{Bytes, bytes_beq, bytes_eq, nat_eq, uint_be, read_at}
use theo_extension.Common.Maps.{insert, contains}
use theo_extension.KeyType.BlockKey.{block_number}
use theo_extension.BlockLog.Entry.{
  LogEntry, BlockIndexEntry, KvPointer, header_size, tombstone_marker, int64_lt,
}
use theo_extension.BlockLog.Order.{Pairs, Ending, complete, broken, out_of_fuel, Decoded, decode}
use theo_extension.BlockLog.Skiplist.{SkipList}
use theo_extension.BlockLog.State.{
  BlockAppendOnlyLog, Error, log_closed, requested_future_block, read_failed, decode_failed, Result,
  ok, err,
}
use theo_extension.BlockLog.Index.{
  add64, sub64, is_negative, get_block_index_entry, get_block_index_entry_with_source,
}

-- Results of the functions that only read the state.
infixl 5 ◌>>=◌
abbrev pub ◌>>=◌ : {A B : Type 0} → Result A → (A → Result B) → Result B
ok a >>= f = f a
err e >>= f = err e

abbrev pub or_error : {A : Type 0} → Error → Option A → Result A
or_error e none = err e
or_error e (some a) = ok a

-- `IgnoredThreshold`
abbrev pub ignored_threshold : ℕ
ignored_threshold = 10000

unfoldable pub find_key : Bytes → List (LogEntry × ℕ) → Option Bytes
find_key key [] = none
find_key key ((e, n) ∷ es) = if bytes_beq e.key key then some e.value else find_key key es

abbrev pub scan_end : Ending → Result (Option Bytes)
scan_end complete = ok none
scan_end broken = err decode_failed
scan_end out_of_fuel = err decode_failed

-- One pass of `findKeyInOneBlock`: it stops at the key, or at bytes that do not decode.
unfoldable pub scan_for_key : Bytes → Decoded → Result (Option Bytes)
scan_for_key key d = elim (find_key key d.entries) [
  | some v ↦ ok (some v)
  | none ↦ scan_end d.ending
]

-- The source makes a second pass over the same bytes when the first finds nothing.
abbrev pub second_pass : Bytes → Decoded → Option Bytes → Result (Option Bytes)
second_pass key d (some v) = ok (some v)
second_pass key d none = scan_for_key key d

-- A tombstone reads as the empty value of a key that is there.
abbrev pub shown : Bytes → Bytes × Bool
shown v = if bytes_beq v tombstone_marker then ([], true) else (v, true)

abbrev pub shown_if_found : Option Bytes → Bytes × Bool
shown_if_found none = ([], false)
shown_if_found (some v) = shown v

-- The pairs that the decoded entries leave in a Go map, each value through `show`.
unfoldable pub collect_pairs : (Bytes → Bytes) → Pairs → List (LogEntry × ℕ) → Pairs
collect_pairs show m [] = m
collect_pairs show m ((e, n) ∷ es) = collect_pairs show (insert e.key (show e.value) m) es

abbrev pub end_with : {A : Type 0} → A → Ending → Result A
end_with a complete = ok a
end_with a broken = err decode_failed
end_with a out_of_fuel = err decode_failed

module _ {T : Type 0} (b : BlockAppendOnlyLog T) where
  -- `readAtWithStats(baol.dataFile, ...)` of `n` bytes
  unfoldable pub read_data : ℕ → ℕ → Option Bytes
  read_data offset n = elim b.data_file [
    | none ↦ none
    | some f ↦ if is_negative offset then none else read_at f offset n
  ]

  -- The test that a pointer lies in its block.
  abbrev pub in_block : KvPointer → BlockIndexEntry → Bool
  in_block p e =
      not (int64_lt p.offset e.start_offset)
      && not (int64_lt e.end_offset (add64 p.offset header_size))

  -- The first attempt of `readHeaderAndLocate`, through the block's index entry.
  unfoldable pub read_header_in_block : KvPointer → Option Bytes
  read_header_in_block p =
      if p.block_id == 0 then none else elim (get_block_index_entry b p.block_id) [
        | none ↦ none
        | some e ↦ if in_block p e then read_data p.offset header_size else none
      ]

  -- `readHeaderAndLocate`: the key length and the value length.
  unfoldable pub read_header_and_locate : KvPointer → Option (ℕ × ℕ)
  read_header_and_locate p = elim (read_header_in_block p) [
    | some h ↦ some (uint_be (take 4 (drop 8 h)), uint_be (drop 12 h))
    | none ↦ elim (read_data p.offset header_size) [
      | none ↦ none
      | some h ↦ some (uint_be (take 4 (drop 8 h)), uint_be (drop 12 h))
    ]
  ]

  -- `readValueBytesFromPointer`
  unfoldable pub read_value_bytes : KvPointer → Option Bytes
  read_value_bytes p =
      if p.has_inline_value then some p.inline_value else elim (read_header_and_locate p) [
        | none ↦ none
        | some (key_len, value_len) ↦
            read_data (add64 (add64 p.offset header_size) key_len) value_len
      ]

  -- The size of a block and, if it is positive, the block's bytes.
  unfoldable pub read_block : BlockIndexEntry → Result Bytes
  read_block e =
      let size = sub64 e.end_offset e.start_offset in
      if size == 0
      then ok []
      else if is_negative size
      then ok []
      else or_error read_failed (read_data e.start_offset size)

  unfoldable pub find_key_in_one_block : BlockIndexEntry → Bytes → Result (Option Bytes)
  find_key_in_one_block e key = do
    bytes ← read_block e
    first ← scan_for_key key (decode bytes)
    second_pass key (decode bytes) first

  abbrev pub is_indexed : ℕ → Bool
  is_indexed block_id = elim b.indexed_blocks [ none ↦ false | some ids ↦ contains block_id ids ]

  -- The part of `Get` that reads an old block from disk.
  unfoldable pub get_from_disk : ℕ → Bytes → Result (Bytes × Bool)
  get_from_disk block_id key = do
    main ← get_block_index_entry_with_source b block_id
    elim main [
      | none ↦ ok ([], false)
      | some e ↦ find_key_in_one_block e key >>= λ v. ok (shown_if_found v)
    ]

  -- The part of `Get` after a miss in the skip list.
  unfoldable pub get_by_number : Option ℕ → Bytes → Result (Bytes × Bool)
  get_by_number none key = ok ([], false)
  get_by_number (some block_id) key =
      if ltb b.latest_block_id block_id
      then err requested_future_block
      else if ltb ignored_threshold (b.latest_block_id - block_id)
      then ok ([], true)
      else if is_indexed block_id
      then ok ([], false)
      else get_from_disk block_id key

-- "__DELETED__"
abbrev pub deleted_text : Bytes
deleted_text = b'_' ∷ b'_' ∷ b'D' ∷ b'E' ∷ b'L' ∷ b'E' ∷ b'T' ∷ b'E' ∷ b'D' ∷ b'_' ∷ b'_' ∷ []

module _ {T : Type 0} (b : BlockAppendOnlyLog T) where
  -- On an error the source also hands back the pairs read so far, which its callers drop.
  unfoldable pub get_by_block : ℕ → Result Pairs
  get_by_block block_id =
      if b.closed then err log_closed else elim (get_block_index_entry b block_id) [
        | none ↦ ok []
        | some e ↦ read_block b e >>= λ bytes.
            end_with
              (collect_pairs (λ v. if bytes_beq v tombstone_marker then deleted_text else v) []
                (decode bytes).entries)
              (decode bytes).ending
      ]

module _ (S : SkipList) where
  open S use {T, get}

  -- `Get`: the value, and whether the key was found.
  unfoldable pub get_value : BlockAppendOnlyLog T → Bytes → Result (Bytes × Bool)
  get_value b key = if b.closed then err log_closed else elim (get key b.skiplist_index) [
    | some p ↦ or_error read_failed (read_value_bytes b p) >>= λ v. ok (shown v)
    | none ↦ get_by_number b (block_number key) key
  ]
