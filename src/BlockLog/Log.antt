-- ===== src/BlockLog/Log.antt =====
-- The abstract view of a block log: the list of its blocks. `IsLog b blocks` says that the state `b`
-- holds these blocks and nothing is pending. It covers the logs whose block numbers start above 0:
-- `Append` and `AppendToNewBlock` build no others, but for a first block numbered 0.
pub mod Frame
pub mod Flush
pub mod Grow
pub mod Fill
pub mod Gap
pub mod Written
pub mod Append
pub mod Commit
pub mod NewBlock
pub mod Fresh
pub mod Guards
pub mod Reads
pub mod Waiting
use mathlib.Core.Option
use theo_extension.Common.{
  ℕ, zero, suc, ◌+◌, ◌-◌, ◌*◌, ◌^◌, ◌≤◌, ◌<◌, ◌≡◌, refl, sym, ap, ◌∙◌, ◌⊎◌, inl, inr, Bool, true,
  false, Option, none, some, List, [], ◌∷◌, ◌++◌, arith, length, ltb, All, if◌then◌else◌,
  Option-cases, Bool-cases, ge→ltb, ltb→lt, lt→ltb,
}
use theo_extension.Common.Bytes.{Bytes, read_at}
use theo_extension.BlockLog.Entry.{BlockIndexEntry, encode_index_entry, decode_index_entry}
use theo_extension.BlockLog.Order.{Pairs}
use theo_extension.BlockLog.Order.Decode.{IsWritable}
use theo_extension.BlockLog.State.{BlockAppendOnlyLog, ok}
use theo_extension.BlockLog.Index.{
  slot_pos, is_negative, check_entry, find_block_index_entry_on_disk,
  get_block_index_entry_with_source, get_block_index_entry, find_in_buffer,
}
use theo_extension.BlockLog.Read.Values.{is_negative_small}
use theo_extension.BlockLog.Layout.{data_of, index_of, entry_at}
use theo_extension.BlockLog.Layout.Slots.{
  IsEntry, entry_at-IsEntry, read_slot, slot_pos_small, check_entry_good, decode_entry_at,
}

-- An empty log has no block number; otherwise the blocks are `minBlockID` to `latestBlockID`.
pub data Numbered (min latest : ℕ) : List Pairs → Type 0 where
  unnumbered : min ≡ 0 → latest ≡ 0 → Numbered min latest []
  numbered :
      (ps : Pairs) (bs : List Pairs)
      → 0 < min
      → latest ≡ min + length bs
      → Numbered min latest (ps ∷ bs)

pub record IsLog {T : Type 0} (b : BlockAppendOnlyLog T) (blocks : List Pairs) : Type 0 where
  pub is_open : b.closed ≡ false
  pub released : b.block_index ≡ none
  pub flushed : b.index_buffer ≡ []
  pub stored : b.data_file ≡ some (data_of b.min_block_id blocks)
  pub offset : b.current_offset ≡ length (data_of b.min_block_id blocks)
  pub indexed : b.index_map_file ≡ some (index_of b.min_block_id 0 blocks)
  pub numbers : Numbered b.min_block_id b.latest_block_id blocks
  pub writable : All IsWritable blocks
  pub small_ids : b.latest_block_id < 2 ^ 58
  pub small_file : length (data_of b.min_block_id blocks) < 2 ^ 63

-- The index entry of a block number, by the list of blocks alone.
abbrev pub entry_for : ℕ → List Pairs → ℕ → Option BlockIndexEntry
entry_for min blocks i = if ltb i min then none else entry_at min 0 blocks (i - min)

found_on_disk :
    {T : Type 0} (b : BlockAppendOnlyLog T) (i pos : ℕ) (f : Bytes) (slot : Option BlockIndexEntry)
    → b.min_block_id ≤ i
    → b.index_map_file ≡ some f
    → slot_pos i b.min_block_id ≡ pos
    → pos < 2 ^ 63
    → read_at f pos 24 ≡ Option.map encode_index_entry slot
    → ((e : BlockIndexEntry)
        → slot ≡ some e
        → check_entry i (decode_index_entry (encode_index_entry e)) ≡ some e)
    → find_block_index_entry_on_disk b i ≡ ok slot
unfolding find_block_index_entry_on_disk
found_on_disk b i pos f none h file at small read good =
    rw (ge→ltb i b.min_block_id h, file, at, is_negative_small pos small, read)
found_on_disk b i pos f (some e) h file at small read good =
    rw (ge→ltb i b.min_block_id h, file, at, is_negative_small pos small, read, good e refl)

below_min :
    {T : Type 0} (b : BlockAppendOnlyLog T) (i : ℕ)
    → i < b.min_block_id
    → find_block_index_entry_on_disk b i ≡ ok none
unfolding find_block_index_entry_on_disk
below_min b i h = rw (lt→ltb i b.min_block_id h)

-- What stands in the slots of the index map file.
module _ {T : Type 0} (b : BlockAppendOnlyLog T) (blocks : List Pairs)
    (indexed : b.index_map_file ≡ some (index_of b.min_block_id 0 blocks))
    (small_file : length (data_of b.min_block_id blocks) < 2 ^ 63) (i : ℕ) where
  slot_good :
      b.min_block_id ≤ i
      → i < 2 ^ 58
      → 0 < i
      → (e : BlockIndexEntry) → entry_at b.min_block_id 0 blocks (i - b.min_block_id) ≡ some e
      → check_entry i (decode_index_entry (encode_index_entry e)) ≡ some e
  slot_good h k p e q =
      let r = entry_at-IsEntry b.min_block_id 0 (i - b.min_block_id) blocks e q in
      rw
        (decode_entry_at b.min_block_id 0 (i - b.min_block_id) blocks e q (omega arith)
          (omega (arith, small_file)))
        (check_entry_good i e (omega (arith, r.numbered)) p r.forward
          (omega (arith, r.inside, small_file)))

  pub disk-entry :
      i < 2 ^ 58
      → 0 < i
      → find_block_index_entry_on_disk b i ≡ ok (entry_for b.min_block_id blocks i)
  disk-entry k p = elim (Bool-cases (ltb i b.min_block_id)) [
    | inl h ↦ rw h (below_min b i (ltb→lt i b.min_block_id h))
    | inr h ↦
        let above : b.min_block_id ≤ i = ground arith in
        rw h (
          found_on_disk b i ((i - b.min_block_id) * 24) (index_of b.min_block_id 0 blocks)
            (entry_at b.min_block_id 0 blocks (i - b.min_block_id)) above indexed
            (slot_pos_small i b.min_block_id above k) (omega arith)
            (read_slot b.min_block_id 0 (i - b.min_block_id) blocks) (slot_good above k p))
  ]

module _ {T : Type 0} {b : BlockAppendOnlyLog T} {blocks : List Pairs} (l : IsLog b blocks)
    (i : ℕ) where
  -- The entry of a block is looked up right, whether the block is there or not.
  pub get_block_index_entry_with_source-eq :
      i < 2 ^ 58
      → 0 < i
      → get_block_index_entry_with_source b i ≡ ok (entry_for b.min_block_id blocks i)
  unfolding get_block_index_entry_with_source find_in_buffer
  get_block_index_entry_with_source-eq k p =
      ground (arith, l.released, l.flushed, disk-entry b blocks l.indexed l.small_file i k p)

  -- In a log that holds `blocks`, looking up block `i` answers the entry that the list of blocks
  -- gives it, and none where `i` is no number of theirs. `i` is above 0 and below 2^58.
  pub get_block_index_entry-eq :
      i < 2 ^ 58 → 0 < i → get_block_index_entry b i ≡ entry_for b.min_block_id blocks i
  unfolding get_block_index_entry
  get_block_index_entry-eq k p = rw (get_block_index_entry_with_source-eq k p)
