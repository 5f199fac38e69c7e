-- ===== src/BlockLog/Entry.antt =====
-- The records of the block log (THEO/common.go) and the encoding of log entries and index entries
-- (THEO/datablockStore.go: `writeLogEntry`, `readLogEntry`, `writeIndexEntry`).
pub mod RoundTrip
use theo_extension.Common.{
  ℕ, zero, suc, ◌+◌, ◌%◌, ◌^◌, ◌<◌, ◌≡◌, refl, Bool, true, false, Option, none, some, List, [], ◌∷◌,
  ◌++◌, arith, length, take, drop, ltb, leb, if◌then◌else◌,
}
use theo_extension.Common.Bytes.{Bytes, put_uint64, put_uint32, uint_be, read_full}

pub record LogEntry : Type 0 where
  pub block_id : ℕ
  pub key : Bytes
  pub value : Bytes

-- Offsets are Go's `int64`, kept as their 64-bit patterns.
pub record BlockIndexEntry : Type 0 where
  pub block_id : ℕ
  pub start_offset : ℕ
  pub end_offset : ℕ

pub record KvPointer : Type 0 where
  pub offset : ℕ
  pub value_len : ℕ
  pub block_id : ℕ
  pub inline_value : Bytes
  pub has_inline_value : Bool

abbrev pub header_size : ℕ
header_size = 16

abbrev pub index_entry_size : ℕ
index_entry_size = 24

-- "_D_"
abbrev pub tombstone_marker : Bytes
tombstone_marker = b'_' ∷ b'D' ∷ b'_' ∷ []

-- The lengths are cut to `uint32`.
unfoldable pub write_log_entry : ℕ → Bytes → Bytes → Bytes
write_log_entry block_id key value =
    put_uint64 block_id
    ++ (put_uint32 (length key % 2 ^ 32) ++ (put_uint32 (length value % 2 ^ 32) ++ (key ++ value)))

-- What `readLogEntry` returns: an entry with the bytes left, `io.EOF`, or another error.
pub data ReadEntry : Type 0 where
  entry : LogEntry → Bytes → ReadEntry
  eof : ReadEntry
  failed : ReadEntry

-- The header, once its 16 bytes are read.
unfoldable pub read_body : Bytes → Bytes → ReadEntry
read_body header r =
    let key_len = uint_be (take 4 (drop 8 header)) in
    let value_len = uint_be (drop 12 header) in
    elim (read_full key_len r) [
      | none ↦ failed
      | some (key, r₁) ↦ elim (read_full value_len r₁) [
        | none ↦ failed
        | some (value, r₂) ↦
            entry (record { block_id = uint_be (take 8 header); key = key; value = value }) r₂
      ]
    ]

unfoldable pub read_log_entry : Bytes → ReadEntry
read_log_entry [] = eof
read_log_entry (b ∷ r) = elim (read_full header_size (b ∷ r)) [
  | none ↦ failed
  | some (header, rest) ↦ read_body header rest
]

-- `int64(binary.BigEndian.Uint64(...))` keeps the bits, so an entry is three big-endian words.
unfoldable pub encode_index_entry : BlockIndexEntry → Bytes
encode_index_entry e =
    put_uint64 e.block_id ++ (put_uint64 e.start_offset ++ put_uint64 e.end_offset)

unfoldable pub decode_index_entry : Bytes → BlockIndexEntry
decode_index_entry buf = record {
  block_id = uint_be (take 8 buf);
  start_offset = uint_be (take 8 (drop 8 buf));
  end_offset = uint_be (drop 16 buf);
}

-- `a < b` on `int64`, by the bit patterns.
abbrev pub int64_lt : ℕ → ℕ → Bool
int64_lt a b = ltb ((a + 2 ^ 63) % 2 ^ 64) ((b + 2 ^ 63) % 2 ^ 64)
