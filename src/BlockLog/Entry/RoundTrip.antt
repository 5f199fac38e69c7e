-- ===== src/BlockLog/Entry/RoundTrip.antt =====
-- What is written as a log entry or an index entry is read back.
use theo_extension.Common.{
  ℕ, ◌+◌, ◌%◌, ◌^◌, ◌<◌, ◌≡◌, refl, ◌∙◌, ◌++◌, arith, length, take, drop, append_assoc,
  length-append,
}
use theo_extension.Common.Bytes.{
  Bytes, put_uint64, put_uint32, uint_be, read_full-append, uint_be-put_uint64, uint_be-put_uint32,
}
use theo_extension.BlockLog.Entry.{
  LogEntry, BlockIndexEntry, header_size, write_log_entry, entry, read_body, read_log_entry,
  encode_index_entry, decode_index_entry,
}

abbrev pub log_entry : ℕ → Bytes → Bytes → LogEntry
log_entry block_id key value = record { block_id = block_id; key = key; value = value }

abbrev pub header : ℕ → ℕ → ℕ → Bytes
header block_id key_len value_len =
    put_uint64 block_id ++ (put_uint32 key_len ++ put_uint32 value_len)

read_log_entry-header :
    (i k v : ℕ) (r : Bytes) → read_log_entry (header i k v ++ r) ≡ read_body (header i k v) r
unfolding read_log_entry put_uint64 put_uint32
read_log_entry-header i k v r =
    rw (read_full-append header_size (header i k v) r refl, read_log_entry) refl

read_body_lem :
    (h k v rest : Bytes) (i : ℕ)
    → uint_be (take 8 h) ≡ i
    → uint_be (take 4 (drop 8 h)) ≡ length k
    → uint_be (drop 12 h) ≡ length v
    → read_body h (k ++ (v ++ rest)) ≡ entry (log_entry i k v) rest
unfolding read_body
read_body_lem h k v rest i ei ek ev =
    ground (
      arith,
      read_full-append (length k) k (v ++ rest) refl,
      read_full-append (length v) v rest refl,
    )

read_body-header :
    (i : ℕ) (k v rest : Bytes)
    → i < 2 ^ 64
    → length k < 2 ^ 32
    → length v < 2 ^ 32
    → read_body (header i (length k) (length v)) (k ++ (v ++ rest)) ≡ entry (log_entry i k v) rest
unfolding put_uint64 put_uint32
read_body-header i k v rest hi hk hv =
    read_body_lem (header i (length k) (length v)) k v rest i (uint_be-put_uint64 i hi)
      (uint_be-put_uint32 (length k) hk) (uint_be-put_uint32 (length v) hv)

pub write_log_entry-header :
    (i : ℕ) (k v rest : Bytes)
    → length k < 2 ^ 32
    → length v < 2 ^ 32
    → write_log_entry i k v ++ rest ≡ header i (length k) (length v) ++ (k ++ (v ++ rest))
unfolding write_log_entry put_uint64 put_uint32
write_log_entry-header i k v rest hk hv =
    let ek : length k % 2 ^ 32 ≡ length k = omega arith in
    let ev : length v % 2 ^ 32 ≡ length v = omega arith in rw (ek, ev, append_assoc)

-- Reading what `writeLogEntry` wrote gives back the block number, the key and the value, and leaves
-- what follows, for numbers below 2^64 and lengths below 2^32.
pub read_log_entry-write_log_entry :
    (block_id : ℕ) (key value rest : Bytes)
    → block_id < 2 ^ 64
    → length key < 2 ^ 32
    → length value < 2 ^ 32
    → read_log_entry (write_log_entry block_id key value ++ rest)
      ≡ entry (log_entry block_id key value) rest
read_log_entry-write_log_entry i k v rest hi hk hv = rw (write_log_entry-header i k v rest hk hv) (
    read_log_entry-header i (length k) (length v) (k ++ (v ++ rest))
    ∙ read_body-header i k v rest hi hk hv)

pub length-header : (i k v : ℕ) → length (header i k v) ≡ header_size
unfolding put_uint64 put_uint32
length-header i k v = refl

pub header_lengths :
    (i k v : ℕ)
    → k < 2 ^ 32
    → v < 2 ^ 32
    → (uint_be (take 4 (drop 8 (header i k v))) ≡ k) × (uint_be (drop 12 (header i k v)) ≡ v)
unfolding put_uint64 put_uint32
header_lengths i k v hk hv = (uint_be-put_uint32 k hk, uint_be-put_uint32 v hv)

pub length-write_log_entry :
    (block_id : ℕ) (key value : Bytes)
    → length (write_log_entry block_id key value) ≡ header_size + length key + length value
unfolding write_log_entry put_uint64 put_uint32
length-write_log_entry i k v = omega (arith, length-append k v)

pub decode-encode_index_entry :
    (e : BlockIndexEntry)
    → e.block_id < 2 ^ 64
    → e.start_offset < 2 ^ 64
    → e.end_offset < 2 ^ 64
    → decode_index_entry (encode_index_entry e) ≡ e
unfolding decode_index_entry encode_index_entry put_uint64
decode-encode_index_entry e hi hs he = λ i. record {
  block_id = uint_be-put_uint64 e.block_id hi i;
  start_offset = uint_be-put_uint64 e.start_offset hs i;
  end_offset = uint_be-put_uint64 e.end_offset he i;
}

pub length-encode_index_entry : (e : BlockIndexEntry) → length (encode_index_entry e) ≡ 24
unfolding encode_index_entry put_uint64
length-encode_index_entry e = refl
