-- ===== src/NodeFile/Header.antt =====
-- The header of a node file (THEO/prefixdb/prefixTree.go), and the sorted part, which may be
-- compressed (THEO/prefixdb/compression.go). The compression library is a parameter.
use theo_extension.Common.{
  ℕ, ◌-◌, ◌*◌, ◌/◌, ◌%◌, ◌^◌, ◌≡◌, Bool, true, false, not, ◌&&◌, ◌||◌, Option, none, some, [], ◌∷◌,
  ◌++◌, ◌==◌, ltb, leb, if◌then◌else◌, length, take, drop, replicate,
}
use theo_extension.Common.Bytes.{Bytes, put_uint32, uint_be}
use theo_extension.NodeFile.Entry.{node_entry_size, slice, first_byte}

pub data FileError : Type 0 where
  open_failed bad_size bad_magic short_payload not_aligned decompress_failed empty_key : FileError

pub data Outcome {ℓ} (A : Type ℓ) : Type ℓ where
  ok : A → Outcome A
  err : FileError → Outcome A

infixl 5 ◌>>=◌ ◌>>◌
abbrev pub ◌>>=◌ : {A B : Type 0} → Outcome A → (A → Outcome B) → Outcome B
ok a >>= f = f a
err e >>= f = err e

abbrev pub ◌>>◌ : {A B : Type 0} → Outcome A → Outcome B → Outcome B
m >> k = m >>= λ _. k

abbrev pub guard : Bool → FileError → Outcome (Unit {0})
guard true e = ok tt
guard false e = err e

-- The zstd library: what it compressed, it gives back.
pub record Zstd : Type 0 where
  pub encode_all : Bytes → Bytes
  pub decode_all : Bytes → Option Bytes
  pub decode-encode : (src : Bytes) → decode_all (encode_all src) ≡ some src
  pub encode_some : (b : ℕ) (src : Bytes) → leb 1 (length (encode_all (b ∷ src))) ≡ true

pub record FileNodeHeader : Type 0 where
  pub magic : ℕ
  pub version : ℕ
  pub sorted_entry_count : ℕ
  pub unsorted_entry_count : ℕ
  pub reserved : Bytes

abbrev pub file_node_magic : ℕ
file_node_magic = 1347702342

abbrev pub file_node_version_base : ℕ
file_node_version_base = 2

abbrev pub file_node_version_compressed : ℕ
file_node_version_compressed = 3

-- `binary.Size(FileNodeHeader{})`
abbrev pub header_size : ℕ
header_size = 22

abbrev pub put_uint16 : ℕ → Bytes
put_uint16 v = (v / 256 % 256) ∷ (v % 256) ∷ []

unfoldable pub encode_file_node_header : FileNodeHeader → Bytes
encode_file_node_header h =
    put_uint32 h.magic
    ++ (put_uint16 h.version
        ++ (put_uint32 h.sorted_entry_count ++ (put_uint32 h.unsorted_entry_count ++ h.reserved)))

-- `binary.Read` of the first bytes.
unfoldable pub decode_file_node_header : Bytes → FileNodeHeader
decode_file_node_header f = record {
  magic = uint_be (slice 0 4 f);
  version = uint_be (slice 4 6 f);
  sorted_entry_count = uint_be (slice 6 10 f);
  unsorted_entry_count = uint_be (slice 10 14 f);
  reserved = slice 14 22 f;
}

unfoldable pub sorted_compressed : FileNodeHeader → Bool
sorted_compressed h = leb file_node_version_compressed h.version && first_byte h.reserved % 2 == 1

unfoldable pub sorted_compressed_size : FileNodeHeader → ℕ
sorted_compressed_size h =
    if not (sorted_compressed h)
    then h.sorted_entry_count * node_entry_size
    else uint_be (slice 4 8 h.reserved)

unfoldable pub set_sorted_compression : Bool → ℕ → FileNodeHeader → FileNodeHeader
set_sorted_compression true size h = record h {
  version = file_node_version_compressed;
  reserved = 1 ∷ 0 ∷ 0 ∷ 0 ∷ put_uint32 size;
}
set_sorted_compression false size h =
    if ltb h.version file_node_version_base || h.version == file_node_version_compressed
    then record h { version = file_node_version_base; reserved = replicate 8 0 }
    else record h { reserved = replicate 8 0 }

module _ (Z : Zstd) where
  open Z use {encode_all, decode_all}

  unfoldable pub compress_metadata_zstd : Bytes → Bytes
  compress_metadata_zstd [] = []
  compress_metadata_zstd (b ∷ src) = encode_all (b ∷ src)

  unfoldable pub decompress_metadata_zstd : Bytes → ℕ → Outcome Bytes
  decompress_metadata_zstd [] expected = if expected == 0 then ok [] else err decompress_failed
  decompress_metadata_zstd (b ∷ src) expected = elim (decode_all (b ∷ src)) [
    | none ↦ err decompress_failed
    | some out ↦ if length out == expected then ok out else err decompress_failed
  ]

  -- The sorted and the unsorted part of a payload.
  unfoldable pub decode_node_file_payload : FileNodeHeader → Bytes → Outcome (Bytes × Bytes)
  decode_node_file_payload h payload =
      let expected_sorted = h.sorted_entry_count * node_entry_size in
      let stored = sorted_compressed_size h in
      if not (sorted_compressed h)
      then (do
        guard (leb expected_sorted (length payload)) short_payload
        guard ((length payload - expected_sorted) % node_entry_size == 0) not_aligned
        ok (take expected_sorted payload, drop expected_sorted payload))
      else (do
        guard (leb stored (length payload)) short_payload
        guard ((length payload - stored) % node_entry_size == 0) not_aligned
        sorted ← decompress_metadata_zstd (take stored payload) expected_sorted
        ok (sorted, drop stored payload))

  -- The header and the payload of a file; without compression, or with nothing to compress.
  unfoldable pub encode_node_file_payload :
      FileNodeHeader → Bytes → Bytes → Bool → FileNodeHeader × Bytes
  encode_node_file_payload header sorted unsorted compress_sorted =
      let h = record header {
        sorted_entry_count = length sorted / node_entry_size % 2 ^ 32;
        unsorted_entry_count = length unsorted / node_entry_size % 2 ^ 32;
      } in
      let compressed = compress_metadata_zstd sorted in
      if compress_sorted && ltb 0 (length sorted)
      then (set_sorted_compression true (length compressed) h, compressed ++ unsorted)
      else (set_sorted_compression false 0 h, sorted ++ unsorted)

  -- `readWholeNodeFile` and the decoding of its payload.
  unfoldable pub read_file_node : Bytes → Outcome (Bytes × Bytes)
  read_file_node f =
      let header = decode_file_node_header f in
      do
        guard (leb header_size (length f)) bad_size
        guard (header.magic == file_node_magic) bad_magic
        decode_node_file_payload header (drop header_size f)
