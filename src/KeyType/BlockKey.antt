-- ===== src/KeyType/BlockKey.antt =====
-- `ParseBlockNumberFromKey` of THEO/theo.go: the block number inside a header, body or receipts key.
use theo_extension.Common.{
  ℕ, ◌<◌, ◌^◌, ◌≡◌, refl, ap, ◌/◌, ◌%◌, le→leb, Bool, true, Option, none, some, [], ◌∷◌, ◌++◌, ◌||◌,
  arith, ◌==◌, leb, if◌then◌else◌, length, take, drop,
}
use theo_extension.Common.Bytes.{Bytes, uint_be, put_uint64, uint_be-put_uint64}
use theo_extension.KeyType.{DataType, header_type, block_body_type, block_receipts_type}
use theo_extension.KeyType.Trie.{get_data_type_from_key}

abbrev pub is_block_type : DataType → Bool
is_block_type d = d == header_type || d == block_body_type || d == block_receipts_type

unfoldable pub parse_block_number_from_key : Bytes → DataType → Option ℕ
parse_block_number_from_key key data_type =
    if is_block_type data_type
    then (if leb 9 (length key) then some (uint_be (take 8 (drop 1 key))) else none)
    else none

-- The keys of a block: a one-byte prefix, the number, and the hash.
abbrev pub block_key : ℕ → ℕ → Bytes → Bytes
block_key prefix number hash = prefix ∷ (put_uint64 number ++ hash)

header_key_type : (rest : Bytes) → get_data_type_from_key (b'h' ∷ rest) ≡ header_type
unfolding get_data_type_from_key
header_key_type [] = refl
header_key_type (c ∷ rest) = refl

receipts_key_type : (rest : Bytes) → get_data_type_from_key (b'r' ∷ rest) ≡ block_receipts_type
unfolding get_data_type_from_key
receipts_key_type [] = refl
receipts_key_type (c ∷ rest) = refl

body_key_type : (rest : Bytes) → get_data_type_from_key (b'b' ∷ 0 ∷ rest) ≡ block_body_type
unfolding get_data_type_from_key
body_key_type rest = refl

parse-block_key :
    (d : DataType) (prefix number : ℕ) (hash : Bytes)
    → is_block_type d ≡ true
    → number < 2 ^ 64
    → parse_block_number_from_key (block_key prefix number hash) d ≡ some number
unfolding parse_block_number_from_key put_uint64
parse-block_key d prefix number hash t h =
    rw (t, le→leb 9 (length (block_key prefix number hash)) (omega arith))
      (ap some (uint_be-put_uint64 number h))

body_block_key_type :
    (number : ℕ) (hash : Bytes)
    → number < 2 ^ 56
    → get_data_type_from_key (block_key b'b' number hash) ≡ block_body_type
unfolding put_uint64
body_block_key_type number hash h =
    let e : number / 2 ^ 56 % 256 ≡ 0 = omega arith in rw e (body_key_type _)

-- The type and the number that the program reads off a key of its own.
abbrev pub block_number : Bytes → Option ℕ
block_number key = parse_block_number_from_key key (get_data_type_from_key key)

-- For every block number below 2^56 and every hash, the number that is read back from the header
-- key, the body key and the receipts key of the block, each under the type which the prefix trie
-- gives that key, is the block's number.
pub block_number-block_key :
    (number : ℕ) (hash : Bytes)
    → number < 2 ^ 56
    → (block_number (block_key b'h' number hash) ≡ some number)
      × (block_number (block_key b'b' number hash) ≡ some number)
      × (block_number (block_key b'r' number hash) ≡ some number)
block_number-block_key number hash h = (
  rw (header_key_type (put_uint64 number ++ hash))
      (parse-block_key header_type b'h' number hash refl (omega arith)),
  rw (body_block_key_type number hash h)
      (parse-block_key block_body_type b'b' number hash refl (omega arith)),
  rw (receipts_key_type (put_uint64 number ++ hash))
      (parse-block_key block_receipts_type b'r' number hash refl (omega arith)),
)
