-- ===== src/NodeFile/Entry/RoundTrip.antt =====
-- Entries and tags of a node file, read back.
use Prim.Native.Nat.{min}
use theo_extension.Common.{
  ℕ, zero, suc, ◌+◌, ◌-◌, ◌^◌, ◌≤◌, ◌<◌, ◌≡◌, refl, ap, ◌∙◌, false, some, [], ◌∷◌, ◌++◌, ◌==◌,
  arith, ltb, length, take, drop, replicate, length-append, length-take, length-replicate,
  take_prefix, append_assoc, Bool-cases, inl, inr, ge→ltb,
}
use theo_extension.Common.Bytes.{
  Bytes, put_uint64, put_uint32, uint_be, uint_be-put_uint64, uint_be-put_uint32,
}
use theo_extension.NodeFile.Entry.{
  NodeInfo, key_len, max_key_size, node_lookup_key, first_byte, encode_node_entry,
  decode_node_entry, node_entry_size, node_commit_tag, node_commit_tag_block_id,
  is_node_commit_tag_entry, is_zero_range, node_commit_tag_magic,
}

pub drop_past : (k n : ℕ) (xs ys : Bytes) → k ≡ length xs + n → drop k (xs ++ ys) ≡ drop n ys
drop_past k n [] ys e = ap (λ j. drop j ys) (omega arith)
drop_past zero n (x ∷ xs) ys e = absurd (omega arith)
drop_past (suc k) n (x ∷ xs) ys e = drop_past k n xs ys (omega arith)

abbrev pub padded_key : Bytes → Bytes
padded_key key = take (key_len key) key ++ replicate (max_key_size - key_len key) 0

key_len-le : (key : Bytes) → (key_len key ≤ 32) × (key_len key ≤ length key)
key_len-le key = ground arith

length-padded_key : (key : Bytes) → length (padded_key key) ≡ 32
length-padded_key key =
    let b = key_len-le key in
    omega (
      arith,
      length-append (take (key_len key) key) (replicate (max_key_size - key_len key) 0),
      length-take (key_len key) key,
      length-replicate {A = ℕ} (max_key_size - key_len key) 0,
    )

abbrev pub numbers_of : NodeInfo → Bytes
numbers_of n =
    put_uint64 n.account_offset
    ++ (put_uint32 n.account_size
        ++ (put_uint32 n.storage_file_id
            ++ (put_uint64 n.storage_offset ++ put_uint64 n.storage_size)))

pub length-encode_node_entry : (n : NodeInfo) → length (encode_node_entry n) ≡ node_entry_size
unfolding encode_node_entry put_uint64 put_uint32
length-encode_node_entry n =
    omega (arith, length-padded_key n.key, length-append (padded_key n.key) (numbers_of n))

pub record IsEncodable (n : NodeInfo) : Type 0 where
  pub offset : n.account_offset < 2 ^ 64
  pub size : n.account_size < 2 ^ 32
  pub file : n.storage_file_id < 2 ^ 32
  pub storage : n.storage_offset < 2 ^ 64
  pub total : n.storage_size < 2 ^ 64

take_whole : (key : Bytes) → take (length key) key ≡ key
take_whole [] = refl
take_whole (x ∷ xs) = ap (◌∷◌ x) (take_whole xs)

stored_key : (key : Bytes) → take (key_len key) key ≡ node_lookup_key key
unfolding node_lookup_key
stored_key key = elim (Bool-cases (ltb max_key_size (length key))) [
  | inl e ↦ rw e refl
  | inr e ↦ rw e (take_whole key)
]

pub decoded_key :
    (key rest : Bytes)
    → take (min max_key_size (key_len key)) (padded_key key ++ rest) ≡ node_lookup_key key
decoded_key key rest =
    let b = key_len-le key in
    let k : min max_key_size (key_len key) ≡ length (take (key_len key) key) =
      omega (arith, length-take (key_len key) key) in
    let pad = replicate {A = ℕ} (max_key_size - key_len key) 0 in
    ap (take _) (append_assoc (take (key_len key) key) pad rest)
    ∙ take_prefix (min max_key_size (key_len key)) (take (key_len key) key) (pad ++ rest) k
    ∙ stored_key key

-- The numbers of an entry stand where they are looked for.
numbers_at :
    (k m : ℕ) (n : NodeInfo) → k ≡ 33 + m → drop k (encode_node_entry n) ≡ drop m (numbers_of n)
unfolding encode_node_entry
numbers_at zero m n e = absurd (omega arith)
numbers_at (suc k) m n e =
    drop_past k m (padded_key n.key) (numbers_of n) (omega (arith, length-padded_key n.key))

key_at :
    (n : NodeInfo)
    → take (min max_key_size (first_byte (encode_node_entry n))) (drop 1 (encode_node_entry n))
      ≡ node_lookup_key n.key
unfolding encode_node_entry
key_at n = decoded_key n.key (numbers_of n)

-- An entry is read back with its key cut to 32 bytes. Its numbers fit in their fields.
pub decode_node_entry-encode_node_entry :
    (n : NodeInfo)
    → IsEncodable n
    → decode_node_entry (encode_node_entry n) ≡ record n { key = node_lookup_key n.key }
unfolding decode_node_entry put_uint64 put_uint32
decode_node_entry-encode_node_entry n h =
    let long : ltb (length (encode_node_entry n)) node_entry_size ≡ false =
      ge→ltb _ _ (omega (arith, length-encode_node_entry n)) in
    rw
      (
        long,
        numbers_at 33 0 n refl,
        numbers_at 41 8 n refl,
        numbers_at 45 12 n refl,
        numbers_at 49 16 n refl,
        numbers_at 57 24 n refl,
      )
      (rw
        (
          key_at n,
          uint_be-put_uint64 n.account_offset h.offset,
          uint_be-put_uint32 n.account_size h.size,
          uint_be-put_uint32 n.storage_file_id h.file,
          uint_be-put_uint64 n.storage_offset h.storage,
          uint_be-put_uint64 n.storage_size h.total,
        )
        refl)

-- An entry with a key is no tag.
pub encode_node_entry-not_tag :
    (n : NodeInfo) → 0 < length n.key → is_node_commit_tag_entry (encode_node_entry n) ≡ false
unfolding encode_node_entry node_commit_tag_block_id
encode_node_entry-not_tag n p =
    let t : (key_len n.key == 0) ≡ false = ground arith in
    let long : ltb (length (encode_node_entry n)) node_entry_size ≡ false =
      ge→ltb _ _ (omega (arith, length-encode_node_entry n)) in
    rw (t, long) refl

magic_read : uint_be (67 ∷ 77 ∷ 84 ∷ 66 ∷ 76 ∷ 79 ∷ 67 ∷ 75 ∷ []) ≡ node_commit_tag_magic
unfolding uint_be
magic_read = refl

zero_size : uint_be (replicate 4 0) ≡ 0
unfolding uint_be
zero_size = refl

zero_offset : uint_be (replicate 8 0) ≡ 0
unfolding uint_be
zero_offset = refl

-- The tag of block `i` is read back as `i`, which is above 0 and fits in 64 bits.
pub node_commit_tag_block_id-node_commit_tag :
    (i : ℕ) → 0 < i → i < 2 ^ 64 → node_commit_tag_block_id (node_commit_tag i) ≡ some i
unfolding node_commit_tag_block_id node_commit_tag put_uint64 is_zero_range
node_commit_tag_block_id-node_commit_tag i p h =
    let z : (i == 0) ≡ false = ground arith in
    rw (uint_be-put_uint64 i h, z, magic_read, zero_size, zero_offset) refl

pub length-node_commit_tag : (i : ℕ) → length (node_commit_tag i) ≡ node_entry_size
unfolding node_commit_tag put_uint64
length-node_commit_tag i = refl
