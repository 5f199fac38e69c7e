-- ===== src/BlockLog/Read/Values.antt =====
-- Reading a value through a pointer of the skip list.
use theo_extension.Common.{
  ℕ, ◌+◌, ◌%◌, ◌^◌, ◌<◌, ◌≡◌, refl, sym, ap, ◌∙◌, true, false, none, some, [], ◌++◌, arith, ◌⊎◌,
  inl, inr, length, take, drop, le→leb, length-append, append_assoc, take_prefix, drop_prefix,
  Bool-cases, ◌==◌,
}
use theo_extension.Common.Bytes.{Bytes, read_at, uint_be}
use theo_extension.KeyType.{header_type}
use theo_extension.KeyType.Trie.{get_data_type_from_key}
use theo_extension.BlockLog.Entry.{KvPointer, header_size, write_log_entry}
use theo_extension.BlockLog.Entry.RoundTrip.{
  header, write_log_entry-header, length-header, header_lengths,
}
use theo_extension.BlockLog.Index.{is_negative, add64}
use theo_extension.BlockLog.State.{BlockAppendOnlyLog}
use theo_extension.BlockLog.Recent.{build_kv_pointer_for_skiplist}
use theo_extension.BlockLog.Read.{
  read_data, read_header_in_block, read_header_and_locate, read_value_bytes,
}

-- A read inside a file finds what stands there.
pub read_at_middle :
    (xs ys zs : Bytes) (pos n : ℕ)
    → pos ≡ length xs
    → n ≡ length ys
    → read_at (xs ++ (ys ++ zs)) pos n ≡ some ys
unfolding read_at
read_at_middle xs ys zs pos n ep en = rw (
  le→leb (pos + n) (length (xs ++ (ys ++ zs)))
      (omega (arith, length-append xs (ys ++ zs), length-append ys zs)),
  drop_prefix pos xs (ys ++ zs) ep,
  take_prefix n ys zs en,
)

pub is_negative_small : (a : ℕ) → a < 2 ^ 63 → is_negative a ≡ false
is_negative_small a h = ground arith

module _ {T : Type 0} (b : BlockAppendOnlyLog T) (xs : Bytes) where
  pub read_data_middle :
      (ys zs : Bytes) (pos n : ℕ)
      → b.data_file ≡ some (xs ++ (ys ++ zs))
      → pos ≡ length xs
      → n ≡ length ys
      → pos < 2 ^ 63
      → read_data b pos n ≡ some ys
  unfolding read_data
  read_data_middle ys zs pos n f ep en h =
      rw (f, is_negative_small pos h) (read_at_middle xs ys zs pos n ep en)

module _ {T : Type 0} (b : BlockAppendOnlyLog T) (p : KvPointer) where
  -- The first attempt reads the same bytes as the second, or none.
  read_header_in_block-eq :
      (read_header_in_block b p ≡ none)
      ⊎ (read_header_in_block b p ≡ read_data b p.offset header_size)
  unfolding read_header_in_block
  read_header_in_block-eq = ground arith

  read_header_and_locate-eq :
      (h : Bytes)
      → read_data b p.offset header_size ≡ some h
      → read_header_and_locate b p ≡ some (uint_be (take 4 (drop 8 h)), uint_be (drop 12 h))
  unfolding read_header_and_locate
  read_header_and_locate-eq h e = elim read_header_in_block-eq [
    | inl q ↦ rw (q, e, read_header_and_locate)
    | inr q ↦ rw (q ∙ e, read_header_and_locate)
  ]

abbrev plain_pointer : ℕ → ℕ → Bytes → KvPointer
plain_pointer i pos v = record {
  offset = pos;
  value_len = length v % 2 ^ 32;
  block_id = i;
  inline_value = [];
  has_inline_value = false;
}

build-plain :
    (i pos : ℕ) (k v : Bytes)
    → (get_data_type_from_key k == header_type) ≡ false
    → build_kv_pointer_for_skiplist i pos k v ≡ plain_pointer i pos v
unfolding build_kv_pointer_for_skiplist
build-plain i pos k v h = rw h

read-inline :
    {T : Type 0} (b : BlockAppendOnlyLog T) (i pos : ℕ) (k v : Bytes)
    → (get_data_type_from_key k == header_type) ≡ true
    → read_value_bytes b (build_kv_pointer_for_skiplist i pos k v) ≡ some v
unfolding build_kv_pointer_for_skiplist read_value_bytes
read-inline b i pos k v h = rw h

module _ {T : Type 0} (b : BlockAppendOnlyLog T) (xs k v zs : Bytes) (i pos : ℕ)
    (file : b.data_file ≡ some (xs ++ (write_log_entry i k v ++ zs))) (at : pos ≡ length xs)
    (short_key : length k < 2 ^ 32) (short_value : length v < 2 ^ 32)
    (fits : pos + header_size + length k + length v < 2 ^ 63) where
  file_header : b.data_file ≡ some (xs ++ (header i (length k) (length v) ++ (k ++ (v ++ zs))))
  file_header =
      file ∙ ap (λ f. some (xs ++ f)) (write_log_entry-header i k v zs short_key short_value)

  file_value : b.data_file ≡ some ((xs ++ (header i (length k) (length v) ++ k)) ++ (v ++ zs))
  file_value =
      file_header
      ∙ rw
          (
            append_assoc xs (header i (length k) (length v) ++ k) (v ++ zs),
            append_assoc (header i (length k) (length v)) k (v ++ zs),
          )
          refl

  located : read_header_and_locate b (plain_pointer i pos v) ≡ some (length k, length v)
  located =
      let (ek, ev) = header_lengths i (length k) (length v) short_key short_value in
      read_header_and_locate-eq b (plain_pointer i pos v) (header i (length k) (length v)) (
        read_data_middle b xs (header i (length k) (length v)) (k ++ (v ++ zs)) pos header_size
          file_header at (sym (length-header i (length k) (length v))) (omega arith))
      ∙ rw (ek, ev)

  value_place :
      add64 (add64 pos header_size) (length k)
      ≡ length (xs ++ (header i (length k) (length v) ++ k))
  value_place = omega (
    arith,
    length-append xs (header i (length k) (length v) ++ k),
    length-append (header i (length k) (length v)) k,
    length-header i (length k) (length v),
  )

  read_plain : read_value_bytes b (plain_pointer i pos v) ≡ some v
  unfolding read_value_bytes
  read_plain =
      rw (located, read_value_bytes)
        (read_data_middle b (xs ++ (header i (length k) (length v) ++ k)) v zs
          (add64 (add64 pos header_size) (length k)) (length v) file_value value_place refl
          (omega arith))

  -- A value is read back through the pointer to the entry that holds it.
  pub read_value_bytes-build : read_value_bytes b (build_kv_pointer_for_skiplist i pos k v) ≡ some v
  read_value_bytes-build = elim (Bool-cases (get_data_type_from_key k == header_type)) [
    | inl h ↦ read-inline b i pos k v h
    | inr h ↦ ap (read_value_bytes b) (build-plain i pos k v h) ∙ read_plain
  ]
