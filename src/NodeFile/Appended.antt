-- ===== src/NodeFile/Appended.antt =====
-- Writing entries to a node file and reading them back.
use theo_extension.Common.{
  ℕ, ◌%◌, ◌^◌, ◌≤◌, ◌<◌, ◌≡◌, refl, sym, ap, ◌∙◌, true, false, none, some, List, [], ◌∷◌, ◌++◌,
  ◌==◌, arith, leb, ge→ltb, if◌then◌else◌, length, length-append, All,
}
use theo_extension.Common.Bytes.{Bytes, uint_be, put_uint32}
use theo_extension.NodeFile.Entry.{
  NodeInfo, node_entry_size, encode_node_entry, encode_node_entries, is_node_info_tombstone,
}
use theo_extension.NodeFile.Entry.RoundTrip.{length-encode_node_entry}
use theo_extension.NodeFile.Find.{find_entry, IsSorted}
use theo_extension.NodeFile.BinarySearch.{IsEntry}
use theo_extension.NodeFile.Compact.{merged_with}
use theo_extension.NodeFile.Search.{live_only, get_from_slices}
use theo_extension.NodeFile.Hits.{Misses}
use theo_extension.NodeFile.Header.{
  ok, bad_size, bad_magic, Zstd, header_size, file_node_magic, encode_file_node_header,
  decode_file_node_header, read_file_node, decode_node_file_payload, sorted_compressed,
  sorted_compressed_size,
}
use theo_extension.NodeFile.Reading.{read_file_node-append, guard-passed}
use theo_extension.NodeFile.File.{
  File, new_header, append_file_node_entries_with_block_id, get_from_file_node,
}
use theo_extension.NodeFile.Joined.{
  joined, AreSized, length-joined, joined-append, tag_of, tag_sized, length-tag_of, written-eq,
  tag-Misses, get-joined,
}

new_file_read : (Z : Zstd) → read_file_node Z (encode_file_node_header new_header) ≡ ok ([], [])
unfolding read_file_node encode_file_node_header decode_file_node_header decode_node_file_payload
    sorted_compressed sorted_compressed_size put_uint32 uint_be
new_file_read Z = refl

read_magic :
    (Z : Zstd) (g s u : Bytes)
    → read_file_node Z g ≡ ok (s, u)
    → ((decode_file_node_header g).magic == file_node_magic) ≡ true
unfolding read_file_node
read_magic Z g s u r =
    let (z, r') = guard-passed bad_size (leb header_size (length g)) _ _ r in
    (guard-passed bad_magic ((decode_file_node_header g).magic == file_node_magic) _ _ r').0

module _ (Z : Zstd) where
  -- A file with the sorted entries `sorted` and the unsorted entries and tags `es`; a file that does
  -- not exist has none.
  pub data Holds : File → List NodeInfo → List Bytes → Type 0 where
    missing : Holds none [] []
    stored :
        (f : Bytes) (sorted : List NodeInfo) (es : List Bytes)
        → read_file_node Z f ≡ ok (encode_node_entries sorted, joined es)
        → Holds (some f) sorted es

  append-bytes :
      (f : Bytes) (n : NodeInfo) (i : ℕ)
      → header_size ≤ length f
      → append_file_node_entries_with_block_id (n ∷ []) i (some f)
        ≡ (ok tt, some (f ++ joined (encode_node_entry n ∷ tag_of i)))
  unfolding append_file_node_entries_with_block_id
  append-bytes f n i h =
      let z : (length f == 0) ≡ false = ground arith in
      rw (z, ge→ltb (length f) header_size h, written-eq n i) refl

  append-new :
      (n : NodeInfo) (i : ℕ)
      → append_file_node_entries_with_block_id (n ∷ []) i none ≡ (
        ok tt,
        some (encode_file_node_header new_header ++ joined (encode_node_entry n ∷ tag_of i)),
      )
  unfolding append_file_node_entries_with_block_id
  append-new n i = rw (written-eq n i) refl

  aligned :
      (n : NodeInfo) (i : ℕ)
      → length (joined (encode_node_entry n ∷ tag_of i)) % node_entry_size ≡ 0
  aligned n i = omega (
    arith,
    length-joined (encode_node_entry n ∷ tag_of i) (length-encode_node_entry n, tag_sized i),
  )

  added_long : (n : NodeInfo) (i : ℕ) → 65 ≤ length (joined (encode_node_entry n ∷ tag_of i))
  added_long n i = omega (
    arith,
    length-joined (encode_node_entry n ∷ tag_of i) (length-encode_node_entry n, tag_sized i),
  )

  append-Holds :
      (file : File) (sorted : List NodeInfo) (es : List Bytes) (n : NodeInfo) (i : ℕ)
      → Holds file sorted es
      → (g : Bytes) × (append_file_node_entries_with_block_id (n ∷ []) i file ≡ (ok tt, some g))
        × (read_file_node Z g
            ≡ ok (encode_node_entries sorted, joined (es ++ encode_node_entry n ∷ tag_of i)))
        × (header_size < length g)
  unfolding encode_node_entries
  append-Holds file sorted es n i missing =
      let added = joined (encode_node_entry n ∷ tag_of i) in
      let header = encode_file_node_header new_header in
      let r = read_file_node-append Z header added [] [] (new_file_read Z) (aligned n i) in
      (
        header ++ added,
        append-new n i,
        r.1,
        omega (arith, added_long n i, length-append header added, r.0),
      )
  append-Holds file sorted es n i (stored f _ _ e) =
      let added = joined (encode_node_entry n ∷ tag_of i) in
      let r =
        read_file_node-append Z f added (encode_node_entries sorted) (joined es) e (aligned n i) in
      (
        f ++ added,
        append-bytes f n i r.0,
        r.1
            ∙ ap (λ u. ok (encode_node_entries sorted, u))
                (sym (joined-append es (encode_node_entry n ∷ tag_of i))),
        omega (arith, added_long n i, length-append f added, r.0),
      )

  get-read :
      (key g s u : Bytes)
      → header_size < length g
      → read_file_node Z g ≡ ok (s, u)
      → get_from_file_node Z key (some g) ≡ ok (get_from_slices s u key)
  unfolding get_from_file_node
  get-read key g s u h r =
      let m = read_magic Z g s u r in
      let z : (length g == header_size) ≡ false = ground arith in
      rw (ge→ltb (length g) header_size (omega arith), m, z, r) refl

  -- One entry `n` is put to a file whose sorted entries are in order of their keys and whose
  -- unsorted entries and tags `es` have no entry of the key of `n`; the file need not exist, and
  -- block `i` marks the end with a tag unless it is 0. The write succeeds, and a lookup of the key
  -- then answers nothing if `n` is a tombstone, and else `n` merged with the live sorted entry of
  -- its key if there is one. Keys have 1 to 32 bytes, the numbers fit in their fields, and there
  -- are at most 2^31 sorted and unsorted entries each.
  pub get-append_file_node_entries :
      (file : File) (sorted : List NodeInfo) (es : List Bytes) (n : NodeInfo) (i : ℕ)
      → Holds file sorted es
      → All IsEntry sorted
      → IsSorted sorted
      → IsEntry n
      → AreSized es
      → Misses n.key es
      → i < 2 ^ 64
      → length sorted ≤ 2 ^ 31
      → length es ≤ 2 ^ 31
      → (g : Bytes) × (append_file_node_entries_with_block_id (n ∷ []) i file ≡ (ok tt, some g))
        × (get_from_file_node Z n.key (some g)
            ≡ ok (
                if is_node_info_tombstone n
                then none
                else some (merged_with (live_only (find_entry n.key sorted)) n)))
  get-append_file_node_entries file sorted es n i held hs o h a m small b c =
      let (g, w, r, l) = append-Holds file sorted es n i held in
      let fits : length (es ++ encode_node_entry n ∷ tag_of i) < 2 ^ 32 =
        omega (arith, length-append es (encode_node_entry n ∷ tag_of i), length-tag_of i) in
      (
        g,
        w,
        get-read n.key g _ _ l r
            ∙ ap ok (
                get-joined sorted n es (tag_of i) hs o b h a (tag_sized i) m
                  (tag-Misses n.key i small) fits),
      )
