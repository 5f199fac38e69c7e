-- ===== src/NodeFile/Reading.antt =====
-- Reading a node file back: its header, its two parts, and what an append adds.
use theo_extension.Common.{
  ℕ, ◌+◌, ◌-◌, ◌*◌, ◌%◌, ◌^◌, ◌≤◌, ◌<◌, ◌≡◌, refl, sym, ap, ◌∙◌, subst, Bool, true, false, not, inl,
  inr, ◌++◌, ◌==◌, arith, leb, le→leb, leb→le, ==_iff, if◌then◌else◌, length, take, drop,
  length-append, take-append_le, drop-append_le, take_prefix, Bool-cases, length-drop,
}
use theo_extension.Common.Bytes.{Bytes, put_uint32, uint_be, uint_be-put_uint32}
use theo_extension.NodeFile.Entry.{node_entry_size, slice}
use theo_extension.NodeFile.Header.{
  Outcome, ok, err, FileError, ◌>>=◌, ◌>>◌, guard, bad_size, bad_magic, short_payload, not_aligned,
  Zstd, FileNodeHeader, header_size, put_uint16, file_node_magic, encode_file_node_header,
  decode_file_node_header, sorted_compressed, sorted_compressed_size, decompress_metadata_zstd,
  decode_node_file_payload, read_file_node,
}

slice-append : (a b : ℕ) (f g : Bytes) → a ≤ b → b ≤ length f → slice a b (f ++ g) ≡ slice a b f
slice-append a b f g h k =
    ap (take (b - a)) (drop-append_le a f g (omega arith))
    ∙ take-append_le (b - a) (drop a f) g (omega (arith, length-drop a f))

pub decode_file_node_header-append :
    (f g : Bytes)
    → header_size ≤ length f
    → decode_file_node_header (f ++ g) ≡ decode_file_node_header f
unfolding decode_file_node_header
decode_file_node_header-append f g h =
    rw
      (
        slice-append 0 4 f g (omega arith) (omega arith),
        slice-append 4 6 f g (omega arith) (omega arith),
        slice-append 6 10 f g (omega arith) (omega arith),
        slice-append 10 14 f g (omega arith) (omega arith),
        slice-append 14 22 f g (omega arith) (omega arith),
      )
      refl

pub record IsHeader (h : FileNodeHeader) : Type 0 where
  pub magic : h.magic < 2 ^ 32
  pub version : h.version < 2 ^ 16
  pub sorted : h.sorted_entry_count < 2 ^ 32
  pub unsorted : h.unsorted_entry_count < 2 ^ 32
  pub reserved : length h.reserved ≡ 8

uint_be-put_uint16 : (v : ℕ) → v < 2 ^ 16 → uint_be (put_uint16 v) ≡ v
unfolding uint_be
uint_be-put_uint16 v h = omega arith

pub decode_file_node_header-encode :
    (h : FileNodeHeader) (rest : Bytes)
    → IsHeader h
    → decode_file_node_header (encode_file_node_header h ++ rest) ≡ h
unfolding decode_file_node_header encode_file_node_header put_uint32
decode_file_node_header-encode h rest b =
    rw
      (
        uint_be-put_uint32 h.magic b.magic,
        uint_be-put_uint16 h.version b.version,
        uint_be-put_uint32 h.sorted_entry_count b.sorted,
        uint_be-put_uint32 h.unsorted_entry_count b.unsorted,
        take_prefix 8 h.reserved rest (sym b.reserved),
      )
      refl

pub length-encode_file_node_header :
    (h : FileNodeHeader) → length h.reserved ≡ 8 → length (encode_file_node_header h) ≡ header_size
unfolding encode_file_node_header put_uint32
length-encode_file_node_header h e = omega (arith, e)

-- Inversion of a guard that a successful read has passed.
pub guard-passed :
    {A : Type 0} (e : FileError) (b : Bool) (m : Outcome A) (a : A)
    → (guard b e >> m) ≡ ok a
    → (b ≡ true) × (m ≡ ok a)
guard-passed e true m a h = (refl, h)
guard-passed e false m a h = cc

abbrev with_rest : Bytes → Bytes → Outcome (Bytes × Bytes)
with_rest rest s = ok (s, rest)

unpacked :
    (o : Outcome Bytes) (rest more s u : Bytes)
    → (o >>= with_rest rest) ≡ ok (s, u)
    → (o >>= with_rest (rest ++ more)) ≡ ok (s, u ++ more)
unpacked (ok x) rest more s u h = let rs : x ≡ s = cc in let ru : rest ≡ u = cc in rw (rs, ru) refl
unpacked (err e) rest more s u h = cc

-- A guard that passes twice: for the payload, and for the payload with more entries.
stays_aligned :
    (n m e : ℕ)
    → leb e n ≡ true
    → ((n - e) % node_entry_size == 0) ≡ true
    → m % node_entry_size ≡ 0
    → (leb e (n + m) ≡ true) × (((n + m - e) % node_entry_size == 0) ≡ true)
stays_aligned n m e h k a =
    let le = leb→le e n h in
    let z = (==_iff ((n - e) % node_entry_size) 0).0 k in
    (le→leb e (n + m) (omega arith), (==_iff ((n + m - e) % node_entry_size) 0).1 (omega arith))

module _ (Z : Zstd) where
  -- The end of either branch, on the bytes from `e` on.
  abbrev plain_parts : ℕ → Bytes → Outcome (Bytes × Bytes)
  plain_parts e payload = do
    guard (leb e (length payload)) short_payload
    guard ((length payload - e) % node_entry_size == 0) not_aligned
    ok (take e payload, drop e payload)

  abbrev packed_parts : ℕ → ℕ → Bytes → Outcome (Bytes × Bytes)
  packed_parts e expected payload = do
    guard (leb e (length payload)) short_payload
    guard ((length payload - e) % node_entry_size == 0) not_aligned
    sorted ← decompress_metadata_zstd Z (take e payload) expected
    ok (sorted, drop e payload)

  plain_parts-append :
      (e : ℕ) (p more s u : Bytes)
      → plain_parts e p ≡ ok (s, u)
      → length more % node_entry_size ≡ 0
      → plain_parts e (p ++ more) ≡ ok (s, u ++ more)
  plain_parts-append e p more s u h a =
      let (g, h') = guard-passed short_payload (leb e (length p)) _ _ h in
      let (k, r) = guard-passed not_aligned ((length p - e) % node_entry_size == 0) _ _ h' in
      let le = leb→le e (length p) g in
      let q = stays_aligned (length p) (length more) e g k a in
      let rs : take e p ≡ s = cc r in
      let ru : drop e p ≡ u = cc r in
      rw (length-append p more, q.0, q.1, take-append_le e p more le, drop-append_le e p more le)
        (rw (rs, ru) refl)

  packed_parts-append :
      (e x : ℕ) (p more s u : Bytes)
      → packed_parts e x p ≡ ok (s, u)
      → length more % node_entry_size ≡ 0
      → packed_parts e x (p ++ more) ≡ ok (s, u ++ more)
  packed_parts-append e x p more s u h a =
      let (g, h') = guard-passed short_payload (leb e (length p)) _ _ h in
      let (k, r) = guard-passed not_aligned ((length p - e) % node_entry_size == 0) _ _ h' in
      let le = leb→le e (length p) g in
      let q = stays_aligned (length p) (length more) e g k a in
      rw (length-append p more, q.0, q.1, take-append_le e p more le, drop-append_le e p more le)
        (unpacked (decompress_metadata_zstd Z (take e p) x) (drop e p) more s u r)

  parts-eq :
      (h : FileNodeHeader) (p : Bytes)
      → decode_node_file_payload Z h p ≡ (
          if not (sorted_compressed h)
          then plain_parts (h.sorted_entry_count * node_entry_size) p
          else packed_parts (sorted_compressed_size h) (h.sorted_entry_count * node_entry_size) p)
  unfolding decode_node_file_payload
  parts-eq h p = refl

  decode_node_file_payload-append :
      (h : FileNodeHeader) (p more s u : Bytes)
      → decode_node_file_payload Z h p ≡ ok (s, u)
      → length more % node_entry_size ≡ 0
      → decode_node_file_payload Z h (p ++ more) ≡ ok (s, u ++ more)
  decode_node_file_payload-append h p more s u r a =
      let e = h.sorted_entry_count * node_entry_size in
      let start = sym (parts-eq h p) ∙ r in
      parts-eq h (p ++ more) ∙ elim (Bool-cases (sorted_compressed h)) [
        | inl c ↦ rw c (
            packed_parts-append (sorted_compressed_size h) e p more s u
              (subst
                (λ b.
                  (if not b then plain_parts e p else packed_parts (sorted_compressed_size h) e p)
                  ≡ ok (s, u))
                c start)
              a)
        | inr c ↦ rw c (
            plain_parts-append e p more s u
              (subst
                (λ b.
                  (if not b then plain_parts e p else packed_parts (sorted_compressed_size h) e p)
                  ≡ ok (s, u))
                c start)
              a)
      ]

  -- What was appended, a whole number of entries, is read as more unsorted entries.
  pub read_file_node-append :
      (f more s u : Bytes)
      → read_file_node Z f ≡ ok (s, u)
      → length more % node_entry_size ≡ 0
      → (header_size ≤ length f) × (read_file_node Z (f ++ more) ≡ ok (s, u ++ more))
  unfolding read_file_node
  read_file_node-append f more s u r a =
      let (g, r') = guard-passed bad_size (leb header_size (length f)) _ _ r in
      let (m, r'') =
        guard-passed bad_magic ((decode_file_node_header f).magic == file_node_magic) _ _ r' in
      let le = leb→le header_size (length f) g in
      let longer = le→leb header_size (length (f ++ more)) (omega (arith, length-append f more)) in
      (
        le,
        rw
            (
              longer,
              decode_file_node_header-append f more le,
              m,
              drop-append_le header_size f more le,
            )
            (decode_node_file_payload-append (decode_file_node_header f) (drop header_size f) more s
              u r'' a),
      )
