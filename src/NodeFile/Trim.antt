-- ===== src/NodeFile/Trim.antt =====
-- Trimming a node file back to its newest commit tag, after a crash.
use theo_extension.Common.{
  ℕ, zero, suc, ◌+◌, ◌-◌, ◌*◌, ◌/◌, ◌^◌, ◌≤◌, ◌<◌, ◌≡◌, refl, sym, ap, ◌∙◌, subst, true, false,
  some, List, [], ◌∷◌, ◌++◌, ◌==◌, arith, leb, lt→ltb, ge→ltb, leb→le, length, take, drop,
  length-append, take_prefix, drop_prefix, take_everything, append_assoc, Bool-cases, inl, inr, All,
  is_some,
}
use theo_extension.Common.Bytes.{Bytes}
use theo_extension.NodeFile.Entry.{
  NodeInfo, node_entry_size, encode_node_entry, encode_node_entries, node_commit_tag,
  node_commit_tag_block_id,
}
use theo_extension.NodeFile.Entry.RoundTrip.{
  length-encode_node_entry, length-node_commit_tag, node_commit_tag_block_id-node_commit_tag,
  encode_node_entry-not_tag,
}
use theo_extension.NodeFile.Slices.{encode_node_entries-append, length-encode_node_entries}
use theo_extension.NodeFile.Find.{split}
use theo_extension.NodeFile.Header.{
  header_size, file_node_magic, decode_file_node_header, sorted_compressed_size,
}
use theo_extension.NodeFile.Reading.{decode_file_node_header-append}
use theo_extension.NodeFile.File.{last_tag_end, find_last_node_commit_tag_end, trim_node_file}

at_position :
    (pos : ℕ) (front e rest : Bytes)
    → pos ≡ length front
    → length e ≡ node_entry_size
    → take node_entry_size (drop pos (front ++ (e ++ rest))) ≡ e
at_position pos front e rest p l =
    ap (take node_entry_size) (drop_prefix pos front (e ++ rest) p)
    ∙ take_prefix node_entry_size e rest (sym l)

named_at :
    (ns : List NodeInfo) (m : NodeInfo) (ms : List NodeInfo)
    → All (λ n. 0 < length n.key) (ns ++ m ∷ ms)
    → 0 < length m.key
named_at [] m ms a = a.0
named_at (n ∷ ns) m ms a = named_at ns m ms a.1

tag_here :
    (k start : ℕ) (f : Bytes)
    → is_some
        (node_commit_tag_block_id (take node_entry_size (drop (start + k * node_entry_size) f)))
      ≡ true
    → last_tag_end (suc k) start f ≡ some (start + suc k * node_entry_size)
unfolding last_tag_end
tag_here k start f h =
    let at : start + suc k * node_entry_size - node_entry_size ≡ start + k * node_entry_size =
      omega arith in
    rw (at, h) refl

no_tag_here :
    (k start : ℕ) (f : Bytes)
    → is_some
        (node_commit_tag_block_id (take node_entry_size (drop (start + k * node_entry_size) f)))
      ≡ false
    → last_tag_end (suc k) start f ≡ last_tag_end k start f
unfolding last_tag_end
no_tag_here k start f h =
    let at : start + suc k * node_entry_size - node_entry_size ≡ start + k * node_entry_size =
      omega arith in
    rw (at, h) refl

module _ (kept : Bytes) (i : ℕ) (lost : List NodeInfo) (torn : Bytes) (start k : ℕ)
    (at : length kept ≡ start + k * node_entry_size) (numbered : 0 < i) (small : i < 2 ^ 64)
    (named : All (λ n. 0 < length n.key) lost) where
  abbrev crashed : Bytes
  crashed = kept ++ (node_commit_tag i ++ (encode_node_entries lost ++ torn))

  tag_read : last_tag_end (suc k) start crashed ≡ some (start + suc k * node_entry_size)
  tag_read = tag_here k start crashed (
      ap (λ e. is_some (node_commit_tag_block_id e))
        (at_position (start + k * node_entry_size) kept (node_commit_tag i)
          (encode_node_entries lost ++ torn) (sym at) (length-node_commit_tag i))
      ∙ ap is_some (node_commit_tag_block_id-node_commit_tag i numbered small))

  lost_read :
      (j : ℕ)
      → j < length lost
      → is_some (
          node_commit_tag_block_id
            (take node_entry_size (drop (start + (suc k + j) * node_entry_size) crashed)))
        ≡ false
  unfolding encode_node_entries
  lost_read j h =
      let r = split j lost h in
      let m = encode_node_entry r.middle in
      let ahead = kept ++ (node_commit_tag i ++ encode_node_entries r.front) in
      let behind = encode_node_entries r.back ++ torn in
      let cut : crashed ≡ ahead ++ (m ++ behind) =
        ap (λ t. kept ++ (node_commit_tag i ++ (t ++ torn)))
          (ap encode_node_entries r.whole ∙ encode_node_entries-append r.front (r.middle ∷ r.back))
        ∙ simp append_assoc in
      ap
        (λ t. is_some (
          node_commit_tag_block_id
            (take node_entry_size (drop (start + (suc k + j) * node_entry_size) t))))
        cut
      ∙ ap (λ e. is_some (node_commit_tag_block_id e))
          (at_position (start + (suc k + j) * node_entry_size) ahead m behind
            (omega (
              arith,
              at,
              r.at,
              length-append kept (node_commit_tag i ++ encode_node_entries r.front),
              length-append (node_commit_tag i) (encode_node_entries r.front),
              length-node_commit_tag i,
              length-encode_node_entries r.front,
            ))
            (length-encode_node_entry r.middle))
      ∙ encode_node_entry-not_tag r.middle (
          named_at r.front r.middle r.back
            (subst (λ ns. All (λ n. 0 < length n.key) ns) r.whole named))

  last_tag_end-crashed :
      (j : ℕ)
      → j ≤ length lost
      → last_tag_end (suc k + j) start crashed ≡ some (start + suc k * node_entry_size)
  last_tag_end-crashed zero h = ap (λ c. last_tag_end c start crashed) (omega arith) ∙ tag_read
  last_tag_end-crashed (suc j) h =
      ap (λ c. last_tag_end c start crashed) (omega arith)
      ∙ no_tag_here (suc k + j) start crashed (lost_read j (omega arith))
      ∙ last_tag_end-crashed j (omega arith)

  length-crashed :
      length crashed
      ≡ start + k * node_entry_size + node_entry_size + length lost * node_entry_size + length torn
  length-crashed = omega (
    arith,
    at,
    length-append kept (node_commit_tag i ++ (encode_node_entries lost ++ torn)),
    length-append (node_commit_tag i) (encode_node_entries lost ++ torn),
    length-append (encode_node_entries lost) torn,
    length-node_commit_tag i,
    length-encode_node_entries lost,
  )

  found-crashed :
      (((decode_file_node_header crashed).magic == file_node_magic) ≡ true)
      → start ≡ header_size + sorted_compressed_size (decode_file_node_header crashed)
      → length torn < node_entry_size
      → find_last_node_commit_tag_end crashed ≡ some (start + suc k * node_entry_size)
  unfolding find_last_node_commit_tag_end
  found-crashed magic begin short =
      let count : (length crashed - start) / node_entry_size ≡ suc k + length lost =
        omega (arith, length-crashed) in
      rw
        (
          lt→ltb header_size (length crashed) (omega (arith, length-crashed)),
          magic,
          sym begin,
          ge→ltb (length crashed) start (omega (arith, length-crashed)),
          count,
        )
        (last_tag_end-crashed (length lost) (omega arith))

  -- A file that ends with entries or a torn one behind its newest commit tag, that of block `i`:
  -- trimming cuts it right behind the tag, so that every byte up to the tag is kept and everything
  -- behind it is gone. The header in `kept` is that of a node file, `k` entries or tags stand between
  -- its sorted part and the tag, the entries lost have keys, and what is torn is shorter than an
  -- entry.
  pub trim_node_file-crashed :
      header_size ≤ length kept
      → ((decode_file_node_header kept).magic == file_node_magic) ≡ true
      → start ≡ header_size + sorted_compressed_size (decode_file_node_header kept)
      → length torn < node_entry_size
      → trim_node_file crashed ≡ kept ++ node_commit_tag i
  unfolding trim_node_file
  trim_node_file-crashed long magic begin short =
      let rest = encode_node_entries lost ++ torn in
      let head = decode_file_node_header-append kept (node_commit_tag i ++ rest) long in
      let end = start + suc k * node_entry_size in
      let found =
        found-crashed (ap (λ h. h.magic == file_node_magic) head ∙ magic)
          (begin ∙ ap (λ h. header_size + sorted_compressed_size h) (sym head)) short in
      let cut : take end crashed ≡ kept ++ node_commit_tag i =
        ap (take end) (sym (append_assoc kept (node_commit_tag i) rest))
        ∙ take_prefix end (kept ++ node_commit_tag i) rest
            (omega (arith, at, length-append kept (node_commit_tag i), length-node_commit_tag i)) in
      rw found (elim (Bool-cases (leb (length crashed) end)) [
        | inl e ↦ rw e (sym (take_everything end crashed (leb→le (length crashed) end e)) ∙ cut)
        | inr e ↦ rw e cut
      ])
