-- ===== src/BlockLog/Log/Fresh.antt =====
-- Reading a pair that `AppendToNewBlock` has just written.
use theo_extension.Common.{
  ℕ, ◌+◌, ◌^◌, ◌<◌, ◌≡◌, refl, sym, ap, ◌∙◌, subst, inl, inr, true, false, some, List, [], ◌∷◌,
  ◌++◌, arith, length, length-append, append_assoc, if◌then◌else◌, Bool-cases, All,
}
use theo_extension.Common.Bytes.{Bytes, bytes_beq, bytes_beq_iff, bytes_eq, nat_eq}
use theo_extension.Common.Maps.{lookup, contains}
use theo_extension.BlockLog.Entry.{KvPointer, header_size, write_log_entry}
use theo_extension.BlockLog.Entry.RoundTrip.{length-write_log_entry}
use theo_extension.BlockLog.Order.{Pairs, write_pairs, sort_pairs}
use theo_extension.BlockLog.Order.Decode.{IsWritable, entries_of}
use theo_extension.BlockLog.Order.Sort.{
  HasUniqueKeys, lookup-sort_pairs, sort_pairs-HasUniqueKeys, sort_pairs-IsWritable,
}
use theo_extension.BlockLog.Skiplist.{SkipList}
use theo_extension.BlockLog.State.{BlockAppendOnlyLog, ok}
use theo_extension.BlockLog.Index.{write_index_entry, save_index_meta}
use theo_extension.BlockLog.Recent.{
  or_empty, build_kv_pointer_for_skiplist, index_entries, update_recent_blocks,
  ensure_write_tracking_initialized,
}
use theo_extension.BlockLog.Recent.Lookup.{
  last_pointer, first_pair, later_pair, get-index_entries, Place-of,
}
use theo_extension.BlockLog.Recent.Window.{update_recent_blocks-tracked}
use theo_extension.BlockLog.Write.{write_data, append_new_block, append_to_new_block}
use theo_extension.BlockLog.Read.{get_value, read_value_bytes, shown}
use theo_extension.BlockLog.Read.Values.{read_value_bytes-build}
use theo_extension.BlockLog.Layout.{data_of}
use theo_extension.BlockLog.Log.{IsLog}
use theo_extension.BlockLog.Log.Frame.{
  forget, IsLog-frame, forget-update_recent_blocks, forget-ensure_write_tracking_initialized,
}
use theo_extension.BlockLog.Log.Flush.{after_flush, flush-IsPending}
use theo_extension.BlockLog.Log.Grow.{grow-IsPending}
use theo_extension.BlockLog.Log.Fill.{IsLog-IsPending}
use theo_extension.BlockLog.Log.Written.{forget-after_indexing}
use theo_extension.BlockLog.Log.NewBlock.{
  unflushed, unflushed-IsGrown, finished, append_new_block-flushed, next_block_id-eq, to_new_block,
}

lookup-short :
    (key value : Bytes) (ps : Pairs)
    → IsWritable ps
    → lookup key ps ≡ some value
    → (length key < 2 ^ 32) × (length value < 2 ^ 32)
unfolding lookup
lookup-short key value [] w h = cc
lookup-short key value ((k, v) ∷ ps) w h = elim (Bool-cases (bytes_beq k key)) [
  | inl e ↦ (
    subst (λ j. length j < 2 ^ 32) ((bytes_beq_iff k key).0 e) w.0.0,
    subst (λ x. length x < 2 ^ 32) (first_pair key k v value ps e h) w.0.1,
  )
  | inr e ↦ lookup-short key value ps w.1 (later_pair key k v value ps e h)
]

module _ (S : SkipList) where
  open S use {T, get}

  hit :
      (b : BlockAppendOnlyLog T) (key value : Bytes) (p : KvPointer)
      → b.closed ≡ false
      → get key b.skiplist_index ≡ some p
      → read_value_bytes b p ≡ some value
      → get_value S b key ≡ ok (shown value)
  unfolding get_value
  hit b key value p c g r = rw (g, r, c) refl

  -- The block is tracked, so its pairs are indexed.
  finished-get :
      (i start : ℕ) (ps : Pairs) (key : Bytes) (b : BlockAppendOnlyLog T)
      → 0 < b.recent_n
      → All (λ j. j < i) (or_empty b.recent_blocks)
      → get key (finished S i start ps b).skiplist_index
        ≡ last_pointer key start
            (entries_of i ps)
            (get key (update_recent_blocks S i (save_index_meta b)).skiplist_index)
  unfolding save_index_meta
  finished-get i start ps key b p a =
      let x = update_recent_blocks S i (save_index_meta b) in
      let t : contains i (or_empty x.indexed_blocks) ≡ true =
        update_recent_blocks-tracked S i (save_index_meta b) p a in
      ap (λ c. get key (if c then index_entries S start (entries_of i ps) x else x).skiplist_index)
        t
      ∙ get-index_entries S key start (entries_of i ps) x

  -- The state `c` after the flush, with the bytes of the block at the end of its data file.
  finished-read :
      (i start : ℕ) (ps : Pairs) (c : BlockAppendOnlyLog T) (front : Bytes) (key value : Bytes)
      → c.closed ≡ false
      → c.data_file ≡ some (front ++ write_pairs i ps)
      → start ≡ length front
      → start + length (write_pairs i ps) < 2 ^ 63
      → 0 < c.recent_n
      → All (λ j. j < i) (or_empty c.recent_blocks)
      → IsWritable ps
      → HasUniqueKeys ps
      → lookup key ps ≡ some value
      → get_value S (finished S i start ps c) key ≡ ok (shown value)
  unfolding save_index_meta
  finished-read i start ps c front key value opened file at fits p a w u h =
      let x = update_recent_blocks S i (save_index_meta c) in
      let d = finished S i start ps c in
      let same : forget d ≡ forget (save_index_meta c) =
        forget-after_indexing S i start ps x
        ∙ forget-update_recent_blocks S i (save_index_meta c) in
      let r = Place-of key value start i ps (get key x.skiplist_index) u h (omega arith) in
      let short = lookup-short key value ps w h in
      let tail = r.before ++ (write_log_entry i key value ++ r.behind) in
      let whole : length (write_pairs i ps)
          ≡ length r.before + (header_size + length key + length value + length r.behind) =
        omega (
          arith,
          ap length r.split,
          length-append r.before (write_log_entry i key value ++ r.behind),
          length-append (write_log_entry i key value) r.behind,
          length-write_log_entry i key value,
        ) in
      hit d key value (build_kv_pointer_for_skiplist i (start + length r.before) key value)
        (ap (λ s. s.closed) same ∙ opened) (finished-get i start ps key c p a ∙ r.points)
        (read_value_bytes-build d (front ++ r.before) key value r.behind i (start + length r.before)
          (ap (λ s. s.data_file) same
            ∙ file
            ∙ ap (λ t. some (front ++ t)) r.split
            ∙ ap (λ t. some t)
                (sym (append_assoc front r.before (write_log_entry i key value ++ r.behind))))
          (omega (arith, length-append front r.before)) short.0 short.1 (omega (arith, whole)))

  -- On a log that holds `blocks` and tracks only blocks up to the latest one, a key of pairs that
  -- `AppendToNewBlock` has written reads back as its value, and a tombstone as the empty value of a
  -- key that is there. The pairs have no key twice, `recentN` is above 0, and the bounds are those
  -- of the append.
  pub get_value-append_to_new_block :
      {b : BlockAppendOnlyLog T} {blocks : List Pairs} (p : Bytes × Bytes) (kvs : Pairs)
      (key value : Bytes)
      → IsLog b blocks
      → b.latest_block_id + 1 < 2 ^ 58
      → IsWritable (p ∷ kvs)
      → b.current_offset + length (write_pairs (b.latest_block_id + 1) (sort_pairs (p ∷ kvs)))
        < 2 ^ 63
      → 0 < b.recent_n
      → All
          (λ j. j < b.latest_block_id + 1)
          (or_empty (ensure_write_tracking_initialized S b).recent_blocks)
      → HasUniqueKeys (p ∷ kvs)
      → lookup key (p ∷ kvs) ≡ some value
      → get_value S (append_to_new_block S (p ∷ kvs) b).1 key ≡ ok (shown value)
  unfolding write_data write_index_entry
  get_value-append_to_new_block {b} {blocks} p kvs key value l k w fits n tracked u h =
      let t = ensure_write_tracking_initialized S b in
      let same = forget-ensure_write_tracking_initialized S b in
      let i = b.latest_block_id + 1 in
      let ps = sort_pairs (p ∷ kvs) in
      let el : t.latest_block_id ≡ b.latest_block_id = ap (λ s. s.latest_block_id) same in
      let eo : t.current_offset ≡ b.current_offset = ap (λ s. s.current_offset) same in
      let en : t.recent_n ≡ b.recent_n = ap (λ s. s.recent_n) same in
      let lt : IsLog t blocks = IsLog-frame same l in
      let fits' : t.current_offset + length (write_pairs i ps) < 2 ^ 63 =
        subst (λ o. o + length (write_pairs i ps) < 2 ^ 63) (sym eo) fits in
      let wp = sort_pairs-IsWritable (p ∷ kvs) w in
      let g = unflushed-IsGrown S i ps t in
      let f = flush-IsPending (
        grow-IsPending (IsLog-IsPending lt) (omega arith, inr (ap (λ j. j + 1) (sym el))) g wp k
          fits') in
      let final =
        to_new_block S p kvs b l.is_open
        ∙ ap (λ j. append_new_block S j (p ∷ kvs) t) (next_block_id-eq S lt ∙ ap (λ j. j + 1) el)
        ∙ append_new_block-flushed S i (p ∷ kvs) t _ (omega arith) w (omega arith) f.0 in
      ap (λ r. get_value S r.1 key) final
      ∙ finished-read i t.current_offset ps (after_flush (unflushed S i (write_pairs i ps) t) _)
          (data_of t.min_block_id blocks) key value lt.is_open
          (g.file (data_of t.min_block_id blocks) lt.stored) lt.offset fits' (omega (arith, en))
          tracked wp (sort_pairs-HasUniqueKeys (p ∷ kvs) u) (lookup-sort_pairs key (p ∷ kvs) ∙ h)
