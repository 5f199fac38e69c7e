-- ===== src/BlockLog/Log/Append.antt =====
-- `Append` of a block beyond the latest one, on the abstract view of the log.
use theo_extension.Common.{
  ℕ, ◌+◌, ◌^◌, ◌<◌, ◌≡◌, refl, sym, ap, ◌∙◌, subst, false, none, List, [], ◌∷◌, ◌++◌, arith, length,
  replicate, append_assoc, append-nil,
}
use theo_extension.Common.Bytes.{nat_eq}
use theo_extension.BlockLog.Order.{Pairs, write_pairs, sort_pairs, write_log_entries}
use theo_extension.BlockLog.Order.Decode.{IsWritable}
use theo_extension.BlockLog.Order.Sort.{sort_pairs-IsWritable}
use theo_extension.BlockLog.Skiplist.{SkipList}
use theo_extension.BlockLog.State.{BlockAppendOnlyLog, ok, Method}
use theo_extension.BlockLog.Index.{add64, get_block_index_entry, flush_index_buffer}
use theo_extension.BlockLog.Recent.{ensure_write_tracking_initialized}
use theo_extension.BlockLog.Write.{
  go_on, check_block_id, append_pairs, append_checked, append, fill_gap,
}
use theo_extension.BlockLog.Log.{IsLog}
use theo_extension.BlockLog.Log.Frame.{IsLog-frame, forget-ensure_write_tracking_initialized}
use theo_extension.BlockLog.Log.Flush.{flush-IsPending}
use theo_extension.BlockLog.Log.Grow.{IsNext, IsGrown, IsGrown-frame, grow-IsPending}
use theo_extension.BlockLog.Log.Fill.{continue-ok, IsLog-IsPending}
use theo_extension.BlockLog.Log.Gap.{missing, fill_gap-IsReady}
use theo_extension.BlockLog.Log.Written.{
  get_block_index_entry-beyond, written, written-IsGrown, after_indexing, index_block-write_pairs,
  forget-after_indexing,
}

-- The block that an append writes: none where there are no pairs.
abbrev pub written_block : Pairs → List Pairs
written_block [] = []
written_block (p ∷ kvs) = sort_pairs (p ∷ kvs) ∷ []

module _ (S : SkipList) where
  open S use {T}

  abbrev write_block : ℕ → Pairs → Method T (Unit {0})
  write_block i [] b = (ok tt, b)
  write_block i (p ∷ kvs) b = append_pairs S i (p ∷ kvs) b

  -- The state of `Append` before its last flush.
  abbrev pub before_flush : ℕ → Pairs → BlockAppendOnlyLog T → BlockAppendOnlyLog T
  before_flush i ps b = after_indexing S i b.current_offset ps (written S i (write_pairs i ps) b)

  append_pairs-new :
      (i : ℕ) (kvs : Pairs) (b : BlockAppendOnlyLog T)
      → get_block_index_entry b i ≡ none
      → i < 2 ^ 64
      → IsWritable kvs
      → b.current_offset + length (write_pairs i (sort_pairs kvs)) < 2 ^ 64
      → append_pairs S i kvs b ≡ flush_index_buffer (before_flush i (sort_pairs kvs) b)
  unfolding append_pairs write_log_entries
  append_pairs-new i kvs b e k w fits =
      let ps = sort_pairs kvs in
      let no_wrap : add64 b.current_offset (length (write_pairs i ps))
          ≡ b.current_offset + length (write_pairs i ps) =
        omega arith in
      rw (e, no_wrap)
        (continue-ok _ (
          index_block-write_pairs S i b.current_offset ps (written S i (write_pairs i ps) b) k
            (sort_pairs-IsWritable kvs w)))

  pub append_pairs-IsLog :
      {b : BlockAppendOnlyLog T} {blocks : List Pairs} (i : ℕ) (kvs : Pairs)
      → IsLog b blocks
      → IsNext b.latest_block_id i b.min_block_id
      → b.latest_block_id < i
      → i < 2 ^ 58
      → IsWritable kvs
      → b.current_offset + length (write_pairs i (sort_pairs kvs)) < 2 ^ 63
      → (c : BlockAppendOnlyLog T) × (append_pairs S i kvs b ≡ (ok tt, c))
        × IsLog c (blocks ++ sort_pairs kvs ∷ [])
        × (c.latest_block_id ≡ i)
  append_pairs-IsLog {b} {blocks} i kvs l n h k w fits =
      let ps = sort_pairs kvs in
      let g : IsGrown b i ps (before_flush i ps b) =
        IsGrown-frame
          (forget-after_indexing S i b.current_offset ps (written S i (write_pairs i ps) b))
          (written-IsGrown S i ps b h) in
      let f =
        flush-IsPending
          (grow-IsPending (IsLog-IsPending l) n g (sort_pairs-IsWritable kvs w) k fits) in
      (
        _,
        append_pairs-new i kvs b (get_block_index_entry-beyond l i h k) (omega arith) w
              (omega arith)
            ∙ f.0,
        f.1,
        g.latest,
      )

  check-beyond :
      (i : ℕ) (b : BlockAppendOnlyLog T) → b.latest_block_id < i → check_block_id S i b ≡ go_on
  unfolding check_block_id
  check-beyond i b h = ground arith

  pub append-tracked :
      (i : ℕ) (kvs : Pairs) (b : BlockAppendOnlyLog T)
      → b.closed ≡ false
      → append S i kvs b
        ≡ append_checked S
            (check_block_id S i (ensure_write_tracking_initialized S b))
            i
            kvs
            (ensure_write_tracking_initialized S b)
  unfolding append
  append-tracked i kvs b h = rw h refl

  append_checked-go_on :
      (i : ℕ) (kvs : Pairs) (b c d : BlockAppendOnlyLog T)
      → fill_gap S i b ≡ (ok tt, c)
      → write_block i kvs c ≡ (ok tt, d)
      → append_checked S go_on i kvs b ≡ (ok tt, d)
  unfolding append_checked
  append_checked-go_on i [] b c d e f = continue-ok _ e ∙ f
  append_checked-go_on i (p ∷ kvs) b c d e f = continue-ok _ e ∙ f

  write_block-IsLog :
      {b : BlockAppendOnlyLog T} {blocks : List Pairs} (i : ℕ) (kvs : Pairs)
      → IsLog b blocks
      → IsNext b.latest_block_id i b.min_block_id
      → b.latest_block_id < i
      → i < 2 ^ 58
      → IsWritable kvs
      → b.current_offset + length (write_pairs i (sort_pairs kvs)) < 2 ^ 63
      → (c : BlockAppendOnlyLog T) × (write_block i kvs b ≡ (ok tt, c))
        × IsLog c (blocks ++ written_block kvs)
  write_block-IsLog {b} {blocks} i [] l n h k w fits =
      (b, refl, subst (λ bs. IsLog b bs) (sym (append-nil blocks)) l)
  write_block-IsLog i (p ∷ kvs) l n h k w fits =
      let (c, e, lc, q) = append_pairs-IsLog i (p ∷ kvs) l n h k w fits in (c, e, lc)

  pub append-IsLog :
      {b : BlockAppendOnlyLog T} {blocks : List Pairs} (i : ℕ) (kvs : Pairs)
      → IsLog b blocks
      → b.latest_block_id < i
      → i < 2 ^ 58
      → IsWritable kvs
      → b.current_offset + length (write_pairs i (sort_pairs kvs)) < 2 ^ 63
      → (c : BlockAppendOnlyLog T) × (append S i kvs b ≡ (ok tt, c))
        × IsLog c
            (blocks ++ (replicate (missing b.latest_block_id blocks i) [] ++ written_block kvs))
  append-IsLog {b} {blocks} i kvs l h k w fits =
      let t = ensure_write_tracking_initialized S b in
      let same = forget-ensure_write_tracking_initialized S b in
      let el : t.latest_block_id ≡ b.latest_block_id = ap (λ s. s.latest_block_id) same in
      let eo : t.current_offset ≡ b.current_offset = ap (λ s. s.current_offset) same in
      let (c, e, r) =
        fill_gap-IsReady S blocks (IsLog-frame same l) i (omega arith) (omega (arith, el)) in
      let (d, f, ld) =
        write_block-IsLog i kvs r.log r.next r.beyond k w (omega (arith, r.in_place, eo)) in
      (
        d,
        append-tracked i kvs b l.is_open
            ∙ ap (λ x. append_checked S x i kvs t) (check-beyond i t (omega (arith, el)))
            ∙ append_checked-go_on i kvs t c d e f,
        subst (λ bs. IsLog d bs)
            (append_assoc blocks _ (written_block kvs)
              ∙ ap (λ n. blocks ++ (replicate (missing n blocks i) [] ++ written_block kvs)) el)
            ld,
      )
