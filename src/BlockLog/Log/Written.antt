-- ===== src/BlockLog/Log/Written.antt =====
-- The state that the writing methods leave once the bytes of a new block are in the data file.
use theo_extension.Common.{
  ℕ, zero, suc, ◌+◌, ◌-◌, ◌^◌, ◌≤◌, ◌<◌, ◌≡◌, refl, sym, ap, ◌∙◌, subst, inl, inr, Option, none,
  some, List, [], ◌∷◌, ◌++◌, arith, length, ltb, if◌then◌else◌, Bool-cases, lt→ltb,
}
use theo_extension.Common.Bytes.{Bytes, nat_eq}
use theo_extension.Common.Maps.{contains}
use theo_extension.BlockLog.Order.{Pairs, write_pairs}
use theo_extension.BlockLog.Order.Decode.{IsWritable, entries_of, decode_block-write_pairs}
use theo_extension.BlockLog.Skiplist.{SkipList}
use theo_extension.BlockLog.State.{BlockAppendOnlyLog, ok}
use theo_extension.BlockLog.Index.{get_block_index_entry, write_index_entry, save_index_meta}
use theo_extension.BlockLog.Recent.{or_empty, index_entries, update_recent_blocks}
use theo_extension.BlockLog.Write.{
  index_entry, set_min, set_latest, set_offset, write_data, advance_to, index_block,
}
use theo_extension.BlockLog.Layout.{entry_at}
use theo_extension.BlockLog.Log.{IsLog, Numbered, numbered, unnumbered, get_block_index_entry-eq}
use theo_extension.BlockLog.Log.Frame.{forget, forget-update_recent_blocks, forget-index_entries}
use theo_extension.BlockLog.Log.Grow.{IsGrown, IsGrown-frame}

entry_at-beyond : (i s n : ℕ) (bs : List Pairs) → length bs ≤ n → entry_at i s bs n ≡ none
unfolding entry_at
entry_at-beyond i s n [] h = refl
entry_at-beyond i s zero (ps ∷ bs) h = absurd (omega arith)
entry_at-beyond i s (suc n) (ps ∷ bs) h =
    entry_at-beyond (suc i) (s + length (write_pairs i ps)) n bs (omega arith)

numbers_below :
    {min latest : ℕ} {blocks : List Pairs} (i : ℕ)
    → Numbered min latest blocks
    → latest < i
    → length blocks ≤ i - min
numbers_below i (unnumbered m l) h = omega arith
numbers_below i (numbered ps bs m l) h = omega arith

-- A block beyond the latest one has no entry.
pub get_block_index_entry-beyond :
    {T : Type 0} {b : BlockAppendOnlyLog T} {blocks : List Pairs}
    → IsLog b blocks
    → (i : ℕ) → b.latest_block_id < i
    → i < 2 ^ 58
    → get_block_index_entry b i ≡ none
get_block_index_entry-beyond {b} {blocks} l i h k =
    get_block_index_entry-eq l i k (omega arith) ∙ elim (Bool-cases (ltb i b.min_block_id)) [
      | inl e ↦ rw e refl
      | inr e ↦ rw e (
          entry_at-beyond b.min_block_id 0 (i - b.min_block_id) blocks
            (numbers_below i l.numbers h))
    ]

save_index_meta-IsGrown :
    {T : Type 0} {b c : BlockAppendOnlyLog T} {i : ℕ} {ps : Pairs}
    → IsGrown b i ps c
    → IsGrown b i ps (save_index_meta c)
unfolding save_index_meta
save_index_meta-IsGrown g = record {
  same_closed = g.same_closed;
  same_index = g.same_index;
  same_map = g.same_map;
  file = g.file;
  moved = g.moved;
  queued = g.queued;
  first = g.first;
  latest = g.latest;
}

module _ (S : SkipList) where
  open S use {T}

  -- The state of `Append` before the block is indexed.
  abbrev pub written : ℕ → Bytes → BlockAppendOnlyLog T → BlockAppendOnlyLog T
  written i bytes b =
      let end = b.current_offset + length bytes in
      advance_to S i (
        write_index_entry (index_entry i b.current_offset end)
          (set_offset end (write_data bytes b)))

  abbrev unsaved : ℕ → Bytes → BlockAppendOnlyLog T → BlockAppendOnlyLog T
  unsaved i bytes b =
      let end = b.current_offset + length bytes in
      set_latest i (
        set_min i (
          write_index_entry (index_entry i b.current_offset end)
            (set_offset end (write_data bytes b))))

  unsaved-IsGrown :
      (i : ℕ) (ps : Pairs) (b : BlockAppendOnlyLog T)
      → IsGrown b i ps (unsaved i (write_pairs i ps) b)
  unfolding write_index_entry write_data
  unsaved-IsGrown i ps b = record {
    same_closed = refl;
    same_index = refl;
    same_map = refl;
    file = λ f h.
        ap (λ (o : Option Bytes). elim o [ none ↦ none | some f ↦ some (f ++ write_pairs i ps) ]) h;
    moved = refl;
    queued = refl;
    first = refl;
    latest = refl;
  }

  advance_to-new :
      (i : ℕ) (b : BlockAppendOnlyLog T)
      → b.latest_block_id < i
      → advance_to S i b ≡ save_index_meta (update_recent_blocks S i (set_latest i (set_min i b)))
  unfolding advance_to
  advance_to-new i b h = rw (lt→ltb b.latest_block_id i h)

  pub written-IsGrown :
      (i : ℕ) (ps : Pairs) (b : BlockAppendOnlyLog T)
      → b.latest_block_id < i
      → IsGrown b i ps (written i (write_pairs i ps) b)
  unfolding write_index_entry write_data
  written-IsGrown i ps b h =
      subst (λ c. IsGrown b i ps c) (sym (advance_to-new i _ h))
        (save_index_meta-IsGrown (
          IsGrown-frame {c = unsaved i (write_pairs i ps) b}
            (forget-update_recent_blocks S i (unsaved i (write_pairs i ps) b))
            (unsaved-IsGrown i ps b)))

  -- The state after the bytes of a block are indexed, where the block is tracked.
  abbrev pub after_indexing : ℕ → ℕ → Pairs → BlockAppendOnlyLog T → BlockAppendOnlyLog T
  after_indexing i start ps b =
      if contains i (or_empty b.indexed_blocks)
      then index_entries S start (entries_of i ps) b
      else b

  pub index_block-write_pairs :
      (i start : ℕ) (ps : Pairs) (b : BlockAppendOnlyLog T)
      → i < 2 ^ 64
      → IsWritable ps
      → index_block S i start (write_pairs i ps) b ≡ (ok tt, after_indexing i start ps b)
  unfolding index_block
  index_block-write_pairs i start ps b h w =
      let e = decode_block-write_pairs (length (write_pairs i ps)) i ps h w (omega arith) in
      elim (Bool-cases (contains i (or_empty b.indexed_blocks))) [
        | inl t ↦ rw (t, e) refl
        | inr t ↦ rw t refl
      ]

  pub forget-after_indexing :
      (i start : ℕ) (ps : Pairs) (b : BlockAppendOnlyLog T)
      → forget (after_indexing i start ps b) ≡ forget b
  forget-after_indexing i start ps b = elim (Bool-cases (contains i (or_empty b.indexed_blocks))) [
    | inl t ↦ rw t (forget-index_entries S start (entries_of i ps) b)
    | inr t ↦ rw t refl
  ]
