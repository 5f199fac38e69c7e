-- ===== src/BlockLog/Log/Gap.antt =====
-- The gap that `Append` fills before the block it writes.
use theo_extension.Common.{
  ℕ, ◌+◌, ◌-◌, ◌^◌, ◌≤◌, ◌<◌, ◌≡◌, refl, sym, ◌∙◌, subst, inl, inr, true, false, List, [], ◌∷◌,
  ◌++◌, ◌&&◌, not, arith, replicate, append-nil, ltb, Bool-cases, ltb→lt,
}
use theo_extension.Common.Bytes.{nat_eq}
use theo_extension.BlockLog.Order.{Pairs}
use theo_extension.BlockLog.Skiplist.{SkipList}
use theo_extension.BlockLog.State.{BlockAppendOnlyLog, ok}
use theo_extension.BlockLog.Index.{add64}
use theo_extension.BlockLog.Write.{fill_missing_blocks_until, fill_gap, is_first_append}
use theo_extension.BlockLog.Layout.{data_of}
use theo_extension.BlockLog.Log.{IsLog, numbered, unnumbered}
use theo_extension.BlockLog.Log.Grow.{IsNext}
use theo_extension.BlockLog.Log.Fill.{fill_missing_blocks_until-IsLog}

-- The blocks that are missing before block `i`: none before the first block of an empty log.
abbrev pub missing : ℕ → List Pairs → ℕ → ℕ
missing latest [] i = 0
missing latest (ps ∷ blocks) i = i - (latest + 1)

-- The state after the gap before block `i` is filled.
pub record IsReady {T : Type 0} (b : BlockAppendOnlyLog T) (i : ℕ) (blocks : List Pairs)
    (c : BlockAppendOnlyLog T) : Type 0 where
  pub log : IsLog c (blocks ++ replicate (missing b.latest_block_id blocks i) [])
  pub next : IsNext c.latest_block_id i c.min_block_id
  pub beyond : c.latest_block_id < i
  pub in_place : c.current_offset ≡ b.current_offset

module _ (S : SkipList) where
  open S use {T}

  no_gap :
      (b : BlockAppendOnlyLog T) (i : ℕ)
      → (not (is_first_append S b) && ltb (add64 b.latest_block_id 1) i) ≡ false
      → fill_gap S i b ≡ (ok tt, b)
  unfolding fill_gap
  no_gap b i h = rw h

  a_gap :
      (b : BlockAppendOnlyLog T) (i : ℕ)
      → (not (is_first_append S b) && ltb (add64 b.latest_block_id 1) i) ≡ true
      → fill_gap S i b ≡ fill_missing_blocks_until S i b
  unfolding fill_gap
  a_gap b i h = rw h

  more_blocks :
      {b : BlockAppendOnlyLog T} (ps : Pairs) (blocks : List Pairs)
      → IsLog b (ps ∷ blocks)
      → (i : ℕ) → i ≤ 2 ^ 58
      → b.latest_block_id < i
      → 0 < b.latest_block_id
      → (c : BlockAppendOnlyLog T) × (fill_gap S i b ≡ (ok tt, c)) × IsReady b i (ps ∷ blocks) c
  more_blocks {b} ps blocks l i k h z = elim (Bool-cases (ltb (b.latest_block_id + 1) i)) [
    | inl w ↦
        let (c, e, lc, n, o) = fill_missing_blocks_until-IsLog S l i k (ltb→lt _ _ w) in
        (
          c,
          a_gap b i (ground (arith, l.small_ids)) ∙ e,
          record {
            log = lc;
            next = (omega arith, inr (sym n));
            beyond = omega arith;
            in_place = o;
          },
        )
    | inr w ↦
        let n : i ≡ b.latest_block_id + 1 = ground arith in
        (
          b,
          no_gap b i (ground (arith, l.small_ids)),
          record {
            log =
                subst (λ bs. IsLog b bs)
                  (sym (
                    let g : i - (b.latest_block_id + 1) ≡ 0 = omega arith in
                    rw g (append-nil (ps ∷ blocks))))
                  l;
            next = (omega arith, inr n);
            beyond = h;
            in_place = refl;
          },
        )
  ]

  pub fill_gap-IsReady :
      {b : BlockAppendOnlyLog T} (blocks : List Pairs)
      → IsLog b blocks
      → (i : ℕ) → i ≤ 2 ^ 58
      → b.latest_block_id < i
      → (c : BlockAppendOnlyLog T) × (fill_gap S i b ≡ (ok tt, c)) × IsReady b i blocks c
  unfolding data_of
  fill_gap-IsReady {b} [] l i k h = elim l.numbers [
    | unnumbered m n ↦ (
      b,
      no_gap b i (ground (arith, n, l.offset)),
      record { log = l; next = (omega arith, inl m); beyond = h; in_place = refl },
    )
  ]
  fill_gap-IsReady {b} (ps ∷ blocks) l i k h = elim l.numbers [
    | numbered ps bs m n ↦ more_blocks ps bs l i k h (omega arith)
  ]
