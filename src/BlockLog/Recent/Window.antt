-- ===== src/BlockLog/Recent/Window.antt =====
-- The window of the recent blocks: it does not outgrow `recentN`, and the block that is added is
-- tracked.
use theo_extension.Common.{
  ℕ, suc, ◌≤◌, ◌<◌, ◌≡◌, refl, ◌∙◌, true, false, List, [], ◌∷◌, ◌++◌, ◌==◌, arith, length,
  length-append, ltb, Bool-cases, inl, inr, All, ==-refl,
}
use theo_extension.Common.Bytes.{nat_eq}
use theo_extension.Common.Maps.{contains, add, contains-add, contains-discard}
use theo_extension.BlockLog.Skiplist.{SkipList}
use theo_extension.BlockLog.State.{BlockAppendOnlyLog}
use theo_extension.BlockLog.Recent.{
  or_empty, evict_old_block_from_skiplist, trim_recent, update_recent_blocks,
}

module _ (S : SkipList) where
  open S use {T}

  length-trim_recent :
      (ids indexed : List ℕ) (b : BlockAppendOnlyLog T)
      → length ids ≤ suc b.recent_n
      → length (or_empty (trim_recent S ids indexed b).recent_blocks) ≤ b.recent_n
  unfolding trim_recent evict_old_block_from_skiplist
  length-trim_recent [] indexed b h = omega arith
  length-trim_recent (i ∷ ids) indexed b h = elim (Bool-cases (ltb b.recent_n (length (i ∷ ids)))) [
    | inl e ↦ rw e (omega arith)
    | inr e ↦ rw e (ground arith)
  ]

  recent_n-trim_recent :
      (ids indexed : List ℕ) (b : BlockAppendOnlyLog T)
      → (trim_recent S ids indexed b).recent_n ≡ b.recent_n
  unfolding trim_recent evict_old_block_from_skiplist
  recent_n-trim_recent [] indexed b = refl
  recent_n-trim_recent (i ∷ ids) indexed b = elim (Bool-cases (ltb b.recent_n (length (i ∷ ids)))) [
    | inl e ↦ rw e refl
    | inr e ↦ rw e refl
  ]

  pub recent_n-update_recent_blocks :
      (i : ℕ) (b : BlockAppendOnlyLog T) → (update_recent_blocks S i b).recent_n ≡ b.recent_n
  unfolding update_recent_blocks
  recent_n-update_recent_blocks i b = recent_n-trim_recent _ _ _

  -- If at most `recentN` blocks are tracked, then at most `recentN` are after another is added.
  pub length-update_recent_blocks :
      (i : ℕ) (b : BlockAppendOnlyLog T)
      → length (or_empty b.recent_blocks) ≤ b.recent_n
      → length (or_empty (update_recent_blocks S i b).recent_blocks) ≤ b.recent_n
  unfolding update_recent_blocks
  length-update_recent_blocks i b h =
      length-trim_recent (or_empty b.recent_blocks ++ i ∷ []) _ _
        (omega (arith, length-append (or_empty b.recent_blocks) (i ∷ [])))

  trim-tracked :
      (ids indexed : List ℕ) (i : ℕ) (b : BlockAppendOnlyLog T)
      → 0 < b.recent_n
      → All (λ j. j < i) ids
      → contains i indexed ≡ true
      → contains i (or_empty (trim_recent S (ids ++ i ∷ []) indexed b).indexed_blocks) ≡ true
  unfolding trim_recent evict_old_block_from_skiplist
  trim-tracked [] indexed i b p a c = elim (Bool-cases (ltb b.recent_n 1)) [
    | inl e ↦ absurd (ground arith)
    | inr e ↦ rw e c
  ]
  trim-tracked (j ∷ ids) indexed i b p a c =
      elim (Bool-cases (ltb b.recent_n (length (j ∷ (ids ++ i ∷ []))))) [
        | inl e ↦
            let ne : (j == i) ≡ false = ground (arith, a.0) in
            rw e (contains-discard j i indexed ∙ rw (ne, c) refl)
        | inr e ↦ rw e c
      ]

  pub update_recent_blocks-tracked :
      (i : ℕ) (b : BlockAppendOnlyLog T)
      → 0 < b.recent_n
      → All (λ j. j < i) (or_empty b.recent_blocks)
      → contains i (or_empty (update_recent_blocks S i b).indexed_blocks) ≡ true
  unfolding update_recent_blocks
  update_recent_blocks-tracked i b p a =
      trim-tracked (or_empty b.recent_blocks) (add i (or_empty b.indexed_blocks)) i _ p a
        (contains-add i i (or_empty b.indexed_blocks) ∙ rw (==-refl i) refl)
