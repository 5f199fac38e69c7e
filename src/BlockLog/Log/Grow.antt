-- ===== src/BlockLog/Log/Grow.antt =====
-- What adding a block at the end of a log does to the abstract view, whichever method adds it.
use mathlib.Core.Path.{subst₂, ap₂}
use theo_extension.Common.{
  ℕ, suc, ◌+◌, ◌^◌, ◌<◌, ◌≡◌, refl, sym, ap, ◌∙◌, subst, ◌⊎◌, inl, inr, false, none, some, List, [],
  ◌∷◌, ◌++◌, ◌==◌, arith, length, length-append, append_assoc, append-nil, if◌then◌else◌, All,
}
use theo_extension.Common.Bytes.{Bytes, nat_eq}
use theo_extension.BlockLog.Order.{Pairs, write_pairs}
use theo_extension.BlockLog.Order.Decode.{IsWritable}
use theo_extension.BlockLog.State.{BlockAppendOnlyLog}
use theo_extension.BlockLog.Write.{index_entry}
use theo_extension.BlockLog.Layout.{data_of, entry_of, index_of, data_of-append}
use theo_extension.BlockLog.Log.{Numbered, numbered, unnumbered}
use theo_extension.BlockLog.Log.Frame.{forget}
use theo_extension.BlockLog.Log.Flush.{IsPending, buffer_of}

-- A state whose blocks are to be numbered from `m` on.
pub record IsHeld {T : Type 0} (b : BlockAppendOnlyLog T) (m : ℕ) (done pending : List Pairs)
    : Type 0 where
  pub is_open : b.closed ≡ false
  pub released : b.block_index ≡ none
  pub buffered : b.index_buffer ≡ buffer_of (m + length done) (length (data_of m done)) pending
  pub stored : b.data_file ≡ some (data_of m (done ++ pending))
  pub offset : b.current_offset ≡ length (data_of m (done ++ pending))
  pub indexed : b.index_map_file ≡ some (index_of m 0 done)
  pub writable : All IsWritable (done ++ pending)
  pub positive : 0 < m

-- The number of the first block when `i` is added.
abbrev pub first_id : {T : Type 0} → ℕ → BlockAppendOnlyLog T → ℕ
first_id i b = if b.min_block_id == 0 then i else b.min_block_id

-- The block that may be added next: any but 0 in an empty log, the next one in another.
abbrev pub IsNext : ℕ → ℕ → ℕ → Type 0
IsNext latest i min = (0 < i) × ((min ≡ 0) ⊎ (i ≡ latest + 1))

IsHeld-any :
    {T : Type 0} {b : BlockAppendOnlyLog T} (done pending : List Pairs) (m : ℕ)
    → 0 < m
    → done ++ pending ≡ []
    → IsPending b done pending
    → IsHeld b m done pending
unfolding data_of index_of buffer_of
IsHeld-any [] [] m h e p = record {
  is_open = p.is_open;
  released = p.released;
  buffered = p.buffered;
  stored = p.stored;
  offset = p.offset;
  indexed = p.indexed;
  writable = p.writable;
  positive = h;
}
IsHeld-any [] (x ∷ pending) m h e p = cc
IsHeld-any (x ∷ done) pending m h e p = cc

Numbered-cases :
    {min latest : ℕ} {blocks : List Pairs}
    → Numbered min latest blocks
    → ((blocks ≡ []) × (min ≡ 0)) ⊎ ((0 < min) × (latest + 1 ≡ min + length blocks))
Numbered-cases (unnumbered m l) = inl (refl, m)
Numbered-cases (numbered ps bs m l) = inr (m, omega arith)

pub held :
    {T : Type 0} {b : BlockAppendOnlyLog T} {done pending : List Pairs} (i : ℕ)
    → IsPending b done pending
    → IsNext b.latest_block_id i b.min_block_id
    → IsHeld b (first_id i b) done pending × (i ≡ first_id i b + length (done ++ pending))
held {b} {done} {pending} i p h = elim (Numbered-cases p.numbers) [
  | inl (e, m) ↦
      let f : first_id i b ≡ i = ground arith in
      (
        subst (λ m. IsHeld b m done pending) (sym f) (IsHeld-any done pending i h.0 e p),
        omega (arith, f, ap length e),
      )
  | inr (m, l) ↦
      let f : first_id i b ≡ b.min_block_id = ground arith in
      (
        subst (λ m. IsHeld b m done pending) (sym f)
            (record {
              is_open = p.is_open;
              released = p.released;
              buffered = p.buffered;
              stored = p.stored;
              offset = p.offset;
              indexed = p.indexed;
              writable = p.writable;
              positive = m;
            }),
        next_of f l (h.1) m,
      )
]
  where
    next_of :
        first_id i b ≡ b.min_block_id
        → b.latest_block_id + 1 ≡ b.min_block_id + length (done ++ pending)
        → (b.min_block_id ≡ 0) ⊎ (i ≡ b.latest_block_id + 1)
        → 0 < b.min_block_id
        → i ≡ first_id i b + length (done ++ pending)
    next_of f l (inl z) m = absurd (omega arith)
    next_of f l (inr n) m = omega arith

-- The state `c` has one more block than `b`: block `i`, with the pairs `ps` in the order written.
pub record IsGrown {T : Type 0} (b : BlockAppendOnlyLog T) (i : ℕ) (ps : Pairs)
    (c : BlockAppendOnlyLog T) : Type 0 where
  pub same_closed : c.closed ≡ b.closed
  pub same_index : c.block_index ≡ b.block_index
  pub same_map : c.index_map_file ≡ b.index_map_file
  pub file : (f : Bytes) → b.data_file ≡ some f → c.data_file ≡ some (f ++ write_pairs i ps)
  pub moved : c.current_offset ≡ b.current_offset + length (write_pairs i ps)
  pub queued :
      c.index_buffer
      ≡ b.index_buffer
        ++ index_entry i b.current_offset (b.current_offset + length (write_pairs i ps)) ∷ []
  pub first : c.min_block_id ≡ first_id i b
  pub latest : c.latest_block_id ≡ i

pub IsGrown-frame :
    {T : Type 0} {b c d : BlockAppendOnlyLog T} {i : ℕ} {ps : Pairs}
    → forget d ≡ forget c
    → IsGrown b i ps c
    → IsGrown b i ps d
IsGrown-frame e g = record {
  same_closed = ap (λ s. s.closed) e ∙ g.same_closed;
  same_index = ap (λ s. s.block_index) e ∙ g.same_index;
  same_map = ap (λ s. s.index_map_file) e ∙ g.same_map;
  file = λ f h. ap (λ s. s.data_file) e ∙ g.file f h;
  moved = ap (λ s. s.current_offset) e ∙ g.moved;
  queued = ap (λ s. s.index_buffer) e ∙ g.queued;
  first = ap (λ s. s.min_block_id) e ∙ g.first;
  latest = ap (λ s. s.latest_block_id) e ∙ g.latest;
}

data_of-snoc :
    (m i : ℕ) (bs : List Pairs) (ps : Pairs)
    → i ≡ m + length bs
    → data_of m (bs ++ ps ∷ []) ≡ data_of m bs ++ write_pairs i ps
unfolding data_of
data_of-snoc m i bs ps e =
    data_of-append m bs (ps ∷ [])
    ∙ ap (λ n. data_of m bs ++ (write_pairs n ps ++ [])) (sym e)
    ∙ ap (λ t. data_of m bs ++ t) (append-nil (write_pairs i ps))

buffer_of-snoc :
    (i s j t : ℕ) (bs : List Pairs) (ps : Pairs)
    → j ≡ i + length bs
    → t ≡ s + length (data_of i bs)
    → buffer_of i s (bs ++ ps ∷ [])
      ≡ buffer_of i s bs ++ index_entry j t (t + length (write_pairs j ps)) ∷ []
unfolding buffer_of data_of
buffer_of-snoc i s j t [] ps e f =
    let e' : i ≡ j = omega arith in
    let f' : s ≡ t = omega arith in
    ap₂ (λ j t. index_entry j t (t + length (write_pairs j ps)) ∷ []) e' f'
buffer_of-snoc i s j t (x ∷ bs) ps e f =
    ap (λ es. entry_of i s x ∷ es)
      (buffer_of-snoc (suc i) (s + length (write_pairs i x)) j t bs ps (omega arith)
        (omega (arith, length-append (write_pairs i x) (data_of (suc i) bs))))

All-snoc :
    (bs : List Pairs) (ps : Pairs)
    → All IsWritable bs
    → IsWritable ps
    → All IsWritable (bs ++ ps ∷ [])
All-snoc [] ps h w = (w, tt)
All-snoc (x ∷ bs) ps h w = (h.0, All-snoc bs ps h.1 w)

Numbered-snoc :
    (m i : ℕ) (bs : List Pairs) (ps : Pairs)
    → 0 < m
    → i ≡ m + length bs
    → Numbered m i (bs ++ ps ∷ [])
Numbered-snoc m i [] ps h e = numbered ps [] h e
Numbered-snoc m i (x ∷ bs) ps h e =
    numbered x (bs ++ ps ∷ []) h (omega (arith, length-append bs (ps ∷ [])))

module _ {T : Type 0} {b c : BlockAppendOnlyLog T} {done pending : List Pairs} {i : ℕ}
    {ps : Pairs} where
  grow-from :
      IsHeld b c.min_block_id done pending
      → IsGrown b i ps c
      → i ≡ c.min_block_id + length (done ++ pending)
      → IsWritable ps
      → i < 2 ^ 58
      → b.current_offset + length (write_pairs i ps) < 2 ^ 63
      → IsPending c done (pending ++ ps ∷ [])
  grow-from h g ei w k fits =
      let m = c.min_block_id in
      let bs = done ++ pending in
      let joined : (done ++ (pending ++ ps ∷ [])) ≡ (bs ++ ps ∷ []) =
        sym (append_assoc done pending (ps ∷ [])) in
      let whole : data_of m (done ++ (pending ++ ps ∷ [])) ≡ data_of m bs ++ write_pairs i ps =
        ap (data_of m) joined ∙ data_of-snoc m i bs ps ei in
      let size : b.current_offset + length (write_pairs i ps)
          ≡ length (data_of m (done ++ (pending ++ ps ∷ []))) =
        omega (arith, h.offset, ap length whole, length-append (data_of m bs) (write_pairs i ps)) in
      record {
        is_open = g.same_closed ∙ h.is_open;
        released = g.same_index ∙ h.released;
        buffered =
            g.queued
            ∙ ap
                (λ es.
                  es
                  ++ index_entry i b.current_offset (b.current_offset + length (write_pairs i ps))
                    ∷ [])
                h.buffered
            ∙ sym (
                buffer_of-snoc (m + length done) (length (data_of m done)) i b.current_offset
                  pending ps (omega (arith, ei, length-append done pending))
                  (omega (
                    arith,
                    h.offset,
                    ap length (data_of-append m done pending),
                    length-append (data_of m done) (data_of (m + length done) pending),
                  )));
        stored = g.file (data_of m bs) h.stored ∙ ap (λ f. some f) (sym whole);
        offset = g.moved ∙ size;
        indexed = g.same_map ∙ h.indexed;
        numbers =
            subst₂ (λ l bs. Numbered m l bs) (sym g.latest) (sym joined)
              (Numbered-snoc m i bs ps h.positive ei);
        writable = subst (λ bs. All IsWritable bs) (sym joined) (All-snoc bs ps h.writable w);
        small_ids = omega (arith, g.latest);
        small_file = omega (arith, size);
      }

  -- A state with one more block holds the blocks of the old one and the new block, which waits in
  -- the index buffer.
  pub grow-IsPending :
      IsPending b done pending
      → IsNext b.latest_block_id i b.min_block_id
      → IsGrown b i ps c
      → IsWritable ps
      → i < 2 ^ 58
      → b.current_offset + length (write_pairs i ps) < 2 ^ 63
      → IsPending c done (pending ++ ps ∷ [])
  grow-IsPending p n g w k fits =
      let (h, e) = held i p n in
      grow-from (subst (λ m. IsHeld b m done pending) (sym g.first) h) g
        (e ∙ ap (λ m. m + length (done ++ pending)) (sym g.first)) w k fits
