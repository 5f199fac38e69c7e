-- ===== src/BlockLog/Log/Flush.antt =====
-- Flushing the index buffer: the blocks that were waiting get their slots.
use theo_extension.Common.{
  ℕ, zero, suc, ◌+◌, ◌-◌, ◌*◌, ◌^◌, ◌≤◌, ◌<◌, ◌≡◌, refl, sym, ap, ◌∙◌, Bool, true, false, none,
  some, List, [], ◌∷◌, ◌++◌, arith, length, take, drop, replicate, length-append, append_assoc,
  append-nil, take_prefix, ltb, ge→ltb, All,
}
use theo_extension.Common.Bytes.{Bytes, write_at}
use theo_extension.BlockLog.Entry.{BlockIndexEntry, encode_index_entry}
use theo_extension.BlockLog.Entry.RoundTrip.{length-encode_index_entry}
use theo_extension.BlockLog.Order.{Pairs, write_pairs}
use theo_extension.BlockLog.Order.Decode.{IsWritable}
use theo_extension.BlockLog.State.{BlockAppendOnlyLog, ok}
use theo_extension.BlockLog.Index.{
  slot_pos, flush_entries, flush_index_buffer, flush_index_buffer_with_block_id,
}
use theo_extension.BlockLog.Read.Values.{is_negative_small}
use theo_extension.BlockLog.Layout.{data_of, entry_of, index_of, index_of-append, length-index_of}
use theo_extension.BlockLog.Layout.Slots.{slot_pos_small}
use theo_extension.BlockLog.Log.{IsLog, Numbered, numbered, unnumbered}

take_all : (f ys : Bytes) → take (length f) (f ++ ys) ≡ f
take_all f ys = take_prefix (length f) f ys refl

drop_all : (n : ℕ) (f : Bytes) → length f ≤ n → drop n f ≡ []
drop_all zero [] h = refl
drop_all zero (x ∷ f) h = absurd (omega arith)
drop_all (suc n) [] h = refl
drop_all (suc n) (x ∷ f) h = drop_all n f (omega arith)

-- A write at the end of a file appends.
pub write_at_end : (f buf : Bytes) (pos : ℕ) → pos ≡ length f → write_at f pos buf ≡ f ++ buf
unfolding write_at
write_at_end f buf pos e = rw (
  e,
  take_all f (replicate (length f - length f) 0),
  drop_all (length f + length buf) f (omega arith),
  append-nil,
)

-- A write over the last record of a file replaces it.
pub write_at_last :
    (g old buf : Bytes) (pos : ℕ)
    → pos ≡ length g
    → length old ≡ length buf
    → write_at (g ++ old) pos buf ≡ g ++ buf
unfolding write_at
write_at_last g old buf pos e s = rw (
  append_assoc,
  take_prefix pos g (old ++ replicate (pos - length (g ++ old)) 0) e,
  drop_all (pos + length buf) (g ++ old) (omega (arith, length-append g old)),
  append-nil,
)

-- The entries of blocks that wait in the buffer.
unfoldable pub buffer_of : ℕ → ℕ → List Pairs → List BlockIndexEntry
buffer_of i s [] = []
buffer_of i s (ps ∷ blocks) =
    entry_of i s ps ∷ buffer_of (suc i) (s + length (write_pairs i ps)) blocks

flush_one :
    (min i : ℕ) (e : BlockIndexEntry) (es : List BlockIndexEntry) (f : Bytes)
    → e.block_id ≡ i
    → min ≤ i
    → i < 2 ^ 58
    → flush_entries min (e ∷ es) f
      ≡ flush_entries min es (write_at f ((i - min) * 24) (encode_index_entry e))
unfolding flush_entries
flush_one min i e es f ei h k =
    let low : ltb e.block_id min ≡ false = ge→ltb e.block_id min (omega arith) in
    let at : slot_pos e.block_id min ≡ (i - min) * 24 =
      slot_pos_small e.block_id min (omega arith) (omega arith) ∙ ap (λ j. (j - min) * 24) ei in
    rw (low, at, is_negative_small ((i - min) * 24) (omega arith)) refl

pub flush_entries-buffer_of :
    (min n i s : ℕ) (f : Bytes) (blocks : List Pairs)
    → i ≡ min + n
    → length f ≡ n * 24
    → i + length blocks ≤ 2 ^ 58
    → flush_entries min (buffer_of i s blocks) f ≡ (true, f ++ index_of i s blocks)
unfolding flush_entries buffer_of index_of
flush_entries-buffer_of min n i s f [] ei ef h = rw append-nil
flush_entries-buffer_of min n i s f (ps ∷ blocks) ei ef h =
    let e = entry_of i s ps in
    let w = s + length (write_pairs i ps) in
    flush_one min i e (buffer_of (suc i) w blocks) f refl (omega arith) (omega arith)
    ∙ ap (flush_entries min (buffer_of (suc i) w blocks))
        (write_at_end f (encode_index_entry e) ((i - min) * 24) (omega arith))
    ∙ flush_entries-buffer_of min (suc n) (suc i) w (f ++ encode_index_entry e) blocks (omega arith)
        (omega (arith, length-append f (encode_index_entry e), length-encode_index_entry e))
        (omega arith)
    ∙ ap (λ t. (true, t)) (append_assoc f (encode_index_entry e) (index_of (suc i) w blocks))

-- The state of a log whose last blocks, `pending`, still wait in the index buffer.
pub record IsPending {T : Type 0} (b : BlockAppendOnlyLog T) (done pending : List Pairs)
    : Type 0 where
  pub is_open : b.closed ≡ false
  pub released : b.block_index ≡ none
  pub buffered :
      b.index_buffer
      ≡ buffer_of (b.min_block_id + length done) (length (data_of b.min_block_id done)) pending
  pub stored : b.data_file ≡ some (data_of b.min_block_id (done ++ pending))
  pub offset : b.current_offset ≡ length (data_of b.min_block_id (done ++ pending))
  pub indexed : b.index_map_file ≡ some (index_of b.min_block_id 0 done)
  pub numbers : Numbered b.min_block_id b.latest_block_id (done ++ pending)
  pub writable : All IsWritable (done ++ pending)
  pub small_ids : b.latest_block_id < 2 ^ 58
  pub small_file : length (data_of b.min_block_id (done ++ pending)) < 2 ^ 63

Numbered-length :
    {min latest : ℕ} {blocks : List Pairs}
    → Numbered min latest blocks
    → latest < 2 ^ 58
    → min + length blocks ≤ 2 ^ 58
Numbered-length (unnumbered m l) h = omega arith
Numbered-length (numbered ps bs m l) h = omega arith

-- A state after a flush that succeeds.
abbrev pub after_flush : {T : Type 0} → BlockAppendOnlyLog T → Bytes → BlockAppendOnlyLog T
after_flush b f = record b { index_map_file = some f; index_buffer = [] }

-- The state with its buffer and its index file written out.
abbrev holding :
    {T : Type 0} → BlockAppendOnlyLog T → List BlockIndexEntry → Bytes → BlockAppendOnlyLog T
holding b es f = record b { index_map_file = some f; index_buffer = es }

flush-holding :
    {T : Type 0} (b : BlockAppendOnlyLog T) (f g : Bytes) (es : List BlockIndexEntry)
    → flush_entries b.min_block_id es f ≡ (true, g)
    → flush_index_buffer (holding b es f) ≡ (ok tt, after_flush b g)
unfolding flush_index_buffer flush_index_buffer_with_block_id flush_entries
flush-holding b f g [] h = ap (λ (r : Bool × Bytes). (ok tt, after_flush b r.1)) h
flush-holding b f g (e ∷ es) h = rw h refl

pub flush_ok :
    {T : Type 0} (b : BlockAppendOnlyLog T) (f g : Bytes) (es : List BlockIndexEntry)
    → b.index_buffer ≡ es
    → b.index_map_file ≡ some f
    → flush_entries b.min_block_id es f ≡ (true, g)
    → flush_index_buffer b ≡ (ok tt, after_flush b g)
flush_ok b f g es eb ef h =
    ap flush_index_buffer (λ i. record b { index_map_file = ef i; index_buffer = eb i })
    ∙ flush-holding b f g es h

joined :
    (min : ℕ) (done pending : List Pairs)
    → index_of min 0 done ++ index_of (min + length done) (length (data_of min done)) pending
      ≡ index_of min 0 (done ++ pending)
joined min done pending =
    let e : length (data_of min done) ≡ 0 + length (data_of min done) = omega arith in
    ap (λ s. index_of min 0 done ++ index_of (min + length done) s pending) e
    ∙ sym (index_of-append min 0 done pending)

-- Where the last blocks of a log wait in the index buffer, a flush succeeds, changes the index map
-- file and the buffer only, and leaves a log that holds all the blocks with nothing pending.
pub flush-IsPending :
    {T : Type 0} {b : BlockAppendOnlyLog T} {done pending : List Pairs}
    → IsPending b done pending
    → (flush_index_buffer b ≡ (ok tt, after_flush b (index_of b.min_block_id 0 (done ++ pending))))
      × IsLog (after_flush b (index_of b.min_block_id 0 (done ++ pending))) (done ++ pending)
flush-IsPending {b} {done} {pending} p = (
  flush_ok b _ _ _ p.buffered p.indexed (
      flush_entries-buffer_of b.min_block_id (length done) (b.min_block_id + length done)
        (length (data_of b.min_block_id done)) (index_of b.min_block_id 0 done) pending refl
        (length-index_of b.min_block_id 0 done)
        (omega (arith, Numbered-length p.numbers p.small_ids, length-append done pending))
      ∙ ap (λ f. (true, f)) (joined b.min_block_id done pending)),
  record {
    is_open = p.is_open;
    released = p.released;
    flushed = refl;
    stored = p.stored;
    offset = p.offset;
    indexed = refl;
    numbers = p.numbers;
    writable = p.writable;
    small_ids = p.small_ids;
    small_file = p.small_file;
  },
)
