-- ===== src/BlockLog/Log/Waiting.antt =====
-- Looking up a block of a log whose last blocks wait in the index buffer.
use theo_extension.Common.{
  ℕ, zero, suc, ◌+◌, ◌-◌, ◌≤◌, ◌<◌, ◌^◌, ◌≡◌, refl, sym, ap, ◌∙◌, true, false, Option, none, some,
  List, [], ◌∷◌, ◌++◌, arith, length, ◌==◌, ltb, lt→ltb, ge→ltb, Bool-cases, inl, inr,
  length-append, Option-cases,
}
use theo_extension.Common.Bytes.{nat_eq}
use theo_extension.Common.Maps.{lookup}
use theo_extension.BlockLog.Entry.{BlockIndexEntry}
use theo_extension.BlockLog.Order.{Pairs, write_pairs}
use theo_extension.BlockLog.State.{BlockAppendOnlyLog, ok}
use theo_extension.BlockLog.Index.{
  find_in_buffer, find_in_map, find_block_index_entry_on_disk, get_block_index_entry_with_source,
  get_block_index_entry,
}
use theo_extension.BlockLog.Layout.{data_of, entry_at, data_of-append}
use theo_extension.BlockLog.Log.{entry_for, disk-entry}
use theo_extension.BlockLog.Log.Flush.{IsPending, buffer_of}

find_in_buffer-before :
    (i start s : ℕ) (pending : List Pairs)
    → i < start
    → find_in_buffer i (buffer_of start s pending) ≡ none
unfolding find_in_buffer buffer_of
find_in_buffer-before i start s [] h = refl
find_in_buffer-before i start s (ps ∷ pending) h =
    let ne : (start == i) ≡ false = ground arith in
    rw ne (find_in_buffer-before i (suc start) _ pending (omega arith))

find_in_buffer-from :
    (n i start s : ℕ) (pending : List Pairs)
    → i ≡ start + n
    → find_in_buffer i (buffer_of start s pending) ≡ entry_at start s pending n
unfolding find_in_buffer buffer_of entry_at
find_in_buffer-from n i start s [] e = refl
find_in_buffer-from zero i start s (ps ∷ pending) e =
    let same : (start == i) ≡ true = ground arith in rw same refl
find_in_buffer-from (suc n) i start s (ps ∷ pending) e =
    let ne : (start == i) ≡ false = ground arith in
    rw ne (find_in_buffer-from n i (suc start) _ pending (omega arith))

entry_at-front :
    (n i s : ℕ) (done pending : List Pairs)
    → n < length done
    → entry_at i s (done ++ pending) n ≡ entry_at i s done n
unfolding entry_at
entry_at-front n i s [] pending h = absurd (omega arith)
entry_at-front zero i s (ps ∷ done) pending h = refl
entry_at-front (suc n) i s (ps ∷ done) pending h =
    entry_at-front n (suc i) _ done pending (omega arith)

entry_at-back :
    (n i s : ℕ) (done pending : List Pairs)
    → entry_at i s (done ++ pending) (length done + n)
      ≡ entry_at (i + length done) (s + length (data_of i done)) pending n
unfolding entry_at data_of
entry_at-back n i s [] pending =
    ap (λ m. entry_at i s pending m) (omega arith)
    ∙ ap (λ j. entry_at j s pending n) (omega arith)
    ∙ ap (λ t. entry_at (i + 0) t pending n) (omega arith)
entry_at-back n i s (ps ∷ done) pending =
    let w = write_pairs i ps in
    let m : length (ps ∷ done) + n ≡ suc (length done + n) = omega arith in
    ap (entry_at i s (ps ∷ (done ++ pending))) m
    ∙ entry_at-back n (suc i) (s + length w) done pending
    ∙ ap (λ j. entry_at j (s + length w + length (data_of (suc i) done)) pending n) (omega arith)
    ∙ ap (λ t. entry_at (i + length (ps ∷ done)) t pending n)
        (omega (arith, length-append w (data_of (suc i) done)))

entry_at-past : (n i s : ℕ) (done : List Pairs) → length done ≤ n → entry_at i s done n ≡ none
unfolding entry_at
entry_at-past n i s [] h = refl
entry_at-past zero i s (ps ∷ done) h = absurd (omega arith)
entry_at-past (suc n) i s (ps ∷ done) h = entry_at-past n (suc i) _ done (omega arith)

-- The map that is there while a log is opened.
abbrev pub mapped :
    {T : Type 0} → Option (List (ℕ × BlockIndexEntry)) → BlockAppendOnlyLog T → BlockAppendOnlyLog T
mapped m b = record b { block_index = m }

abbrev pub or_else : Option BlockIndexEntry → Option BlockIndexEntry → Option BlockIndexEntry
or_else none o = o
or_else (some e) o = some e

by_sources :
    {T : Type 0} (b : BlockAppendOnlyLog T) (m : Option (List (ℕ × BlockIndexEntry))) (i : ℕ)
    (o : Option BlockIndexEntry)
    → find_block_index_entry_on_disk b i ≡ ok o
    → get_block_index_entry (mapped m b) i
      ≡ or_else (find_in_map i m) (or_else (find_in_buffer i b.index_buffer) o)
unfolding get_block_index_entry get_block_index_entry_with_source find_block_index_entry_on_disk
by_sources b m i o d = elim (Option-cases (find_in_map i m)) [
  | inr (e, h) ↦ rw h refl
  | inl h ↦ elim (Option-cases (find_in_buffer i b.index_buffer)) [
    | inr (e, k) ↦ rw (h, k) refl
    | inl k ↦ rw (h, k, d) refl
  ]
]

module _ (i start s : ℕ) (pending : List Pairs) (min : ℕ) (done : List Pairs)
    (begins : start ≡ min + length done) (there : s ≡ length (data_of min done)) where
  below_all :
      i < min
      → or_else (find_in_buffer i (buffer_of start s pending)) (entry_for min done i)
        ≡ entry_for min (done ++ pending) i
  below_all h = rw (find_in_buffer-before i start s pending (omega arith), lt→ltb i min h) refl

  on_disk :
      min ≤ i
      → i < start
      → or_else (find_in_buffer i (buffer_of start s pending)) (entry_for min done i)
        ≡ entry_for min (done ++ pending) i
  on_disk h k =
      rw (find_in_buffer-before i start s pending k, ge→ltb i min h)
        (sym (entry_at-front (i - min) min 0 done pending (omega arith)))

  in_buffer :
      start ≤ i
      → or_else (find_in_buffer i (buffer_of start s pending)) (entry_for min done i)
        ≡ entry_for min (done ++ pending) i
  in_buffer h =
      let n = i - start in
      let place : i - min ≡ length done + n = omega arith in
      rw (ge→ltb i min (omega arith)) (
        ap (λ o. or_else o (entry_at min 0 done (i - min)))
          (find_in_buffer-from n i start s pending (omega arith))
        ∙ ap (or_else (entry_at start s pending n))
            (entry_at-past (i - min) min 0 done (omega arith))
        ∙ or_none (entry_at start s pending n)
        ∙ ap (λ t. entry_at start t pending n) (there ∙ omega arith)
        ∙ ap (λ j. entry_at j (0 + length (data_of min done)) pending n) begins
        ∙ sym (entry_at-back n min 0 done pending)
        ∙ ap (entry_at min 0 (done ++ pending)) (sym place))
    where
      or_none : (o : Option BlockIndexEntry) → or_else o none ≡ o
      or_none none = refl
      or_none (some e) = refl

  waiting_or_stored :
      or_else (find_in_buffer i (buffer_of start s pending)) (entry_for min done i)
      ≡ entry_for min (done ++ pending) i
  waiting_or_stored = elim (Bool-cases (ltb i min)) [
    | inl a ↦ below_all (ground (arith, a))
    | inr a ↦ elim (Bool-cases (ltb i start)) [
      | inl c ↦ on_disk (ground (arith, a)) (ground (arith, c))
      | inr c ↦ in_buffer (ground (arith, c))
    ]
  ]

-- In a log whose first blocks are on disk and whose last ones wait in the index buffer, looking up
-- block `i` answers the entry that the list of all blocks gives it, on disk or waiting, and none
-- where `i` is no number of theirs. With a map of blocks, as while a log is opened, an entry of the
-- map comes first. `i` is above 0 and below 2^58.
pub get_block_index_entry-IsPending :
    {T : Type 0} {b : BlockAppendOnlyLog T} {done pending : List Pairs}
    (m : List (ℕ × BlockIndexEntry)) (i : ℕ)
    → IsPending b done pending
    → i < 2 ^ 58
    → 0 < i
    → (get_block_index_entry b i ≡ entry_for b.min_block_id (done ++ pending) i)
      × (get_block_index_entry (mapped (some m) b) i
          ≡ or_else (lookup i m) (entry_for b.min_block_id (done ++ pending) i))
get_block_index_entry-IsPending {T} {b} {done} {pending} m i p h k =
    let min = b.min_block_id in
    let s = length (data_of min done) in
    let small : length (data_of min done) < 2 ^ 63 = omega (
      arith,
      p.small_file,
      ap length (data_of-append min done pending),
      length-append (data_of min done) (data_of (min + length done) pending),
    ) in
    let disk = disk-entry b done p.indexed small i h k in
    let rest =
      ap (λ es. or_else (find_in_buffer i es) (entry_for min done i)) p.buffered
      ∙ waiting_or_stored i (min + length done) s pending min done refl refl in
    (
      ap (λ x. get_block_index_entry (mapped x b) i) p.released
          ∙ by_sources b none i (entry_for min done i) disk
          ∙ rest,
      by_sources b (some m) i (entry_for min done i) disk ∙ ap (or_else (lookup i m)) rest,
    )
