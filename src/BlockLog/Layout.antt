-- ===== src/BlockLog/Layout.antt =====
-- What a healthy block log holds on disk, as a function of its blocks: the data file is the blocks
-- one after the other, and the index map file has an entry for each. A block is the list of its
-- pairs in the order in which they were written.
pub mod Slots
use mathlib.Core.Path.{ap₂}
use theo_extension.Common.{
  ℕ, zero, suc, ◌+◌, ◌*◌, ◌≡◌, refl, ap, ◌∙◌, Option, none, some, List, [], ◌∷◌, ◌++◌, arith,
  length, append_assoc, length-append,
}
use theo_extension.Common.Bytes.{Bytes}
use theo_extension.BlockLog.Entry.{BlockIndexEntry, encode_index_entry}
use theo_extension.BlockLog.Entry.RoundTrip.{length-encode_index_entry}
use theo_extension.BlockLog.Order.{Pairs, write_pairs}
use theo_extension.BlockLog.Write.{index_entry}

-- The data file of blocks that are numbered from `i` on.
unfoldable pub data_of : ℕ → List Pairs → Bytes
data_of i [] = []
data_of i (ps ∷ blocks) = write_pairs i ps ++ data_of (suc i) blocks

-- The index entry of a block that begins at `s`.
abbrev pub entry_of : ℕ → ℕ → Pairs → BlockIndexEntry
entry_of i s ps = index_entry i s (s + length (write_pairs i ps))

-- The index map file, where the first block begins at `s`.
unfoldable pub index_of : ℕ → ℕ → List Pairs → Bytes
index_of i s [] = []
index_of i s (ps ∷ blocks) =
    encode_index_entry (entry_of i s ps) ++ index_of (suc i) (s + length (write_pairs i ps)) blocks

-- The entry of the block at place `n`.
unfoldable pub entry_at : ℕ → ℕ → List Pairs → ℕ → Option BlockIndexEntry
entry_at i s [] n = none
entry_at i s (ps ∷ blocks) zero = some (entry_of i s ps)
entry_at i s (ps ∷ blocks) (suc n) = entry_at (suc i) (s + length (write_pairs i ps)) blocks n

pub data_of-append :
    (i : ℕ) (bs cs : List Pairs) → data_of i (bs ++ cs) ≡ data_of i bs ++ data_of (i + length bs) cs
unfolding data_of
data_of-append i [] cs = ap (λ n. data_of n cs) (omega arith)
data_of-append i (ps ∷ bs) cs =
    rw (data_of-append (suc i) bs cs, append_assoc)
      (ap (λ n. write_pairs i ps ++ (data_of (suc i) bs ++ data_of n cs)) (omega arith))

pub index_of-append :
    (i s : ℕ) (bs cs : List Pairs)
    → index_of i s (bs ++ cs)
      ≡ index_of i s bs ++ index_of (i + length bs) (s + length (data_of i bs)) cs
unfolding data_of index_of
index_of-append i s [] cs = ap₂ (λ m t. index_of m t cs) (omega arith) (omega arith)
index_of-append i s (ps ∷ bs) cs =
    let w = write_pairs i ps in
    let front = encode_index_entry (entry_of i s ps) ++ index_of (suc i) (s + length w) bs in
    rw (index_of-append (suc i) (s + length w) bs cs, ← append_assoc)
      (ap₂ (λ m t. front ++ index_of m t cs) (omega arith)
        (omega (arith, length-append w (data_of (suc i) bs))))

pub length-index_of : (i s : ℕ) (bs : List Pairs) → length (index_of i s bs) ≡ length bs * 24
unfolding index_of
length-index_of i s [] = refl
length-index_of i s (ps ∷ bs) = omega (
  arith,
  length-append (encode_index_entry (entry_of i s ps))
      (index_of (suc i) (s + length (write_pairs i ps)) bs),
  length-encode_index_entry (entry_of i s ps),
  length-index_of (suc i) (s + length (write_pairs i ps)) bs,
)
