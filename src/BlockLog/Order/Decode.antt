-- ===== src/BlockLog/Order/Decode.antt =====
-- The loop that decodes a block: it never runs out of fuel, and it reads back what was written.
use theo_extension.Common.{
  ℕ, zero, suc, ◌+◌, ◌-◌, ◌^◌, ◌≤◌, ◌<◌, ◌≡◌, ◌≢◌, refl, ◌⊎◌, inl, inr, ◌∙◌, List, [], ◌∷◌, ◌++◌,
  arith, length, All, length-append, length-drop, take, drop,
}
use theo_extension.Common.Bytes.{Bytes, read_full, uint_be}
use theo_extension.BlockLog.Entry.{
  LogEntry, header_size, write_log_entry, ReadEntry, entry, eof, failed, read_body, read_log_entry,
}
use theo_extension.BlockLog.Entry.RoundTrip.{
  log_entry, read_log_entry-write_log_entry, length-write_log_entry,
}
use theo_extension.BlockLog.Order.{Pairs, write_pairs, complete, out_of_fuel, prepend, decode_block}

-- The lengths that a log entry can hold.
abbrev pub IsWritable : Pairs → Type 0
IsWritable = All (λ p. (length p.0 < 2 ^ 32) × (length p.1 < 2 ^ 32))

-- The entries that a block of pairs holds, each with its size.
unfoldable pub entries_of : ℕ → Pairs → List (LogEntry × ℕ)
entries_of block_id [] = []
entries_of block_id ((k, v) ∷ ps) =
    (log_entry block_id k v, header_size + length k + length v) ∷ entries_of block_id ps

decode_step :
    (fuel : ℕ) (bytes rest : Bytes) (e : LogEntry)
    → read_log_entry bytes ≡ entry e rest
    → decode_block (suc fuel) bytes
      ≡ prepend (e, length bytes - length rest) (decode_block fuel rest)
unfolding decode_block read_log_entry
decode_step fuel [] rest e h = cc
decode_step fuel (b ∷ r) rest e h = rw (h, decode_block)

length-first :
    (i : ℕ) (k v rest : Bytes)
    → length (write_log_entry i k v ++ rest) ≡ header_size + length k + length v + length rest
length-first i k v rest =
    omega (arith, length-append (write_log_entry i k v) rest, length-write_log_entry i k v)

-- Decoding the pairs that a block was written from gives them back, in order and to the end, with
-- any fuel from the block's length on.
pub decode_block-write_pairs :
    (fuel block_id : ℕ) (ps : Pairs)
    → block_id < 2 ^ 64
    → IsWritable ps
    → length (write_pairs block_id ps) ≤ fuel
    → decode_block fuel (write_pairs block_id ps)
      ≡ record { entries = entries_of block_id ps; ending = complete }
unfolding decode_block write_pairs entries_of
decode_block-write_pairs fuel i [] hi hp hf = refl
decode_block-write_pairs zero i ((k, v) ∷ ps) hi hp hf =
    absurd (omega (arith, length-first i k v (write_pairs i ps)))
decode_block-write_pairs (suc fuel) i ((k, v) ∷ ps) hi hp hf =
    let rest = write_pairs i ps in
    let size : length (write_log_entry i k v ++ rest) - length rest
        ≡ header_size + length k + length v =
      omega (arith, length-first i k v rest) in
    decode_step fuel (write_log_entry i k v ++ rest) rest (log_entry i k v)
      (read_log_entry-write_log_entry i k v rest hi hp.0.0 hp.0.1)
    ∙ rw (size, decode_block-write_pairs fuel i ps hi hp.1 (omega (arith, length-first i k v rest)))

length-read_body :
    (header r rest : Bytes) (e : LogEntry)
    → read_body header r ≡ entry e rest
    → length rest ≤ length r
unfolding read_body read_full
length-read_body header r rest e h =
    let k = uint_be (take 4 (drop 8 header)) in
    ground (arith, length-drop k r, length-drop (uint_be (drop 12 header)) (drop k r))

-- A log entry takes at least its header.
length-read_log_entry :
    (bytes rest : Bytes) (e : LogEntry)
    → read_log_entry bytes ≡ entry e rest
    → length rest < length bytes
unfolding read_log_entry read_full
length-read_log_entry [] rest e h = cc
length-read_log_entry (b ∷ r) rest e h = ground (
  arith,
  length-drop header_size (b ∷ r),
  length-read_body (take header_size (b ∷ r)) (drop header_size (b ∷ r)) rest e,
)

ReadEntry-cases :
    (r : ReadEntry)
    → ((e : LogEntry) × (rest : Bytes) × (r ≡ entry e rest)) ⊎ ((r ≡ eof) ⊎ (r ≡ failed))
ReadEntry-cases (entry e rest) = inl (e, rest, refl)
ReadEntry-cases eof = inr (inl refl)
ReadEntry-cases failed = inr (inr refl)

-- For all bytes, decoding with fuel for each byte ends at the end of the bytes or at a record that
-- does not decode, never for lack of fuel.
pub decode_block-ne-out_of_fuel :
    (fuel : ℕ) (bytes : Bytes)
    → length bytes ≤ fuel
    → (decode_block fuel bytes).ending ≢ out_of_fuel
unfolding decode_block
decode_block-ne-out_of_fuel fuel [] h = cc
decode_block-ne-out_of_fuel zero (b ∷ r) h = absurd (omega arith)
decode_block-ne-out_of_fuel (suc fuel) (b ∷ r) h = elim (ReadEntry-cases (read_log_entry (b ∷ r))) [
  | inl (e, rest, p) ↦
      rw (p, decode_block)
        (decode_block-ne-out_of_fuel fuel rest
          (omega (arith, length-read_log_entry (b ∷ r) rest e p)))
  | inr (inl p) ↦ rw (p, decode_block) (λ q. cc)
  | inr (inr p) ↦ rw (p, decode_block) (λ q. cc)
]
