-- ===== src/Tests/Runs.antt =====
-- A block log over association lists, with room for two recent blocks.
use theo_extension.Common.{ℕ, ◌≡◌, refl, true, none, [], ◌∷◌}
use theo_extension.Tests.Program.{program}
use theo_extension.Common.Bytes.{Bytes}
use theo_extension.KeyType.BlockKey.{block_key}
use theo_extension.BlockLog.Skiplist.Assoc.{assoc_skiplist, Pointers}
use theo_extension.BlockLog.State.{BlockAppendOnlyLog, ok, ◌>>◌}
use theo_extension.BlockLog.Write.{append}
use theo_extension.BlockLog.Read.{get_value}
use theo_extension.BlockLog.Boot.{new_block_append_only_log, Files}

abbrev pub no_files : Files
no_files = record { data_bytes = []; index_bytes = []; meta_bytes = none }

abbrev pub opened : BlockAppendOnlyLog Pointers
opened = (new_block_append_only_log assoc_skiplist 2 no_files).1

abbrev pub body : ℕ → Bytes
body n = block_key b'b' n []

abbrev pub three : BlockAppendOnlyLog Pointers
three =
    ((do
      append assoc_skiplist 5 ((body 5, 1 ∷ []) ∷ [])
      append assoc_skiplist 7 ((body 7, 2 ∷ []) ∷ [])
      append assoc_skiplist 8 ((body 8, 3 ∷ []) ∷ []))
      opened).1

get_recent : get_value assoc_skiplist three (body 8) ≡ ok (3 ∷ [], true)
unfolding program
get_recent = refl

get_old : get_value assoc_skiplist three (body 5) ≡ ok (1 ∷ [], true)
unfolding program
get_old = refl
