-- ===== src/Tests/Waiting.antt =====
-- Batches with two pairs, and an instance of each theorem on them that has hypotheses.
use theo_extension.Common.{ℕ, ◌≡◌, refl, ◌⊎◌, true, none, some, [], ◌∷◌}
use theo_extension.Common.Bytes.{bytes_beq, bytes_eq}
use theo_extension.Common.Maps.{lookup, insert}
use theo_extension.Batches.{
  StorageBatcher, new_storage_batcher, put_storage, get_storage, Operations, WriteOperation,
  WriteBatch, value_modified, new_write_batch, enable_auto_commit, add_operation, get_operation,
  check_and_commit,
}
use theo_extension.Batches.ReadBack.{get_storage-put_storage, get_operation-add_operation}

abbrev one_pair : StorageBatcher
one_pair = put_storage (1 ∷ []) (2 ∷ []) (some (3 ∷ [])) new_storage_batcher

get_storage-put_storage_example :
    get_storage (1 ∷ []) (2 ∷ []) (put_storage (1 ∷ []) (4 ∷ []) none one_pair)
    ≡ some (some (3 ∷ []))
unfolding get_storage put_storage lookup insert bytes_beq
get_storage-put_storage_example =
    get_storage-put_storage (1 ∷ []) (4 ∷ []) (1 ∷ []) (2 ∷ []) none one_pair refl

abbrev operation : ℕ → WriteOperation
operation v = record {
  value = some (v ∷ []);
  modified_type = value_modified;
  storage_file_id = 0;
  storage_offset = 0;
  storage_size = 0;
}

abbrev nearly_full : WriteBatch
nearly_full = record (enable_auto_commit 2 (new_write_batch true)) {
  operations = (1 ∷ [], operation 5) ∷ [];
}

committed : add_operation (2 ∷ []) (operation 6) nearly_full ≡ (
  some ((1 ∷ [], operation 5) ∷ (2 ∷ [], operation 6) ∷ []),
  record nearly_full { operations = [] },
)
unfolding add_operation check_and_commit enable_auto_commit insert bytes_beq
committed = refl

get_operation-add_operation_example :
    ((add_operation (2 ∷ []) (operation 6) nearly_full).0 ≡ none)
      × (get_operation (1 ∷ []) (add_operation (2 ∷ []) (operation 6) nearly_full).1
          ≡ get_operation (1 ∷ []) nearly_full)
    ⊎ ((ops : Operations) × ((add_operation (2 ∷ []) (operation 6) nearly_full).0 ≡ some ops)
        × (lookup (1 ∷ []) ops ≡ some (operation 5))
        × (get_operation (1 ∷ []) (add_operation (2 ∷ []) (operation 6) nearly_full).1 ≡ none))
unfolding enable_auto_commit lookup insert bytes_beq
get_operation-add_operation_example =
    get_operation-add_operation (2 ∷ []) (1 ∷ []) (operation 6) nearly_full
