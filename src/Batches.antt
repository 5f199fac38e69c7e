-- ===== src/Batches.antt =====
-- What waits for a commit of the prefix store: storage pairs by account (`storageBatcher`,
-- THEO/prefixdb/storage_batch.go) and accounts (`WriteBatch`, THEO/prefixdb/batch.go). A value that is
-- nil is `none` and stands for a deletion. The lines that `put` and `putUnresolved` print are left out.
pub mod ReadBack
use theo_extension.Common.{
  ℕ, Bool, true, false, ◌&&◌, not, Option, none, some, List, [], ◌∷◌, ◌==◌, ltb, if◌then◌else◌,
  length,
}
use theo_extension.Common.Bytes.{Bytes, bytes_eq}
use theo_extension.Common.Maps.{lookup, insert}

abbrev pub Values : Type 0
Values = List (Bytes × Option Bytes)

pub record StorageBatcher : Type 0 where
  pub pending : List (Bytes × Values)
  -- Keys whose account was not known.
  pub unresolved : Values

abbrev pub new_storage_batcher : StorageBatcher
new_storage_batcher = record { pending = []; unresolved = [] }

abbrev pub is_empty : Bytes → Bool
is_empty key = length key == 0

abbrev pub account_values : Option Values → Values
account_values none = []
account_values (some m) = m

unfoldable pub put_storage : Bytes → Bytes → Option Bytes → StorageBatcher → StorageBatcher
put_storage account_key storage_key value b = if is_empty account_key then b else record b {
  pending =
      insert account_key (insert storage_key value (account_values (lookup account_key b.pending)))
        b.pending;
}

unfoldable pub put_unresolved : Bytes → Option Bytes → StorageBatcher → StorageBatcher
put_unresolved key value b =
    if is_empty key then b else record b { unresolved = insert key value b.unresolved }

-- The value, if there is one for the key.
unfoldable pub get_storage : Bytes → Bytes → StorageBatcher → Option (Option Bytes)
get_storage account_key storage_key b =
    if is_empty account_key
    then none
    else lookup storage_key (account_values (lookup account_key b.pending))

unfoldable pub drain : StorageBatcher → (List (Bytes × Values) × Values) × StorageBatcher
drain b = ((b.pending, b.unresolved), new_storage_batcher)

pub data ModifiedType : Type 0 where
  unmodified value_modified : ModifiedType

pub record WriteOperation : Type 0 where
  pub value : Option Bytes
  pub modified_type : ModifiedType
  pub storage_file_id : ℕ
  pub storage_offset : ℕ
  pub storage_size : ℕ

pub record StorageInfo : Type 0 where
  pub file_id : ℕ
  pub offset : ℕ
  pub size : ℕ

abbrev pub Operations : Type 0
Operations = List (Bytes × WriteOperation)

pub record WriteBatch : Type 0 where
  pub operations : Operations
  pub auto_commit : Bool
  pub threshold : ℕ
  pub has_db : Bool

abbrev pub new_write_batch : Bool → WriteBatch
new_write_batch has_db = record {
  operations = [];
  auto_commit = false;
  threshold = 4096;
  has_db = has_db;
}

unfoldable pub enable_auto_commit : ℕ → WriteBatch → WriteBatch
enable_auto_commit threshold wb = record wb {
  auto_commit = true;
  threshold = if ltb 0 threshold then threshold else wb.threshold;
}

-- The operations that go to the store's `WriteCommit`, at once or through its queue.
unfoldable pub check_and_commit : WriteBatch → Option Operations × WriteBatch
check_and_commit wb =
    if wb.auto_commit && (wb.has_db && not (ltb (length wb.operations) wb.threshold))
    then (some wb.operations, record wb { operations = [] })
    else (none, wb)

abbrev pub set_operation : Bytes → WriteOperation → WriteBatch → WriteBatch
set_operation key op wb = record wb { operations = insert key op wb.operations }

unfoldable pub add_operation : Bytes → WriteOperation → WriteBatch → Option Operations × WriteBatch
add_operation key op wb = check_and_commit (set_operation key op wb)

abbrev pub deletion : WriteOperation
deletion = record {
  value = none;
  modified_type = value_modified;
  storage_file_id = 0;
  storage_offset = 0;
  storage_size = 0;
}

abbrev pub is_deletion : Option WriteOperation → Bool
is_deletion none = false
is_deletion (some op) = elim op.value [ none ↦ true | some v ↦ false ]

unfoldable pub delete_operation : Bytes → WriteBatch → Option Operations × WriteBatch
delete_operation key wb =
    if is_deletion (lookup key wb.operations)
    then (none, wb)
    else check_and_commit (set_operation key deletion wb)

abbrev pub value_in : WriteOperation → Option Bytes → Option (Bytes × StorageInfo)
value_in op none = none
value_in op (some v) =
    some (
      v,
      record { file_id = op.storage_file_id; offset = op.storage_offset; size = op.storage_size },
    )

abbrev pub shown : Option WriteOperation → Option (Bytes × StorageInfo)
shown none = none
shown (some op) = value_in op op.value

unfoldable pub get_operation : Bytes → WriteBatch → Option (Bytes × StorageInfo)
get_operation key wb = shown (lookup key wb.operations)

-- Nothing where the key has no operation or is marked for deletion.
abbrev pub changed :
    (WriteOperation → WriteOperation)
    → Bytes
    → Option WriteOperation
    → WriteBatch
    → Bool × WriteBatch
changed change key none wb = (false, wb)
changed change key (some op) wb =
    if is_deletion (some op) then (false, wb) else (true, set_operation key (change op) wb)

unfoldable pub update_storage_pointer : Bytes → StorageInfo → WriteBatch → Bool × WriteBatch
update_storage_pointer key info wb =
    changed
      (λ op. record op {
        storage_file_id = info.file_id;
        storage_offset = info.offset;
        storage_size = info.size;
      })
      key (lookup key wb.operations) wb

unfoldable pub update_value : Bytes → Option Bytes → WriteBatch → Bool × WriteBatch
update_value key value wb =
    changed (λ op. record op { value = value }) key (lookup key wb.operations) wb

unfoldable pub drain_operations : WriteBatch → Operations × WriteBatch
drain_operations wb = (wb.operations, record wb { operations = [] })
