-- ===== src/Database/Get.antt =====
-- Reading from the database (THEO/theo.go): `Has`, `Get` and the reads of one store.
use theo_extension.Common.{Bool, true, false, Option, none, some, if◌then◌else◌}
use theo_extension.Common.Bytes.{Bytes, bytes_beq, bytes_eq}
use theo_extension.Common.Maps.{lookup}
use theo_extension.KeyType.{DataType, codes}
use theo_extension.KeyType.Trie.{get_data_type_from_key}
use theo_extension.BlockLog.Skiplist.{SkipList}
use theo_extension.BlockLog.State.{BlockAppendOnlyLog}
use theo_extension.BlockLog.Read.{get_value}
use theo_extension.Database.Stores.{
  PebbleStore, StateStore, Reply, done, refused, DbError, db_closed, not_found, not_initialized,
}
use theo_extension.Database.State.{
  Database, DbMethod, is_aol_handled, is_prefixdb_handled, from_log, is_not_found_error,
  resolve_prefixdb_account_key,
}

-- `aolDeleteTombstone`
abbrev pub aol_delete_tombstone : Bytes
aol_delete_tombstone = codes "__AOL_DELETED__"

-- What `Has` and `Get` make of the log's answer, and of an error of Pebble.
unfoldable pub is_shown_by_log : Reply (Bytes × Bool) → Reply Bool
is_shown_by_log (done (value, false)) = refused not_found
is_shown_by_log (done (value, true)) =
    if bytes_beq value aol_delete_tombstone then done false else done true
is_shown_by_log (refused e) = if is_not_found_error e then done false else refused e

unfoldable pub value_from_log : Reply (Bytes × Bool) → Reply Bytes
value_from_log (done (value, false)) = refused not_found
value_from_log (done (value, true)) =
    if bytes_beq value aol_delete_tombstone then refused not_found else done value
value_from_log (refused e) = if is_not_found_error e then refused not_found else refused e

unfoldable pub is_shown_by_pebble : Reply Bytes → Reply Bool
is_shown_by_pebble (done v) = done true
is_shown_by_pebble (refused e) = if is_not_found_error e then done false else refused e

unfoldable pub value_from_pebble : Reply Bytes → Reply Bytes
value_from_pebble (done v) = done v
value_from_pebble (refused e) = if is_not_found_error e then refused not_found else refused e

abbrev or_not_found : Reply (Option Bytes) → Reply Bytes
or_not_found (done none) = refused not_found
or_not_found (done (some v)) = done v
or_not_found (refused e) = refused e

module _ (S : SkipList) (PS : PebbleStore) (SS : StateStore) where
  open S use {T}
  open PS use {P, get as pebble_get}
  open SS use {D, get as state_get, has as state_has}

  -- The stores' reads; a method of a store that is nil panics.
  unfoldable pub read_log : Option (BlockAppendOnlyLog T) → Bytes → Reply (Bytes × Bool)
  read_log none key = refused DbError.nil_pointer
  read_log (some log) key = from_log (get_value S log key)

  unfoldable pub read_pebble : Option P → Bytes → Reply Bytes
  read_pebble none key = refused DbError.nil_pointer
  read_pebble (some p) key = pebble_get key p

  abbrev read_state : Bytes → DataType → Reply (Option Bytes) → DbMethod S PS SS Bytes
  read_state key data_type (refused e) d = (refused e, d)
  read_state key data_type (done account_key) d = elim d.statepdb [
    | none ↦ (refused not_initialized, d)
    | some q ↦ (
      or_not_found (state_get data_type key account_key q).0,
      record d { statepdb = some (state_get data_type key account_key q).1 },
    )
  ]

  abbrev has_state : Bytes → DataType → Reply (Option Bytes) → DbMethod S PS SS Bool
  has_state key data_type (refused e) d = (refused e, d)
  has_state key data_type (done account_key) d = elim d.statepdb [
    | none ↦ (refused not_initialized, d)
    | some q ↦ (
      (state_has data_type key account_key q).0,
      record d { statepdb = some (state_has data_type key account_key q).1 },
    )
  ]

  unfoldable pub has_in_aol : Bytes → Database P D T → Reply Bool
  has_in_aol key d = elim (lookup key d.baolkvs) [
    | some v ↦ done true
    | none ↦ is_shown_by_log (read_log d.block_aol key)
  ]

  unfoldable pub has_in_prefixdb : Bytes → DataType → DbMethod S PS SS Bool
  has_in_prefixdb key data_type d = elim d.statepdb [
    | none ↦ (refused not_initialized, d)
    | some q ↦
        (let (account_key, d') = resolve_prefixdb_account_key S PS SS key data_type false d in
          has_state key data_type account_key d')
  ]

  unfoldable pub has_with_data_type : Bytes → DataType → DbMethod S PS SS Bool
  has_with_data_type key data_type d =
      if d.is_closed
      then (refused db_closed, d)
      else if is_aol_handled data_type
      then (has_in_aol key d, d)
      else if is_prefixdb_handled data_type
      then has_in_prefixdb key data_type d
      else (is_shown_by_pebble (read_pebble d.pebble key), d)

  unfoldable pub has : Bytes → DbMethod S PS SS Bool
  has key = has_with_data_type key (get_data_type_from_key key)

  unfoldable pub get_from_aol : Bytes → Database P D T → Reply Bytes
  get_from_aol key d = if d.is_closed then refused db_closed else elim (lookup key d.baolkvs) [
    | some v ↦ done v
    | none ↦ value_from_log (read_log d.block_aol key)
  ]

  unfoldable pub get_from_prefixdb : Bytes → DataType → DbMethod S PS SS Bytes
  get_from_prefixdb key data_type d =
      if d.is_closed then (refused db_closed, d) else elim d.statepdb [
        | none ↦ (refused not_initialized, d)
        | some q ↦
            (let (account_key, d') = resolve_prefixdb_account_key S PS SS key data_type false d in
              read_state key data_type account_key d')
      ]

  unfoldable pub get_from_pebble : Bytes → Database P D T → Reply Bytes
  get_from_pebble key d =
      if d.is_closed then refused db_closed else value_from_pebble (read_pebble d.pebble key)

  unfoldable pub get : Bytes → DataType → DbMethod S PS SS Bytes
  get key data_type d =
      if is_aol_handled data_type
      then (get_from_aol key d, d)
      else if is_prefixdb_handled data_type
      then get_from_prefixdb key data_type d
      else (get_from_pebble key d, d)
