-- ===== src/Database/Put.antt =====
-- Writing to the database (THEO/theo.go): `Put`, `Delete`, `DeleteRange` and the ends of its life.
-- What a log or a store wrote before an error stays written.
use theo_extension.Common.{
  ℕ, Bool, true, false, not, ◌||◌, Option, none, some, List, [], ◌∷◌, ◌==◌, ltb, if◌then◌else◌,
}
use theo_extension.Common.Bytes.{Bytes, bytes_lt, bytes_eq}
use theo_extension.Common.Maps.{insert}
use theo_extension.KeyType.{DataType}
use theo_extension.KeyType.Trie.{get_data_type_from_key}
use theo_extension.KeyType.BlockKey.{parse_block_number_from_key}
use theo_extension.BlockLog.Skiplist.{SkipList}
use theo_extension.BlockLog.State.{BlockAppendOnlyLog, Method}
use theo_extension.BlockLog.Write as Write
use theo_extension.Database.Stores.{
  PebbleStore, StateStore, Reply, done, refused, DbError, db_closed, not_initialized, no_block_id,
}
use theo_extension.Database.State.{
  Database, DbMethod, is_aol_handled, is_prefixdb_handled, from_log, parse_block_number_from_value,
  resolve_prefixdb_account_key,
}

abbrev or_else : Option ℕ → Option ℕ → Option ℕ
or_else none o = o
or_else (some n) o = some n

-- The block of a pair: its number stands in the key, or for some types in the value.
unfoldable pub block_of : Bytes → Bytes → DataType → Option ℕ
block_of key value data_type =
    or_else (parse_block_number_from_key key data_type)
      (parse_block_number_from_value value data_type)

-- The keys of a range; a bound that is nil is open.
abbrev is_before : Bytes → Option Bytes → Bool
is_before key none = false
is_before key (some start) = bytes_lt key start

abbrev is_past : Bytes → Option Bytes → Bool
is_past key none = false
is_past key (some end) = not (bytes_lt key end)

unfoldable pub keys_in_range : Option Bytes → Option Bytes → List Bytes → List Bytes
keys_in_range start end [] = []
keys_in_range start end (k ∷ ks) =
    let rest = keys_in_range start end ks in
    if is_before k start || is_past k end then rest else k ∷ rest

abbrev is_empty_range : Option Bytes → Option Bytes → Bool
is_empty_range (some start) (some end) = not (bytes_lt start end)
is_empty_range _ _ = false

module _ (S : SkipList) (PS : PebbleStore) (SS : StateStore) where
  open S use {T}
  open PS use {
    P, put as pebble_put, delete as pebble_delete, keys, delete_batch, flush, close as pebble_close,
  }
  open SS use {D, put as state_put, delete as state_delete, batch_commit, close as state_close}

  -- A call on the log, the prefix store or Pebble, whose new state goes back to the database.
  abbrev pub on_log : {A : Type 0} → BlockAppendOnlyLog T → Method T A → DbMethod S PS SS A
  on_log log m d = (from_log (m log).0, record d { block_aol = some (m log).1 })

  abbrev pub on_state : {A : Type 0} → Reply A × D → DbMethod S PS SS A
  on_state r d = (r.0, record d { statepdb = some r.1 })

  abbrev pub on_pebble : {A : Type 0} → Reply A × P → DbMethod S PS SS A
  on_pebble r d = (r.0, record d { pebble = some r.1 })

  -- The next step, where the one before has not failed.
  abbrev pub then_do :
      {A B : Type 0} → Reply A × Database P D T → DbMethod S PS SS B → Reply B × Database P D T
  then_do (done a, d) f = f d
  then_do (refused e, d) f = (refused e, d)

  abbrev pub insert_pending : Bytes → Bytes → Database P D T → Database P D T
  insert_pending key value d = record d { baolkvs = insert key value d.baolkvs }

  -- The map is cleared and starts the new block.
  abbrev pub start_block : ℕ → Bytes → Bytes → DbMethod S PS SS (Unit {0})
  start_block block_id key value d =
      (done tt, record d { baolkvs = (key, value) ∷ []; baol_latest_block = block_id })

  -- The pairs of the block before go to the log when a pair of a later block comes.
  unfoldable pub put_later_block : ℕ → Bytes → Bytes → DbMethod S PS SS (Unit {0})
  put_later_block block_id key value d = elim d.block_aol [
    | none ↦ (refused not_initialized, d)
    | some log ↦
        if d.baol_latest_block == 0
        then start_block block_id key value d
        else then_do (on_log log (Write.append S d.baol_latest_block d.baolkvs) d)
            (start_block block_id key value)
  ]

  abbrev pub put_in_block : Option ℕ → Bytes → Bytes → DbMethod S PS SS (Unit {0})
  put_in_block none key value d = (refused no_block_id, d)
  put_in_block (some block_id) key value d =
      if ltb d.baol_latest_block block_id
      then put_later_block block_id key value d
      else (done tt, insert_pending key value d)

  abbrev put_resolved :
      Bytes → DataType → Bytes → Reply (Option Bytes) → DbMethod S PS SS (Unit {0})
  put_resolved key data_type value (refused e) d = (refused e, d)
  put_resolved key data_type value (done account_key) d = elim d.statepdb [
    | none ↦ (refused not_initialized, d)
    | some q ↦ on_state (state_put data_type key value account_key q) d
  ]

  unfoldable pub put_in_prefixdb : Bytes → Bytes → DataType → DbMethod S PS SS (Unit {0})
  put_in_prefixdb key value data_type d = elim d.statepdb [
    | none ↦ (refused not_initialized, d)
    | some q ↦
        (let (account_key, d') = resolve_prefixdb_account_key S PS SS key data_type true d in
          put_resolved key data_type value account_key d')
  ]

  unfoldable pub put_in_pebble : Bytes → Bytes → DbMethod S PS SS (Unit {0})
  put_in_pebble key value d = elim d.pebble [
    | none ↦ (refused not_initialized, d)
    | some p ↦ on_pebble (pebble_put key value p) d
  ]

  unfoldable pub put_with_data_type : Bytes → Bytes → DataType → DbMethod S PS SS (Unit {0})
  put_with_data_type key value data_type d =
      if d.is_closed
      then (refused db_closed, d)
      else if is_aol_handled data_type
      then put_in_block (block_of key value data_type) key value d
      else if is_prefixdb_handled data_type
      then put_in_prefixdb key value data_type d
      else put_in_pebble key value d

  unfoldable pub put : Bytes → Bytes → DbMethod S PS SS (Unit {0})
  put key value = put_with_data_type key value (get_data_type_from_key key)

  unfoldable pub delete_in_aol : Bytes → DbMethod S PS SS (Unit {0})
  delete_in_aol key d = elim d.block_aol [
    | none ↦ (refused DbError.nil_pointer, d)
    | some log ↦ on_log log (Write.delete S key) d
  ]

  abbrev delete_resolved : Bytes → DataType → Reply (Option Bytes) → DbMethod S PS SS (Unit {0})
  delete_resolved key data_type (refused e) d = (refused e, d)
  delete_resolved key data_type (done account_key) d = elim d.statepdb [
    | none ↦ (refused not_initialized, d)
    | some q ↦ on_state (state_delete data_type key account_key q) d
  ]

  unfoldable pub delete_in_prefixdb : Bytes → DataType → DbMethod S PS SS (Unit {0})
  delete_in_prefixdb key data_type d = elim d.statepdb [
    | none ↦ (refused not_initialized, d)
    | some q ↦
        (let (account_key, d') = resolve_prefixdb_account_key S PS SS key data_type false d in
          delete_resolved key data_type account_key d')
  ]

  unfoldable pub delete_in_pebble : Bytes → DbMethod S PS SS (Unit {0})
  delete_in_pebble key d = elim d.pebble [
    | none ↦ (refused not_initialized, d)
    | some p ↦ on_pebble (pebble_delete key p) d
  ]

  unfoldable pub delete_with_data_type : Bytes → DataType → DbMethod S PS SS (Unit {0})
  delete_with_data_type key data_type d =
      if d.is_closed
      then (refused db_closed, d)
      else if is_aol_handled data_type
      then delete_in_aol key d
      else if is_prefixdb_handled data_type
      then delete_in_prefixdb key data_type d
      else delete_in_pebble key d

  unfoldable pub delete : Bytes → DbMethod S PS SS (Unit {0})
  delete key = delete_with_data_type key (get_data_type_from_key key)

  unfoldable pub delete_range : Option Bytes → Option Bytes → DbMethod S PS SS (Unit {0})
  delete_range start end d = if d.is_closed then (refused db_closed, d) else elim d.pebble [
    | none ↦ (done tt, d)
    | some p ↦
        if is_empty_range start end
        then (done tt, d)
        else on_pebble (delete_batch (keys_in_range start end (keys p)) p) d
  ]
