-- ===== src/Database/State.antt =====
-- The state of `Database` (THEO/theo.go), the routing of data types to stores, and the account key
-- of a storage key. A store that is nil is `none`. The methods hold the database's locks, so each is
-- one step. The stores' callback for storage keys that come without an account key is left out.
use theo_extension.Common.{
  ℕ, Bool, true, false, ◌&&◌, ◌||◌, not, Option, none, some, ◌==◌, ltb, is_some, if◌then◌else◌,
  length, take, drop,
}
use theo_extension.Common.Bytes.{Bytes, uint_be}
use theo_extension.KeyType.{
  DataType, header_type, block_body_type, block_receipts_type, header_number_type,
  trie_node_account_type, trie_node_storage_type,
}
use theo_extension.AccountCache.{AccountHashToKeyCache, get_key, put_key}
use theo_extension.BlockLog.Order.{Pairs}
use theo_extension.BlockLog.Skiplist.{SkipList}
use theo_extension.BlockLog.State as Log
use theo_extension.BlockLog.State.{BlockAppendOnlyLog, Error, requested_future_block}
use theo_extension.Database.Stores.{
  PebbleStore, StateStore, Reply, done, refused, DbError, not_found, bad_storage_key,
  no_account_key, log_error,
}

-- `P`, `D` and `T` are the states of Pebble, of the prefix store and of the log's skip list.
pub record Database (P D T : Type 0) : Type 0 where
  pub pebble : Option P
  pub statepdb : Option D
  pub block_aol : Option (BlockAppendOnlyLog T)
  pub account_hash_key_cache : AccountHashToKeyCache
  pub is_closed : Bool
  -- The pairs that wait for their block to be appended, and that block. A nil map is empty.
  pub baolkvs : Pairs
  pub baol_latest_block : ℕ
  pub account_key : Bytes

-- `AolHandledDataTypes`
abbrev pub is_aol_handled : DataType → Bool
is_aol_handled d = d == header_type || d == block_body_type || d == block_receipts_type

-- `PrefixDBHandledDataTypes`
abbrev pub is_prefixdb_handled : DataType → Bool
is_prefixdb_handled d = d == trie_node_account_type || d == trie_node_storage_type

unfoldable pub parse_block_number_from_value : Bytes → DataType → Option ℕ
parse_block_number_from_value value data_type =
    if data_type == header_number_type && length value == 8 then some (uint_be value) else none

-- The errors of the log as the database hands them on; `isNotFoundError` knows one of them.
abbrev pub from_log : {A : Type 0} → Log.Result A → Reply A
from_log (Log.ok a) = done a
from_log (Log.err e) = refused (log_error e)

abbrev pub is_not_found_error : DbError → Bool
is_not_found_error not_found = true
is_not_found_error (log_error requested_future_block) = true
is_not_found_error _ = false

module _ (S : SkipList) (PS : PebbleStore) (SS : StateStore) where
  open S use {T}
  open PS use {P, get as pebble_get, put as pebble_put}
  open SS use {D}

  abbrev pub Db : Type 0
  Db = Database P D T

  abbrev pub DbMethod : Type 0 → Type 0
  DbMethod A = Db → Reply A × Db

  -- Where the cache has no key for the hash: Pebble is asked, and its answer goes to the cache.
  unfoldable pub ask_pebble : Bytes → Db → Option Bytes × Db
  ask_pebble hash d = elim d.pebble [
    | none ↦ (none, d)
    | some p ↦ elim (pebble_get hash p) [
      | refused e ↦ (none, d)
      | done v ↦
          (some v, record d { account_hash_key_cache = put_key hash v d.account_hash_key_cache })
    ]
  ]

  -- The answer of the cache is kept in `accountKey`.
  abbrev pub after_cache : Bytes → Db → Option Bytes → Option Bytes × Db
  after_cache hash d none = ask_pebble hash d
  after_cache hash d (some k) = (some k, record d { account_key = k })

  unfoldable pub get_parent_account_key : Bytes → Db → Option Bytes × Db
  get_parent_account_key hash d =
      if not (length hash == 32)
      then (none, d)
      else (let (answer, cache) = get_key hash d.account_hash_key_cache in
          after_cache hash (record d { account_hash_key_cache = cache }) answer)

  unfoldable pub resolve_prefixdb_account_key : Bytes → DataType → Bool → DbMethod (Option Bytes)
  resolve_prefixdb_account_key key data_type require_present d =
      if not (data_type == trie_node_storage_type)
      then (done none, d)
      else if ltb (length key) 33
      then (refused bad_storage_key, d)
      else (let (account_key, d') = get_parent_account_key (take 32 (drop 1 key)) d in
          if require_present && not (is_some account_key)
          then (refused no_account_key, d')
          else (done account_key, d'))

  -- `InsertAccountHashPebble`: the cache is written first.
  unfoldable pub insert_account_hash_pebble : Bytes → Bytes → Db → Reply (Unit {0}) × Db
  insert_account_hash_pebble key hash d =
      let cached = record d {
        account_hash_key_cache = put_key hash key d.account_hash_key_cache;
      } in
      elim d.pebble [
        | none ↦ (refused DbError.nil_pointer, cached)
        | some p ↦
            ((pebble_put hash key p).0, record cached { pebble = some (pebble_put hash key p).1 })
      ]
