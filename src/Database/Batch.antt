-- ===== src/Database/Batch.antt =====
-- The batches of the database (THEO/theo.go), the commit of the pending block, and the ends of the
-- database's life.
use theo_extension.Common.{
  ℕ, Bool, true, false, ◌||◌, Option, none, some, [], ◌∷◌, ◌==◌, if◌then◌else◌,
}
use theo_extension.Common.Bytes.{Bytes}
use theo_extension.KeyType.{DataType}
use theo_extension.BlockLog.Order.{Pairs}
use theo_extension.BlockLog.Skiplist.{SkipList}
use theo_extension.BlockLog.Write as Write
use theo_extension.Database.Stores.{
  PebbleStore, StateStore, Reply, done, refused, DbError, db_closed, not_initialized, no_block_id,
  spans_blocks,
}
use theo_extension.Database.State.{
  Database, DbMethod, is_aol_handled, is_prefixdb_handled, resolve_prefixdb_account_key,
}
use theo_extension.Database.Put.{block_of, on_log, on_state, on_pebble, then_do, insert_pending}

abbrev pub is_nothing : Pairs → Bool
is_nothing [] = true
is_nothing (p ∷ ps) = false

module _ (S : SkipList) (PS : PebbleStore) (SS : StateStore) where
  open S use {T}
  open PS use {P, flush, close as pebble_close}
  open SS use {D, batch_put as state_batch_put, batch_commit, close as state_close}

  abbrev batch_put_resolved :
      Bytes → DataType → Option Bytes → Reply (Option Bytes) → DbMethod S PS SS (Unit {0})
  batch_put_resolved key data_type value (refused e) d = (refused e, d)
  batch_put_resolved key data_type value (done account_key) d = elim d.statepdb [
    | none ↦ (refused not_initialized, d)
    | some q ↦ on_state S PS SS (state_batch_put data_type key value account_key q) d
  ]

  -- A deletion is a put of nil.
  abbrev batch_in_prefixdb : Bytes → Option Bytes → DataType → DbMethod S PS SS (Unit {0})
  batch_in_prefixdb key value data_type d = elim d.statepdb [
    | none ↦ (refused not_initialized, d)
    | some q ↦
        (let (account_key, d') = resolve_prefixdb_account_key S PS SS key data_type false d in
          batch_put_resolved key data_type value account_key d')
  ]

  unfoldable pub batch_put_to_prefixdb : Bytes → Bytes → DataType → DbMethod S PS SS (Unit {0})
  batch_put_to_prefixdb key value = batch_in_prefixdb key (some value)

  unfoldable pub batch_delete_from_prefixdb : Bytes → DataType → DbMethod S PS SS (Unit {0})
  batch_delete_from_prefixdb key = batch_in_prefixdb key none

  -- The first pair of a batch fixes its block, also where the pair is then refused.
  abbrev with_block : ℕ → Database P D T → Database P D T
  with_block block_id d =
      if d.baol_latest_block == 0 then record d { baol_latest_block = block_id } else d

  abbrev batch_in_block : Option ℕ → Bytes → Bytes → DbMethod S PS SS (Unit {0})
  batch_in_block none key value d = (refused no_block_id, d)
  batch_in_block (some block_id) key value d = elim d.block_aol [
    | none ↦ (refused not_initialized, d)
    | some log ↦
        if block_id == (with_block block_id d).baol_latest_block
        then (done tt, insert_pending S PS SS key value (with_block block_id d))
        else (refused spans_blocks, with_block block_id d)
  ]

  unfoldable pub batch_put_to_aol : Bytes → Bytes → DataType → DbMethod S PS SS (Unit {0})
  batch_put_to_aol key value data_type = batch_in_block (block_of key value data_type) key value

  unfoldable pub batch_put : Bytes → Bytes → DataType → DbMethod S PS SS (Unit {0})
  batch_put key value data_type d =
      if is_prefixdb_handled data_type
      then batch_put_to_prefixdb key value data_type d
      else if is_aol_handled data_type
      then batch_put_to_aol key value data_type d
      else (done tt, d)

  unfoldable pub batch_delete : Bytes → DataType → DbMethod S PS SS (Unit {0})
  batch_delete key data_type d =
      if is_prefixdb_handled data_type
      then batch_delete_from_prefixdb key data_type d
      else (done tt, d)

  abbrev clear_pending : DbMethod S PS SS (Unit {0})
  clear_pending d = (done tt, record d { baolkvs = [] })

  abbrev forget_block : DbMethod S PS SS (Unit {0})
  forget_block d = (done tt, record d { baolkvs = []; baol_latest_block = 0 })

  abbrev flush_log : DbMethod S PS SS (Unit {0})
  flush_log d = elim d.block_aol [
    | none ↦ (refused DbError.nil_pointer, d)
    | some log ↦ on_log S PS SS log (Write.flush_data_and_index S) d
  ]

  unfoldable pub commit_aol_batch : DbMethod S PS SS (Unit {0})
  commit_aol_batch d = elim d.block_aol [
    | none ↦ (refused not_initialized, d)
    | some log ↦
        if d.baol_latest_block == 0 || is_nothing d.baolkvs
        then (done tt, d)
        else then_do S PS SS
            (then_do S PS SS (on_log S PS SS log (Write.append S d.baol_latest_block d.baolkvs) d)
              flush_log)
            forget_block
  ]

  unfoldable pub prefixdb_batch_commit_with_block_id : ℕ → DbMethod S PS SS (Unit {0})
  prefixdb_batch_commit_with_block_id block_id d = elim d.statepdb [
    | none ↦ (refused not_initialized, d)
    | some q ↦ on_state S PS SS (batch_commit block_id q) d
  ]

  abbrev sync_aol : DbMethod S PS SS (Unit {0})
  sync_aol d = elim d.block_aol [
    | none ↦ (done tt, d)
    | some log ↦
        if d.baol_latest_block == 0 || is_nothing d.baolkvs
        then (done tt, d)
        else then_do S PS SS (on_log S PS SS log (Write.append S d.baol_latest_block d.baolkvs) d)
            clear_pending
  ]

  abbrev sync_state : DbMethod S PS SS (Unit {0})
  sync_state d = elim d.statepdb [
    | none ↦ (done tt, d)
    | some q ↦ on_state S PS SS (batch_commit 0 q) d
  ]

  abbrev ignoring_closed : Reply (Unit {0}) → Reply (Unit {0})
  ignoring_closed (refused db_closed) = done tt
  ignoring_closed r = r

  abbrev sync_pebble : DbMethod S PS SS (Unit {0})
  sync_pebble d = elim d.pebble [
    | none ↦ (done tt, d)
    | some p ↦ (ignoring_closed (flush p).0, record d { pebble = some (flush p).1 })
  ]

  unfoldable pub sync_key_value : DbMethod S PS SS (Unit {0})
  sync_key_value d =
      if d.is_closed
      then (refused db_closed, d)
      else then_do S PS SS (then_do S PS SS (sync_aol d) sync_state) sync_pebble

  -- A prefix store that fails to close is only logged.
  abbrev close_state : DbMethod S PS SS (Unit {0})
  close_state d = elim d.statepdb [
    | none ↦ (done tt, d)
    | some q ↦ (done tt, record d { statepdb = some (state_close q) })
  ]

  abbrev close_log : DbMethod S PS SS (Unit {0})
  close_log d = elim d.block_aol [
    | none ↦ (done tt, d)
    | some log ↦ on_log S PS SS log (Write.close S) d
  ]

  abbrev close_pebble : DbMethod S PS SS (Unit {0})
  close_pebble d = elim d.pebble [
    | none ↦ (done tt, d)
    | some p ↦ on_pebble S PS SS (pebble_close p) d
  ]

  unfoldable pub close : DbMethod S PS SS (Unit {0})
  close d =
      if d.is_closed
      then (refused db_closed, d)
      else then_do S PS SS (then_do S PS SS (close_state (record d { is_closed = true })) close_log)
          close_pebble

  -- `MarkBlockCommitted`, and `SetAccountKey`.
  unfoldable pub mark_committed : ℕ → DbMethod S PS SS (Unit {0})
  mark_committed block_id d = elim d.block_aol [
    | none ↦ (done tt, d)
    | some log ↦
        if block_id == 0
        then (done tt, d)
        else on_log S PS SS log (Write.mark_block_committed S block_id) d
  ]

  unfoldable pub set_account_key : Bytes → DbMethod S PS SS (Unit {0})
  set_account_key account_key d = (done tt, record d { account_key = account_key })

  unfoldable pub close_aol : DbMethod S PS SS (Unit {0})
  close_aol d = elim d.block_aol [
    | none ↦ (done tt, d)
    | some log ↦
        then_do S PS SS (on_log S PS SS log (Write.close S) d)
          (λ e. (done tt, record e { block_aol = none }))
  ]
