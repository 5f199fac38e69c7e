-- ===== src/Tests/Stores.antt =====
-- A database over association lists and the log `three`, and an instance of each theorem on it that
-- has hypotheses. Pairs of block 10 wait.
use theo_extension.Common.{◌≡◌, refl, false, Option, none, some, [], ◌∷◌, ◌++◌, arith, is_some}
use theo_extension.Common.Bytes.{Bytes, bytes_eq}
use theo_extension.Common.Maps.{lookup, insert, erase}
use theo_extension.Tests.Program.{program}
use theo_extension.Tests.Runs.{three, body}
use theo_extension.Tests.Witnesses.{three-IsLog, pair, pair_ok, stored_blocks}
use theo_extension.KeyType.{block_body_type}
use theo_extension.BlockLog.Order.{Pairs}
use theo_extension.BlockLog.Skiplist.Assoc.{assoc_skiplist, Pointers}
use theo_extension.BlockLog.Log.{IsLog}
use theo_extension.BlockLog.State.{BlockAppendOnlyLog}
use theo_extension.AccountCache.{new_account_hash_to_key_cache}
use theo_extension.Database.Stores.{PebbleStore, StateStore, Reply, done, refused, not_found}
use theo_extension.Database.State.{Database, parse_block_number_from_value}
use theo_extension.Database.Get.{get}
use theo_extension.Database.Put.{block_of, put_with_data_type}
use theo_extension.Database.Batch.{commit_aol_batch}
use theo_extension.Database.Pending.{get-put_with_data_type}
use theo_extension.Database.Commit.{commit_aol_batch-IsLog, put_with_data_type-IsLog}

abbrev from_lookup : Option Bytes → Reply Bytes
from_lookup none = refused not_found
from_lookup (some v) = done v

abbrev assoc_pebble : PebbleStore
assoc_pebble = record {
  P = Pairs;
  get = λ k p. from_lookup (lookup k p);
  put = λ k v p. (done tt, insert k v p);
  delete = λ k p. (done tt, erase k p);
  keys = λ p. [];
  delete_batch = λ ks p. (done tt, p);
  flush = λ p. (done tt, p);
  close = λ p. (done tt, p);
}

abbrev assoc_state : StateStore
assoc_state = record {
  D = Pairs;
  get = λ t k a d. (done (lookup k d), d);
  has = λ t k a d. (done (is_some (lookup k d)), d);
  put = λ t k v a d. (done tt, insert k v d);
  batch_put = λ t k v a d. (done tt, d);
  batch_commit = λ i d. (done tt, d);
  delete = λ t k a d. (done tt, erase k d);
  close = λ d. d;
}

abbrev Db : Type 0
Db = Database Pairs Pairs Pointers

abbrev db : Db
db = record {
  pebble = some [];
  statepdb = some [];
  block_aol = some three;
  account_hash_key_cache = new_account_hash_to_key_cache 4;
  is_closed = false;
  baolkvs = pair 10 4 ∷ [];
  baol_latest_block = 10;
  account_key = [];
}

get-put_with_data_type_example :
    (e : Db) × (put_with_data_type assoc_skiplist assoc_pebble assoc_state
        (body 10)
        (5 ∷ [])
        block_body_type
        db
      ≡ (done tt, e))
    × (get assoc_skiplist assoc_pebble assoc_state (body 10) block_body_type e ≡ (done (5 ∷ []), e))
    × (e.pebble ≡ db.pebble)
    × (e.statepdb ≡ db.statepdb)
    × (e.block_aol ≡ db.block_aol)
unfolding program block_of parse_block_number_from_value
get-put_with_data_type_example =
    get-put_with_data_type assoc_skiplist assoc_pebble assoc_state db (body 10) (5 ∷ []) (body 10)
      block_body_type 10 refl refl refl (omega arith)

commit_aol_batch-IsLog_example :
    (c : BlockAppendOnlyLog Pointers) × (commit_aol_batch assoc_skiplist assoc_pebble assoc_state db
      ≡ (done tt, record db { block_aol = some c; baolkvs = []; baol_latest_block = 0 }))
    × IsLog c (stored_blocks ++ ([] ∷ (pair 10 4 ∷ []) ∷ []))
unfolding program
commit_aol_batch-IsLog_example =
    commit_aol_batch-IsLog assoc_skiplist assoc_pebble assoc_state db three stored_blocks refl
      three-IsLog (omega arith) (omega arith) refl pair_ok (omega arith)

put_with_data_type-IsLog_example :
    (c : BlockAppendOnlyLog Pointers) × (put_with_data_type assoc_skiplist assoc_pebble assoc_state
        (body 12)
        (6 ∷ [])
        block_body_type
        db
      ≡ (
        done tt,
        record db { block_aol = some c; baolkvs = (body 12, 6 ∷ []) ∷ []; baol_latest_block = 12 },
      ))
    × IsLog c (stored_blocks ++ ([] ∷ (pair 10 4 ∷ []) ∷ []))
unfolding program block_of parse_block_number_from_value
put_with_data_type-IsLog_example =
    put_with_data_type-IsLog assoc_skiplist assoc_pebble assoc_state db three stored_blocks
      (body 12) (6 ∷ []) block_body_type 12 refl refl refl refl three-IsLog (omega arith)
      (omega arith) (omega arith) pair_ok (omega arith)
