-- ===== src/Database/Stores.antt =====
-- The stores behind the database of THEO/theo.go, as interfaces: Pebble (THEO/pebblestore/pebble.go,
-- over a third-party library) and the prefix store of the world state (THEO/prefixdb). `Reply` is
-- what a call answers.
use theo_extension.Common.{ℕ, Bool, Option, List}
use theo_extension.Common.Bytes.{Bytes}
use theo_extension.KeyType.{DataType}
use theo_extension.BlockLog.State.{Error}

pub data DbError : Type 0 where
  db_closed not_found not_initialized no_block_id spans_blocks : DbError
  bad_storage_key no_account_key nil_pointer store_failed : DbError
  log_error : Error → DbError

pub data Reply {ℓ} (A : Type ℓ) : Type ℓ where
  done : A → Reply A
  refused : DbError → Reply A

-- A value that is nil is `none`: in a batch it stands for a deletion.
pub record PebbleStore : Type 1 where
  pub P : Type 0
  pub get : Bytes → P → Reply Bytes
  pub put : Bytes → Bytes → P → Reply (Unit {0}) × P
  pub delete : Bytes → P → Reply (Unit {0}) × P
  -- What an iterator over all keys goes through, and the write of a batch of deletions.
  pub keys : P → List Bytes
  pub delete_batch : List Bytes → P → Reply (Unit {0}) × P
  pub flush : P → Reply (Unit {0}) × P
  pub close : P → Reply (Unit {0}) × P

-- The last argument before the state is the account key of a storage key. A read may fill caches.
pub record StateStore : Type 1 where
  pub D : Type 0
  pub get : DataType → Bytes → Option Bytes → D → Reply (Option Bytes) × D
  pub has : DataType → Bytes → Option Bytes → D → Reply Bool × D
  pub put : DataType → Bytes → Bytes → Option Bytes → D → Reply (Unit {0}) × D
  pub batch_put : DataType → Bytes → Option Bytes → Option Bytes → D → Reply (Unit {0}) × D
  pub batch_commit : ℕ → D → Reply (Unit {0}) × D
  pub delete : DataType → Bytes → Option Bytes → D → Reply (Unit {0}) × D
  pub close : D → D
