-- ===== src/BlockLog/State.antt =====
-- The state of `BlockAppendOnlyLog` and the monad of its methods. A method works on the state and
-- returns a result or an error; what it wrote before an error stays written.
use theo_extension.Common.{ℕ, Bool, Option, List}
use theo_extension.Common.Bytes.{Bytes}
use theo_extension.BlockLog.Entry.{BlockIndexEntry}

-- `T` is the type of the skip list. A file that `Close` has set to nil is `none`; a file holds its
-- bytes, and a map that the bootstrap has released is `none` too.
pub record BlockAppendOnlyLog (T : Type 0) : Type 0 where
  pub data_file : Option Bytes
  pub current_offset : ℕ
  pub index_map_file : Option Bytes
  pub index_meta_file : Option Bytes
  pub block_index : Option (List (ℕ × BlockIndexEntry))
  pub min_block_id : ℕ
  pub latest_block_id : ℕ
  pub recent_n : ℕ
  pub recent_blocks : Option (List ℕ)
  pub skiplist_index : T
  pub indexed_blocks : Option (List ℕ)
  pub indexed_block_keys : Option (List (ℕ × List Bytes))
  pub index_buffer : List BlockIndexEntry
  pub closed : Bool

pub data Error : Type 0 where
  log_closed err_closed non_monotonic block_not_found requested_future_block : Error
  read_failed decode_failed negative_offset inconsistent_index : Error

pub data Result {ℓ} (A : Type ℓ) : Type ℓ where
  ok : A → Result A
  err : Error → Result A

abbrev pub Method : Type 0 → Type 0 → Type 0
Method T A = BlockAppendOnlyLog T → Result A × BlockAppendOnlyLog T

module _ {T : Type 0} where
  abbrev pub pure : {A : Type 0} → A → Method T A
  pure a b = (ok a, b)

  abbrev pub fail : {A : Type 0} → Error → Method T A
  fail e b = (err e, b)

  -- A change of the state that cannot fail.
  abbrev pub modify : (BlockAppendOnlyLog T → BlockAppendOnlyLog T) → Method T (Unit {0})
  modify f b = (ok tt, f b)

  abbrev pub gets : {A : Type 0} → (BlockAppendOnlyLog T → A) → Method T A
  gets f b = (ok (f b), b)

  abbrev pub continue : {A B : Type 0} → Result A → (A → Method T B) → Method T B
  continue (ok a) f b = f a b
  continue (err e) f b = (err e, b)

  infixl 5 ◌>>=◌ ◌>>◌
  abbrev pub ◌>>=◌ : {A B : Type 0} → Method T A → (A → Method T B) → Method T B
  ◌>>=◌ m f b = continue (m b).0 f (m b).1

  abbrev pub ◌>>◌ : {A B : Type 0} → Method T A → Method T B → Method T B
  m >> n = m >>= λ _. n
