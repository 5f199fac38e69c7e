-- ===== src/Database/Pending.antt =====
-- The pairs that wait for their block in THEO/theo.go, read back.
use theo_extension.Common.{
  ℕ, ◌≤◌, ◌≡◌, refl, ap, true, false, some, ge→ltb, if◌then◌else◌, Bool-cases, inl, inr,
}
use theo_extension.Common.Bytes.{Bytes, bytes_beq, bytes_eq}
use theo_extension.Common.Maps.{lookup-insert}
use theo_extension.KeyType.{DataType}
use theo_extension.BlockLog.Skiplist.{SkipList}
use theo_extension.Database.Stores.{PebbleStore, StateStore, done}
use theo_extension.Database.State.{Database, is_aol_handled}
use theo_extension.Database.Get.{get, get_from_aol}
use theo_extension.Database.Put.{block_of, insert_pending, put_with_data_type}

module _ (S : SkipList) (PS : PebbleStore) (SS : StateStore) where
  open S use {T}
  open PS use {P}
  open SS use {D}

  same_block :
      (d : Database P D T) (key value : Bytes) (t : DataType) (n : ℕ)
      → d.is_closed ≡ false
      → is_aol_handled t ≡ true
      → block_of key value t ≡ some n
      → n ≤ d.baol_latest_block
      → put_with_data_type S PS SS key value t d ≡ (done tt, insert_pending S PS SS key value d)
  unfolding put_with_data_type
  same_block d key value t n c a b h = rw (c, a, b, ge→ltb d.baol_latest_block n h) refl

  read_pending :
      (d : Database P D T) (key value other : Bytes)
      → d.is_closed ≡ false
      → get_from_aol S PS SS other (insert_pending S PS SS key value d)
        ≡ (if bytes_beq key other then done value else get_from_aol S PS SS other d)
  unfolding get_from_aol
  read_pending d key value other c =
      rw (c, lookup-insert key other value d.baolkvs)
        (elim (Bool-cases (bytes_beq key other)) [ inl e ↦ rw e refl | inr e ↦ rw e refl ])

  -- On an open database, `PutWithDataType` of a key of a type that the block log handles, whose
  -- block is not beyond the pending one, succeeds without touching the stores. A read of any key
  -- from the log then answers the new value if it is that key, and what it answered before if not.
  pub get-put_with_data_type :
      (d : Database P D T) (key value other : Bytes) (t : DataType) (n : ℕ)
      → d.is_closed ≡ false
      → is_aol_handled t ≡ true
      → block_of key value t ≡ some n
      → n ≤ d.baol_latest_block
      → (e : Database P D T) × (put_with_data_type S PS SS key value t d ≡ (done tt, e))
        × (get S PS SS other t e
            ≡ ((if bytes_beq key other then done value else (get S PS SS other t d).0), e))
        × (e.pebble ≡ d.pebble)
        × (e.statepdb ≡ d.statepdb)
        × (e.block_aol ≡ d.block_aol)
  unfolding get
  get-put_with_data_type d key value other t n c a b h = (
    insert_pending S PS SS key value d,
    same_block d key value t n c a b h,
    rw a (ap (λ r. (r, insert_pending S PS SS key value d)) (read_pending d key value other c)),
    refl,
    refl,
    refl,
  )
