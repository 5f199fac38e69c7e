-- ===== src/Batches/ReadBack.antt =====
-- What waits for a commit is read back until the commit takes it.
use theo_extension.Common.{
  ◌≡◌, refl, sym, ap, ◌∙◌, false, ◌&&◌, not, Option, none, some, [], ltb, if◌then◌else◌, length,
  Bool-cases, inl, inr, ◌⊎◌,
}
use theo_extension.Common.Bytes.{Bytes, bytes_beq, bytes_beq_iff, bytes_eq}
use theo_extension.Common.Maps.{lookup, insert, lookup-insert}
use theo_extension.Batches.{
  StorageBatcher, account_values, is_empty, put_storage, get_storage, Operations, WriteOperation,
  WriteBatch, check_and_commit, set_operation, add_operation, get_operation, shown,
}

-- A storage pair that was put for an account, which has a key that is not empty, is what `get`
-- answers for the account and the storage key, a deletion included; for every other account or
-- storage key it answers what it did before.
pub get_storage-put_storage :
    (account key other_account other : Bytes) (value : Option Bytes) (b : StorageBatcher)
    → is_empty account ≡ false
    → get_storage other_account other (put_storage account key value b) ≡ (
        if bytes_beq account other_account && bytes_beq key other
        then some value
        else get_storage other_account other b)
unfolding get_storage put_storage
get_storage-put_storage account key other_account other value b h =
    let old = account_values (lookup account b.pending) in
    rw (h, lookup-insert account other_account (insert key value old) b.pending)
      (elim (Bool-cases (bytes_beq account other_account)) [
        | inr d ↦ rw d refl
        | inl s ↦
            (let e : account ≡ other_account = (bytes_beq_iff account other_account).0 s in
              rw (s, lookup-insert key other value old, sym e, h)
                (elim (Bool-cases (bytes_beq key other)) [ inl k ↦ rw k refl | inr k ↦ rw k refl ]))
      ])

check_and_commit-cases :
    (wb : WriteBatch)
    → (check_and_commit wb ≡ (some wb.operations, record wb { operations = [] }))
      ⊎ (check_and_commit wb ≡ (none, wb))
unfolding check_and_commit
check_and_commit-cases wb =
    elim (Bool-cases
      (wb.auto_commit && (wb.has_db && not (ltb (length wb.operations) wb.threshold)))) [
        | inl b ↦ inl (rw b refl)
        | inr b ↦ inr (rw b refl)
      ]

emptied :
    (other : Bytes) (wb : WriteBatch) → get_operation other (record wb { operations = [] }) ≡ none
unfolding get_operation lookup
emptied other wb = refl

-- `add` of an operation to a batch loses nothing. Either it stays: `get` of its key then answers its
-- value and storage place, or nothing if it is a deletion, and `get` of every other key answers what
-- it did before. Or all operations go to the commit, this one for its key and the others as they
-- were, and the batch has none left.
pub get_operation-add_operation :
    (key other : Bytes) (op : WriteOperation) (wb : WriteBatch)
    → let r = add_operation key op wb in
      ((r.0 ≡ none)
        × (get_operation other r.1
            ≡ (if bytes_beq key other then shown (some op) else get_operation other wb)))
      ⊎ ((ops : Operations) × (r.0 ≡ some ops)
          × (lookup other ops
              ≡ (if bytes_beq key other then some op else lookup other wb.operations))
          × (get_operation other r.1 ≡ none))
unfolding add_operation get_operation
get_operation-add_operation key other op wb =
    let next = set_operation key op wb in
    let found = lookup-insert key other op wb.operations in
    elim (check_and_commit-cases next) [
      | inl c ↦ inr (
        next.operations,
        ap (λ r. r.0) c,
        found,
        ap (λ r. get_operation other r.1) c ∙ emptied other next,
      )
      | inr c ↦ inl (
        ap (λ r. r.0) c,
        ap (λ r. get_operation other r.1) c
            ∙ ap shown found
            ∙ elim (Bool-cases (bytes_beq key other)) [ inl k ↦ rw k refl | inr k ↦ rw k refl ],
      )
    ]
