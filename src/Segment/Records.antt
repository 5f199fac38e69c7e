-- ===== src/Segment/Records.antt =====
-- What one step reads of records that were written.
use theo_extension.Common.{
  ℕ, zero, suc, ◌+◌, ◌^◌, ◌<◌, ◌≡◌, refl, sym, ap, ◌∙◌, subst, false, ◌&&◌, List, [], ◌∷◌, ◌++◌,
  ◌==◌, arith, ltb, lt→ltb, ge→ltb, length, take, drop, length-append, length-take, take_prefix,
  drop_prefix, append_assoc, Bool-cases, inl, inr,
}
use theo_extension.Common.Bytes.{Bytes, put_uint64, uint_be, uint_be-put_uint64}
use theo_extension.Segment.{
  KvPair, write_uint16_be, write_pair, forward_commit_tag, number_at, forward_commit_tag_block_id,
  Step, tag, pair, next_record,
}

pub data Record : Type 0 where
  written_pair : KvPair → Record
  written_tag : ℕ → Record

unfoldable pub write_record : Record → Bytes
write_record (written_pair kv) = write_pair kv
write_record (written_tag i) = forward_commit_tag i

unfoldable pub write_records : List Record → Bytes
write_records [] = []
write_records (r ∷ rs) = write_record r ++ write_records rs

abbrev pub step_of : Record → Step
step_of (written_pair kv) = pair kv
step_of (written_tag i) = tag i

-- Lengths fit in 16 bits and are not both 0; the number of a tag fits in 64.
pub data IsRecord : Record → Type 0 where
  is_pair :
      (kv : KvPair)
      → length kv.key < 2 ^ 16
      → length kv.val < 2 ^ 16
      → 0 < length kv.key + length kv.val
      → IsRecord (written_pair kv)
  is_tag : (i : ℕ) → i < 2 ^ 64 → IsRecord (written_tag i)

uint_be-write_uint16_be : (v : ℕ) → v < 2 ^ 16 → uint_be (write_uint16_be v) ≡ v
unfolding uint_be
uint_be-write_uint16_be v h = omega arith

pub length-write_pair : (kv : KvPair) → length (write_pair kv) ≡ 4 + length kv.key + length kv.val
unfolding write_pair
length-write_pair kv = omega (arith, length-append kv.key kv.val)

pub length-forward_commit_tag : (i : ℕ) → length (forward_commit_tag i) ≡ 12
unfolding forward_commit_tag put_uint64
length-forward_commit_tag i = refl

drop_more : (k n : ℕ) (xs ys : Bytes) → k ≡ length xs + n → drop k (xs ++ ys) ≡ drop n ys
drop_more k n [] ys e = ap (λ j. drop j ys) (omega arith)
drop_more zero n (x ∷ xs) ys e = absurd (omega arith)
drop_more (suc k) n (x ∷ xs) ys e = drop_more k n xs ys (omega arith)

module _ (front : Bytes) (kv : KvPair) (rest : Bytes) (cursor : ℕ) (at : cursor ≡ length front)
    (key_fits : length kv.key < 2 ^ 16) (val_fits : length kv.val < 2 ^ 16) where
  abbrev payload : Bytes
  payload = front ++ (write_pair kv ++ rest)

  key_length : number_at payload cursor 2 ≡ length kv.key
  unfolding write_pair
  key_length =
      ap (λ b. uint_be (take 2 b)) (drop_more cursor 0 front _ (omega arith))
      ∙ uint_be-write_uint16_be (length kv.key) key_fits

  val_length : number_at payload (cursor + 2) 2 ≡ length kv.val
  unfolding write_pair
  val_length =
      ap (λ b. uint_be (take 2 b)) (drop_more (cursor + 2) 2 front _ (omega arith))
      ∙ uint_be-write_uint16_be (length kv.val) val_fits

  key_there : take (length kv.key) (drop (cursor + 4) payload) ≡ kv.key
  unfolding write_pair
  key_there =
      ap (take (length kv.key)) (drop_more (cursor + 4) 4 front _ (omega arith))
      ∙ ap (take (length kv.key)) (append_assoc kv.key kv.val rest)
      ∙ take_prefix (length kv.key) kv.key (kv.val ++ rest) refl

  val_there : take (length kv.val) (drop (cursor + 4 + length kv.key) payload) ≡ kv.val
  unfolding write_pair
  val_there =
      ap (take (length kv.val)) (
        drop_more (cursor + 4 + length kv.key) (4 + length kv.key) front _ (omega arith)
        ∙ drop_more (4 + length kv.key) (length kv.key)
            (write_uint16_be (length kv.key) ++ write_uint16_be (length kv.val))
            ((kv.key ++ kv.val) ++ rest) (omega arith)
        ∙ ap (drop (length kv.key)) (append_assoc kv.key kv.val rest)
        ∙ drop_prefix (length kv.key) kv.key (kv.val ++ rest) refl)
      ∙ take_prefix (length kv.val) kv.val rest refl

  pub next_record-pair : 0 < length kv.key + length kv.val → next_record payload cursor ≡ pair kv
  unfolding next_record
  next_record-pair some_bytes =
      let whole : length payload ≡ cursor + (4 + length kv.key + length kv.val + length rest) =
        omega (
          arith,
          length-append front (write_pair kv ++ rest),
          length-append (write_pair kv) rest,
          length-write_pair kv,
        ) in
      let z : (length kv.key == 0 && length kv.val == 0) ≡ false = ground arith in
      rw
        (
          lt→ltb cursor (length payload) (omega (arith, whole)),
          ge→ltb (length payload) (cursor + 4) (omega (arith, whole)),
          key_length,
          val_length,
          z,
          ge→ltb (length payload) (cursor + 4 + length kv.key + length kv.val)
              (omega (arith, whole)),
          key_there,
          val_there,
        )
        refl

zero_length : uint_be (0 ∷ 0 ∷ []) ≡ 0
unfolding uint_be
zero_length = refl

module _ (front : Bytes) (i : ℕ) (rest : Bytes) (cursor : ℕ) (at : cursor ≡ length front) where
  abbrev tag_payload : Bytes
  tag_payload = front ++ (forward_commit_tag i ++ rest)

  no_key : number_at tag_payload cursor 2 ≡ 0
  unfolding forward_commit_tag
  no_key = ap (λ b. uint_be (take 2 b)) (drop_more cursor 0 front _ (omega arith)) ∙ zero_length

  no_val : number_at tag_payload (cursor + 2) 2 ≡ 0
  unfolding forward_commit_tag
  no_val =
      ap (λ b. uint_be (take 2 b)) (drop_more (cursor + 2) 2 front _ (omega arith)) ∙ zero_length

  block_there : i < 2 ^ 64 → number_at tag_payload (cursor + 4) 8 ≡ i
  unfolding forward_commit_tag put_uint64
  block_there h =
      ap (λ b. uint_be (take 8 b)) (drop_more (cursor + 4) 4 front _ (omega arith))
      ∙ uint_be-put_uint64 i h

  pub next_record-tag : i < 2 ^ 64 → next_record tag_payload cursor ≡ tag i
  unfolding next_record forward_commit_tag_block_id
  next_record-tag h =
      let whole : length tag_payload ≡ cursor + (12 + length rest) = omega (
        arith,
        length-append front (forward_commit_tag i ++ rest),
        length-append (forward_commit_tag i) rest,
        length-forward_commit_tag i,
      ) in
      rw
        (
          lt→ltb cursor (length tag_payload) (omega (arith, whole)),
          ge→ltb (length tag_payload) (cursor + 4) (omega (arith, whole)),
          no_key,
          no_val,
          ge→ltb (length tag_payload) (cursor + 12) (omega (arith, whole)),
          block_there h,
        )
        refl

pub next_record-written :
    (front : Bytes) (r : Record) (rest : Bytes) (cursor : ℕ)
    → cursor ≡ length front
    → IsRecord r
    → next_record (front ++ (write_record r ++ rest)) cursor ≡ step_of r
unfolding write_record
next_record-written front _ rest cursor at (is_pair kv k v p) =
    next_record-pair front kv rest cursor at k v p
next_record-written front _ rest cursor at (is_tag i h) = next_record-tag front i rest cursor at h

-- The steps at which the loops end.
abbrev pub IsStop : Step → Type 0
IsStop (tag i) = ⊥
IsStop (pair kv) = ⊥
IsStop _ = Unit

-- A record that was cut off in the middle of its bytes.
pub record IsTorn (bytes : Bytes) : Type 0 where
  pub torn : Record
  pub kept : ℕ
  pub whole : IsRecord torn
  pub short : kept < length (write_record torn)
  pub cut : bytes ≡ take kept (write_record torn)

IsStop-short :
    (payload : Bytes) (cursor : ℕ)
    → length payload < cursor + 4
    → IsStop (next_record payload cursor)
unfolding next_record
IsStop-short payload cursor h = elim (Bool-cases (ltb cursor (length payload))) [
  | inl e ↦ rw (e, lt→ltb (length payload) (cursor + 4) h) tt
  | inr e ↦ rw e tt
]

IsStop-pair :
    (front : Bytes) (kv : KvPair) (n : ℕ)
    → length kv.key < 2 ^ 16
    → length kv.val < 2 ^ 16
    → 0 < length kv.key + length kv.val
    → n < length kv.key + length kv.val
    → IsStop (next_record (front ++ take (suc (suc (suc (suc n)))) (write_pair kv)) (length front))
unfolding next_record write_pair
IsStop-pair front kv n k v p h =
    let cursor = length front in
    let bytes = take (suc (suc (suc (suc n)))) (write_pair kv) in
    let whole : length (front ++ bytes) ≡ cursor + (4 + n) = omega (
      arith,
      length-append front bytes,
      length-take n (kv.key ++ kv.val),
      length-append kv.key kv.val,
    ) in
    let z : (length kv.key == 0 && length kv.val == 0) ≡ false = ground arith in
    let kl : number_at (front ++ bytes) cursor 2 ≡ length kv.key =
      ap (λ b. uint_be (take 2 b)) (drop_more cursor 0 front bytes (omega arith))
      ∙ uint_be-write_uint16_be (length kv.key) k in
    let vl : number_at (front ++ bytes) (cursor + 2) 2 ≡ length kv.val =
      ap (λ b. uint_be (take 2 b)) (drop_more (cursor + 2) 2 front bytes (omega arith))
      ∙ uint_be-write_uint16_be (length kv.val) v in
    rw
      (
        lt→ltb cursor (length (front ++ bytes)) (omega (arith, whole)),
        ge→ltb (length (front ++ bytes)) (cursor + 4) (omega (arith, whole)),
        kl,
        vl,
        z,
        lt→ltb (length (front ++ bytes)) (cursor + 4 + length kv.key + length kv.val)
            (omega (arith, whole)),
      )
      tt

IsStop-tag :
    (front : Bytes) (i n : ℕ)
    → n < 8
    → IsStop (
        next_record (front ++ take (suc (suc (suc (suc n)))) (forward_commit_tag i)) (length front))
unfolding next_record forward_commit_tag forward_commit_tag_block_id put_uint64
IsStop-tag front i n h =
    let cursor = length front in
    let bytes = take (suc (suc (suc (suc n)))) (forward_commit_tag i) in
    let whole : length (front ++ bytes) ≡ cursor + (4 + n) =
      omega (arith, length-append front bytes, length-take n (put_uint64 i)) in
    let kl : number_at (front ++ bytes) cursor 2 ≡ 0 =
      ap (λ b. uint_be (take 2 b)) (drop_more cursor 0 front bytes (omega arith)) ∙ zero_length in
    let vl : number_at (front ++ bytes) (cursor + 2) 2 ≡ 0 =
      ap (λ b. uint_be (take 2 b)) (drop_more (cursor + 2) 2 front bytes (omega arith))
      ∙ zero_length in
    rw
      (
        lt→ltb cursor (length (front ++ bytes)) (omega (arith, whole)),
        ge→ltb (length (front ++ bytes)) (cursor + 4) (omega (arith, whole)),
        kl,
        vl,
        lt→ltb (length (front ++ bytes)) (cursor + 12) (omega (arith, whole)),
      )
      tt

IsStop-cut :
    (front : Bytes) (r : Record) (n : ℕ)
    → IsRecord r
    → n < length (write_record r)
    → IsStop (next_record (front ++ take n (write_record r)) (length front))
unfolding write_record
IsStop-cut front _ (suc (suc (suc (suc n)))) (is_pair kv k v p) h =
    IsStop-pair front kv n k v p (omega (arith, length-write_pair kv))
IsStop-cut front _ (suc (suc (suc (suc n)))) (is_tag i b) h =
    IsStop-tag front i n (omega (arith, length-forward_commit_tag i))
IsStop-cut front r n w h =
    IsStop-short (front ++ take n (write_record r)) (length front)
      (omega (arith, length-append front (take n (write_record r)), length-take n (write_record r)))

-- The loops end at a record that was cut off.
pub next_record-torn :
    (front bytes : Bytes) (cursor : ℕ)
    → cursor ≡ length front
    → IsTorn bytes
    → IsStop (next_record (front ++ bytes) cursor)
next_record-torn front bytes cursor at t =
    subst (λ c. IsStop (next_record (front ++ bytes) c)) (sym at)
      (subst (λ b. IsStop (next_record (front ++ b) (length front))) (sym t.cut)
        (IsStop-cut front t.torn t.kept t.whole t.short))
