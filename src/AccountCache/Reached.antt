-- ===== src/AccountCache/Reached.antt =====
-- Every cache that `Get` and `Put` make of a new one points only to entries that it has.
use theo_extension.Common.{
  ℕ, zero, suc, ◌+◌, ◌<◌, ◌≡◌, refl, sym, subst, true, ◌||◌, Option, none, some, List, [], ◌∷◌,
  ◌==◌, ltb, if◌then◌else◌, arith, length, replicate, length-replicate, Bool-cases, inl, inr,
  ltb→lt,
}
use theo_extension.Common.Bytes.{Bytes, bytes_eq}
use theo_extension.Common.Maps.{lookup}
use theo_extension.AccountCache.{
  AccountHashToKeyCache, fresh_entry, entry_of, at, update_at, attach_front, move_to_front,
  or_first, alloc_index, fill_entry, new_account_hash_to_key_cache, get_key, reuse_entry, put_new,
  put_key, default_capacity,
}
use theo_extension.AccountCache.Frame.{attach_front-IsSame}
use theo_extension.AccountCache.Range.{
  IsBelow, HasLinks, IsInRange, moved-IsInRange, move_to_front-IsInRange, attach_front-IsLinked,
  fill-IsInRange, insert-IsInRange, erase-IsInRange, reuse_entry-IsInRange, reuse_entry-cap,
}

fresh-links : (n m j : ℕ) → HasLinks n (entry_of (replicate m fresh_entry) j)
unfolding entry_of
fresh-links n zero j = (tt, tt)
fresh-links n (suc m) zero = (tt, tt)
fresh-links n (suc m) (suc j) = fresh-links n m j

fresh-IsInRange :
    (n : ℕ)
    → 0 < n
    → IsInRange (record {
      cap = n;
      size = 0;
      head = none;
      tail = none;
      index = [];
      entries = replicate n fresh_entry;
    })
unfolding lookup
fresh-IsInRange n p = record {
  full = length-replicate n fresh_entry;
  positive = p;
  linked = record { first = tt; last = tt; links = fresh-links n n };
  mapped = λ h. tt;
}

new-IsInRange : (capacity : ℕ) → IsInRange (new_account_hash_to_key_cache capacity)
unfolding new_account_hash_to_key_cache
new-IsInRange capacity =
    fresh-IsInRange (if capacity == 0 then default_capacity else capacity) (ground arith)

put_new-IsInRange :
    (hash key : Bytes) (i : ℕ) (c : AccountHashToKeyCache)
    → i < c.cap
    → IsInRange c
    → IsInRange (put_new hash key i c)
unfolding put_new
put_new-IsInRange hash key i c k r =
    let d = update_at i (fill_entry hash key) (reuse_entry i c) in
    let q = fill-IsInRange i hash key (reuse_entry i c) (reuse_entry-IsInRange i c r) in
    let s = attach_front-IsSame i d in
    let k' : i < d.cap = subst (λ n. i < n) (sym (reuse_entry-cap i c)) k in
    insert-IsInRange hash i (attach_front i d) (subst (λ n. i < n) (sym s.same_cap) k')
      (moved-IsInRange s (attach_front-IsLinked d.cap i d k' q.linked) q)

resized : (n : ℕ) (c : AccountHashToKeyCache) → IsInRange c → IsInRange (record c { size = n })
resized n c r = record {
  full = r.full;
  positive = r.positive;
  linked = record { first = r.linked.first; last = r.linked.last; links = r.linked.links };
  mapped = r.mapped;
}

or_first-lt : (n : ℕ) (o : Option ℕ) → 0 < n → IsBelow n o → or_first o < n
or_first-lt n none p h = p
or_first-lt n (some i) p h = h

pub alloc_index-IsInRange :
    (c : AccountHashToKeyCache)
    → IsInRange c
    → ((alloc_index c).0 < (alloc_index c).1.cap) × IsInRange (alloc_index c).1
unfolding alloc_index
alloc_index-IsInRange c r = elim (Bool-cases (ltb c.size c.cap)) [
  | inl e ↦ rw e (ltb→lt _ _ e, resized (c.size + 1) c r)
  | inr e ↦ rw e (or_first-lt c.cap c.tail r.positive r.linked.last, r)
]

stored :
    (hash key : Bytes) (o : Option ℕ) (c : AccountHashToKeyCache)
    → IsInRange c
    → IsBelow c.cap o
    → IsInRange (elim o [
      | some idx ↦ move_to_front idx (update_at idx (fill_entry hash key) c)
      | none ↦ put_new hash key (alloc_index c).0 (alloc_index c).1
    ])
stored hash key none c r h =
    let q = alloc_index-IsInRange c r in
    put_new-IsInRange hash key (alloc_index c).0 (alloc_index c).1 q.0 q.1
stored hash key (some i) c r h =
    move_to_front-IsInRange i (update_at i (fill_entry hash key) c) h
      (fill-IsInRange i hash key c r)

put_key-IsInRange :
    (hash key : Bytes) (c : AccountHashToKeyCache) → IsInRange c → IsInRange (put_key hash key c)
unfolding put_key
put_key-IsInRange hash key c r =
    let q = stored hash key (lookup hash c.index) c r (r.mapped hash) in
    elim (Bool-cases (length hash == 32)) [
      | inl e ↦ elim (Bool-cases (length key == 0 || ltb 64 (length key))) [
        | inl z ↦ rw (e, z) r
        | inr z ↦ rw (e, z) q
      ]
      | inr e ↦ rw e r
    ]

found :
    (hash : Bytes) (o : Option ℕ) (c : AccountHashToKeyCache)
    → IsInRange c
    → length hash ≡ 32
    → lookup hash c.index ≡ o
    → IsInRange (get_key hash c).1
unfolding get_key
found hash none c r l h = let t : (length hash == 32) ≡ true = ground arith in rw (t, h) r
found hash (some i) c r l h =
    let t : (length hash == 32) ≡ true = ground arith in
    elim (Bool-cases (at c i).in_use) [
      | inl e ↦
          rw (t, h, e) (move_to_front-IsInRange i c (subst (IsBelow c.cap) h (r.mapped hash)) r)
      | inr e ↦ rw (t, h, e) (erase-IsInRange hash c r)
    ]

get_key-IsInRange :
    (hash : Bytes) (c : AccountHashToKeyCache) → IsInRange c → IsInRange (get_key hash c).1
unfolding get_key
get_key-IsInRange hash c r = elim (Bool-cases (length hash == 32)) [
  | inl e ↦ found hash (lookup hash c.index) c r (ground arith) refl
  | inr e ↦ rw e r
]

-- A call of a method of the cache.
pub data Call : Type 0 where
  getting : Bytes → Call
  putting : Bytes → Bytes → Call

-- The cache after some calls.
pub run : List Call → AccountHashToKeyCache → AccountHashToKeyCache
run [] c = c
run (getting hash ∷ calls) c = run calls (get_key hash c).1
run (putting hash key ∷ calls) c = run calls (put_key hash key c)

run-from : (calls : List Call) (c : AccountHashToKeyCache) → IsInRange c → IsInRange (run calls c)
unfolding run
run-from [] c r = r
run-from (getting hash ∷ calls) c r = run-from calls (get_key hash c).1 (get_key-IsInRange hash c r)
run-from (putting hash key ∷ calls) c r =
    run-from calls (put_key hash key c) (put_key-IsInRange hash key c r)

-- After any calls of `Get` and `Put` on a new cache, the array has as many entries as the capacity,
-- and head, tail, the links of all entries and the index point only to entries in it.
pub run-IsInRange :
    (capacity : ℕ) (calls : List Call)
    → IsInRange (run calls (new_account_hash_to_key_cache capacity))
run-IsInRange capacity calls =
    run-from calls (new_account_hash_to_key_cache capacity) (new-IsInRange capacity)
