-- ===== src/AccountCache/ReadBack.antt =====
-- What `Put` stores in the cache, `Get` answers.
use theo_extension.Common.{
  subst, List, ℕ, zero, suc, ◌≤◌, ◌<◌, ◌≡◌, refl, ap, ◌∙◌, true, false, ◌||◌, Option, none, some,
  List, [], ◌∷◌, ◌==◌, ltb, arith, length, drop, take_prefix, Bool-cases, inl, inr,
}
use theo_extension.Common.Bytes.{Bytes, bytes_eq}
use theo_extension.Common.Maps.{lookup, erase, lookup-insert, beq_refl}
use theo_extension.AccountCache.{
  new_account_hash_to_key_cache, AccountHashToKeyCacheEntry, AccountHashToKeyCache, entry_of,
  change_entry, at, update_at, attach_front, move_to_front, alloc_index, get_key, fill_entry,
  reuse_entry, put_new, put_key,
}
use theo_extension.AccountCache.Range.{IsBelow, IsInRange}
use theo_extension.AccountCache.Reached.{alloc_index-IsInRange, Call, run, run-IsInRange}
use theo_extension.AccountCache.Frame.{
  content, contents, attach_front-contents, move_to_front-contents, detach-IsSame,
  move_to_front-IsSame,
}

-- An entry that is filled has the key, in a cache of which the index is part.
filled :
    (hash key : Bytes) (es : List AccountHashToKeyCacheEntry) (i : ℕ)
    → i < length es
    → content (entry_of (change_entry (fill_entry hash key) es i) i)
      ≡ record { bytes = key; used = true }
unfolding entry_of change_entry
filled hash key [] i h = absurd (omega arith)
filled hash key (e ∷ es) zero h =
    ap (λ b. record { bytes = b; used = true })
      (take_prefix (length key) key (drop (length key) e.key) refl)
filled hash key (e ∷ es) (suc i) h = filled hash key es i (omega arith)

hit :
    (hash key : Bytes) (i : ℕ) (c : AccountHashToKeyCache)
    → length hash ≡ 32
    → lookup hash c.index ≡ some i
    → contents c i ≡ record { bytes = key; used = true }
    → (get_key hash c).0 ≡ some key
unfolding get_key
hit hash key i c l h e =
    let u : (at c i).in_use ≡ true = ap (λ s. s.used) e in
    let t : (length hash == 32) ≡ true = ground arith in rw (t, h, u) (ap (λ s. some s.bytes) e)

put_old :
    (hash key : Bytes) (i : ℕ) (c : AccountHashToKeyCache)
    → length hash ≡ 32
    → lookup hash c.index ≡ some i
    → i < length c.entries
    → (get_key hash (move_to_front i (update_at i (fill_entry hash key) c))).0 ≡ some key
put_old hash key i c l h k =
    let d = update_at i (fill_entry hash key) c in
    hit hash key i (move_to_front i d) l
      (ap (lookup hash) (move_to_front-IsSame i d).same_index ∙ h)
      (move_to_front-contents i d i ∙ filled hash key c.entries i k)

reuse_entry-length :
    (i : ℕ) (c : AccountHashToKeyCache) → length (reuse_entry i c).entries ≡ length c.entries
unfolding reuse_entry
reuse_entry-length i c = elim (Bool-cases (at c i).in_use) [
  | inl e ↦ rw e (detach-IsSame i (record c { index = erase (at c i).hash c.index })).same_length
  | inr e ↦ rw e refl
]

put_new-read :
    (hash key : Bytes) (i : ℕ) (c : AccountHashToKeyCache)
    → length hash ≡ 32
    → i < length c.entries
    → (get_key hash (put_new hash key i c)).0 ≡ some key
unfolding put_new
put_new-read hash key i c l k =
    let d = update_at i (fill_entry hash key) (reuse_entry i c) in
    hit hash key i _ l
      (lookup-insert hash hash i (attach_front i d).index ∙ rw (beq_refl hash) refl)
      (attach_front-contents i d i
        ∙ filled hash key (reuse_entry i c).entries i (omega (arith, reuse_entry-length i c)))

alloc_index-lt :
    (c : AccountHashToKeyCache) → IsInRange c → (alloc_index c).0 < length (alloc_index c).1.entries
alloc_index-lt c r = let q = alloc_index-IsInRange c r in omega (arith, q.0, q.1.full)

put_mapped :
    (hash key : Bytes) (o : Option ℕ) (c : AccountHashToKeyCache)
    → IsInRange c
    → length hash ≡ 32
    → 0 < length key
    → length key ≤ 64
    → lookup hash c.index ≡ o
    → (get_key hash (put_key hash key c)).0 ≡ some key
unfolding put_key
put_mapped hash key none c r l p k h =
    let t : (length hash == 32) ≡ true = ground arith in
    let z : (length key == 0 || ltb 64 (length key)) ≡ false = ground arith in
    rw (t, z, h) (put_new-read hash key (alloc_index c).0 (alloc_index c).1 l (alloc_index-lt c r))
put_mapped hash key (some i) c r l p k h =
    let t : (length hash == 32) ≡ true = ground arith in
    let z : (length key == 0 || ltb 64 (length key)) ≡ false = ground arith in
    rw (t, z, h)
      (put_old hash key i c l h (omega (arith, subst (IsBelow c.cap) h (r.mapped hash), r.full)))

-- After any calls of `Get` and `Put` on a new cache, `Get` of a hash to which `Put` has just given a
-- key answers this key, whether the hash had one, a free entry is taken, or the least recent entry
-- is used again. Hashes have 32 bytes and keys 1 to 64.
pub get_key-put_key :
    (capacity : ℕ) (calls : List Call) (hash key : Bytes)
    → length hash ≡ 32
    → 0 < length key
    → length key ≤ 64
    → (get_key hash (put_key hash key (run calls (new_account_hash_to_key_cache capacity)))).0
      ≡ some key
get_key-put_key capacity calls hash key l p k =
    let c = run calls (new_account_hash_to_key_cache capacity) in
    put_mapped hash key (lookup hash c.index) c (run-IsInRange capacity calls) l p k refl
