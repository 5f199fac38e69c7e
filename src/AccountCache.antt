-- ===== src/AccountCache.antt =====
-- The LRU cache from account hashes to account keys (THEO/account_hash_key_cache.go). The entries
-- are an array whose used part is linked as a list, most recent first; an `int32` that is -1 where
-- there is no entry is `none`. Both methods hold the cache's lock, so each is one step.
pub mod Frame
pub mod Range
pub mod Reached
pub mod ReadBack
use theo_extension.Common.{
  ℕ, zero, suc, ◌+◌, Bool, true, false, ◌&&◌, ◌||◌, not, Option, none, some, List, [], ◌∷◌, ◌++◌,
  ◌==◌, ltb, if◌then◌else◌, length, take, drop, replicate,
}
use theo_extension.Common.Bytes.{Bytes, bytes_eq}
use theo_extension.Common.Maps.{lookup, insert, erase}

pub record AccountHashToKeyCacheEntry : Type 0 where
  pub hash : Bytes
  pub key : Bytes
  pub key_len : ℕ
  pub prev : Option ℕ
  pub next : Option ℕ
  pub in_use : Bool

pub record AccountHashToKeyCache : Type 0 where
  pub cap : ℕ
  pub size : ℕ
  pub head : Option ℕ
  pub tail : Option ℕ
  pub index : List (Bytes × ℕ)
  pub entries : List AccountHashToKeyCacheEntry

abbrev pub Change : Type 0
Change = AccountHashToKeyCacheEntry → AccountHashToKeyCacheEntry

-- `copy(dst[:], src)` into an array at least as long
abbrev pub copy_into : Bytes → Bytes → Bytes
copy_into dst src = src ++ drop (length src) dst

abbrev pub fresh_entry : AccountHashToKeyCacheEntry
fresh_entry = record {
  hash = replicate 32 0;
  key = replicate 64 0;
  key_len = 0;
  prev = none;
  next = none;
  in_use = false;
}

-- `c.entries[i]`, for an index in range
unfoldable pub entry_of : List AccountHashToKeyCacheEntry → ℕ → AccountHashToKeyCacheEntry
entry_of [] i = fresh_entry
entry_of (e ∷ es) zero = e
entry_of (e ∷ es) (suc i) = entry_of es i

-- A change of the entry that `&c.entries[i]` points to.
unfoldable pub change_entry :
    Change → List AccountHashToKeyCacheEntry → ℕ → List AccountHashToKeyCacheEntry
change_entry f [] i = []
change_entry f (e ∷ es) zero = f e ∷ es
change_entry f (e ∷ es) (suc i) = e ∷ change_entry f es i

abbrev pub at : AccountHashToKeyCache → ℕ → AccountHashToKeyCacheEntry
at c i = entry_of c.entries i

abbrev pub update_at : ℕ → Change → AccountHashToKeyCache → AccountHashToKeyCache
update_at i f c = record c { entries = change_entry f c.entries i }

abbrev pub set_prev : Option ℕ → Change
set_prev p e = record e { prev = p }

abbrev pub set_next : Option ℕ → Change
set_next n e = record e { next = n }

-- `defaultAccountHashToKeyCacheCapacity`
abbrev pub default_capacity : ℕ
default_capacity = 10000

-- `newAccountHashToKeyCache`, for capacities below 2^31; one that is not positive counts as 0.
unfoldable pub new_account_hash_to_key_cache : ℕ → AccountHashToKeyCache
new_account_hash_to_key_cache capacity =
    let n = if capacity == 0 then default_capacity else capacity in
    record {
      cap = n;
      size = 0;
      head = none;
      tail = none;
      index = [];
      entries = replicate n fresh_entry;
    }

-- The two halves of `detach`: the neighbours of an entry are linked to one another.
unfoldable pub link_prev : Option ℕ → Option ℕ → AccountHashToKeyCache → AccountHashToKeyCache
link_prev none n c = record c { head = n }
link_prev (some p) n c = update_at p (set_next n) c

unfoldable pub link_next : Option ℕ → Option ℕ → AccountHashToKeyCache → AccountHashToKeyCache
link_next none p c = record c { tail = p }
link_next (some n) p c = update_at n (set_prev p) c

unfoldable pub detach : ℕ → AccountHashToKeyCache → AccountHashToKeyCache
detach idx c =
    let p = (at c idx).prev in
    let n = (at c idx).next in
    update_at idx (λ e. record e { prev = none; next = none }) (link_next n p (link_prev p n c))

unfoldable pub link_head : Option ℕ → ℕ → AccountHashToKeyCache → AccountHashToKeyCache
link_head none idx c = record c { tail = some idx }
link_head (some h) idx c = update_at h (set_prev (some idx)) c

unfoldable pub attach_front : ℕ → AccountHashToKeyCache → AccountHashToKeyCache
attach_front idx c =
    let linked = update_at idx (λ e. record e { prev = none; next = c.head }) c in
    let headed = link_head c.head idx linked in record headed { head = some idx }

abbrev pub is_at : ℕ → Option ℕ → Bool
is_at idx none = false
is_at idx (some h) = idx == h

unfoldable pub move_to_front : ℕ → AccountHashToKeyCache → AccountHashToKeyCache
move_to_front idx c = if is_at idx c.head then c else attach_front idx (detach idx c)

abbrev pub or_first : Option ℕ → ℕ
or_first none = 0
or_first (some i) = i

-- `allocIndexLocked`: the next free entry, or the least recent one.
unfoldable pub alloc_index : AccountHashToKeyCache → ℕ × AccountHashToKeyCache
alloc_index c =
    if ltb c.size c.cap then (c.size, record c { size = c.size + 1 }) else (or_first c.tail, c)

-- `Get`: the key, where the hash has one.
unfoldable pub get_key : Bytes → AccountHashToKeyCache → Option Bytes × AccountHashToKeyCache
get_key hash c = if not (length hash == 32) then (none, c) else elim (lookup hash c.index) [
  | none ↦ (none, c)
  | some idx ↦
      if (at c idx).in_use
      then (some (take (at c idx).key_len (at c idx).key), move_to_front idx c)
      else (none, record c { index = erase hash c.index })
]

-- The fields that `Put` writes into an entry.
abbrev pub fill_entry : Bytes → Bytes → Change
fill_entry hash key e = record e {
  hash = copy_into e.hash hash;
  key = copy_into e.key key;
  key_len = length key;
  in_use = true;
}

-- An entry that is used again loses its old mapping.
unfoldable pub reuse_entry : ℕ → AccountHashToKeyCache → AccountHashToKeyCache
reuse_entry idx c =
    if (at c idx).in_use then detach idx (record c { index = erase (at c idx).hash c.index }) else c

unfoldable pub put_new : Bytes → Bytes → ℕ → AccountHashToKeyCache → AccountHashToKeyCache
put_new hash key idx c =
    let attached = attach_front idx (update_at idx (fill_entry hash key) (reuse_entry idx c)) in
    record attached { index = insert hash idx attached.index }

-- `Put`
unfoldable pub put_key : Bytes → Bytes → AccountHashToKeyCache → AccountHashToKeyCache
put_key hash key c =
    if not (length hash == 32)
    then c
    else if length key == 0 || ltb 64 (length key)
    then c
    else elim (lookup hash c.index) [
      | some idx ↦ move_to_front idx (update_at idx (fill_entry hash key) c)
      | none ↦ put_new hash key (alloc_index c).0 (alloc_index c).1
    ]
