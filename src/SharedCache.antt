-- ===== src/SharedCache.antt =====
-- The cache that the prefix store's caches share (THEO/prefixdb/shared_cache.go). The list `ll` is
-- written from its front to its back, and `items`, which leads from a key to the element of the list,
-- is a search in it: the two change together. The callback of an evicted value, the lock and its
-- statistics are left out.
pub mod Weights
pub mod Evicted
pub mod Added
pub mod Reached
use theo_extension.Common.{
  ℕ, zero, suc, ◌+◌, ◌-◌, ◌%◌, ◌^◌, Bool, true, false, ◌&&◌, ◌||◌, not, Option, none, some, List,
  [], ◌∷◌, ◌==◌, ltb, leb, if◌then◌else◌, length, take,
}
use theo_extension.Common.Bytes.{Bytes, bytes_beq}

pub record CacheEntry (V : Type 0) : Type 0 where
  pub namespace : ℕ
  pub key : Bytes
  pub value : V
  pub size_bytes : ℕ
  pub freq : ℕ
  pub last_touch : ℕ

pub record SharedByteCache (V : Type 0) : Type 0 where
  pub capacity_bytes : ℕ
  pub used_bytes : ℕ
  pub namespace_usage : ℕ → ℕ
  pub ll : List (CacheEntry V)
  pub clock : ℕ

-- `sharedCacheEvictionSample`
abbrev pub eviction_sample : ℕ
eviction_sample = 32

abbrev pub new_shared_byte_cache : {V : Type 0} → ℕ → SharedByteCache V
new_shared_byte_cache capacity = record {
  capacity_bytes = if capacity == 0 then 1 else capacity;
  used_bytes = 0;
  namespace_usage = λ n. 0;
  ll = [];
  clock = 0;
}

unfoldable pub is_item : {V : Type 0} → ℕ → Bytes → CacheEntry V → Bool
is_item n key e = e.namespace == n && bytes_beq e.key key

unfoldable pub find_item : {V : Type 0} → ℕ → Bytes → List (CacheEntry V) → Option (CacheEntry V)
find_item n key [] = none
find_item n key (e ∷ es) = if is_item n key e then some e else find_item n key es

unfoldable pub unlink : {V : Type 0} → ℕ → Bytes → List (CacheEntry V) → List (CacheEntry V)
unlink n key [] = []
unlink n key (e ∷ es) = if is_item n key e then es else e ∷ unlink n key es

-- Subtraction stops at 0.
abbrev pub remove_element : {V : Type 0} → CacheEntry V → SharedByteCache V → SharedByteCache V
remove_element e c = record c {
  ll = unlink e.namespace e.key c.ll;
  used_bytes = c.used_bytes - e.size_bytes;
  namespace_usage =
      λ n. if e.namespace == n then c.namespace_usage n - e.size_bytes else c.namespace_usage n;
}

abbrev pub bumped : ℕ → ℕ
bumped freq = if freq == 2 ^ 32 - 1 then freq else freq + 1

abbrev pub bump_freq : {V : Type 0} → CacheEntry V → CacheEntry V
bump_freq e = record e { freq = bumped e.freq }

abbrev pub touched : {V : Type 0} → ℕ → CacheEntry V → CacheEntry V
touched clock e = record (bump_freq e) { last_touch = clock }

unfoldable pub touch_entry : {V : Type 0} → CacheEntry V → SharedByteCache V → SharedByteCache V
touch_entry e c =
    let clock = (c.clock + 1) % 2 ^ 64 in
    record c { clock = clock; ll = touched clock e ∷ unlink e.namespace e.key c.ll }

abbrev is_empty_key : Bytes → Bool
is_empty_key key = length key == 0

abbrev pub touch_found :
    {V : Type 0} → Option (CacheEntry V) → SharedByteCache V → Option V × SharedByteCache V
touch_found none c = (none, c)
touch_found (some e) c = (some e.value, touch_entry e c)

unfoldable pub get : {V : Type 0} → ℕ → Bytes → SharedByteCache V → Option V × SharedByteCache V
get n key c = if is_empty_key key then (none, c) else touch_found (find_item n key c.ll) c

unfoldable pub bump_item : {V : Type 0} → ℕ → Bytes → List (CacheEntry V) → List (CacheEntry V)
bump_item n key [] = []
bump_item n key (e ∷ es) = if is_item n key e then bump_freq e ∷ es else e ∷ bump_item n key es

abbrev pub bump_found :
    {V : Type 0}
    → ℕ
    → Bytes
    → Option (CacheEntry V)
    → SharedByteCache V
    → Option V × SharedByteCache V
bump_found n key none c = (none, c)
bump_found n key (some e) c = (some e.value, record c { ll = bump_item n key c.ll })

unfoldable pub get_no_touch :
    {V : Type 0} → ℕ → Bytes → SharedByteCache V → Option V × SharedByteCache V
get_no_touch n key c =
    if is_empty_key key then (none, c) else bump_found n key (find_item n key c.ll) c

unfoldable pub from_back :
    {V : Type 0} → List (CacheEntry V) → List (CacheEntry V) → List (CacheEntry V)
from_back [] seen = seen
from_back (e ∷ es) seen = from_back es (e ∷ seen)

-- The sample of `selectVictimLocked`, from the back: the front is skipped unless it is alone.
unfoldable pub candidates : {V : Type 0} → List (CacheEntry V) → List (CacheEntry V)
candidates [] = []
candidates (e ∷ []) = e ∷ []
candidates (e ∷ f ∷ es) = take eviction_sample (from_back (f ∷ es) [])

abbrev pub is_worse : {V : Type 0} → CacheEntry V → CacheEntry V → Bool
is_worse e victim =
    ltb e.freq victim.freq || (e.freq == victim.freq && ltb e.last_touch victim.last_touch)

unfoldable pub worst : {V : Type 0} → CacheEntry V → List (CacheEntry V) → CacheEntry V
worst victim [] = victim
worst victim (e ∷ es) = if is_worse e victim then worst e es else worst victim es

unfoldable pub worst_of : {V : Type 0} → List (CacheEntry V) → Option (CacheEntry V)
worst_of [] = none
worst_of (e ∷ es) = some (worst e es)

abbrev pub select_victim : {V : Type 0} → List (CacheEntry V) → Option (CacheEntry V)
select_victim es = worst_of (candidates es)

abbrev pub drop_if_full :
    {V : Type 0}
    → SharedByteCache V
    → (CacheEntry V → SharedByteCache V)
    → Option (CacheEntry V)
    → SharedByteCache V
drop_if_full c drop none = c
drop_if_full c drop (some victim) = if ltb c.capacity_bytes c.used_bytes then drop victim else c

-- The loop of `Add`: each round removes an entry.
unfoldable pub evict : {V : Type 0} → ℕ → SharedByteCache V → SharedByteCache V
evict zero c = c
evict (suc fuel) c =
    drop_if_full c (λ victim. evict fuel (remove_element victim c)) (select_victim c.ll)

abbrev pub without_existing :
    {V : Type 0} → Option (CacheEntry V) → SharedByteCache V → SharedByteCache V
without_existing none c = c
without_existing (some e) c = remove_element e c

abbrev pub freq_of : {V : Type 0} → Option (CacheEntry V) → ℕ
freq_of none = 1
freq_of (some e) = e.freq

-- The entry is pushed to the front and touched.
unfoldable pub push_entry : {V : Type 0} → CacheEntry V → SharedByteCache V → SharedByteCache V
push_entry e c =
    let clock = (c.clock + 1) % 2 ^ 64 in
    record c {
      clock = clock;
      ll = touched clock e ∷ c.ll;
      used_bytes = (c.used_bytes + e.size_bytes) % 2 ^ 64;
      namespace_usage = λ n.
          if e.namespace == n
          then (c.namespace_usage n + e.size_bytes) % 2 ^ 64
          else c.namespace_usage n;
    }

abbrev pub counted_size : ℕ → ℕ
counted_size size = if size == 0 then 1 else size

abbrev pub new_entry : {V : Type 0} → ℕ → Bytes → V → ℕ → ℕ → CacheEntry V
new_entry n key value size freq = record {
  namespace = n;
  key = key;
  value = value;
  size_bytes = counted_size size;
  freq = freq;
  last_touch = 0;
}

unfoldable pub add : {V : Type 0} → ℕ → Bytes → V → ℕ → SharedByteCache V → SharedByteCache V
add n key value size c =
    let existing = find_item n key c.ll in
    let cleared = without_existing existing c in
    let pushed = push_entry (new_entry n key value size (freq_of existing)) cleared in
    if is_empty_key key
    then c
    else if ltb c.capacity_bytes (counted_size size)
    then cleared
    else evict (length pushed.ll) pushed

unfoldable pub remove : {V : Type 0} → ℕ → Bytes → SharedByteCache V → SharedByteCache V
remove n key c = if is_empty_key key then c else without_existing (find_item n key c.ll) c

unfoldable pub remove_all :
    {V : Type 0} → ℕ → List (CacheEntry V) → SharedByteCache V → SharedByteCache V
remove_all n [] c = c
remove_all n (e ∷ es) c =
    if e.namespace == n then remove_all n es (remove_element e c) else remove_all n es c

unfoldable pub remove_namespace : {V : Type 0} → ℕ → SharedByteCache V → SharedByteCache V
remove_namespace n c = remove_all n c.ll c
