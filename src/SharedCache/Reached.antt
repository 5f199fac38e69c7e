-- ===== src/SharedCache/Reached.antt =====
-- Every cache that the methods make of a new one stays within its capacity, and a value that was
-- added is found.
use theo_extension.Common.{
  ℕ, ◌+◌, ◌^◌, ◌≤◌, ◌<◌, ◌≡◌, refl, sym, ap, ◌∙◌, false, some, List, [], ◌∷◌, ◌==◌, arith, ltb,
  ge→ltb, All, Bool-cases, inl, inr, length, Option-cases,
}
use theo_extension.Common.Bytes.{Bytes, bytes_beq_iff}
use theo_extension.SharedCache.{
  CacheEntry, SharedByteCache, new_shared_byte_cache, is_item, find_item, unlink, remove_element,
  bump_freq, bump_item, touch_entry, counted_size, evict, add, get, get_no_touch, remove,
  remove_all, remove_namespace,
}
use theo_extension.SharedCache.Weights.{weigh, AreDistinct, own_entries}
use theo_extension.SharedCache.Evicted.{size_of, size_in, remove_element-IsCounted}
use theo_extension.SharedCache.Added.{
  IsCache, without_existing-IsCleared, find_own, touch_entry-IsCounted, remove-IsCache, added,
  pushed,
}

weigh-bump_item :
    {V : Type 0} (w : CacheEntry V → ℕ) (n : ℕ) (key : Bytes) (es : List (CacheEntry V))
    → ((e : CacheEntry V) → w (bump_freq e) ≡ w e)
    → weigh w (bump_item n key es) ≡ weigh w es
unfolding weigh bump_item
weigh-bump_item w n key [] h = refl
weigh-bump_item w n key (e ∷ es) h = elim (Bool-cases (is_item n key e)) [
  | inl b ↦ rw b (ap (λ u. u + weigh w es) (h e))
  | inr b ↦ rw b (ap (λ u. w e + u) (weigh-bump_item w n key es h))
]

All-bump_item :
    {V : Type 0} (m n : ℕ) (k key : Bytes) (es : List (CacheEntry V))
    → All (λ f. is_item m k f ≡ false) es
    → All (λ f. is_item m k f ≡ false) (bump_item n key es)
unfolding is_item bump_item
All-bump_item m n k key [] a = tt
All-bump_item m n k key (e ∷ es) a = elim (Bool-cases (is_item n key e)) [
  | inl b ↦ rw b (a.0, a.1)
  | inr b ↦ rw b (a.0, All-bump_item m n k key es a.1)
]

bump_item-AreDistinct :
    {V : Type 0} (n : ℕ) (key : Bytes) (es : List (CacheEntry V))
    → AreDistinct es
    → AreDistinct (bump_item n key es)
unfolding bump_item
bump_item-AreDistinct n key [] d = tt
bump_item-AreDistinct n key (e ∷ es) d = elim (Bool-cases (is_item n key e)) [
  | inl b ↦ rw b (d.0, d.1)
  | inr b ↦ rw b (All-bump_item e.namespace n e.key key es d.0, bump_item-AreDistinct n key es d.1)
]

bumped-IsCache :
    {V : Type 0} (n : ℕ) (key : Bytes) (c : SharedByteCache V)
    → IsCache c
    → IsCache (record c { ll = bump_item n key c.ll })
bumped-IsCache n key c i = record {
  counted = record {
    used = i.counted.used ∙ sym (weigh-bump_item size_of n key c.ll (λ e. refl));
    usage = λ m. i.counted.usage m ∙ sym (weigh-bump_item (size_in m) n key c.ll (λ e. refl));
    distinct = bump_item-AreDistinct n key c.ll i.counted.distinct;
  };
  within = i.within;
  small = i.small;
}

get_no_touch-IsCache :
    {V : Type 0} (n : ℕ) (key : Bytes) (c : SharedByteCache V)
    → IsCache c
    → IsCache (get_no_touch n key c).1
unfolding get_no_touch
get_no_touch-IsCache n key c i = elim (Bool-cases (length key == 0)) [
  | inl b ↦ rw b i
  | inr b ↦ elim (Option-cases (find_item n key c.ll)) [
    | inl f ↦ rw (b, f) i
    | inr (e, f) ↦ rw (b, f) (bumped-IsCache n key c i)
  ]
]

get-IsCache :
    {V : Type 0} (n : ℕ) (key : Bytes) (c : SharedByteCache V) → IsCache c → IsCache (get n key c).1
unfolding get touch_entry
get-IsCache n key c i = elim (Bool-cases (length key == 0)) [
  | inl b ↦ rw b i
  | inr b ↦ elim (Option-cases (find_item n key c.ll)) [
    | inl f ↦ rw (b, f) i
    | inr (e, f) ↦
        rw (b, f)
          (record {
            counted = touch_entry-IsCounted e c i.counted (find_own n key c.ll e f);
            within = i.within;
            small = i.small;
          })
  ]
]

find-unlink_other :
    {V : Type 0} (e f : CacheEntry V) (es : List (CacheEntry V))
    → is_item e.namespace e.key f ≡ false
    → find_item f.namespace f.key (unlink e.namespace e.key es) ≡ find_item f.namespace f.key es
unfolding find_item unlink is_item
find-unlink_other e f [] h = refl
find-unlink_other e f (g ∷ es) h = ground (
  arith,
  bytes_beq_iff f.key e.key,
  bytes_beq_iff g.key e.key,
  bytes_beq_iff g.key f.key,
  find-unlink_other e f es h,
)

still_there :
    {V : Type 0} (e : CacheEntry V) (whole es : List (CacheEntry V))
    → All (λ f. is_item e.namespace e.key f ≡ false) es
    → All (λ f. find_item f.namespace f.key whole ≡ some f) es
    → All (λ f. find_item f.namespace f.key (unlink e.namespace e.key whole) ≡ some f) es
still_there e whole [] d a = tt
still_there e whole (f ∷ es) d a =
    (find-unlink_other e f whole d.0 ∙ a.0, still_there e whole es d.1 a.1)

remove_all-IsCache :
    {V : Type 0} (n : ℕ) (es : List (CacheEntry V)) (c : SharedByteCache V)
    → IsCache c
    → AreDistinct es
    → All (λ f. find_item f.namespace f.key c.ll ≡ some f) es
    → IsCache (remove_all n es c)
unfolding remove_all
remove_all-IsCache n [] c i d a = i
remove_all-IsCache n (e ∷ es) c i d a = elim (Bool-cases (e.namespace == n)) [
  | inr b ↦ rw b (remove_all-IsCache n es c i d.1 a.1)
  | inl b ↦ rw b (
      remove_all-IsCache n es (remove_element e c)
        (record {
          counted = remove_element-IsCounted e c i.counted a.0;
          within = omega (arith, i.within);
          small = i.small;
        })
        d.1 (still_there e c.ll es d.0 a.1))
]

add-IsCache :
    {V : Type 0} (n : ℕ) (key : Bytes) (value : V) (size : ℕ) (c : SharedByteCache V)
    → IsCache c
    → IsCache (add n key value size c)
unfolding add
add-IsCache n key value size c i = elim (Bool-cases (length key == 0)) [
  | inl b ↦ rw b i
  | inr b ↦ elim (Bool-cases (ltb c.capacity_bytes (counted_size size))) [
    | inl l ↦ rw (b, l) (without_existing-IsCleared n key c (find_item n key c.ll) i refl).valid
    | inr l ↦
        (let (e, a, k, v, left) = added n key value size c i (ground (arith, l)) in
          rw (b, l)
            (record {
              counted = left.counted;
              within = omega (arith, left.within, left.capacity);
              small = omega (arith, left.capacity, i.small);
            }))
  ]
]

pub data Call (V : Type 0) : Type 0 where
  add_value : ℕ → Bytes → V → ℕ → Call V
  get_value get_value_no_touch remove_value : ℕ → Bytes → Call V
  remove_values : ℕ → Call V

unfoldable pub call : {V : Type 0} → Call V → SharedByteCache V → SharedByteCache V
call (add_value n key value size) c = add n key value size c
call (get_value n key) c = (get n key c).1
call (get_value_no_touch n key) c = (get_no_touch n key c).1
call (remove_value n key) c = remove n key c
call (remove_values n) c = remove_namespace n c

unfoldable pub calls : {V : Type 0} → List (Call V) → SharedByteCache V → SharedByteCache V
calls [] c = c
calls (x ∷ xs) c = calls xs (call x c)

call-IsCache : {V : Type 0} (x : Call V) (c : SharedByteCache V) → IsCache c → IsCache (call x c)
unfolding call remove_namespace
call-IsCache (add_value n key value size) c i = add-IsCache n key value size c i
call-IsCache (get_value n key) c i = get-IsCache n key c i
call-IsCache (get_value_no_touch n key) c i = get_no_touch-IsCache n key c i
call-IsCache (remove_value n key) c i = remove-IsCache n key c i
call-IsCache (remove_values n) c i =
    remove_all-IsCache n c.ll c i i.counted.distinct (own_entries c.ll i.counted.distinct)

calls_kept :
    {V : Type 0} (xs : List (Call V)) (c : SharedByteCache V) → IsCache c → IsCache (calls xs c)
unfolding calls
calls_kept [] c i = i
calls_kept (x ∷ xs) c i = calls_kept xs (call x c) (call-IsCache x c i)

-- Every cache that `Add`, `Get`, `GetNoTouch`, `Remove` and `RemoveNamespace` make of a new one, in
-- any order: no two entries have the same namespace and key, the bytes used are the sum of the
-- entries' sizes and the bytes of each namespace the sum of its entries' sizes, and the bytes used
-- are at most the capacity, which is below 2^63.
pub calls-IsCache :
    {V : Type 0} (xs : List (Call V)) (capacity : ℕ)
    → capacity < 2 ^ 63
    → IsCache (calls xs (new_shared_byte_cache capacity))
unfolding weigh
calls-IsCache xs capacity h = calls_kept xs (new_shared_byte_cache capacity) (record {
  counted = record { used = refl; usage = λ n. refl; distinct = tt };
  within = ground arith;
  small = ground arith;
})

-- In a cache that is within its capacity and whose sums are right: the value that `Add` has stored
-- is what `Get` of its namespace and key answers, however many other entries had to go. The key is
-- not empty, and the size of the value, which counts at least 1, is at most the capacity.
pub get-add :
    {V : Type 0} (n : ℕ) (key : Bytes) (value : V) (size : ℕ) (c : SharedByteCache V)
    → IsCache c
    → 0 < length key
    → counted_size size ≤ c.capacity_bytes
    → (get n key (add n key value size c)).0 ≡ some value
unfolding add get
get-add n key value size c i p h =
    let (e, a, k, v, left) = added n key value size c i h in
    let b : (length key == 0) ≡ false = ground arith in
    let l = ge→ltb c.capacity_bytes (counted_size size) h in
    let p = pushed n key value size c in
    let f =
      ap (λ m. find_item m key (evict (length p.ll) p).ll) (sym a)
      ∙ ap (λ j. find_item e.namespace j (evict (length p.ll) p).ll) (sym k)
      ∙ left.front in
    rw (b, l, f) (ap some v)
