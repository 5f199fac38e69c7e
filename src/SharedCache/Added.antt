-- ===== src/SharedCache/Added.antt =====
-- What the methods of the cache do to its entries and sums.
use theo_extension.Common.{
  ℕ, ◌+◌, ◌%◌, ◌^◌, ◌≤◌, ◌<◌, ◌≡◌, refl, ap, ◌∙◌, subst, false, Option, none, some, List, [], ◌∷◌,
  ◌==◌, arith, All, Bool-cases, inl, inr, length,
}
use theo_extension.Common.Bytes.{Bytes, bytes_beq_iff}
use theo_extension.SharedCache.{
  CacheEntry, SharedByteCache, is_item, find_item, unlink, touched, touch_entry, push_entry,
  without_existing, freq_of, new_entry, counted_size, evict, remove,
}
use theo_extension.SharedCache.Weights.{weigh, AreDistinct, weigh-unlink, unlink-AreDistinct}
use theo_extension.SharedCache.Evicted.{
  size_of, size_in, IsCounted, remove_element-IsCounted, IsLeft, evict-IsLeft,
}

pub found_item :
    {V : Type 0} (n : ℕ) (key : Bytes) (es : List (CacheEntry V)) (e : CacheEntry V)
    → find_item n key es ≡ some e
    → (e.namespace ≡ n) × (e.key ≡ key)
unfolding find_item is_item
found_item n key [] e h = absurd (ground arith)
found_item n key (f ∷ es) e h = elim (Bool-cases (is_item n key f)) [
  | inl b ↦ ground (arith, b, bytes_beq_iff f.key key)
  | inr b ↦ found_item n key es e (ground (arith, b))
]

pub find_own :
    {V : Type 0} (n : ℕ) (key : Bytes) (es : List (CacheEntry V)) (e : CacheEntry V)
    → find_item n key es ≡ some e
    → find_item e.namespace e.key es ≡ some e
find_own n key es e h =
    let (a, b) = found_item n key es e h in
    ap (λ m. find_item m e.key es) a ∙ ap (λ k. find_item n k es) b ∙ h

pub unlink_gone :
    {V : Type 0} (n : ℕ) (key : Bytes) (es : List (CacheEntry V))
    → AreDistinct es
    → All (λ f. is_item n key f ≡ false) (unlink n key es)
unfolding unlink is_item
unlink_gone n key [] d = tt
unlink_gone n key (e ∷ es) d = elim (Bool-cases (is_item n key e)) [
  | inl b ↦
      (let m : e.namespace ≡ n = ground (arith, b) in
        let k : e.key ≡ key = ground (arith, b, bytes_beq_iff e.key key) in
        rw b (
          subst (λ j. All (λ f. is_item j key f ≡ false) es) m
            (subst (λ j. All (λ f. is_item e.namespace j f ≡ false) es) k d.0)))
  | inr b ↦ rw b (b, unlink_gone n key es d.1)
]

absent :
    {V : Type 0} (n : ℕ) (key : Bytes) (es : List (CacheEntry V))
    → find_item n key es ≡ none
    → All (λ f. is_item n key f ≡ false) es
unfolding find_item
absent n key [] h = tt
absent n key (f ∷ es) h = elim (Bool-cases (is_item n key f)) [
  | inl b ↦ absurd (ground (arith, b))
  | inr b ↦ (b, absent n key es (ground (arith, b)))
]

weigh-le : {V : Type 0} (n : ℕ) (es : List (CacheEntry V)) → weigh (size_in n) es ≤ weigh size_of es
unfolding weigh
weigh-le n [] = omega arith
weigh-le n (e ∷ es) = ground (arith, weigh-le n es)

pub push_entry-IsCounted :
    {V : Type 0} (e : CacheEntry V) (c : SharedByteCache V)
    → IsCounted c
    → All (λ f. is_item e.namespace e.key f ≡ false) c.ll
    → c.used_bytes + e.size_bytes < 2 ^ 64
    → IsCounted (push_entry e c)
unfolding push_entry weigh
push_entry-IsCounted e c i a h = record {
  used = omega (arith, i.used);
  usage = λ n. ground (arith, i.usage n, i.used, weigh-le n c.ll);
  distinct = (a, i.distinct);
}

pub touch_entry-IsCounted :
    {V : Type 0} (e : CacheEntry V) (c : SharedByteCache V)
    → IsCounted c
    → find_item e.namespace e.key c.ll ≡ some e
    → IsCounted (touch_entry e c)
unfolding touch_entry weigh
touch_entry-IsCounted e c i f = record {
  used = omega (arith, i.used, weigh-unlink size_of e.namespace e.key c.ll e f);
  usage = λ n. i.usage n ∙ omega (arith, weigh-unlink (size_in n) e.namespace e.key c.ll e f);
  distinct = (
    unlink_gone e.namespace e.key c.ll i.distinct,
    unlink-AreDistinct e.namespace e.key c.ll i.distinct,
  );
}

-- A cache whose sums are right and which stays within its capacity.
pub record IsCache {V : Type 0} (c : SharedByteCache V) : Type 0 where
  pub counted : IsCounted c
  pub within : c.used_bytes ≤ c.capacity_bytes
  pub small : c.capacity_bytes < 2 ^ 63

pub record IsCleared {V : Type 0} (n : ℕ) (key : Bytes) (k : ℕ) (c : SharedByteCache V)
    : Type 0 where
  pub valid : IsCache c
  pub capacity : c.capacity_bytes ≡ k
  pub gone : All (λ f. is_item n key f ≡ false) c.ll

pub without_existing-IsCleared :
    {V : Type 0} (n : ℕ) (key : Bytes) (c : SharedByteCache V) (o : Option (CacheEntry V))
    → IsCache c
    → find_item n key c.ll ≡ o
    → IsCleared n key c.capacity_bytes (without_existing o c)
without_existing-IsCleared n key c none i f = record {
  valid = i;
  capacity = refl;
  gone = absent n key c.ll f;
}
without_existing-IsCleared n key c (some e) i f =
    let (a, b) = found_item n key c.ll e f in
    let gone = unlink_gone e.namespace e.key c.ll i.counted.distinct in
    record {
      valid = record {
        counted = remove_element-IsCounted e c i.counted (find_own n key c.ll e f);
        within = omega (arith, i.within);
        small = i.small;
      };
      capacity = refl;
      gone =
          subst (λ m. All (λ g. is_item m key g ≡ false) (unlink e.namespace e.key c.ll)) a
            (subst (λ j. All (λ g. is_item e.namespace j g ≡ false) (unlink e.namespace e.key c.ll))
              b gone);
    }

pub remove-IsCache :
    {V : Type 0} (n : ℕ) (key : Bytes) (c : SharedByteCache V)
    → IsCache c
    → IsCache (remove n key c)
unfolding remove
remove-IsCache n key c i = elim (Bool-cases (length key == 0)) [
  | inl b ↦ rw b i
  | inr b ↦ rw b (without_existing-IsCleared n key c (find_item n key c.ll) i refl).valid
]

-- The state in which `Add` begins to evict.
abbrev pub pushed : {V : Type 0} → ℕ → Bytes → V → ℕ → SharedByteCache V → SharedByteCache V
pushed n key value size c =
    push_entry (new_entry n key value size (freq_of (find_item n key c.ll)))
      (without_existing (find_item n key c.ll) c)

pub added :
    {V : Type 0} (n : ℕ) (key : Bytes) (value : V) (size : ℕ) (c : SharedByteCache V)
    → IsCache c
    → counted_size size ≤ c.capacity_bytes
    → let p = pushed n key value size c in
      (e : CacheEntry V) × (e.namespace ≡ n)
      × (e.key ≡ key)
      × (e.value ≡ value)
      × IsLeft c.capacity_bytes e (evict (length p.ll) p)
unfolding push_entry
added n key value size c i h =
    let k = without_existing-IsCleared n key c (find_item n key c.ll) i refl in
    let base = without_existing (find_item n key c.ll) c in
    let e = new_entry n key value size (freq_of (find_item n key c.ll)) in
    let t = touched ((base.clock + 1) % 2 ^ 64) e in
    let p = push_entry e base in
    (
      t,
      refl,
      refl,
      refl,
      subst (λ m. IsLeft m t (evict (length p.ll) p)) k.capacity
          (evict-IsLeft (length p.ll) p t base.ll refl
            (push_entry-IsCounted e base k.valid.counted k.gone
              (omega (arith, h, k.valid.within, k.valid.small, k.capacity)))
            (omega (arith, h, k.capacity)) (omega arith)),
    )
