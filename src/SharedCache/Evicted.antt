-- ===== src/SharedCache/Evicted.antt =====
-- What eviction leaves: the newest entry stays, and the entries fit in the capacity.
use theo_extension.Common.{
  ℕ, zero, suc, ◌+◌, ◌-◌, ◌≤◌, ◌<◌, ◌≡◌, refl, sym, ap, ◌∙◌, subst, true, false, Option, none, some,
  List, [], ◌∷◌, ◌==◌, arith, ltb, ge→ltb, if◌then◌else◌, All, Bool-cases, inl, inr, length, take,
  length-take,
}
use theo_extension.SharedCache.{
  CacheEntry, SharedByteCache, eviction_sample, is_item, find_item, unlink, remove_element,
  from_back, candidates, worst, worst_of, is_worse, select_victim, evict, drop_if_full,
}
use theo_extension.SharedCache.Weights.{
  weigh, AreDistinct, weigh-unlink, length-unlink, unlink-AreDistinct, is_item_self, is_item_sym,
  own_entries,
}

abbrev pub size_of : {V : Type 0} → CacheEntry V → ℕ
size_of e = e.size_bytes

abbrev pub size_in : {V : Type 0} → ℕ → CacheEntry V → ℕ
size_in n e = if e.namespace == n then e.size_bytes else 0

pub record IsCounted {V : Type 0} (c : SharedByteCache V) : Type 0 where
  pub used : c.used_bytes ≡ weigh size_of c.ll
  pub usage : (n : ℕ) → c.namespace_usage n ≡ weigh (size_in n) c.ll
  pub distinct : AreDistinct c.ll

usage_left :
    {V : Type 0} (e : CacheEntry V) (n before after : ℕ)
    → after + size_in n e ≡ before
    → (if e.namespace == n then before - e.size_bytes else before) ≡ after
usage_left e n before after h = elim (Bool-cases (e.namespace == n)) [
  | inl b ↦ ground (arith, b)
  | inr b ↦ ground (arith, b)
]

pub remove_element-IsCounted :
    {V : Type 0} (e : CacheEntry V) (c : SharedByteCache V)
    → IsCounted c
    → find_item e.namespace e.key c.ll ≡ some e
    → IsCounted (remove_element e c)
remove_element-IsCounted e c i f = record {
  used = omega (arith, i.used, weigh-unlink size_of e.namespace e.key c.ll e f);
  usage = λ n.
      ap (λ u. if e.namespace == n then u - e.size_bytes else u) (i.usage n)
      ∙ usage_left e n _ _ (weigh-unlink (size_in n) e.namespace e.key c.ll e f);
  distinct = unlink-AreDistinct e.namespace e.key c.ll i.distinct;
}

All-from_back :
    {V : Type 0} (P : CacheEntry V → Type 0) (es seen : List (CacheEntry V))
    → All P es
    → All P seen
    → All P (from_back es seen)
unfolding from_back
All-from_back P [] seen a b = b
All-from_back P (e ∷ es) seen a b = All-from_back P es (e ∷ seen) a.1 (a.0, b)

length-from_back :
    {V : Type 0} (es seen : List (CacheEntry V))
    → length (from_back es seen) ≡ length es + length seen
unfolding from_back
length-from_back [] seen = omega arith
length-from_back (e ∷ es) seen = omega (arith, length-from_back es (e ∷ seen))

All-take :
    {V : Type 0} (P : CacheEntry V → Type 0) (n : ℕ) (es : List (CacheEntry V))
    → All P es
    → All P (take n es)
All-take P zero es a = tt
All-take P (suc n) [] a = tt
All-take P (suc n) (e ∷ es) a = (a.0, All-take P n es a.1)

worst-All :
    {V : Type 0} (P : CacheEntry V → Type 0) (v : CacheEntry V) (es : List (CacheEntry V))
    → P v
    → All P es
    → P (worst v es)
unfolding worst
worst-All P v [] p a = p
worst-All P v (e ∷ es) p a = elim (Bool-cases (is_worse e v)) [
  | inl b ↦ rw b (worst-All P e es a.0 a.1)
  | inr b ↦ rw b (worst-All P v es p a.1)
]

worst_of-some :
    {V : Type 0} (P : CacheEntry V → Type 0) (es : List (CacheEntry V))
    → 0 < length es
    → All P es
    → (v : CacheEntry V) × (worst_of es ≡ some v) × P v
unfolding worst_of
worst_of-some P [] h a = absurd (omega arith)
worst_of-some P (e ∷ es) h a = (worst e es, refl, worst-All P e es a.0 a.1)

-- Behind the front there is a victim.
victim_behind :
    {V : Type 0} (P : CacheEntry V → Type 0) (e f : CacheEntry V) (fs : List (CacheEntry V))
    → All P (f ∷ fs)
    → (v : CacheEntry V) × (select_victim (e ∷ f ∷ fs) ≡ some v) × P v
unfolding candidates
victim_behind P e f fs a =
    worst_of-some P (take eviction_sample (from_back (f ∷ fs) []))
      (omega
        (arith, length-take eviction_sample (from_back (f ∷ fs) []), length-from_back (f ∷ fs) []))
      (All-take P eviction_sample (from_back (f ∷ fs) []) (All-from_back P (f ∷ fs) [] a tt))

both :
    {V : Type 0} (P Q : CacheEntry V → Type 0) (es : List (CacheEntry V))
    → All P es
    → All Q es
    → All (λ e. P e × Q e) es
both P Q [] a b = tt
both P Q (e ∷ es) a b = ((a.0, b.0), both P Q es a.1 b.1)

evict_step :
    {V : Type 0} (fuel : ℕ) (c : SharedByteCache V) (v : CacheEntry V)
    → select_victim c.ll ≡ some v
    → ltb c.capacity_bytes c.used_bytes ≡ true
    → evict (suc fuel) c ≡ evict fuel (remove_element v c)
unfolding evict
evict_step fuel c v s h = ap (drop_if_full c (λ w. evict fuel (remove_element w c))) s ∙ rw h refl

not_full :
    {V : Type 0} (c : SharedByteCache V) (drop : CacheEntry V → SharedByteCache V)
    (s : Option (CacheEntry V))
    → ltb c.capacity_bytes c.used_bytes ≡ false
    → drop_if_full c drop s ≡ c
not_full c drop none h = refl
not_full c drop (some v) h = rw h refl

evict_stop :
    {V : Type 0} (fuel : ℕ) (c : SharedByteCache V)
    → ltb c.capacity_bytes c.used_bytes ≡ false
    → evict fuel c ≡ c
unfolding evict
evict_stop zero c h = refl
evict_stop (suc fuel) c h = not_full c (λ v. evict fuel (remove_element v c)) (select_victim c.ll) h

-- What is left of a cache with the capacity `k` and `e` in front.
pub record IsLeft {V : Type 0} (k : ℕ) (e : CacheEntry V) (c : SharedByteCache V) : Type 0 where
  pub counted : IsCounted c
  pub within : c.used_bytes ≤ k
  pub capacity : c.capacity_bytes ≡ k
  pub front : find_item e.namespace e.key c.ll ≡ some e

stays_front :
    {V : Type 0} (e v : CacheEntry V) (es : List (CacheEntry V))
    → is_item e.namespace e.key v ≡ false
    → unlink v.namespace v.key (e ∷ es) ≡ e ∷ unlink v.namespace v.key es
unfolding unlink
stays_front e v es h = rw (is_item_sym e v h) refl

front_found :
    {V : Type 0} (e : CacheEntry V) (ll es : List (CacheEntry V))
    → ll ≡ e ∷ es
    → find_item e.namespace e.key ll ≡ some e
unfolding find_item
front_found e ll es p = rw (p, is_item_self e) refl

behind_found :
    {V : Type 0} (e v : CacheEntry V) (es : List (CacheEntry V))
    → is_item e.namespace e.key v ≡ false
    → find_item v.namespace v.key es ≡ some v
    → find_item v.namespace v.key (e ∷ es) ≡ some v
unfolding find_item
behind_found e v es h f = rw (is_item_sym e v h) f

alone :
    {V : Type 0} (c : SharedByteCache V) (e : CacheEntry V)
    → c.ll ≡ e ∷ []
    → IsCounted c
    → c.used_bytes ≡ e.size_bytes
unfolding weigh
alone c e p i = i.used ∙ ap (weigh size_of) p ∙ omega arith

pub evict-IsLeft :
    {V : Type 0} (fuel : ℕ) (c : SharedByteCache V) (e : CacheEntry V) (es : List (CacheEntry V))
    → c.ll ≡ e ∷ es
    → IsCounted c
    → e.size_bytes ≤ c.capacity_bytes
    → length es ≤ fuel
    → IsLeft c.capacity_bytes e (evict fuel c)
evict-IsLeft fuel c e [] p i h enough =
    let fits : ltb c.capacity_bytes c.used_bytes ≡ false =
      ge→ltb c.capacity_bytes c.used_bytes (omega (arith, alone c e p i)) in
    subst (λ r. IsLeft c.capacity_bytes e r) (sym (evict_stop fuel c fits))
      (record {
        counted = i;
        within = omega (arith, alone c e p i);
        capacity = refl;
        front = front_found e c.ll [] p;
      })
evict-IsLeft zero c e (f ∷ fs) p i h enough = absurd (omega arith)
evict-IsLeft (suc fuel) c e (f ∷ fs) p i h enough =
    elim (Bool-cases (ltb c.capacity_bytes c.used_bytes)) [
      | inr b ↦
          subst (λ r. IsLeft c.capacity_bytes e r) (sym (evict_stop (suc fuel) c b))
            (record {
              counted = i;
              within = ground (arith, b);
              capacity = refl;
              front = front_found e c.ll (f ∷ fs) p;
            })
      | inl b ↦
          (let d = subst (λ l. AreDistinct l) p i.distinct in
            let (v, s, q) =
              victim_behind
                (λ v.
                  (is_item e.namespace e.key v ≡ false)
                  × (find_item v.namespace v.key (f ∷ fs) ≡ some v))
                e f fs (both _ _ (f ∷ fs) d.0 (own_entries (f ∷ fs) d.1)) in
            let found = ap (find_item v.namespace v.key) p ∙ behind_found e v (f ∷ fs) q.0 q.1 in
            let shorter = length-unlink v.namespace v.key (f ∷ fs) v q.1 in
            subst (λ r. IsLeft c.capacity_bytes e r)
              (sym (evict_step fuel c v (ap select_victim p ∙ s) b))
              (evict-IsLeft fuel (remove_element v c) e (unlink v.namespace v.key (f ∷ fs))
                (ap (unlink v.namespace v.key) p ∙ stays_front e v (f ∷ fs) q.0)
                (remove_element-IsCounted v c i found) h (omega arith)))
    ]
