-- ===== src/SharedCache/Weights.antt =====
-- Sums over the entries of a cache, when entries come and go.
use theo_extension.Common.{
  ℕ, ◌+◌, ◌≡◌, refl, true, false, some, List, [], ◌∷◌, arith, All, Bool-cases, inl, inr, length,
}
use theo_extension.Common.Bytes.{Bytes, bytes_beq_iff}
use theo_extension.SharedCache.{CacheEntry, is_item, find_item, unlink}

unfoldable pub weigh : {V : Type 0} → (CacheEntry V → ℕ) → List (CacheEntry V) → ℕ
weigh w [] = 0
weigh w (e ∷ es) = w e + weigh w es

-- No two entries have the same namespace and key.
abbrev pub AreDistinct : {V : Type 0} → List (CacheEntry V) → Type 0
AreDistinct [] = Unit
AreDistinct (e ∷ es) = All (λ f. is_item e.namespace e.key f ≡ false) es × AreDistinct es

pub weigh-unlink :
    {V : Type 0} (w : CacheEntry V → ℕ) (n : ℕ) (key : Bytes) (es : List (CacheEntry V))
    (e : CacheEntry V)
    → find_item n key es ≡ some e
    → weigh w (unlink n key es) + w e ≡ weigh w es
unfolding weigh find_item unlink
weigh-unlink w n key [] e h = absurd (ground arith)
weigh-unlink w n key (f ∷ es) e h = elim (Bool-cases (is_item n key f)) [
  | inl b ↦ ground (arith, b)
  | inr b ↦ ground (arith, b, weigh-unlink w n key es e)
]

pub length-unlink :
    {V : Type 0} (n : ℕ) (key : Bytes) (es : List (CacheEntry V)) (e : CacheEntry V)
    → find_item n key es ≡ some e
    → length (unlink n key es) + 1 ≡ length es
unfolding find_item unlink
length-unlink n key [] e h = absurd (ground arith)
length-unlink n key (f ∷ es) e h = elim (Bool-cases (is_item n key f)) [
  | inl b ↦ ground (arith, b)
  | inr b ↦ ground (arith, b, length-unlink n key es e)
]

pub All-unlink :
    {V : Type 0} (P : CacheEntry V → Type 0) (n : ℕ) (key : Bytes) (es : List (CacheEntry V))
    → All P es
    → All P (unlink n key es)
unfolding unlink
All-unlink P n key [] a = tt
All-unlink P n key (e ∷ es) a = elim (Bool-cases (is_item n key e)) [
  | inl b ↦ rw b a.1
  | inr b ↦ rw b (a.0, All-unlink P n key es a.1)
]

pub unlink-AreDistinct :
    {V : Type 0} (n : ℕ) (key : Bytes) (es : List (CacheEntry V))
    → AreDistinct es
    → AreDistinct (unlink n key es)
unfolding unlink
unlink-AreDistinct n key [] d = tt
unlink-AreDistinct n key (e ∷ es) d = elim (Bool-cases (is_item n key e)) [
  | inl b ↦ rw b d.1
  | inr b ↦ rw b (All-unlink _ n key es d.0, unlink-AreDistinct n key es d.1)
]

pub is_item_self : {V : Type 0} (e : CacheEntry V) → is_item e.namespace e.key e ≡ true
unfolding is_item
is_item_self e = ground (arith, bytes_beq_iff e.key e.key)

pub is_item_sym :
    {V : Type 0} (e f : CacheEntry V)
    → is_item e.namespace e.key f ≡ false
    → is_item f.namespace f.key e ≡ false
unfolding is_item
is_item_sym e f h = ground (arith, bytes_beq_iff e.key f.key, bytes_beq_iff f.key e.key)

-- Behind the key of a list's own entry stands this entry.
found_behind :
    {V : Type 0} (g : CacheEntry V) (whole es : List (CacheEntry V))
    → All (λ f. is_item g.namespace g.key f ≡ false) es
    → All (λ f. find_item f.namespace f.key whole ≡ some f) es
    → All (λ f. find_item f.namespace f.key (g ∷ whole) ≡ some f) es
unfolding find_item
found_behind g whole [] d a = tt
found_behind g whole (f ∷ es) d a = (rw (is_item_sym g f d.0) a.0, found_behind g whole es d.1 a.1)

pub own_entries :
    {V : Type 0} (es : List (CacheEntry V))
    → AreDistinct es
    → All (λ f. find_item f.namespace f.key es ≡ some f) es
unfolding find_item
own_entries [] d = tt
own_entries (e ∷ es) d = (rw (is_item_self e) refl, found_behind e es es d.0 (own_entries es d.1))
