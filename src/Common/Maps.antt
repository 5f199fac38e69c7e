-- ===== src/Common/Maps.antt =====
-- Go's maps: association lists over keys with a Boolean equality. A program that ranges over a
-- map sees the pairs in an order of its own; the functions that do so say what they assume.
use mathlib.Core.Path.{◌≡◌, refl}
use mathlib.Core.Bool.{Bool, true, false}
use mathlib.Core.Logic.{◌↔◌}
use mathlib.Core.Option.{Option, none, some}
use mathlib.Core.List.{List, [], ◌∷◌}
use native.Mathlib.Omega.{arith}
use theo_extension.Common.Tests.{if◌then◌else◌}

pub record Eq {ℓ} (K : Type ℓ) : Type ℓ where
  pub beq : K → K → Bool
  pub beq_iff : (a b : K) → (beq a b ≡ true) ↔ (a ≡ b)

module _ {ℓ κ} {K : Type ℓ} {V : Type κ} ⦃e : Eq K⦄ where
  -- `m[k]`
  unfoldable pub lookup : K → List (K × V) → Option V
  lookup k [] = none
  lookup k ((j, v) ∷ m) = if e.beq j k then some v else lookup k m

  -- `m[k] = v`
  unfoldable pub insert : K → V → List (K × V) → List (K × V)
  insert k v [] = (k, v) ∷ []
  insert k v ((j, w) ∷ m) = if e.beq j k then (k, v) ∷ m else (j, w) ∷ insert k v m

  -- `delete(m, k)`
  unfoldable pub erase : K → List (K × V) → List (K × V)
  erase k [] = []
  erase k ((j, w) ∷ m) = let rest = erase k m in if e.beq j k then rest else (j, w) ∷ rest

  pub lookup-insert :
      (k j : K) (v : V) (m : List (K × V))
      → lookup j (insert k v m) ≡ (if e.beq k j then some v else lookup j m)
  unfolding lookup insert
  lookup-insert k j v [] = refl
  lookup-insert k j v ((i, w) ∷ m) =
      ground (arith, e.beq_iff k j, e.beq_iff i k, e.beq_iff i j, lookup-insert k j v m)

  pub lookup-erase :
      (k j : K) (m : List (K × V)) → lookup j (erase k m) ≡ (if e.beq k j then none else lookup j m)
  unfolding lookup erase
  lookup-erase k j [] = ground arith
  lookup-erase k j ((i, w) ∷ m) =
      ground (arith, e.beq_iff k j, e.beq_iff i k, e.beq_iff i j, lookup-erase k j m)

module _ {ℓ} {K : Type ℓ} ⦃e : Eq K⦄ where
  -- Membership in a Go set, `map[K]struct{}`.
  unfoldable pub contains : K → List K → Bool
  contains k [] = false
  contains k (j ∷ m) = if e.beq j k then true else contains k m

  -- `s[k] = struct{}{}`
  unfoldable pub add : K → List K → List K
  add k [] = k ∷ []
  add k (j ∷ m) = if e.beq j k then j ∷ m else j ∷ add k m

  -- `delete(s, k)`
  unfoldable pub discard : K → List K → List K
  discard k [] = []
  discard k (j ∷ m) = let rest = discard k m in if e.beq j k then rest else j ∷ rest

  pub contains-add :
      (k j : K) (m : List K) → contains j (add k m) ≡ (if e.beq k j then true else contains j m)
  unfolding contains add
  contains-add k j [] = refl
  contains-add k j (i ∷ m) =
      ground (arith, e.beq_iff k j, e.beq_iff i k, e.beq_iff i j, contains-add k j m)

  pub contains-discard :
      (k j : K) (m : List K)
      → contains j (discard k m) ≡ (if e.beq k j then false else contains j m)
  unfolding contains discard
  contains-discard k j [] = ground arith
  contains-discard k j (i ∷ m) =
      ground (arith, e.beq_iff k j, e.beq_iff i k, e.beq_iff i j, contains-discard k j m)

  pub beq_refl : (k : K) → e.beq k k ≡ true
  beq_refl k = (e.beq_iff k k).1 refl
