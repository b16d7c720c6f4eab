-- ===== src/Prelude/Map.antt =====
-- Go maps with string keys, as association lists. The program sorts what it iterates over, so the
-- order of entries is never seen.
use mathlib.Core.Path.{◌≡◌, refl}
use mathlib.Core.Bool.{Bool}
use mathlib.Core.List.{List, [], ◌∷◌}
use mathlib.Core.Option.{Option, none, some}
use native.Mathlib.Omega.{arith}
use mockulus.Prelude.Tests.{if◌then◌else◌}
use mockulus.Prelude.Bytes.{Text, text_eq, text_eq_iff}

abbrev pub Map {ℓ} : Type ℓ → Type ℓ
Map V = List (Text × V)

module _ {ℓ} {V : Type ℓ} where
  -- `v, ok := m[k]`
  unfoldable pub lookup : Text → Map V → Option V
  lookup k [] = none
  lookup k ((j, v) ∷ m) = if text_eq j k then some v else lookup k m

  -- `delete(m, k)`
  unfoldable pub delete : Text → Map V → Map V
  delete k [] = []
  delete k ((j, v) ∷ m) = let rest = delete k m in if text_eq j k then rest else (j, v) ∷ rest

  -- `m[k] = v`
  unfoldable pub insert : Text → V → Map V → Map V
  insert k v [] = (k, v) ∷ []
  insert k v ((j, w) ∷ m) =
      let rest = insert k v m in if text_eq j k then (k, v) ∷ m else (j, w) ∷ rest

  pub lookup-insert :
      (k j : Text) (v : V) (m : Map V)
      → lookup j (insert k v m) ≡ (if text_eq k j then some v else lookup j m)
  unfolding lookup insert
  lookup-insert k j v [] = refl
  lookup-insert k j v ((i, w) ∷ m) =
      ground (arith, text_eq_iff k j, text_eq_iff i k, text_eq_iff i j, lookup-insert k j v m)

  pub lookup-delete :
      (k j : Text) (m : Map V) → lookup j (delete k m) ≡ (if text_eq k j then none else lookup j m)
  unfolding lookup delete
  lookup-delete k j [] = ground arith
  lookup-delete k j ((i, w) ∷ m) =
      ground (arith, text_eq_iff k j, text_eq_iff i k, text_eq_iff i j, lookup-delete k j m)

pub ruleset map_laws = (lookup-insert, lookup-delete)

module _ {ℓ} {V : Type ℓ} where
  -- `for k, v := range m { if !p(v) { delete(m, k) } }`
  unfoldable pub prune : (V → Bool) → Map V → Map V
  prune p [] = []
  prune p ((k, v) ∷ m) = let rest = prune p m in if p v then (k, v) ∷ rest else delete k rest

  abbrev pub keep_if : (V → Bool) → Option V → Option V
  keep_if p none = none
  keep_if p (some v) = if p v then some v else none

  pub lookup-prune :
      (p : V → Bool) (j : Text) (m : Map V) → lookup j (prune p m) ≡ keep_if p (lookup j m)
  unfolding lookup prune
  lookup-prune p j [] = refl
  lookup-prune p j ((k, v) ∷ m) =
      ground (arith, text_eq_iff k j, lookup-prune p j m, lookup-delete k j (prune p m))

  -- `for _, v := range m { update(v) }`
  unfoldable pub update_all : (V → V) → Map V → Map V
  update_all f [] = []
  update_all f ((k, v) ∷ m) = (k, f v) ∷ update_all f m

  pub lookup-update_all :
      (f : V → V) (j : Text) (m : Map V)
      → lookup j (update_all f m) ≡ elim (lookup j m) [ none ↦ none | some v ↦ some (f v) ]
  unfolding lookup update_all
  lookup-update_all f j [] = refl
  lookup-update_all f j ((k, v) ∷ m) = ground (arith, lookup-update_all f j m)

  -- The values of a map, in no order that the program sees.
  unfoldable pub values : Map V → List V
  values [] = []
  values ((k, v) ∷ m) = v ∷ values m
