-- ===== src/Prelude/Maps.antt =====
-- Go's maps: association lists whose order stands for the order in which a `range` visits them.
-- Writing a key that is there replaces its value, so a key has one entry.
use mathlib.Core.Path.{◌≡◌, refl, ap}
use mathlib.Core.Logic.{inl, inr}
use mathlib.Core.Option.{Option, none, some}
use mathlib.Core.List.{List, [], ◌∷◌}
use native.Mathlib.Omega.{arith}
use microlib.Prelude.Tests.{Comparable, ◌==◌, if◌then◌else◌, ==-refl, Bool-cases}

abbrev pub Dict {ℓ κ} : Type ℓ → Type κ → Type (ℓ ⊔ κ)
Dict K V = List (K × V)

abbrev pub values {ℓ κ} : {K : Type ℓ} {V : Type κ} → Dict K V → List V
values [] = []
values ((k, v) ∷ m) = v ∷ values m

module _ {ℓ κ} {K : Type ℓ} {V : Type κ} ⦃e : Comparable K⦄ where
  unfoldable pub lookup : K → Dict K V → Option V
  lookup k [] = none
  lookup k ((j, v) ∷ m) = if j == k then some v else lookup k m

  unfoldable pub delete : K → Dict K V → Dict K V
  delete k [] = []
  delete k ((j, w) ∷ m) = let rest = delete k m in if j == k then rest else (j, w) ∷ rest

  unfoldable pub insert : K → V → Dict K V → Dict K V
  insert k v [] = (k, v) ∷ []
  insert k v ((j, w) ∷ m) = let rest = insert k v m in if j == k then (k, v) ∷ m else (j, w) ∷ rest

  pub lookup-delete :
      (k j : K) (m : Dict K V) → lookup j (delete k m) ≡ (if k == j then none else lookup j m)
  unfolding lookup delete
  lookup-delete k j [] = ground arith
  lookup-delete k j ((i, w) ∷ m) =
      ground (arith, e.equal_iff k j, e.equal_iff i k, e.equal_iff i j, lookup-delete k j m)

  pub lookup-insert :
      (k j : K) (a : V) (m : Dict K V)
      → lookup j (insert k a m) ≡ (if k == j then some a else lookup j m)
  unfolding insert lookup
  lookup-insert k j a [] = refl
  lookup-insert k j a ((i, b) ∷ rest) =
      ground (arith, lookup-insert k j a rest, e.equal_iff k j, e.equal_iff i j, e.equal_iff i k)

  pub lookup-insert_self : (k : K) (v : V) (m : Dict K V) → lookup k (insert k v m) ≡ some v
  lookup-insert_self k v m = simp (lookup-insert, ==-refl)

  -- No key has two entries: what a Go map guarantees.
  abbrev pub HasUniqueKeys : Dict K V → Type (ℓ ⊔ κ)
  HasUniqueKeys [] = Unit
  HasUniqueKeys ((k, v) ∷ m) = (lookup k m ≡ none) × HasUniqueKeys m

  pub insert-HasUniqueKeys :
      (k : K) (v : V) (m : Dict K V) → HasUniqueKeys m → HasUniqueKeys (insert k v m)
  unfolding insert lookup
  insert-HasUniqueKeys k v [] h = (refl, tt)
  insert-HasUniqueKeys k v ((j, w) ∷ m) h = elim (Bool-cases (j == k)) [
    | inl same ↦ rw same (rw (← (e.equal_iff j k).0 same) h)
    | inr other ↦ rw other (
      ground (arith, lookup-insert k j v m, e.equal_iff k j, e.equal_iff j k),
      insert-HasUniqueKeys k v m h.1,
    )
  ]

  pub delete-HasUniqueKeys : (k : K) (m : Dict K V) → HasUniqueKeys m → HasUniqueKeys (delete k m)
  unfolding delete lookup
  delete-HasUniqueKeys k [] h = tt
  delete-HasUniqueKeys k ((j, w) ∷ m) h = elim (Bool-cases (j == k)) [
    | inl same ↦ rw same (delete-HasUniqueKeys k m h.1)
    | inr other ↦ rw other (ground (arith, lookup-delete k j m), delete-HasUniqueKeys k m h.1)
  ]

  -- Taking away a key that is not there changes nothing.
  pub delete_of_none : (k : K) (m : Dict K V) → lookup k m ≡ none → delete k m ≡ m
  unfolding delete lookup
  delete_of_none k [] h = refl
  delete_of_none k ((j, w) ∷ m) h = elim (Bool-cases (j == k)) [
    | inl same ↦ cc (rw same at h)
    | inr other ↦ rw other (ap (λ r. (j, w) ∷ r) (delete_of_none k m (rw other at h)))
  ]
