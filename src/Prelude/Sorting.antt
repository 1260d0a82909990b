-- ===== src/Prelude/Sorting.antt =====
-- `sort.Slice`, as the insertion sort that Go uses for short slices. What the theorems say of it is
-- that the result is sorted and has the same members as often.
use Prim.Native.Nat.{ℕ, ◌+◌}
use mathlib.Core.Path.{◌≡◌, refl, ap, ◌∙◌}
use mathlib.Core.Bool.{Bool, true, false}
use mathlib.Core.Logic.{◌⊎◌, inl, inr}
use mathlib.Core.List.{List, [], ◌∷◌}
use native.Mathlib.Omega.{arith}
use microlib.Prelude.Tests.{if◌then◌else◌, Bool-cases}
use microlib.Prelude.Lists.{All, Any, total}

module _ {A : Type 0} (before : A → A → Bool) where
  unfoldable pub place : A → List A → List A
  place a [] = a ∷ []
  place a (x ∷ xs) = let rest = place a xs in if before x a then x ∷ rest else a ∷ x ∷ xs

  unfoldable pub sort : List A → List A
  unfolding place
  sort [] = []
  sort (a ∷ xs) = place a (sort xs)

  total-place : (w : A → ℕ) (a : A) (xs : List A) → total w (place a xs) ≡ w a + total w xs
  unfolding place
  total-place w a [] = refl
  total-place w a (x ∷ xs) = ground (arith, total-place w a xs)

  pub total-sort : (w : A → ℕ) (xs : List A) → total w (sort xs) ≡ total w xs
  unfolding sort
  total-sort w [] = refl
  total-sort w (a ∷ xs) = omega (arith, total-place w a (sort xs), total-sort w xs)

  pub All-place {ℓ} : (P : A → Type ℓ) (a : A) (xs : List A) → P a → All P xs → All P (place a xs)
  unfolding place
  All-place P a [] p all = (p, tt)
  All-place P a (x ∷ xs) p all = elim (Bool-cases (before x a)) [
    | inl later ↦ rw later (all.0, All-place P a xs p all.1)
    | inr here ↦ rw here (p, all)
  ]

  pub All-sort {ℓ} : (P : A → Type ℓ) (xs : List A) → All P xs → All P (sort xs)
  unfolding sort
  All-sort P [] all = tt
  All-sort P (a ∷ xs) all = All-place P a (sort xs) all.0 (All-sort P xs all.1)

  All-of_place : (P : A → Type 0) (a : A) (xs : List A) → All P (place a xs) → P a × All P xs
  unfolding place
  All-of_place P a [] all = all
  All-of_place P a (x ∷ xs) all = elim (Bool-cases (before x a)) [
    | inl later ↦
        let (h, rest) = rw later at all in
        let (p, others) = All-of_place P a xs rest in (p, (h, others))
    | inr here ↦ rw here at all
  ]

  pub All-of_sort : (P : A → Type 0) (xs : List A) → All P (sort xs) → All P xs
  unfolding sort
  All-of_sort P [] all = tt
  All-of_sort P (a ∷ xs) all =
      let (p, rest) = All-of_place P a (sort xs) all in (p, All-of_sort P xs rest)

  Any-of_place : (P : A → Type 0) (a : A) (xs : List A) → Any P (place a xs) → P a ⊎ Any P xs
  unfolding place
  Any-of_place P a [] any = any
  Any-of_place P a (x ∷ xs) any = elim (Bool-cases (before x a)) [
    | inl later ↦ elim (rw later at any) [
      | inl p ↦ inr (inl p)
      | inr rest ↦ elim (Any-of_place P a xs rest) [ inl p ↦ inl p | inr q ↦ inr (inr q) ]
    ]
    | inr here ↦ rw here at any
  ]

  pub Any-of_sort : (P : A → Type 0) (xs : List A) → Any P (sort xs) → Any P xs
  unfolding sort
  Any-of_sort P [] any = any
  Any-of_sort P (a ∷ xs) any = elim (Any-of_place P a (sort xs) any) [
    | inl p ↦ inl p
    | inr q ↦ inr (Any-of_sort P xs q)
  ]

  -- No member is before one that stands in front of it.
  abbrev pub IsSorted : List A → Type 0
  IsSorted [] = Unit
  IsSorted (a ∷ xs) = All (λ x. before x a ≡ false) xs × IsSorted xs

  -- What makes `before` an order.
  pub record IsOrder : Type 0 where
    pub asym : (a b : A) → before a b ≡ true → before b a ≡ false
    pub trans : (a b c : A) → before b a ≡ false → before c b ≡ false → before c a ≡ false

  module _ (o : IsOrder) where
    none_before :
        (a b : A) (xs : List A)
        → before b a ≡ false
        → All (λ x. before x b ≡ false) xs
        → All (λ x. before x a ≡ false) xs
    none_before a b [] h all = tt
    none_before a b (x ∷ xs) h all = (o.trans a b x h all.0, none_before a b xs h all.1)

    place-IsSorted : (a : A) (xs : List A) → IsSorted xs → IsSorted (place a xs)
    unfolding place
    place-IsSorted a [] h = (tt, tt)
    place-IsSorted a (x ∷ xs) h = elim (Bool-cases (before x a)) [
      | inl later ↦
          rw later (
            All-place (λ y. before y x ≡ false) a xs (o.asym x a later) h.0,
            place-IsSorted a xs h.1,
          )
      | inr here ↦ rw here ((here, none_before a x xs here h.0), h)
    ]

    pub sort-IsSorted : (xs : List A) → IsSorted (sort xs)
    unfolding sort
    sort-IsSorted [] = tt
    sort-IsSorted (a ∷ xs) = place-IsSorted a (sort xs) (sort-IsSorted xs)

  place_first : (a : A) (xs : List A) → All (λ x. before x a ≡ false) xs → place a xs ≡ a ∷ xs
  unfolding place
  place_first a [] h = refl
  place_first a (x ∷ xs) h = ground (arith, h.0)

  pub sort_of_sorted : (xs : List A) → IsSorted xs → sort xs ≡ xs
  unfolding sort
  sort_of_sorted [] h = refl
  sort_of_sorted (a ∷ xs) h = ap (place a) (sort_of_sorted xs h.1) ∙ place_first a xs h.0
