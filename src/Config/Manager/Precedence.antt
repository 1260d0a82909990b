-- ===== src/Config/Manager/Precedence.antt =====
-- config/manager.go: which source the value of a key comes from.
use microlib.Prelude.{
  ◌≤◌, false, Option, none, some, List, [], ◌∷◌, ◌≡◌, refl, sym, ap, ◌∙◌, lookup, insert,
  lookup-insert, text_eq, sort, All, Any, All-of_sort, Any-of_sort, IsOrder, IsSorted,
  sort-IsSorted, Option-cases, inl, inr, arith, ◌⊎◌,
}
use microlib.Text.{Text}
use microlib.Config.Values.{Settings, ConfigValue}
use microlib.Config.Merge.{merge_missing}
use microlib.Config.Manager.{Source, higher, merge_sources, merged_settings}

-- The value in the settings of the first that has one.
abbrev or_else : {A : Type 0} → Option A → Option A → Option A
or_else none b = b
or_else (some a) b = some a

lookup-merge_missing :
    {N : Type 0} (k : Text) (merged settings : Settings N)
    → lookup k (merge_missing merged settings) ≡ or_else (lookup k merged) (lookup k settings)
unfolding merge_missing lookup
lookup-merge_missing k merged [] = elim (Option-cases (lookup k merged)) [
  | inl h ↦ rw h refl
  | inr (w, h) ↦ rw h refl
]
lookup-merge_missing k merged ((j, v) ∷ settings) = ground (
  arith,
  lookup-merge_missing k (insert j v merged) settings,
  lookup-merge_missing k merged settings,
  lookup-insert j k v merged,
  text_eq.equal_iff j k,
)

-- What a source gives for a key.
abbrev provided : {E N : Type 0} → Text → E → Source E N → Option (ConfigValue N)
provided k e source = elim (source.load e) [ none ↦ none | some settings ↦ lookup k settings ]

abbrev first_provided : {E N : Type 0} → Text → E → List (Source E N) → Option (ConfigValue N)
first_provided k e [] = none
first_provided k e (source ∷ sources) = or_else (provided k e source) (first_provided k e sources)

or_else_assoc : {A : Type 0} (a b c : Option A) → or_else (or_else a b) c ≡ or_else a (or_else b c)
or_else_assoc none b c = refl
or_else_assoc (some a) b c = refl

or_else-none : {A : Type 0} (a : Option A) → or_else a none ≡ a
or_else-none none = refl
or_else-none (some a) = refl

lookup-merge_sources :
    {E N : Type 0} (k : Text) (e : E) (sources : List (Source E N)) (merged : Settings N)
    → lookup k (merge_sources e sources merged)
      ≡ or_else (lookup k merged) (first_provided k e sources)
unfolding merge_sources
lookup-merge_sources k e [] merged = sym (or_else-none (lookup k merged))
lookup-merge_sources k e (source ∷ sources) merged =
    elim (source.load e)
      as (λ o.
        lookup k (elim o [
          | none ↦ merge_sources e sources merged
          | some settings ↦ merge_sources e sources (merge_missing merged settings)
        ])
        ≡ or_else (lookup k merged) (
            or_else (elim o [ none ↦ none | some settings ↦ lookup k settings ])
              (first_provided k e sources))) [
                | none ↦ lookup-merge_sources k e sources merged
                | some settings ↦
                    lookup-merge_sources k e sources (merge_missing merged settings)
                    ∙ ap (λ o. or_else o (first_provided k e sources))
                        (lookup-merge_missing k merged settings)
                    ∙ or_else_assoc (lookup k merged) (lookup k settings)
                        (first_provided k e sources)
              ]

higher-IsOrder : {E N : Type 0} → IsOrder (higher {E = E} {N = N})
higher-IsOrder = record { asym = λ a b h. ground arith; trans = λ a b c h k. ground arith }

-- A source that gives `v` for the key, and none that gives a value has a higher priority.
abbrev IsHighest :
    {E N : Type 0} → Text → E → ConfigValue N → List (Source E N) → Source E N → Type 0
IsHighest k e v sources source =
    (provided k e source ≡ some v)
    × All (λ other. (provided k e other ≡ none) ⊎ (other.priority ≤ source.priority)) sources

not_higher :
    {E N : Type 0} (k : Text) (e : E) (source : Source E N) (sources : List (Source E N))
    → All (λ other. higher other source ≡ false) sources
    → All (λ other. (provided k e other ≡ none) ⊎ (other.priority ≤ source.priority)) sources
not_higher k e source [] all = tt
not_higher k e source (other ∷ others) all =
    (inr (ground (arith, all.0)), not_higher k e source others all.1)

add_other :
    {E N : Type 0} (k : Text) (e : E) (v : ConfigValue N) (other : Source E N)
    (sources all : List (Source E N))
    → provided k e other ≡ none
    → Any (IsHighest k e v all) sources
    → Any (IsHighest k e v (other ∷ all)) sources
add_other k e v other [] all free any = absurd any
add_other k e v other (s ∷ sources) all free (inl (gives, rest)) = inl (gives, (inl free, rest))
add_other k e v other (s ∷ sources) all free (inr later) =
    inr (add_other k e v other sources all free later)

first-IsHighest :
    {E N : Type 0} (k : Text) (e : E) (v : ConfigValue N) (sources : List (Source E N))
    → IsSorted higher sources
    → first_provided k e sources ≡ some v
    → Any (IsHighest k e v sources) sources
first-IsHighest k e v [] sorted found = cc
first-IsHighest k e v (source ∷ sources) sorted found = elim (Option-cases (provided k e source)) [
  | inl free ↦ inr (
      add_other k e v source sources sources free
        (first-IsHighest k e v sources sorted.1 (rw free at found)))
  | inr (w, gives) ↦
      inl (gives ∙ (rw gives at found), (inr (omega arith), not_higher k e source sources sorted.0))
]

Any-of_sorted :
    {E N : Type 0} (k : Text) (e : E) (v : ConfigValue N) (sources part : List (Source E N))
    → Any (IsHighest k e v (sort higher sources)) part
    → Any (IsHighest k e v sources) part
Any-of_sorted k e v sources [] any = any
Any-of_sorted k e v sources (s ∷ part) (inl (gives, all)) = inl (
  gives,
  All-of_sort higher (λ other. (provided k e other ≡ none) ⊎ (other.priority ≤ s.priority)) sources
      all,
)
Any-of_sorted k e v sources (s ∷ part) (inr later) = inr (Any-of_sorted k e v sources part later)

first_none :
    {E N : Type 0} (k : Text) (e : E) (sources : List (Source E N))
    → first_provided k e sources ≡ none
    → All (λ source. provided k e source ≡ none) sources
first_none k e [] h = tt
first_none k e (source ∷ sources) h = elim (Option-cases (provided k e source)) [
  | inl free ↦ (free, first_none k e sources (rw free at h))
  | inr (w, gives) ↦ cc (rw gives at h)
]

-- What a key's value is in the merged settings: that of a source of the highest priority of those
-- that give one, or none where no source gives one.
pub data KeyOutcome {E N : Type 0} (k : Text) (e : E) (sources : List (Source E N))
    : Option (ConfigValue N) → Type 0 where
  nobody : All (λ source. provided k e source ≡ none) sources → KeyOutcome k e sources none
  highest :
      (v : ConfigValue N) → Any (IsHighest k e v sources) sources → KeyOutcome k e sources (some v)

-- Whatever the order in which the sources were added and whichever of them fail, the merged settings
-- have for each key the value of a source that gives one and has the highest priority of those that
-- do, and no value for a key that no source gives a value for.
pub lookup-merged_settings :
    {E N : Type 0} (k : Text) (e : E) (sources : List (Source E N))
    → KeyOutcome k e sources (lookup k (merged_settings e sources))
unfolding merged_settings lookup
lookup-merged_settings k e sources =
    let sorted = sort higher sources in
    let found = lookup-merge_sources k e sorted [] in
    elim (Option-cases (first_provided k e sorted)) [
      | inl free ↦
          rw (found, free)
            (nobody (
              All-of_sort higher (λ source. provided k e source ≡ none) sources
                (first_none k e sorted free)))
      | inr (v, gives) ↦
          rw (found, gives)
            (highest v (
              Any-of_sort higher (IsHighest k e v sources) sources (
                Any-of_sorted k e v sources sorted (
                  first-IsHighest k e v sorted (sort-IsSorted higher higher-IsOrder sources)
                    gives))))
    ]
