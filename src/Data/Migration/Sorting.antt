-- ===== src/Data/Migration/Sorting.antt =====
-- data/migration.go: what sorting the migrations does.
use microlib.Prelude.{
  place, sort, IsOrder, IsSorted, sort-IsSorted, sort_of_sorted, false, ℕ, ◌≤◌, ◌<◌, ◌++◌, nat_beq,
  ◌≡◌, refl, ap, ◌∙◌, List, [], ◌∷◌, All, total, arith, if◌then◌else◌,
}
use microlib.Data.Migration.{Migration, ascending, descending}
use microlib.Data.Database.Runs.Backwards.{backwards, All-backwards}

-- The versions go up.
abbrev pub IsOrdered : List Migration → Type 0
IsOrdered [] = Unit
IsOrdered (m ∷ ms) = All (λ x. m.version ≤ x.version) ms × IsOrdered ms

ascending-IsOrder : IsOrder ascending
ascending-IsOrder = record { asym = λ a b h. ground arith; trans = λ a b c h k. ground arith }

le_of_sorted :
    (m : Migration) (ms : List Migration)
    → All (λ x. ascending x m ≡ false) ms
    → All (λ x. m.version ≤ x.version) ms
le_of_sorted m [] h = tt
le_of_sorted m (x ∷ xs) h = (ground (arith, h.0), le_of_sorted m xs h.1)

IsOrdered-of_sorted : (ms : List Migration) → IsSorted ascending ms → IsOrdered ms
IsOrdered-of_sorted [] h = tt
IsOrdered-of_sorted (m ∷ ms) h = (le_of_sorted m ms h.0, IsOrdered-of_sorted ms h.1)

pub sort-IsOrdered : (ms : List Migration) → IsOrdered (sort ascending ms)
sort-IsOrdered ms =
    IsOrdered-of_sorted (sort ascending ms) (sort-IsSorted ascending ascending-IsOrder ms)

sorted_of_le :
    (m : Migration) (ms : List Migration)
    → All (λ x. m.version ≤ x.version) ms
    → All (λ x. ascending x m ≡ false) ms
sorted_of_le m [] h = tt
sorted_of_le m (x ∷ xs) h = (ground (arith, h.0), sorted_of_le m xs h.1)

IsSorted-of_ordered : (ms : List Migration) → IsOrdered ms → IsSorted ascending ms
IsSorted-of_ordered [] h = tt
IsSorted-of_ordered (m ∷ ms) h = (sorted_of_le m ms h.0, IsSorted-of_ordered ms h.1)

pub sort_of_ordered : (ms : List Migration) → IsOrdered ms → sort ascending ms ≡ ms
sort_of_ordered ms h = sort_of_sorted ascending ms (IsSorted-of_ordered ms h)

place_last :
    (m : Migration) (ms : List Migration)
    → All (λ x. m.version < x.version) ms
    → place descending m ms ≡ ms ++ m ∷ []
unfolding place
place_last m [] all = refl
place_last m (x ∷ xs) all = ground (arith, all.0, place_last m xs all.1)

above :
    (v : ℕ) (ms : List Migration)
    → All (λ x. v ≤ x.version) ms
    → total (λ m. if nat_beq m.version v then 1 else 0) ms ≡ 0
    → All (λ x. v < x.version) ms
above v [] all h = tt
above v (m ∷ ms) all h = (ground (arith, all.0), above v ms all.1 (ground arith))

-- Migrations in ascending order, no two with one version, are in descending order when they are taken
-- backwards.
pub sort-descending :
    (ms : List Migration)
    → IsOrdered ms
    → ((v : ℕ) → total (λ m. if nat_beq m.version v then 1 else 0) ms ≤ 1)
    → sort descending ms ≡ backwards ms
unfolding sort
sort-descending [] o unique = refl
sort-descending (m ∷ ms) o unique =
    ap (place descending m) (sort-descending ms o.1 (λ v. omega (arith, unique v)))
    ∙ place_last m (backwards ms) (
        All-backwards (λ x. m.version < x.version) ms
          (above m.version ms o.0 (ground (arith, unique m.version))))
