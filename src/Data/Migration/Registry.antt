-- ===== src/Data/Migration/Registry.antt =====
-- data/migration.go: which migrations a runner holds.
use microlib.Prelude.{
  is_empty, ℕ, ◌≤◌, ◌≡◌, ◌⊎◌, subst, ◌↔◌, refl, sym, Bool, true, false, Option, none, some, List,
  [], ◌∷◌, ◌++◌, total, total-append, leb, arith, ◌||◌, string_eq, nat_beq, nat_beq_iff, inl, inr,
  Bool-cases, if◌then◌else◌,
}
use microlib.Data.Migration.{
  Migration, MigrationError, PostgresMigrationRunner, has_version, add_migration,
  new_postgres_migration_runner,
}

-- 1 for a migration with the version, and for one that AddMigration refuses by itself.
abbrev pub of_version : ℕ → Migration → ℕ
of_version v m = if nat_beq m.version v then 1 else 0

abbrev pub improper : Migration → ℕ
improper m =
    if leb m.version 0 || is_empty m.description || is_empty m.up_sql || is_empty m.down_sql
    then 1
    else 0

-- At most one migration for each version, and all of them proper.
pub record IsValid (r : PostgresMigrationRunner) : Type 0 where
  pub unique : (v : ℕ) → total (of_version v) r.migrations ≤ 1
  pub proper : total improper r.migrations ≡ 0

pub new-IsValid : IsValid new_postgres_migration_runner
unfolding new_postgres_migration_runner
new-IsValid = record { unique = λ v. omega arith; proper = refl }

abbrev pub accepted : Option MigrationError → Bool
accepted none = true
accepted (some e) = false

absent : (v : ℕ) (ms : List Migration) → has_version v ms ≡ false → total (of_version v) ms ≡ 0
absent v [] h = refl
absent v (m ∷ ms) h = ground (arith, absent v ms)

abbrev appended : Migration → PostgresMigrationRunner → PostgresMigrationRunner
appended m r = record { migrations = r.migrations ++ m ∷ [] }

appended-IsValid :
    (m : Migration) (r : PostgresMigrationRunner)
    → IsValid r
    → improper m ≡ 0
    → has_version m.version r.migrations ≡ false
    → IsValid (appended m r)
appended-IsValid m r valid h new = record {
  unique = λ v. elim (Bool-cases (nat_beq m.version v)) [
    | inl same ↦ ground (
      arith,
      total-append (of_version v) r.migrations (m ∷ []),
      absent v r.migrations
          (subst (λ n. has_version n r.migrations ≡ false) ((nat_beq_iff m.version v).0 same) new),
    )
    | inr other ↦ ground (arith, total-append (of_version v) r.migrations (m ∷ []), valid.unique v)
  ];
  proper = omega (arith, total-append improper r.migrations (m ∷ []), h, valid.proper);
}

added :
    (m : Migration) (r : PostgresMigrationRunner)
    → improper m ≡ 0
    → has_version m.version r.migrations ≡ false
    → add_migration m r ≡ (none, appended m r)
unfolding add_migration
added m r h new = ground arith

not_added :
    (m : Migration) (r : PostgresMigrationRunner)
    → ((improper m ≡ 1) ⊎ (has_version m.version r.migrations ≡ true))
    → ((add_migration m r).1 ≡ r) × (accepted (add_migration m r).0 ≡ false)
unfolding add_migration
not_added m r h = ground arith

abbrev one_if : Bool → ℕ
one_if b = if b then 1 else 0

zero_or_one : (b : Bool) → (one_if b ≡ 0) ⊎ (one_if b ≡ 1)
zero_or_one false = inl refl
zero_or_one true = inr refl

refusal-IsValid :
    (m : Migration) (r : PostgresMigrationRunner)
    → IsValid r
    → ((improper m ≡ 1) ⊎ (has_version m.version r.migrations ≡ true))
    → let (err, r') = add_migration m r in
      IsValid r'
      × ((accepted err ≡ true) ↔ ((improper m ≡ 0) × (has_version m.version r.migrations ≡ false)))
      × (r'.migrations ≡ (if accepted err then r.migrations ++ m ∷ [] else r.migrations))
refusal-IsValid m r valid h =
    let (same, refused) = not_added m r h in
    (subst IsValid (sym same) valid, ground arith, ground arith)

-- AddMigration keeps the runner valid; it returns nil, and then has put the migration at the end,
-- exactly when the migration is proper and its version new, and an error leaves the runner as it was.
pub add_migration-IsValid :
    (m : Migration) (r : PostgresMigrationRunner)
    → IsValid r
    → let (err, r') = add_migration m r in
      IsValid r'
      × ((accepted err ≡ true) ↔ ((improper m ≡ 0) × (has_version m.version r.migrations ≡ false)))
      × (r'.migrations ≡ (if accepted err then r.migrations ++ m ∷ [] else r.migrations))
add_migration-IsValid m r valid = elim (Bool-cases (has_version m.version r.migrations)) [
  | inl old ↦ refusal-IsValid m r valid (inr old)
  | inr new ↦ elim (zero_or_one _) [
    | inl h ↦ rw (added m r h new) (appended-IsValid m r valid h new, ground arith, refl)
    | inr h ↦ refusal-IsValid m r valid (inl h)
  ]
]
