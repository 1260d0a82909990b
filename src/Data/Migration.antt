-- ===== src/Data/Migration.antt =====
-- data/migration.go: PostgresMigrationRunner. Versions are natural numbers: AddMigration refuses
-- one that is not positive, and the targets are not negative. The statements of migrations act on a
-- schema `W`.
pub mod Sorting
pub mod Registry
pub mod Runs
use microlib.Data.Database.{TablesOf, ServerOf, transaction, run_all}
use microlib.Text.{Text}
use microlib.Prelude.{
  is_empty, sort, ℕ, ◌+◌, ◌-◌, Bool, true, false, not, Option, none, some, List, [], ◌∷◌, ◌++◌, map,
  any, ltb, leb, ◌==◌, string_eq, nat_eq, nat_beq, ◌&&◌, ◌||◌, if◌then◌else◌,
}

pub record Migration : Type 0 where
  pub version : ℕ
  pub description : Text
  pub up_sql : Text
  pub down_sql : Text

pub data MigrationError : Type 0 where
  version_not_positive empty_description empty_up_sql empty_down_sql : MigrationError
  version_exists : ℕ → MigrationError

pub record PostgresMigrationRunner : Type 0 where
  pub migrations : List Migration

unfoldable pub new_postgres_migration_runner : PostgresMigrationRunner
new_postgres_migration_runner = record { migrations = [] }

abbrev pub has_version : ℕ → List Migration → Bool
has_version version = any (λ m. nat_beq m.version version)

unfoldable pub add_migration :
    Migration → PostgresMigrationRunner → Option MigrationError × PostgresMigrationRunner
add_migration migration r =
    if leb migration.version 0
    then (some version_not_positive, r)
    else if is_empty migration.description
    then (some empty_description, r)
    else if is_empty migration.up_sql
    then (some empty_up_sql, r)
    else if is_empty migration.down_sql
    then (some empty_down_sql, r)
    else if has_version migration.version r.migrations
    then (some (version_exists migration.version), r)
    else (none, record { migrations = r.migrations ++ migration ∷ [] })

-- No two migrations have the same version, so there is one sorted list.
abbrev pub ascending : Migration → Migration → Bool
ascending a b = ltb a.version b.version

abbrev pub descending : Migration → Migration → Bool
descending a b = ltb b.version a.version

-- The schema, and the rows of the table schema_migrations. That the table is created changes nothing
-- in them.
abbrev pub Tables : Type 0 → Type 0
Tables W = TablesOf (ℕ × Text) W

abbrev pub Server : Type 0 → Type 0
Server W = ServerOf (ℕ × Text) W

abbrev pub versions : List (ℕ × Text) → List ℕ
versions [] = []
versions ((version, description) ∷ rows) = version ∷ versions rows

abbrev version_before : ℕ × Text → ℕ × Text → Bool
version_before (v, d) (w, e) = ltb v w

abbrev pub member : ℕ → List ℕ → Bool
member version = any (nat_beq version)

unfoldable pub remove_version : ℕ → List (ℕ × Text) → List (ℕ × Text)
remove_version version [] = []
remove_version version ((v, description) ∷ rows) =
    let rest = remove_version version rows in
    if nat_beq v version then rest else (v, description) ∷ rest

-- The largest of the versions, and 0 if there are none.
unfoldable last_version : List ℕ → ℕ → ℕ
last_version [] last = last
last_version (v ∷ vs) last = last_version vs (if ltb last v then v else last)

-- Skipped if it is applied already or above a target that is not 0.
abbrev pub skips_up : ℕ → List ℕ → Migration → Bool
skips_up target applied m = member m.version applied || (ltb 0 target && ltb target m.version)

abbrev pub skips_down : ℕ → List ℕ → Migration → Bool
skips_down level applied m = not (member m.version applied) || leb m.version level

-- With target 0 the level is one below the last version. If nothing is applied, that is -1 in
-- the source and 0 here, and every migration is skipped.
unfoldable pub rollback_level : ℕ → List ℕ → ℕ
unfolding last_version
rollback_level target applied = if target == 0 then last_version applied 0 - 1 else target

module _ {W : Type 0} (server : Server W) where
  -- The version is the table's primary key.
  unfoldable pub record_migration : Migration → Tables W → Option (Tables W)
  record_migration m t =
      if not (server.answers t) || member m.version (versions t.rows)
      then none
      else some (record t { rows = t.rows ++ (m.version, m.description) ∷ [] })

  unfoldable pub remove_record : Migration → Tables W → Option (Tables W)
  unfolding remove_version
  remove_record m t =
      if not (server.answers t)
      then none
      else some (record t { rows = remove_version m.version t.rows })

  unfoldable pub run_up : Migration → Tables W → Option (Tables W)
  unfolding transaction record_migration
  run_up m t =
      transaction server.answers
        (λ t. elim (server.exec m.up_sql t.schema) [
          | none ↦ none
          | some w ↦ record_migration m (record t { schema = w })
        ])
        t

  unfoldable pub run_down : Migration → Tables W → Option (Tables W)
  unfolding transaction remove_record
  run_down m t =
      transaction server.answers
        (λ t. elim (server.exec m.down_sql t.schema) [
          | none ↦ none
          | some w ↦ remove_record m (record t { schema = w })
        ])
        t

  unfoldable pub apply :
      ℕ → PostgresMigrationRunner → Tables W → Bool × PostgresMigrationRunner × Tables W
  unfolding sort run_all run_up
  apply target r t =
      if not (server.answers t)
      then (false, r, t)
      else let ms = sort ascending r.migrations in
        let (ok, t') = run_all run_up (skips_up target (versions t.rows)) ms t in
        (ok, record { migrations = ms }, t')

  unfoldable pub rollback :
      ℕ → PostgresMigrationRunner → Tables W → Bool × PostgresMigrationRunner × Tables W
  unfolding sort run_all run_down rollback_level
  rollback target r t =
      if not (server.answers t)
      then (false, r, t)
      else let ms = sort descending r.migrations in
        let applied = versions t.rows in
        let (ok, t') = run_all run_down (skips_down (rollback_level target applied) applied) ms t in
        (ok, record { migrations = ms }, t')

  -- Status: the rows by their versions, or `none` for an error. The times are left out.
  unfoldable migration_status : Tables W → Option (List (ℕ × Text))
  unfolding sort
  migration_status t = if not (server.answers t) then none else some (sort version_before t.rows)
