-- ===== src/Tests/DataTests.antt =====
-- data/: three migrations of a schema that is a list of statements.
use microlib.Text.{text}
use microlib.Prelude.{
  pos, text_beq, ℕ, ◌≡◌, ◌↔◌, refl, sym, ap, ◌∙◌, true, false, Option, none, some, [], ◌∷◌, ◌++◌,
  zero, suc, string_eq, nat_eq, arith, if◌then◌else◌,
}
use microlib.Text.{has_prefix}
use microlib.Text.Parts.{cut, contains_text, trim_space}
use microlib.Text.Numbers.{show}
use microlib.Data.Seeder.{PostgresSeeder, SeedServer, SeedTables, apply_seeds}
use microlib.Data.Seeder.Applied.{pending_seeds, IsSeeded, apply_seeds-IsSeeded}
use microlib.Data.Files.{parse_migration_content}
use microlib.Data.Files.RoundTrip.{parse_migration_content-show}
use microlib.Data.Migration.{
  Migration, PostgresMigrationRunner, Tables, Server, has_version, add_migration, apply, rollback,
  new_postgres_migration_runner,
}
use microlib.Data.Migration.Registry.{
  IsValid, improper, accepted, new-IsValid, add_migration-IsValid,
}
use microlib.Data.Migration.Runs.Applying.{IsApplied, pending, apply-IsApplied}
use microlib.Data.Migration.Runs.Settled.{apply_again}
use microlib.Data.Migration.Runs.Undone.{IsUndone, rollback-apply}

abbrev users : Migration
users = record {
  version = 1;
  description = text "users";
  up_sql = text "create";
  down_sql = text "drop";
}

abbrev orders : Migration
orders = record {
  version = 3;
  description = text "orders";
  up_sql = text "create";
  down_sql = text "drop";
}

abbrev prices : Migration
prices = record {
  version = 2;
  description = text "prices";
  up_sql = text "create";
  down_sql = text "drop";
}

abbrev runner : PostgresMigrationRunner
runner = record { migrations = users ∷ orders ∷ prices ∷ [] }

-- The schema counts the tables. To create one adds 1, to drop one takes 1 away.
abbrev drop : ℕ → Option ℕ
drop zero = none
drop (suc n) = some n

abbrev server : Server ℕ
server = record {
  exec = λ s n.
      if text_beq s (text "create")
      then some (suc n)
      else if text_beq s (text "drop")
      then drop n
      else none;
  answers = λ t. true;
}

abbrev first_only : Tables ℕ
first_only = record { schema = 1; rows = (1, text "users") ∷ [] }

runner-IsValid : IsValid runner
unfolding add_migration new_postgres_migration_runner
runner-IsValid =
    let a = (add_migration-IsValid users new_postgres_migration_runner new-IsValid).0 in
    let b = (add_migration-IsValid orders _ a).0 in (add_migration-IsValid prices _ b).0

add_migration-IsValid_example :
    let (err, r') = add_migration orders runner in
    IsValid r'
    × ((accepted err ≡ true) ↔ ((improper orders ≡ 0) × (has_version 3 runner.migrations ≡ false)))
    × (r'.migrations
        ≡ (if accepted err then runner.migrations ++ orders ∷ [] else runner.migrations))
add_migration-IsValid_example = add_migration-IsValid orders runner runner-IsValid

apply-IsApplied_example :
    let (ok, r', t') = apply server 2 runner first_only in
    IsApplied server (pending 2 runner first_only) ok first_only t'
apply-IsApplied_example = apply-IsApplied server 2 runner first_only refl

apply_again_example :
    let (ok, r', t') = apply server 0 runner first_only in apply server 0 r' t' ≡ (true, r', t')
unfolding apply
apply_again_example = apply_again server 0 runner first_only refl refl refl

create_then_drop :
    (m : Migration) → m.up_sql ≡ text "create" → m.down_sql ≡ text "drop" → IsUndone server m
create_then_drop m up down w w' h =
    let created : some (suc w) ≡ some w' = sym (ap (λ s. server.exec s w) up) ∙ h in
    let dropped : drop w' ≡ some w = ground (arith, created) in rw down dropped

rollback-apply_example :
    let (ok, r', t') = apply server 0 runner first_only in
    ((rollback server 1 r' t').0 ≡ true) × ((rollback server 1 r' t').2 ≡ first_only)
unfolding apply
rollback-apply_example =
    rollback-apply server (λ t. refl) 1 runner first_only refl runner-IsValid
      (refl, (refl, (refl, tt)))
      (
        create_then_drop users refl refl,
        (create_then_drop orders refl refl, (create_then_drop prices refl refl, tt)),
      )
      refl

abbrev all_applied : Tables ℕ
all_applied = record {
  schema = 3;
  rows = (1, text "users") ∷ (2, text "prices") ∷ (3, text "orders") ∷ [];
}

in_order : (apply server 0 runner first_only).2 ≡ all_applied
unfolding apply
in_order = refl

-- Two seeds, of which one is recorded.
abbrev seeder : PostgresSeeder
seeder = record {
  seeds =
      record { name = text "late"; sql = text "create"; priority = pos 2 }
      ∷ record { name = text "early"; sql = text "drop"; priority = pos 1 }
      ∷ [];
}

abbrev seed_server : SeedServer ℕ
seed_server = record { exec = server.exec; answers = λ t. true }

abbrev seeded : SeedTables ℕ
seeded = record { schema = 1; rows = text "late" ∷ [] }

apply_seeds-IsSeeded_example :
    let (ok, r', t') = apply_seeds seed_server seeder seeded in
    IsSeeded seed_server (pending_seeds seeder seeded) ok seeded t'
apply_seeds-IsSeeded_example = apply_seeds-IsSeeded seed_server seeder seeded refl

parse_migration_content-show_example :
    (parse_migration_content
      ((b'V' ∷ show 2) ++ (b'_' ∷ b'_' ∷ []) ++ (text "users" ++ text ".sql"))
      (text "create-- DOWNdrop")
      runner).1
    ≡ (add_migration
        (record {
          version = 2;
          description = text "users";
          up_sql = trim_space (text "create");
          down_sql = trim_space (text "drop");
        })
        runner).1
unfolding cut contains_text has_prefix
parse_migration_content-show_example =
    parse_migration_content-show 2 (text "users") (text "create-- DOWNdrop") (text "create")
      (text "drop") runner (omega arith) refl refl
