-- ===== src/Data/Files.antt =====
-- data/seeder.go, data/migration.go: seeds and migrations in files. The walk over a
-- directory passes over the directories in it.
pub mod RoundTrip
use microlib.Prelude.{
  ℕ, ℤ, pos, negsuc, Bool, true, false, Option, none, some, List, [], ◌∷◌, if◌then◌else◌,
}
use microlib.Text.{Text, text, has_suffix, trim_prefix, trim_suffix}
use microlib.Text.Parts.{cut, contains_text, trim_space}
use microlib.Text.Numbers.{scan_int}
use microlib.Data.Seeder.{
  Seed, SeedError, invalid_filename, invalid_priority, PostgresSeeder, add_seed,
}
use microlib.Data.Migration.{PostgresMigrationRunner, MigrationError, add_migration}

unfoldable pub parse_seed_content : Text → Text → PostgresSeeder → Option SeedError × PostgresSeeder
unfolding cut trim_prefix scan_int trim_suffix trim_space add_seed
parse_seed_content filename content s = elim (cut (text "_") filename) [
  | none ↦ (some invalid_filename, s)
  | some (front, rest) ↦ elim (scan_int (trim_prefix front (text "S"))) [
    | none ↦ (some invalid_priority, s)
    | some priority ↦
        add_seed
          (record {
            name = trim_suffix rest (text ".sql");
            sql = trim_space content;
            priority = priority;
          })
          s
  ]
]

-- An entry of the directory that is no directory: its name, and its content, or `none` where it cannot
-- be read.
pub record File : Type 0 where
  pub name : Text
  pub content : Option Text

unfoldable load_seeds : List File → PostgresSeeder → Bool × PostgresSeeder
unfolding has_suffix parse_seed_content
load_seeds [] s = (true, s)
load_seeds (file ∷ files) s =
    if has_suffix file.name (text ".sql")
    then elim file.content [
      | none ↦ (false, s)
      | some content ↦
          let (error, s') = parse_seed_content file.name content s in
          elim error [ none ↦ load_seeds files s' | some e ↦ (false, s') ]
    ]
    else load_seeds files s

pub data FileError : Type 0 where
  bad_filename bad_version no_separator not_positive : FileError
  refused : MigrationError → FileError

abbrev add_parsed :
    ℤ → Text → Text → Text → PostgresMigrationRunner → Option FileError × PostgresMigrationRunner
add_parsed (negsuc n) description up_sql down_sql r = (some not_positive, r)
add_parsed (pos version) description up_sql down_sql r =
    let (error, r') =
      add_migration
        (record {
          version = version;
          description = description;
          up_sql = up_sql;
          down_sql = down_sql;
        })
        r in
    (elim error [ none ↦ none | some e ↦ some (refused e) ], r')

-- The content is split at each separator, and has two parts if there is one of them.
unfoldable pub parse_migration_content :
    Text → Text → PostgresMigrationRunner → Option FileError × PostgresMigrationRunner
unfolding cut contains_text trim_prefix scan_int trim_suffix trim_space add_migration
parse_migration_content filename content r = elim (cut (text "__") filename) [
  | none ↦ (some bad_filename, r)
  | some (front, rest) ↦ elim (scan_int (trim_prefix front (text "V"))) [
    | none ↦ (some bad_version, r)
    | some version ↦ elim (cut (text "-- DOWN") content) [
      | none ↦ (some no_separator, r)
      | some (up, down) ↦
          if contains_text (text "-- DOWN") down
          then (some no_separator, r)
          else add_parsed version (trim_suffix rest (text ".sql")) (trim_space up) (trim_space down)
              r
    ]
  ]
]

unfoldable load_migrations : List File → PostgresMigrationRunner → Bool × PostgresMigrationRunner
unfolding has_suffix parse_migration_content
load_migrations [] r = (true, r)
load_migrations (file ∷ files) r =
    if has_suffix file.name (text ".sql")
    then elim file.content [
      | none ↦ (false, r)
      | some content ↦
          let (error, r') = parse_migration_content file.name content r in
          elim error [ none ↦ load_migrations files r' | some e ↦ (false, r') ]
    ]
    else load_migrations files r
