-- ===== src/Data/Seeder.antt =====
-- data/seeder.go: PostgresSeeder. The statements of seeds act on data of type `W`.
pub mod Applied
use microlib.Prelude.{
  ℕ, ℤ, pos, ltbℤ, Bool, true, false, not, Option, none, some, List, [], ◌∷◌, ◌++◌, any, text_beq,
  is_empty, sort, ◌||◌, if◌then◌else◌,
}
use microlib.Text.{Text}
use microlib.Data.Database.{TablesOf, ServerOf, transaction, run_all}

pub record Seed : Type 0 where
  pub name : Text
  pub sql : Text
  pub priority : ℤ

pub data SeedError : Type 0 where
  empty_name empty_sql invalid_filename invalid_priority : SeedError
  name_exists : Text → SeedError

pub record PostgresSeeder : Type 0 where
  pub seeds : List Seed

unfoldable new_postgres_seeder : PostgresSeeder
new_postgres_seeder = record { seeds = [] }

abbrev has_name : Text → List Seed → Bool
has_name name = any (λ s. text_beq s.name name)

unfoldable pub add_seed : Seed → PostgresSeeder → Option SeedError × PostgresSeeder
add_seed seed r =
    if is_empty seed.name
    then (some empty_name, r)
    else if is_empty seed.sql
    then (some empty_sql, r)
    else if has_name seed.name r.seeds
    then (some (name_exists seed.name), r)
    else (none, record { seeds = r.seeds ++ seed ∷ [] })

-- Two seeds may have one priority. They then keep their order here, and `sort.Slice` may choose any.
abbrev pub sooner : Seed → Seed → Bool
sooner a b = ltbℤ a.priority b.priority

-- The data, and the names in the table schema_seeds.
abbrev pub SeedTables : Type 0 → Type 0
SeedTables W = TablesOf Text W

abbrev pub SeedServer : Type 0 → Type 0
SeedServer W = ServerOf Text W

abbrev pub is_applied : List Text → Seed → Bool
is_applied names s = any (text_beq s.name) names

module _ {W : Type 0} (server : SeedServer W) where
  -- The name is the table's primary key.
  unfoldable pub record_seed : Seed → SeedTables W → Option (SeedTables W)
  record_seed s t =
      if not (server.answers t) || is_applied t.rows s
      then none
      else some (record t { rows = t.rows ++ s.name ∷ [] })

  unfoldable pub run_seed : Seed → SeedTables W → Option (SeedTables W)
  unfolding transaction record_seed
  run_seed s t =
      transaction server.answers
        (λ t. elim (server.exec s.sql t.schema) [
          | none ↦ none
          | some w ↦ record_seed s (record t { schema = w })
        ])
        t

  unfoldable pub apply_seeds : PostgresSeeder → SeedTables W → Bool × PostgresSeeder × SeedTables W
  unfolding sort run_all run_seed
  apply_seeds r t =
      if not (server.answers t)
      then (false, r, t)
      else let seeds = sort sooner r.seeds in
        let (ok, t') = run_all run_seed (is_applied t.rows) seeds t in
        (ok, record { seeds = seeds }, t')

  unfoldable pub reset : SeedTables W → Bool × SeedTables W
  reset t = if not (server.answers t) then (false, t) else (true, record t { rows = [] })
