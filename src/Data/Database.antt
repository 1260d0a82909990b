-- ===== src/Data/Database.antt =====
-- data/: a database with a table of what was applied, and the loop that migrations and seeds share.
pub mod Runs
use microlib.Text.{Text}
use microlib.Prelude.{
  is_empty, ℕ, Bool, true, false, not, Option, none, some, List, [], ◌∷◌, if◌then◌else◌,
}

-- The schema and data on which statements act, and the rows of the table of what was applied.
pub record TablesOf (R W : Type 0) : Type 0 where
  pub schema : W
  pub rows : List R

-- The server: what a statement does, where `none` is an error, and in which states it answers
-- statements on the table of what was applied and those that begin and commit a transaction.
pub record ServerOf (R W : Type 0) : Type 0 where
  pub exec : Text → W → Option W
  pub answers : TablesOf R W → Bool

-- data/postgres.go: PostgresDB.Transaction, for a server that answers in the states given. On an
-- error the state is the one before.
unfoldable pub transaction : {S : Type 0} → (S → Bool) → (S → Option S) → S → Option S
transaction answers body t =
    if not (answers t)
    then none
    else elim (body t) [ none ↦ none | some t' ↦ if answers t' then some t' else none ]

-- The loops over what is to be run: what is not skipped is run, and an error ends the loop. The result
-- is whether there was none.
unfoldable pub run_all : {A S : Type 0} → (A → S → Option S) → (A → Bool) → List A → S → Bool × S
run_all run skips [] t = (true, t)
run_all run skips (m ∷ ms) t =
    if skips m
    then run_all run skips ms t
    else elim (run m t) [ none ↦ (false, t) | some t' ↦ run_all run skips ms t' ]

-- Statements one after the other, up to an error.
unfoldable pub exec_all : {R W : Type 0} → ServerOf R W → List Text → W → Option W
exec_all server [] w = some w
exec_all server (s ∷ ss) w = elim (server.exec s w) [
  | none ↦ none
  | some w' ↦ exec_all server ss w'
]
