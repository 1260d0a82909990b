-- ===== src/Data/Migration/Runs/Applying.antt =====
-- data/migration.go: what Apply does to the database, and that it needs no second time.
use mathlib.Core.List.{append_assoc, append-nil}
use microlib.Data.Database.{transaction, exec_all}
use microlib.Text.{Text}
use microlib.Prelude.{sort}
use microlib.Prelude.{ℕ, ◌≡◌, refl, sym, ap, ◌∙◌, Bool, true, some, List, [], ◌∷◌, ◌++◌, map, arith}
use microlib.Data.Migration.{
  Migration, PostgresMigrationRunner, Tables, Server, versions, ascending, record_migration, run_up,
  skips_up, apply,
}
use microlib.Data.Database.Runs.{kept, Runs, none_run, run_first, Ends, run_all-Split}

abbrev pub row_of : Migration → ℕ × Text
row_of m = (m.version, m.description)

abbrev up_of : Migration → Text
up_of m = m.up_sql

-- What Apply has to run.
unfoldable pub pending : {W : Type 0} → ℕ → PostgresMigrationRunner → Tables W → List Migration
pending target r t = kept (skips_up target (versions t.rows)) (sort ascending r.migrations)

module _ {W : Type 0} (server : Server W) where
  pub run_up-rows :
      (m : Migration) (t t' : Tables W)
      → run_up server m t ≡ some t'
      → (t'.rows ≡ t.rows ++ row_of m ∷ []) × (server.exec m.up_sql t.schema ≡ some t'.schema)
  unfolding run_up transaction record_migration
  run_up-rows m t t' h = ground arith

  pub Runs-rows :
      (done : List Migration) (t t' : Tables W)
      → Runs (run_up server) done t t'
      → (t'.rows ≡ t.rows ++ map row_of done)
        × (exec_all server (map up_of done) t.schema ≡ some t'.schema)
  unfolding exec_all
  Runs-rows _ _ _ (none_run t) = (sym (append-nil t.rows), refl)
  Runs-rows _ _ _ (run_first m ms t t' t'' h runs) =
      let (a, b) = run_up-rows m t t' h in
      let (c, d) = Runs-rows ms t' t'' runs in
      (
        c
            ∙ ap (λ rows. rows ++ map row_of ms) a
            ∙ append_assoc t.rows (row_of m ∷ []) (map row_of ms),
        rw b d,
      )

  -- What a call of Apply that reaches the server has done, with the migrations `todo` pending.
  pub record IsApplied (todo : List Migration) (ok : Bool) (t t' : Tables W) : Type 0 where
    pub done : List Migration
    pub left : List Migration
    pub split : todo ≡ done ++ left
    pub rows : t'.rows ≡ t.rows ++ map row_of done
    pub schema : exec_all server (map up_of done) t.schema ≡ some t'.schema
    pub end : Ends (run_up server) t' ok left

  -- Apply, when the server answers, runs the migrations that are neither recorded nor above the
  -- target, in the order of their versions. The ones that it has run are the first ones of these:
  -- their statements have acted on the schema in that order, and each has its row, behind the rows
  -- that were there. It returns nil exactly when none is left, and otherwise the first one that is left
  -- fails and has left no trace.
  pub apply-IsApplied :
      (target : ℕ) (r : PostgresMigrationRunner) (t : Tables W)
      → server.answers t ≡ true
      → let (ok, r', t') = apply server target r t in IsApplied (pending target r t) ok t t'
  unfolding apply pending
  apply-IsApplied target r t up =
      let s =
        run_all-Split (run_up server) (skips_up target (versions t.rows))
          (sort ascending r.migrations) t in
      let (a, b) = Runs-rows s.done t _ s.runs in
      rw up (record {
        done = s.done;
        left = s.left;
        split = s.split;
        rows = a;
        schema = b;
        end = s.end;
      })
