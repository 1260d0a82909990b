-- ===== src/Data/Migration/Runs/Undone.antt =====
-- data/migration.go: Rollback undoes Apply.
use mathlib.Core.List.{append-nil}
use microlib.Data.Database.{run_all, transaction}
use microlib.Data.Database.Runs.Backwards.{backwards}
use microlib.Data.Database.Runs.{All-kept}
use microlib.Text.{Text}
use microlib.Prelude.{All-sort, total-sort}
use microlib.Prelude.{sort}
use microlib.Prelude.{
  ℕ, ◌≡◌, refl, sym, ap, subst, ◌∙◌, Bool, true, false, some, List, [], ◌∷◌, ◌++◌, map, inl, inr,
  Bool-cases, arith, if◌then◌else◌, any-append, All, nat_beq, nat_beq_iff, leb, ◌==◌, nat_eq,
}
use microlib.Data.Migration.{
  Migration, PostgresMigrationRunner, Tables, Server, versions, member, remove_version, ascending,
  descending, record_migration, remove_record, run_up, run_down, skips_up, skips_down, apply,
  rollback, rollback_level,
}
use microlib.Data.Migration.Sorting.{sort-IsOrdered, sort-descending}
use microlib.Data.Migration.Registry.{IsValid, of_version}
use microlib.Data.Database.Runs.{kept, Runs, none_run, run_first, run_all-Split}
use microlib.Data.Migration.Runs.Applying.{row_of, run_up-rows, Runs-rows}
use microlib.Data.Database.Runs.Backwards.{kept-backwards, kept_same, Runs-append, run_all-Runs}
use microlib.Data.Migration.Runs.Settled.{versions-append, recorded, none_left}

-- The down statement of a migration undoes its up statement.
abbrev pub IsUndone : {W : Type 0} → Server W → Migration → Type 0
IsUndone {W} server m =
    (w w' : W) → server.exec m.up_sql w ≡ some w' → server.exec m.down_sql w' ≡ some w

remove_last :
    (v : ℕ) (d : Text) (rows : List (ℕ × Text))
    → member v (versions rows) ≡ false
    → remove_version v (rows ++ (v, d) ∷ []) ≡ rows
unfolding remove_version
remove_last v d [] h = ground (arith, nat_beq_iff v v)
remove_last v d ((u, e) ∷ rows) h =
    ground (arith, remove_last v d rows, nat_beq_iff u v, nat_beq_iff v u)

module _ {W : Type 0} (server : Server W) (always : (t : Tables W) → server.answers t ≡ true) where
  run_up-new :
      (m : Migration) (t t' : Tables W)
      → run_up server m t ≡ some t'
      → member m.version (versions t.rows) ≡ false
  unfolding run_up transaction record_migration
  run_up-new m t t' h = ground arith

  undo_one :
      (m : Migration) (t t' : Tables W)
      → IsUndone server m
      → run_up server m t ≡ some t'
      → run_down server m t' ≡ some t
  unfolding run_down transaction remove_record
  undo_one m t t' undo h =
      let (rows, schema) = run_up-rows server m t t' h in
      let removed =
        ap (remove_version m.version) rows
        ∙ remove_last m.version m.description t.rows (run_up-new m t t' h) in
      rw (always t', undo t.schema t'.schema schema, always, removed, always) refl

  Runs-undone :
      {done : List Migration} {t t' : Tables W}
      → Runs (run_up server) done t t'
      → All (IsUndone server) done
      → Runs (run_down server) (backwards done) t' t
  Runs-undone (none_run t) undo = none_run t
  Runs-undone (run_first m ms t t' t'' h runs) undo =
      Runs-append (run_down server) (Runs-undone runs undo.1)
        (run_first m [] t' t t (undo_one m t t' undo.0 h) (none_run t))

  same_skips :
      (level : ℕ) (old new : List ℕ) (ms : List Migration)
      → ((v : ℕ) → member v old ≡ true → member v new ≡ true)
      → All (λ m. member m.version old ≡ leb m.version level) ms
      → All (λ m. member m.version new ≡ true) (kept (skips_up 0 old) ms)
      → All (λ m. skips_down level new m ≡ skips_up 0 old m) ms
  unfolding kept
  same_skips level old new [] more below ran = tt
  same_skips level old new (m ∷ ms) more below ran =
      let su = skips_up 0 old in
      let P = λ (b : Bool).
        All (λ x. member x.version new ≡ true) (if b then kept su ms else m ∷ kept su ms) in
      elim (Bool-cases (su m)) [
        | inl skip ↦ (
          ground (arith, below.0, more m.version),
          same_skips level old new ms more below.1 (subst P skip ran),
        )
        | inr keep ↦
            let (now, later) = subst P keep ran in
            (ground (arith, below.0), same_skips level old new ms more below.1 later)
      ]

  rollback-Runs :
      (level : ℕ) (ms done : List Migration) (t t' : Tables W)
      → sort descending ms ≡ backwards ms
      → All (λ m. member m.version (versions t.rows) ≡ leb m.version level) ms
      → All (IsUndone server) ms
      → kept (skips_up 0 (versions t.rows)) ms ≡ done
      → Runs (run_up server) done t t'
      → run_all (run_down server) (skips_down level (versions t'.rows)) (sort descending ms) t'
        ≡ (true, t)
  rollback-Runs level ms done t t' sorted below undo e runs =
      let su = skips_up 0 (versions t.rows) in
      let sd = skips_down level (versions t'.rows) in
      let rows =
        ap versions (Runs-rows server done t t' runs).0
        ∙ versions-append t.rows (map row_of done) in
      let found = λ (v : ℕ).
        ap (member v) rows
        ∙ any-append (nat_beq v) (versions t.rows) (versions (map row_of done)) in
      let ran = recorded done (versions t'.rows) (λ v h. ground (arith, found v)) in
      let same =
        same_skips level (versions t.rows) (versions t'.rows) ms (λ v h. ground (arith, found v))
          below (subst (All (λ m. member m.version (versions t'.rows) ≡ true)) (sym e) ran) in
      let todo =
        ap (kept sd) sorted ∙ kept-backwards sd ms ∙ ap backwards (kept_same sd su ms same ∙ e) in
      run_all-Runs (run_down server) sd (sort descending ms) t' t (
        subst (λ l. Runs (run_down server) l t' t) (sym todo)
          (Runs-undone runs
            (subst (All (IsUndone server)) e (All-kept (IsUndone server) su ms undo))))

  apply_split :
      (r : PostgresMigrationRunner) (t : Tables W)
      → apply server 0 r t ≡ (
          let ms = sort ascending r.migrations in
          let (ok, t') = run_all (run_up server) (skips_up 0 (versions t.rows)) ms t in
          (ok, record { migrations = ms }, t'))
  unfolding apply
  apply_split r t = rw (always t) refl

  rollback_split :
      (level : ℕ) (ms : List Migration) (t : Tables W)
      → (level == 0) ≡ false
      → rollback server level (record { migrations = ms }) t ≡ (
          let back = sort descending ms in
          let (ok, t') = run_all (run_down server) (skips_down level (versions t.rows)) back t in
          (ok, record { migrations = back }, t'))
  unfolding rollback rollback_level
  rollback_split level ms t h = rw (always t, h) refl

  -- On a server that always answers: when the recorded versions are those of the runner up to a level
  -- above 0, and the down statement of each migration undoes its up statement, Rollback to that
  -- level after an Apply of everything that returned nil returns nil too, and the schema and
  -- the rows are what they were before both.
  pub rollback-apply :
      (level : ℕ) (r : PostgresMigrationRunner) (t : Tables W)
      → (level == 0) ≡ false
      → IsValid r
      → All (λ m. member m.version (versions t.rows) ≡ leb m.version level) r.migrations
      → All (IsUndone server) r.migrations
      → (apply server 0 r t).0 ≡ true
      → let (ok, r', t') = apply server 0 r t in
        ((rollback server level r' t').0 ≡ true) × ((rollback server level r' t').2 ≡ t)
  rollback-apply level r t positive valid below undo ok =
      let ms = sort ascending r.migrations in
      let s = run_all-Split (run_up server) (skips_up 0 (versions t.rows)) ms t in
      let t' = (run_all (run_up server) (skips_up 0 (versions t.rows)) ms t).1 in
      let finished = ap (λ a. a.0) (sym (apply_split r t)) ∙ ok in
      let e = s.split ∙ ap (λ l. s.done ++ l) (none_left s.end finished) ∙ append-nil s.done in
      let sorted =
        sort-descending ms (sort-IsOrdered r.migrations)
          (λ v. omega (arith, total-sort ascending (of_version v) r.migrations, valid.unique v)) in
      let back =
        rollback-Runs level ms s.done t t' sorted
          (All-sort ascending (λ m. member m.version (versions t.rows) ≡ leb m.version level)
            r.migrations below)
          (All-sort ascending (IsUndone server) r.migrations undo) e s.runs in
      rw (apply_split r t, rollback_split level ms t' positive, back) (refl, refl)
