-- ===== src/Data/Seeder/Applied.antt =====
-- data/seeder.go: what Apply does to the database, and what Reset makes pending.
use mathlib.Core.List.{append_assoc, append-nil}
use microlib.Prelude.{
  ℕ, ◌≡◌, refl, sym, ap, ◌∙◌, Bool, true, false, some, List, [], ◌∷◌, ◌++◌, map, sort, total,
  total-sort, arith, inl, inr, Bool-cases, IsOrder, IsSorted, sort-IsSorted, if◌then◌else◌,
}
use microlib.Text.{Text}
use microlib.Data.Database.{transaction, exec_all}
use microlib.Data.Database.Runs.{
  kept, total-kept, All-kept, Runs, none_run, run_first, Ends, run_all-Split,
}
use microlib.Data.Seeder.{
  Seed, PostgresSeeder, SeedTables, SeedServer, sooner, is_applied, record_seed, run_seed,
  apply_seeds, reset,
}

abbrev name_of : Seed → Text
name_of s = s.name

abbrev sql_of : Seed → Text
sql_of s = s.sql

-- What Apply has to run.
unfoldable pub pending_seeds : {W : Type 0} → PostgresSeeder → SeedTables W → List Seed
pending_seeds r t = kept (is_applied t.rows) (sort sooner r.seeds)

sooner-IsOrder : IsOrder sooner
sooner-IsOrder = record { asym = λ a b h. ground arith; trans = λ a b c h k. ground arith }

kept-IsSorted :
    {A : Type 0} (before : A → A → Bool) (skips : A → Bool) (xs : List A)
    → IsSorted before xs
    → IsSorted before (kept skips xs)
unfolding kept
kept-IsSorted before skips [] h = tt
kept-IsSorted before skips (x ∷ xs) h = elim (Bool-cases (skips x)) [
  | inl skip ↦ rw skip (kept-IsSorted before skips xs h.1)
  | inr keep ↦
      rw keep (All-kept (λ y. before y x ≡ false) skips xs h.0, kept-IsSorted before skips xs h.1)
]

-- The seeds that Apply runs are in the order of their priorities, and they are the seeder's that have
-- no record, each as often as the seeder holds it.
pending_seeds-IsSorted :
    {W : Type 0} (r : PostgresSeeder) (t : SeedTables W) (w : Seed → ℕ)
    → IsSorted sooner (pending_seeds r t)
      × (total w (pending_seeds r t) ≡ total (λ s. if is_applied t.rows s then 0 else w s) r.seeds)
unfolding pending_seeds
pending_seeds-IsSorted r t w =
    let skips = is_applied t.rows in
    (
      kept-IsSorted sooner skips (sort sooner r.seeds)
          (sort-IsSorted sooner sooner-IsOrder r.seeds),
      total-kept skips w (sort sooner r.seeds)
          ∙ total-sort sooner (λ s. if skips s then 0 else w s) r.seeds,
    )

module _ {W : Type 0} (server : SeedServer W) where
  run_seed-rows :
      (s : Seed) (t t' : SeedTables W)
      → run_seed server s t ≡ some t'
      → (t'.rows ≡ t.rows ++ s.name ∷ []) × (server.exec s.sql t.schema ≡ some t'.schema)
  unfolding run_seed transaction record_seed
  run_seed-rows s t t' h = ground arith

  Runs-names :
      (done : List Seed) (t t' : SeedTables W)
      → Runs (run_seed server) done t t'
      → (t'.rows ≡ t.rows ++ map name_of done)
        × (exec_all server (map sql_of done) t.schema ≡ some t'.schema)
  unfolding exec_all
  Runs-names _ _ _ (none_run t) = (sym (append-nil t.rows), refl)
  Runs-names _ _ _ (run_first s ss t t' t'' h runs) =
      let (a, b) = run_seed-rows s t t' h in
      let (c, d) = Runs-names ss t' t'' runs in
      (
        c
            ∙ ap (λ rows. rows ++ map name_of ss) a
            ∙ append_assoc t.rows (s.name ∷ []) (map name_of ss),
        rw b d,
      )

  -- What a call of Apply that reaches the server has done, with the seeds `todo` pending.
  pub record IsSeeded (todo : List Seed) (ok : Bool) (t t' : SeedTables W) : Type 0 where
    pub done : List Seed
    pub left : List Seed
    pub split : todo ≡ done ++ left
    pub in_order : IsSorted sooner todo
    pub rows : t'.rows ≡ t.rows ++ map name_of done
    pub schema : exec_all server (map sql_of done) t.schema ≡ some t'.schema
    pub end : Ends (run_seed server) t' ok left

  -- Apply, when the server answers, runs the seeds that have no record, those with the lower priority
  -- first. The ones that it has run are the first ones of these: their statements have acted on the
  -- data in that order, and each has its record behind those that were there. It returns nil exactly
  -- when none is left, and otherwise the first one that is left fails and has left no trace.
  pub apply_seeds-IsSeeded :
      (r : PostgresSeeder) (t : SeedTables W)
      → server.answers t ≡ true
      → let (ok, r', t') = apply_seeds server r t in IsSeeded (pending_seeds r t) ok t t'
  unfolding apply_seeds pending_seeds
  apply_seeds-IsSeeded r t up =
      let s = run_all-Split (run_seed server) (is_applied t.rows) (sort sooner r.seeds) t in
      let (a, b) = Runs-names s.done t _ s.runs in
      rw up (record {
        done = s.done;
        left = s.left;
        split = s.split;
        in_order = (pending_seeds-IsSorted r t (λ x. 0)).0;
        rows = a;
        schema = b;
        end = s.end;
      })

  keeps_all : (seeds : List Seed) → kept (is_applied []) seeds ≡ seeds
  unfolding kept
  keeps_all [] = refl
  keeps_all (s ∷ seeds) = ap (λ l. s ∷ l) (keeps_all seeds)

  -- After a Reset that succeeds all seeds are pending, and the data that they made is still there.
  pub pending_seeds-reset :
      (r : PostgresSeeder) (t : SeedTables W)
      → (reset server t).0 ≡ true
      → (pending_seeds r (reset server t).1 ≡ sort sooner r.seeds)
        × ((reset server t).1.schema ≡ t.schema)
  unfolding reset pending_seeds
  pending_seeds-reset r t ok = elim (Bool-cases (server.answers t)) [
    | inl up ↦ rw up (keeps_all (sort sooner r.seeds), refl)
    | inr down ↦ cc (rw down at ok)
  ]
