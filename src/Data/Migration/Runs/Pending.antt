-- ===== src/Data/Migration/Runs/Pending.antt =====
-- data/migration.go: which migrations are pending.
use microlib.Prelude.{total-sort}
use microlib.Prelude.{sort}
use microlib.Prelude.{
  ℕ, ◌≤◌, ◌≡◌, ◌∙◌, Bool, List, [], ◌∷◌, total, inl, inr, Bool-cases, if◌then◌else◌,
}
use microlib.Data.Migration.{
  Migration, PostgresMigrationRunner, Tables, versions, ascending, skips_up,
}
use microlib.Data.Migration.Sorting.{IsOrdered, sort-IsOrdered}
use microlib.Data.Database.Runs.{kept, All-kept, total-kept}
use microlib.Data.Migration.Runs.Applying.{pending}

kept-IsOrdered :
    (skips : Migration → Bool) (ms : List Migration) → IsOrdered ms → IsOrdered (kept skips ms)
unfolding kept
kept-IsOrdered skips [] o = tt
kept-IsOrdered skips (m ∷ ms) o = elim (Bool-cases (skips m)) [
  | inl skip ↦ rw skip (kept-IsOrdered skips ms o.1)
  | inr keep ↦
      rw keep (All-kept (λ x. m.version ≤ x.version) skips ms o.0, kept-IsOrdered skips ms o.1)
]

-- The migrations that Apply runs go up by version, and they are those of the runner that are neither
-- recorded nor above the target, each as often as the runner holds it, in whatever order they
-- were added: any sum over them is that sum over the runner's.
pub pending-IsOrdered :
    {W : Type 0} (target : ℕ) (r : PostgresMigrationRunner) (t : Tables W) (w : Migration → ℕ)
    → IsOrdered (pending target r t)
      × (total w (pending target r t)
          ≡ total (λ m. if skips_up target (versions t.rows) m then 0 else w m) r.migrations)
unfolding pending
pending-IsOrdered target r t w =
    let skips = skips_up target (versions t.rows) in
    (
      kept-IsOrdered skips (sort ascending r.migrations) (sort-IsOrdered r.migrations),
      total-kept skips w (sort ascending r.migrations)
          ∙ total-sort ascending (λ m. if skips m then 0 else w m) r.migrations,
    )
