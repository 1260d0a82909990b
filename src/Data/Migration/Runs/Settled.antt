-- ===== src/Data/Migration/Runs/Settled.antt =====
-- data/migration.go: Apply needs no second time.
use mathlib.Core.List.{append-nil}
use microlib.Data.Database.{run_all}
use microlib.Text.{Text}
use microlib.Prelude.{sort}
use microlib.Prelude.{
  ℕ, ◌≡◌, refl, sym, ap, subst, ◌∙◌, Bool, true, Option, List, [], ◌∷◌, ◌++◌, map, arith,
  any-append, All, nat_beq, nat_beq_iff,
}
use microlib.Data.Migration.{
  Migration, PostgresMigrationRunner, Tables, Server, versions, member, ascending, run_up, skips_up,
  apply,
}
use microlib.Data.Migration.Sorting.{IsOrdered, sort-IsOrdered, sort_of_ordered}
use microlib.Data.Database.Runs.{kept, Ends, finished, run_all-settled}
use microlib.Data.Migration.Runs.Applying.{row_of, pending, apply-IsApplied}

pub versions-append : (xs ys : List (ℕ × Text)) → versions (xs ++ ys) ≡ versions xs ++ versions ys
versions-append [] ys = refl
versions-append ((v, d) ∷ xs) ys = ap (λ l. v ∷ l) (versions-append xs ys)

pub recorded :
    (ms : List Migration) (vs : List ℕ)
    → ((v : ℕ) → member v (versions (map row_of ms)) ≡ true → member v vs ≡ true)
    → All (λ m. member m.version vs ≡ true) ms
recorded [] vs h = tt
recorded (m ∷ ms) vs h = (
  h m.version (ground (arith, nat_beq_iff m.version m.version)),
  recorded ms vs (λ v e. h v (ground arith)),
)

skipped_if_recorded :
    (target : ℕ) (ms : List Migration) (vs : List ℕ)
    → All (λ m. member m.version vs ≡ true) ms
    → All (λ m. skips_up target vs m ≡ true) ms
skipped_if_recorded target [] vs all = tt
skipped_if_recorded target (m ∷ ms) vs all =
    (ground (arith, all.0), skipped_if_recorded target ms vs all.1)

pub none_left :
    {W : Type 0} {run : Migration → Tables W → Option (Tables W)} {t : Tables W}
    {left : List Migration} {ok : Bool}
    → Ends run t ok left
    → ok ≡ true
    → left ≡ []
none_left finished e = refl
none_left (Ends.failed m ms h) e = cc

module _ {W : Type 0} (server : Server W) where
  settled :
      (target : ℕ) (rows : List (ℕ × Text)) (done ms : List Migration)
      → kept (skips_up target (versions rows)) ms ≡ done
      → (t : Tables W)
      → run_all (run_up server) (skips_up target (versions (rows ++ map row_of done))) ms t
        ≡ (true, t)
  settled target rows done ms e t =
      let all = versions (rows ++ map row_of done) in
      let old = λ (v : ℕ).
        ap (member v) (versions-append rows (map row_of done))
        ∙ any-append (nat_beq v) (versions rows) (versions (map row_of done)) in
      run_all-settled (run_up server) (skips_up target (versions rows)) (skips_up target all) ms t
        (λ m h. ground (arith, old m.version))
        (skipped_if_recorded target _ all (
          subst (All (λ m. member m.version all ≡ true)) (sym e)
            (recorded done all (λ v h. ground (arith, old v)))))

  sorted_after :
      (target : ℕ) (r : PostgresMigrationRunner) (t : Tables W)
      → server.answers t ≡ true
      → (apply server target r t).1 ≡ record { migrations = sort ascending r.migrations }
  unfolding apply
  sorted_after target r t up = rw up refl

  apply_of_settled :
      (target : ℕ) (ms : List Migration) (t : Tables W)
      → server.answers t ≡ true
      → IsOrdered ms
      → run_all (run_up server) (skips_up target (versions t.rows)) ms t ≡ (true, t)
      → apply server target (record { migrations = ms }) t ≡ (true, record { migrations = ms }, t)
  unfolding apply
  apply_of_settled target ms t up o h = rw (up, sort_of_ordered ms o, h) refl

  -- When Apply has returned nil, another Apply with the same target, on a server that still answers,
  -- runs nothing: it returns nil and leaves the runner and the database as they are.
  pub apply_again :
      (target : ℕ) (r : PostgresMigrationRunner) (t : Tables W)
      → server.answers t ≡ true
      → (apply server target r t).0 ≡ true
      → server.answers (apply server target r t).2 ≡ true
      → let (ok, r', t') = apply server target r t in apply server target r' t' ≡ (true, r', t')
  unfolding pending
  apply_again target r t up ok up' =
      let ms = sort ascending r.migrations in
      let t' = (apply server target r t).2 in
      let a = apply-IsApplied server target r t up in
      let e = a.split ∙ ap (λ l. a.done ++ l) (none_left a.end ok) ∙ append-nil a.done in
      let run_again =
        subst (λ rows. run_all (run_up server) (skips_up target (versions rows)) ms t' ≡ (true, t'))
          (sym a.rows) (settled target t.rows a.done ms e t') in
      subst (λ q. apply server target q t' ≡ (true, q, t')) (sym (sorted_after target r t up))
        (apply_of_settled target ms t' up' (sort-IsOrdered r.migrations) run_again)
