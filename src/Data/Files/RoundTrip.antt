-- ===== src/Data/Files/RoundTrip.antt =====
-- data/seeder.go, data/migration.go: the names of files that the documented format gives.
use mathlib.Core.List.{append-nil}
use microlib.Prelude.{
  ℕ, ℤ, ◌≤◌, pos, ◌≡◌, refl, ap, subst, ◌∙◌, true, false, some, [], ◌∷◌, ◌++◌, All, all, nat_beq,
  arith,
}
use microlib.Text.{Text, text, has_prefix, trim_prefix, trim_suffix}
use microlib.Text.Affixes.{has_prefix-append, drop-length, trim_suffix-append, trim_prefix-append}
use microlib.Text.Parts.{cut, contains_text, trim_space}
use microlib.Text.Numbers.{is_digit, show, scan_int, max_int64}
use microlib.Text.Numbers.RoundTrip.{scan-show, all_digits-show}
use microlib.Data.Seeder.{PostgresSeeder, add_seed}
use microlib.Data.Migration.{PostgresMigrationRunner, add_migration}
use microlib.Data.Files.{parse_seed_content, parse_migration_content}

-- No character of the text is `c`.
abbrev Lacks : ℕ → Text → Type 0
Lacks c s = All (λ x. nat_beq x c ≡ false) s

-- The first separator is the one behind a text that its first character is not in.
cut-append :
    (c : ℕ) (more s t : Text) → Lacks c s → cut (c ∷ more) (s ++ (c ∷ more) ++ t) ≡ some (s, t)
unfolding cut has_prefix
cut-append c more [] t lacks = ground (arith, has_prefix-append more t, drop-length more t)
cut-append c more (x ∷ s) t lacks = ground (arith, lacks.0, cut-append c more s t lacks.1)

digits-Lacks : (c : ℕ) (s : Text) → is_digit c ≡ false → all is_digit s ≡ true → Lacks c s
digits-Lacks c [] h d = tt
digits-Lacks c (x ∷ s) h d = (ground (arith, h, d), digits-Lacks c s h (ground (arith, d)))

scan_alone : (n : ℕ) → n ≤ max_int64 → scan_int (show n) ≡ some (pos n)
scan_alone n h =
    subst (λ s. scan_int s ≡ some (pos n)) (append-nil (show n)) (scan-show n [] refl h)

scan_prefixed :
    (c n : ℕ) → n ≤ max_int64 → scan_int (trim_prefix (c ∷ show n) (c ∷ [])) ≡ some (pos n)
scan_prefixed c n h = ap scan_int (trim_prefix-append (c ∷ []) (show n)) ∙ scan_alone n h

parse_seed_parts :
    (filename front rest content : Text) (priority : ℤ) (s : PostgresSeeder)
    → cut (text "_") filename ≡ some (front, rest)
    → scan_int (trim_prefix front (text "S")) ≡ some priority
    → parse_seed_content filename content s
      ≡ add_seed
          (record {
            name = trim_suffix rest (text ".sql");
            sql = trim_space content;
            priority = priority;
          })
          s
unfolding parse_seed_content
parse_seed_parts filename front rest content priority s h k = rw (parse_seed_content, h, k) refl

parse_migration_parts :
    (filename front rest content up down : Text) (version : ℕ) (r : PostgresMigrationRunner)
    → cut (text "__") filename ≡ some (front, rest)
    → scan_int (trim_prefix front (text "V")) ≡ some (pos version)
    → cut (text "-- DOWN") content ≡ some (up, down)
    → contains_text (text "-- DOWN") down ≡ false
    → (parse_migration_content filename content r).1
      ≡ (add_migration
          (record {
            version = version;
            description = trim_suffix rest (text ".sql");
            up_sql = trim_space up;
            down_sql = trim_space down;
          })
          r).1
unfolding parse_migration_content
parse_migration_parts filename front rest content up down version r h k once twice =
    rw (parse_migration_content, h, k, once, twice) refl

-- A file that is named S, the priority in digits, an underscore, a name and .sql adds the seed of that
-- name and priority, with the trimmed content, whatever underscores the name has.
pub parse_seed_content-show :
    (priority : ℕ) (name content : Text) (s : PostgresSeeder)
    → priority ≤ max_int64
    → parse_seed_content ((b'S' ∷ show priority) ++ (b'_' ∷ []) ++ (name ++ text ".sql")) content s
      ≡ add_seed (record { name = name; sql = trim_space content; priority = pos priority }) s
parse_seed_content-show priority name content s h =
    parse_seed_parts _ (b'S' ∷ show priority) (name ++ text ".sql") content (pos priority) s
      (cut-append b'_' [] (b'S' ∷ show priority) (name ++ text ".sql")
        (refl, digits-Lacks b'_' (show priority) refl (all_digits-show priority)))
      (scan_prefixed b'S' priority h)
    ∙ ap (λ n. add_seed (record { name = n; sql = trim_space content; priority = pos priority }) s)
        (trim_suffix-append name (text ".sql"))

-- A file that is named V, the version in digits, two underscores, a description and .sql, with the
-- separator once in its content, adds the migration with that version and description and with what
-- is before and behind the separator, trimmed.
pub parse_migration_content-show :
    (version : ℕ) (description content up down : Text) (r : PostgresMigrationRunner)
    → version ≤ max_int64
    → cut (text "-- DOWN") content ≡ some (up, down)
    → contains_text (text "-- DOWN") down ≡ false
    → (parse_migration_content
        ((b'V' ∷ show version) ++ (b'_' ∷ b'_' ∷ []) ++ (description ++ text ".sql"))
        content
        r).1
      ≡ (add_migration
          (record {
            version = version;
            description = description;
            up_sql = trim_space up;
            down_sql = trim_space down;
          })
          r).1
parse_migration_content-show version description content up down r h once twice =
    parse_migration_parts _ (b'V' ∷ show version) (description ++ text ".sql") content up down
      version r
      (cut-append b'_' (b'_' ∷ []) (b'V' ∷ show version) (description ++ text ".sql")
        (refl, digits-Lacks b'_' (show version) refl (all_digits-show version)))
      (scan_prefixed b'V' version h) once twice
    ∙ ap
        (λ d.
          (add_migration
            (record {
              version = version;
              description = d;
              up_sql = trim_space up;
              down_sql = trim_space down;
            })
            r).1)
        (trim_suffix-append description (text ".sql"))
