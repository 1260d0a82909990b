-- ===== src/Data/Database/Runs/Backwards.antt =====
-- data/: loops that go backwards.
use mathlib.Core.List.{append-nil}
use microlib.Prelude.{
  ◌≡◌, refl, ap, subst, ◌∙◌, Bool, true, Option, some, List, [], ◌∷◌, ◌++◌, inl, inr, Bool-cases,
  arith, if◌then◌else◌, All, nat_eq,
}
use microlib.Data.Database.{run_all}
use microlib.Data.Database.Runs.{kept, Runs, none_run, run_first}

-- The last first.
abbrev pub backwards : {A : Type 0} → List A → List A
backwards [] = []
backwards (m ∷ ms) = backwards ms ++ m ∷ []

All-append : {A : Type 0} (P : A → Type 0) (xs ys : List A) → All P xs → All P ys → All P (xs ++ ys)
All-append P [] ys a b = b
All-append P (x ∷ xs) ys a b = (a.0, All-append P xs ys a.1 b)

pub All-backwards : {A : Type 0} (P : A → Type 0) (ms : List A) → All P ms → All P (backwards ms)
All-backwards P [] all = tt
All-backwards P (m ∷ ms) all =
    All-append P (backwards ms) (m ∷ []) (All-backwards P ms all.1) (all.0, tt)

kept-append :
    {A : Type 0} (skips : A → Bool) (xs ys : List A)
    → kept skips (xs ++ ys) ≡ kept skips xs ++ kept skips ys
unfolding kept
kept-append skips [] ys = refl
kept-append skips (m ∷ xs) ys = ground (arith, kept-append skips xs ys)

pub kept-backwards :
    {A : Type 0} (skips : A → Bool) (ms : List A)
    → kept skips (backwards ms) ≡ backwards (kept skips ms)
unfolding kept
kept-backwards skips [] = refl
kept-backwards skips (m ∷ ms) =
    kept-append skips (backwards ms) (m ∷ []) ∙ elim (Bool-cases (skips m)) [
      | inl skip ↦ rw skip (append-nil (kept skips (backwards ms)) ∙ kept-backwards skips ms)
      | inr keep ↦ rw keep (ap (λ l. l ++ m ∷ []) (kept-backwards skips ms))
    ]

pub kept_same :
    {A : Type 0} (skips skips' : A → Bool) (ms : List A)
    → All (λ m. skips m ≡ skips' m) ms
    → kept skips ms ≡ kept skips' ms
unfolding kept
kept_same skips skips' [] all = refl
kept_same skips skips' (m ∷ ms) all = ground (arith, all.0, kept_same skips skips' ms all.1)

module _ {A S : Type 0} (run : A → S → Option (S)) where
  pub Runs-append :
      {xs ys : List A} {a b c : S} → Runs run xs a b → Runs run ys b c → Runs run (xs ++ ys) a c
  Runs-append (none_run t) q = q
  Runs-append (run_first m ms t t' t'' h p) q = run_first m _ t t' _ h (Runs-append p q)

  same_state : {t t' : S} → Runs run [] t t' → t ≡ t'
  same_state (none_run t) = refl

  first_run :
      {m : A} {ms : List A} {t t'' : S}
      → Runs run (m ∷ ms) t t''
      → (t' : S) × (run m t ≡ some t') × Runs run ms t' t''
  first_run (run_first m ms t t' t'' h runs) = (t', h, runs)

  pub run_all-Runs :
      (skips : A → Bool) (ms : List A) (t t' : S)
      → Runs run (kept skips ms) t t'
      → run_all run skips ms t ≡ (true, t')
  unfolding run_all kept
  run_all-Runs skips [] t t' runs = ap (λ u. (true, u)) (same_state runs)
  run_all-Runs skips (m ∷ ms) t t' runs =
      let P = λ (b : Bool). Runs run (if b then kept skips ms else m ∷ kept skips ms) t t' in
      elim (Bool-cases (skips m)) [
        | inl skip ↦ rw skip (run_all-Runs skips ms t t' (subst P skip runs))
        | inr keep ↦
            let (s, h, rest) = first_run (subst P keep runs) in
            rw (keep, h) (run_all-Runs skips ms s t' rest)
      ]
