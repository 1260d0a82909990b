-- ===== src/Data/Database/Runs.antt =====
-- data/: what the loop over migrations or seeds runs, and in which order.
pub mod Backwards
use microlib.Prelude.{
  ◌+◌, total, ℕ, ◌≡◌, refl, ap, subst, ◌∙◌, Bool, true, false, Option, none, some, List, [], ◌∷◌,
  ◌++◌, inl, inr, Bool-cases, Option-cases, arith, All, if◌then◌else◌,
}
use microlib.Data.Database.{run_all}

-- What a loop does not skip.
unfoldable pub kept : {A : Type 0} → (A → Bool) → List A → List A
kept skips [] = []
kept skips (m ∷ ms) = let rest = kept skips ms in if skips m then rest else m ∷ rest

module _ {A S : Type 0} (run : A → S → Option (S)) where
  -- Runs that return no error, one after the other.
  pub data Runs : List A → S → S → Type 0 where
    none_run : (t : S) → Runs [] t t
    run_first :
        (m : A) (ms : List A) (t t' t'' : S)
        → run m t ≡ some t'
        → Runs ms t' t''
        → Runs (m ∷ ms) t t''

  -- How a loop ends: with nothing left to run, or at one whose run fails.
  pub data Ends (t : S) : Bool → List A → Type 0 where
    finished : Ends t true []
    failed : (m : A) (ms : List A) → run m t ≡ none → Ends t false (m ∷ ms)

  pub record Split (todo : List A) (t : S) (r : Bool × S) : Type 0 where
    pub done : List A
    pub left : List A
    pub split : todo ≡ done ++ left
    pub runs : Runs done t r.1
    pub end : Ends r.1 r.0 left

  pub run_all-Split :
      (skips : A → Bool) (ms : List A) (t : S) → Split (kept skips ms) t (run_all run skips ms t)
  unfolding run_all kept
  run_all-Split skips [] t = record {
    done = [];
    left = [];
    split = refl;
    runs = none_run t;
    end = finished;
  }
  run_all-Split skips (m ∷ ms) t = elim (Bool-cases (skips m)) [
    | inl skip ↦ rw skip (run_all-Split skips ms t)
    | inr keep ↦ rw keep (elim (Option-cases (run m t)) [
      | inl fail ↦ rw fail (record {
        done = [];
        left = m ∷ kept skips ms;
        split = refl;
        runs = none_run t;
        end = failed m (kept skips ms) fail;
      })
      | inr (t', ok) ↦
          let s = run_all-Split skips ms t' in
          rw ok (record {
            done = m ∷ s.done;
            left = s.left;
            split = ap (λ l. m ∷ l) s.split;
            runs = run_first m s.done t t' _ ok s.runs;
            end = s.end;
          })
    ])
  ]

  -- A loop that skips what another loop skipped, and what that one ran, does nothing.
  pub run_all-settled :
      (skips skips' : A → Bool) (ms : List A) (t : S)
      → ((m : A) → skips m ≡ true → skips' m ≡ true)
      → All (λ m. skips' m ≡ true) (kept skips ms)
      → run_all run skips' ms t ≡ (true, t)
  unfolding run_all kept
  run_all-settled skips skips' [] t more ran = refl
  run_all-settled skips skips' (m ∷ ms) t more ran =
      let P =
        λ (b : Bool). All (λ x. skips' x ≡ true) (if b then kept skips ms else m ∷ kept skips ms) in
      elim (Bool-cases (skips m)) [
        | inl skip ↦ rw (more m skip) (run_all-settled skips skips' ms t more (subst P skip ran))
        | inr keep ↦
            let (now, later) = subst P keep ran in
            rw now (run_all-settled skips skips' ms t more later)
      ]

pub total-kept :
    {A : Type 0} (skips : A → Bool) (w : A → ℕ) (ms : List A)
    → total w (kept skips ms) ≡ total (λ m. if skips m then 0 else w m) ms
unfolding kept
total-kept skips w [] = refl
total-kept skips w (m ∷ ms) = ground (arith, total-kept skips w ms)

pub All-kept {ℓ} :
    {A : Type 0} (P : A → Type ℓ) (skips : A → Bool) (ms : List A)
    → All P ms
    → All P (kept skips ms)
unfolding kept
All-kept P skips [] all = tt
All-kept P skips (m ∷ ms) all = elim (Bool-cases (skips m)) [
  | inl skip ↦ rw skip (All-kept P skips ms all.1)
  | inr keep ↦ rw keep (all.0, All-kept P skips ms all.1)
]
