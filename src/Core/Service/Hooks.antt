-- ===== src/Core/Service/Hooks.antt =====
-- core/service.go: the shutdown loop by indices runs the hooks in reverse order.
use mathlib.Core.List.{reverse-append}
use mathlib.Core.Path.{fun_ext}
use microlib.Prelude.{
  ℕ, zero, suc, ◌≤◌, ◌≡◌, refl, ap, ◌∙◌, some, List, [], ◌∷◌, ◌++◌, reverse, length, take,
  get_elem?, arith,
}
use microlib.Core.Service.{Hook, after_hook, Context, run_hooks, run_hooks_down}

module _ {A : Type 0} where
  take-suc :
      (i : ℕ) (xs : List A) (x : A)
      → get_elem? xs i ≡ some x
      → take (suc i) xs ≡ take i xs ++ x ∷ []
  take-suc zero [] x h = cc
  take-suc zero (y ∷ ys) x h = cc
  take-suc (suc i) [] x h = cc
  take-suc (suc i) (y ∷ ys) x h = ap (λ l. y ∷ l) (take-suc i ys x h)

  some_of_lt : (i : ℕ) (xs : List A) → suc i ≤ length xs → (x : A) × (get_elem? xs i ≡ some x)
  some_of_lt i [] h = absurd (omega arith)
  some_of_lt zero (y ∷ ys) h = (y, refl)
  some_of_lt (suc i) (y ∷ ys) h = some_of_lt i ys (omega arith)

  take-length : (xs : List A) → take (length xs) xs ≡ xs
  take-length [] = refl
  take-length (x ∷ xs) = ap (λ l. x ∷ l) (take-length xs)

module _ {W : Type 0} (ctx : Context) (hooks : List (Hook W)) where
  down-take :
      (n : ℕ) (w : W)
      → n ≤ length hooks
      → run_hooks_down ctx hooks n w ≡ run_hooks ctx (reverse (take n hooks)) w
  unfolding run_hooks_down run_hooks
  down-take zero w h = refl
  down-take (suc i) w h =
      let (hook, e) = some_of_lt i hooks h in
      rw (e, run_hooks_down, take-suc i hooks hook e, reverse-append)
        (ap (after_hook (hook ctx w)) (fun_ext λ v. down-take i v (omega arith)))

  -- The loop from the last index down to 0 runs the registered hooks in reverse order, up to the
  -- first that fails.
  pub run_hooks_down-eq :
      (w : W) → run_hooks_down ctx hooks (length hooks) w ≡ run_hooks ctx (reverse hooks) w
  run_hooks_down-eq w =
      down-take (length hooks) w (omega arith)
      ∙ ap (λ l. run_hooks ctx (reverse l) w) (take-length hooks)
