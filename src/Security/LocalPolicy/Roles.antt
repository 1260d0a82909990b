-- ===== src/Security/LocalPolicy/Roles.antt =====
-- security/local_policy_evaluator.go: how a subject's roles meet role patterns.
use microlib.Prelude.{ℕ, ◌≡◌, Bool, false, any, nat_beq}
use microlib.Text.{Text}

-- The character stands in the text.
abbrev pub occurs : ℕ → Text → Bool
occurs c = any (nat_beq c)

-- A role, as policies name it: no space, and no star.
pub record IsPlainRole (role : Text) : Type 0 where
  pub no_space : occurs b' ' role ≡ false
  pub no_star : occurs b'*' role ≡ false
