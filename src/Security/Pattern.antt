-- ===== src/Security/Pattern.antt =====
-- security/local_policy_evaluator.go: wildcard patterns.
pub mod Meaning
use microlib.Prelude.{Bool, true, false, [], ◌∷◌, text_beq, if◌then◌else◌}
use microlib.Text.{Text, has_prefix, has_suffix, trim_prefix, trim_suffix}

-- The text "*".
abbrev pub star : Text
star = b'*' ∷ []

unfoldable pub matches_pattern : Text → Text → Bool
matches_pattern s pattern =
    if text_beq pattern star
    then true
    else if text_beq s pattern
    then true
    else if has_suffix pattern star
    then has_prefix s (trim_suffix pattern star)
    else if has_prefix pattern star
    then has_suffix s (trim_prefix pattern star)
    else false
