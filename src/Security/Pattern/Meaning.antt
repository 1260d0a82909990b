-- ===== src/Security/Pattern/Meaning.antt =====
-- security/local_policy_evaluator.go: what a pattern matches.
use microlib.Prelude.{
  ◌≡◌, ◌↔◌, ap, subst, if-rule, ◌∙◌, Bool, true, false, ◌++◌, text_beq, text_beq_iff, arith,
}
use microlib.Text.{Text, has_prefix, has_suffix, trim_prefix, trim_suffix}
use microlib.Text.Affixes.{
  has_prefix-append, rest_of_prefix, has_suffix-append, front_of_suffix, trim_suffix-append,
  trim_prefix-append,
}
use microlib.Security.Pattern.{star, matches_pattern}

-- The four ways in which a text matches. A star at both ends counts as the one at the end.
pub data Matches (s : Text) (pattern : Text) : Type 0 where
  everything : pattern ≡ star → Matches s pattern
  exactly : s ≡ pattern → Matches s pattern
  starts : (front rest : Text) → pattern ≡ front ++ star → s ≡ front ++ rest → Matches s pattern
  ends :
      (front rest : Text)
      → has_suffix pattern star ≡ false
      → pattern ≡ star ++ rest
      → s ≡ front ++ rest
      → Matches s pattern

starred_front :
    (s pattern : Text)
    → has_suffix pattern star ≡ true
    → has_prefix s (trim_suffix pattern star) ≡ true
    → Matches s pattern
starred_front s pattern last h =
    let (front, e) = front_of_suffix pattern star last in
    let (rest, r) = rest_of_prefix s front (
      subst (λ p. has_prefix s p ≡ true)
        (ap (λ p. trim_suffix p star) e ∙ trim_suffix-append front star) h) in
    starts front rest e r

starred_back :
    (s pattern : Text)
    → has_suffix pattern star ≡ false
    → has_prefix pattern star ≡ true
    → has_suffix s (trim_prefix pattern star) ≡ true
    → Matches s pattern
starred_back s pattern last first h =
    let (rest, e) = rest_of_prefix pattern star first in
    let (front, r) = front_of_suffix s rest (
      subst (λ p. has_suffix s p ≡ true)
        (ap (λ p. trim_prefix p star) e ∙ trim_prefix-append star rest) h) in
    ends front rest last e r

read_match : (s pattern : Text) → matches_pattern s pattern ≡ true → Matches s pattern
unfolding matches_pattern
read_match s pattern =
    if-rule P (text_beq pattern star) _ _ (λ e _. everything ((text_beq_iff pattern star).0 e))
      (λ _.
        if-rule P (text_beq s pattern) _ _ (λ e _. exactly ((text_beq_iff s pattern).0 e))
          (λ _.
            if-rule P (has_suffix pattern star) _ _ (λ e h. starred_front s pattern e h)
              (λ l.
                if-rule P (has_prefix pattern star) _ _ (λ e h. starred_back s pattern l e h)
                  (λ _ h. cc))))
  where
    P : Bool → Type 0
    P b = b ≡ true → Matches s pattern

starts_test :
    (front rest : Text) → has_prefix (front ++ rest) (trim_suffix (front ++ star) star) ≡ true
starts_test front rest = rw (trim_suffix-append front star) (has_prefix-append front rest)

ends_test :
    (front rest : Text) → has_suffix (front ++ rest) (trim_prefix (star ++ rest) star) ≡ true
ends_test front rest = rw (trim_prefix-append star rest) (has_suffix-append front rest)

found_match : (s pattern : Text) → Matches s pattern → matches_pattern s pattern ≡ true
unfolding matches_pattern
found_match s pattern (everything e) = rw ((text_beq_iff pattern star).1 e)
found_match s pattern (exactly e) = ground (arith, (text_beq_iff s pattern).1 e)
found_match s pattern (starts front rest e r) =
    rw (e, r) (ground (arith, has_suffix-append front star, starts_test front rest))
found_match s pattern (ends front rest last e r) =
    let l : has_suffix (star ++ rest) star ≡ false =
      subst (λ p. has_suffix p star ≡ false) e last in
    rw (e, r) (ground (arith, l, has_prefix-append star rest, ends_test front rest))

-- A text matches a pattern exactly when the pattern is "*", or is the text, or is a prefix of the
-- text with a star behind it, or, with no star at its end, is a star with a suffix of the text behind
-- it.
pub matches_pattern_iff :
    (s pattern : Text) → (matches_pattern s pattern ≡ true) ↔ Matches s pattern
matches_pattern_iff s pattern = (read_match s pattern, found_match s pattern)
