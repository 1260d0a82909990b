-- ===== src/Security/LocalPolicy/FirstMatch.antt =====
-- security/local_policy_evaluator.go: the first applicable rule decides.
use microlib.Prelude.{
  ◌≡◌, ◌↔◌, ◌⊎◌, refl, ap, Bool, true, false, Option, none, some, List, [], ◌∷◌, ◌++◌, Dict, All,
  text_beq, text_eq, arith, inl, inr,
}
use microlib.Text.{Text, text}
use microlib.Security.LocalPolicy.{
  AuthorizationRequest, AuthorizationResponse, PolicyRule, Policy, rule_applies, decide,
  find_policy, evaluate,
}

verdict_cases : (o : Option Bool) → ((o ≡ none) ⊎ (o ≡ some true)) ⊎ (o ≡ some false)
verdict_cases none = inl (inl refl)
verdict_cases (some true) = inl (inr refl)
verdict_cases (some false) = inr refl

-- How a response comes about: by the first rule that applies, or, if none does, by default.
pub data Decides (rules : List PolicyRule) (default_action : Text) (req : AuthorizationRequest)
    (resp : AuthorizationResponse) : Type 0 where
  by_rule :
      (before after : List PolicyRule) (rule : PolicyRule)
      → rules ≡ before ++ rule ∷ after
      → All (λ r. rule_applies r req ≡ some false) before
      → rule_applies rule req ≡ some true
      → resp ≡ record { allowed = text_beq rule.effect (text "allow"); reason = rule.name }
      → Decides rules default_action req resp
  by_default :
      All (λ r. rule_applies r req ≡ some false) rules
      → resp ≡ record {
        allowed = text_beq default_action (text "allow");
        reason = text "Default action";
      }
      → Decides rules default_action req resp

module _ (default_action : Text) (req : AuthorizationRequest) (resp : AuthorizationResponse) where
  skip :
      (rule : PolicyRule) (rules : List PolicyRule)
      → rule_applies rule req ≡ some false
      → Decides rules default_action req resp
      → Decides (rule ∷ rules) default_action req resp
  skip rule rules h (by_rule before after r e none_before applies is) =
      by_rule (rule ∷ before) after r (ap (λ l. rule ∷ l) e) (h, none_before) applies is
  skip rule rules h (by_default none_apply is) = by_default (h, none_apply) is

  decide-Decides :
      (rules : List PolicyRule)
      → decide rules default_action req ≡ some resp
      → Decides rules default_action req resp
  unfolding decide
  decide-Decides [] h = by_default tt (ground arith)
  decide-Decides (rule ∷ rules) h = elim (verdict_cases (rule_applies rule req)) [
    | inl (inl e) ↦ ground arith
    | inl (inr e) ↦ by_rule [] rules rule refl tt e (ground arith)
    | inr e ↦ skip rule rules e (decide-Decides rules (ground arith))
  ]

  decide-first :
      (before after : List PolicyRule) (rule : PolicyRule)
      → All (λ r. rule_applies r req ≡ some false) before
      → rule_applies rule req ≡ some true
      → decide (before ++ rule ∷ after) default_action req
        ≡ some (record { allowed = text_beq rule.effect (text "allow"); reason = rule.name })
  unfolding decide
  decide-first [] after rule h applies = ground arith
  decide-first (r ∷ before) after rule h applies =
      ground (arith, decide-first before after rule h.1 applies)

  decide-default :
      (rules : List PolicyRule)
      → All (λ r. rule_applies r req ≡ some false) rules
      → decide rules default_action req
        ≡ some (record {
          allowed = text_beq default_action (text "allow");
          reason = text "Default action";
        })
  unfolding decide
  decide-default [] h = refl
  decide-default (r ∷ rules) h = ground (arith, decide-default rules h.1)

  Decides-decide :
      (rules : List PolicyRule)
      → Decides rules default_action req resp
      → decide rules default_action req ≡ some resp
  Decides-decide rules (by_rule before after rule e none_before applies is) =
      rw (e, is) (decide-first before after rule none_before applies)
  Decides-decide rules (by_default none_apply is) = rw is (decide-default rules none_apply)

-- A policy that answers a request does so by its first rule that applies, or, when none of its rules
-- applies, by its default action; and what they say is the answer.
pub evaluate_iff :
    (policies : Dict Text Policy) (policy : Policy) (req : AuthorizationRequest)
    (resp : AuthorizationResponse)
    → find_policy policies req.resource.type ≡ some policy
    → (evaluate policies req ≡ some resp) ↔ Decides policy.rules policy.default_action req resp
unfolding evaluate
evaluate_iff policies policy req resp found = (
  λ h. decide-Decides policy.default_action req resp policy.rules (ground arith),
  λ d. ground (arith, Decides-decide policy.default_action req resp policy.rules d),
)
