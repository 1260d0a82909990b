-- ===== src/Security/Middleware/Policies.antt =====
-- security/authorization.go with local policies: who gets through AuthorizationMiddleware.
use microlib.Prelude.{◌≡◌, true, some, Dict, text_eq, arith, inl, inr, Option-cases}
use microlib.Text.{Text}
use microlib.Security.LocalPolicy.{
  AuthorizationRequest, AuthorizationResponse, Policy, find_policy, evaluate,
}
use microlib.Security.LocalPolicy.FirstMatch.{Decides, evaluate_iff}
use microlib.Security.Middleware.{
  Claims, Request, authorization_request, authorization_middleware, evaluation_of, after_evaluation,
  is_next,
}

-- What lets a request through: a policy for the resource type, by its first rule that applies or by
-- its default action.
pub record IsAllowed (policies : Dict Text Policy) (req : AuthorizationRequest) : Type 0 where
  pub policy : Policy
  pub response : AuthorizationResponse
  pub applicable : find_policy policies req.resource.type ≡ some policy
  pub decision : Decides policy.rules policy.default_action req response
  pub allowed : response.allowed ≡ true

pub allowed_by_policy :
    (policies : Dict Text Policy) (req : AuthorizationRequest) (resp : AuthorizationResponse)
    → evaluate policies req ≡ some resp
    → resp.allowed ≡ true
    → IsAllowed policies req
allowed_by_policy policies req resp f allowed =
    elim (Option-cases (find_policy policies req.resource.type)) [
      | inl e ↦ absurd (unfold evaluate in ground arith)
      | inr (policy, e) ↦ record {
        policy = policy;
        response = resp;
        applicable = e;
        decision = (evaluate_iff policies policy req resp e).0 f;
        allowed = allowed;
      }
    ]

module _ (policies : Dict Text Policy) (r : Request) where
  passed_by_policy :
      (req : AuthorizationRequest)
      → is_next (after_evaluation (evaluation_of (evaluate policies req)) r) ≡ true
      → IsAllowed policies req
  passed_by_policy req h = elim (Option-cases (evaluate policies req)) [
    | inl f ↦ absurd (ground arith)
    | inr (resp, f) ↦ allowed_by_policy policies req resp f (ground arith)
  ]

  -- AuthorizationMiddleware with local policies lets a request through only if it has claims and a
  -- policy allows what it asks for, for the subject of the claims.
  pub authorized_by_policy :
      (resource_type action : Text)
      → is_next (
          authorization_middleware
            (λ req. evaluation_of (evaluate policies req))
            resource_type
            action
            r)
        ≡ true
      → (claims : Claims) × (r.claims ≡ some claims)
        × IsAllowed policies (authorization_request claims resource_type action r)
  unfolding authorization_middleware
  authorized_by_policy resource_type action h = elim (Option-cases r.claims) [
    | inl e ↦ absurd (ground arith)
    | inr (claims, e) ↦ (
      claims,
      e,
      passed_by_policy (authorization_request claims resource_type action r) (ground arith),
    )
  ]
