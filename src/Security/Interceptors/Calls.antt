-- ===== src/Security/Interceptors/Calls.antt =====
-- security/grpc_authorization.go with local policies: which calls reach their handler.
use microlib.Prelude.{Bool, true, false, ◌≡◌, some, Dict, text_eq, arith, inl, inr, Option-cases}
use microlib.Text.{Text}
use microlib.Security.LocalPolicy.{Policy, evaluate}
use microlib.Security.Middleware.{Claims, evaluation_of}
use microlib.Security.Middleware.Policies.{IsAllowed, allowed_by_policy}
use microlib.Security.Interceptors.{
  GrpcCall, Handling, handled, call_request, authorization_interceptor,
}

abbrev pub is_handled : Handling → Bool
is_handled (handled c) = true
is_handled _ = false

-- The interceptor with local policies lets a call reach its handler only if it has claims and a policy
-- allows its method, for the subject of the claims.
pub handled_by_policy :
    (policies : Dict Text Policy) (resource_type action : Text) (c : GrpcCall)
    → is_handled (
        authorization_interceptor
          (λ req. evaluation_of (evaluate policies req))
          resource_type
          action
          c)
      ≡ true
    → (claims : Claims) × (c.claims ≡ some claims)
      × IsAllowed policies (call_request claims resource_type action c)
unfolding authorization_interceptor
handled_by_policy policies resource_type action c h = elim (Option-cases c.claims) [
  | inl e ↦ absurd (ground arith)
  | inr (claims, e) ↦
      elim (Option-cases (evaluate policies (call_request claims resource_type action c))) [
        | inl f ↦ absurd (ground arith)
        | inr (resp, f) ↦ (
          claims,
          e,
          allowed_by_policy policies (call_request claims resource_type action c) resp f
              (ground arith),
        )
      ]
]
