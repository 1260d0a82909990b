-- ===== src/Security/Authentication/Middlewares.antt =====
-- security/auth.go, http/auth_middleware.go, http/auth_middleware_impl.go: the middleware that
-- authenticates, and those that read the claims that it leaves.
use microlib.Prelude.{
  ℕ, Bool, true, false, not, Option, none, some, List, [], ◌∷◌, lookup, insert, any, text_eq,
  text_beq, is_empty, ◌⊎◌, inl, inr, ◌&&◌, ◌||◌, if◌then◌else◌,
}
use microlib.Text.{Text, text, split, has_prefix}
use microlib.Security.Values.{Value, str}
use microlib.Security.Rbac.{contains}
use microlib.Security.Middleware.{non_empty}
use microlib.Security.Jwks.{JwtLibrary, Jwk, JwksClient}
use microlib.Security.Authentication.{
  TokenError, TokenClaims, AuthConfig, validate_token, AuthRequest, extract_token,
}

-- The next handler is called with a request, or an error of HTTP is written.
pub data AuthOutcome : Type 0 where
  passed : AuthRequest → AuthOutcome
  http_status : ℕ → AuthOutcome

pub record AuthMiddlewareOptions : Type 0 where
  pub bypass_paths : List Text
  pub required_scopes : List Text
  pub claims_to_context : List Text

-- ParseScopeString: the scopes in the map.
unfoldable pub parse_scope_string : Text → List Text
unfolding split non_empty
parse_scope_string scope = non_empty (split b' ' scope)

abbrev pub text_claim : Option Value → Option Text
text_claim (some (str s)) = some s
text_claim _ = none

-- `claims.Custom["scope"].(string)`.
unfoldable pub scope_of : TokenClaims → Option Text
unfolding lookup
scope_of claims = text_claim (lookup (text "scope") claims.custom)

-- The loop over the required scopes.
unfoldable pub has_all : List Text → List Text → Bool
has_all scopes [] = true
has_all scopes (required ∷ rest) =
    let more = has_all scopes rest in if not (contains required scopes) then false else more

-- The claims that are put into the context under their own keys.
unfoldable pub extract_claims : List Text → TokenClaims → AuthRequest → AuthRequest
unfolding lookup insert
extract_claims [] claims r = r
extract_claims (name ∷ names) claims r = elim (lookup name claims.custom) [
  | none ↦ extract_claims names claims r
  | some value ↦
      extract_claims names claims (record r { extracted = insert name value r.extracted })
]

-- RequireScopes of http/, also as RequireScopesMiddleware.
unfoldable pub require_scopes : List Text → AuthRequest → AuthOutcome
unfolding scope_of parse_scope_string has_all
require_scopes scopes r = elim r.claims [
  | none ↦ http_status 401
  | some claims ↦ elim (scope_of claims) [
    | none ↦ http_status 403
    | some s ↦ if has_all (parse_scope_string s) scopes then passed r else http_status 403
  ]
]

-- RequireScope of http/.
unfoldable pub require_scope : Text → AuthRequest → AuthOutcome
unfolding scope_of parse_scope_string
require_scope scope r = elim r.claims [
  | none ↦ http_status 401
  | some claims ↦ elim (scope_of claims) [
    | none ↦ http_status 403
    | some s ↦ if not (contains scope (parse_scope_string s)) then http_status 403 else passed r
  ]
]

-- RequireScope of security/, where the empty parts count.
unfoldable pub require_scope_part : Text → AuthRequest → AuthOutcome
unfolding scope_of split
require_scope_part scope r = elim r.claims [
  | none ↦ http_status 401
  | some claims ↦ elim (scope_of claims) [
    | none ↦ http_status 403
    | some s ↦ if not (contains scope (split b' ' s)) then http_status 403 else passed r
  ]
]

unfoldable pub extract_claims_to_context : List Text → AuthRequest → AuthRequest
unfolding extract_claims
extract_claims_to_context names r = elim r.claims [
  | none ↦ r
  | some claims ↦ extract_claims names claims r
]

-- Whether the path of a request bypasses the authentication, by any of the paths.
abbrev pub bypasses : Text → List Text → Bool
unfolding has_prefix
bypasses requested = any (λ path.
    text_beq requested path || (not (text_beq path (b'/' ∷ [])) && has_prefix requested path))

-- The scopes, where any are required.
abbrev pub scopes_met : List Text → TokenClaims → Bool
unfolding scope_of parse_scope_string has_all
scopes_met required claims =
    if is_empty required
    then true
    else elim (scope_of claims) [ none ↦ false | some s ↦ has_all (parse_scope_string s) required ]

-- What NewAuthMiddleware does after ValidateToken.
unfoldable pub answer_with :
    {K : Type 0}
    → AuthMiddlewareOptions
    → AuthRequest
    → (TokenError ⊎ TokenClaims) × JwksClient K
    → AuthOutcome × JwksClient K
unfolding extract_claims
answer_with opts r (inl e, c) = (http_status 401, c)
answer_with opts r (inr claims, c) =
    if scopes_met opts.required_scopes claims
    then (
      passed (extract_claims opts.claims_to_context claims (record r { claims = some claims })),
      c,
    )
    else (http_status 403, c)

module _ {K : Type 0} (lib : JwtLibrary K) where
  -- JWTAuthenticator.Middleware. `answer` and `now` are as in ValidateToken.
  unfoldable pub jwt_middleware :
      AuthConfig → Option (List Jwk) → ℕ → AuthRequest → JwksClient K → AuthOutcome × JwksClient K
  unfolding extract_token validate_token
  jwt_middleware config answer now r c =
      elim (extract_token config.token_lookup config.auth_scheme r) [
        | inl e ↦ (http_status 401, c)
        | inr token ↦
            let (result, c') = validate_token lib config answer now token c in
            elim result [
              | inl e ↦ (http_status 401, c')
              | inr claims ↦ (passed (record r { claims = some claims }), c')
            ]
      ]

  unfoldable pub with_bypass :
      AuthConfig
      → List Text
      → Option (List Jwk)
      → ℕ
      → AuthRequest
      → JwksClient K
      → AuthOutcome × JwksClient K
  unfolding has_prefix jwt_middleware
  with_bypass config paths answer now r c =
      if any (has_prefix r.path) paths then (passed r, c) else jwt_middleware config answer now r c

  -- NewAuthMiddleware, with the authenticator's configuration.
  unfoldable pub auth_middleware :
      AuthConfig
      → AuthMiddlewareOptions
      → Option (List Jwk)
      → ℕ
      → AuthRequest
      → JwksClient K
      → AuthOutcome × JwksClient K
  unfolding extract_token validate_token answer_with
  auth_middleware config opts answer now r c =
      if bypasses r.path opts.bypass_paths
      then (passed r, c)
      else elim (extract_token (text "header:Authorization") (text "Bearer") r) [
        | inl e ↦ (http_status 401, c)
        | inr token ↦ answer_with opts r (validate_token lib config answer now token c)
      ]
