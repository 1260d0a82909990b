-- ===== src/Security/Authentication/Scopes.antt =====
-- http/auth_middleware_impl.go, security/auth.go: the middlewares for scopes agree.
use microlib.Prelude.{
  inl, inr, sym, true, false, some, List, [], ◌∷◌, text_eq, text_beq, is_empty, if◌then◌else◌, ◌≡◌,
  refl, Bool-cases, Option-cases,
}
use microlib.Text.{Text, split}
use microlib.Security.Rbac.{contains}
use microlib.Security.Middleware.{non_empty}
use microlib.Security.Authentication.{TokenClaims, AuthRequest}
use microlib.Security.Authentication.Middlewares.{
  AuthOutcome, passed, http_status, parse_scope_string, scope_of, has_all, require_scope,
  require_scopes, require_scope_part,
}

-- A middleware and the next one.
unfoldable pub and_then : AuthOutcome → (AuthRequest → AuthOutcome) → AuthOutcome
and_then (passed r) next = next r
and_then (http_status s) next = http_status s

require_scopes_given :
    (scopes : List Text) (r : AuthRequest) (claims : TokenClaims) (s : Text)
    → r.claims ≡ some claims
    → scope_of claims ≡ some s
    → require_scopes scopes r
      ≡ (if has_all (parse_scope_string s) scopes then passed r else http_status 403)
unfolding require_scopes
require_scopes_given scopes r claims s present given = simp (require_scopes, present, given)

-- RequireScopes is RequireScope for the first of its scopes, followed by itself for the others.
pub require_scopes-require_scope :
    (scope : Text) (scopes : List Text) (r : AuthRequest)
    → require_scopes (scope ∷ scopes) r ≡ and_then (require_scope scope r) (require_scopes scopes)
unfolding require_scopes require_scope and_then has_all
require_scopes-require_scope scope scopes r = elim (Option-cases r.claims) [
  | inl anonymous ↦ rw (require_scopes, require_scope, anonymous) refl
  | inr (claims, present) ↦ elim (Option-cases (scope_of claims)) [
    | inl scopeless ↦ rw (require_scopes, require_scope, present, scopeless) refl
    | inr (s, given) ↦ elim (Bool-cases (contains scope (parse_scope_string s))) [
      | inr lacks ↦ rw (require_scopes, require_scope, present, given, has_all, lacks) refl
      | inl has ↦
          rw (require_scopes, require_scope, present, given, has_all, has)
            (sym (require_scopes_given scopes r claims s present given))
    ]
  ]
]

empty_beq : (part x : Text) → is_empty part ≡ true → is_empty x ≡ false → text_beq part x ≡ false
empty_beq [] [] h proper = cc
empty_beq [] (c ∷ x) h proper = refl
empty_beq (c ∷ part) x h proper = cc

contains-non_empty :
    (x : Text) (parts : List Text)
    → is_empty x ≡ false
    → contains x (non_empty parts) ≡ contains x parts
unfolding non_empty
contains-non_empty x [] proper = refl
contains-non_empty x (part ∷ parts) proper = elim (Bool-cases (is_empty part)) [
  | inr some_text ↦ rw (non_empty, some_text, contains-non_empty x parts proper) refl
  | inl empty ↦ rw (empty, empty_beq part x empty proper) (contains-non_empty x parts proper)
]

-- The two RequireScope differ for the empty scope at most.
pub require_scope_part-require_scope :
    (scope : Text) (r : AuthRequest)
    → is_empty scope ≡ false
    → require_scope_part scope r ≡ require_scope scope r
unfolding require_scope_part require_scope parse_scope_string
require_scope_part-require_scope scope r proper = elim (Option-cases r.claims) [
  | inl anonymous ↦ rw (require_scope_part, require_scope, anonymous) refl
  | inr (claims, present) ↦ elim (Option-cases (scope_of claims)) [
    | inl scopeless ↦ rw (require_scope_part, require_scope, present, scopeless) refl
    | inr (s, given) ↦
        rw
          (
            require_scope_part,
            require_scope,
            present,
            given,
            contains-non_empty scope (split b' ' s) proper,
          )
          refl
  ]
]
