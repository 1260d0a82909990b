-- ===== src/Security/Authentication.antt =====
-- security/auth.go: JWTAuthenticator.ValidateToken and the token of a request.
pub mod Authenticated
pub mod Middlewares
pub mod Scopes
use microlib.Prelude.{
  ℕ, ℤ, Bool, true, false, not, Option, none, some, List, [], ◌∷◌, ◌++◌, Dict, lookup, insert, any,
  text_eq, text_beq, is_empty, ◌⊎◌, inl, inr, ◌&&◌, ◌||◌, if◌then◌else◌,
}
use microlib.Text.{Text, text, split, has_prefix, trim_prefix}
use microlib.Security.Values.{
  Value, number, str, texts, array, Items, nil, cons, Fields, field, end, lookup_field,
}
use microlib.Security.Rbac.{contains}
use microlib.Security.Jwks.{Token, JwtLibrary, Jwk, JwksClient, refresh_keys, get_key}

pub data TokenError : Type 0 where
  no_token invalid_token bad_lookup : TokenError
  malformed unsupported_method key_not_found not_verified refresh_failed : TokenError
  invalid_issuer invalid_audience : TokenError

-- Times are seconds, and `none` where the token has none.
pub record TokenClaims : Type 0 where
  pub subject : Text
  pub issuer : Text
  pub audience : List Text
  pub expires_at : Option ℤ
  pub not_before : Option ℤ
  pub issued_at : Option ℤ
  pub id : Text
  pub custom : Dict Text Value

pub record AuthConfig : Type 0 where
  pub issuer : Text
  pub audience : List Text
  pub token_lookup : Text
  pub auth_scheme : Text

abbrev text_of : Option Value → Text
text_of (some (str s)) = s
text_of _ = []

-- A member of the audience that is no string is the empty text.
unfoldable audience_items : Items → List Text
audience_items nil = []
audience_items (cons (str s) items) = s ∷ audience_items items
audience_items (cons _ items) = [] ∷ audience_items items

abbrev audience_of : Option Value → List Text
unfolding audience_items
audience_of (some (array items)) = audience_items items
audience_of (some (str s)) = s ∷ []
audience_of _ = []

abbrev time_of : (ℕ → ℤ) → Option Value → Option ℤ
time_of to_int64 (some (number bits)) = some (to_int64 bits)
time_of to_int64 _ = none

abbrev pub is_standard : Text → Bool
is_standard k =
    any (text_beq k) (
      text "sub" ∷ text "iss" ∷ text "aud" ∷ text "exp" ∷ text "nbf" ∷ text "iat" ∷ text "jti" ∷ [])

unfoldable pub custom_of : Fields → Dict Text Value
custom_of end = []
custom_of (field k v claims) =
    let rest = custom_of claims in if is_standard k then rest else (k, v) ∷ rest

unfoldable pub claims_of : (ℕ → ℤ) → Fields → TokenClaims
unfolding lookup_field audience_of custom_of
claims_of to_int64 claims = record {
  subject = text_of (lookup_field (text "sub") claims);
  issuer = text_of (lookup_field (text "iss") claims);
  audience = audience_of (lookup_field (text "aud") claims);
  expires_at = time_of to_int64 (lookup_field (text "exp") claims);
  not_before = time_of to_int64 (lookup_field (text "nbf") claims);
  issued_at = time_of to_int64 (lookup_field (text "iat") claims);
  id = text_of (lookup_field (text "jti") claims);
  custom = custom_of claims;
}

-- Some member of the audience is expected.
abbrev pub meets : List Text → List Text → Bool
meets expected audience = any (λ aud. contains aud expected) audience

-- The checks of issuer and audience.
unfoldable pub check_claims : AuthConfig → TokenClaims → TokenError ⊎ TokenClaims
check_claims config claims =
    if not (is_empty config.issuer) && not (text_beq claims.issuer config.issuer)
    then inl invalid_issuer
    else if not (is_empty config.audience) && not (meets config.audience claims.audience)
    then inl invalid_audience
    else inr claims

abbrev pub is_key_not_found : TokenError → Bool
is_key_not_found key_not_found = true
is_key_not_found _ = false

module _ {K : Type 0} (lib : JwtLibrary K) where
  -- The function that `jwt.Parse` is given.
  unfoldable pub key_for : JwksClient K → Token → TokenError ⊎ K
  unfolding get_key
  key_for c token = if not token.is_rsa then inl unsupported_method else elim token.key_id [
    | none ↦ inl key_not_found
    | some kid ↦ elim (get_key kid c) [ none ↦ inl key_not_found | some k ↦ inr k ]
  ]

  -- `jwt.Parse`: a token without an error is valid, and its claims are a map.
  unfoldable pub parse_token : JwksClient K → Text → TokenError ⊎ Fields
  unfolding key_for
  parse_token c s = elim (lib.decode s) [
    | none ↦ inl malformed
    | some token ↦ elim (key_for c token) [
      | inl e ↦ inl e
      | inr k ↦ if lib.verify k s then inr token.claims else inl not_verified
    ]
  ]

  abbrev checked : AuthConfig → TokenError ⊎ Fields → TokenError ⊎ TokenClaims
  unfolding check_claims claims_of
  checked config (inl e) = inl e
  checked config (inr claims) = check_claims config (claims_of lib.to_int64 claims)

  -- What ValidateToken does after the first parse.
  abbrev pub after_parse :
      AuthConfig
      → Option (List Jwk)
      → ℕ
      → Text
      → JwksClient K
      → TokenError ⊎ Fields
      → (TokenError ⊎ TokenClaims) × JwksClient K
  unfolding parse_token refresh_keys checked
  after_parse config answer now s c (inr claims) = (checked config (inr claims), c)
  after_parse config answer now s c (inl e) =
      let (ok, c') = refresh_keys lib answer now c in
      if not (is_key_not_found e)
      then (inl e, c)
      else if not ok
      then (inl refresh_failed, c')
      else (checked config (parse_token c' s), c')

  -- `answer` is what the endpoint would answer to a refresh, at time `now`.
  unfoldable pub validate_token :
      AuthConfig
      → Option (List Jwk)
      → ℕ
      → Text
      → JwksClient K
      → (TokenError ⊎ TokenClaims) × JwksClient K
  unfolding parse_token after_parse
  validate_token config answer now s c = after_parse config answer now s c (parse_token c s)

-- What the middleware reads of a request, and what its context holds: the claims, and those that were
-- taken out of them.
pub record AuthRequest : Type 0 where
  pub path : Text
  pub header : Text → Text
  pub query : Text → Text
  pub cookie : Text → Option Text
  pub claims : Option TokenClaims
  pub extracted : Dict Text Value

abbrev non_empty_token : Text → TokenError ⊎ Text
non_empty_token [] = inl no_token
non_empty_token (c ∷ s) = inr (c ∷ s)

abbrev from_header : Text → Text → TokenError ⊎ Text
unfolding has_prefix trim_prefix
from_header auth_scheme [] = inl no_token
from_header [] (c ∷ s) = inr (c ∷ s)
from_header (x ∷ scheme) (c ∷ s) =
    if not (has_prefix (c ∷ s) (x ∷ scheme))
    then inl invalid_token
    else inr (trim_prefix (c ∷ s) ((x ∷ scheme) ++ b' ' ∷ []))

abbrev from_source : Text → Text → Text → AuthRequest → TokenError ⊎ Text
unfolding from_header
from_source auth_scheme source name r =
    if text_beq source (text "header")
    then from_header auth_scheme (r.header name)
    else if text_beq source (text "query")
    then non_empty_token (r.query name)
    else if text_beq source (text "cookie")
    then (elim (r.cookie name) [ none ↦ inl no_token | some value ↦ inr value ])
    else inl bad_lookup

unfoldable pub extract_token : Text → Text → AuthRequest → TokenError ⊎ Text
unfolding split from_source
extract_token token_lookup auth_scheme r = elim (split b':' token_lookup) [
  | source ∷ name ∷ [] ↦ from_source auth_scheme source name r
  | _ ↦ inl bad_lookup
]
