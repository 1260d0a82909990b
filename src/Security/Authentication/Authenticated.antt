-- ===== src/Security/Authentication/Authenticated.antt =====
-- security/auth.go, http/auth_middleware_impl.go: what holds of a request that is passed on.
use microlib.Prelude.{
  ℕ, Bool, true, false, not, Option, some, List, [], ◌∷◌, ◌++◌, lookup, text_eq, text_beq, is_empty,
  ◌⊎◌, inl, inr, ◌&&◌, ◌||◌, ◌≡◌, refl, Bool-cases, Option-cases,
}
use microlib.Text.{Text, text, has_prefix}
use microlib.Text.Affixes.{has_prefix-append}
use microlib.Security.Values.{Fields}
use microlib.Security.Jwks.{Token, JwtLibrary, Jwk, JwksClient, refresh_keys, get_key}
use microlib.Security.Authentication.{
  TokenError, TokenClaims, AuthConfig, claims_of, meets, check_claims, is_key_not_found, key_for,
  parse_token, checked, after_parse, validate_token, AuthRequest, extract_token,
}
use microlib.Security.Authentication.Middlewares.{
  AuthOutcome, passed, http_status, AuthMiddlewareOptions, extract_claims, bypasses, scopes_met,
  answer_with, auth_middleware,
}

abbrev pub OnRight : {A B : Type 0} → (B → Type 0) → A ⊎ B → Type 0
OnRight P (inl a) = Unit
OnRight P (inr b) = P b

Sum-cases : {A B : Type 0} (o : A ⊎ B) → ((e : A) × (o ≡ inl e)) ⊎ ((b : B) × (o ≡ inr b))
Sum-cases (inl e) = inl (e, refl)
Sum-cases (inr b) = inr (b, refl)

extract_claims-claims :
    (names : List Text) (claims : TokenClaims) (r : AuthRequest)
    → (extract_claims names claims r).claims ≡ r.claims
unfolding extract_claims
extract_claims-claims [] claims r = refl
extract_claims-claims (name ∷ names) claims r = elim (Option-cases (lookup name claims.custom)) [
  | inl no_claim ↦ rw (extract_claims, no_claim) (extract_claims-claims names claims r)
  | inr (value, found) ↦ rw (extract_claims, found) (extract_claims-claims names claims _)
]

or-true_middle : (a b : Bool) → ((a || true) || b) ≡ true
or-true_middle true b = refl
or-true_middle false b = refl

or-true_right : (a : Bool) → (a || true) ≡ true
or-true_right true = refl
or-true_right false = refl

pub bypasses-append :
    (path rest : Text) (paths others : List Text)
    → text_beq path (b'/' ∷ []) ≡ false
    → bypasses (path ++ rest) (paths ++ path ∷ others) ≡ true
unfolding has_prefix
bypasses-append path rest [] others slashless =
    rw (slashless, has_prefix-append path rest) (or-true_middle _ _)
bypasses-append path rest (p ∷ paths) others slashless =
    rw (bypasses-append path rest paths others slashless) (or-true_right _)

or_of_not : (a b : Bool) → (not a && not b) ≡ false → (a || b) ≡ true
or_of_not true b h = refl
or_of_not false true h = refl
or_of_not false false h = cc

module _ {K : Type 0} (lib : JwtLibrary K) where
  -- A token that a key of the client verifies, and whose claims these are.
  pub record IsGenuine (c : JwksClient K) (s : Text) (claims : Fields) : Type 0 where
    pub token : Token
    pub kid : Text
    pub key : K
    pub decoded : lib.decode s ≡ some token
    pub method : token.is_rsa ≡ true
    pub names_key : token.key_id ≡ some kid
    pub known : get_key kid c ≡ some key
    pub verified : lib.verify key s ≡ true
    pub carries : token.claims ≡ claims

  parse_token-IsGenuine :
      (c : JwksClient K) (s : Text) → OnRight (IsGenuine c s) (parse_token lib c s)
  unfolding parse_token key_for
  parse_token-IsGenuine c s = elim (Option-cases (lib.decode s)) [
    | inl bad ↦ rw (parse_token, bad) tt
    | inr (token, decoded) ↦ elim (Bool-cases token.is_rsa) [
      | inr other ↦ rw (parse_token, decoded, key_for, other) tt
      | inl rsa ↦ elim (Option-cases token.key_id) [
        | inl nameless ↦ rw (parse_token, decoded, key_for, rsa, nameless) tt
        | inr (kid, named) ↦ elim (Option-cases (get_key kid c)) [
          | inl unknown ↦ rw (parse_token, decoded, key_for, rsa, named, unknown) tt
          | inr (key, known) ↦ elim (Bool-cases (lib.verify key s)) [
            | inr forged ↦ rw (parse_token, decoded, key_for, rsa, named, known, forged) tt
            | inl verified ↦
                rw (parse_token, decoded, key_for, rsa, named, known, verified)
                  (record {
                    token = token;
                    kid = kid;
                    key = key;
                    decoded = decoded;
                    method = rsa;
                    names_key = named;
                    known = known;
                    verified = verified;
                    carries = refl;
                  })
          ]
        ]
      ]
    ]
  ]

  -- Claims of a genuine token, for the issuer and the audience that are configured, if any are.
  pub record IsAccepted (config : AuthConfig) (c : JwksClient K) (s : Text) (claims : TokenClaims)
      : Type 0 where
    pub fields : Fields
    pub genuine : IsGenuine c s fields
    pub reads : claims ≡ claims_of lib.to_int64 fields
    pub issuer : (is_empty config.issuer || text_beq claims.issuer config.issuer) ≡ true
    pub audience : (is_empty config.audience || meets config.audience claims.audience) ≡ true

  check_claims-IsAccepted :
      (config : AuthConfig) (c : JwksClient K) (s : Text) (fields : Fields) (claims : TokenClaims)
      → IsGenuine c s fields
      → claims ≡ claims_of lib.to_int64 fields
      → OnRight (IsAccepted config c s) (check_claims config claims)
  unfolding check_claims
  check_claims-IsAccepted config c s fields claims genuine reads =
      elim (Bool-cases
        (not (is_empty config.issuer) && not (text_beq claims.issuer config.issuer))) [
          | inl bad ↦ rw bad tt
          | inr right ↦
              elim (Bool-cases
                (not (is_empty config.audience) && not (meets config.audience claims.audience))) [
                  | inl bad ↦ rw (right, bad) tt
                  | inr meant ↦
                      rw (right, meant)
                        (record {
                          fields = fields;
                          genuine = genuine;
                          reads = reads;
                          issuer = or_of_not (is_empty config.issuer) _ right;
                          audience = or_of_not (is_empty config.audience) _ meant;
                        })
                ]
        ]

  checked-IsAccepted :
      (config : AuthConfig) (c : JwksClient K) (s : Text) (o : TokenError ⊎ Fields)
      → OnRight (IsGenuine c s) o
      → OnRight (IsAccepted config c s) (checked lib config o)
  unfolding checked
  checked-IsAccepted config c s (inl e) genuine = tt
  checked-IsAccepted config c s (inr fields) genuine =
      check_claims-IsAccepted config c s fields _ genuine refl

  validated :
      (config : AuthConfig) (answer : Option (List Jwk)) (now : ℕ) (s : Text) (c : JwksClient K)
      (o : TokenError ⊎ Fields)
      → OnRight (IsGenuine c s) o
      → OnRight
          (IsAccepted config (after_parse lib config answer now s c o).1 s)
          (after_parse lib config answer now s c o).0
  unfolding after_parse
  validated config answer now s c (inr fields) genuine =
      checked-IsAccepted config c s (inr fields) genuine
  validated config answer now s c (inl e) genuine = elim (Bool-cases (not (is_key_not_found e))) [
    | inl other ↦ rw (after_parse, other) tt
    | inr unknown ↦ elim (Bool-cases (refresh_keys lib answer now c).0) [
      | inr failed ↦ rw (after_parse, unknown, failed) tt
      | inl ok ↦
          rw (after_parse, unknown, ok)
            (checked-IsAccepted config _ s (parse_token lib (refresh_keys lib answer now c).1 s)
              (parse_token-IsGenuine (refresh_keys lib answer now c).1 s))
    ]
  ]

  -- Claims that ValidateToken returns are of a token that a key of the client, as it is then, verifies.
  pub validate_token-IsAccepted :
      (config : AuthConfig) (answer : Option (List Jwk)) (now : ℕ) (s : Text) (c : JwksClient K)
      → OnRight
          (IsAccepted config (validate_token lib config answer now s c).1 s)
          (validate_token lib config answer now s c).0
  unfolding validate_token
  validate_token-IsAccepted config answer now s c =
      validated config answer now s c (parse_token lib c s) (parse_token-IsGenuine c s)

  -- What the middleware answers, with the client as it is then: a path that bypasses, a status of HTTP,
  -- or a request with the claims of a token that is accepted and has the scopes.
  pub data Answers (config : AuthConfig) (opts : AuthMiddlewareOptions) (r : AuthRequest)
      : AuthOutcome → JwksClient K → Type 0 where
    bypassed :
        {c : JwksClient K}
        → bypasses r.path opts.bypass_paths ≡ true
        → Answers config opts r (passed r) c
    refused :
        {status : ℕ} {c : JwksClient K}
        → bypasses r.path opts.bypass_paths ≡ false
        → Answers config opts r (http_status status) c
    authenticated :
        {r' : AuthRequest} {c : JwksClient K} (s : Text) (claims : TokenClaims)
        → extract_token (text "header:Authorization") (text "Bearer") r ≡ inr s
        → IsAccepted config c s claims
        → scopes_met opts.required_scopes claims ≡ true
        → r'.claims ≡ some claims
        → Answers config opts r (passed r') c

  answer_with-Answers :
      (config : AuthConfig) (opts : AuthMiddlewareOptions) (r : AuthRequest) (s : Text)
      (result : (TokenError ⊎ TokenClaims) × JwksClient K)
      → bypasses r.path opts.bypass_paths ≡ false
      → extract_token (text "header:Authorization") (text "Bearer") r ≡ inr s
      → OnRight (IsAccepted config result.1 s) result.0
      → Answers config opts r (answer_with opts r result).0 (answer_with opts r result).1
  unfolding answer_with
  answer_with-Answers config opts r s (inl e, c) held found accepted = refused held
  answer_with-Answers config opts r s (inr claims, c) held found accepted =
      elim (Bool-cases (scopes_met opts.required_scopes claims)) [
        | inr lacks ↦ rw (answer_with, lacks) (refused held)
        | inl met ↦
            rw (answer_with, met)
              (authenticated s claims found accepted met (
                extract_claims-claims opts.claims_to_context claims
                  (record r { claims = some claims })))
      ]

  -- NewAuthMiddleware passes a request on only if its path bypasses the authentication, or with the
  -- claims of a token that is accepted and has the required scopes.
  pub auth_middleware-Answers :
      (config : AuthConfig) (opts : AuthMiddlewareOptions) (answer : Option (List Jwk)) (now : ℕ)
      (r : AuthRequest) (c : JwksClient K)
      → Answers config opts r
          (auth_middleware lib config opts answer now r c).0
          (auth_middleware lib config opts answer now r c).1
  unfolding auth_middleware
  auth_middleware-Answers config opts answer now r c =
      elim (Bool-cases (bypasses r.path opts.bypass_paths)) [
        | inl passes ↦ rw (auth_middleware, passes) (bypassed passes)
        | inr held ↦
            elim (Sum-cases (extract_token (text "header:Authorization") (text "Bearer") r)) [
              | inl (e, missing) ↦ rw (auth_middleware, held, missing) (refused held)
              | inr (s, found) ↦
                  rw (auth_middleware, held, found)
                    (answer_with-Answers config opts r s _ held found
                      (validate_token-IsAccepted config answer now s c))
            ]
      ]

  -- A path that bypasses takes with it every path that it is a prefix of, at the end of a word or not:
  -- with no token, the request is passed on as it is.
  pub auth_middleware-append :
      (config : AuthConfig) (opts : AuthMiddlewareOptions) (answer : Option (List Jwk)) (now : ℕ)
      (r : AuthRequest) (c : JwksClient K) (path rest : Text) (paths others : List Text)
      → opts.bypass_paths ≡ paths ++ path ∷ others
      → text_beq path (b'/' ∷ []) ≡ false
      → r.path ≡ path ++ rest
      → auth_middleware lib config opts answer now r c ≡ (passed r, c)
  unfolding auth_middleware
  auth_middleware-append config opts answer now r c path rest paths others listed slashless there =
      rw (auth_middleware, listed, there, bypasses-append path rest paths others slashless) refl
