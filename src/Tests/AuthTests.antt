-- ===== src/Tests/AuthTests.antt =====
-- security/, http/: tokens of one issuer, signed by a key that the endpoint has.
use microlib.Prelude.{
  ℕ, pos, ◌≡◌, refl, true, none, some, List, [], ◌∷◌, insert, lookup, text_eq, text_beq,
  if◌then◌else◌,
}
use microlib.Text.{Text, text, split, has_prefix, trim_prefix}
use microlib.Security.Values.{end, field, str, lookup_field}
use microlib.Security.Middleware.{non_empty}
use microlib.Security.Jwks.{
  Token, JwtLibrary, Jwk, JwksClient, refresh_keys, get_key, process_keys, parse_key,
}
use microlib.Security.Authentication.{
  AuthConfig, AuthRequest, extract_token, validate_token, parse_token, key_for, check_claims,
  claims_of, custom_of,
}
use microlib.Security.Authentication.Middlewares.{
  AuthOutcome, passed, http_status, AuthMiddlewareOptions, auth_middleware, answer_with,
  extract_claims, scope_of, parse_scope_string, has_all, require_scope, require_scopes,
}
use microlib.Security.Jwks.Rotation.{last_key, get_key-refresh_keys}
use microlib.Security.Authentication.Scopes.{and_then, require_scopes-require_scope}
use microlib.Security.Authentication.Authenticated.{
  Answers, auth_middleware-Answers, auth_middleware-append,
}

-- The one token: of the key "k1" and the scope "read write".
abbrev signed : Token
signed = record {
  is_rsa = true;
  key_id = some (text "k1");
  claims =
      field (text "sub") (str (text "alice")) (
        field (text "iss") (str (text "idp")) (field (text "scope") (str (text "read write")) end));
}

-- A key is the text of its certificate; the token's signature is right under the certificate "A".
abbrev library : JwtLibrary Text
library = record {
  decode = λ s. if text_beq s (text "abc") then some signed else none;
  verify = λ k s. text_beq k (text "-----BEGIN CERTIFICATE-----\nA\n-----END CERTIFICATE-----");
  parse_certificate = some;
  decode_base64 = λ s. none;
  public_key = λ n e. [];
  to_int64 = pos;
}

abbrev key_set : List Jwk
key_set =
    record {
      kid = text "k1";
      kty = text "RSA";
      use_of = text "sig";
      n = [];
      e = [];
      x5c = text "A" ∷ [];
    }
    ∷ []

abbrev config : AuthConfig
config = record {
  issuer = text "idp";
  audience = [];
  token_lookup = text "header:Authorization";
  auth_scheme = text "Bearer";
}

abbrev options : AuthMiddlewareOptions
options = record {
  bypass_paths = text "/metrics" ∷ text "/health" ∷ [];
  required_scopes = text "write" ∷ [];
  claims_to_context = text "scope" ∷ [];
}

abbrev request_of : Text → Text → AuthRequest
request_of path header = record {
  path = path;
  header = λ name. if text_beq name (text "Authorization") then header else [];
  query = λ name. [];
  cookie = λ name. none;
  claims = none;
  extracted = [];
}

-- A client that has no keys yet.
abbrev keyless : JwksClient Text
keyless = record { keys = []; last_refresh = 0 }

abbrev status_of : AuthOutcome → ℕ
status_of (passed r) = 200
status_of (http_status s) = s

-- With the key that a refresh brings, without one, and with no token.
statuses :
    (status_of
        (auth_middleware library config options
          (some key_set)
          5
          (request_of (text "/orders") (text "Bearer abc"))
          keyless).0
      ≡ 200)
    × (status_of
          (auth_middleware library config options none 5
            (request_of (text "/orders") (text "Bearer abc"))
            keyless).0
        ≡ 401)
    × (status_of
          (auth_middleware library config options none 5 (request_of (text "/orders") []) keyless).0
        ≡ 401)
unfolding auth_middleware extract_token split has_prefix trim_prefix validate_token parse_token
    key_for get_key refresh_keys process_keys parse_key insert lookup check_claims claims_of
    custom_of answer_with extract_claims scope_of parse_scope_string has_all non_empty lookup_field
statuses = (refl, refl, refl)

auth_middleware-Answers_example :
    Answers library config options
      (request_of (text "/orders") (text "Bearer abc"))
      (auth_middleware library config options
        (some key_set)
        5
        (request_of (text "/orders") (text "Bearer abc"))
        keyless).0
      (auth_middleware library config options
        (some key_set)
        5
        (request_of (text "/orders") (text "Bearer abc"))
        keyless).1
auth_middleware-Answers_example =
    auth_middleware-Answers library config options (some key_set) 5
      (request_of (text "/orders") (text "Bearer abc")) keyless

-- A longer word than the path that bypasses.
longer_word_bypasses :
    auth_middleware library config options none 5
      (request_of (text "/healthcare/patients") [])
      keyless
    ≡ (passed (request_of (text "/healthcare/patients") []), keyless)
longer_word_bypasses =
    auth_middleware-append library config options none 5
      (request_of (text "/healthcare/patients") []) keyless (text "/health") (text "care/patients")
      (text "/metrics" ∷ []) [] refl refl refl

get_key-refresh_keys_example :
    get_key (text "k1") (refresh_keys library (some key_set) 5 keyless).1
    ≡ last_key library (text "k1") key_set
get_key-refresh_keys_example = get_key-refresh_keys library (text "k1") key_set 5 keyless

abbrev authenticated_request : AuthRequest
authenticated_request = record (request_of (text "/orders") []) {
  claims = some (record {
    subject = text "alice";
    issuer = text "idp";
    audience = [];
    expires_at = none;
    not_before = none;
    issued_at = none;
    id = [];
    custom = (text "scope", str (text "read write")) ∷ [];
  });
}

require_scopes-require_scope_example :
    require_scopes (text "read" ∷ text "write" ∷ []) authenticated_request
    ≡ and_then
        (require_scope (text "read") authenticated_request)
        (require_scopes (text "write" ∷ []))
require_scopes-require_scope_example =
    require_scopes-require_scope (text "read") (text "write" ∷ []) authenticated_request
