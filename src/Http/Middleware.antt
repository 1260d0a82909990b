-- ===== src/Http/Middleware.antt =====
-- http/middleware.go: the chain of middleware, and the middleware for panics, CORS and headers of security.
-- The names of headers are in the canonical form that `Header.Set` gives them.
pub mod Stack
use microlib.Prelude.{
  ℕ, ℤ, pos, negsuc, Bool, true, false, not, Option, none, some, List, [], ◌∷◌, Dict, insert,
  text_eq, text_beq, is_empty, any, ltb, if◌then◌else◌,
}
use microlib.Text.{Text, text, has_prefix}
use microlib.Text.Numbers.{show}

pub record HttpRequest : Type 0 where
  pub method : Text
  pub path : Text

-- The headers that can still be changed, and those that were sent with their status.
pub record ResponseWriter : Type 0 where
  pub header : Dict Text Text
  pub sent : Option (ℕ × Dict Text Text)

-- How a handler ends.
pub data HandlerOutcome : Type 0 where
  returned panicked : ResponseWriter → HandlerOutcome

abbrev pub Handler : Type 0
Handler = HttpRequest → ResponseWriter → HandlerOutcome

abbrev pub Middleware : Type 0
Middleware = Handler → Handler

unfoldable pub set_header : Text → Text → ResponseWriter → ResponseWriter
unfolding insert
set_header name value w = record w { header = insert name value w.header }

-- Only the first status is sent.
unfoldable pub write_header : ℕ → ResponseWriter → ResponseWriter
write_header status w = elim w.sent [
  | none ↦ record w { sent = some (status, w.header) }
  | some s ↦ w
]

-- The headers of `http.Error`.
unfoldable pub error_headers : ResponseWriter → ResponseWriter
unfolding set_header
error_headers w =
    set_header (text "X-Content-Type-Options") (text "nosniff")
      (set_header (text "Content-Type") (text "text/plain; charset=utf-8") w)

unfoldable pub http_error : ℕ → ResponseWriter → ResponseWriter
unfolding error_headers write_header
http_error code w = write_header code (error_headers w)

-- MiddlewareChain.Apply.
unfoldable pub apply_chain : List Middleware → Handler → Handler
apply_chain [] handler = handler
apply_chain (m ∷ mc) handler = m (apply_chain mc handler)

abbrev pub recover : HandlerOutcome → HandlerOutcome
unfolding http_error
recover (returned w) = returned w
recover (panicked w) = returned (http_error 500 w)

unfoldable pub recovery_middleware : Middleware
recovery_middleware handler r w = recover (handler r w)

pub record CorsConfig : Type 0 where
  pub allow_origins : Text
  pub allow_methods : Text
  pub allow_headers : Text
  pub expose_headers : Text
  pub allow_credentials : Bool
  pub max_age : ℤ

abbrev set_text : Text → Text → ResponseWriter → ResponseWriter
unfolding set_header
set_text name value w = if is_empty value then w else set_header name value w

abbrev set_max_age : ℤ → ResponseWriter → ResponseWriter
unfolding set_header show
set_max_age (pos n) w = if ltb 0 n then set_header (text "Access-Control-Max-Age") (show n) w else w
set_max_age (negsuc n) w = w

unfoldable pub cors_headers : CorsConfig → ResponseWriter → ResponseWriter
unfolding set_text set_header set_max_age
cors_headers config w0 =
    let w1 = set_text (text "Access-Control-Allow-Origin") config.allow_origins w0 in
    let w2 = set_text (text "Access-Control-Allow-Methods") config.allow_methods w1 in
    let w3 = set_text (text "Access-Control-Allow-Headers") config.allow_headers w2 in
    let w4 = set_text (text "Access-Control-Expose-Headers") config.expose_headers w3 in
    let w5 =
      (if config.allow_credentials
        then set_header (text "Access-Control-Allow-Credentials") (text "true") w4
        else w4) in
    set_max_age config.max_age w5

unfoldable pub cors_middleware : CorsConfig → Middleware
unfolding cors_headers write_header
cors_middleware config handler r w =
    if text_beq r.method (text "OPTIONS")
    then returned (write_header 204 (cors_headers config w))
    else handler r (cors_headers config w)

pub record SecurityHeadersConfig : Type 0 where
  pub content_security_policy : Text
  pub x_frame_options : Text
  pub x_content_type_options : Bool
  pub referrer_policy : Text
  pub strict_transport_security : Text
  pub xss_protection : Bool

unfoldable pub security_headers : SecurityHeadersConfig → ResponseWriter → ResponseWriter
unfolding set_text set_header
security_headers config w0 =
    let w1 = set_text (text "Content-Security-Policy") config.content_security_policy w0 in
    let w2 = set_text (text "X-Frame-Options") config.x_frame_options w1 in
    let w3 =
      (if config.x_content_type_options
        then set_header (text "X-Content-Type-Options") (text "nosniff") w2
        else w2) in
    let w4 = set_text (text "Referrer-Policy") config.referrer_policy w3 in
    let w5 = set_text (text "Strict-Transport-Security") config.strict_transport_security w4 in
    if config.xss_protection
    then set_header (text "X-Xss-Protection") (text "1; mode=block") w5
    else w5

unfoldable pub security_headers_middleware : SecurityHeadersConfig → Middleware
unfolding security_headers
security_headers_middleware config handler r w = handler r (security_headers config w)

unfoldable pub health_middleware : List Text → Middleware
unfolding has_prefix
health_middleware health_paths handler r w =
    if any (has_prefix r.path) health_paths then handler r w else handler r w
