-- ===== src/Http/Middleware/Stack.antt =====
-- http/middleware.go, http/server.go: the stack of recovery, headers of security and CORS.
use microlib.Prelude.{ℕ, Option, none, some, List, ◌∷◌, Dict, text_eq, ◌≡◌, refl}
use microlib.Text.{Text, text}
use microlib.Http.Middleware.{
  HttpRequest, ResponseWriter, HandlerOutcome, returned, panicked, Handler, Middleware,
  write_header, apply_chain, recover, recovery_middleware, CorsConfig, cors_headers,
  cors_middleware, SecurityHeadersConfig, security_headers, security_headers_middleware,
}

abbrev pub status_of : ResponseWriter → Option ℕ
status_of w = elim w.sent [ none ↦ none | some s ↦ some s.0 ]

-- What the middleware for panics makes of a handler's outcome: it returns, with what was sent or, if
-- that is nothing and the handler panicked, with 500.
pub data Recovered : HandlerOutcome → HandlerOutcome → Type 0 where
  finished : {w : ResponseWriter} → Recovered (returned w) (returned w)
  failed :
      {w w' : ResponseWriter}
      → w.sent ≡ none
      → status_of w' ≡ some 500
      → Recovered (panicked w) (returned w')
  already_sent :
      {w w' : ResponseWriter} (s : ℕ × Dict Text Text)
      → w.sent ≡ some s
      → w'.sent ≡ some s
      → Recovered (panicked w) (returned w')

-- The server's stack answers an OPTIONS request by 204, whatever comes after CORS, the authentication
-- too, and whatever the handler is.
pub preflight-apply_chain :
    (c : SecurityHeadersConfig) (d : CorsConfig) (rest : List Middleware) (handler : Handler)
    (r : HttpRequest) (w : ResponseWriter)
    → r.method ≡ text "OPTIONS"
    → apply_chain
        (recovery_middleware ∷ security_headers_middleware c ∷ cors_middleware d ∷ rest)
        handler
        r
        w
      ≡ returned (write_header 204 (cors_headers d (security_headers c w)))
unfolding apply_chain recovery_middleware security_headers_middleware cors_middleware recover
preflight-apply_chain c d rest handler r w options = rw (cors_middleware, options) refl
