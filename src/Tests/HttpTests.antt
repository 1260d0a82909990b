-- ===== src/Tests/HttpTests.antt =====
-- http/: a handler that panics before it has sent anything, behind the headers of security.
use microlib.Prelude.{◌≡◌, refl, true, none, some, [], lookup, insert, text_eq}
use microlib.Text.{text}
use microlib.Http.Middleware.{
  ResponseWriter, panicked, Handler, set_header, SecurityHeadersConfig, security_headers,
}

abbrev security : SecurityHeadersConfig
security = record {
  content_security_policy = [];
  x_frame_options = text "DENY";
  x_content_type_options = true;
  referrer_policy = [];
  strict_transport_security = [];
  xss_protection = true;
}

abbrev crashing : Handler
crashing r w = panicked w

abbrev unsent : ResponseWriter
unsent = record { header = []; sent = none }

frames_denied :
    lookup (text "X-Frame-Options") (security_headers security unsent).header ≡ some (text "DENY")
unfolding security_headers set_header insert lookup
frames_denied = refl
