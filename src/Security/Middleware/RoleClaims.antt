-- ===== src/Security/Middleware/RoleClaims.antt =====
-- security/authorization.go: from a token's claims to the check of a role.
use mathlib.Core.List.{append-nil}
use microlib.Prelude.{◌≡◌, refl, false, none, some, List, [], ◌∷◌, ◌++◌, All, is_empty, arith}
use microlib.Text.{Text, split}
use microlib.Security.Values.{str, Fields, lookup_field}
use microlib.Security.LocalPolicy.{join_more, join_roles}
use microlib.Security.LocalPolicy.Roles.{occurs}
use microlib.Security.Rbac.{contains}
use microlib.Security.Middleware.{
  Claims, Request, non_empty, extract_names, roles_and_permissions_middleware,
  require_role_middleware, passed_on, is_next,
}

-- A name that survives a space-separated claim: not empty, and with no space.
pub record IsWord (w : Text) : Type 0 where
  pub filled : is_empty w ≡ false
  pub no_space : occurs b' ' w ≡ false

split-word :
    (w rest : Text) → occurs b' ' w ≡ false → split b' ' (w ++ b' ' ∷ rest) ≡ w ∷ split b' ' rest
unfolding split
split-word [] rest h = refl
split-word (c ∷ w) rest h = ground (arith, split-word w rest)

split-last : (w : Text) → occurs b' ' w ≡ false → split b' ' w ≡ w ∷ []
unfolding split
split-last [] h = refl
split-last (c ∷ w) h = ground (arith, split-last w)

words-of-join :
    (w : Text) (ws : List Text)
    → IsWord w
    → All IsWord ws
    → non_empty (split b' ' (w ++ join_more ws)) ≡ w ∷ ws
unfolding join_more non_empty
words-of-join w [] h all = rw (append-nil, split-last w h.no_space) (ground (arith, h.filled))
words-of-join w (v ∷ ws) h all =
    rw (split-word w (v ++ join_more ws) h.no_space)
      (ground (arith, h.filled, words-of-join v ws all.0 all.1))

-- Roles that are joined by spaces, as `joinRoles` does, are the roles that are read back from a claim
-- that holds the text, if each is a word.
pub extract-join_roles :
    (claim : Text) (custom : Fields) (roles : List Text)
    → is_empty claim ≡ false
    → lookup_field claim custom ≡ some (str (join_roles roles))
    → All IsWord roles
    → extract_names claim custom ≡ roles
unfolding extract_names join_roles non_empty split
extract-join_roles claim custom [] given at_claim all = ground arith
extract-join_roles claim custom (role ∷ roles) given at_claim all =
    ground (arith, words-of-join role roles all.0 all.1)

-- Behind RolesAndPermissionsMiddleware, for a request with claims and with no roles in its context
-- yet, RequireRoleMiddleware lets the request through exactly when the role is among those that the
-- claims name.
pub require_role_of_claims :
    (claims : Claims) (r : Request) (role role_claim permission_claim : Text)
    → r.claims ≡ some claims
    → r.context.roles ≡ none
    → is_next (
        passed_on
          (roles_and_permissions_middleware role_claim permission_claim r)
          (require_role_middleware role))
      ≡ contains role (extract_names role_claim claims.custom)
unfolding roles_and_permissions_middleware require_role_middleware
require_role_of_claims claims r role role_claim permission_claim given fresh = ground arith
