-- ===== src/Security/Interceptors/Agreement.antt =====
-- security/authorization.go, security/grpc_authorization.go: the middleware and the interceptors for roles
-- and permissions decide alike.
use microlib.Prelude.{ℕ, true, false, ◌≡◌, refl, nat_beq, if◌then◌else◌}
use microlib.Text.{Text}
use microlib.Security.Rbac.{RoleMap, Check, answer, refused, has_role, has_permission}
use microlib.Security.Middleware.{
  Request, Served, next, http_error, panics, after_check, require_role_middleware,
  require_permission_middleware, roles_and_permissions_middleware,
}
use microlib.Security.Interceptors.{
  GrpcCall, Code, unauthenticated, permission_denied, internal, Handling, handled, status, crashed,
  handle_check, require_role_interceptor, require_permission_interceptor,
  roles_and_permissions_interceptor,
}

-- A request as a call of a method, with what the context holds.
abbrev pub to_call : Request → GrpcCall
to_call r = record { claims = r.claims; context = r.context; full_method = r.path }

abbrev to_code : ℕ → Code
to_code s =
    if nat_beq s 401 then unauthenticated else if nat_beq s 403 then permission_denied else internal

abbrev pub to_handling : Served → Handling
to_handling (next r) = handled (to_call r)
to_handling (http_error s) = status (to_code s)
to_handling panics = crashed

to_handling-after_check :
    (check : Check) (r : Request)
    → to_handling (after_check check r) ≡ handle_check check (to_call r)
to_handling-after_check (refused e) r = refl
to_handling-after_check (answer true) r = refl
to_handling-after_check (answer false) r = refl

-- A call is handled by the interceptors for roles and permissions as a request with the same context is
-- by the middleware, 401 and 403 being Unauthenticated and PermissionDenied; and the same roles and
-- permissions are put into its context.
pub interceptors_agree :
    (role_map : RoleMap) (role permission role_claim permission_claim : Text) (r : Request)
    → (to_handling (require_role_middleware role r) ≡ require_role_interceptor role (to_call r))
      × (to_handling (require_permission_middleware role_map permission r)
          ≡ require_permission_interceptor role_map permission (to_call r))
      × (to_handling (roles_and_permissions_middleware role_claim permission_claim r)
          ≡ roles_and_permissions_interceptor role_claim permission_claim (to_call r))
unfolding require_role_middleware require_permission_middleware roles_and_permissions_middleware
    require_role_interceptor require_permission_interceptor roles_and_permissions_interceptor
interceptors_agree role_map role permission role_claim permission_claim r = (
  to_handling-after_check (has_role r.context role) r,
  to_handling-after_check (has_permission role_map r.context permission) r,
  refl,
)
