-- ===== src/Security/Interceptors.antt =====
-- security/grpc_authorization.go: the interceptors for calls of gRPC. Those for streams do the same with
-- the context of the stream.
pub mod Agreement
pub mod Calls
use microlib.Prelude.{Bool, true, false, Option, none, some, List, if◌then◌else◌}
use microlib.Text.{Text, text}
use microlib.Security.Values.{str, Fields, field, end}
use microlib.Security.LocalPolicy.{AuthorizationRequest}
use microlib.Security.Rbac.{
  RoleMap, AuthContext, Check, answer, refused, permissions_of, has_role, has_permission,
}
use microlib.Security.Middleware.{
  Claims, extract_roles_and_permissions, or_kept, Evaluation, decided, evaluation_error,
  evaluation_panic,
}

-- What an interceptor reads of a call: its context and the method of `UnaryServerInfo`.
pub record GrpcCall : Type 0 where
  pub claims : Option Claims
  pub context : AuthContext
  pub full_method : Text

pub data Code : Type 0 where
  unauthenticated permission_denied internal : Code

-- The handler is called, with the call as it goes on; or a status is returned; or a panic.
pub data Handling : Type 0 where
  handled : GrpcCall → Handling
  status : Code → Handling
  crashed : Handling

abbrev call_attributes : GrpcCall → Fields
call_attributes c = field (text "method") (str c.full_method) end

unfoldable pub call_request : Claims → Text → Text → GrpcCall → AuthorizationRequest
call_request claims resource_type action c = record {
  subject = record {
    id = claims.subject;
    roles = permissions_of c.context.roles;
    permissions = permissions_of c.context.permissions;
    attributes = claims.custom;
  };
  resource = record { type = resource_type; id = c.full_method; attributes = call_attributes c };
  action = action;
  context = call_attributes c;
}

abbrev pub handle_evaluation : Evaluation → GrpcCall → Handling
handle_evaluation (decided resp) c = if resp.allowed then handled c else status permission_denied
handle_evaluation evaluation_error c = status internal
handle_evaluation evaluation_panic c = crashed

unfoldable pub authorization_interceptor :
    (AuthorizationRequest → Evaluation) → Text → Text → GrpcCall → Handling
unfolding call_request
authorization_interceptor evaluator resource_type action c = elim c.claims [
  | none ↦ status unauthenticated
  | some claims ↦ handle_evaluation (evaluator (call_request claims resource_type action c)) c
]

abbrev pub handle_check : Check → GrpcCall → Handling
handle_check (refused e) c = status unauthenticated
handle_check (answer true) c = handled c
handle_check (answer false) c = status permission_denied

unfoldable pub require_role_interceptor : Text → GrpcCall → Handling
unfolding has_role
require_role_interceptor role c = handle_check (has_role c.context role) c

unfoldable pub require_permission_interceptor : RoleMap → Text → GrpcCall → Handling
unfolding has_permission
require_permission_interceptor role_map permission c =
    handle_check (has_permission role_map c.context permission) c

unfoldable pub roles_and_permissions_interceptor : Text → Text → GrpcCall → Handling
unfolding extract_roles_and_permissions
roles_and_permissions_interceptor role_claim permission_claim c =
    let (roles, permissions) = extract_roles_and_permissions c.claims role_claim permission_claim in
    handled (record c {
      context = record {
        roles = or_kept roles c.context.roles;
        permissions = or_kept permissions c.context.permissions;
      };
    })
