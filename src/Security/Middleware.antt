-- ===== src/Security/Middleware.antt =====
-- security/authorization.go: the HTTP middleware, as a function of what a request's context holds.
pub mod RoleClaims
pub mod Policies
use microlib.Prelude.{
  ℕ, Bool, true, false, Option, none, some, List, [], ◌∷◌, ◌++◌, is_empty, text_beq, if◌then◌else◌,
}
use microlib.Text.{Text, text, split}
use microlib.Security.Values.{
  Value, str, texts, array, Items, nil, cons, Fields, field, end, lookup_field,
}
use microlib.Security.LocalPolicy.{Subject, Resource, AuthorizationRequest, AuthorizationResponse}
use microlib.Security.Rbac.{
  RoleMap, AuthContext, Check, answer, refused, permissions_of, has_role, has_permission,
}

-- security/auth.go: the part of `Claims` that authorization reads.
pub record Claims : Type 0 where
  pub subject : Text
  pub custom : Fields

pub record Request : Type 0 where
  pub claims : Option Claims
  pub context : AuthContext
  pub method : Text
  pub path : Text

-- The next handler is called, with the request as it goes on; or an error is written; or a panic.
pub data Served : Type 0 where
  next : Request → Served
  http_error : ℕ → Served
  panics : Served

-- The strings of an array, in order.
unfoldable strings : Items → List Text
strings nil = []
strings (cons (str s) items) = s ∷ strings items
strings (cons _ items) = strings items

-- The parts that are not empty.
unfoldable pub non_empty : List Text → List Text
non_empty [] = []
non_empty (part ∷ parts) = let rest = non_empty parts in if is_empty part then rest else part ∷ rest

-- The type switch of `ExtractRolesAndPermissions`.
unfoldable names_of : Option Value → List Text
unfolding strings non_empty split
names_of (some (array items)) = strings items
names_of (some (texts names)) = names
names_of (some (str s)) = non_empty (split b' ' s)
names_of _ = []

unfoldable pub extract_names : Text → Fields → List Text
unfolding names_of lookup_field
extract_names claim custom = if is_empty claim then [] else names_of (lookup_field claim custom)

unfoldable pub extract_roles_and_permissions : Option Claims → Text → Text → List Text × List Text
unfolding extract_names
extract_roles_and_permissions none role_claim permission_claim = ([], [])
extract_roles_and_permissions (some claims) role_claim permission_claim =
    (extract_names role_claim claims.custom, extract_names permission_claim claims.custom)

-- `context.WithValue`, if there is something to store.
abbrev pub or_kept : List Text → Option (List Text) → Option (List Text)
or_kept [] old = old
or_kept (x ∷ xs) old = some (x ∷ xs)

unfoldable pub roles_and_permissions_middleware : Text → Text → Request → Served
unfolding extract_roles_and_permissions
roles_and_permissions_middleware role_claim permission_claim r =
    let (roles, permissions) = extract_roles_and_permissions r.claims role_claim permission_claim in
    next (record r {
      context = record {
        roles = or_kept roles r.context.roles;
        permissions = or_kept permissions r.context.permissions;
      };
    })

abbrev pub after_check : Check → Request → Served
after_check (refused e) r = http_error 401
after_check (answer true) r = next r
after_check (answer false) r = http_error 403

unfoldable pub require_role_middleware : Text → Request → Served
unfolding has_role
require_role_middleware role r = after_check (has_role r.context role) r

unfoldable pub require_permission_middleware : RoleMap → Text → Request → Served
unfolding has_permission
require_permission_middleware role_map permission r =
    after_check (has_permission role_map r.context permission) r

-- What a policy evaluator returns.
pub data Evaluation : Type 0 where
  decided : AuthorizationResponse → Evaluation
  evaluation_error : Evaluation
  evaluation_panic : Evaluation

abbrev request_attributes : Request → Fields
request_attributes r = field (text "method") (str r.method) (field (text "path") (str r.path) end)

unfoldable pub authorization_request : Claims → Text → Text → Request → AuthorizationRequest
authorization_request claims resource_type action r = record {
  subject = record {
    id = claims.subject;
    roles = permissions_of r.context.roles;
    permissions = permissions_of r.context.permissions;
    attributes = claims.custom;
  };
  resource = record { type = resource_type; id = r.path; attributes = request_attributes r };
  action = action;
  context = request_attributes r;
}

abbrev pub after_evaluation : Evaluation → Request → Served
after_evaluation (decided resp) r = if resp.allowed then next r else http_error 403
after_evaluation evaluation_error r = http_error 500
after_evaluation evaluation_panic r = panics

-- `Authorize` returns what its evaluator does.
unfoldable pub authorization_middleware :
    (AuthorizationRequest → Evaluation) → Text → Text → Request → Served
unfolding authorization_request
authorization_middleware evaluator resource_type action r = elim r.claims [
  | none ↦ http_error 401
  | some claims ↦
      after_evaluation (evaluator (authorization_request claims resource_type action r)) r
]

-- The evaluator that has local policies.
abbrev pub evaluation_of : Option AuthorizationResponse → Evaluation
evaluation_of none = evaluation_panic
evaluation_of (some resp) = decided resp

abbrev pub passed_on : Served → (Request → Served) → Served
passed_on (next r) handler = handler r
passed_on (http_error status) handler = http_error status
passed_on panics handler = panics

-- The next handler is reached.
abbrev pub is_next : Served → Bool
is_next (next r) = true
is_next _ = false
