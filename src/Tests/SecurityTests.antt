-- ===== src/Tests/SecurityTests.antt =====
-- security/: two policies, a role map, and requests to the middleware.
use microlib.Prelude.{◌≡◌, ◌↔◌, refl, true, false, none, some, List, [], ◌∷◌, Dict, text_eq}
use microlib.Text.{Text, text, has_suffix, has_prefix, trim_suffix, trim_prefix}
use microlib.Security.Values.{end, field, str}
use microlib.Security.Pattern.{matches_pattern}
use microlib.Security.Pattern.Meaning.{Matches, matches_pattern_iff}
use microlib.Security.LocalPolicy.{
  AuthorizationRequest, AuthorizationResponse, PolicyRule, Policy, join_roles, find_policy,
  evaluate, decide, rule_applies, evaluate_conditions,
}
use microlib.Security.LocalPolicy.FirstMatch.{Decides, evaluate_iff}
use microlib.Security.Rbac.{RoleMap, AuthContext}
use microlib.Security.Rbac.Refinement.{
  adds, removes, table_of, change_all, change_table_all, change_all-table,
}
use microlib.Security.Interceptors.{
  GrpcCall, call_request, authorization_interceptor, require_role_interceptor,
  require_permission_interceptor, roles_and_permissions_interceptor,
}
use microlib.Security.Interceptors.Calls.{is_handled, handled_by_policy}
use microlib.Security.Interceptors.Agreement.{to_call, to_handling, interceptors_agree}
use microlib.Security.Middleware.{
  require_role_middleware, require_permission_middleware, roles_and_permissions_middleware, Claims,
  Request, authorization_request, authorization_middleware, evaluation_of, is_next,
}
use microlib.Security.Middleware.Policies.{IsAllowed, authorized_by_policy}

matches_pattern_iff_example :
    (matches_pattern (text "role:admin") (text "role:*") ≡ true)
    ↔ Matches (text "role:admin") (text "role:*")
matches_pattern_iff_example = matches_pattern_iff (text "role:admin") (text "role:*")

wildcards :
    (matches_pattern (text "role:admin") (text "role:*") ≡ true)
    × (matches_pattern (text "role:admin") (text "*admin") ≡ true)
    × (matches_pattern (text "role:admin") (text "role:a") ≡ false)
unfolding matches_pattern has_suffix has_prefix trim_suffix trim_prefix
wildcards = (refl, refl, refl)

abbrev rule_for : Text → Text → Text → PolicyRule
rule_for name effect subject = record {
  name = name;
  description = [];
  effect = effect;
  subjects = subject ∷ [];
  resources = [];
  actions = text "read" ∷ [];
  conditions = [];
}

abbrev documents : Policy
documents = record {
  name = text "document";
  description = [];
  rules =
      rule_for (text "blocked") (text "deny") (text "mallory")
      ∷ rule_for (text "editors") (text "allow") (text "role:editor")
      ∷ [];
  default_action = text "deny";
}

abbrev policies : Dict Text Policy
policies = (text "document", documents) ∷ []

abbrev reads : Text → List Text → AuthorizationRequest
reads type roles = record {
  subject = record { id = text "alice"; roles = roles; permissions = []; attributes = end };
  resource = record { type = type; id = text "7"; attributes = end };
  action = text "read";
  context = end;
}

abbrev allowed_by_editors : AuthorizationResponse
allowed_by_editors = record { allowed = true; reason = text "editors" }

evaluate_iff_example :
    (evaluate policies (reads (text "document") (text "editor" ∷ [])) ≡ some allowed_by_editors)
    ↔ Decides documents.rules
        (text "deny")
        (reads (text "document") (text "editor" ∷ []))
        allowed_by_editors
unfolding find_policy
evaluate_iff_example =
    evaluate_iff policies documents (reads (text "document") (text "editor" ∷ []))
      allowed_by_editors refl

-- One role is enough, two are not.
one_role :
    (evaluate policies (reads (text "document") (text "editor" ∷ [])) ≡ some allowed_by_editors)
    × (evaluate policies (reads (text "document") (text "editor" ∷ text "admin" ∷ []))
        ≡ some (record { allowed = false; reason = text "Default action" }))
unfolding evaluate decide rule_applies matches_pattern has_suffix has_prefix join_roles
    evaluate_conditions
one_role = (refl, refl)

abbrev role_map : RoleMap
role_map = (text "editor", text "write" ∷ text "read" ∷ []) ∷ []

change_all-table_example :
    table_of (
      change_all
        (adds (text "editor") (text "audit" ∷ []) ∷ removes (text "editor") (text "read" ∷ []) ∷ [])
        role_map)
    ≡ change_table_all
        (adds (text "editor") (text "audit" ∷ []) ∷ removes (text "editor") (text "read" ∷ []) ∷ [])
        (table_of role_map)
change_all-table_example =
    change_all-table
      (adds (text "editor") (text "audit" ∷ []) ∷ removes (text "editor") (text "read" ∷ []) ∷ [])
      role_map

abbrev editor_context : AuthContext
editor_context = record { roles = some (text "editor" ∷ []); permissions = none }

abbrev claims : Claims
claims = record {
  subject = text "alice";
  custom = field (text "roles") (str (text "editor admin")) end;
}

abbrev request : Request
request = record {
  claims = some claims;
  context = record { roles = none; permissions = none };
  method = text "GET";
  path = text "/documents/7";
}

-- The same policies as of `documents`, with reading allowed to everyone named alice.
abbrev open_policies : Dict Text Policy
open_policies =
    (
      text "document",
      record documents { rules = rule_for (text "alice") (text "allow") (text "alice") ∷ [] },
    )
    ∷ []

alice_passes :
    is_next (
      authorization_middleware
        (λ req. evaluation_of (evaluate open_policies req))
        (text "document")
        (text "read")
        request)
    ≡ true
unfolding authorization_middleware evaluate decide rule_applies matches_pattern evaluate_conditions
alice_passes = refl

authorized_by_policy_example :
    (c : Claims) × (request.claims ≡ some c)
    × IsAllowed open_policies (authorization_request c (text "document") (text "read") request)
authorized_by_policy_example =
    authorized_by_policy open_policies request (text "document") (text "read") alice_passes

abbrev call : GrpcCall
call = record {
  claims = some claims;
  context = record { roles = none; permissions = none };
  full_method = text "/documents.Reader/Get";
}

alice_is_handled :
    is_handled (
      authorization_interceptor
        (λ req. evaluation_of (evaluate open_policies req))
        (text "document")
        (text "read")
        call)
    ≡ true
unfolding authorization_interceptor evaluate decide rule_applies matches_pattern evaluate_conditions
alice_is_handled = refl

handled_by_policy_example :
    (c : Claims) × (call.claims ≡ some c)
    × IsAllowed open_policies (call_request c (text "document") (text "read") call)
handled_by_policy_example =
    handled_by_policy open_policies (text "document") (text "read") call alice_is_handled

interceptors_agree_example :
    (to_handling (require_role_middleware (text "editor") request)
      ≡ require_role_interceptor (text "editor") (to_call request))
    × (to_handling (require_permission_middleware role_map (text "read") request)
        ≡ require_permission_interceptor role_map (text "read") (to_call request))
    × (to_handling (roles_and_permissions_middleware (text "roles") [] request)
        ≡ roles_and_permissions_interceptor (text "roles") [] (to_call request))
interceptors_agree_example =
    interceptors_agree role_map (text "editor") (text "read") (text "roles") [] request
