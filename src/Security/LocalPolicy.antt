-- ===== src/Security/LocalPolicy.antt =====
-- security/local_policy_evaluator.go: policies and their evaluation. `none` for a result is a panic.
pub mod FirstMatch
pub mod Roles
use microlib.Prelude.{
  ℕ, Bool, true, false, not, Option, none, some, List, [], ◌∷◌, ◌++◌, Dict, lookup, insert, any,
  is_empty, text_beq, text_eq, ◌&&◌, ◌||◌, if◌then◌else◌,
}
use microlib.Text.{Text, text, split, has_suffix}
use microlib.Security.Values.{Value, Fields, object, lookup_field, same, is_text}
use microlib.Security.Pattern.{matches_pattern}

-- security/authorization.go
pub record Subject : Type 0 where
  pub id : Text
  pub roles : List Text
  pub permissions : List Text
  pub attributes : Fields

pub record Resource : Type 0 where
  pub type : Text
  pub id : Text
  pub attributes : Fields

pub record AuthorizationRequest : Type 0 where
  pub subject : Subject
  pub resource : Resource
  pub action : Text
  pub context : Fields

pub record AuthorizationResponse : Type 0 where
  pub allowed : Bool
  pub reason : Text

pub record PolicyRule : Type 0 where
  pub name : Text
  pub description : Text
  pub effect : Text
  pub subjects : List Text
  pub resources : List Text
  pub actions : List Text
  pub conditions : Dict Text Value

pub record Policy : Type 0 where
  pub name : Text
  pub description : Text
  pub rules : List PolicyRule
  pub default_action : Text

-- The loop of `joinRoles` from an index above 0.
unfoldable pub join_more : List Text → Text
join_more [] = []
join_more (role ∷ roles) = b' ' ∷ (role ++ join_more roles)

unfoldable pub join_roles : List Text → Text
unfolding join_more
join_roles [] = []
join_roles (role ∷ roles) = role ++ join_more roles

-- The text that a subject's roles are matched by.
abbrev pub role_text : List Text → Text
role_text roles = text "role:" ++ join_roles roles

-- A condition on an attribute, with what is left of the path.
unfoldable attribute_condition : List Text → Value → Fields → Option Bool
unfolding lookup_field
attribute_condition [] value attributes = some false
attribute_condition (name ∷ path) value attributes = elim (lookup_field name attributes) [
  | none ↦ some false
  | some v ↦ same v value
]

unfoldable subject_condition : List Text → Value → Subject → Option Bool
unfolding attribute_condition
subject_condition [] value subject = some false
subject_condition (head ∷ path) value subject =
    if text_beq head (text "id")
    then some (is_text subject.id value)
    else if text_beq head (text "roles")
    then some (any (λ role. is_text role value) subject.roles)
    else if text_beq head (text "permissions")
    then some (any (λ permission. is_text permission value) subject.permissions)
    else if text_beq head (text "attributes")
    then attribute_condition path value subject.attributes
    else some false

unfoldable resource_condition : List Text → Value → Resource → Option Bool
unfolding attribute_condition
resource_condition [] value resource = some false
resource_condition (head ∷ path) value resource =
    if text_beq head (text "type")
    then some (is_text resource.type value)
    else if text_beq head (text "id")
    then some (is_text resource.id value)
    else if text_beq head (text "attributes")
    then attribute_condition path value resource.attributes
    else some false

-- The nested map of a context, if the value is one.
abbrev in_nested : Option Value → (Fields → Option Bool) → Option Bool
in_nested (some (object fields)) rest = rest fields
in_nested _ rest = some false

unfoldable context_condition : List Text → Value → Fields → Option Bool
unfolding lookup_field
context_condition [] value context = some false
context_condition (head ∷ []) value context = elim (lookup_field head context) [
  | none ↦ some false
  | some v ↦ same v value
]
context_condition (head ∷ next ∷ path) value context =
    in_nested (lookup_field head context) (λ fields. context_condition (next ∷ path) value fields)

-- One round of the loop of `evaluateConditions`; a key with one part, or of another kind, is passed
-- over.
unfoldable condition_holds : List Text → Value → AuthorizationRequest → Option Bool
unfolding subject_condition resource_condition context_condition
condition_holds (kind ∷ part ∷ parts) value req =
    if text_beq kind (text "subject")
    then subject_condition (part ∷ parts) value req.subject
    else if text_beq kind (text "resource")
    then resource_condition (part ∷ parts) value req.resource
    else if text_beq kind (text "context")
    then context_condition (part ∷ parts) value req.context
    else some true
condition_holds _ value req = some true

-- `if !f(…) { return false }` in a loop, where `f` may panic.
abbrev and_then : Option Bool → Option Bool → Option Bool
and_then none rest = none
and_then (some false) rest = some false
and_then (some true) rest = rest

unfoldable pub evaluate_conditions : Dict Text Value → AuthorizationRequest → Option Bool
unfolding condition_holds split
evaluate_conditions [] req = some true
evaluate_conditions ((key, value) ∷ conditions) req =
    let rest = evaluate_conditions conditions req in
    and_then (condition_holds (split b'.' key) value req) rest

-- A list of patterns admits what one of them admits, or anything if it is empty.
abbrev admits : (Text → Bool) → List Text → Bool
admits test patterns = any test patterns || is_empty patterns

unfoldable pub rule_applies : PolicyRule → AuthorizationRequest → Option Bool
rule_applies rule req =
    let subject_test = λ (p : Text).
      matches_pattern req.subject.id p || matches_pattern (role_text req.subject.roles) p in
    let resource_text = req.resource.type ++ b':' ∷ req.resource.id in
    if not (admits subject_test rule.subjects)
    then some false
    else if not (admits (matches_pattern resource_text) rule.resources)
    then some false
    else if not (admits (matches_pattern req.action) rule.actions)
    then some false
    else evaluate_conditions rule.conditions req

-- The loop over the rules, and the default action.
unfoldable pub decide : List PolicyRule → Text → AuthorizationRequest → Option AuthorizationResponse
decide [] default_action req =
    some
      (record { allowed = text_beq default_action (text "allow"); reason = text "Default action" })
decide (rule ∷ rules) default_action req = elim (rule_applies rule req) [
  | none ↦ none
  | some true ↦ some (record { allowed = text_beq rule.effect (text "allow"); reason = rule.name })
  | some false ↦ decide rules default_action req
]

-- The policy for a resource type: its own, or the one named "default".
unfoldable pub find_policy : Dict Text Policy → Text → Option Policy
unfolding lookup
find_policy policies type = elim (lookup type policies) [
  | some policy ↦ some policy
  | none ↦ lookup (text "default") policies
]

unfoldable pub evaluate : Dict Text Policy → AuthorizationRequest → Option AuthorizationResponse
unfolding find_policy
evaluate policies req = elim (find_policy policies req.resource.type) [
  | none ↦ some (record { allowed = false; reason = text "No applicable policy found" })
  | some policy ↦ decide policy.rules policy.default_action req
]

-- What the walk over the policy directory meets: an error, a directory, or a file with its parsed
-- contents, if it could be read and parsed.
pub data Entry : Type 0 where
  walk_error : Entry
  directory : Entry
  file : Text → Option Policy → Entry

-- The walk's result: whether it ended without an error, and the policies loaded by then.
unfoldable walk : List Entry → Dict Text Policy → Bool × Dict Text Policy
unfolding insert has_suffix
walk [] policies = (true, policies)
walk (walk_error ∷ entries) policies = (false, policies)
walk (directory ∷ entries) policies = walk entries policies
walk (file name none ∷ entries) policies = walk entries policies
walk (file name (some policy) ∷ entries) policies =
    walk entries
      (if has_suffix name (text ".json") then insert policy.name policy policies else policies)

-- `none` for the entries is a path that does not exist.
unfoldable load_policies : Option (List Entry) → Bool × Dict Text Policy
unfolding walk
load_policies none = (false, [])
load_policies (some entries) = walk entries []
