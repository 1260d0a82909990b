-- ===== src/Security/Rbac.antt =====
-- security/authorization.go: RBACAuthorizer, its role map, and what it reads from a context.
pub mod Permissions
pub mod Refinement
use microlib.Prelude.{
  Bool, true, false, not, Option, none, some, List, [], ◌∷◌, ◌++◌, Dict, lookup, insert, any,
  text_beq, text_eq, ◌&&◌, ◌||◌, if◌then◌else◌,
}
use microlib.Text.{Text, text}
use microlib.Security.LocalPolicy.{AuthorizationRequest, AuthorizationResponse}

abbrev pub RoleMap : Type 0
RoleMap = Dict Text (List Text)

-- The values that a context holds under the keys for roles and permissions, if they have the
-- right type.
pub record AuthContext : Type 0 where
  pub roles : Option (List Text)
  pub permissions : Option (List Text)

pub data AuthError : Type 0 where
  unauthorized : AuthError

pub data Check : Type 0 where
  answer : Bool → Check
  refused : AuthError → Check

-- A loop that looks for a text.
abbrev pub contains : Text → List Text → Bool
contains p = any (λ x. text_beq x p)

unfoldable pub has_role : AuthContext → Text → Check
has_role ctx role = elim ctx.roles [
  | none ↦ refused unauthorized
  | some roles ↦ answer (contains role roles)
]

abbrev pub permissions_of : Option (List Text) → List Text
permissions_of none = []
permissions_of (some perms) = perms

-- The loop over the roles of `HasPermission`.
unfoldable pub grants : RoleMap → Text → List Text → Bool
grants role_map permission [] = false
grants role_map permission (role ∷ roles) =
    let rest = grants role_map permission roles in
    elim (lookup role role_map) [
      | none ↦ rest
      | some perms ↦ if contains permission perms then true else rest
    ]

unfoldable pub has_permission : RoleMap → AuthContext → Text → Check
unfolding grants
has_permission role_map ctx permission =
    if contains permission (permissions_of ctx.permissions) then answer true else elim ctx.roles [
      | none ↦ refused unauthorized
      | some roles ↦ answer (grants role_map permission roles)
    ]

-- The loop of `AddRolePermissions`.
unfoldable pub add_missing : List Text → List Text → List Text
add_missing existing [] = existing
add_missing existing (p ∷ ps) =
    add_missing (if contains p existing then existing else existing ++ p ∷ []) ps

unfoldable pub add_role_permissions : RoleMap → Text → List Text → RoleMap
unfolding add_missing
add_role_permissions role_map role permissions =
    insert role (add_missing (permissions_of (lookup role role_map)) permissions) role_map

-- The loop that keeps what is not to be removed.
unfoldable pub remove_listed : List Text → List Text → List Text
remove_listed removed [] = []
remove_listed removed (p ∷ ps) =
    let rest = remove_listed removed ps in if not (contains p removed) then p ∷ rest else rest

unfoldable pub remove_role_permissions : RoleMap → Text → List Text → RoleMap
unfolding remove_listed
remove_role_permissions role_map role permissions = elim (lookup role role_map) [
  | none ↦ role_map
  | some perms ↦ insert role (remove_listed permissions perms) role_map
]

unfoldable pub get_role_permissions : RoleMap → Text → List Text
get_role_permissions role_map role = permissions_of (lookup role role_map)
