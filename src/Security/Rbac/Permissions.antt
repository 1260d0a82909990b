-- ===== src/Security/Rbac/Permissions.antt =====
-- security/authorization.go: what adding and removing permissions does, and who has one.
use microlib.Prelude.{
  ◌≡◌, ◌↔◌, refl, true, not, List, [], ◌∷◌, ◌++◌, lookup, lookup-insert, any, any-append, text_beq,
  text_beq_iff, text_eq, ◌==◌, ◌&&◌, ◌||◌, arith, inl, inr, Bool-cases, Option-cases,
}
use microlib.Text.{Text}
use microlib.Security.Rbac.{
  RoleMap, AuthContext, answer, contains, permissions_of, grants, has_permission, add_missing,
  add_role_permissions, remove_listed, remove_role_permissions, get_role_permissions,
}

contains-append :
    (p : Text) (xs ys : List Text) → contains p (xs ++ ys) ≡ (contains p xs || contains p ys)
contains-append p xs ys = any-append (λ x. text_beq x p) xs ys

contains-add_missing :
    (p : Text) (existing ps : List Text)
    → contains p (add_missing existing ps) ≡ (contains p existing || contains p ps)
unfolding add_missing
contains-add_missing p existing [] = ground arith
contains-add_missing p existing (x ∷ ps) = elim (Bool-cases (contains x existing)) [
  | inl old ↦ rw old (ground (arith, contains-add_missing p existing ps, text_beq_iff x p))
  | inr new ↦ rw new (
      ground (
        arith,
        contains-add_missing p (existing ++ x ∷ []) ps,
        contains-append p existing (x ∷ []),
      ))
]

contains-remove_listed :
    (p : Text) (removed ps : List Text)
    → contains p (remove_listed removed ps) ≡ (contains p ps && not (contains p removed))
unfolding remove_listed
contains-remove_listed p removed [] = refl
contains-remove_listed p removed (x ∷ ps) =
    ground (arith, contains-remove_listed p removed ps, text_beq_iff x p)

-- After AddRolePermissions the role has the permissions that it had and those that were given, and
-- every other role has those that it had.
pub get-add_role_permissions :
    (m : RoleMap) (role other p : Text) (permissions : List Text)
    → contains p (get_role_permissions (add_role_permissions m role permissions) other)
      ≡ (contains p (get_role_permissions m other) || ((role == other) && contains p permissions))
unfolding add_role_permissions get_role_permissions
get-add_role_permissions m role other p permissions = ground (
  arith,
  lookup-insert role other (add_missing (permissions_of (lookup role m)) permissions) m,
  text_beq_iff role other,
  contains-add_missing p (permissions_of (lookup role m)) permissions,
)

-- After RemoveRolePermissions the role has the permissions that it had less those that were given,
-- and every other role has those that it had.
pub get-remove_role_permissions :
    (m : RoleMap) (role other p : Text) (permissions : List Text)
    → contains p (get_role_permissions (remove_role_permissions m role permissions) other) ≡ (
        contains p (get_role_permissions m other)
        && not ((role == other) && contains p permissions))
unfolding remove_role_permissions get_role_permissions
get-remove_role_permissions m role other p permissions = elim (Option-cases (lookup role m)) [
  | inl e ↦ ground (arith, text_beq_iff role other)
  | inr (perms, e) ↦ ground (
    arith,
    lookup-insert role other (remove_listed permissions perms) m,
    text_beq_iff role other,
    contains-remove_listed p permissions perms,
  )
]

grants-eq :
    (m : RoleMap) (p : Text) (roles : List Text)
    → grants m p roles ≡ any (λ role. contains p (get_role_permissions m role)) roles
unfolding grants get_role_permissions
grants-eq m p [] = refl
grants-eq m p (role ∷ roles) = ground (arith, grants-eq m p roles)

-- HasPermission answers true exactly when the permission is among the direct ones of the context or
-- among those of one of the context's roles.
pub has_permission_iff :
    (m : RoleMap) (ctx : AuthContext) (p : Text)
    → (has_permission m ctx p ≡ answer true) ↔ (
        (contains p (permissions_of ctx.permissions)
          || any (λ role. contains p (get_role_permissions m role)) (permissions_of ctx.roles))
        ≡ true)
unfolding has_permission
has_permission_iff m ctx p = ground (arith, grants-eq m p (permissions_of ctx.roles))
