-- ===== src/Security/Rbac/Refinement.antt =====
-- security/authorization.go: the role map as a table of which role has which permission.
use mathlib.Core.Path.{fun_ext}
use microlib.Prelude.{Bool, not, List, [], ◌∷◌, ◌≡◌, refl, ap, ◌∙◌, text_eq, ◌==◌, ◌&&◌, ◌||◌}
use microlib.Text.{Text}
use microlib.Security.Rbac.{
  RoleMap, contains, add_role_permissions, remove_role_permissions, get_role_permissions,
}
use microlib.Security.Rbac.Permissions.{get-add_role_permissions, get-remove_role_permissions}

pub data RoleChange : Type 0 where
  adds removes : Text → List Text → RoleChange

unfoldable change_roles : RoleChange → RoleMap → RoleMap
unfolding add_role_permissions remove_role_permissions
change_roles (adds role permissions) m = add_role_permissions m role permissions
change_roles (removes role permissions) m = remove_role_permissions m role permissions

unfoldable pub change_all : List RoleChange → RoleMap → RoleMap
unfolding change_roles
change_all [] m = m
change_all (c ∷ cs) m = change_all cs (change_roles c m)

-- The abstract view: which role has which permission. Order and repetition are forgotten.
abbrev Table : Type 0
Table = Text → Text → Bool

abbrev pub table_of : RoleMap → Table
table_of m role p = contains p (get_role_permissions m role)

-- What a change means.
abbrev change_table : RoleChange → Table → Table
change_table (adds role permissions) t other p =
    t other p || ((role == other) && contains p permissions)
change_table (removes role permissions) t other p =
    t other p && not ((role == other) && contains p permissions)

abbrev pub change_table_all : List RoleChange → Table → Table
change_table_all [] t = t
change_table_all (c ∷ cs) t = change_table_all cs (change_table c t)

change_roles-table :
    (c : RoleChange) (m : RoleMap) → table_of (change_roles c m) ≡ change_table c (table_of m)
unfolding change_roles
change_roles-table (adds role permissions) m =
    fun_ext (λ other. fun_ext (λ p. get-add_role_permissions m role other p permissions))
change_roles-table (removes role permissions) m =
    fun_ext (λ other. fun_ext (λ p. get-remove_role_permissions m role other p permissions))

-- The role map implements the table: after any sequence of AddRolePermissions and
-- RemoveRolePermissions it holds for each role the permissions that the sequence makes of the table,
-- whatever their order in the lists.
pub change_all-table :
    (cs : List RoleChange) (m : RoleMap)
    → table_of (change_all cs m) ≡ change_table_all cs (table_of m)
unfolding change_all
change_all-table [] m = refl
change_all-table (c ∷ cs) m =
    change_all-table cs (change_roles c m) ∙ ap (change_table_all cs) (change_roles-table c m)
