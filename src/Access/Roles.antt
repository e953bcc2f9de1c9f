-- ===== src/Access/Roles.antt =====
-- backend/src/auth/roles.ts and the guard of backend/src/auth/guards/roles.guard.ts.
use digital_thread.Shared.{Bool, true, false, Option, none, some, List, [], ◌∷◌, any}

pub data Role : Type 0 where
  superadmin owner operator : Role

abbrev pub same_role : Role → Role → Bool
same_role superadmin superadmin = true
same_role owner owner = true
same_role operator operator = true
same_role _ _ = false

abbrev pub all_roles : List Role
all_roles = superadmin ∷ owner ∷ operator ∷ []

abbrev pub staff_roles : List Role
staff_roles = superadmin ∷ owner ∷ []

abbrev pub superadmin_only : List Role
superadmin_only = superadmin ∷ []

abbrev pub partner_scoped_roles : List Role
partner_scoped_roles = owner ∷ operator ∷ []

-- `requiredRoles.includes(user.role)`
abbrev pub has_role : List Role → Role → Bool
has_role roles r = any (same_role r) roles

abbrev pub user_has : List Role → Option Role → Bool
user_has roles none = false
user_has roles (some r) = has_role roles r

-- `canActivate`: false stands for the ForbiddenException. A route that names no role is open, and so
-- is one that names an empty list.
unfoldable pub roles_guard : Option (List Role) → Option Role → Bool
roles_guard none user = true
roles_guard (some []) user = true
roles_guard (some (r ∷ roles)) user = user_has (r ∷ roles) user
