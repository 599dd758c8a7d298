-- ===== src/Authorization.antt =====
-- domain/enums/auth.py and application/services/authorization_service.py: the permissions of a role,
-- and the decorators that check them before a use case runs.
pub mod Granted
use fleet_flow.Base.{
  ℕ, Bool, true, false, not, ◌||◌, List, [], ◌∷◌, ◌++◌, Option, none, some, ◌==◌, if◌then◌else◌,
}
use fleet_flow.Result.{permission_error}
use fleet_flow.World.{Action, raise_if, ◌>>=◌, ◌>>◌}

pub data Role : Type 0 where
  employee manager : Role

pub data Permission : Type 0 where
  package_create package_view package_view_all package_find_route_for : Permission
  package_view_unassigned package_remove : Permission
  route_create route_view_in_progress route_view route_view_all route_find_truck_for : Permission
  route_assign_truck route_assign_package route_remove : Permission
  truck_view customer_view admin_user app_save_state app_load_state audit_view : Permission
  fleet_overview_view authenticated : Permission

-- The value that `auto()` gives.
abbrev pub value : Permission → ℕ
value package_create = 1
value package_view = 2
value package_view_all = 3
value package_find_route_for = 4
value package_view_unassigned = 5
value package_remove = 6
value route_create = 7
value route_view_in_progress = 8
value route_view = 9
value route_view_all = 10
value route_find_truck_for = 11
value route_assign_truck = 12
value route_assign_package = 13
value route_remove = 14
value truck_view = 15
value customer_view = 16
value admin_user = 17
value app_save_state = 18
value app_load_state = 19
value audit_view = 20
value fleet_overview_view = 21
value authenticated = 22

-- `perm in allowed`
abbrev pub is_in : Permission → List Permission → Bool
is_in p [] = false
is_in p (q ∷ qs) = value q == value p || is_in p qs

-- `_EMPLOYEE_PERMISSIONS`
abbrev pub employee_permissions : List Permission
employee_permissions =
    package_create ∷ package_view ∷ package_view_all ∷ package_view_unassigned
    ∷ package_find_route_for ∷ package_remove ∷ route_create ∷ route_view ∷ route_view_all
    ∷ route_view_in_progress ∷ route_find_truck_for ∷ route_assign_truck ∷ route_assign_package
    ∷ route_remove ∷ truck_view ∷ customer_view ∷ fleet_overview_view ∷ []

-- What `_MANAGER_PERMISSIONS` adds.
abbrev pub manager_only : List Permission
manager_only = admin_user ∷ app_save_state ∷ app_load_state ∷ audit_view ∷ []

-- `ROLE_PERMISSIONS`
abbrev pub role_permissions : Role → List Permission
role_permissions employee = employee_permissions
role_permissions manager = employee_permissions ++ manager_only

-- `has`, for the role of the current user
abbrev pub has : Option Role → Permission → Bool
has none p = false
has (some role) p = is_in p (role_permissions role)

-- `requires`. The event that records a denial goes to the scope of the message executor, which
-- is not part of the world.
unfoldable pub requires : {A : Type 0} → Option Role → Permission → Action A → Action A
requires user p fn = raise_if (not (has user p)) permission_error >> fn

-- `[p for p in permissions if not self.authz.has(p)]`
abbrev pub missing : Option Role → List Permission → List Permission
missing user [] = []
missing user (p ∷ ps) = let rest = missing user ps in if has user p then rest else p ∷ rest

abbrev pub is_none_missing : List Permission → Bool
is_none_missing [] = true
is_none_missing (p ∷ ps) = false

abbrev pub is_known : Option Role → Bool
is_known none = false
is_known (some role) = true

-- `requires_all`
unfoldable pub requires_all : {A : Type 0} → Option Role → List Permission → Action A → Action A
requires_all user ps fn = do
  raise_if (not (is_known user)) permission_error
  raise_if (not (is_none_missing (missing user ps))) permission_error
  fn
