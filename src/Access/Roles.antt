-- ===== src/Access/Roles.antt =====
-- The permission table of shared/src/api/instances.ts.
use gsm.Common.{
  ℕ, ◌≤◌, ◌≡◌, refl, ◌↔◌, String, Bool, true, false, Option, none, some, List, [], ◌∷◌, contains,
  arith,
}
use gsm.Enums.{InstanceRole, owner, operator, viewer, role_eq}

pub data InstancePermission : Type 0 where
  view console command power files backups settings players access delete reinstall firewall :
      InstancePermission

-- `INSTANCE_PERMISSIONS`.
pub instance_permissions : InstancePermission → List InstanceRole
instance_permissions view = owner ∷ operator ∷ viewer ∷ []
instance_permissions console = owner ∷ operator ∷ viewer ∷ []
instance_permissions command = owner ∷ operator ∷ []
instance_permissions power = owner ∷ operator ∷ []
instance_permissions files = owner ∷ operator ∷ []
instance_permissions backups = owner ∷ operator ∷ []
instance_permissions settings = owner ∷ operator ∷ []
instance_permissions players = owner ∷ operator ∷ []
instance_permissions access = owner ∷ []
instance_permissions delete = owner ∷ []
instance_permissions reinstall = owner ∷ []
instance_permissions firewall = owner ∷ []

unfoldable pub role_allows : Option InstanceRole → InstancePermission → Bool
unfolding instance_permissions
role_allows none permission = false
role_allows (some role) permission = contains role (instance_permissions permission)

-- `permissionRole` of server/src/modules/instances/access.ts: the role that a refusal names.
pub permission_role : InstancePermission → String
permission_role access = "owner"
permission_role delete = "owner"
permission_role reinstall = "owner"
permission_role firewall = "owner"
permission_role view = "viewer"
permission_role console = "viewer"
permission_role _ = "operator"

abbrev pub role_name : InstanceRole → String
role_name owner = "owner"
role_name operator = "operator"
role_name viewer = "viewer"

-- How much a role may do.
abbrev pub rank : InstanceRole → ℕ
rank owner = 3
rank operator = 2
rank viewer = 1

-- The role that a refusal names is the least one with the permission: it has it, and another role
-- has it exactly if it ranks at least as high.
pub permission_role_least :
    (permission : InstancePermission)
    → (least : InstanceRole) × (permission_role permission ≡ role_name least)
      × ((role : InstanceRole)
          → (role_allows (some role) permission ≡ true) ↔ (rank least ≤ rank role))
unfolding permission_role role_allows
permission_role_least access = (owner, refl, λ r. ground arith)
permission_role_least delete = (owner, refl, λ r. ground arith)
permission_role_least reinstall = (owner, refl, λ r. ground arith)
permission_role_least firewall = (owner, refl, λ r. ground arith)
permission_role_least view = (viewer, refl, λ r. ground arith)
permission_role_least console = (viewer, refl, λ r. ground arith)
permission_role_least _ = (operator, refl, λ r. ground arith)
