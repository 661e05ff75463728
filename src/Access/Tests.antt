-- ===== src/Access/Tests.antt =====
-- A node with one owner, two instances, and one share.
use gsm.Common.{
  ℕ, ◌≡◌, refl, ◌↔◌, ◌≤◌, true, some, none, List, [], ◌∷◌, ok, is_some, insert, lookup, nat_eq,
  arith,
}
use gsm.Enums.{Role, InstanceRole, owner, operator, viewer}
use gsm.Effects.{Effect, access_changed, reconnect_user, instance_updated}
use gsm.Access.{
  Requester, Tables, owns_node, find_instance, find_grant, grant_role, role_on, role_in, in_scope,
  scope_for_user, grant, revoke, assert_instance_permission,
}
use gsm.Access.Roles.{
  command, view, delete, permission_role, role_name, role_allows, rank, permission_role_least,
}
use gsm.Access.Scope.{IsKeyed, role_in-scope_for_user}
use gsm.Access.Sharing.{role_with, grant-role_on, revoke-role_on}
use gsm.Access.Checks.{assert_instance_permission_hides}

abbrev db : Tables
db = record {
  instances = record { id = 1; node_id = 7 } ∷ record { id = 2; node_id = 8 } ∷ [];
  grants = record { instance_id = 2; user_id = 5; role = viewer } ∷ [];
  node_users = record { node_id = 7; user_id = 5 } ∷ [];
  user_ids = 4 ∷ 5 ∷ [];
}

abbrev ann : Requester
ann = record { id = 5; role = Role.user }

abbrev bob : Requester
bob = record { id = 4; role = Role.user }

run : Unit {0}
unfolding role_on find_instance find_grant grant_role owns_node scope_for_user role_in grant revoke
    insert lookup
run = tt

db-IsKeyed : IsKeyed db
db-IsKeyed = record { instances = omega arith; grants = (tt, tt) }

-- Ann owns node 7 and has a share of instance 2.
roles_run :
    (role_on db ann 1 ≡ some owner) × (role_on db ann 2 ≡ some viewer) × (role_on db bob 2 ≡ none)
unfolding run
roles_run = (refl, refl, refl)

role_in-scope_for_user_example :
    (role_in (scope_for_user db ann) 2 ≡ role_on db ann 2)
    × (in_scope (scope_for_user db ann) 2 ≡ is_some (role_on db ann 2))
role_in-scope_for_user_example =
    role_in-scope_for_user db ann 2 (record { id = 2; node_id = 8 }) db-IsKeyed
      (unfold find_instance in refl)

abbrev shared : Tables
shared = record db {
  grants =
      record { instance_id = 1; user_id = 4; role = operator }
      ∷ record { instance_id = 2; user_id = 5; role = viewer }
      ∷ [];
}

abbrev told : ℕ → ℕ → List Effect
told u i = access_changed (u ∷ []) ∷ reconnect_user u ∷ instance_updated i ∷ []

granted_run : grant db 1 4 operator ≡ ok (shared, told 4 1)
unfolding run
granted_run = refl

revoked_run : revoke db 2 5 ≡ ok (record db { grants = [] }, told 5 2)
unfolding run
revoked_run = refl

grant-role_on_example : role_on shared bob 1 ≡ role_with db bob 1 (some operator)
grant-role_on_example = grant-role_on db 1 4 operator shared (told 4 1) granted_run bob 1

revoke-role_on_example : role_on (record db { grants = [] }) ann 2 ≡ role_with db ann 2 none
revoke-role_on_example =
    revoke-role_on db 2 5 (record db { grants = [] }) (told 5 2) revoked_run ann 2

assert_instance_permission_hides_example :
    assert_instance_permission db bob 2 view ≡ assert_instance_permission db bob 3 delete
assert_instance_permission_hides_example =
    assert_instance_permission_hides db bob 2 3 view delete refl (unfold run in refl)
      (unfold run in refl)

permission_role_least_example :
    (least : InstanceRole) × (permission_role command ≡ role_name least)
    × ((role : InstanceRole) → (role_allows (some role) command ≡ true) ↔ (rank least ≤ rank role))
permission_role_least_example = permission_role_least command
