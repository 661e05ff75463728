-- ===== src/Access.antt =====
-- Who may do what: shared/src/enums.ts and shared/src/api/instances.ts (roles and permissions),
-- server/src/modules/nodes/access.ts and server/src/modules/instances/access.ts. The tables they
-- query are lists of rows; the requester is what `currentUser` gives.
pub mod Roles
mod Scope
mod Sharing
mod Checks
mod Tests
use gsm.Common.{
  ℕ, String, Bool, true, false, Option, none, some, List, [], ◌∷◌, map, ltb, ◌==◌, ◌&&◌,
  if◌then◌else◌, lookup, insert, find?, select, count, destroy, update_rows, contains, any, is_some,
  nat_eq, HttpError, not_found, forbidden, bad_request, Result, ok, err, ◌>>=◌, ◌>>◌, throw_if,
}
use gsm.Enums.{Role, is_admin, InstanceRole, owner}
use gsm.Effects.{Effect, access_changed, reconnect_user, instance_updated}
use gsm.Access.Roles.{InstancePermission, role_allows, permission_role}

-- The requester, as `Pick<User, "id" | "role">`.
pub record Requester : Type 0 where
  pub id : ℕ
  pub role : Role

pub record InstanceRow : Type 0 where
  pub id : ℕ
  pub node_id : ℕ

-- A row of `instance_users`: a share of one instance.
pub record Grant : Type 0 where
  pub instance_id : ℕ
  pub user_id : ℕ
  pub role : InstanceRole

-- A row of `node_users`: an owner of a node.
pub record NodeOwner : Type 0 where
  pub node_id : ℕ
  pub user_id : ℕ

pub record Tables : Type 0 where
  pub instances : List InstanceRow
  pub grants : List Grant
  pub node_users : List NodeOwner
  pub user_ids : List ℕ

-- nodes/access.ts -------------------------------------------------------------------------------

-- A scope of `none` is an admin's `null`: everything.
abbrev pub NodeScope : Type 0
NodeScope = Option (List ℕ)

pub node_scope_for_user : Tables → Requester → NodeScope
node_scope_for_user db u =
    if is_admin u.role
    then none
    else some (map (λ r. r.node_id) (select (λ r. r.user_id == u.id) db.node_users))

pub in_node_scope : NodeScope → ℕ → Bool
in_node_scope none node_id = true
in_node_scope (some ids) node_id = contains node_id ids

pub owns_node : Tables → Requester → ℕ → Bool
owns_node db u node_id =
    if is_admin u.role
    then true
    else ltb 0 (count (λ r. r.user_id == u.id && r.node_id == node_id) db.node_users)

pub assert_node_access : Tables → Requester → ℕ → Result (Unit {0})
assert_node_access db u node_id = if owns_node db u node_id then ok tt else err (not_found "Node")

pub node_owner_ids : Tables → ℕ → List ℕ
node_owner_ids db node_id = map (λ r. r.user_id) (select (λ r. r.node_id == node_id) db.node_users)

-- instances/access.ts ---------------------------------------------------------------------------

abbrev pub InstanceScope : Type 0
InstanceScope = Option (List (ℕ × InstanceRole))

-- `new Map(grants.map((g) => [g.instanceId, g.role]))`.
scope_of_grants : List (ℕ × InstanceRole) → List Grant → List (ℕ × InstanceRole)
scope_of_grants scope [] = scope
scope_of_grants scope (g ∷ grants) = scope_of_grants (insert g.instance_id g.role scope) grants

-- `for (const i of onOwnedNodes) scope.set(i.id, "owner")`.
set_owned : List (ℕ × InstanceRole) → List InstanceRow → List (ℕ × InstanceRole)
set_owned scope [] = scope
set_owned scope (i ∷ owned) = set_owned (insert i.id owner scope) owned

-- With no owned nodes the query is skipped; it would find nothing.
on_owned_nodes : Tables → List NodeOwner → List InstanceRow
on_owned_nodes db [] = []
on_owned_nodes db (n ∷ nodes) =
    select (λ i. contains i.node_id (map (λ r. r.node_id) (n ∷ nodes))) db.instances

pub scope_for_user : Tables → Requester → InstanceScope
unfolding scope_of_grants set_owned on_owned_nodes
scope_for_user db u =
    if is_admin u.role
    then none
    else some (
        set_owned (scope_of_grants [] (select (λ g. g.user_id == u.id) db.grants))
          (on_owned_nodes db (select (λ r. r.user_id == u.id) db.node_users)))

pub in_scope : InstanceScope → ℕ → Bool
in_scope none instance_id = true
in_scope (some scope) instance_id = is_some (lookup instance_id scope)

pub role_in : InstanceScope → ℕ → Option InstanceRole
role_in none instance_id = some owner
role_in (some scope) instance_id = lookup instance_id scope

pub grant_role : Option Grant → Option InstanceRole
grant_role none = none
grant_role (some g) = some g.role

pub find_grant : Tables → ℕ → ℕ → Option Grant
find_grant db user_id instance_id =
    find? (λ g. g.user_id == user_id && g.instance_id == instance_id) db.grants

pub find_instance : Tables → ℕ → Option InstanceRow
find_instance db instance_id = find? (λ i. i.id == instance_id) db.instances

pub role_on : Tables → Requester → ℕ → Option InstanceRole
unfolding grant_role find_grant find_instance
role_on db u instance_id =
    if is_admin u.role then some owner else elim (find_instance db instance_id) [
      | none ↦ none
      | some i ↦
          if owns_node db u i.node_id
          then some owner
          else grant_role (find_grant db u.id instance_id)
    ]

check_role : Option InstanceRole → InstancePermission → Result InstanceRole
check_role none permission = err (not_found "Instance")
check_role (some role) permission =
    if role_allows (some role) permission
    then ok role
    else err (forbidden (permission_role permission))

pub assert_instance_permission : Tables → Requester → ℕ → InstancePermission → Result InstanceRole
unfolding check_role
assert_instance_permission db u instance_id permission =
    check_role (role_on db u instance_id) permission

-- instances/service.ts: sharing -----------------------------------------------------------------

-- `findOrCreate`, and the update of a row that was there with another role.
put_grant : ℕ → ℕ → InstanceRole → List Grant → List Grant
put_grant instance_id user_id role grants =
    elim (find? (λ g. g.user_id == user_id && g.instance_id == instance_id) grants) [
      | none ↦ record { instance_id = instance_id; user_id = user_id; role = role } ∷ grants
      | some g ↦
          update_rows (λ h. h.user_id == user_id && h.instance_id == instance_id)
            (λ h. record h { role = role }) grants
    ]

-- What both operations tell.
share_effects : ℕ → ℕ → List Effect
share_effects instance_id user_id =
    access_changed (user_id ∷ []) ∷ reconnect_user user_id ∷ instance_updated instance_id ∷ []

pub grant : Tables → ℕ → ℕ → InstanceRole → Result (Tables × List Effect)
unfolding put_grant find_instance share_effects
grant db instance_id user_id role = elim (find_instance db instance_id) [
  | none ↦ err (not_found "Instance")
  | some i ↦
      if contains user_id db.user_ids
      then ok (
        record db { grants = put_grant instance_id user_id role db.grants },
        share_effects instance_id user_id,
      )
      else err (bad_request "Unknown user")
]

pub revoke : Tables → ℕ → ℕ → Result (Tables × List Effect)
unfolding share_effects
revoke db instance_id user_id =
    if any (λ g. g.instance_id == instance_id && g.user_id == user_id) db.grants
    then ok (
      record db {
        grants = destroy (λ g. g.instance_id == instance_id && g.user_id == user_id) db.grants;
      },
      share_effects instance_id user_id,
    )
    else err (not_found "Access")
