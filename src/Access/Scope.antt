-- ===== src/Access/Scope.antt =====
-- The scope that lists are filtered by, against the role that a single request is checked by.
use gsm.Common.{
  ℕ, ◌≡◌, ◌≢◌, refl, sym, ◌∙◌, subst, inl, inr, Bool, true, false, Option, none, some,
  some-injective, List, [], ◌∷◌, map, ltb, ◌==◌, ◌&&◌, if◌then◌else◌, lookup, insert, lookup-insert,
  find?, select, count, contains, any, is_some, nat_eq, All, Pairwise, select-Pairwise,
  find?-select, Bool-cases, nat_beq_iff, arith,
}
use gsm.Enums.{is_admin, InstanceRole, owner}
use gsm.Access.{
  Requester, InstanceRow, Grant, NodeOwner, Tables, scope_of_grants, set_owned, on_owned_nodes,
  scope_for_user, in_scope, role_in, role_on, grant_role, find_grant, find_instance, owns_node,
}

-- What the database's keys promise: one row for each instance id, and one share for each user and
-- instance.
pub record IsKeyed (db : Tables) : Type 0 where
  pub instances : Pairwise (λ i j. i.id ≢ j.id) db.instances
  pub grants :
      Pairwise (λ g h. ¬ ((g.user_id ≡ h.user_id) × (g.instance_id ≡ h.instance_id))) db.grants

-- `o`, or `d` where it has nothing.
abbrev or_role : Option InstanceRole → Option InstanceRole → Option InstanceRole
or_role none d = d
or_role (some r) d = some r

none_found :
    (id : ℕ) (g : Grant) (gs : List Grant)
    → (g.instance_id == id) ≡ true
    → All (λ h. g.instance_id ≢ h.instance_id) gs
    → find? (λ h. h.instance_id == id) gs ≡ none
none_found id g [] e h = refl
none_found id g (k ∷ gs) e (d, h) = ground (arith, none_found id g gs e h)

lookup-scope_of_grants :
    (id : ℕ) (scope : List (ℕ × InstanceRole)) (gs : List Grant)
    → Pairwise (λ g h. g.instance_id ≢ h.instance_id) gs
    → lookup id (scope_of_grants scope gs)
      ≡ or_role (grant_role (find? (λ g. g.instance_id == id) gs)) (lookup id scope)
unfolding scope_of_grants grant_role
lookup-scope_of_grants id scope [] h = refl
lookup-scope_of_grants id scope (g ∷ gs) (d, h) = ground (
  arith,
  lookup-scope_of_grants id (insert g.instance_id g.role scope) gs h,
  lookup-insert g.instance_id id g.role scope,
  none_found id g gs,
)

lookup-set_owned :
    (id : ℕ) (scope : List (ℕ × InstanceRole)) (owned : List InstanceRow)
    → lookup id (set_owned scope owned)
      ≡ (if any (λ i. i.id == id) owned then some owner else lookup id scope)
unfolding set_owned
lookup-set_owned id scope [] = refl
lookup-set_owned id scope (i ∷ owned) =
    ground (
      arith,
      lookup-set_owned id (insert i.id owner scope) owned,
      lookup-insert i.id id owner scope,
    )

owned_iff :
    (user_id node_id : ℕ) (rows : List NodeOwner)
    → contains node_id (map (λ r. r.node_id) (select (λ r. r.user_id == user_id) rows))
      ≡ ltb 0 (count (λ r. r.user_id == user_id && r.node_id == node_id) rows)
owned_iff user_id node_id [] = refl
owned_iff user_id node_id (r ∷ rows) = ground (arith, owned_iff user_id node_id rows)

select_none : (xs : List InstanceRow) → select (λ i. false) xs ≡ []
select_none [] = refl
select_none (x ∷ xs) = select_none xs

on_owned_nodes_lem :
    (db : Tables) (nodes : List NodeOwner)
    → on_owned_nodes db nodes
      ≡ select (λ i. contains i.node_id (map (λ r. r.node_id) nodes)) db.instances
unfolding on_owned_nodes
on_owned_nodes_lem db [] = sym (select_none db.instances)
on_owned_nodes_lem db (n ∷ nodes) = refl

none_owned :
    (id : ℕ) (p : InstanceRow → Bool) (i : InstanceRow) (is : List InstanceRow)
    → (i.id == id) ≡ true
    → All (λ j. i.id ≢ j.id) is
    → any (λ j. j.id == id) (select p is) ≡ false
none_owned id p i [] e h = refl
none_owned id p i (j ∷ is) e (d, h) = ground (arith, none_owned id p i is e h)

any-select :
    (id : ℕ) (p : InstanceRow → Bool) (is : List InstanceRow) (i : InstanceRow)
    → Pairwise (λ i j. i.id ≢ j.id) is
    → find? (λ j. j.id == id) is ≡ some i
    → any (λ j. j.id == id) (select p is) ≡ p i
any-select id p [] i h found = cc
any-select id p (j ∷ is) i (d, h) found = elim (Bool-cases (j.id == id)) [
  | inl here ↦
      subst (λ k. any (λ j. j.id == id) (select p (j ∷ is)) ≡ p k)
        (some-injective j i (rw here at found)) (ground (arith, none_owned id p j is here d))
  | inr later ↦ ground (arith, any-select id p is i h)
]

module _ (db : Tables) (u : Requester) (id : ℕ) (keyed : IsKeyed db) where
  mine : List Grant
  mine = select (λ g. g.user_id == u.id) db.grants

  mine_keyed : Pairwise (λ g h. g.instance_id ≢ h.instance_id) mine
  unfolding mine
  mine_keyed =
      select-Pairwise _ (λ g h. g.instance_id ≢ h.instance_id) (λ g. g.user_id == u.id)
        (λ g h mg mh apart same.
          apart ((nat_beq_iff _ _).0 mg ∙ sym ((nat_beq_iff _ _).0 mh), same))
        db.grants keyed.grants

  -- The scope's own share of the instance is the one that `roleOn` looks up.
  lookup-mine : lookup id (scope_of_grants [] mine) ≡ grant_role (find_grant db u.id id)
  unfolding mine find_grant lookup grant_role
  lookup-mine = ground (
    arith,
    lookup-scope_of_grants id [] mine mine_keyed,
    find?-select (λ g. g.instance_id == id) (λ g. g.user_id == u.id) db.grants,
  )

  nodes : List NodeOwner
  nodes = select (λ r. r.user_id == u.id) db.node_users

  -- Whether the instance is on a node that the requester owns, as the scope finds it.
  owned_any :
      (i : InstanceRow)
      → find_instance db id ≡ some i
      → is_admin u.role ≡ false
      → any (λ j. j.id == id) (on_owned_nodes db nodes) ≡ owns_node db u i.node_id
  unfolding nodes find_instance owns_node
  owned_any i found scoped =
      rw (on_owned_nodes_lem db nodes, scoped)
        (any-select id (λ j. contains j.node_id (map (λ r. r.node_id) nodes)) db.instances i
            keyed.instances found
          ∙ owned_iff u.id i.node_id db.node_users)

  role_in_lem :
      (i : InstanceRow)
      → find_instance db id ≡ some i
      → role_in (scope_for_user db u) id ≡ role_on db u id
  unfolding scope_for_user role_in role_on mine nodes
  role_in_lem i found = elim (Bool-cases (is_admin u.role)) [
    | inl all ↦ rw all
    | inr scoped ↦ ground (
      arith,
      lookup-set_owned id (scope_of_grants [] mine) (on_owned_nodes db nodes),
      owned_any i found scoped,
      lookup-mine,
    )
  ]

-- For an instance that exists, the role that the requester's scope gives is the role that one
-- request is checked by, and the instance is in the scope exactly when there is such a role; given
-- that instance ids are unique and so is a user's share of an instance.
pub role_in-scope_for_user :
    (db : Tables) (u : Requester) (id : ℕ) (i : InstanceRow)
    → IsKeyed db
    → find_instance db id ≡ some i
    → (role_in (scope_for_user db u) id ≡ role_on db u id)
      × (in_scope (scope_for_user db u) id ≡ is_some (role_on db u id))
unfolding in_scope role_in
role_in-scope_for_user db u id i keyed found =
    let same = role_in_lem db u id keyed i found in (same, ground (arith, same))
