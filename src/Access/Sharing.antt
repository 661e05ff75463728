-- ===== src/Access/Sharing.antt =====
-- Sharing an instance and taking the share back: what changes for whom.
use gsm.Common.{
  ℕ, ◌≡◌, refl, sym, ap, ◌∙◌, inl, inr, Bool, true, false, Option, none, some, List, [], ◌∷◌, ◌==◌,
  ◌&&◌, if◌then◌else◌, find?, update_rows, destroy, is_some, nat_eq, Option-cases, arith, ok,
}
use gsm.Enums.{is_admin, InstanceRole, owner}
use gsm.Effects.{Effect}
use gsm.Access.{
  Requester, Grant, Tables, put_grant, role_on, grant_role, find_instance, owns_node, grant, revoke,
}

module _ (i u j v : ℕ) where
  update_find :
      (role : InstanceRole) (gs : List Grant)
      → grant_role (
          find?
            (λ g. g.user_id == v && g.instance_id == j)
            (update_rows
              (λ h. h.user_id == u && h.instance_id == i)
              (λ h. record h { role = role })
              gs))
        ≡ (if u == v && i == j && is_some (find? (λ g. g.user_id == u && g.instance_id == i) gs)
            then some role
            else grant_role (find? (λ g. g.user_id == v && g.instance_id == j) gs))
  unfolding grant_role
  update_find role [] = ground arith
  update_find role (g ∷ gs) = ground (arith, update_find role gs)

  put_find :
      (role : InstanceRole) (gs : List Grant)
      → grant_role (find? (λ g. g.user_id == v && g.instance_id == j) (put_grant i u role gs)) ≡ (
          if u == v && i == j
          then some role
          else grant_role (find? (λ g. g.user_id == v && g.instance_id == j) gs))
  unfolding put_grant grant_role
  put_find role gs = elim (Option-cases (find? (λ g. g.user_id == u && g.instance_id == i) gs)) [
    | inl new ↦ ground arith
    | inr (g, old) ↦ ground (arith, update_find role gs)
  ]

  destroy_find :
      (gs : List Grant)
      → grant_role (
          find?
            (λ g. g.user_id == v && g.instance_id == j)
            (destroy (λ g. g.instance_id == i && g.user_id == u) gs))
        ≡ (if u == v && i == j
            then none
            else grant_role (find? (λ g. g.user_id == v && g.instance_id == j) gs))
  unfolding grant_role
  destroy_find [] = ground arith
  destroy_find (g ∷ gs) = ground (arith, destroy_find gs)

-- What a requester's role on an instance is once their own share is `share`.
abbrev pub role_with : Tables → Requester → ℕ → Option InstanceRole → Option InstanceRole
role_with db r j share = if is_admin r.role then some owner else elim (find_instance db j) [
  | none ↦ none
  | some row ↦ if owns_node db r row.node_id then some owner else share
]

role_on_grants :
    (db : Tables) (gs : List Grant) (r : Requester) (j : ℕ)
    → role_on (record db { grants = gs }) r j
      ≡ role_with db r j (grant_role (find? (λ g. g.user_id == r.id && g.instance_id == j) gs))
unfolding role_on find_instance owns_node
role_on_grants db gs r j = refl

role_with_if :
    (db : Tables) (r : Requester) (j : ℕ) (b : Bool) (x y : Option InstanceRole)
    → role_with db r j (if b then x else y) ≡ (if b then role_with db r j x else role_with db r j y)
role_with_if db r j true x y = refl
role_with_if db r j false x y = refl

grant_result :
    (db : Tables) (i u : ℕ) (role : InstanceRole) (db' : Tables) (fx : List Effect)
    → grant db i u role ≡ ok (db', fx)
    → db' ≡ record db { grants = put_grant i u role db.grants }
unfolding grant
grant_result db i u role db' fx e = elim (Option-cases (find_instance db i)) [
  | inl missing ↦ absurd (ground arith)
  | inr (row, found) ↦ ground arith
]

revoke_result :
    (db : Tables) (i u : ℕ) (db' : Tables) (fx : List Effect)
    → revoke db i u ≡ ok (db', fx)
    → db' ≡ record db { grants = destroy (λ g. g.instance_id == i && g.user_id == u) db.grants }
unfolding revoke
revoke_result db i u db' fx e = ground arith

-- After an instance was shared, the user has the given role on it (an admin, or an owner of its
-- node, stays its owner), and no role of anyone else, nor of the user on another instance, has
-- changed.
pub grant-role_on :
    (db : Tables) (i u : ℕ) (role : InstanceRole) (db' : Tables) (fx : List Effect)
    → grant db i u role ≡ ok (db', fx)
    → (r : Requester) (j : ℕ)
    → role_on db' r j
      ≡ (if u == r.id && i == j then role_with db r j (some role) else role_on db r j)
grant-role_on db i u role db' fx e r j =
    ap (λ t. role_on t r j) (grant_result db i u role db' fx e)
    ∙ role_on_grants db (put_grant i u role db.grants) r j
    ∙ ap (role_with db r j) (put_find i u j r.id role db.grants)
    ∙ role_with_if db r j (u == r.id && i == j) (some role) _
    ∙ ap (λ t. if u == r.id && i == j then role_with db r j (some role) else t)
        (sym (role_on_grants db db.grants r j))

-- After a share was taken back, the user has no role on the instance but that of an admin or an
-- owner of its node, and no other role has changed.
pub revoke-role_on :
    (db : Tables) (i u : ℕ) (db' : Tables) (fx : List Effect)
    → revoke db i u ≡ ok (db', fx)
    → (r : Requester) (j : ℕ)
    → role_on db' r j ≡ (if u == r.id && i == j then role_with db r j none else role_on db r j)
revoke-role_on db i u db' fx e r j =
    ap (λ t. role_on t r j) (revoke_result db i u db' fx e)
    ∙ role_on_grants db (destroy (λ g. g.instance_id == i && g.user_id == u) db.grants) r j
    ∙ ap (role_with db r j) (destroy_find i u j r.id db.grants)
    ∙ role_with_if db r j (u == r.id && i == j) none _
    ∙ ap (λ t. if u == r.id && i == j then role_with db r j none else t)
        (sym (role_on_grants db db.grants r j))
