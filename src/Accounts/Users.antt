-- ===== src/Accounts/Users.antt =====
-- server/src/modules/users/service.ts: the administration of users.
pub mod Governed
pub mod Admins
use gsm.Common.{
  ℕ, ◌+◌, Bool, true, false, not, ◌&&◌, ◌||◌, Option, none, some, is_some, or_else, List, [], ◌∷◌,
  ◌++◌, String, ◌==◌, nat_eq, string_eq, find?, destroy, count, ltb, leb, if◌then◌else◌, Result, ok,
  err, HttpError, bad_request, conflict, not_found, ◌>>=◌, ◌>>◌, throw_if,
}
use gsm.Enums.{Role, is_admin}
use gsm.Text.{lower_case}
use gsm.Effects.{reconnect_user, disconnect_user, access_changed}
use gsm.Accounts.{User, State, Outcome, Platform, has_two_factor, find_user, save_user, tell}
use gsm.Accounts.Sessions.{end_sessions}
use gsm.Accounts.Manage.{admin_reset}

unfoldable pub get : State → ℕ → Result User
get st id = elim (find_user st id) [ none ↦ err (not_found "User") | some u ↦ ok u ]

-- `CreateUserBody` and `UpdateUserBody`; a `none` is a field that is not in the request.
pub record CreateUserBody : Type 0 where
  pub email : String
  pub name : String
  pub password : String
  pub role : Role

pub record UpdateUserBody : Type 0 where
  pub name : Option String
  pub role : Option Role
  pub disabled : Option Bool
  pub two_factor_off : Bool  -- `twoFactorEnabled === false`

unfoldable pub create : Platform → CreateUserBody → State → Outcome User
create p input st =
    let email = lower_case input.email in
    let user : User = record {
      id = st.next_user;
      email = email;
      name = input.name;
      password_hash = p.hash_password input.password;
      role = input.role;
      disabled = false;
      two_factor_email = false;
      totp_secret = none;
      totp_enabled_at = none;
      totp_last_step = none;
      last_login_at = none;
    } in
    if is_some (find? (λ u. u.email == email) st.users)
    then (st, err (conflict "A user with that email already exists"))
    else (record st { users = st.users ++ user ∷ []; next_user = st.next_user + 1 }, ok user)

abbrev pub is_enabled_admin : User → Bool
is_enabled_admin u = is_admin u.role && not u.disabled

abbrev pub admin_count : State → ℕ
admin_count st = count is_enabled_admin st.users

-- `input.role !== undefined && input.role !== "admin" && user.role === "admin"`.
is_demoting : UpdateUserBody → User → Bool
is_demoting input user = elim input.role [
  | none ↦ false
  | some role ↦ not (is_admin role) && is_admin user.role
]

is_disabling : UpdateUserBody → User → Bool
is_disabling input user = elim input.disabled [ none ↦ false | some off ↦ off && not user.disabled ]

-- `input.role !== undefined && input.role !== user.role`, over two roles.
is_role_changed : UpdateUserBody → User → Bool
is_role_changed input user = elim input.role [
  | none ↦ false
  | some role ↦ if is_admin role then not (is_admin user.role) else is_admin user.role
]

edited : UpdateUserBody → User → User
edited input u = record u {
  name = or_else input.name u.name;
  role = or_else input.role u.role;
  disabled = or_else input.disabled u.disabled;
}

update_checks : ℕ → UpdateUserBody → ℕ → User → State → Result (Unit {0})
unfolding is_demoting is_disabling
update_checks id input actor_id user st =
    let lowers = is_demoting input user || is_disabling input user in
    throw_if (lowers && (leb (admin_count st) 1 && is_admin user.role))
      (bad_request "Cannot remove the last administrator")
    >> throw_if (id == actor_id && lowers)
        (bad_request "You cannot demote or disable your own account")

-- Sessions and factors of the updated user.
after_update : ℕ → UpdateUserBody → User → State → State
after_update id input user st =
    let signed_out = if or_else input.disabled false then end_sessions id none st else st in
    if input.two_factor_off && has_two_factor user then admin_reset user signed_out else signed_out

unfoldable pub update : ℕ → UpdateUserBody → ℕ → State → Outcome User
unfolding get update_checks after_update edited is_role_changed is_disabling
update id input actor_id st = elim (get st id) [
  | err problem ↦ (st, err problem)
  | ok user ↦ elim (update_checks id input actor_id user st) [
    | err problem ↦ (st, err problem)
    | ok done ↦ (
      tell
          ((if is_role_changed input user then reconnect_user id ∷ [] else [])
            ++ (if is_role_changed input user || is_disabling input user
                then access_changed (id ∷ []) ∷ []
                else []))
          (after_update id input user (save_user id (edited input) st)),
      ok (edited input user),
    )
  ]
]

-- `user.destroy()`: the foreign keys of migrations/0002-auth.ts take the user's rows along.
unfoldable pub destroy_user : ℕ → State → State
destroy_user id st = record st {
  users = destroy (λ u. u.id == id) st.users;
  sessions = destroy (λ s. s.user_id == id) st.sessions;
  challenges = destroy (λ c. c.user_id == id) st.challenges;
  codes = destroy (λ r. r.user_id == id) st.codes;
  resets = destroy (λ r. r.user_id == id) st.resets;
}

remove_checks : User → State → Result (Unit {0})
remove_checks user st =
    throw_if (is_admin user.role && leb (admin_count st) 1)
      (bad_request "Cannot delete the last administrator")

unfoldable pub remove : ℕ → ℕ → State → Outcome (Unit {0})
unfolding get remove_checks
remove id actor_id st =
    if id == actor_id
    then (st, err (bad_request "You cannot delete your own account"))
    else elim (get st id) [
      | err problem ↦ (st, err problem)
      | ok user ↦ elim (remove_checks user st) [
        | err problem ↦ (st, err problem)
        | ok done ↦
            (tell (disconnect_user id ∷ access_changed (id ∷ []) ∷ []) (destroy_user id st), ok tt)
      ]
    ]

unfoldable pub reset_password : Platform → ℕ → String → State → Outcome (Unit {0})
unfolding get
reset_password p id password st = elim (get st id) [
  | err problem ↦ (st, err problem)
  | ok user ↦ (
    end_sessions id none
        (save_user id (λ u. record u { password_hash = p.hash_password password }) st),
    ok tt,
  )
]
