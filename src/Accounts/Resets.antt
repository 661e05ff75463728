-- ===== src/Accounts/Resets.antt =====
-- server/src/modules/auth/password-reset.ts: forgotten passwords, by a link that works once. The
-- work that the source leaves to the background (`issue`) happens here before the next operation.
pub mod Once
use gsm.Common.{
  ℕ, ◌+◌, ◌*◌, Bool, true, false, not, ◌&&◌, Option, none, some, List, [], ◌∷◌, ◌++◌, String, ◌==◌,
  nat_eq, string_eq, find?, destroy, count, ltb, if◌then◌else◌, Result, ok, err, HttpError,
  http_error, bad_request,
}
use gsm.Text.{lower_case, decimal, ◌+++◌}
use gsm.Effects.{mail}
use gsm.RateLimit.{Limits, check}
use gsm.Accounts.{
  User, PasswordReset, SessionMeta, State, Outcome, Platform, AuditEntry, no_details, find_user,
  save_user, record_audit, tell,
}
use gsm.Accounts.Sessions.{end_sessions, agent_of}
use gsm.Accounts.Manage.{drop_challenges}

abbrev pub reset_ttl_ms : ℕ
reset_ttl_ms = 30 * 60 * 1000

-- `perAccount`: one reset email of an account in a minute.
abbrev pub account_limits : Limits
account_limits = record { window_ms = 60000; most = 1 }

unfoldable pub token_hash : Platform → String → String
token_hash p token = p.sha256_hex ("password-reset:" +++ token)

-- A token for the user in place of any earlier one, and the mail with the link if it goes out.
unfoldable pub issue : Platform → ℕ → String → Bool → User → SessionMeta → State → State
unfolding token_hash
issue p now token mailed user meta st =
    let row : PasswordReset = record {
      token_hash = token_hash p token;
      user_id = user.id;
      expires_at = now + reset_ttl_ms;
      ip = meta.ip;
      user_agent = agent_of meta;
    } in
    tell (if mailed then mail user.email token ∷ [] else []) (
      record_audit
        (record {
          actor_user_id = none;
          action = "auth.password_reset_requested";
          target_id = some user.id;
          details = no_details;
          ip = meta.ip;
        })
        (record st { resets = destroy (λ r. r.user_id == user.id) st.resets ++ row ∷ [] }))

active_user : Option User → Option User
active_user none = none
active_user (some u) = if u.disabled then none else some u

-- The request for an active account, as far as its limit allows.
limited : Platform → ℕ → String → Bool → User → SessionMeta → State → State
limited p now token mailed user meta st =
    let (limiter, verdict) = check account_limits now now (decimal user.id) st.per_account in
    let charged = record st { per_account = limiter } in
    if verdict.allowed then issue p now token mailed user meta charged else charged

unfoldable pub request_reset :
    Platform → ℕ → Bool → String → Bool → String → SessionMeta → State → Outcome (Unit {0})
unfolding active_user limited
request_reset p now smtp token mailed email meta st =
    if not smtp
    then (
      st,
      err (
          bad_request
            "Password reset by email is not set up. Ask an administrator to reset your password."),
    )
    else elim (active_user (find? (λ u. u.email == lower_case email) st.users)) [
      | none ↦ (st, ok tt)
      | some user ↦ (limited p now token mailed user meta st, ok tt)
    ]

abbrev pub invalid_token : HttpError
invalid_token =
    http_error 400 "invalid_reset_token"
      "This reset link is invalid or has expired. Ask for a new one."

live_reset : Platform → ℕ → String → State → Option PasswordReset
live_reset p now token st =
    find? (λ r. r.token_hash == token_hash p token && ltb now r.expires_at) st.resets

reset_user : Option PasswordReset → State → Option (PasswordReset × User)
reset_user none st = none
reset_user (some row) st = elim (active_user (find_user st row.user_id)) [
  | none ↦ none
  | some u ↦ some (row, u)
]

-- The transaction: deleting the row claims the token.
claim : Platform → User → PasswordReset → String → Option String → State → State
claim p user row new_password ip st =
    record_audit
      (record {
        actor_user_id = some user.id;
        action = "auth.password_reset";
        target_id = some user.id;
        details = no_details;
        ip = ip;
      })
      (drop_challenges user.id (
        end_sessions user.id none (
          save_user user.id (λ u. record u { password_hash = p.hash_password new_password })
            (record st { resets = destroy (λ r. r.token_hash == row.token_hash) st.resets }))))

unfoldable pub reset_password :
    Platform → ℕ → String → String → Option String → State → Outcome User
unfolding live_reset reset_user active_user claim
reset_password p now token new_password ip st = elim (reset_user (live_reset p now token st) st) [
  | none ↦ (st, err invalid_token)
  | some (row, user) ↦
      if not (count (λ r. r.token_hash == row.token_hash) st.resets == 1)
      then (st, err invalid_token)
      else (
        claim p user row new_password ip st,
        ok (record user { password_hash = p.hash_password new_password }),
      )
]

unfoldable pub purge_expired_resets : ℕ → State → State × ℕ
purge_expired_resets now st = (
  record st { resets = destroy (λ r. ltb r.expires_at now) st.resets },
  count (λ r. ltb r.expires_at now) st.resets,
)
