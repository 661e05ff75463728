-- ===== src/Accounts/Sessions.antt =====
-- server/src/modules/auth/service.ts: sign-in with a password, and sessions. An operation reads the
-- clock once; the token and the password's salt are drawn by the caller of the model.
pub mod Ends
use gsm.Common.{
  ℕ, ◌+◌, ◌-◌, ◌*◌, Bool, true, false, not, ◌&&◌, ◌||◌, Option, none, some, List, [], ◌∷◌, ◌++◌,
  map, String, ◌==◌, nat_eq, string_eq, find?, destroy, count, update_rows, ltb, if◌then◌else◌,
  Result, ok, err, conflict, unauthorized, is_some,
}
use gsm.Enums.{Role}
use gsm.Text.{chars, slice_to, lower_case}
use gsm.Accounts.{
  User, Session, SessionMeta, SecondFactor, State, Outcome, Platform, AuditEntry, no_details,
  login_email, signed_in_with, find_user, save_user, record_audit,
}

abbrev pub session_ttl_ms : ℕ
session_ttl_ms = 7 * 24 * 60 * 60 * 1000

abbrev touch_interval_ms : ℕ
touch_interval_ms = 5 * 60 * 1000

-- `meta.userAgent?.slice(0, 512) ?? null`.
abbrev pub agent_of : SessionMeta → Option String
agent_of meta = elim meta.user_agent [ none ↦ none | some agent ↦ some (slice_to 512 agent) ]

unfoldable pub setup_required : State → Bool
setup_required st = count (λ u. true) st.users == 0

-- The second test, inside the transaction, looks at the same table.
unfoldable pub setup :
    Platform → ℕ → String → String → String → Option String → State → Outcome User
unfolding setup_required
setup p now email name password ip st =
    let user : User = record {
      id = st.next_user;
      email = lower_case email;
      name = name;
      password_hash = p.hash_password password;
      role = Role.admin;
      disabled = false;
      two_factor_email = false;
      totp_secret = none;
      totp_enabled_at = none;
      totp_last_step = none;
      last_login_at = some now;
    } in
    if not (setup_required st) then (st, err (conflict "Setup has already been completed")) else (
      record_audit
          (record {
            actor_user_id = some user.id;
            action = "auth.setup";
            target_id = some user.id;
            details = no_details;
            ip = ip;
          })
          (record st { users = st.users ++ user ∷ []; next_user = st.next_user + 1 }),
      ok user,
    )

password_ok : Platform → String → Option User → Bool
password_ok p password none = false
password_ok p password (some u) = p.verify_password password u.password_hash

unfoldable pub authenticate : Platform → String → String → Option String → State → Outcome User
unfolding password_ok
authenticate p email password ip st =
    let found = find? (λ u. u.email == lower_case email) st.users in
    elim (if password_ok p password found then found else none) [
      | none ↦ (
        record_audit
            (record {
              actor_user_id = none;
              action = "auth.login_failed";
              target_id = none;
              details = login_email email;
              ip = ip;
            })
            st,
        err (unauthorized "Invalid email or password"),
      )
      | some user ↦
          if user.disabled
          then (st, err (unauthorized "This account is disabled"))
          else (st, ok user)
    ]

unfoldable pub create_session : Platform → ℕ → String → User → SessionMeta → State → State
create_session p now token user meta st = record st {
  sessions =
      st.sessions
      ++ record {
        id = p.session_key token;
        user_id = user.id;
        expires_at = now + session_ttl_ms;
        ip = meta.ip;
        user_agent = agent_of meta;
        last_seen_at = now;
      }
        ∷ [];
}

unfoldable pub complete_login :
    Platform → ℕ → String → User → SessionMeta → Option SecondFactor → State → State
unfolding create_session
complete_login p now token user meta two_factor st =
    record_audit
      (record {
        actor_user_id = some user.id;
        action = "auth.login";
        target_id = some user.id;
        details = signed_in_with two_factor;
        ip = meta.ip;
      })
      (save_user user.id (λ u. record u { last_login_at = some now })
        (create_session p now token user meta st))

-- The session as it slides.
pub touched : ℕ → Session → Session
touched now s =
    if ltb touch_interval_ms (now - s.last_seen_at)
    then record s { last_seen_at = now; expires_at = now + session_ttl_ms }
    else s

pub live_session : Platform → ℕ → String → State → Option Session
live_session p now token st =
    find? (λ s. s.id == p.session_key token && ltb now s.expires_at) st.sessions

enabled_user : Option User → Option User
enabled_user none = none
enabled_user (some u) = if u.disabled then none else some u

unfoldable pub resolve_session : Platform → ℕ → String → State → State × Option (Session × User)
unfolding touched live_session enabled_user
resolve_session p now token st =
    if chars token == 0 || ltb 128 (chars token)
    then (st, none)
    else elim (live_session p now token st) [
      | none ↦ (st, none)
      | some s ↦ elim (enabled_user (find_user st s.user_id)) [
        | none ↦ (st, none)
        | some u ↦ (
          record st { sessions = update_rows (λ r. r.id == s.id) (touched now) st.sessions },
          some (touched now s, u),
        )
      ]
    ]

unfoldable pub logout : Session → Option String → State → State
logout s ip st =
    record_audit
      (record {
        actor_user_id = some s.user_id;
        action = "auth.logout";
        target_id = none;
        details = no_details;
        ip = ip;
      })
      (record st { sessions = destroy (λ r. r.id == s.id) st.sessions })

-- Without a session to keep (none given, or an empty id) all of the user's sessions match.
pub ended : ℕ → Option String → Session → Bool
ended user_id none s = s.user_id == user_id
ended user_id (some keep) s = s.user_id == user_id && (chars keep == 0 || not (s.id == keep))

unfoldable pub end_sessions : ℕ → Option String → State → State
unfolding ended
end_sessions user_id keep st = record st { sessions = destroy (ended user_id keep) st.sessions }

unfoldable pub change_password :
    Platform → User → String → String → Option String → Option String → State → Outcome (Unit {0})
unfolding end_sessions
change_password p user current_password new_password ip keep_session_id st =
    if not (p.verify_password current_password user.password_hash)
    then (st, err (unauthorized "Current password is incorrect"))
    else (
      record_audit
          (record {
            actor_user_id = some user.id;
            action = "auth.password_changed";
            target_id = some user.id;
            details = no_details;
            ip = ip;
          })
          (end_sessions user.id keep_session_id (
            save_user user.id (λ u. record u { password_hash = p.hash_password new_password }) st)),
      ok tt,
    )

unfoldable pub purge_expired_sessions : ℕ → State → State × ℕ
purge_expired_sessions now st = (
  record st { sessions = destroy (λ s. ltb s.expires_at now) st.sessions },
  count (λ s. ltb s.expires_at now) st.sessions,
)
