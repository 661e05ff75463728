-- ===== src/Accounts/Manage.antt =====
-- server/src/modules/auth/two-factor.ts: turning factors on and off for the signed-in user, and the
-- administrator's reset. The fresh ids, codes and seeds that an operation draws are arguments.
use gsm.Common.{
  ℕ, ◌+◌, Bool, true, false, not, Option, none, some, is_some, List, [], ◌∷◌, ◌++◌, String, ◌==◌,
  nat_eq, string_eq, destroy, count, contains, ltb, if◌then◌else◌, Result, ok, err, http_error,
  bad_request, unauthorized, throw_if,
}
use gsm.Text.{strip, decimal}
use gsm.RateLimit.{reset}
use gsm.Accounts.{
  User, enable, LoginChallenge, RecoveryCode, TwoFactorMethod, method_eq, totp, email, one_of,
  SessionMeta, State, Outcome, Platform, no_details, factor, two_factor_methods, has_two_factor,
  save_user, record_audit,
}
use gsm.Accounts.Sessions.{end_sessions}
use gsm.Accounts.Totp.{match_step}
use gsm.Accounts.Challenges.{
  recovery_code_hash, drop_challenge, send_email_code, fresh_challenge, new_challenge, load,
  invalid_code, is_blocked, blocked_error, reject, email_code_matches,
}
use gsm.Accounts.TwoFactor.{totp_secret, recovery_codes_remaining}
use gsm.Accounts.Signin.{ChallengeDto, to_dto, after_send}

audit_change : User → String → TwoFactorMethod → Option String → State → State
audit_change user action method ip st =
    record_audit
      (record {
        actor_user_id = some user.id;
        action = action;
        target_id = some user.id;
        details = factor method;
        ip = ip;
      })
      st

code_rows : Platform → ℕ → ℕ → List String → List RecoveryCode
code_rows p user_id id [] = []
code_rows p user_id id (c ∷ codes) =
    record {
      id = id;
      user_id = user_id;
      code_hash = recovery_code_hash p user_id c;
      used_at = none;
    }
    ∷ code_rows p user_id (id + 1) codes

-- The user's codes are replaced; `codes` are the ten that were drawn.
unfoldable pub issue_recovery_codes : Platform → User → List String → State → State × List String
unfolding code_rows
issue_recovery_codes p user codes st = (
  record st {
    codes = destroy (λ r. r.user_id == user.id) st.codes ++ code_rows p user.id st.next_code codes;
    next_code = st.next_code + count (λ c. true) codes;
  },
  codes,
)

unfoldable pub recovery_codes_if_none :
    Platform → User → List String → State → State × Option (List String)
recovery_codes_if_none p user codes st =
    if ltb 0 (recovery_codes_remaining st user.id)
    then (st, none)
    else let (after, fresh) = issue_recovery_codes p user codes st in (after, some fresh)

require_password : Platform → User → String → Result (Unit {0})
require_password p user password =
    throw_if (not (p.verify_password password user.password_hash))
      (unauthorized "Password is incorrect")

-- Where the mail fails the challenge is dropped again.
dropped_answer : ℕ → LoginChallenge → User → State × Option String → Outcome ChallengeDto
dropped_answer now c user (st, some problem) =
    (drop_challenge c.id st, err (http_error 503 "two_factor_unavailable" problem))
dropped_answer now c user (st, none) = (st, ok (to_dto now (after_send now none c) user none))

unfoldable pub start_email :
    Platform → ℕ → Bool → String → String → Bool → User → SessionMeta → State → Outcome ChallengeDto
unfolding dropped_answer after_send
start_email p now smtp id code mailed user meta st =
    let challenge = fresh_challenge now id user enable meta in
    if user.two_factor_email
    then (st, err (bad_request "Email codes are already turned on"))
    else if not smtp
    then (st, err (bad_request "Email codes need SMTP to be configured (Settings → General)"))
    else dropped_answer now challenge user
        (send_email_code p now code mailed challenge user (new_challenge challenge st))

unfoldable pub confirm_email :
    Platform
    → ℕ
    → User
    → String
    → String
    → List String
    → Option String
    → State
    → Outcome (Option (List String))
unfolding audit_change
confirm_email p now user challenge_id code fresh ip st = elim (load now challenge_id enable st) [
  | none ↦ (st, err invalid_code)
  | some (challenge, owner) ↦
      if not (challenge.user_id == user.id)
      then (st, err invalid_code)
      else if is_blocked now user st
      then (st, err blocked_error)
      else if not (email_code_matches p challenge code)
      then (let (after, problem) = reject now challenge user (one_of email) ip st in
          (after, err problem))
      else let on = audit_change user "auth.2fa_enabled" email ip (
          save_user user.id (λ u. record u { two_factor_email = true })
            (drop_challenge challenge.id st)) in
        let (after, codes) = recovery_codes_if_none p user fresh on in (after, ok codes)
]

-- The new seed comes sealed; it is not active until it is confirmed.
unfoldable pub start_totp : Platform → String → User → String → State → Outcome (Unit {0})
unfolding require_password
start_totp p sealed user password st = elim (require_password p user password) [
  | err problem ↦ (st, err problem)
  | ok done ↦
      if is_some user.totp_enabled_at
      then (st, err (bad_request "An authenticator app is already set up; remove it first"))
      else (
        save_user user.id (λ u. record u { totp_secret = some sealed; totp_last_step = none }) st,
        ok tt,
      )
]

unfoldable pub confirm_totp :
    Platform
    → ℕ
    → User
    → String
    → List String
    → Option String
    → State
    → Outcome (Option (List String))
unfolding audit_change
confirm_totp p now user code fresh ip st =
    if is_some user.totp_enabled_at
    then (st, err (bad_request "An authenticator app is already set up"))
    else elim (totp_secret p user) [
      | none ↦ (st, err (bad_request "Start the authenticator setup again"))
      | some secret ↦ elim (match_step p now secret (strip code)) [
        | none ↦ (
          st,
          err (
              unauthorized
                "That code doesn't match. Make sure your phone sets its clock automatically, then enter the newest code."),
        )
        | some step ↦
            let on = audit_change user "auth.2fa_enabled" totp ip (
              save_user user.id
                (λ u. record u { totp_enabled_at = some now; totp_last_step = some step }) st) in
            let (after, codes) = recovery_codes_if_none p user fresh on in (after, ok codes)
      ]
    ]

-- The user object without the factor.
without : TwoFactorMethod → User → User
without totp u = record u { totp_secret = none; totp_enabled_at = none; totp_last_step = none }
without email u = record u { two_factor_email = false }

abbrev pub drop_challenges : ℕ → State → State
drop_challenges user_id st = record st {
  challenges = destroy (λ c. c.user_id == user_id) st.challenges;
}

abbrev pub drop_codes : ℕ → State → State
drop_codes user_id st = record st { codes = destroy (λ r. r.user_id == user_id) st.codes }

unfoldable pub disable :
    Platform → User → TwoFactorMethod → String → Option String → State → Outcome (Unit {0})
unfolding require_password without audit_change
disable p user method password ip st = elim (require_password p user password) [
  | err problem ↦ (st, err problem)
  | ok done ↦
      let off = drop_challenges user.id (save_user user.id (without method) st) in
      if not (contains method (two_factor_methods user)) then (st, ok tt) else (
        audit_change user "auth.2fa_disabled" method ip
            (if has_two_factor (without method user) then off else drop_codes user.id off),
        ok tt,
      )
]

unfoldable pub regenerate_recovery_codes :
    Platform → User → String → List String → Option String → State → Outcome (List String)
unfolding require_password
regenerate_recovery_codes p user password fresh ip st = elim (require_password p user password) [
  | err problem ↦ (st, err problem)
  | ok done ↦
      let (after, codes) = issue_recovery_codes p user fresh st in
      if not (has_two_factor user)
      then (st, err (bad_request "Turn on a second factor first"))
      else (
        record_audit
            (record {
              actor_user_id = some user.id;
              action = "auth.recovery_codes_generated";
              target_id = some user.id;
              details = no_details;
              ip = ip;
            })
            after,
        ok codes,
      )
]

-- Every factor and code off, and signed out everywhere.
unfoldable pub admin_reset : User → State → State
admin_reset user st =
    let off = end_sessions user.id none (
      drop_codes user.id (
        drop_challenges user.id (
          save_user user.id
            (λ u. record u {
              two_factor_email = false;
              totp_secret = none;
              totp_enabled_at = none;
              totp_last_step = none;
            })
            st))) in
    record off { user_failures = reset (decimal user.id) off.user_failures }

unfoldable pub purge_expired_challenges : ℕ → State → State × ℕ
purge_expired_challenges now st = (
  record st { challenges = destroy (λ c. ltb c.expires_at now) st.challenges },
  count (λ c. ltb c.expires_at now) st.challenges,
)
