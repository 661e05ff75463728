-- ===== src/Accounts/Challenges.antt =====
-- server/src/modules/auth/two-factor.ts: the challenges of a second factor, their codes and their
-- limits. An operation reads the clock once; fresh codes, and whether a mail went out, are arguments.
pub mod Loads
use gsm.Common.{
  ℕ, ◌+◌, ◌-◌, ◌*◌, ◌/◌, Bool, true, false, not, ◌&&◌, ◌||◌, Option, none, some, is_some, List, [],
  ◌∷◌, ◌++◌, map, String, ◌==◌, nat_eq, string_eq, find?, destroy, count, update_rows, contains,
  ltb, leb, if◌then◌else◌, Result, ok, err, HttpError, http_error, bad_request, unauthorized, ◌>>=◌,
}
use gsm.Text.{chars, strip, six_digits, twelve_symbols, lower_case, decimal, ◌+++◌}
use gsm.Effects.{mail}
use gsm.RateLimit.{Limits, check, retry_after}
use gsm.Accounts.{
  User, Purpose, purpose_eq, login, enable, LoginChallenge, RecoveryCode, TwoFactorMethod,
  method_eq, totp, email, SecondFactor, one_of, recovery, SessionMeta, State, Outcome, Platform,
  AuditEntry, wrong_code, codes_left, two_factor_methods, find_user, save_user, record_audit, tell,
}
use gsm.Accounts.Sessions.{agent_of}
use gsm.Accounts.Totp.{match_step}

abbrev pub code_ttl_ms : ℕ
code_ttl_ms = 10 * 60 * 1000

abbrev pub max_attempts : ℕ
max_attempts = 5

abbrev pub max_sends : ℕ
max_sends = 3

abbrev pub resend_interval_ms : ℕ
resend_interval_ms = 30000

-- `userFailures`: ten wrong codes of a user in an hour.
abbrev pub failure_limits : Limits
failure_limits = record { window_ms = 60 * 60 * 1000; most = 10 }

unfoldable pub code_hash : Platform → String → String → String
code_hash p challenge_id code = p.sha256_hex (challenge_id +++ ":" +++ code)

unfoldable pub normalize_recovery_code : String → String
normalize_recovery_code input = strip (lower_case input)

unfoldable pub recovery_code_hash : Platform → ℕ → String → String
unfolding normalize_recovery_code
recovery_code_hash p user_id code =
    p.sha256_hex ("recovery:" +++ decimal user_id +++ ":" +++ normalize_recovery_code code)

unfoldable pub guess_factor : List TwoFactorMethod → String → SecondFactor
guess_factor methods code =
    if not (six_digits (strip code))
    then recovery
    else if contains totp methods
    then one_of totp
    else one_of email

abbrev pub save_challenge : String → (LoginChallenge → LoginChallenge) → State → State
save_challenge id change st = record st {
  challenges = update_rows (λ c. c.id == id) change st.challenges;
}

abbrev pub drop_challenge : String → State → State
drop_challenge id st = record st { challenges = destroy (λ c. c.id == id) st.challenges }

-- Put a fresh code on the challenge and send it: the message of a failure to send, if there is one.
unfoldable pub send_email_code :
    Platform → ℕ → String → Bool → LoginChallenge → User → State → State × Option String
send_email_code p now code mailed challenge user st =
    let saved =
      save_challenge challenge.id
        (λ c. record c {
          code_hash = some (code_hash p challenge.id code);
          sends = challenge.sends + 1;
        })
        st in
    if mailed
    then (
      tell (mail user.email code ∷ [])
          (save_challenge challenge.id (λ c. record c { last_sent_at = some now }) saved),
      none,
    )
    else (
      saved,
      some
          "Could not send the verification email. Check the SMTP settings or ask an administrator.",
    )

-- `newChallenge`: it takes the place of a pending one of the same purpose.
unfoldable pub fresh_challenge : ℕ → String → User → Purpose → SessionMeta → LoginChallenge
fresh_challenge now id user purpose meta = record {
  id = id;
  user_id = user.id;
  purpose = purpose;
  code_hash = none;
  attempts = 0;
  sends = 0;
  last_sent_at = none;
  expires_at = now + code_ttl_ms;
  ip = meta.ip;
  user_agent = agent_of meta;
}

unfoldable pub new_challenge : LoginChallenge → State → State
new_challenge c st = record st {
  challenges =
      destroy (λ d. d.user_id == c.user_id && d.purpose == c.purpose) st.challenges ++ c ∷ [];
}

pub challenge_user : Option LoginChallenge → State → Option (LoginChallenge × User)
challenge_user none st = none
challenge_user (some c) st = elim (find_user st c.user_id) [
  | none ↦ none
  | some u ↦ if u.disabled then none else some (c, u)
]

unfoldable pub load : ℕ → String → Purpose → State → Option (LoginChallenge × User)
unfolding challenge_user
load now challenge_id purpose st =
    if chars challenge_id == 0 || ltb 64 (chars challenge_id)
    then none
    else challenge_user
        (find? (λ c. c.id == challenge_id && (c.purpose == purpose && ltb now c.expires_at))
          st.challenges)
        st

abbrev pub invalid_code : HttpError
invalid_code = unauthorized "Invalid or expired code"

-- `assertNotBlocked`, as a test.
unfoldable pub is_blocked : ℕ → User → State → Bool
is_blocked now user st = ltb 0 (retry_after failure_limits now (decimal user.id) st.user_failures)

abbrev pub blocked_error : HttpError
blocked_error =
    http_error 429 "too_many_requests"
      "Too many wrong codes; try again in ${Math.ceil(wait / 60)} min"

-- Count a wrong code against the challenge and the user, and throw.
unfoldable pub reject :
    ℕ → LoginChallenge → User → SecondFactor → Option String → State → State × HttpError
reject now challenge user method ip st =
    let attempts = challenge.attempts + 1 in
    let exhausted = leb max_attempts attempts in
    let counted =
      if exhausted
      then drop_challenge challenge.id st
      else save_challenge challenge.id (λ c. record c { attempts = attempts }) st in
    (
      record_audit
          (record {
            actor_user_id = none;
            action = "auth.2fa_failed";
            target_id = some user.id;
            details = wrong_code challenge.purpose method attempts exhausted;
            ip = ip;
          })
          (record counted {
            user_failures =
                (check failure_limits now now (decimal user.id) counted.user_failures).0;
          }),
      if exhausted then unauthorized "Too many wrong codes; start again" else invalid_code,
    )

unfoldable pub email_code_matches : Platform → LoginChallenge → String → Bool
email_code_matches p challenge code = elim challenge.code_hash [
  | none ↦ false
  | some hash ↦ hash == code_hash p challenge.id (strip code)
]
