-- ===== src/Accounts/TwoFactor.antt =====
-- server/src/modules/auth/two-factor.ts: the factors themselves (an app's code, a mailed code, a
-- recovery code), and the check of one at sign-in.
pub mod Tries
pub mod Spent
use gsm.Common.{
  ℕ, ◌+◌, ◌-◌, ◌*◌, ◌/◌, Bool, true, false, not, ◌&&◌, ◌||◌, Option, none, some, is_some, List, [],
  ◌∷◌, ◌++◌, map, String, ◌==◌, nat_eq, string_eq, find?, destroy, count, update_rows, contains,
  ltb, leb, if◌then◌else◌, Result, ok, err, HttpError, http_error, bad_request, unauthorized, ◌>>=◌,
}
use gsm.Text.{chars, strip, six_digits, twelve_symbols, lower_case, decimal, ◌+++◌}
use gsm.Effects.{mail}
use gsm.RateLimit.{Limits, check, retry_after}
use gsm.Accounts.{
  User, Purpose, purpose_eq, login, enable, LoginChallenge, RecoveryCode, TwoFactorMethod,
  method_eq, totp, email, SecondFactor, one_of, recovery, SessionMeta, State, Outcome, Platform,
  AuditEntry, wrong_code, codes_left, two_factor_methods, find_user, save_user, record_audit, tell,
}
use gsm.Accounts.Sessions.{agent_of}
use gsm.Accounts.Totp.{match_step}
use gsm.Accounts.Challenges.{
  code_ttl_ms, max_attempts, max_sends, resend_interval_ms, failure_limits, code_hash,
  normalize_recovery_code, recovery_code_hash, guess_factor, save_challenge, drop_challenge,
  send_email_code, fresh_challenge, new_challenge, challenge_user, load, invalid_code, is_blocked,
  blocked_error, reject, email_code_matches,
}

unfoldable pub totp_secret : Platform → User → Option String
totp_secret p user = elim user.totp_secret [
  | none ↦ none
  | some sealed ↦ p.open_seal sealed ("totp:" +++ decimal user.id)
]

-- The rows that `claimStep` may write: the user's, if the step is newer than the last one used.
claims : ℕ → ℕ → User → Bool
claims user_id step u =
    u.id == user_id && elim u.totp_last_step [ none ↦ true | some last ↦ ltb last step ]

unfoldable pub claim_step : ℕ → ℕ → State → State × Bool
unfolding claims
claim_step user_id step st = (
  record st {
    users =
        update_rows (claims user_id step) (λ u. record u { totp_last_step = some step }) st.users;
  },
  count (claims user_id step) st.users == 1,
)

unfoldable pub totp_step : Platform → ℕ → User → String → Option ℕ
totp_step p now user code =
    if not (is_some user.totp_enabled_at) then none else elim (totp_secret p user) [
      | none ↦ none
      | some secret ↦ match_step p now secret (strip code)
    ]

unfoldable pub totp_matches : Platform → ℕ → User → String → State → State × Bool
unfolding totp_step
totp_matches p now user code st = elim (totp_step p now user code) [
  | none ↦ (st, false)
  | some step ↦ claim_step user.id step st
]

abbrev is_unused : ℕ → RecoveryCode → Bool
is_unused user_id r = r.user_id == user_id && not (is_some r.used_at)

unfoldable pub recovery_codes_remaining : State → ℕ → ℕ
recovery_codes_remaining st user_id = count (is_unused user_id) st.codes

-- Mark the row used, unless another request was first.
spend : ℕ → RecoveryCode → State → State × Bool
spend now row st = (
  record st {
    codes =
        update_rows (λ r. r.id == row.id && not (is_some r.used_at))
          (λ r. record r { used_at = some now }) st.codes;
  },
  count (λ r. r.id == row.id && not (is_some r.used_at)) st.codes == 1,
)

matching_code : Platform → ℕ → String → State → Option RecoveryCode
matching_code p user_id code st =
    if not (twelve_symbols (normalize_recovery_code code))
    then none
    else find?
        (λ r.
          r.user_id == user_id
          && (r.code_hash == recovery_code_hash p user_id code && not (is_some r.used_at)))
        st.codes

unfoldable pub use_recovery_code :
    Platform → ℕ → User → String → Option String → State → State × Bool
unfolding spend matching_code
use_recovery_code p now user code ip st = elim (matching_code p user.id code st) [
  | none ↦ (st, false)
  | some row ↦
      let (spent, won) = spend now row st in
      if won
      then (
        record_audit
            (record {
              actor_user_id = some user.id;
              action = "auth.recovery_code_used";
              target_id = some user.id;
              details = codes_left (recovery_codes_remaining spent user.id);
              ip = ip;
            })
            spent,
        true,
      )
      else (spent, false)
]

-- Whether the code is right for the factor; a right one is used up.
factor_matches :
    Platform
    → ℕ
    → SecondFactor
    → LoginChallenge
    → User
    → String
    → Option String
    → State
    → State × Bool
factor_matches p now (one_of totp) challenge user code ip st = totp_matches p now user code st
factor_matches p now (one_of email) challenge user code ip st =
    (st, user.two_factor_email && email_code_matches p challenge code)
factor_matches p now recovery challenge user code ip st = use_recovery_code p now user code ip st

factor_of : Option SecondFactor → User → String → SecondFactor
factor_of none user code = guess_factor (two_factor_methods user) code
factor_of (some method) user code = method

-- The challenge is gone when the factor was right; a wrong one is counted.
settle :
    ℕ
    → LoginChallenge
    → User
    → SecondFactor
    → Option String
    → State × Bool
    → Outcome (User × SecondFactor)
settle now challenge user factor ip (st, true) = (drop_challenge challenge.id st, ok (user, factor))
settle now challenge user factor ip (st, false) =
    let (after, problem) = reject now challenge user factor ip st in (after, err problem)

unfoldable pub verify_login :
    Platform
    → ℕ
    → String
    → String
    → Option SecondFactor
    → Option String
    → State
    → Outcome (User × SecondFactor)
unfolding factor_matches factor_of settle
verify_login p now challenge_id code method ip st = elim (load now challenge_id login st) [
  | none ↦ (st, err invalid_code)
  | some (challenge, user) ↦
      if is_blocked now user st
      then (st, err blocked_error)
      else let factor = factor_of method user code in
        settle now challenge user factor ip (factor_matches p now factor challenge user code ip st)
]
