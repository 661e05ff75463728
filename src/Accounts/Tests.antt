-- ===== src/Accounts/Tests.antt =====
-- The accounts at work on the small server of Accounts.Samples.
use gsm.Common.{
  ℕ, ◌+◌, ◌-◌, ◌≤◌, ◌≡◌, ◌≢◌, ◌⊎◌, refl, true, false, ◌&&◌, ◌||◌, Option, none, some, is_some, List,
  [], ◌∷◌, String, ◌==◌, string_eq, nat_eq, count, ok, err, conflict, lookup, insert, delete, arith,
}
use gsm.Enums.{Role}
use gsm.Text.{
  ◌+++◌, strip, lower_case, decimal, six_digits, twelve_symbols, slice_to, chars, every, is_digit,
}
use gsm.Accounts.{User, Session, one_of, email, login, State, find_user}
use gsm.Accounts.Sessions.{
  setup, setup_required, authenticate, create_session, complete_login, resolve_session, logout,
  end_sessions, change_password,
}
use gsm.Accounts.Sessions.Ends.{change_password-resolve_session, resolve_session-create_session}
use gsm.Accounts.Totp.{step_at, match_step}
use gsm.Accounts.Totp.Window.{match_step-hotp}
use gsm.Accounts.Challenges.{
  code_hash, normalize_recovery_code, recovery_code_hash, guess_factor, send_email_code,
  fresh_challenge, new_challenge, load, is_blocked, reject, email_code_matches, max_attempts,
}
use gsm.Accounts.TwoFactor.{
  totp_secret, totp_step, claim_step, totp_matches, recovery_codes_remaining, use_recovery_code,
  verify_login,
}
use gsm.Accounts.TwoFactor.Tries.{Try, tested, tested_at_most}
use gsm.Accounts.TwoFactor.Spent.{totp_matches-once, use_recovery_code-once, usable}
use gsm.Accounts.Signin.{mask_email, to_dto, start_login, resend}
use gsm.Accounts.Manage.{disable, admin_reset, confirm_totp, start_totp}
use gsm.RateLimit.{check, sweep, retry_after, reset}
use gsm.Accounts.Users.{destroy_user, update, remove, admin_count}
use gsm.Accounts.Users.Governed.{IsGoverned}
use gsm.Accounts.Users.Admins.{
  UserCall, update_user, remove_user, run_calls, run_calls-IsGoverned, run_calls-setup,
}
use gsm.Accounts.Resets.{token_hash, issue, request_reset, reset_password, invalid_token}
use gsm.Accounts.Resets.Once.{
  reset_password-once, reset_password-resolve_session, reset_password-load,
  request_reset-reset_password,
}
use gsm.Accounts.Tokens.{ApiToken, Tokens, is_active, create_token, revoke_token, resolve_api_token}
use gsm.Accounts.Tokens.Laws.{revoke_token-resolve_api_token}
use gsm.Accounts.Tokens.Limit.{
  TokenCall, creates, revokes, resolves, run_calls as run_token_calls, run_calls-is_active,
}
use gsm.Accounts.Samples.{p, ann, bob, nobody, empty, waiting, cookie_of, st, now}

run : Unit {0}
unfolding strip lower_case decimal six_digits twelve_symbols slice_to chars every is_digit setup
    setup_required authenticate create_session complete_login resolve_session logout end_sessions
    change_password step_at match_step code_hash normalize_recovery_code recovery_code_hash
    guess_factor send_email_code fresh_challenge new_challenge load is_blocked reject
    email_code_matches totp_secret claim_step totp_matches recovery_codes_remaining
    use_recovery_code verify_login mask_email to_dto start_login resend disable admin_reset
    confirm_totp start_totp update remove destroy_user check sweep retry_after reset issue
    request_reset reset_password token_hash lookup insert delete
run = tt

-- An app's code signs in once; then the challenge is gone, and the code is no good for another one.
signed_in_run :
    let (after, answer) = verify_login p now "c1" "123 456" none none st in
    (after.challenges ≡ [])
    × ((verify_login p now "c1" "123456" none none
          (record after { challenges = waiting ∷ [] })).0.challenges
        ≡ record waiting { attempts = 1 } ∷ [])
unfolding run
signed_in_run = (refl, refl)

by_mail_run : (verify_login p now "c1" "424242" (some (one_of email)) none st).0.challenges ≡ []
unfolding run
by_mail_run = refl

mask_run :
    (mask_email "ann@x.org" ≡ "an***@x.org")
    × (mask_email "ab@x.org" ≡ "a***@x.org")
    × (mask_email "@x" ≡ "***")
unfolding run
mask_run = (refl, refl, refl)

abbrev tries : List Try
tries = record { now = now; code = "999999"; method = none; ip = none } ∷ []

tested_at_most_example : tested p "c1" tries st ≤ max_attempts
tested_at_most_example = tested_at_most p "c1" tries st

match_step-hotp_example : is_some (match_step p now "seed" "123456") ≡ (
    six_digits "123456"
    && (p.hotp "seed" (step_at now - 1) == "123456"
        || (p.hotp "seed" (step_at now) == "123456"
            || p.hotp "seed" (step_at now + 1) == "123456")))
match_step-hotp_example = match_step-hotp p now "seed" "123456" (unfold step_at in omega arith)

totp_matches-once_example :
    (totp_matches p (now + 1) ann "123456" (totp_matches p now ann "123456" st).0).1 ≡ false
totp_matches-once_example =
    totp_matches-once p now (now + 1) ann ann "123456" "123456" 100 100 st
      (totp_matches p now ann "123456" st).0 (unfold run totp_step in refl) (unfold run in refl)
      (unfold run totp_step in refl) refl (omega arith)

use_recovery_code-once_example :
    let after = (use_recovery_code p now ann "ABCD-EFGH-JKMN" none st).0 in
    (usable p 1 "ABCD-EFGH-JKMN" after + 1 ≡ usable p 1 "ABCD-EFGH-JKMN" st)
    × (recovery_codes_remaining after 1 + 1 ≡ recovery_codes_remaining st 1)
use_recovery_code-once_example =
    use_recovery_code-once p now ann "ABCD-EFGH-JKMN" none st
      (use_recovery_code p now ann "ABCD-EFGH-JKMN" none st).0 (unfold run in refl)

change_password-resolve_session_example :
    (ann.id ≢ ann.id) ⊎ (◌≡◌ {A = Option String} (some "s:a") (some "s:a"))
change_password-resolve_session_example =
    change_password-resolve_session p now "a" ann "old" "new" none (some "s:a") st
      (change_password p ann "old" "new" none (some "s:a") st).0 {s = cookie_of "s:a" 1}
      {u = record ann { password_hash = "h:new" }} (unfold run in refl) (unfold run in refl)

resolve_session-create_session_example :
    (s : Session) × ((resolve_session p
        (now + 1)
        "new"
        (create_session p now "new" bob nobody st)).1
      ≡ some (s, bob))
    × (s.id ≡ p.session_key "new")
    × (s.user_id ≡ bob.id)
resolve_session-create_session_example =
    resolve_session-create_session p now (now + 1) "new" bob nobody st (unfold run in refl) refl
      refl refl (omega arith)

abbrev after_reset : State
after_reset = (reset_password p now "link" "new" none st).0

abbrev ann' : User
ann' = record ann { password_hash = "h:new" }

reset_password-once_example :
    reset_password p (now + 5) "link" "again" none after_reset ≡ (after_reset, err invalid_token)
reset_password-once_example =
    reset_password-once p now (now + 5) "link" "new" "again" none st after_reset ann'
      (unfold run in refl)

reset_password-resolve_session_example : bob.id ≢ ann'.id
reset_password-resolve_session_example =
    reset_password-resolve_session p now now "link" "new" "b" none st after_reset ann'
      {s = cookie_of "s:b" 2} {u = bob} (unfold run in refl) (unfold run in refl)

abbrev with_bob : State
with_bob = record st { challenges = record waiting { id = "c2"; user_id = 2 } ∷ waiting ∷ [] }

reset_password-load_example : bob.id ≢ ann'.id
reset_password-load_example =
    reset_password-load p now now "link" "new" "c2" login none with_bob
      (reset_password p now "link" "new" none with_bob).0 ann'
      {c = record waiting { id = "c2"; user_id = 2 }} {u = bob} (unfold run in refl)
      (unfold run in refl)

request_reset-reset_password_example :
    let done =
      reset_password p
        (now + 9)
        "tok"
        "new"
        none
        (request_reset p now true "tok" true "Ann@x.org" nobody st).0 in
    (done.1 ≡ ok (record ann { password_hash = p.hash_password "new" }))
    × (find_user done.0 ann.id ≡ some (record ann { password_hash = p.hash_password "new" }))
request_reset-reset_password_example =
    request_reset-reset_password p now (now + 9) "tok" "Ann@x.org" "new" true nobody none st ann
      (unfold run in refl) refl refl (unfold run in refl) (unfold run in refl) (omega arith)

-- The last administrator cannot be removed or demoted, whoever asks.
abbrev calls : List UserCall
calls =
    remove_user 2 1
    ∷ update_user 1
        (record { name = none; role = some Role.user; disabled = none; two_factor_off = false }) 2
    ∷ remove_user 1 2
    ∷ []

governed_run : admin_count (run_calls p calls st) ≡ 1
unfolding run
governed_run = refl

st-IsGoverned : IsGoverned st
st-IsGoverned = record {
  keyed = record {
    unique = ((omega arith, tt), (tt, tt));
    below = (omega arith, (omega arith, tt));
  };
  governed = omega arith;
}

run_calls-IsGoverned_example : IsGoverned (run_calls p calls st)
run_calls-IsGoverned_example = run_calls-IsGoverned p calls st st-IsGoverned

run_calls-setup_example :
    let after = run_calls p calls (setup p 1 "A@x.org" "A" "pw" none empty).0 in
    (1 ≤ admin_count after)
    × (setup p 2 "B@x.org" "B" "other" (some "::1") after
        ≡ (after, err (conflict "Setup has already been completed")))
run_calls-setup_example =
    run_calls-setup p 1 2 "A@x.org" "A" "pw" none calls empty "B@x.org" "B" "other" (some "::1")
      refl

abbrev no_tokens : Tokens
no_tokens = record { rows = []; next_id = 1 }

abbrev key : String → ℕ → ApiToken
key random id = record {
  id = id;
  user_id = 1;
  name = "ci";
  token_hash = "gsm_api_" +++ random;
  token_prefix = "gsm_api_" +++ random;
  expires_at = none;
  last_used_at = none;
  revoked_at = none;
}

abbrev one_token : Tokens
one_token = record { rows = key "abc" 1 ∷ []; next_id = 2 }

abbrev token_calls : List TokenCall
token_calls =
    creates now 1 "ci" none "abc"
    ∷ resolves now "gsm_api_abc"
    ∷ revokes now 1 1
    ∷ creates now 1 "cd" none "def"
    ∷ []

tokens_run : count (is_active 1) (run_token_calls (λ x. x) token_calls no_tokens).rows ≡ 1
unfolding run create_token revoke_token resolve_api_token run_token_calls
tokens_run = refl

run_calls-is_active_example :
    count (is_active 1) (run_token_calls (λ x. x) token_calls no_tokens).rows ≤ 20
run_calls-is_active_example = run_calls-is_active (λ x. x) token_calls no_tokens 1 (omega arith)

abbrev two_tokens : Tokens
two_tokens = record { rows = key "abc" 1 ∷ key "def" 2 ∷ []; next_id = 3 }

abbrev revoked : Tokens
revoked = record two_tokens {
  rows = record (key "abc" 1) { revoked_at = some now } ∷ key "def" 2 ∷ [];
}

revoke_token-resolve_api_token_example : (key "def" 2).id ≢ (key "abc" 1).id
revoke_token-resolve_api_token_example =
    revoke_token-resolve_api_token (λ x. x) now now 1 1 "gsm_api_def" two_tokens revoked
      (record (key "def" 2) { last_used_at = some now }) (unfold revoke_token in refl)
      (unfold resolve_api_token in refl)
