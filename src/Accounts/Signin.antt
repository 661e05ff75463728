-- ===== src/Accounts/Signin.antt =====
-- server/src/modules/auth/two-factor.ts: opening a login challenge, sending its code again, and what
-- the browser is told of it.
use Prim.Native.Char.{code as char_code}
use gsm.Common.{
  ℕ, zero, suc, ◌+◌, ◌-◌, ◌/◌, max, Bool, true, false, not, ◌&&◌, Option, none, some, is_some, List,
  [], ◌∷◌, String, ◌==◌, nat_eq, string_eq, ltb, leb, if◌then◌else◌, Result, ok, err, http_error,
  bad_request, ◌>>◌, throw_if,
}
use gsm.Text.{chars, slice_to, ◌+++◌}
use gsm.Accounts.{
  User, Purpose, login, enable, LoginChallenge, TwoFactorMethod, method_eq, totp, email,
  SessionMeta, State, Outcome, Platform, two_factor_methods,
}
use gsm.Accounts.Challenges.{
  max_sends, resend_interval_ms, send_email_code, fresh_challenge, new_challenge, load,
  invalid_code,
}

-- `email.indexOf("@")`, `email.slice(0, at)` and `email.slice(at + 1)`.
split_at : String → Option (String × String)
split_at String.[] = none
split_at (String.◌∷◌ c s) =
    let rest = split_at s in
    if char_code c == b'@'
    then some ("", s)
    else elim rest [ none ↦ none | some (local, domain) ↦ some (String.◌∷◌ c local, domain) ]

stars : ℕ → String
stars zero = ""
stars (suc n) = String.◌∷◌ "*" (stars n)

unfoldable pub mask_email : String → String
unfolding split_at stars
mask_email address = elim (split_at address) [
  | none ↦ "***"
  | some (local, domain) ↦
      let shown = if leb (chars local) 2 then slice_to 1 local else slice_to 2 local in
      if chars local == 0
      then "***"
      else shown +++ stars (max 3 (chars local - chars shown)) +++ "@" +++ domain
]

-- `TwoFactorChallenge`: what the browser is told.
pub record ChallengeDto : Type 0 where
  pub challenge_id : String
  pub methods : List TwoFactorMethod
  pub sent_to : Option String
  pub email_error : Option String
  pub expires_in_seconds : ℕ

methods_for : Purpose → User → List TwoFactorMethod
methods_for login user = two_factor_methods user
methods_for enable user = email ∷ []

unfoldable pub to_dto : ℕ → LoginChallenge → User → Option String → ChallengeDto
unfolding methods_for
to_dto now c user email_error = record {
  challenge_id = c.id;
  methods = methods_for c.purpose user;
  sent_to = if is_some c.last_sent_at then some (mask_email user.email) else none;
  email_error = email_error;
  expires_in_seconds = (c.expires_at - now + 500) / 1000;
}

-- The challenge object after `sendEmailCode`.
unfoldable pub after_send : ℕ → Option String → LoginChallenge → LoginChallenge
after_send now none c = record c { sends = c.sends + 1; last_sent_at = some now }
after_send now (some problem) c = record c { sends = c.sends + 1 }

first_is_email : List TwoFactorMethod → Bool
first_is_email [] = false
first_is_email (totp ∷ rest) = false
first_is_email (email ∷ rest) = true

unfoldable pub start_login :
    Platform → ℕ → String → String → Bool → User → SessionMeta → State → State × ChallengeDto
unfolding after_send first_is_email
start_login p now id code mailed user meta st =
    let challenge = fresh_challenge now id user login meta in
    let opened = new_challenge challenge st in
    if first_is_email (two_factor_methods user)
    then (let (sent, problem) = send_email_code p now code mailed challenge user opened in
        (sent, to_dto now (after_send now problem challenge) user problem))
    else (opened, to_dto now challenge user none)

-- `since < RESEND_INTERVAL_MS`: never, if nothing was sent.
too_soon : ℕ → Option ℕ → Bool
too_soon now none = false
too_soon now (some sent) = ltb (now - sent) resend_interval_ms

is_login : Purpose → Bool
is_login login = true
is_login enable = false

-- The refusals of `resend`, in order.
resend_checks : ℕ → Purpose → LoginChallenge → User → Result (Unit {0})
resend_checks now purpose c user =
    throw_if (is_login purpose && not user.two_factor_email)
      (bad_request "Email codes are not turned on for this account")
    >> throw_if (leb max_sends c.sends) (bad_request "Code was sent too many times; start again")
    >> throw_if (too_soon now c.last_sent_at) (
        http_error 429 "too_many_requests"
          "Wait ${Math.ceil((RESEND_INTERVAL_MS - since) / 1000)}s before requesting another code")

-- The answer once the code went out, or the error.
sent_answer : ℕ → LoginChallenge → User → State × Option String → Outcome ChallengeDto
sent_answer now c user (st, some problem) =
    (st, err (http_error 503 "two_factor_unavailable" problem))
sent_answer now c user (st, none) = (st, ok (to_dto now (after_send now none c) user none))

unfoldable pub resend :
    Platform → ℕ → String → Bool → String → Purpose → State → Outcome ChallengeDto
unfolding resend_checks too_soon is_login sent_answer after_send
resend p now code mailed challenge_id purpose st = elim (load now challenge_id purpose st) [
  | none ↦ (st, err invalid_code)
  | some (challenge, user) ↦ elim (resend_checks now purpose challenge user) [
    | err problem ↦ (st, err problem)
    | ok done ↦ sent_answer now challenge user (send_email_code p now code mailed challenge user st)
  ]
]
