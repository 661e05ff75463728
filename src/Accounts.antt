-- ===== src/Accounts.antt =====
-- Accounts: the tables of server/src/modules/users/models.ts and server/src/modules/auth/models.ts,
-- as one state that the services of the child modules read and change.
pub mod Sessions
pub mod Totp
pub mod Challenges
pub mod TwoFactor
pub mod Signin
pub mod Manage
pub mod Users
pub mod Resets
pub mod Tokens
pub mod Keyed
mod Samples
mod Tests
use gsm.Common.{
  ℕ, ◌+◌, ◌≡◌, ◌↔◌, Bool, true, false, not, Option, none, some, List, [], ◌∷◌, ◌++◌, String, ◌==◌,
  nat_eq, Eq, arith, find?, update_rows, is_some, if◌then◌else◌, Result, ok, err, HttpError,
  not_found, length, ltb,
}
use gsm.Enums.{Role, is_admin}
use gsm.Effects.{Effect}
use gsm.RateLimit.{Limiter}

-- shared/src/enums.ts.
pub data TwoFactorMethod : Type 0 where
  totp email : TwoFactorMethod

pub data SecondFactor : Type 0 where
  one_of : TwoFactorMethod → SecondFactor
  recovery : SecondFactor

abbrev pub method_beq : TwoFactorMethod → TwoFactorMethod → Bool
method_beq totp totp = true
method_beq email email = true
method_beq _ _ = false

pub method_beq_iff : (a b : TwoFactorMethod) → (method_beq a b ≡ true) ↔ (a ≡ b)
method_beq_iff a b = ground arith

instance abbrev pub method_eq : Eq TwoFactorMethod
method_eq = record { test = method_beq; test_iff = method_beq_iff }

pub record User : Type 0 where
  pub id : ℕ
  pub email : String
  pub name : String
  pub password_hash : String
  pub role : Role
  pub disabled : Bool
  pub two_factor_email : Bool
  pub totp_secret : Option String
  pub totp_enabled_at : Option ℕ
  pub totp_last_step : Option ℕ
  pub last_login_at : Option ℕ

-- The second factors that are on.
abbrev pub two_factor_methods : User → List TwoFactorMethod
two_factor_methods u =
    (if is_some u.totp_enabled_at then totp ∷ [] else [])
    ++ (if u.two_factor_email then email ∷ [] else [])

abbrev pub has_two_factor : User → Bool
has_two_factor u = ltb 0 (length (two_factor_methods u))

-- A session's `id` is the keyed hash of its cookie.
pub record Session : Type 0 where
  pub id : String
  pub user_id : ℕ
  pub expires_at : ℕ
  pub ip : Option String
  pub user_agent : Option String
  pub last_seen_at : ℕ

pub data Purpose : Type 0 where
  login enable : Purpose

abbrev pub purpose_beq : Purpose → Purpose → Bool
purpose_beq login login = true
purpose_beq enable enable = true
purpose_beq _ _ = false

pub purpose_beq_iff : (a b : Purpose) → (purpose_beq a b ≡ true) ↔ (a ≡ b)
purpose_beq_iff a b = ground arith

instance abbrev pub purpose_eq : Eq Purpose
purpose_eq = record { test = purpose_beq; test_iff = purpose_beq_iff }

pub record LoginChallenge : Type 0 where
  pub id : String
  pub user_id : ℕ
  pub purpose : Purpose
  pub code_hash : Option String
  pub attempts : ℕ
  pub sends : ℕ
  pub last_sent_at : Option ℕ
  pub expires_at : ℕ
  pub ip : Option String
  pub user_agent : Option String

pub record RecoveryCode : Type 0 where
  pub id : ℕ
  pub user_id : ℕ
  pub code_hash : String
  pub used_at : Option ℕ

pub record PasswordReset : Type 0 where
  pub token_hash : String
  pub user_id : ℕ
  pub expires_at : ℕ
  pub ip : Option String
  pub user_agent : Option String

-- What an audit entry adds to its action: the `details` of the source's calls.
pub data Details : Type 0 where
  no_details : Details
  login_email : String → Details
  signed_in_with : Option SecondFactor → Details
  wrong_code : Purpose → SecondFactor → ℕ → Bool → Details
  codes_left : ℕ → Details
  factor : TwoFactorMethod → Details

pub record AuditEntry : Type 0 where
  pub actor_user_id : Option ℕ
  pub action : String
  pub target_id : Option ℕ
  pub details : Details
  pub ip : Option String

-- The tables, the limiters that two services keep in memory, and what was told to others so far.
pub record State : Type 0 where
  pub users : List User
  pub sessions : List Session
  pub challenges : List LoginChallenge
  pub codes : List RecoveryCode
  pub resets : List PasswordReset
  pub audit : List AuditEntry
  pub user_failures : Limiter
  pub per_account : Limiter
  pub told : List Effect
  pub next_user : ℕ
  pub next_code : ℕ

-- An operation changes the state whether it returns or throws.
abbrev pub Outcome {ℓ} : Type ℓ → Type ℓ
Outcome A = State × Result A

-- Who asks, as far as the request tells.
pub record SessionMeta : Type 0 where
  pub ip : Option String
  pub user_agent : Option String

-- The code that is not the server's own: argon2, HMAC, SHA-256, the seal of lib/secret-box.ts, and
-- the one-time password of an authenticator app's seed at a time step.
pub record Platform : Type 0 where
  pub hash_password : String → String
  pub verify_password : String → String → Bool
  pub session_key : String → String
  pub sha256_hex : String → String
  pub open_seal : String → String → Option String
  pub hotp : String → ℕ → String

abbrev pub find_user : State → ℕ → Option User
find_user st id = find? (λ u. u.id == id) st.users

-- `user.save()` after changes to some columns: they are written to the row with the user's id.
abbrev pub save_user : ℕ → (User → User) → State → State
save_user id change st = record st { users = update_rows (λ u. u.id == id) change st.users }

-- modules/audit/service.ts, `record`: a failure to write is only logged.
abbrev pub record_audit : AuditEntry → State → State
record_audit entry st = record st { audit = st.audit ++ entry ∷ [] }

abbrev pub tell : List Effect → State → State
tell effects st = record st { told = st.told ++ effects }
