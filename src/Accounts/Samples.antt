-- ===== src/Accounts/Samples.antt =====
-- A small server: two administrators, their sessions, a waiting sign-in, two codes, a reset link.
use gsm.Common.{ℕ, true, false, none, some, [], ◌∷◌, String, ◌==◌, string_eq, nat_eq, if◌then◌else◌}
use gsm.Enums.{Role}
use gsm.Text.{◌+++◌}
use gsm.Accounts.{User, Session, LoginChallenge, login, SessionMeta, Platform, State}

abbrev pub p : Platform
p = record {
  hash_password = λ w. "h:" +++ w;
  verify_password = λ w h. ("h:" +++ w) == h;
  session_key = λ t. "s:" +++ t;
  sha256_hex = λ x. x;
  open_seal = λ sealed context. some sealed;
  hotp = λ secret step. if step == 100 then "123456" else "000000";
}

abbrev pub ann : User
ann = record {
  id = 1;
  email = "ann@x.org";
  name = "Ann";
  password_hash = "h:old";
  role = Role.admin;
  disabled = false;
  two_factor_email = true;
  totp_secret = some "seed";
  totp_enabled_at = some 5;
  totp_last_step = none;
  last_login_at = none;
}

abbrev pub bob : User
bob = record {
  id = 2;
  email = "bob@x.org";
  name = "Bob";
  password_hash = "h:bob";
  role = Role.admin;
  disabled = false;
  two_factor_email = false;
  totp_secret = none;
  totp_enabled_at = none;
  totp_last_step = none;
  last_login_at = none;
}

abbrev pub nobody : SessionMeta
nobody = record { ip = none; user_agent = none }

abbrev pub empty : State
empty = record {
  users = [];
  sessions = [];
  challenges = [];
  codes = [];
  resets = [];
  audit = [];
  user_failures = record { hits = []; last_sweep = 0 };
  per_account = record { hits = []; last_sweep = 0 };
  told = [];
  next_user = 1;
  next_code = 1;
}

abbrev pub waiting : LoginChallenge
waiting = record {
  id = "c1";
  user_id = 1;
  purpose = login;
  code_hash = some "c1:424242";
  attempts = 0;
  sends = 1;
  last_sent_at = some 2900000;
  expires_at = 9000000;
  ip = none;
  user_agent = none;
}

abbrev pub cookie_of : String → ℕ → Session
cookie_of id user_id = record {
  id = id;
  user_id = user_id;
  expires_at = 90000000;
  ip = none;
  user_agent = none;
  last_seen_at = 2999999;
}

abbrev pub st : State
st = record empty {
  users = ann ∷ bob ∷ [];
  sessions = cookie_of "s:a" 1 ∷ cookie_of "s:b" 2 ∷ cookie_of "s:c" 1 ∷ [];
  challenges = waiting ∷ [];
  codes =
      record { id = 1; user_id = 1; code_hash = "recovery:1:abcdefghjkmn"; used_at = none }
      ∷ record { id = 2; user_id = 1; code_hash = "recovery:1:bbbbefghjkmn"; used_at = none }
      ∷ [];
  resets =
      record {
        token_hash = "password-reset:link";
        user_id = 1;
        expires_at = 4000000;
        ip = none;
        user_agent = none;
      }
      ∷ [];
  next_user = 3;
  next_code = 3;
}

-- Time step 100.
abbrev pub now : ℕ
now = 3000000
