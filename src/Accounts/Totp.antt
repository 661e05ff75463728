-- ===== src/Accounts/Totp.antt =====
-- server/src/modules/auth/totp.ts: which time step an authenticator app's code is of. The clock is
-- past the first step of 1970, so the step before the current one is a number.
pub mod Window
use gsm.Common.{
  ℕ, zero, suc, ◌+◌, ◌-◌, ◌*◌, ◌/◌, Bool, true, false, not, ◌&&◌, Option, none, some, is_some,
  String, ◌==◌, string_eq, if◌then◌else◌,
}
use gsm.Text.{six_digits}
use gsm.Accounts.{Platform}

abbrev period_seconds : ℕ
period_seconds = 30

-- Steps accepted on either side of the current one.
abbrev drift_steps : ℕ
drift_steps = 1

unfoldable pub step_at : ℕ → ℕ
step_at ms = ms / 1000 / period_seconds

-- The loop: the first step that matches stays, and the rest are compared all the same.
match_from : Platform → String → String → ℕ → ℕ → Option ℕ → Option ℕ
match_from p secret code zero step found = found
match_from p secret code (suc left) step found =
    match_from p secret code left (step + 1)
      (if p.hotp secret step == code && not (is_some found) then some step else found)

unfoldable pub match_step : Platform → ℕ → String → String → Option ℕ
unfolding match_from step_at
match_step p now secret code =
    if not (six_digits code)
    then none
    else match_from p secret code (2 * drift_steps + 1) (step_at now - drift_steps) none
