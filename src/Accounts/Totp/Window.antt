-- ===== src/Accounts/Totp/Window.antt =====
-- Which codes an authenticator app's seed accepts.
use gsm.Common.{
  ℕ, ◌+◌, ◌-◌, ◌≤◌, ◌≡◌, refl, inl, inr, true, ◌&&◌, ◌||◌, none, some, is_some, String, ◌==◌,
  string_eq, Bool-cases, arith,
}
use gsm.Text.{six_digits}
use gsm.Accounts.{Platform}
use gsm.Accounts.Totp.{step_at, match_from, match_step}

module _ (p : Platform) (secret code : String) where
  three_steps :
      (a b c : ℕ)
      → b ≡ a + 1
      → c ≡ b + 1
      → is_some (match_from p secret code 3 a none)
        ≡ (p.hotp secret a == code || (p.hotp secret b == code || p.hotp secret c == code))
  unfolding match_from
  three_steps a b c e f = rw (f, e) (ground arith)

  one_of_three :
      (a step : ℕ)
      → match_from p secret code 3 a none ≡ some step
      → ((p.hotp secret step == code) ≡ true) × (a ≤ step) × (step ≤ a + 2)
  unfolding match_from
  one_of_three a step h = ground arith

-- A code matches exactly if it is six digits and the code of the current time step, the one before
-- or the one after; given that the clock is past the first step.
pub match_step-hotp :
    (p : Platform) (now : ℕ) (secret code : String)
    → 1 ≤ step_at now
    → is_some (match_step p now secret code) ≡ (
        six_digits code
        && (p.hotp secret (step_at now - 1) == code
            || (p.hotp secret (step_at now) == code || p.hotp secret (step_at now + 1) == code)))
unfolding match_step
match_step-hotp p now secret code past = elim (Bool-cases (six_digits code)) [
  | inl digits ↦
      rw (digits, match_step)
        (three_steps p secret code (step_at now - 1) (step_at now) (step_at now + 1) (omega arith)
          refl)
  | inr other ↦ rw (other, match_step) refl
]

-- The step that is found has the code, and is at most one step from the current one.
match_step_lem :
    (p : Platform) (now step : ℕ) (secret code : String)
    → 1 ≤ step_at now
    → match_step p now secret code ≡ some step
    → (p.hotp secret step ≡ code) × (step_at now ≤ step + 1) × (step ≤ step_at now + 1)
unfolding match_step
match_step_lem p now step secret code past found =
    let here : match_from p secret code 3 (step_at now - 1) none ≡ some step = ground arith in
    let (same, least, most) = one_of_three p secret code (step_at now - 1) step here in
    ((string_eq.test_iff (p.hotp secret step) code).0 same, omega arith, omega arith)
