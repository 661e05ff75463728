-- ===== src/Accounts/TwoFactor/Spent.antt =====
-- What is left of a code of an app, or of a recovery code, once it was accepted.
use gsm.Common.{
  ℕ, ◌+◌, ◌≤◌, ◌≡◌, refl, sym, subst, inl, inr, Bool, true, false, not, ◌&&◌, Option, some,
  some-injective, is_some, List, [], ◌∷◌, String, ◌==◌, nat_eq, string_eq, find?, count,
  update_rows, find?_sound, Bool-cases, Option-cases, arith,
}
use gsm.Accounts.{User, RecoveryCode, State, Platform}
use gsm.Accounts.Challenges.{recovery_code_hash}
use gsm.Accounts.TwoFactor.{
  claims, claim_step, totp_step, totp_matches, use_recovery_code, spend, matching_code, is_unused,
  recovery_codes_remaining,
}

none_claims :
    (id step later : ℕ) (us : List User)
    → later ≤ step
    → count
        (claims id later)
        (update_rows (claims id step) (λ u. record u { totp_last_step = some step }) us)
      ≡ 0
unfolding claims
none_claims id step later [] h = refl
none_claims id step later (u ∷ us) h = elim (Option-cases u.totp_last_step) [
  | inl never ↦ ground (arith, none_claims id step later us h)
  | inr (last, was) ↦ ground (arith, none_claims id step later us h)
]

-- Once an app's code was accepted, a code of the same or an earlier time step is refused, whoever
-- asks with which code and whenever.
pub totp_matches-once :
    (p : Platform) (now later : ℕ) (user again : User) (code other : String) (step earlier : ℕ)
    (st after : State)
    → totp_step p now user code ≡ some step
    → totp_matches p now user code st ≡ (after, true)
    → totp_step p later again other ≡ some earlier
    → again.id ≡ user.id
    → earlier ≤ step
    → (totp_matches p later again other after).1 ≡ false
unfolding totp_matches claim_step
totp_matches-once p now later user again code other step earlier st after at done at' same le =
    let first : after ≡ (claim_step user.id step st).0 = ground (arith, at) in
    let none_left = none_claims user.id step earlier st.users le in
    rw (at', totp_matches) (rw (first, same) (rw none_left refl))

-- Rows -------------------------------------------------------------------------------------------

module _ (q s : RecoveryCode → Bool) where
  count_of_found :
      (xs : List RecoveryCode) (x : RecoveryCode)
      → find? q xs ≡ some x
      → s x ≡ true
      → 1 ≤ count s xs
  count_of_found [] x h e = cc
  count_of_found (y ∷ xs) x h e = elim (Bool-cases (q y)) [
    | inl here ↦
        let hit = subst (λ z. s z ≡ true) (sym (some-injective y x (rw here at h))) e in
        ground arith
    | inr later ↦ ground (arith, count_of_found xs x (rw later at h) e)
  ]

  count_le :
      (xs : List RecoveryCode)
      → ((x : RecoveryCode) → q x ≡ true → s x ≡ true)
      → count q xs ≤ count s xs
  count_le [] h = omega arith
  count_le (y ∷ xs) h = ground (arith, count_le xs h, h y)

  -- Rows that leave `s` when `q` holds of them.
  count-used :
      (now : ℕ) (xs : List RecoveryCode)
      → ((x : RecoveryCode) → s (record x { used_at = some now }) ≡ false)
      → count s (update_rows q (λ r. record r { used_at = some now }) xs)
          + count (λ r. q r && s r) xs
        ≡ count s xs
  count-used now [] h = omega arith
  count-used now (y ∷ xs) h = ground (arith, count-used now xs h, h y)

-- The one row that is marked used leaves every set of unused rows that it was in.
one_less :
    (now : ℕ) (m s : RecoveryCode → Bool) (row : RecoveryCode) (xs : List RecoveryCode)
    → find? m xs ≡ some row
    → count (λ r. r.id == row.id && not (is_some r.used_at)) xs ≡ 1
    → is_some row.used_at ≡ false
    → s row ≡ true
    → ((x : RecoveryCode) → s (record x { used_at = some now }) ≡ false)
    → count s (
          update_rows
            (λ r. r.id == row.id && not (is_some r.used_at))
            (λ r. record r { used_at = some now })
            xs)
        + 1
      ≡ count s xs
one_less now m s row xs found alone unused hit off =
    let q : RecoveryCode → Bool = λ r. r.id == row.id && not (is_some r.used_at) in
    let both : RecoveryCode → Bool = λ r. q r && s r in
    let least = count_of_found m both xs row found (ground arith) in
    let most = count_le both q xs (λ x h. ground arith) in
    omega (arith, count-used q s now xs off, least, most)

-- The unused rows of a user that a code matches.
abbrev pub matches : Platform → ℕ → String → RecoveryCode → Bool
matches p user_id code r =
    r.user_id == user_id
    && (r.code_hash == recovery_code_hash p user_id code && not (is_some r.used_at))

abbrev pub usable : Platform → ℕ → String → State → ℕ
usable p user_id code st = count (matches p user_id code) st.codes

-- A recovery code that was accepted was unused, and one fewer row matches it afterwards: with one
-- row of its hash, it is refused from then on. The user has one unused code less.
pub use_recovery_code-once :
    (p : Platform) (now : ℕ) (user : User) (code : String) (ip : Option String) (st after : State)
    → use_recovery_code p now user code ip st ≡ (after, true)
    → (usable p user.id code after + 1 ≡ usable p user.id code st)
      × (recovery_codes_remaining after user.id + 1 ≡ recovery_codes_remaining st user.id)
unfolding use_recovery_code spend matching_code recovery_codes_remaining
use_recovery_code-once p now user code ip st after done =
    elim (Option-cases (matching_code p user.id code st)) [
      | inl gone ↦ absurd (ground arith)
      | inr (row, found) ↦
          let there : find? (matches p user.id code) st.codes ≡ some row = ground arith in
          let hit = find?_sound (matches p user.id code) st.codes there in
          let unused : is_some row.used_at ≡ false = ground arith in
          let alone : count (λ r. r.id == row.id && not (is_some r.used_at)) st.codes ≡ 1 =
            ground arith in
          let codes : after.codes
              ≡ update_rows (λ r. r.id == row.id && not (is_some r.used_at))
                  (λ r. record r { used_at = some now }) st.codes =
            ground arith in
          (
            rw codes (
                one_less now (matches p user.id code) (matches p user.id code) row st.codes there
                  alone unused hit (λ x. ground arith)),
            rw codes (
                one_less now (matches p user.id code) (is_unused user.id) row st.codes there alone
                  unused (ground arith) (λ x. ground arith)),
          )
    ]
