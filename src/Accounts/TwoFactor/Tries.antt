-- ===== src/Accounts/TwoFactor/Tries.antt =====
-- How many codes can be tried against one challenge.
use gsm.Common.{
  ◌⊎◌, ℕ, suc, ◌+◌, ◌-◌, ◌≤◌, ◌<◌, max, ◌≡◌, refl, sym, ◌∙◌, subst, inl, inr, Bool, true, false,
  not, ◌&&◌, Option, none, some, some-injective, List, [], ◌∷◌, String, ◌==◌, nat_eq, string_eq,
  find?, destroy, update_rows, find?_sound, find?-none_of_and, ltb, leb, if◌then◌else◌, Bool-cases,
  Option-cases, arith,
}
use gsm.Accounts.{
  User, purpose_eq, login, LoginChallenge, SecondFactor, one_of, recovery, totp, email, State,
  Platform,
}
use gsm.Accounts.Challenges.{max_attempts, load, is_blocked, reject}
use gsm.Accounts.TwoFactor.{
  factor_matches, factor_of, settle, verify_login, claim_step, totp_matches, use_recovery_code,
  spend,
}
use gsm.Accounts.Challenges.Loads.{loaded}

-- One call of `verifyLogin` for a challenge.
pub record Try : Type 0 where
  pub now : ℕ
  pub code : String
  pub method : Option SecondFactor
  pub ip : Option String

-- Whether a call gets as far as comparing its code.
abbrev pub is_tested : ℕ → String → State → Bool
is_tested now id st = elim (load now id login st) [
  | none ↦ false
  | some (challenge, user) ↦ not (is_blocked now user st)
]

-- How many calls of a sequence do.
abbrev pub tested : Platform → String → List Try → State → ℕ
tested p id [] st = 0
tested p id (t ∷ tries) st =
    let rest = tested p id tries (verify_login p t.now id t.code t.method t.ip st).0 in
    if is_tested t.now id st then suc rest else rest

-- The most that a row of the id has left.
left : String → List LoginChallenge → ℕ
left id [] = 0
left id (c ∷ cs) =
    let rest = left id cs in if c.id == id then max (max_attempts - c.attempts) rest else rest

left-destroy :
    (id : String) (cs : List LoginChallenge)
    → find? (λ c. c.id == id) (destroy (λ c. c.id == id) cs) ≡ none
left-destroy id [] = refl
left-destroy id (c ∷ cs) = ground (arith, left-destroy id cs)

left-update_rows :
    (id : String) (n : ℕ) (cs : List LoginChallenge)
    → left id (update_rows (λ c. c.id == id) (λ c. record c { attempts = n }) cs) ≤ max_attempts - n
unfolding left
left-update_rows id n [] = omega arith
left-update_rows id n (c ∷ cs) = ground (arith, left-update_rows id n cs)

left_of_found :
    (id : String) (q : LoginChallenge → Bool) (cs : List LoginChallenge) (c : LoginChallenge)
    → find? (λ c. c.id == id && q c) cs ≡ some c
    → max_attempts - c.attempts ≤ left id cs
unfolding left
left_of_found id q [] c h = cc
left_of_found id q (d ∷ cs) c h = elim (Bool-cases (d.id == id && q d)) [
  | inl here ↦
      subst (λ e. max_attempts - e.attempts ≤ left id (d ∷ cs)) (some-injective d c (rw here at h))
        (ground arith)
  | inr later ↦ ground (arith, left_of_found id q cs c (rw later at h))
]

-- A factor's test leaves the challenges alone.
factor_matches-challenges :
    (p : Platform) (now : ℕ) (f : SecondFactor) (c : LoginChallenge) (u : User) (code : String)
    (ip : Option String) (st : State)
    → (factor_matches p now f c u code ip st).0.challenges ≡ st.challenges
unfolding factor_matches totp_matches claim_step use_recovery_code spend
factor_matches-challenges p now (one_of totp) c u code ip st = ground arith
factor_matches-challenges p now (one_of email) c u code ip st = refl
factor_matches-challenges p now recovery c u code ip st = ground arith

not_tested :
    (p : Platform) (t : Try) (id : String) (st : State)
    → is_tested t.now id st ≡ false
    → (verify_login p t.now id t.code t.method t.ip st).0 ≡ st
unfolding verify_login
not_tested p t id st h = elim (Option-cases (load t.now id login st)) [
  | inl gone ↦ rw (gone, verify_login) refl
  | inr ((c, u), found) ↦
      let stop : is_blocked t.now u st ≡ true = ground arith in
      rw (found, verify_login) (rw stop refl)
]

-- What a wrong code leaves of the challenges.
reject-challenges :
    (now : ℕ) (id : String) (c : LoginChallenge) (u : User) (f : SecondFactor) (ip : Option String)
    (st : State)
    → c.id ≡ id
    → (find? (λ d. d.id == id) (reject now c u f ip st).0.challenges ≡ none)
      ⊎ ((c.attempts + 1 < max_attempts)
          × (left id (reject now c u f ip st).0.challenges ≤ max_attempts - (c.attempts + 1)))
unfolding reject
reject-challenges now id c u f ip st same = elim (Bool-cases (leb max_attempts (c.attempts + 1))) [
  | inl spent ↦ inl (rw (spent, reject) (rw same (left-destroy id st.challenges)))
  | inr more ↦ inr (
    ground arith,
    rw (more, reject) (rw same (left-update_rows id (c.attempts + 1) st.challenges)),
  )
]

settle-left :
    (now : ℕ) (id : String) (c : LoginChallenge) (u : User) (f : SecondFactor) (ip : Option String)
    (cs : List LoginChallenge) (r : State × Bool)
    → r.0.challenges ≡ cs
    → c.id ≡ id
    → max_attempts - c.attempts ≤ left id cs
    → let after = (settle now c u f ip r).0.challenges in
      (find? (λ d. d.id == id) after ≡ none)
      ⊎ ((1 ≤ left id cs - 1) × (left id after ≤ left id cs - 1))
unfolding settle
settle-left now id c u f ip cs (st, true) kept same most =
    inl (rw (same, kept) (left-destroy id cs))
settle-left now id c u f ip cs (st, false) kept same most =
    elim (reject-challenges now id c u f ip st same) [
      | inl gone ↦ inl gone
      | inr (more, less) ↦ inr (omega arith, omega arith)
    ]

load-none :
    (now : ℕ) (id : String) (st : State)
    → find? (λ d. d.id == id) st.challenges ≡ none
    → load now id login st ≡ none
load-none now id st h = elim (Option-cases (load now id login st)) [
  | inl gone ↦ gone
  | inr ((c, u), found) ↦
      let there = (loaded now id login st found).0 in
      let absent =
        find?-none_of_and (λ d. d.id == id) (λ d. d.purpose == login && ltb now d.expires_at)
          st.challenges h in
      absurd (cc (sym there ∙ absent))
]

-- A call that tests its code leaves no challenge, or one with a try less.
after_test :
    (p : Platform) (t : Try) (id : String) (st : State)
    → is_tested t.now id st ≡ true
    → let after = (verify_login p t.now id t.code t.method t.ip st).0.challenges in
      (find? (λ d. d.id == id) after ≡ none)
      ⊎ ((1 ≤ left id st.challenges - 1) × (left id after ≤ left id st.challenges - 1))
unfolding verify_login settle
after_test p t id st h = elim (Option-cases (load t.now id login st)) [
  | inl gone ↦ absurd (ground arith)
  | inr ((c, u), found) ↦
      let go_on : is_blocked t.now u st ≡ false = ground arith in
      rw (found, verify_login)
        (rw go_on (
          let (there, owner, on) = loaded t.now id login st found in
          let same =
            find?_sound (λ d. d.id == id && (d.purpose == login && ltb t.now d.expires_at))
              st.challenges there in
          settle-left t.now id c u (factor_of t.method u t.code) t.ip st.challenges
            (factor_matches p t.now (factor_of t.method u t.code) c u t.code t.ip st)
            (factor_matches-challenges p t.now (factor_of t.method u t.code) c u t.code t.ip st)
            (ground (arith, string_eq.test_iff c.id id))
            (left_of_found id (λ d. d.purpose == login && ltb t.now d.expires_at) st.challenges c
              there)))
]

none-tested :
    (p : Platform) (tries : List Try) (id : String) (st : State)
    → find? (λ d. d.id == id) st.challenges ≡ none
    → tested p id tries st ≡ 0
none-tested p [] id st h = refl
none-tested p (t ∷ tries) id st h =
    let miss : is_tested t.now id st ≡ false = rw (load-none t.now id st h, is_tested) refl in
    rw (miss, not_tested p t id st miss) (none-tested p tries id st h)

tested-left :
    (p : Platform) (tries : List Try) (id : String) (st : State)
    → tested p id tries st ≤ max 1 (left id st.challenges)
tested-left p [] id st = omega arith
tested-left p (t ∷ tries) id st = elim (Bool-cases (is_tested t.now id st)) [
  | inr miss ↦ rw (miss, not_tested p t id st miss) (tested-left p tries id st)
  | inl hit ↦ rw hit (elim (after_test p t id st hit) [
    | inl gone ↦
        ground
          (arith, none-tested p tries id (verify_login p t.now id t.code t.method t.ip st).0 gone)
    | inr (some_left, less) ↦
        ground (arith, tested-left p tries id (verify_login p t.now id t.code t.method t.ip st).0)
  ])
]

left_most : (id : String) (cs : List LoginChallenge) → left id cs ≤ max_attempts
unfolding left
left_most id [] = omega arith
left_most id (c ∷ cs) = ground (arith, left_most id cs)

-- Of any sequence of calls for one challenge, whatever the codes, factors and times, at most
-- `MAX_ATTEMPTS` compare a code.
pub tested_at_most :
    (p : Platform) (id : String) (tries : List Try) (st : State)
    → tested p id tries st ≤ max_attempts
tested_at_most p id tries st = omega (arith, tested-left p tries id st, left_most id st.challenges)
