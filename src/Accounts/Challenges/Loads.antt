-- ===== src/Accounts/Challenges/Loads.antt =====
-- Which challenges still load.
use gsm.Common.{
  ℕ, ◌≡◌, ◌≢◌, ap, ◌∙◌, subst, inl, inr, false, ◌&&◌, Option, some, List, String, ◌==◌, nat_eq,
  string_eq, find?, destroy, find?_sound, find?-destroy, ltb, Option-cases, arith,
}
use gsm.Accounts.{User, Purpose, purpose_eq, LoginChallenge, State, find_user}
use gsm.Accounts.Challenges.{load, challenge_user}

abbrev pub pending : ℕ → String → Purpose → State → Option LoginChallenge
pending now id purpose st =
    find? (λ c. c.id == id && (c.purpose == purpose && ltb now c.expires_at)) st.challenges

-- What loads is pending, and its user is enabled.
pub loaded :
    (now : ℕ) (id : String) (purpose : Purpose) (st : State) {c : LoginChallenge} {u : User}
    → load now id purpose st ≡ some (c, u)
    → (pending now id purpose st ≡ some c)
      × (find_user st c.user_id ≡ some u)
      × (u.disabled ≡ false)
unfolding load challenge_user
loaded now id purpose st {c} {u} h = elim (Option-cases (pending now id purpose st)) [
  | inl gone ↦ absurd (ground arith)
  | inr (d, found) ↦ elim (Option-cases (find_user st d.user_id)) [
    | inl nobody ↦ absurd (ground arith)
    | inr (v, owner) ↦
        let same : (d ≡ c) × (v ≡ u) × (v.disabled ≡ false) = ground arith in
        (
          found ∙ ap some same.0,
          subst (λ e. find_user st e.user_id ≡ some u) same.0 (owner ∙ ap some same.1),
          subst (λ w. w.disabled ≡ false) same.1 same.2,
        )
  ]
]

-- Where the challenges are what is left after a user's were dropped.
pub load_after :
    (now : ℕ) (id : String) (purpose : Purpose) (user_id : ℕ) (xs : List LoginChallenge)
    (st : State) {c : LoginChallenge} {u : User}
    → st.challenges ≡ destroy (λ c. c.user_id == user_id) xs
    → load now id purpose st ≡ some (c, u)
    → u.id ≢ user_id
load_after now id purpose user_id xs st {c} {u} left h =
    let (found, owner, on) = loaded now id purpose st h in
    let other =
      find?-destroy (λ c. c.id == id && (c.purpose == purpose && ltb now c.expires_at))
        (λ c. c.user_id == user_id) xs (rw left at found) in
    let owns = find?_sound (λ v. v.id == c.user_id) st.users owner in ground (arith, other, owns)
