-- ===== src/Accounts/Resets/Once.antt =====
-- What a reset link does, how often, and what is left of the user's sessions and sign-ins.
use gsm.Common.{
  ℕ, ◌+◌, ◌<◌, ◌≡◌, ◌≢◌, refl, sym, ap, ◌∙◌, subst, inl, inr, Bool, true, false, ◌&&◌, Option, none,
  some, String, ◌==◌, nat_eq, string_eq, find?, destroy, count, find?_sound, find?-snoc, count-snoc,
  find?-none_of_and, find?-none_of_destroy, update_rows, List, [], ◌∷◌, some-injective, nat_beq_iff,
  Bool-cases, ltb, Option-cases, ok, err, arith,
}
use gsm.Text.{lower_case, decimal}
use gsm.RateLimit.{check}
use gsm.Accounts.{
  User, Session, PasswordReset, LoginChallenge, Purpose, SessionMeta, State, Platform, find_user,
}
use gsm.Accounts.Sessions.{resolve_session, end_sessions, agent_of}
use gsm.Accounts.Sessions.Ends.{resolve_session_after}
use gsm.Accounts.Challenges.{load}
use gsm.Accounts.Challenges.Loads.{load_after}
use gsm.Accounts.Resets.{
  reset_ttl_ms, account_limits, token_hash, issue, active_user, limited, request_reset,
  invalid_token, live_reset, reset_user, claim, reset_password,
}

-- What a reset that succeeds came from.
was_reset :
    (p : Platform) (now : ℕ) (token new_password : String) (ip : Option String) (st after : State)
    (user : User)
    → reset_password p now token new_password ip st ≡ (after, ok user)
    → (row : PasswordReset) × (owner : User) × (live_reset p now token st ≡ some row)
      × (find_user st row.user_id ≡ some owner)
      × (after ≡ claim p owner row new_password ip st)
      × (user.id ≡ owner.id)
unfolding reset_password reset_user active_user
was_reset p now token new_password ip st after user done =
    elim (Option-cases (live_reset p now token st)) [
      | inl gone ↦ absurd (ground arith)
      | inr (row, found) ↦ elim (Option-cases (find_user st row.user_id)) [
        | inl nobody ↦ absurd (ground arith)
        | inr (owner, there) ↦
            let same : (after ≡ claim p owner row new_password ip st) × (user.id ≡ owner.id) =
              ground arith in
            (row, owner, found, there, same.0, same.1)
      ]
    ]

refused :
    (p : Platform) (now : ℕ) (token new_password : String) (ip : Option String) (st : State)
    → live_reset p now token st ≡ none
    → reset_password p now token new_password ip st ≡ (st, err invalid_token)
unfolding reset_password reset_user
refused p now token new_password ip st gone = rw (gone, reset_password) refl

-- The link that set a new password is refused from then on, whatever the time and the password.
pub reset_password-once :
    (p : Platform) (now later : ℕ) (token new_password again : String) (ip : Option String)
    (st after : State) (user : User)
    → reset_password p now token new_password ip st ≡ (after, ok user)
    → reset_password p later token again ip after ≡ (after, err invalid_token)
unfolding live_reset claim end_sessions
reset_password-once p now later token new_password again ip st after user done =
    let (row, owner, found, there, at, same) =
      was_reset p now token new_password ip st after user done in
    let hit =
      find?_sound (λ r. r.token_hash == token_hash p token && ltb now r.expires_at) st.resets
        found in
    let gone =
      find?-none_of_destroy (λ r. r.token_hash == token_hash p token && ltb later r.expires_at)
        (λ r. r.token_hash == row.token_hash) st.resets
        (λ r e. ground (
          arith,
          string_eq.test_iff r.token_hash (token_hash p token),
          string_eq.test_iff row.token_hash (token_hash p token),
          string_eq.test_iff r.token_hash row.token_hash,
        )) in
    subst (λ s. reset_password p later token again ip s ≡ (s, err invalid_token)) (sym at)
      (refused p later token again ip (claim p owner row new_password ip st) gone)

-- After a reset a cookie resolves to other users only: every session of the user is over.
pub reset_password-resolve_session :
    (p : Platform) (now later : ℕ) (token new_password cookie : String) (ip : Option String)
    (st after : State) (user : User) {s : Session} {u : User}
    → reset_password p now token new_password ip st ≡ (after, ok user)
    → (resolve_session p later cookie after).1 ≡ some (s, u)
    → u.id ≢ user.id
unfolding claim end_sessions
reset_password-resolve_session p now later token new_password cookie ip st after user {s} {u} done
      live =
    let (row, owner, found, there, at, same) =
      was_reset p now token new_password ip st after user done in
    elim (resolve_session_after p later cookie owner.id none st.sessions after
      (ap (λ x. x.sessions) at) live) [ inl other ↦ rw same other | inr kept ↦ cc ]

-- After a reset a sign-in that waits for a second factor goes on for other users only.
pub reset_password-load :
    (p : Platform) (now later : ℕ) (token new_password id : String) (purpose : Purpose)
    (ip : Option String) (st after : State) (user : User) {c : LoginChallenge} {u : User}
    → reset_password p now token new_password ip st ≡ (after, ok user)
    → load later id purpose after ≡ some (c, u)
    → u.id ≢ user.id
unfolding claim end_sessions
reset_password-load p now later token new_password id purpose ip st after user {c} {u} done live =
    let (row, owner, found, there, at, same) =
      was_reset p now token new_password ip st after user done in
    rw same
      (load_after later id purpose owner.id st.challenges after (ap (λ x. x.challenges) at) live)

saved_found :
    (id : ℕ) (f : User → User) (users : List User) {u : User}
    → find? (λ x. x.id == id) users ≡ some u
    → ((x : User) → (f x).id ≡ x.id)
    → find? (λ x. x.id == id) (update_rows (λ x. x.id == id) f users) ≡ some (f u)
saved_found id f [] there keeps = cc
saved_found id f (x ∷ users) {u} there keeps = elim (Bool-cases (x.id == id)) [
  | inl here ↦
      let first : x ≡ u = some-injective x u (rw here at there) in
      let still : ((f x).id == id) ≡ true = ap (λ k. k == id) (keeps x) ∙ here in
      rw here (rw still (ap (λ y. some (f y)) first))
  | inr other ↦ rw other (rw other (saved_found id f users (rw other at there) keeps))
]

claimed :
    (p : Platform) (now : ℕ) (token new_password : String) (ip : Option String) (st : State)
    (row : PasswordReset) (u : User)
    → live_reset p now token st ≡ some row
    → find_user st row.user_id ≡ some u
    → u.disabled ≡ false
    → count (λ r. r.token_hash == row.token_hash) st.resets ≡ 1
    → reset_password p now token new_password ip st ≡ (
      claim p u row new_password ip st,
      ok (record u { password_hash = p.hash_password new_password }),
    )
unfolding reset_password reset_user active_user
claimed p now token new_password ip st row u found there on alone =
    rw (found, there, reset_password) (rw on (rw alone refl))

-- The password that a claim saves.
claim-find_user :
    (p : Platform) (new_password : String) (ip : Option String) (st : State) (row : PasswordReset)
    (u : User)
    → find_user st row.user_id ≡ some u
    → find_user (claim p u row new_password ip st) row.user_id
      ≡ some (record u { password_hash = p.hash_password new_password })
unfolding claim end_sessions
claim-find_user p new_password ip st row u there =
    let set : User → User = λ x. record x { password_hash = p.hash_password new_password } in
    let same : u.id ≡ row.user_id =
      (nat_beq_iff u.id row.user_id).0 (find?_sound (λ x. x.id == row.user_id) st.users there) in
    subst
      (λ j.
        find? (λ x. x.id == row.user_id) (update_rows (λ x. x.id == j) set st.users) ≡ some (set u))
      (sym same) (saved_found row.user_id set st.users there (λ x. refl))

accepted :
    (p : Platform) (now : ℕ) (token new_password : String) (ip : Option String) (st : State)
    (row : PasswordReset) (u : User)
    → live_reset p now token st ≡ some row
    → find_user st row.user_id ≡ some u
    → u.disabled ≡ false
    → count (λ r. r.token_hash == row.token_hash) st.resets ≡ 1
    → ((reset_password p now token new_password ip st).1
        ≡ ok (record u { password_hash = p.hash_password new_password }))
      × (find_user (reset_password p now token new_password ip st).0 row.user_id
          ≡ some (record u { password_hash = p.hash_password new_password }))
accepted p now token new_password ip st row u found there on alone =
    let whole = claimed p now token new_password ip st row u found there on alone in
    (
      ap (λ r. r.1) whole,
      ap (λ r. find_user r.0 row.user_id) whole ∙ claim-find_user p new_password ip st row u there,
    )

requested :
    (p : Platform) (now : ℕ) (token address : String) (mailed : Bool) (meta : SessionMeta)
    (st : State) (user : User)
    → find? (λ u. u.email == lower_case address) st.users ≡ some user
    → user.disabled ≡ false
    → (check account_limits now now (decimal user.id) st.per_account).1.allowed ≡ true
    → (request_reset p now true token mailed address meta st).0
      ≡ issue p now token mailed user meta (record st {
        per_account = (check account_limits now now (decimal user.id) st.per_account).0;
      })
unfolding request_reset active_user limited
requested p now token address mailed meta st user found on pass =
    rw (found, request_reset) (rw on (rw pass refl))

-- The link that a request mails sets a new password, until it ends: the reset goes well and the
-- user's row has that password and is otherwise as it was; given that mail is set up, that
-- the address is an enabled user's (found by it and by its id) whose limit lets the request pass,
-- and that no other user's link has the token's hash.
pub request_reset-reset_password :
    (p : Platform) (now later : ℕ) (token address new_password : String) (mailed : Bool)
    (meta : SessionMeta) (ip : Option String) (st : State) (user : User)
    → find? (λ u. u.email == lower_case address) st.users ≡ some user
    → find_user st user.id ≡ some user
    → user.disabled ≡ false
    → (check account_limits now now (decimal user.id) st.per_account).1.allowed ≡ true
    → find?
        (λ r. r.token_hash == token_hash p token)
        (destroy (λ r. r.user_id == user.id) st.resets)
      ≡ none
    → later < now + reset_ttl_ms
    → let done =
        reset_password p later token new_password ip
          (request_reset p now true token mailed address meta st).0 in
      (done.1 ≡ ok (record user { password_hash = p.hash_password new_password }))
      × (find_user done.0 user.id
          ≡ some (record user { password_hash = p.hash_password new_password }))
unfolding issue live_reset
request_reset-reset_password p now later token address new_password mailed meta ip st user found
      there on pass fresh soon =
    let row : PasswordReset = record {
      token_hash = token_hash p token;
      user_id = user.id;
      expires_at = now + reset_ttl_ms;
      ip = meta.ip;
      user_agent = agent_of meta;
    } in
    let before = destroy (λ r. r.user_id == user.id) st.resets in
    let same = string_eq.test_iff (token_hash p token) (token_hash p token) in
    let live =
      find?-snoc (λ r. r.token_hash == token_hash p token && ltb later r.expires_at) before row
        (find?-none_of_and (λ r. r.token_hash == token_hash p token) (λ r. ltb later r.expires_at)
          before fresh)
        (ground (arith, same)) in
    rw (requested p now token address mailed meta st user found on pass) (
      accepted p later token new_password ip _ row user live there on (
        count-snoc (λ r. r.token_hash == token_hash p token) before row fresh
          (ground (arith, same))))
