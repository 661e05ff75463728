-- ===== src/Accounts/Sessions/Ends.antt =====
-- Whose sessions still resolve after some were ended, and that a new one does.
use gsm.Common.{
  ℕ, ◌+◌, ◌<◌, ◌≡◌, ◌≢◌, ◌⊎◌, refl, sym, ap, ◌∙◌, subst, inl, inr, true, false, ◌&&◌, ◌||◌, Option,
  none, some, List, String, ◌==◌, nat_eq, string_eq, find?, destroy, find?_sound, find?-destroy,
  find?-snoc, find?-none_of_and, ltb, Bool-cases, Option-cases, ok, arith,
}
use gsm.Text.{chars}
use gsm.Accounts.{User, Session, SessionMeta, State, Platform, find_user}
use gsm.Accounts.Sessions.{
  resolve_session, end_sessions, change_password, create_session, touched, live_session,
  enabled_user, ended, session_ttl_ms, agent_of,
}

module _ (p : Platform) (now : ℕ) (token : String) (st : State) where
  -- What a session that resolves came from: a live row, and the enabled user that it names.
  pub resolved :
      {s : Session} {u : User}
      → (resolve_session p now token st).1 ≡ some (s, u)
      → (row : Session) × (live_session p now token st ≡ some row)
        × (s ≡ touched now row)
        × (find_user st row.user_id ≡ some u)
        × (u.disabled ≡ false)
  unfolding resolve_session enabled_user
  resolved {s} {u} h = elim (Option-cases (live_session p now token st)) [
    | inl gone ↦ absurd (ground arith)
    | inr (row, found) ↦ elim (Option-cases (find_user st row.user_id)) [
      | inl nobody ↦ absurd (ground arith)
      | inr (v, owner) ↦
          let both : (s ≡ touched now row) × (u ≡ v) × (v.disabled ≡ false) = ground arith in
          (
            row,
            found,
            both.0,
            rw owner (ap some (sym both.1)),
            subst (λ w. w.disabled ≡ false) (sym both.1) both.2,
          )
    ]
  ]

-- Where the sessions are what is left after a user's ended.
pub resolve_session_after :
    (p : Platform) (now : ℕ) (token : String) (user_id : ℕ) (keep : Option String)
    (xs : List Session) (st : State) {s : Session} {u : User}
    → st.sessions ≡ destroy (ended user_id keep) xs
    → (resolve_session p now token st).1 ≡ some (s, u)
    → (u.id ≢ user_id) ⊎ (keep ≡ some s.id)
unfolding ended touched live_session
resolve_session_after p now token user_id keep xs st {s} {u} left h =
    let (row, found, slid, owner, on) = resolved p now token st h in
    let stays =
      find?-destroy (λ s. s.id == p.session_key token && ltb now s.expires_at) (ended user_id keep)
        xs
        (ap (find? (λ s. s.id == p.session_key token && ltb now s.expires_at)) (sym left)
          ∙ found) in
    let owns = find?_sound (λ v. v.id == row.user_id) st.users owner in go row keep stays owns slid
  where
    go :
        (row : Session) (keep : Option String)
        → ended user_id keep row ≡ false
        → (u.id == row.user_id) ≡ true
        → s ≡ touched now row
        → (u.id ≢ user_id) ⊎ (keep ≡ some s.id)
    go row none stays owns slid = inl (ground arith)
    go row (some k) stays owns slid =
        let same : s.id ≡ row.id = ground arith in
        elim (Bool-cases (row.id == k)) [
          | inl kept ↦ inr (ground (arith, string_eq.test_iff row.id k))
          | inr other ↦ ground (arith, string_eq.test_iff row.id k)
        ]

-- After a password change, a cookie that resolves to the user is that of the session to keep.
pub change_password-resolve_session :
    (p : Platform) (now : ℕ) (token : String) (user : User) (current_password new_password : String)
    (ip keep : Option String) (st after : State) {s : Session} {u : User}
    → change_password p user current_password new_password ip keep st ≡ (after, ok tt)
    → (resolve_session p now token after).1 ≡ some (s, u)
    → (u.id ≢ user.id) ⊎ (keep ≡ some s.id)
unfolding change_password end_sessions
change_password-resolve_session p now token user current_password new_password ip keep st after done
      live =
    resolve_session_after p now token user.id keep st.sessions after (ground arith) live

resolves :
    (p : Platform) (now : ℕ) (token : String) (st : State) (row : Session) (u : User)
    → (chars token == 0 || ltb 128 (chars token)) ≡ false
    → live_session p now token st ≡ some row
    → find_user st row.user_id ≡ some u
    → u.disabled ≡ false
    → (resolve_session p now token st).1 ≡ some (touched now row, u)
unfolding resolve_session enabled_user
resolves p now token st row u size found owner on =
    rw (size, found, owner, resolve_session) (rw on refl)

-- A new session resolves, to itself and its user, for every token of at most 128 characters, until
-- it ends; given that the user's row is in the table and not disabled, and that no earlier session
-- has the token's key.
pub resolve_session-create_session :
    (p : Platform) (now later : ℕ) (token : String) (user : User) (meta : SessionMeta) (st : State)
    → (chars token == 0 || ltb 128 (chars token)) ≡ false
    → find_user st user.id ≡ some user
    → user.disabled ≡ false
    → find? (λ s. s.id == p.session_key token) st.sessions ≡ none
    → later < now + session_ttl_ms
    → (s : Session) × ((resolve_session p later token (create_session p now token user meta st)).1
        ≡ some (s, user))
      × (s.id ≡ p.session_key token)
      × (s.user_id ≡ user.id)
unfolding create_session live_session touched
resolve_session-create_session p now later token user meta st size there on fresh soon =
    let row : Session = record {
      id = p.session_key token;
      user_id = user.id;
      expires_at = now + session_ttl_ms;
      ip = meta.ip;
      user_agent = agent_of meta;
      last_seen_at = now;
    } in
    let found =
      find?-snoc (λ s. s.id == p.session_key token && ltb later s.expires_at) st.sessions row
        (find?-none_of_and (λ s. s.id == p.session_key token) (λ s. ltb later s.expires_at)
          st.sessions fresh)
        (ground (arith, string_eq.test_iff (p.session_key token) (p.session_key token))) in
    (
      touched later row,
      resolves p later token (create_session p now token user meta st) row user size found there on,
      ground arith,
      ground arith,
    )
