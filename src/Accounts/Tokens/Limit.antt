-- ===== src/Accounts/Tokens/Limit.antt =====
-- Sequences of calls on API tokens, and how many tokens of a user are active.
use gsm.Common.{
  ℕ, ◌≤◌, ◌≡◌, inl, inr, Option, is_some, List, [], ◌∷◌, String, ◌==◌, nat_eq, ◌&&◌, find?,
  if◌then◌else◌, count, count-update_rows, count_mono, everywhere, ok, err, Bool-cases,
  Option-cases, Result-cases, arith,
}
use text.Mathlib.Text.{starts_with}
use gsm.Accounts.Tokens.{
  ApiToken, Tokens, create_token, revoke_token, resolve_api_token, is_active, find_token, used,
  api_token_prefix,
}
use gsm.Accounts.Tokens.Laws.{create_token-is_active, count-revoke}

pub data TokenCall : Type 0 where
  creates : ℕ → ℕ → String → Option ℕ → String → TokenCall
  revokes : ℕ → ℕ → ℕ → TokenCall
  resolves : ℕ → String → TokenCall

module _ (sha256_hex : String → String) where
  run_call : TokenCall → Tokens → Tokens
  run_call (creates now user_id name days random) db =
      elim (create_token sha256_hex now user_id name days random db) [
        | err e ↦ db
        | ok made ↦ made.0
      ]
  run_call (revokes now user_id id) db = elim (revoke_token sha256_hex now user_id id db) [
    | err e ↦ db
    | ok after ↦ after
  ]
  run_call (resolves now bearer) db = (resolve_api_token sha256_hex now bearer db).0

  unfoldable pub run_calls : List TokenCall → Tokens → Tokens
  unfolding run_call
  run_calls [] db = db
  run_calls (c ∷ calls) db = run_calls calls (run_call c db)

  used-is_active : (now u : ℕ) (t : ApiToken) → is_active u (used now t) ≡ is_active u t
  unfolding used
  used-is_active now u t = ground arith

  run_call-is_active :
      (c : TokenCall) (db : Tokens) (u : ℕ)
      → count (is_active u) db.rows ≤ 20
      → count (is_active u) (run_call c db).rows ≤ 20
  unfolding run_call revoke_token resolve_api_token
  run_call-is_active (creates now user_id name days random) db u most =
      elim (Result-cases (create_token sha256_hex now user_id name days random db)) [
        | inl (e, refused) ↦ rw (refused, run_call) most
        | inr ((after, t, plain), made) ↦
            rw (made, run_call)
              (create_token-is_active sha256_hex now user_id name days random db after t plain u
                most made)
      ]
  run_call-is_active (revokes now user_id id) db u most =
      elim (Bool-cases (is_some (find? (λ t. t.id == id && t.user_id == user_id) db.rows))) [
        | inl there ↦ rw (there, run_call) (omega (arith, count-revoke u id now db.rows))
        | inr gone ↦ rw (gone, run_call) most
      ]
  run_call-is_active (resolves now bearer) db u most =
      elim (Bool-cases (starts_with bearer api_token_prefix)) [
        | inl looks ↦ elim (Option-cases (find_token sha256_hex now bearer db)) [
          | inl gone ↦ rw (looks, run_call) (rw gone most)
          | inr (t, found) ↦
              rw (looks, run_call)
                (rw found (
                  omega (
                    arith,
                    count-update_rows (is_active u) (λ r. r.id == t.id) (used now) db.rows,
                    count_mono (λ r. is_active u (if r.id == t.id then used now r else r))
                        (is_active u) db.rows
                        (everywhere _ db.rows (λ r h. ground (arith, used-is_active now u r))),
                  )))
        ]
        | inr other ↦ rw (other, run_call) most
      ]

-- Whatever tokens are made, revoked and used, refused or not, no user gets past 20 active ones: given
-- that none has more before.
pub run_calls-is_active :
    (sha256_hex : String → String) (calls : List TokenCall) (db : Tokens) (u : ℕ)
    → count (is_active u) db.rows ≤ 20
    → count (is_active u) (run_calls sha256_hex calls db).rows ≤ 20
unfolding run_calls
run_calls-is_active sha256_hex [] db u most = most
run_calls-is_active sha256_hex (c ∷ calls) db u most =
    run_calls-is_active sha256_hex calls (run_call sha256_hex c db) u
      (run_call-is_active sha256_hex c db u most)
