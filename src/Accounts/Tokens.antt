-- ===== src/Accounts/Tokens.antt =====
-- server/src/modules/auth/tokens.ts: personal API tokens. The table is a list of rows; the token's
-- random part is drawn by the caller.
pub mod Laws
pub mod Limit
use Prim.Native.Nat.{◌*◌}
use gsm.Common.{
  ℕ, ◌+◌, ◌-◌, Bool, true, false, not, ◌&&◌, ◌||◌, Option, none, some, is_some, List, [], ◌∷◌, ◌++◌,
  String, ◌==◌, nat_eq, string_eq, find?, count, update_rows, ltb, leb, if◌then◌else◌, Result, ok,
  err, bad_request, not_found,
}
use text.Mathlib.Text.{starts_with}
use gsm.Text.{slice_to, ◌+++◌}

abbrev pub api_token_prefix : String
api_token_prefix = "gsm_api_"

pub record ApiToken : Type 0 where
  pub id : ℕ
  pub user_id : ℕ
  pub name : String
  pub token_hash : String
  pub token_prefix : String
  pub expires_at : Option ℕ
  pub last_used_at : Option ℕ
  pub revoked_at : Option ℕ

pub record Tokens : Type 0 where
  pub rows : List ApiToken
  pub next_id : ℕ

-- `expiresInDays ? … : null`: zero days are as good as none.
expiry : ℕ → Option ℕ → Option ℕ
expiry now none = none
expiry now (some days) = if days == 0 then none else some (now + days * 86400000)

abbrev pub is_active : ℕ → ApiToken → Bool
is_active user_id t = t.user_id == user_id && not (is_some t.revoked_at)

is_current : ℕ → ApiToken → Bool
is_current now t = elim t.expires_at [ none ↦ true | some end_at ↦ ltb now end_at ]

is_due : ℕ → ApiToken → Bool
is_due now t = elim t.last_used_at [ none ↦ true | some used ↦ ltb 60000 (now - used) ]

used : ℕ → ApiToken → ApiToken
used now t = if is_due now t then record t { last_used_at = some now } else t

module _ (sha256_hex : String → String) where
  unfoldable pub create_token :
      ℕ → ℕ → String → Option ℕ → String → Tokens → Result (Tokens × ApiToken × String)
  unfolding expiry
  create_token now user_id name expires_in_days random db =
      let plaintext = api_token_prefix +++ random in
      let t : ApiToken = record {
        id = db.next_id;
        user_id = user_id;
        name = name;
        token_hash = sha256_hex plaintext;
        token_prefix = slice_to 14 plaintext;
        expires_at = expiry now expires_in_days;
        last_used_at = none;
        revoked_at = none;
      } in
      if leb 20 (count (is_active user_id) db.rows)
      then err (bad_request "Too many active tokens (max 20)")
      else ok (record { rows = db.rows ++ t ∷ []; next_id = db.next_id + 1 }, t, plaintext)

  unfoldable pub revoke_token : ℕ → ℕ → ℕ → Tokens → Result Tokens
  revoke_token now user_id id db =
      if is_some (find? (λ t. t.id == id && t.user_id == user_id) db.rows)
      then ok (record db {
        rows = update_rows (λ t. t.id == id) (λ t. record t { revoked_at = some now }) db.rows;
      })
      else err (not_found "Token")

  find_token : ℕ → String → Tokens → Option ApiToken
  find_token now bearer db =
      find?
        (λ t. t.token_hash == sha256_hex bearer && (not (is_some t.revoked_at) && is_current now t))
        db.rows

  unfoldable pub resolve_api_token : ℕ → String → Tokens → Tokens × Option ApiToken
  unfolding find_token is_current used is_due
  resolve_api_token now bearer db =
      if not (starts_with bearer api_token_prefix)
      then (db, none)
      else elim (find_token now bearer db) [
        | none ↦ (db, none)
        | some t ↦ (
          record db { rows = update_rows (λ r. r.id == t.id) (used now) db.rows },
          some (used now t),
        )
      ]
