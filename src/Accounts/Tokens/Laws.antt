-- ===== src/Accounts/Tokens/Laws.antt =====
-- A user's tokens: how many, and which still resolve.
use gsm.Common.{
  ℕ, ◌+◌, ◌≤◌, ◌<◌, ◌≡◌, ◌≢◌, inl, inr, Bool, true, false, not, ◌&&◌, Option, some, is_some, List,
  [], ◌∷◌, ◌++◌, String, ◌==◌, nat_eq, string_eq, count, update_rows, find?_sound, find?_All, All,
  Bool-cases, Option-cases, ok, arith,
}
use gsm.Accounts.Tokens.{
  ApiToken, Tokens, create_token, revoke_token, resolve_api_token, is_active, find_token, used,
  is_current,
}

count-append :
    (p : ApiToken → Bool) (xs : List ApiToken) (x : ApiToken)
    → count p (xs ++ x ∷ []) ≤ count p xs + 1
count-append p [] x = ground arith
count-append p (y ∷ xs) x = ground (arith, count-append p xs x)

pub count-revoke :
    (u id now : ℕ) (xs : List ApiToken)
    → count
        (is_active u)
        (update_rows (λ t. t.id == id) (λ t. record t { revoked_at = some now }) xs)
      ≤ count (is_active u) xs
count-revoke u id now [] = omega arith
count-revoke u id now (y ∷ xs) = ground (arith, count-revoke u id now xs)

count-other :
    (u v : ℕ) (xs : List ApiToken) (x : ApiToken)
    → x.user_id ≡ v
    → u ≢ v
    → count (is_active u) (xs ++ x ∷ []) ≡ count (is_active u) xs
count-other u v [] x e d = ground arith
count-other u v (y ∷ xs) x e d = ground (arith, count-other u v xs x e d)

module _ (sha256_hex : String → String) where
  pub create_token-is_active :
      (now user_id : ℕ) (name : String) (days : Option ℕ) (random : String) (db after : Tokens)
      (t : ApiToken) (plain : String) (u : ℕ)
      → count (is_active u) db.rows ≤ 20
      → create_token sha256_hex now user_id name days random db ≡ ok (after, t, plain)
      → count (is_active u) after.rows ≤ 20
  unfolding create_token
  create_token-is_active now user_id name days random db after t plain u most made =
      let rows : after.rows ≡ db.rows ++ t ∷ [] = ground arith in
      let mine : t.user_id ≡ user_id = ground arith in
      let room : count (is_active user_id) db.rows < 20 = ground arith in
      rw rows (elim (Bool-cases (u == user_id)) [
        | inl same ↦
            let one : u ≡ user_id = ground arith in
            rw one (omega (arith, count-append (is_active user_id) db.rows t))
        | inr other ↦ omega (arith, count-other u user_id db.rows t mine (ground arith))
      ])

  revoked_rows :
      (id now : ℕ) (xs : List ApiToken)
      → All
          (λ t. (t.id == id && not (is_some t.revoked_at)) ≡ false)
          (update_rows (λ t. t.id == id) (λ t. record t { revoked_at = some now }) xs)
  revoked_rows id now [] = tt
  revoked_rows id now (y ∷ xs) = (ground arith, revoked_rows id now xs)

  -- A token that was revoked does not resolve any more.
  pub revoke_token-resolve_api_token :
      (now later user_id id : ℕ) (bearer : String) (db after : Tokens) (t : ApiToken)
      → revoke_token sha256_hex now user_id id db ≡ ok after
      → (resolve_api_token sha256_hex later bearer after).1 ≡ some t
      → t.id ≢ id
  unfolding revoke_token resolve_api_token find_token used
  revoke_token-resolve_api_token now later user_id id bearer db after t gone found =
      elim (Option-cases (find_token sha256_hex later bearer after)) [
        | inl missing ↦ absurd (ground arith)
        | inr (row, there) ↦
            let rows : after.rows
                ≡ update_rows (λ t. t.id == id) (λ t. record t { revoked_at = some now }) db.rows =
              ground arith in
            let q : ApiToken → Bool = λ t.
              t.token_hash == sha256_hex bearer
              && (not (is_some t.revoked_at) && is_current later t) in
            let hit : q row ≡ true = find?_sound q after.rows there in
            let off =
              find?_All (λ t. (t.id == id && not (is_some t.revoked_at)) ≡ false) q after.rows
                (rw rows (revoked_rows id now db.rows)) there in
            let same : t.id ≡ row.id = ground arith in rw same (ground (arith, hit, off))
      ]
