-- ===== src/Nodes/Uses.antt =====
-- How the count of uses in a token's row moves.
use gsm.Common.{
  ℕ, ◌+◌, ◌<◌, ◌≡◌, refl, ◌∙◌, subst, inl, inr, Bool, Option, none, some, List, [], ◌∷◌, ◌++◌,
  String, ◌==◌, nat_eq, string_eq, nat_beq_iff, if◌then◌else◌, find?, find?_sound, find?_of_key,
  find?_unique, update_rows, All-map, Bool-cases, Option-cases, ok, arith,
}
use gsm.Nodes.{EnrollmentToken, State}
use gsm.Nodes.Enrolment.{enroll_begin}
use gsm.Nodes.Sound.{AreBounded}
use gsm.Nodes.Enrols.{changed-AreBounded, begin_found, usable_left}

abbrev pub row_of : ℕ → List EnrollmentToken → Option EnrollmentToken
row_of id tokens = find? (λ t. t.id == id) tokens

-- The count of uses in the row of a token.
abbrev pub uses_of : ℕ → List EnrollmentToken → ℕ
uses_of id tokens = elim (row_of id tokens) [ none ↦ 0 | some t ↦ t.uses ]

-- A token that was read has a row still, with the same limit, and it had room then.
pub record IsHeld (tokens : List EnrollmentToken) (t : EnrollmentToken) : Type 0 where
  pub row : EnrollmentToken
  pub there : row_of t.id tokens ≡ some row
  pub same : row.max_uses ≡ t.max_uses
  pub room : (most : ℕ) → t.max_uses ≡ some most → t.uses < most

-- Changes of rows.
row_of-update_rows :
    (id : ℕ) (q : EnrollmentToken → Bool) (f : EnrollmentToken → EnrollmentToken)
    (tokens : List EnrollmentToken)
    → ((t : EnrollmentToken) → (f t).id ≡ t.id)
    → row_of id (update_rows q f tokens)
      ≡ (elim (row_of id tokens) as (λ x. Option EnrollmentToken) [
        | none ↦ none
        | some t ↦ some (if q t then f t else t)
      ])
row_of-update_rows id q f [] keeps = refl
row_of-update_rows id q f (t ∷ tokens) keeps =
    ground (arith, row_of-update_rows id q f tokens keeps, keeps t)

row_of-append :
    (id : ℕ) (t : EnrollmentToken) (tokens : List EnrollmentToken)
    → row_of id (tokens ++ t ∷ []) ≡ (elim (row_of id tokens) as (λ x. Option EnrollmentToken) [
      | some r ↦ some r
      | none ↦ if t.id == id then some t else none
    ])
row_of-append id t [] = refl
row_of-append id t (r ∷ tokens) = ground (arith, row_of-append id t tokens)

pub update-IsHeld :
    (q : EnrollmentToken → Bool) (f : EnrollmentToken → EnrollmentToken)
    (tokens : List EnrollmentToken) (t : EnrollmentToken)
    → ((r : EnrollmentToken) → (f r).id ≡ r.id)
    → ((r : EnrollmentToken) → (f r).max_uses ≡ r.max_uses)
    → IsHeld tokens t
    → IsHeld (update_rows q f tokens) t
update-IsHeld q f tokens t ids limits h = record {
  row = if q h.row then f h.row else h.row;
  there = row_of-update_rows t.id q f tokens ids ∙ ground (arith, h.there);
  same = ground (arith, h.same, limits h.row);
  room = h.room;
}

pub append-IsHeld :
    (new : EnrollmentToken) (tokens : List EnrollmentToken) (t : EnrollmentToken)
    → IsHeld tokens t
    → IsHeld (tokens ++ new ∷ []) t
append-IsHeld new tokens t h = record {
  row = h.row;
  there = row_of-append t.id new tokens ∙ ground (arith, h.there);
  same = h.same;
  room = h.room;
}

pub update-uses :
    (id : ℕ) (q : EnrollmentToken → Bool) (f : EnrollmentToken → EnrollmentToken)
    (tokens : List EnrollmentToken)
    → ((r : EnrollmentToken) → (f r).id ≡ r.id)
    → ((r : EnrollmentToken) → (f r).uses ≡ r.uses)
    → uses_of id (update_rows q f tokens) ≡ uses_of id tokens
update-uses id q f tokens ids counts = elim (Option-cases (row_of id tokens)) [
  | inl gone ↦ ground (arith, row_of-update_rows id q f tokens ids, gone)
  | inr (r, there) ↦ ground (arith, row_of-update_rows id q f tokens ids, there, counts r)
]

-- A new token was never used.
pub append-uses :
    (id : ℕ) (new : EnrollmentToken) (tokens : List EnrollmentToken)
    → new.uses ≡ 0
    → uses_of id (tokens ++ new ∷ []) ≡ uses_of id tokens
append-uses id new tokens unused = ground (arith, row_of-append id new tokens, unused)

-- A token that was read is held.
pub begin-IsHeld :
    (sha : String → String) (now : ℕ) (token : String) (st : State) (t : EnrollmentToken)
    → enroll_begin sha now token st ≡ ok t
    → AreBounded st.tokens st.next_token
    → IsHeld st.tokens t
begin-IsHeld sha now token st t h b =
    let (found, usable) = begin_found sha now token st t h in
    record {
      row = t;
      there =
          find?_of_key (λ r. r.token_hash == sha token) (λ r. r.id == t.id) st.tokens found
            ((nat_beq_iff t.id t.id).1 refl) (b.keyed t.id);
      same = refl;
      room = λ most limit. usable_left now most t usable limit;
    }

abbrev pub spent : EnrollmentToken → List EnrollmentToken → List EnrollmentToken
spent t tokens = update_rows (λ r. r.id == t.id) (λ r. record r { uses = t.uses + 1 }) tokens

pub spent-AreBounded :
    (t : EnrollmentToken) (tokens : List EnrollmentToken) (next : ℕ)
    → IsHeld tokens t
    → AreBounded tokens next
    → AreBounded (spent t tokens) next
spent-AreBounded t tokens next h b =
    changed-AreBounded (λ r. r.id == t.id) (λ r. record r { uses = t.uses + 1 }) tokens next
      (λ r. refl)
      (All-map tokens
        (λ r is_row here spendable. record {
          within = λ most limit. ground (arith, h.room most, h.same, is_row here);
        })
        (find?_unique (λ r. r.id == t.id) tokens h.there (b.keyed t.id)))
      b

-- The row then counts one more than the token had when it was read.
pub spent-uses :
    (id : ℕ) (t : EnrollmentToken) (tokens : List EnrollmentToken)
    → IsHeld tokens t
    → uses_of id (spent t tokens) ≡ (if t.id == id then t.uses + 1 else uses_of id tokens)
spent-uses id t tokens h =
    let moved =
      row_of-update_rows id (λ r. r.id == t.id) (λ r. record r { uses = t.uses + 1 }) tokens
        (λ r. refl) in
    elim (Option-cases (row_of id tokens)) [
      | inl gone ↦ elim (Bool-cases (t.id == id)) [
        | inl here ↦
            let same : t.id ≡ id = (nat_beq_iff t.id id).0 here in
            let there = subst (λ k. row_of k tokens ≡ some h.row) same h.there in
            absurd (ground (arith, gone, there))
        | inr other ↦ ground (arith, moved, gone)
      ]
      | inr (r, there) ↦
          let r_id : r.id ≡ id =
            (nat_beq_iff r.id id).0 (find?_sound (λ x. x.id == id) tokens there) in
          ground (arith, moved, there, r_id)
    ]
