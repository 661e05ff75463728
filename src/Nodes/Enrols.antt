-- ===== src/Nodes/Enrols.antt =====
-- What an enrolment reads of tokens, and that it keeps the nodes sound.
use gsm.Common.{
  ℕ, ◌+◌, ◌<◌, ◌≡◌, refl, subst, inl, inr, Bool, true, false, some, List, [], ◌∷◌, ◌++◌, String,
  ◌==◌, nat_eq, string_eq, if◌then◌else◌, find?, update_rows, All, everywhere, All-append, All-map,
  All-update_where, count-update_rows, count_mono, count-append, count-eq-zero, Bool-cases,
  Option-cases, ok-injective, ok, arith,
}
use gsm.Nodes.{EnrollmentToken, Inventory, State}
use gsm.Nodes.Enrolment.{EnrollInput, is_usable, enroll_begin, save_enrolled, built}
use gsm.Nodes.Manage.{in_pool}
use gsm.Nodes.Sound.{HasPool, AreSound, IsSpendable, AreBounded, kept-AreSound, added-AreSound}

-- Tokens ----------------------------------------------------------------------------------------

pub changed-AreBounded :
    (q : EnrollmentToken → Bool) (f : EnrollmentToken → EnrollmentToken)
    (tokens : List EnrollmentToken) (next : ℕ)
    → ((t : EnrollmentToken) → (f t).id ≡ t.id)
    → All (λ t. q t ≡ true → IsSpendable t → IsSpendable (f t)) tokens
    → AreBounded tokens next
    → AreBounded (update_rows q f tokens) next
changed-AreBounded q f tokens next ids spends b = record {
  keyed = λ k. omega (
    arith,
    count-update_rows (λ t. t.id == k) q f tokens,
    count_mono (λ t. (if q t then f t else t).id == k) (λ t. t.id == k) tokens
        (everywhere _ tokens (λ t h. ground (arith, ids t))),
    b.keyed k,
  );
  below =
      All-update_where (λ t. t.id < next) q f tokens
        (everywhere _ tokens (λ t h l. ground (arith, ids t))) b.below;
  bounded = All-update_where IsSpendable q f tokens spends b.bounded;
}

pub added-AreBounded :
    (t : EnrollmentToken) (tokens : List EnrollmentToken) (next : ℕ)
    → t.id ≡ next
    → IsSpendable t
    → AreBounded tokens next
    → AreBounded (tokens ++ t ∷ []) (next + 1)
added-AreBounded t tokens next new spendable b = record {
  keyed = λ k.
      let fresh : (next == k) ≡ true → All (λ r. (r.id == k) ≡ false) tokens =
        λ h. All-map tokens (λ r l. ground arith) b.below in
      elim (Bool-cases (next == k)) [
        | inl here ↦ ground (
          arith,
          count-append (λ r. r.id == k) tokens (t ∷ []),
          count-eq-zero (λ r. r.id == k) tokens (fresh here),
        )
        | inr other ↦ ground (arith, count-append (λ r. r.id == k) tokens (t ∷ []), b.keyed k)
      ];
  below =
      All-append (λ r. r.id < next + 1) tokens (t ∷ [])
        (All-map tokens (λ r l. omega arith) b.below) (omega arith, tt);
  bounded = All-append IsSpendable tokens (t ∷ []) b.bounded (spendable, tt);
}

pub usable_left :
    (now most : ℕ) (t : EnrollmentToken)
    → is_usable now t ≡ true
    → t.max_uses ≡ some most
    → t.uses < most
unfolding is_usable
usable_left now most t usable h = ground arith

default_pool :
    (id now : ℕ) (name secret_hash : String) (inv : Inventory) (agent_version : String)
    (token_id : ℕ)
    → HasPool (built id now name secret_hash inv agent_version token_id)
unfolding built in_pool
default_pool id now name secret_hash inv agent_version token_id = record {
  ordered = omega arith;
  short = omega arith;
  apart = λ port e. ground (arith, e);
}

module _ (sha : String → String) where
  pub begin_found :
      (now : ℕ) (token : String) (st : State) (t : EnrollmentToken)
      → enroll_begin sha now token st ≡ ok t
      → (find? (λ r. r.token_hash == sha token) st.tokens ≡ some t) × (is_usable now t ≡ true)
  unfolding enroll_begin
  begin_found now token st t h =
      elim (Option-cases (find? (λ r. r.token_hash == sha token) st.tokens)) [
        | inl gone ↦ absurd (ground (arith, gone, h))
        | inr (row, found) ↦ elim (Bool-cases (is_usable now row)) [
          | inl usable ↦
              let same : row ≡ t = ok-injective (rw usable at rw (found, enroll_begin) at h) in
              (rw (← same) found, subst (λ x. is_usable now x ≡ true) same usable)
          | inr spent ↦ absurd (ground (arith, found, h))
        ]
      ]

  -- Nodes ---------------------------------------------------------------------------------------

  pub save_enrolled-AreSound :
      (now : ℕ) (secret : String) (token : EnrollmentToken) (input : EnrollInput) (st : State)
      → AreSound st.nodes st.next_node
      → AreSound
          (save_enrolled sha now secret token input st).0.nodes
          (save_enrolled sha now secret token input st).0.next_node
  unfolding save_enrolled built
  save_enrolled-AreSound now secret token input st s =
      elim (Option-cases (find? (λ n. n.machine_id == input.inventory.machine_id) st.nodes)) [
        | inl new ↦
            rw (new, save_enrolled)
              (added-AreSound _ st.nodes st.next_node refl new (default_pool _ now _ _ _ _ token.id)
                s)
        | inr (n, there) ↦
            rw (there, save_enrolled)
              (kept-AreSound _ _ st.nodes st.next_node (λ r. refl) (λ r. refl)
                (λ r p. record { ordered = p.ordered; short = p.short; apart = p.apart }) s)
      ]

  pub save_enrolled-tokens :
      (now : ℕ) (secret : String) (token : EnrollmentToken) (input : EnrollInput) (st : State)
      → ((save_enrolled sha now secret token input st).0.tokens ≡ st.tokens)
        × ((save_enrolled sha now secret token input st).0.next_token ≡ st.next_token)
  unfolding save_enrolled
  save_enrolled-tokens now secret token input st =
      elim (Option-cases (find? (λ n. n.machine_id == input.inventory.machine_id) st.nodes)) [
        | inl new ↦ rw (new, save_enrolled) (refl, refl)
        | inr (n, there) ↦ rw (there, save_enrolled) (refl, refl)
      ]
