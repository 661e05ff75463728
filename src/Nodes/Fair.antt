-- ===== src/Nodes/Fair.antt =====
-- The events on nodes and enrolment tokens one by one, and the sums that they add to.
use gsm.Common.{
  ℕ, ◌+◌, ◌≡◌, refl, ap, ◌∙◌, inl, inr, Option, some, is_some, List, [], ◌∷◌, String, ◌==◌, nat_eq,
  find?, lookup, delete, All, everywhere, All-map, All_lookup, Bool-cases, Option-cases,
  Result-cases, arith,
}
use gsm.Nodes.{EnrollmentToken, State}
use gsm.Nodes.Enrolment.{
  EnrollInput, create_enrollment_token, revoke_enrollment_token, enroll_begin, enroll_end,
}
use gsm.Nodes.Sound.{AreSound, AreBounded}
use gsm.Nodes.Enrols.{
  added-AreBounded, changed-AreBounded, save_enrolled-AreSound, save_enrolled-tokens,
}
use gsm.Nodes.Uses.{
  uses_of, IsHeld, update-IsHeld, append-IsHeld, update-uses, append-uses, begin-IsHeld, spent,
  spent-AreBounded, spent-uses,
}
use gsm.Nodes.Runs.{
  Event, creates, revokes, begins, ends, calls, World, run_event, run_events, read_of, nothing,
  tally_with, tally_of, tally, IsFair, run_call-HasBoth,
}

abbrev Waiting : Type 0
Waiting = List (ℕ × (EnrollmentToken × EnrollInput))

held_of_delete :
    (P : EnrollmentToken → Type 0) (k : ℕ) (m : Waiting)
    → All (λ r. P r.1.0) m
    → All (λ r. P r.1.0) (delete k m)
unfolding delete
held_of_delete P k [] a = tt
held_of_delete P k ((j, v) ∷ m) (p, a) = elim (Bool-cases (j == k)) [
  | inl gone ↦ rw gone (held_of_delete P k m a)
  | inr stays ↦ rw stays (p, held_of_delete P k m a)
]

-- The tokens after an enrolment's end, and that the nodes are sound.
ended_tokens :
    (sha : String → String) (now : ℕ) (secret : String) (t : EnrollmentToken) (input : EnrollInput)
    (st : State)
    → ((enroll_end sha now secret t input st).0.tokens ≡ spent t st.tokens)
      × ((enroll_end sha now secret t input st).0.next_token ≡ st.next_token)
unfolding enroll_end
ended_tokens sha now secret t input st =
    let (tokens, next) = save_enrolled-tokens sha now secret t input st in
    (ap (spent t) tokens, next)

ended-AreSound :
    (sha : String → String) (now : ℕ) (secret : String) (t : EnrollmentToken) (input : EnrollInput)
    (st : State)
    → AreSound st.nodes st.next_node
    → AreSound
        (enroll_end sha now secret t input st).0.nodes
        (enroll_end sha now secret t input st).0.next_node
unfolding enroll_end
ended-AreSound sha now secret t input st s = save_enrolled-AreSound sha now secret t input st s

-- What one event does to the count of a token.
abbrev Moves : (String → String) → ℕ → Event → World → Type 0
Moves sha id e w =
    let t = tally_of id e w in
    uses_of id (run_event sha e w).state.tokens + t.overwritten
    ≡ uses_of id w.state.tokens + t.enrolled + t.restored

module _ (sha : String → String) where
  create-IsFair :
      (now : ℕ) (name : String) (most hours : Option ℕ) (random : String) (w : World)
      → IsFair w
      → IsFair (run_event sha (creates now name most hours random) w)
  unfolding run_event create_enrollment_token
  create-IsFair now name most hours random w ((s, b), held) = (
    (
      s,
      added-AreBounded _ w.state.tokens w.state.next_token refl
          (record { within = λ m h. omega arith }) b,
    ),
    All-map w.waiting (λ r h. append-IsHeld _ w.state.tokens r.1.0 h) held,
  )

  revoke-IsFair : (now id : ℕ) (w : World) → IsFair w → IsFair (run_event sha (revokes now id) w)
  unfolding run_event revoke_enrollment_token
  revoke-IsFair now id w ((s, b), held) =
      elim (Bool-cases (is_some (find? (λ t. t.id == id) w.state.tokens))) [
        | inl there ↦
            rw (there, run_event)
              (
                (
                  s,
                  changed-AreBounded _ _ w.state.tokens w.state.next_token (λ t. refl)
                      (everywhere _ w.state.tokens (λ t h p. record { within = p.within })) b,
                ),
                All-map w.waiting
                    (λ r h. update-IsHeld _ _ w.state.tokens r.1.0 (λ t. refl) (λ t. refl) h) held,
              )
        | inr gone ↦ rw (gone, run_event) ((s, b), held)
      ]

  revoke-Moves : (now id k : ℕ) (w : World) → Moves sha k (revokes now id) w
  unfolding run_event revoke_enrollment_token
  revoke-Moves now id k w = elim (Bool-cases (is_some (find? (λ t. t.id == id) w.state.tokens))) [
    | inl there ↦
        rw (there, run_event)
          (omega (
            arith,
            update-uses k (λ t. t.id == id) (λ t. record t { revoked_at = some now }) w.state.tokens
                (λ t. refl) (λ t. refl),
          ))
    | inr gone ↦ rw (gone, run_event) (omega arith)
  ]

  begin-IsFair :
      (now request : ℕ) (input : EnrollInput) (w : World)
      → IsFair w
      → IsFair (run_event sha (begins now request input) w)
  unfolding run_event
  begin-IsFair now request input w ((s, b), held) =
      elim (Result-cases (enroll_begin sha now input.token w.state)) [
        | inl (e, refused) ↦ rw (refused, run_event) ((s, b), held)
        | inr (t, begun) ↦
            rw (begun, run_event)
              ((s, b), (begin-IsHeld sha now input.token w.state t begun b, held))
      ]

  begin-Moves :
      (now request k : ℕ) (input : EnrollInput) (w : World)
      → Moves sha k (begins now request input) w
  unfolding run_event
  begin-Moves now request k input w =
      elim (Result-cases (enroll_begin sha now input.token w.state)) [
        | inl (e, refused) ↦ rw (refused, run_event) (omega arith)
        | inr (t, begun) ↦ rw (begun, run_event) (omega arith)
      ]

  end-IsFair :
      (now request : ℕ) (secret : String) (w : World)
      → IsFair w
      → IsFair (run_event sha (ends now request secret) w)
  unfolding run_event
  end-IsFair now request secret w ((s, b), held) = elim (Option-cases (lookup request w.waiting)) [
    | inl gone ↦ rw (gone, run_event) ((s, b), held)
    | inr (read, found) ↦
        let holds =
          All_lookup (λ r. IsHeld w.state.tokens r.1.0) w.waiting request read held found in
        let (tokens, next) = ended_tokens sha now secret read.0 read.1 w.state in
        rw (found, run_event)
          (
            (
              ended-AreSound sha now secret read.0 read.1 w.state s,
              rw (tokens, next) (spent-AreBounded read.0 w.state.tokens w.state.next_token holds b),
            ),
            rw tokens (
                held_of_delete (IsHeld (spent read.0 w.state.tokens)) request w.waiting (
                  All-map w.waiting
                    (λ r h. update-IsHeld _ _ w.state.tokens r.1.0 (λ t. refl) (λ t. refl) h)
                    held)),
          )
  ]

  end-Moves :
      (now request k : ℕ) (secret : String) (w : World)
      → IsFair w
      → Moves sha k (ends now request secret) w
  unfolding run_event
  end-Moves now request k secret w ((s, b), held) = elim (Option-cases (lookup request w.waiting)) [
    | inl gone ↦
        let sums : tally_of k (ends now request secret) w ≡ nothing =
          ap (λ o. tally_with k (read_of o) w.state.tokens) gone in
        rw sums (rw (gone, run_event) (omega arith))
    | inr (read, found) ↦
        let sums : tally_of k (ends now request secret) w
            ≡ tally_with k (some read.0) w.state.tokens =
          ap (λ o. tally_with k (read_of o) w.state.tokens) found in
        let holds =
          All_lookup (λ r. IsHeld w.state.tokens r.1.0) w.waiting request read held found in
        let (tokens, next) = ended_tokens sha now secret read.0 read.1 w.state in
        let counts = ap (uses_of k) tokens ∙ spent-uses k read.0 w.state.tokens holds in
        rw sums (rw (found, run_event) (ground (arith, counts)))
  ]

  event-IsFair : (e : Event) (w : World) → IsFair w → IsFair (run_event sha e w)
  unfolding run_event
  event-IsFair (creates now name most hours random) w f =
      create-IsFair now name most hours random w f
  event-IsFair (revokes now id) w f = revoke-IsFair now id w f
  event-IsFair (begins now request input) w f = begin-IsFair now request input w f
  event-IsFair (ends now request secret) w f = end-IsFair now request secret w f
  event-IsFair (calls call) w ((s, b), held) =
      let (nodes, (bounded, kept)) =
        run_call-HasBoth
          (λ tokens next. AreBounded tokens next × All (λ r. IsHeld tokens r.1.0) w.waiting) call
          w.state (s, (b, held)) in
      ((nodes, bounded), kept)

  event-Moves : (e : Event) (k : ℕ) (w : World) → IsFair w → Moves sha k e w
  unfolding run_event create_enrollment_token
  event-Moves (creates now name most hours random) k w f =
      omega (arith, append-uses k _ w.state.tokens refl)
  event-Moves (revokes now id) k w f = revoke-Moves now id k w
  event-Moves (begins now request input) k w f = begin-Moves now request k input w
  event-Moves (ends now request secret) k w f = end-Moves now request k secret w f
  event-Moves (calls call) k w ((s, b), held) =
      let (nodes, same) =
        run_call-HasBoth (λ tokens next. uses_of k tokens ≡ uses_of k w.state.tokens) call w.state
          (s, refl) in
      omega (arith, same)

pub run_events-uses :
    (sha : String → String) (events : List Event) (w : World) (id : ℕ)
    → IsFair w
    → let after = run_events sha events w in
      let t = tally sha id events w in
      IsFair after
      × (uses_of id after.state.tokens + t.overwritten
          ≡ uses_of id w.state.tokens + t.enrolled + t.restored)
unfolding run_events tally
run_events-uses sha [] w id f = (f, omega arith)
run_events-uses sha (e ∷ events) w id f =
    let next = event-IsFair sha e w f in
    let (fair, counts) = run_events-uses sha events (run_event sha e w) id next in
    (fair, omega (arith, event-Moves sha e id w f, counts))
