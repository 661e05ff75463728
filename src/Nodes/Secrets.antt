-- ===== src/Nodes/Secrets.antt =====
-- The secrets of nodes before and after an enrolment.
use gsm.Common.{
  ℕ, ◌<◌, ◌≡◌, ◌≢◌, refl, sym, ◌∙◌, inl, inr, false, Option, none, some, List, [], ◌∷◌, ◌++◌,
  String, ◌==◌, nat_eq, string_eq, nat_beq_iff, if◌then◌else◌, find?, find?_sound, find?_of_key,
  find?-none, find?-snoc, update_rows, All, All-map, Option-cases, Result-cases, ok, ok-injective,
  arith,
}
use gsm.Nodes.{EnrollmentToken, Node, State, find_node}
use gsm.Nodes.Enrolment.{
  EnrollInput, Enrolled, enroll_begin, enroll_end, enroll, save_enrolled, reattached, built,
  known_agent,
}
use gsm.Nodes.Sound.{AreSound, IsSound}

-- The row that is found after a change of the rows with one id.
find-update_rows :
    (id k : ℕ) (f : Node → Node) (nodes : List Node)
    → ((n : Node) → (f n).id ≡ n.id)
    → find? (λ n. n.id == k) (update_rows (λ n. n.id == id) f nodes) ≡ (
        if id == k
        then (elim (find? (λ n. n.id == k) nodes) as (λ x. Option Node) [
          | none ↦ none
          | some n ↦ some (f n)
        ])
        else find? (λ n. n.id == k) nodes)
find-update_rows id k f [] keeps = ground arith
find-update_rows id k f (n ∷ nodes) keeps =
    ground (arith, find-update_rows id k f nodes keeps, keeps n)

fresh_none :
    (next : ℕ) (nodes : List Node)
    → All (λ r. r.id < next) nodes
    → find? (λ r. r.id == next) nodes ≡ none
fresh_none next nodes below =
    find?-none (λ r. r.id == next) nodes (All-map nodes (λ r b. below_other r.id next b) below)
  where
    below_other : (a b : ℕ) → a < b → (a == b) ≡ false
    below_other a b l = ground arith

added_found :
    (n : Node) (nodes : List Node)
    → All (λ r. r.id < n.id) nodes
    → find? (λ r. r.id == n.id) (nodes ++ n ∷ []) ≡ some n
added_found n nodes below =
    find?-snoc (λ r. r.id == n.id) nodes n (fresh_none n.id nodes below)
      ((nat_beq_iff n.id n.id).1 refl)

added_other :
    (k : ℕ) (n : Node) (nodes : List Node)
    → (n.id == k) ≡ false
    → find? (λ r. r.id == k) (nodes ++ n ∷ []) ≡ find? (λ r. r.id == k) nodes
added_other k n [] other = ground arith
added_other k n (r ∷ nodes) other = ground (arith, added_other k n nodes)

module _ (sha : String → String) (now : ℕ) (secret : String) (input : EnrollInput) where
  -- What is saved: the node's row has the new secret and the machine, and other rows stay.
  saved_lem :
      (token : EnrollmentToken) (st : State)
      → AreSound st.nodes st.next_node
      → let saved = save_enrolled sha now secret token input st in
        (find_node saved.1.id saved.0 ≡ some saved.1)
        × (saved.1.agent_secret_hash ≡ sha secret)
        × (saved.1.machine_id ≡ input.inventory.machine_id)
        × ((k : ℕ) → (saved.1.id == k) ≡ false → find_node k saved.0 ≡ find_node k st)
  unfolding save_enrolled built
  saved_lem token st s =
      elim (Option-cases (find? (λ n. n.machine_id == input.inventory.machine_id) st.nodes)) [
        | inl new ↦
            rw (new, save_enrolled)
              (
                added_found _ st.nodes s.below,
                refl,
                refl,
                λ k other. added_other k _ st.nodes other,
              )
        | inr (n, there) ↦
            let f = reattached now (sha secret) input.inventory token.id in
            let by_id =
              find?_of_key (λ r. r.machine_id == input.inventory.machine_id) (λ r. r.id == n.id)
                st.nodes there ((nat_beq_iff n.id n.id).1 refl) (s.keyed n.id) in
            rw (there, save_enrolled)
              (
                find-update_rows n.id n.id f st.nodes (λ r. refl) ∙ ground (arith, by_id),
                refl,
                (string_eq.test_iff n.machine_id input.inventory.machine_id).0
                    (find?_sound (λ r. r.machine_id == input.inventory.machine_id) st.nodes there),
                λ k other. find-update_rows n.id k f st.nodes (λ r. refl) ∙ ground arith,
              )
      ]

  after_save :
      (token : EnrollmentToken) (st : State)
      → AreSound st.nodes st.next_node
      → let out = enroll_end sha now secret token input st in
        ((n : Node) × (known_agent sha out.1.node_id secret out.0 ≡ some n)
          × (n.machine_id ≡ input.inventory.machine_id))
        × ((other : String)
            → sha other ≢ sha secret
            → known_agent sha out.1.node_id other out.0 ≡ none)
        × ((id : ℕ) (other : String)
            → (out.1.node_id == id) ≡ false
            → known_agent sha id other out.0 ≡ known_agent sha id other st)
  unfolding enroll_end known_agent
  after_save token st s =
      let (row, hash, machine, others) = saved_lem token st s in
      let n = (save_enrolled sha now secret token input st).1 in
      (
        (n, rw (row, known_agent) (accepted n secret (sym hash)), machine),
        λ other differs. rw (row, known_agent) (refused n other (λ e. differs (e ∙ hash))),
        λ id other away. rw (others id away, known_agent) refl,
      )
    where
      accepted :
          (n : Node) (given : String)
          → sha given ≡ n.agent_secret_hash
          → (if sha given == n.agent_secret_hash then some n else none) ≡ some n
      accepted n given e = rw ((string_eq.test_iff (sha given) n.agent_secret_hash).1 e) refl

      refused :
          (n : Node) (given : String)
          → sha given ≢ n.agent_secret_hash
          → (if sha given == n.agent_secret_hash then some n else none) ≡ none
      refused n given differs = ground (arith, string_eq.test_iff (sha given) n.agent_secret_hash)

-- After an enrolment that goes well, from rows as Nodes.Runs keeps them, the new secret is accepted for the node it gave, which is that
-- of the agent's machine; any secret with another hash, an earlier one too, is refused for it; and
-- for every other node the same secrets are accepted as before.
pub enroll-known_agent :
    (sha : String → String) (now : ℕ) (secret : String) (input : EnrollInput) (st : State)
    (out : Enrolled)
    → IsSound st
    → (enroll sha now secret input st).1 ≡ ok out
    → let after = (enroll sha now secret input st).0 in
      ((n : Node) × (known_agent sha out.node_id secret after ≡ some n)
        × (n.machine_id ≡ input.inventory.machine_id))
      × ((other : String) → sha other ≢ sha secret → known_agent sha out.node_id other after ≡ none)
      × ((id : ℕ) (other : String)
          → (out.node_id == id) ≡ false
          → known_agent sha id other after ≡ known_agent sha id other st)
unfolding enroll
enroll-known_agent sha now secret input st out (s, b) h =
    elim (Result-cases (enroll_begin sha now input.token st)) [
      | inl (e, refused) ↦ absurd (ground (arith, refused, h))
      | inr (token, begun) ↦
          let given : (enroll_end sha now secret token input st).1 ≡ out =
            ok-injective (rw (begun, enroll) at h) in
          rw (← given) (rw (begun, enroll) (after_save sha now secret input token st s))
    ]
