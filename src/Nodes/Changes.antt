-- ===== src/Nodes/Changes.antt =====
-- Changes and removals of nodes, and what agents report, keep the nodes sound.
use gsm.Common.{
  ℕ, ◌≡◌, refl, subst, sym, ◌∙◌, inl, inr, Bool, not, ◌&&◌, List, Option, none, some, String, ◌==◌,
  nat_eq, ltb, any, contains, is_some, find?_unique, count, update_rows, All-map, Bool-cases,
  Option-cases, Result-cases, ok, arith,
}
use gsm.Nodes.{EnrollmentToken, Node, NodeStatus, same_bool, is_online, State, find_node}
use gsm.Nodes.Presence.{
  Hello, greeted, on_agent_hello, on_agent_metrics, SftpReport, FirewallReport, agent_configured,
  with_sftp, with_firewall, set_status,
}
use gsm.Nodes.Manage.{
  in_pool, NodeChange, changed_node, change_checks, change_saved, update, remove, grant, revoke,
}
use gsm.Nodes.Sound.{HasPool, AreSound, HasBoth, changed-AreSound, kept-AreSound, gone-AreSound}

checked_pool :
    (id : ℕ) (input : NodeChange) (n : Node) (st : State) (done : Unit {0})
    → change_checks id input n st ≡ ok done
    → HasPool n
unfolding change_checks in_pool
checked_pool id input n st done h = record {
  ordered = ground arith;
  short = ground arith;
  apart = λ port e. ground (arith, e);
}

changed_id : (input : NodeChange) (r : Node) → (changed_node input r).id ≡ r.id
unfolding changed_node
changed_id input r = refl

changed_machine : (input : NodeChange) (r : Node) → (changed_node input r).machine_id ≡ r.machine_id
unfolding changed_node
changed_machine input r = refl

module _ (P : List EnrollmentToken → ℕ → Type 0) where
  pub update-HasBoth :
      (id : ℕ) (input : NodeChange) (st : State) → HasBoth P st → HasBoth P (update id input st).0
  unfolding update change_saved
  update-HasBoth id input st (s, b) = elim (Option-cases (find_node id st)) [
    | inl gone ↦ rw (gone, update) (s, b)
    | inr (n, found) ↦ elim (Result-cases (change_checks id input (changed_node input n) st)) [
      | inr (done, fine) ↦
          rw (found, update)
            (rw fine (
              changed-AreSound (λ r. r.id == id) (changed_node input) st.nodes st.next_node
                  (changed_id input) (changed_machine input)
                  (All-map st.nodes
                    (λ r is_n here p.
                      subst (λ x. HasPool (changed_node input x)) (sym (is_n here))
                        (checked_pool id input (changed_node input n) st done fine))
                    (find?_unique (λ r. r.id == id) st.nodes found (s.keyed id)))
                  s,
              b,
            ))
      | inl (e, refused) ↦ rw (found, update) (rw refused (s, b))
    ]
  ]

  pub remove-HasBoth : (id : ℕ) (st : State) → HasBoth P st → HasBoth P (remove id st).0
  unfolding remove
  remove-HasBoth id st (s, b) = elim (Option-cases (find_node id st)) [
    | inl gone ↦ rw (gone, remove) (s, b)
    | inr (n, found) ↦ elim (Bool-cases (ltb 0 (count (λ i. i.node_id == id) st.instances))) [
      | inl hosts ↦ rw (found, remove) (rw hosts (s, b))
      | inr empty ↦
          rw (found, remove) (rw empty (gone-AreSound (λ r. r.id == id) st.nodes st.next_node s, b))
    ]
  ]

  -- A change that leaves id, machine and pool alone.
  untouched :
      (q : Node → Bool) (f : Node → Node) (st : State)
      → ((n : Node) → (f n).id ≡ n.id)
      → ((n : Node) → (f n).machine_id ≡ n.machine_id)
      → ((n : Node) → (f n).port_range_start ≡ n.port_range_start)
      → ((n : Node) → (f n).port_range_end ≡ n.port_range_end)
      → ((n : Node) → (f n).sftp_port ≡ n.sftp_port)
      → HasBoth P st
      → AreSound (update_rows q f st.nodes) st.next_node × P st.tokens st.next_token
  untouched q f st ids machines starts ends ports (s, b) = (
    kept-AreSound q f st.nodes st.next_node ids machines
        (λ n p. record {
          ordered = rw (starts n, ends n) p.ordered;
          short = rw (starts n, ends n) p.short;
          apart = λ port e. rw (starts n, ends n) (p.apart port (sym (ports n) ∙ e));
        })
        s,
    b,
  )

  pub on_agent_hello-HasBoth :
      (now id : ℕ) (hello : Hello) (st : State)
      → HasBoth P st
      → HasBoth P (on_agent_hello now id hello st).0
  unfolding on_agent_hello
  on_agent_hello-HasBoth now id hello st (s, b) = elim (Bool-cases (hello.protocol_version == 1)) [
    | inl same ↦ elim (Option-cases (find_node id st)) [
      | inl gone ↦ rw (same, on_agent_hello) (rw gone (s, b))
      | inr (n, found) ↦
          rw (same, on_agent_hello)
            (rw found (
              untouched (λ r. r.id == id) (greeted now hello) st (λ r. refl) (λ r. refl) (λ r. refl)
                (λ r. refl) (λ r. refl) (s, b)))
    ]
    | inr other ↦ rw (other, on_agent_hello) (s, b)
  ]

  pub set_status-HasBoth :
      (id : ℕ) (status : NodeStatus) (st : State)
      → HasBoth P st
      → HasBoth P (set_status id status st)
  unfolding set_status
  set_status-HasBoth id status st (s, b) =
      let changing : Node → Bool =
        λ n. n.id == id && not (same_bool (is_online n.status) (is_online status)) in
      elim (Bool-cases (any changing st.nodes)) [
        | inl some_row ↦
            rw (some_row, set_status)
              (untouched changing (λ n. record n { status = status }) st (λ r. refl) (λ r. refl)
                (λ r. refl) (λ r. refl) (λ r. refl) (s, b))
        | inr no_row ↦ rw (no_row, set_status) (s, b)
      ]

  pub agent_configured-HasBoth :
      (id : ℕ) (sftp : Option SftpReport) (firewall : Option FirewallReport) (st : State)
      → HasBoth P st
      → HasBoth P (agent_configured id sftp firewall st)
  unfolding agent_configured with_sftp with_firewall
  agent_configured-HasBoth id none none st (s, b) =
      untouched _ _ st (λ r. refl) (λ r. refl) (λ r. refl) (λ r. refl) (λ r. refl) (s, b)
  agent_configured-HasBoth id none (some f) st (s, b) =
      untouched _ _ st (λ r. refl) (λ r. refl) (λ r. refl) (λ r. refl) (λ r. refl) (s, b)
  agent_configured-HasBoth id (some p) none st (s, b) =
      untouched _ _ st (λ r. refl) (λ r. refl) (λ r. refl) (λ r. refl) (λ r. refl) (s, b)
  agent_configured-HasBoth id (some p) (some f) st (s, b) =
      untouched _ _ st (λ r. refl) (λ r. refl) (λ r. refl) (λ r. refl) (λ r. refl) (s, b)

  pub on_agent_metrics-HasBoth :
      (now id : ℕ) (metrics : String) (st : State)
      → HasBoth P st
      → HasBoth P (on_agent_metrics now id metrics st)
  unfolding on_agent_metrics
  on_agent_metrics-HasBoth now id metrics st (s, b) =
      untouched _ _ st (λ r. refl) (λ r. refl) (λ r. refl) (λ r. refl) (λ r. refl) (s, b)

  pub grant-HasBoth :
      (id user_id : ℕ) (st : State) → HasBoth P st → HasBoth P (grant id user_id st).0
  unfolding grant
  grant-HasBoth id user_id st b = elim (Bool-cases (is_some (find_node id st))) [
    | inl there ↦ elim (Bool-cases (contains user_id st.user_ids)) [
      | inl known ↦ elim (Bool-cases (any (λ r. r.0 == id && r.1 == user_id) st.node_users)) [
        | inl owner ↦ rw (there, grant) (rw known (rw owner b))
        | inr other ↦ rw (there, grant) (rw known (rw other b))
      ]
      | inr unknown ↦ rw (there, grant) (rw unknown b)
    ]
    | inr gone ↦ rw (gone, grant) b
  ]

  pub revoke-HasBoth :
      (id user_id : ℕ) (st : State) → HasBoth P st → HasBoth P (revoke id user_id st).0
  unfolding revoke
  revoke-HasBoth id user_id st b =
      elim (Bool-cases (count (λ r. r.0 == id && r.1 == user_id) st.node_users == 0)) [
        | inl not_one ↦ rw (not_one, revoke) b
        | inr owner ↦ rw (owner, revoke) b
      ]
