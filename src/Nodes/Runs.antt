-- ===== src/Nodes/Runs.antt =====
-- Sequences of events on nodes and enrolment tokens, and the sums that account for a token's uses.
use gsm.Common.{
  ℕ, ◌+◌, ◌-◌, Option, none, some, List, [], ◌∷◌, String, ◌==◌, nat_eq, string_eq, if◌then◌else◌,
  lookup, delete, All, ok, err,
}
use gsm.Nodes.{EnrollmentToken, NodeStatus, NodeInstance, State}
use gsm.Nodes.Enrolment.{
  EnrollInput, create_enrollment_token, revoke_enrollment_token, enroll_begin, enroll_end,
}
use gsm.Nodes.Presence.{
  Hello, on_agent_hello, on_agent_metrics, set_status, SftpReport, FirewallReport, agent_configured,
}
use gsm.Nodes.Manage.{NodeChange, update, remove, grant, revoke}
use gsm.Nodes.Sound.{HasBoth, IsSound}
use gsm.Nodes.Uses.{uses_of, IsHeld}
use gsm.Nodes.Changes.{
  update-HasBoth, remove-HasBoth, grant-HasBoth, revoke-HasBoth, on_agent_hello-HasBoth,
  on_agent_metrics-HasBoth, set_status-HasBoth, agent_configured-HasBoth,
}

-- The calls that leave tokens alone; `others` is what other modules do to their tables meanwhile.
pub data Call : Type 0 where
  greets : ℕ → ℕ → Hello → Call
  measures : ℕ → ℕ → String → Call
  turns : ℕ → NodeStatus → Call
  configures : ℕ → Option SftpReport → Option FirewallReport → Call
  updates : ℕ → NodeChange → Call
  removes : ℕ → Call
  grants revokes_owner : ℕ → ℕ → Call
  others : List NodeInstance → List (ℕ × ℕ) → List ℕ → List ℕ → Call

-- A request to enrol has a number, and comes as two events: up to its wait and after it.
pub data Event : Type 0 where
  creates : ℕ → String → Option ℕ → Option ℕ → String → Event
  revokes : ℕ → ℕ → Event
  begins : ℕ → ℕ → EnrollInput → Event
  ends : ℕ → ℕ → String → Event
  calls : Call → Event

-- The state, and the requests that wait, each with the token row it read.
pub record World : Type 0 where
  pub state : State
  pub waiting : List (ℕ × (EnrollmentToken × EnrollInput))

unfoldable pub run_call : Call → State → State
run_call (greets now id hello) st = (on_agent_hello now id hello st).0
run_call (measures now id metrics) st = on_agent_metrics now id metrics st
run_call (turns id status) st = set_status id status st
run_call (configures id sftp firewall) st = agent_configured id sftp firewall st
run_call (updates id input) st = (update id input st).0
run_call (removes id) st = (remove id st).0
run_call (grants id user_id) st = (grant id user_id st).0
run_call (revokes_owner id user_id) st = (revoke id user_id st).0
run_call (others instances ports connected users) st = record st {
  instances = instances;
  instance_ports = ports;
  connected = connected;
  user_ids = users;
}

module _ (sha : String → String) where
  unfoldable pub run_event : Event → World → World
  unfolding run_call
  run_event (creates now name max_uses hours random) w = record w {
    state = (create_enrollment_token sha now name max_uses hours random w.state).0;
  }
  run_event (revokes now id) w = elim (revoke_enrollment_token now id w.state) [
    | err e ↦ w
    | ok after ↦ record w { state = after }
  ]
  run_event (begins now request input) w = elim (enroll_begin sha now input.token w.state) [
    | err e ↦ w
    | ok token ↦ record w { waiting = (request, (token, input)) ∷ w.waiting }
  ]
  run_event (ends now request secret) w = elim (lookup request w.waiting) [
    | none ↦ w
    | some read ↦ record {
      state = (enroll_end sha now secret read.0 read.1 w.state).0;
      waiting = delete request w.waiting;
    }
  ]
  run_event (calls call) w = record w { state = run_call call w.state }

  unfoldable pub run_events : List Event → World → World
  unfolding run_event
  run_events [] w = w
  run_events (e ∷ events) w = run_events events (run_event e w)

abbrev pub read_of : Option (EnrollmentToken × EnrollInput) → Option EnrollmentToken
read_of none = none
read_of (some read) = some read.0

-- The token row that an enrolment read, at the event that ends it.
abbrev pub ended : Event → World → Option EnrollmentToken
ended (ends now request secret) w = read_of (lookup request w.waiting)
ended _ w = none

-- What the event adds to one of three sums for a token: the enrolments with it, the uses that its row
-- had more than when this one read it, and those that it had less.
pub record Tally : Type 0 where
  pub enrolled : ℕ
  pub overwritten : ℕ
  pub restored : ℕ

abbrev pub nothing : Tally
nothing = record { enrolled = 0; overwritten = 0; restored = 0 }

abbrev pub tally_with : ℕ → Option EnrollmentToken → List EnrollmentToken → Tally
tally_with id none tokens = nothing
tally_with id (some t) tokens =
    if t.id == id
    then record {
      enrolled = 1;
      overwritten = uses_of id tokens - t.uses;
      restored = t.uses - uses_of id tokens;
    }
    else nothing

abbrev pub tally_of : ℕ → Event → World → Tally
tally_of id e w = tally_with id (ended e w) w.state.tokens

abbrev plus : Tally → Tally → Tally
plus a b = record {
  enrolled = a.enrolled + b.enrolled;
  overwritten = a.overwritten + b.overwritten;
  restored = a.restored + b.restored;
}

unfoldable pub tally : (String → String) → ℕ → List Event → World → Tally
tally sha id [] w = nothing
tally sha id (e ∷ events) w = plus (tally_of id e w) (tally sha id events (run_event sha e w))

-- Tokens are bounded, and what waiting requests read of them holds.
abbrev pub IsFair : World → Type 0
IsFair w = IsSound w.state × All (λ r. IsHeld w.state.tokens r.1.0) w.waiting

module _ (P : List EnrollmentToken → ℕ → Type 0) where
  pub run_call-HasBoth : (call : Call) (st : State) → HasBoth P st → HasBoth P (run_call call st)
  unfolding run_call
  run_call-HasBoth (greets now id hello) st b = on_agent_hello-HasBoth P now id hello st b
  run_call-HasBoth (measures now id metrics) st b = on_agent_metrics-HasBoth P now id metrics st b
  run_call-HasBoth (turns id status) st b = set_status-HasBoth P id status st b
  run_call-HasBoth (configures id sftp firewall) st b =
      agent_configured-HasBoth P id sftp firewall st b
  run_call-HasBoth (updates id input) st b = update-HasBoth P id input st b
  run_call-HasBoth (removes id) st b = remove-HasBoth P id st b
  run_call-HasBoth (grants id user_id) st b = grant-HasBoth P id user_id st b
  run_call-HasBoth (revokes_owner id user_id) st b = revoke-HasBoth P id user_id st b
  run_call-HasBoth (others instances ports connected users) st b = b
