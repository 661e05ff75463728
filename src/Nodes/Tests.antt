-- ===== src/Nodes/Tests.antt =====
-- Runs of the nodes' operations, and the witnesses of their theorems.
use gsm.Common.{
  ℕ, ◌≡◌, ◌≢◌, refl, true, false, Option, none, some, is_some, [], ◌∷◌, String, ◌==◌, nat_eq,
  string_eq, if◌then◌else◌, map, List, lookup, delete, ok, err, bad_request, unauthorized, arith,
}
use gsm.Effects.{agent_request, node_updated, node_online, node_status_shown}
use gsm.Text.{slice_to, trim, decimal, before_char, after_char, has_char}
use gsm.Nodes.{Inventory, offline, Node, State}
use gsm.Nodes.Enrolment.{
  EnrollInput, Enrolled, create_enrollment_token, revoke_enrollment_token, enroll_begin, enroll_end,
  enroll, known_agent, authenticate_agent,
}
use gsm.Nodes.Presence.{Hello, on_agent_hello, set_status}
use gsm.Nodes.Manage.{
  NodeChange, update, remove, grant, revoke, changed_node, change_checks, change_saved,
}
use gsm.Nodes.Sound.{IsSound}
use gsm.Nodes.Uses.{uses_of}
use gsm.Nodes.Runs.{
  greets, updates, Event, creates, begins, ends, calls, run_event, run_events, tally, IsFair,
}
use gsm.Nodes.Fair.{run_events-uses}
use gsm.Nodes.Secrets.{enroll-known_agent}

abbrev start : State
start = record {
  tokens = [];
  next_token = 1;
  nodes = [];
  next_node = 1;
  node_users = [];
  user_ids = 5 ∷ [];
  instances = [];
  instance_ports = [];
  connected = 1 ∷ [];
  audit = [];
  told = [];
}

abbrev sha : String → String
sha s = s

abbrev machine : String → Inventory
machine id = record {
  hostname = "box";
  machine_id = id;
  os = "debian";
  kernel = "6";
  arch = "amd64";
  cpu = "8";
  memory_total_bytes = 16;
  docker = none;
  data_dir = "/srv";
}

abbrev asking : String → EnrollInput
asking id = record {
  token = "gsm_enr_x";
  name = none;
  agent_version = "0.6.0";
  inventory = machine id;
}

abbrev with_token : State
with_token = (create_enrollment_token sha 0 "one" (some 1) none "x" start).0

abbrev enrolled : State
enrolled = (enroll sha 10 "s1" (asking "m1") with_token).0

run : Unit {0}
unfolding create_enrollment_token revoke_enrollment_token enroll_begin enroll_end enroll known_agent
    authenticate_agent on_agent_hello set_status update remove grant revoke slice_to trim decimal
    before_char after_char has_char
run = tt

abbrev number_of : String → Option ℕ
number_of s = if s == "1" then some 1 else none

enrolled_run :
    ((enroll sha 10 "s1" (asking "m1") with_token).1
      ≡ ok (record { agent_token = "1.s1"; node_id = 1; name = "box" }))
    × (is_some (authenticate_agent sha number_of (some "1.s1") enrolled) ≡ true)
    × (authenticate_agent sha number_of (some "1.s2") enrolled ≡ none)
    × (authenticate_agent sha number_of (some ".s1") enrolled ≡ none)
    × ((enroll sha 20 "s2" (asking "m2") enrolled).1
        ≡ err (unauthorized "Invalid or expired enrollment token"))
unfolding run
enrolled_run = (refl, refl, refl, refl, refl)

abbrev no_change : NodeChange
no_change = record {
  name = none;
  notes = none;
  public_address = none;
  bind_address = none;
  port_range_start = none;
  port_range_end = none;
  sftp_port = none;
  firewall_managed = none;
}

update_run :
    ((update 1 (record no_change { sftp_port = some (some 30500) }) enrolled).1
      ≡ err (bad_request "The SFTP port (${n.sftpPort}) must be outside the port pool"))
    × ((update 1 (record no_change { port_range_end = some 60000 }) enrolled).1
        ≡ err (bad_request "A port range covers at most 20000 ports"))
    × ((update 1
          (record no_change { sftp_port = some none })
          (record enrolled { told = [] })).0.told
        ≡ node_updated 1 ∷ agent_request 1 "agent.configure" ∷ [])
    × ((update 1 no_change (record enrolled { told = [] })).0.told ≡ node_updated 1 ∷ [])
unfolding run changed_node change_checks
update_run = (refl, refl, refl, refl)

abbrev hello : Hello
hello = record { protocol_version = 1; agent_version = "0.7.0"; inventory = machine "m1" }

presence_run :
    ((on_agent_hello 30 1 hello (record enrolled { told = [] })).0.told
      ≡ node_status_shown 1 true ∷ node_updated 1 ∷ node_online 1 ∷ [])
    × ((on_agent_hello 30 2 hello enrolled).1 ≡ some "node no longer exists")
    × (set_status 1 offline enrolled ≡ enrolled)
unfolding run
presence_run = (refl, refl, refl)

start-IsFair : IsFair (record { state = start; waiting = [] })
start-IsFair = (
  (
    record { keyed = λ k. omega arith; below = tt; machines = λ m. omega arith; pooled = tt },
    record { keyed = λ k. omega arith; below = tt; bounded = tt },
  ),
  tt,
)

-- Two enrolments that both check a token for one use before either is saved.
abbrev overlap : List Event
overlap =
    creates 0 "one" (some 1) none "x"
    ∷ begins 10 1 (asking "m1")
    ∷ begins 11 2 (asking "m2")
    ∷ ends 12 1 "s1"
    ∷ ends 13 2 "s2"
    ∷ calls (greets 30 1 hello)
    ∷ calls (updates 1 (record no_change { sftp_port = some none }))
    ∷ []

-- Both enrol a node, and the row counts one use: the second overwrote that of the first.
overlap_run :
    let after = run_events sha overlap (record { state = start; waiting = [] }) in
    (map (λ n. n.machine_id) after.state.nodes ≡ "m1" ∷ "m2" ∷ [])
    × (uses_of 1 after.state.tokens ≡ 1)
    × (tally sha 1 overlap (record { state = start; waiting = [] })
        ≡ record { enrolled = 2; overwritten = 1; restored = 0 })
unfolding run run_events run_event tally lookup delete changed_node change_checks change_saved
overlap_run = (refl, refl, refl)

with_token-IsSound : IsSound with_token
unfolding create_enrollment_token run_events run_event
with_token-IsSound =
    (run_events-uses sha (creates 0 "one" (some 1) none "x" ∷ [])
      (record { state = start; waiting = [] }) 1 start-IsFair).0.0

given : Enrolled
given = record { agent_token = "1.s1"; node_id = 1; name = "box" }

enrolls_well : (enroll sha 10 "s1" (asking "m1") with_token).1 ≡ ok given
unfolding run given
enrolls_well = refl

enroll-known_agent_example :
    ((n : Node) × (known_agent sha given.node_id "s1" enrolled ≡ some n) × (n.machine_id ≡ "m1"))
    × ((other : String)
        → sha other ≢ sha "s1"
        → known_agent sha given.node_id other enrolled ≡ none)
    × ((id : ℕ) (other : String)
        → (given.node_id == id) ≡ false
        → known_agent sha id other enrolled ≡ known_agent sha id other with_token)
enroll-known_agent_example =
    enroll-known_agent sha 10 "s1" (asking "m1") with_token given with_token-IsSound enrolls_well
