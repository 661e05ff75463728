-- ===== src/Nodes/Presence.antt =====
-- What the agent gateway tells server/src/modules/nodes/service.ts of agents.
use gsm.Common.{
  ℕ, Bool, true, false, not, ◌&&◌, Option, none, some, List, [], ◌∷◌, String, ◌==◌, nat_eq,
  string_eq, if◌then◌else◌, any, update_rows,
}
use gsm.Effects.{
  node_updated, node_online, node_offline, node_status, node_status_shown, node_metrics, node_sftp,
}
use gsm.Nodes.{
  Inventory, NodeStatus, online, is_online, same_bool, Node, State, tell, find_node, save_node,
}
use gsm.Nodes.Enrolment.{apply_inventory}

abbrev pub server_protocol : ℕ
server_protocol = 1

pub record Hello : Type 0 where
  pub protocol_version : ℕ
  pub agent_version : String
  pub inventory : Inventory

-- `HelloResult`: none is fine, some is the reason of the refusal.
abbrev pub HelloResult : Type 0
HelloResult = Option String

abbrev pub greeted : ℕ → Hello → Node → Node
greeted now hello n = record (apply_inventory hello.inventory n) {
  agent_version = some hello.agent_version;
  protocol_version = some hello.protocol_version;
  last_seen_at = some now;
  status = online;
}

unfoldable pub on_agent_hello : ℕ → ℕ → Hello → State → State × HelloResult
on_agent_hello now id hello st =
    if not (hello.protocol_version == server_protocol)
    then (
      st,
      some
          "protocol version ${hello.protocolVersion} not supported (server speaks ${PROTOCOL_VERSION})",
    )
    else elim (find_node id st) [
      | none ↦ (st, some "node no longer exists")
      | some n ↦ (
        tell
            (node_status_shown id true
              ∷ node_updated id
              ∷ (if is_online n.status then [] else node_online id ∷ []))
            (save_node id (greeted now hello) st),
        none,
      )
    ]

unfoldable pub on_agent_metrics : ℕ → ℕ → String → State → State
on_agent_metrics now id metrics st =
    tell (node_metrics id ∷ [])
      (save_node id (λ n. record n { last_metrics = some metrics; last_seen_at = some now }) st)

-- Only a row with another status changes, and only then is anything told.
unfoldable pub set_status : ℕ → NodeStatus → State → State
set_status id status st =
    let changing : Node → Bool =
      λ n. n.id == id && not (same_bool (is_online n.status) (is_online status)) in
    let told =
      node_status_shown id (is_online status)
      ∷ node_status id (is_online status)
      ∷ (if is_online status then [] else node_offline id ∷ []) in
    if any changing st.nodes
    then tell told
        (record st { nodes = update_rows changing (λ n. record n { status = status }) st.nodes })
    else st

pub record SftpReport : Type 0 where
  pub host_key : String
  pub error : Option String
  pub listening : Bool

pub record FirewallReport : Type 0 where
  pub backend : Option String
  pub error : Option String
  pub sftp : List String

unfoldable pub with_sftp : Option SftpReport → Node → Node
with_sftp none n = record n {
  sftp_error = some "The agent on this node is too old for SFTP; update it";
}
with_sftp (some s) n = record n {
  sftp_host_key = if s.host_key == "" then none else some s.host_key;
  sftp_error = s.error;
}

unfoldable pub with_firewall : Option FirewallReport → Node → Node
with_firewall none n = record n {
  firewall_backend = none;
  firewall_error = some "The agent on this node is too old to manage its firewall; update it";
  firewall_sftp = none;
}
with_firewall (some f) n = record n {
  firewall_backend = f.backend;
  firewall_error = f.error;
  firewall_sftp = some f.sftp;
}

-- `configureAgent`, once the agent has answered.
unfoldable pub agent_configured : ℕ → Option SftpReport → Option FirewallReport → State → State
unfolding with_sftp with_firewall
agent_configured id sftp firewall st =
    tell (node_sftp id (elim sftp [ none ↦ false | some s ↦ s.listening ]) ∷ node_updated id ∷ [])
      (save_node id (λ n. with_firewall firewall (with_sftp sftp n)) st)
