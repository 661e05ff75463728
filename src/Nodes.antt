-- ===== src/Nodes.antt =====
-- server/src/modules/nodes: the machines that run agents, the tokens they enrol with, and the state
-- that the child modules change. Columns that repeat a field of the inventory are left to it.
pub mod Enrolment
pub mod Presence
pub mod Manage
pub mod Sound
pub mod Enrols
pub mod Changes
pub mod Uses
pub mod Secrets
pub mod Runs
pub mod Fair
mod Tests
use gsm.Common.{
  ℕ, Bool, true, false, not, Option, none, some, List, [], ◌∷◌, ◌++◌, String, ◌==◌, nat_eq, Eq,
  Result, ok, err, not_found, find?, update_rows, ◌≡◌, ◌↔◌, refl,
}
use gsm.Effects.{Effect}

-- A number is an id of a token or a node, a user or an instance, or a time in milliseconds.
pub record EnrollmentToken : Type 0 where
  pub id : ℕ
  pub name : String
  pub token_hash : String
  pub token_prefix : String
  pub max_uses : Option ℕ
  pub uses : ℕ
  pub expires_at : Option ℕ
  pub revoked_at : Option ℕ

-- What an agent reports of its machine; `os` and `cpu` are records in the source.
pub record Inventory : Type 0 where
  pub hostname : String
  pub machine_id : String
  pub os : String
  pub kernel : String
  pub arch : String
  pub cpu : String
  pub memory_total_bytes : ℕ
  pub docker : Option String
  pub data_dir : String

pub data NodeStatus : Type 0 where
  online offline : NodeStatus

abbrev pub is_online : NodeStatus → Bool
is_online online = true
is_online offline = false

pub record Node : Type 0 where
  pub id : ℕ
  pub name : String
  pub hostname : String
  pub machine_id : String
  pub status : NodeStatus
  pub agent_secret_hash : String
  pub agent_version : Option String
  pub protocol_version : Option ℕ
  pub inventory : Option Inventory
  pub last_metrics : Option String
  pub last_seen_at : Option ℕ
  pub enrolled_at : ℕ
  pub enrollment_token_id : Option ℕ
  pub notes : Option String
  pub public_address : Option String
  pub bind_address : String
  pub port_range_start : ℕ
  pub port_range_end : ℕ
  pub sftp_port : Option ℕ
  pub sftp_host_key : Option String
  pub sftp_error : Option String
  pub firewall_managed : Bool
  pub firewall_backend : Option String
  pub firewall_error : Option String
  pub firewall_sftp : Option (List String)

abbrev pub same_bool : Bool → Bool → Bool
same_bool true b = b
same_bool false b = not b

-- What the module reads and writes of an instance: whether it has rules in its node's firewall.
pub record NodeInstance : Type 0 where
  pub id : ℕ
  pub node_id : ℕ
  pub firewall : Bool

pub record State : Type 0 where
  pub tokens : List EnrollmentToken
  pub next_token : ℕ
  pub nodes : List Node
  pub next_node : ℕ
  pub node_users : List (ℕ × ℕ)  -- node and user
  pub user_ids : List ℕ
  pub instances : List NodeInstance
  pub instance_ports : List (ℕ × ℕ)  -- node and port
  pub connected : List ℕ
  pub audit : List (String × ℕ)  -- action and node
  pub told : List Effect

abbrev pub tell : List Effect → State → State
tell effects st = record st { told = st.told ++ effects }

abbrev pub find_node : ℕ → State → Option Node
find_node id st = find? (λ n. n.id == id) st.nodes

-- `save`: the columns that changed, written to the row.
abbrev pub save_node : ℕ → (Node → Node) → State → State
save_node id change st = record st { nodes = update_rows (λ n. n.id == id) change st.nodes }

abbrev pub get : ℕ → State → Result Node
get id st = elim (find_node id st) [ none ↦ err (not_found "Node") | some n ↦ ok n ]

abbrev pub default_range_start : ℕ
default_range_start = 30000

abbrev pub default_range_end : ℕ
default_range_end = 30999

abbrev pub default_sftp_port : ℕ
default_sftp_port = 2022
