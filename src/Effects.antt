-- ===== src/Effects.antt =====
-- What the services tell the rest of the server: the event bus of server/src/lib/events.ts, the
-- calls of server/src/ws/ui-gateway.ts that reach browsers, and the mail it sends (an address and
-- the secret that the mail carries), the requests to agents, and the calls that tell the
-- players' lists (modules/players/service.ts). An operation lists them in order.
use gsm.Common.{ℕ, Bool, String, Option, List}
use gsm.Enums.{InstanceStatus}

pub data Effect : Type 0 where
  access_changed : List ℕ → Effect
  instance_running : ℕ → Effect
  ports_changed : ℕ → Effect
  instance_deleted : ℕ → ℕ → Effect
  reconnect_user : ℕ → Effect
  disconnect_user : ℕ → Effect
  instance_updated : ℕ → Effect
  instance_status : ℕ → InstanceStatus → Option String → Effect
  mail : String → String → Effect
  agent_request : ℕ → String → Effect
  agent_state : ℕ → String → Effect
  players_status : ℕ → InstanceStatus → Effect
  players_forget : ℕ → Effect
  players_resync : List ℕ → Effect
  node_updated : ℕ → Effect
  node_deleted : ℕ → Effect
  node_online : ℕ → Effect
  node_offline : ℕ → Effect
  node_status : ℕ → Bool → Effect
  node_status_shown : ℕ → Bool → Effect
  node_metrics : ℕ → Effect
  node_sftp : ℕ → Bool → Effect
