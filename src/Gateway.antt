-- ===== src/Gateway.antt =====
-- server/src/ws/agent-gateway.ts: the sockets of the agents, the requests that wait on them, and
-- what an agent's messages do. JSON values are texts; what the schemas, the sockets and the
-- services come to are arguments. A request's promise is known by the request's id.
pub mod Messages
pub mod Settled
mod Tests
use gsm.Common.{
  ℕ, Bool, true, false, not, ◌&&◌, ◌||◌, Option, none, some, List, [], ◌∷◌, ◌++◌, map, select,
  String, ◌==◌, nat_eq, string_eq, if◌then◌else◌, lookup, insert, delete, Result, ok, err,
  HttpError, http_error,
}
use gsm.Text.{◌+++◌}

pub record RpcError : Type 0 where
  pub code : String
  pub message : String

-- `new AgentRpcError(rpc, status)`, and with the status that the constructor takes by itself.
abbrev pub agent_error_with : ℕ → RpcError → HttpError
agent_error_with status rpc = http_error status ("agent_" +++ rpc.code) rpc.message

abbrev pub agent_rpc_error : RpcError → HttpError
agent_rpc_error rpc = agent_error_with (if rpc.code == "invalid_params" then 400 else 502) rpc

abbrev pub unavailable_because : String → HttpError
unavailable_because reason = agent_rpc_error (record { code = "unavailable"; message = reason })

pub record Pending : Type 0 where
  pub method : String
  pub on_stream : Bool
  pub stream_done : Bool

-- `AgentConnection`; a socket is known by a number.
pub record Connection : Type 0 where
  pub node_id : ℕ
  pub socket : ℕ
  pub remote_address : Option String
  pub connected_at : ℕ
  pub hello_received : Bool
  pub pending : List (String × Pending)

-- What `resolve` or `reject` was called with.
pub data Answer : Type 0 where
  resolved : String → Answer
  rejected : HttpError → Answer

pub data Envelope : Type 0 where
  req : String → String → String → Envelope
  res_ok : String → String → Envelope
  res_err : String → RpcError → Envelope
  event : String → String → Envelope
  stream : String → String → ℕ → Bool → Envelope

-- What the gateway tells sockets, stream handlers and services.
pub data Told : Type 0 where
  sends : ℕ → Envelope → Told
  closes : ℕ → ℕ → String → Told
  streams : String → String → ℕ → Told
  passes_on : ℕ → String → String → Told
  configures : ℕ → Told
  greets : ℕ → Told
  goes_offline : ℕ → Told

-- A timer that runs: its closure knows the request's connection.
pub record Timer : Type 0 where
  pub node_id : ℕ
  pub socket : ℕ

-- `conns`, with the timers that run, the ids of the promises given out, the settling calls made.
pub record Gateway : Type 0 where
  pub connections : List (ℕ × Connection)
  pub timers : List (String × Timer)
  pub issued : List String
  pub answers : List (String × Answer)
  pub told : List Told

abbrev pub tell : Told → Gateway → Gateway
tell what g = record g { told = g.told ++ what ∷ [] }

-- Reads -----------------------------------------------------------------------------------------

pub is_connected : ℕ → Gateway → Bool
is_connected node g = elim (lookup node g.connections) [ none ↦ false | some c ↦ c.hello_received ]

connected_since : ℕ → Gateway → Option ℕ
connected_since node g = elim (lookup node g.connections) [
  | none ↦ none
  | some c ↦ if c.hello_received then some c.connected_at else none
]

remote_address_of : ℕ → Gateway → Option String
remote_address_of node g = elim (lookup node g.connections) [
  | none ↦ none
  | some c ↦ if c.hello_received then c.remote_address else none
]

connected_ids : Gateway → List ℕ
connected_ids g =
    map (λ c. c.node_id) (select (λ c. c.hello_received) (map (λ x. x.1) g.connections))

-- Settling --------------------------------------------------------------------------------------

abbrev pub drop_pending : String → Connection → Connection
drop_pending id c = record c { pending = delete id c.pending }

abbrev pub put_connection : ℕ → Connection → Gateway → Gateway
put_connection node c g = record g { connections = insert node c g.connections }

-- The timer is cleared (or has fired), the entry deleted, and the promise settled.
pub finish : ℕ → Connection → String → Answer → Gateway → Gateway
finish node c id answer g = record g {
  connections = insert node (drop_pending id c) g.connections;
  timers = delete id g.timers;
  answers = g.answers ++ (id, answer) ∷ [];
}

-- `failAll`: the loop over the entries of `pending`, which is empty afterwards.
pub fail_entries : ℕ → Connection → List (String × Pending) → HttpError → Gateway → Gateway
unfolding finish
fail_entries node c [] problem g = g
fail_entries node c ((id, p) ∷ rest) problem g =
    fail_entries node (drop_pending id c) rest problem (finish node c id (rejected problem) g)

pub fail_all : ℕ → Connection → String → Gateway → Gateway
unfolding fail_entries
fail_all node c reason g = fail_entries node c c.pending (unavailable_because reason) g

-- Requests --------------------------------------------------------------------------------------

pub fresh_pending : String → Bool → Pending
fresh_pending method on_stream = record {
  method = method;
  on_stream = on_stream;
  stream_done = false;
}

-- The entry is put and the timer started.
pub enter : ℕ → Connection → String → Pending → Gateway → Gateway
enter node c id p g = record g {
  connections = insert node (record c { pending = insert id p c.pending }) g.connections;
  timers = insert id (record { node_id = node; socket = c.socket }) g.timers;
  issued = id ∷ g.issued;
}

-- `request` gives the id of its promise, or the error that the promise is rejected with at once.
-- `sent` is what parsing the parameters and sending came to: the parsed text, or what was thrown.
unfoldable pub request :
    ℕ → String → String → Bool → Result String → Gateway → Gateway × Result String
unfolding enter finish fresh_pending
request node id method on_stream sent g =
    let offline =
      agent_error_with 409
        (record { code = "unavailable"; message = "The node is not connected" }) in
    elim (lookup node g.connections) [
      | none ↦ (g, err offline)
      | some c ↦
          if not c.hello_received
          then (g, err offline)
          else let p = fresh_pending method on_stream in
            let entered = enter node c id p g in
            elim sent [
              | ok params ↦ (tell (sends c.socket (req id method params)) entered, ok id)
              | err problem ↦ (
                finish node (record c { pending = insert id p c.pending }) id (rejected problem)
                    entered,
                ok id,
              )
            ]
    ]

-- The timer of `id` fires: the entry of its connection goes, and the promise is rejected.
unfoldable pub fire : String → Gateway → Gateway
unfolding finish
fire id g = elim (lookup id g.timers) [
  | none ↦ g
  | some t ↦
      let problem = rejected (
        agent_error_with 504
          (record { code = "timeout"; message = "${method} timed out after ${timeoutMs}ms" })) in
      let unknown = record g {
        timers = delete id g.timers;
        answers = g.answers ++ (id, problem) ∷ [];
      } in
      elim (lookup t.node_id g.connections) [
        | none ↦ unknown
        | some c ↦ if c.socket == t.socket then finish t.node_id c id problem g else unknown
      ]
]

-- Lifecycle -------------------------------------------------------------------------------------

unfoldable pub disconnect : ℕ → String → Gateway → Gateway
unfolding fail_all
disconnect node reason g = elim (lookup node g.connections) [
  | none ↦ g
  | some c ↦
      let failed = fail_all node c reason g in
      tell (closes c.socket 1000 reason)
        (record failed { connections = delete node failed.connections })
]

pub opened : ℕ → ℕ → Option String → ℕ → Connection
opened node socket address now = record {
  node_id = node;
  socket = socket;
  remote_address = address;
  connected_at = now;
  hello_received = false;
  pending = [];
}

unfoldable pub on_open : ℕ → ℕ → Option String → ℕ → Gateway → Gateway
unfolding fail_all opened
on_open node socket address now g =
    let c' = opened node socket address now in
    elim (lookup node g.connections) [
      | none ↦ put_connection node c' g
      | some c ↦ put_connection node c' (
          tell (closes c.socket 4000 "replaced") (fail_all node c "replaced by a new connection" g))
    ]

unfoldable pub on_close : ℕ → ℕ → Gateway → Gateway
unfolding fail_all
on_close node socket g = elim (lookup node g.connections) [
  | none ↦ g
  | some c ↦
      if not (c.socket == socket)
      then g
      else let failed = fail_all node c "connection closed" g in
        tell (goes_offline node) (record failed { connections = delete node failed.connections })
]
