-- ===== src/Gateway/Messages.antt =====
-- server/src/ws/agent-gateway.ts: what an agent's message does (onMessage, handleEvent).
use gsm.Common.{
  ℕ, Bool, true, not, ◌&&◌, ◌||◌, Option, none, some, String, ◌==◌, nat_eq, string_eq,
  if◌then◌else◌, lookup, insert, Result, ok, err, contains, List, [], ◌∷◌,
}
use gsm.Text.{◌+++◌}
use gsm.Gateway.{
  agent_rpc_error, Pending, Connection, resolved, rejected, Envelope, req, res_ok, res_err, event,
  stream, sends, closes, streams, passes_on, configures, greets, Gateway, tell, put_connection,
  finish,
}

-- What the schemas and the SFTP service say to the texts of a message.
pub record Wire : Type 0 where
  pub parse_result : String → String → Option String
  pub fits_event : String → String → Bool
  pub parse_sign_in : String → Option String
  pub sign_in : ℕ → String → Result String

-- The events that are passed on once the agent's hello was accepted.
abbrev pub passed_events : List String
passed_events = "metrics" ∷ "inst.status" ∷ "inst.console" ∷ "inst.stats" ∷ "sftp.session" ∷ []

-- `handleEvent`: a `hello` is passed to the nodes service, which answers later. A payload that does
-- not fit, a log line and an unknown event change nothing.
unfoldable pub handle_event : Wire → ℕ → Connection → String → String → Gateway → Gateway
handle_event w node c name value g =
    if not (w.fits_event name value)
    then g
    else if name == "hello" || (contains name passed_events && c.hello_received)
    then tell (passes_on node name value) g
    else g

-- A settled request's answer, by the schema of its method.
unfoldable pub answer_ok : Wire → ℕ → Connection → String → Pending → String → Gateway → Gateway
unfolding finish
answer_ok w node c id p value g = elim (w.parse_result p.method value) [
  | some parsed ↦ finish node c id (resolved parsed) g
  | none ↦
      finish node c id
        (rejected (
          agent_rpc_error
            (record { code = "bad_result"; message = "Malformed result for ${p.method}" })))
        g
]

unfoldable pub on_stream : ℕ → Connection → String → Pending → String → ℕ → Bool → Gateway → Gateway
on_stream node c id p chunk seq done g =
    if done
    then put_connection node
        (record c { pending = insert id (record p { stream_done = true }) c.pending }) g
    else if p.on_stream
    then tell (streams id chunk seq) g
    else g

-- The one method that agents call on the server.
unfoldable pub on_request : Wire → ℕ → Connection → String → String → String → Gateway → Gateway
on_request w node c id method params g =
    let refuse = λ (code message : String).
      tell (sends c.socket (res_err id (record { code = code; message = message }))) g in
    if not c.hello_received || not (method == "sftp.auth")
    then refuse "unknown_method" ("unknown method " +++ method)
    else elim (w.parse_sign_in params) [
      | none ↦ refuse "invalid_params" "invalid sftp.auth params"
      | some parsed ↦ elim (w.sign_in node parsed) [
        | ok result ↦ tell (sends c.socket (res_ok id result)) g
        | err problem ↦ refuse "internal" "sign-in check failed"
      ]
    ]

unfoldable pub handle : Wire → ℕ → Connection → Envelope → Gateway → Gateway
unfolding handle_event answer_ok on_stream on_request finish
handle w node c (event name value) g = handle_event w node c name value g
handle w node c (res_ok id value) g = elim (lookup id c.pending) [
  | none ↦ g
  | some p ↦ answer_ok w node c id p value g
]
handle w node c (res_err id problem) g = elim (lookup id c.pending) [
  | none ↦ g
  | some p ↦ finish node c id (rejected (agent_rpc_error problem)) g
]
handle w node c (stream id chunk seq done) g = elim (lookup id c.pending) [
  | none ↦ g
  | some p ↦ on_stream node c id p chunk seq done g
]
handle w node c (req id method params) g = on_request w node c id method params g

-- A message of a socket that was replaced, or one that is no envelope, changes nothing.
unfoldable pub on_message : Wire → ℕ → ℕ → Option Envelope → Gateway → Gateway
unfolding handle
on_message w node socket decoded g = elim (lookup node g.connections) [
  | none ↦ g
  | some c ↦
      if not (c.socket == socket)
      then g
      else elim decoded [ none ↦ g | some env ↦ handle w node c env g ]
]

-- The nodes service's answer to a hello that came through `socket`. The connection may have been
-- replaced meanwhile: then nobody sees its `helloReceived`, and the rest happens all the same.
unfoldable pub hello_answered : ℕ → ℕ → Result (Unit {0}) → String → Gateway → Gateway
hello_answered node socket (err problem) reason g = tell (closes socket 1008 reason) g
hello_answered node socket (ok done) reason g = tell (greets node) (
    tell (configures node) (elim (lookup node g.connections) [
      | none ↦ g
      | some c ↦
          if c.socket == socket
          then put_connection node (record c { hello_received = true }) g
          else g
    ]))
