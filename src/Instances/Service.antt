-- ===== src/Instances/Service.antt =====
-- server/src/modules/instances/service.ts: install, power, command and removal. An operation that
-- waits for the agent is in two parts, before its request and after its answer, since other
-- operations may come between; the answer is an argument, as is what building the spec came to.
-- `power`, `command` and `remove` put their two parts together, where nothing comes between.
pub mod Busy
pub mod Install
pub mod Removal
use gsm.Common.{
  ℕ, Bool, true, false, not, ◌&&◌, ◌||◌, Option, none, some, is_some, List, [], ◌∷◌, ◌++◌, map,
  select, destroy, String, ◌==◌, nat_eq, string_eq, contains, if◌then◌else◌, Result, ok, err,
  HttpError, conflict, http_error, ◌>>=◌, ◌>>◌, throw_if,
}
use gsm.Enums.{
  InstanceStatus, status_eq, stopped, crashed, unknown, running, starting, stopping, installing,
  install_failed,
}
use gsm.Effects.{
  Effect, agent_request, players_status, players_forget, instance_status, ports_changed,
  instance_deleted, access_changed, reconnect_user, instance_updated,
}
use gsm.Console.{install as install_stream, clear, clear_stream}
use gsm.Instances.{
  Instance, InstanceState, Panel, Outcome, and_then, tell, find_row, save_row, get, is_connected,
  is_busy, message_of,
}
use gsm.Instances.Events.{apply_state, forget_uuid}

pub data PowerAction : Type 0 where
  start stop restart kill : PowerAction

-- `POWER_ALLOWED`.
abbrev pub power_allowed : PowerAction → List InstanceStatus
power_allowed start = stopped ∷ crashed ∷ unknown ∷ []
power_allowed stop = running ∷ starting ∷ crashed ∷ unknown ∷ []
power_allowed restart = running ∷ starting ∷ stopped ∷ crashed ∷ []
power_allowed kill = running ∷ starting ∷ stopping ∷ crashed ∷ unknown ∷ []

needs_install : PowerAction → Bool
needs_install start = true
needs_install restart = true
needs_install _ = false

method_of : PowerAction → String
method_of start = "inst.start"
method_of restart = "inst.restart"
method_of stop = "inst.stop"
method_of kill = "inst.stop"

action_of : PowerAction → String
action_of start = "instance.start"
action_of stop = "instance.stop"
action_of restart = "instance.restart"
action_of kill = "instance.kill"

assert_online : Instance → Panel → Result (Unit {0})
assert_online i p = throw_if (not (is_connected i.node_id p)) (conflict "${i.node.name} is offline")

unfoldable pub set_status : ℕ → InstanceStatus → Option String → Panel → Panel
set_status id status error p =
    tell (players_status id status ∷ instance_status id status error ∷ [])
      (save_row id (λ i. record i { status = status; error = error }) p)

abbrev record_audit : String → ℕ → ℕ → Panel → Panel
record_audit action id actor p = record p { audit = p.audit ++ (action, id, actor) ∷ [] }

-- Install ---------------------------------------------------------------------------------------

install_checks : Instance → Panel → Result (Unit {0})
unfolding assert_online
install_checks i p =
    assert_online i p
    >> throw_if (is_busy i.status) (conflict "Stop the instance before reinstalling")

-- `resolved` is what the resolver of the template came to, `spec` what `specFor` did.
unfoldable pub install_begin :
    ℕ → ℕ → Result (Unit {0}) → Result (Unit {0}) → Panel → Outcome (Unit {0})
unfolding install_checks
install_begin id actor resolved spec p =
    elim (get id p >>= λ i. install_checks i p >>= λ done. ok i) [
      | err problem ↦ (p, err problem)
      | ok i ↦ elim resolved [
        | err problem ↦ (set_status id install_failed (some (message_of problem)) p, err problem)
        | ok done ↦
            let marked = record_audit "instance.install" id actor (
              set_status id installing none (record p {
                history =
                    clear_stream (record { instance_id = id; stream = install_stream }) p.history;
              })) in
            elim spec [
              | err problem ↦ (marked, err problem)
              | ok done ↦ (tell (agent_request i.node_id "inst.install" ∷ []) marked, ok tt)
            ]
      ]
    ]

-- The answer: the exit code of the script, or why the request failed.
unfoldable pub install_end : ℕ → ℕ → Result ℕ → Panel → Outcome (Unit {0})
install_end now id answer p = elim (get id p) [
  | err problem ↦ (p, err problem)
  | ok fresh ↦ elim answer [
    | err problem ↦ (set_status id install_failed (some (message_of problem)) p, err problem)
    | ok exit_code ↦
        if exit_code == 0
        then (
          tell (ports_changed id ∷ []) (
              set_status id stopped none
                (save_row id (λ i. record i { installed_at = some now }) p)),
          ok tt,
        )
        else (
          set_status id install_failed (some "The install script exited with code ${res.exitCode}")
              p,
          ok tt,
        )
  ]
]

-- Power -----------------------------------------------------------------------------------------

power_checks : PowerAction → Instance → Panel → Result (Unit {0})
unfolding assert_online needs_install
power_checks action i p =
    assert_online i p
    >> (throw_if (not (contains i.status (power_allowed action)))
          (conflict "Cannot ${action} an instance that is ${i.status}")
        >> throw_if (needs_install action && not (is_some i.installed_at))
            (conflict "The instance is not installed yet"))

-- The `catch`: the error is kept in the row as it is by then.
power_failed : ℕ → HttpError → Panel → Outcome (Unit {0})
power_failed id problem p = elim (get id p) [
  | err gone ↦ (p, err gone)
  | ok fresh ↦ (
    tell (instance_status id fresh.status (some (message_of problem)) ∷ [])
        (save_row id (λ i. record i { error = some (message_of problem) }) p),
    err problem,
  )
]

-- `spec` is what `specFor` comes to, which only a start and a restart ask for, within the `try`.
spec_of : PowerAction → Result (Unit {0}) → Result (Unit {0})
spec_of start spec = spec
spec_of restart spec = spec
spec_of stop spec = ok tt
spec_of kill spec = ok tt

unfoldable pub power_begin : ℕ → PowerAction → ℕ → Result (Unit {0}) → Panel → Outcome (Unit {0})
unfolding power_checks method_of action_of power_failed spec_of
power_begin id action actor spec p =
    elim (get id p >>= λ i. power_checks action i p >>= λ done. ok i) [
      | err problem ↦ (p, err problem)
      | ok i ↦
          let recorded = record_audit (action_of action) id actor p in
          elim (spec_of action spec) [
            | err problem ↦ power_failed id problem recorded
            | ok done ↦ (tell (agent_request i.node_id (method_of action) ∷ []) recorded, ok tt)
          ]
    ]

unfoldable pub power_end : ℕ → ℕ → Result InstanceState → Panel → Outcome (Unit {0})
unfolding power_failed
power_end now id answer p = elim answer [
  | err problem ↦ power_failed id problem p
  | ok state ↦ elim (get id p) [
    | err gone ↦ power_failed id gone p
    | ok fresh ↦ (apply_state now fresh state p, ok tt)
  ]
]

-- Both parts, where nothing comes between.
unfoldable pub power :
    ℕ → ℕ → PowerAction → ℕ → Result (Unit {0}) → Result InstanceState → Panel → Outcome (Unit {0})
power now id action actor spec answer p =
    and_then (power_begin id action actor spec p) (λ done. power_end now id answer)

command_checks : Instance → Panel → Result (Unit {0})
unfolding assert_online
command_checks i p =
    assert_online i p
    >> throw_if (not (i.status == running) && not (i.status == starting))
        (conflict "The instance is not running")

unfoldable pub command_begin : ℕ → Panel → Outcome (Unit {0})
unfolding command_checks
command_begin id p = elim (get id p >>= λ i. command_checks i p >>= λ done. ok i) [
  | err problem ↦ (p, err problem)
  | ok i ↦ (tell (agent_request i.node_id "inst.command" ∷ []) p, ok tt)
]

-- The audit entry is written once the request went well.
unfoldable pub command_end : ℕ → ℕ → Result (Unit {0}) → Panel → Outcome (Unit {0})
command_end id actor answer p = elim answer [
  | err problem ↦ (p, err problem)
  | ok done ↦ (record_audit "instance.command" id actor p, ok tt)
]

unfoldable pub command : ℕ → ℕ → Result (Unit {0}) → Panel → Outcome (Unit {0})
unfolding command_begin command_end
command id actor answer p = and_then (command_begin id p) (λ done. command_end id actor answer)

-- Removal ---------------------------------------------------------------------------------------

-- An agent that does not know the instance is as good as one that removed it.
is_gone : HttpError → Bool
is_gone (http_error status code message) = code == "agent_not_found"
is_gone _ = false

remove_answer : Result (Unit {0}) → Result (Unit {0})
unfolding is_gone
remove_answer (ok done) = ok tt
remove_answer (err problem) = if is_gone problem then ok tt else err problem

share_users : ℕ → Panel → List ℕ
share_users id p = map (λ s. s.1) (select (λ s. s.0 == id) p.shares)

reconnects : List ℕ → List Effect
reconnects [] = []
reconnects (u ∷ us) = reconnect_user u ∷ reconnects us

told_users : List ℕ → List Effect
unfolding reconnects
told_users [] = []
told_users (u ∷ us) = access_changed (u ∷ us) ∷ reconnects (u ∷ us)

-- The row goes with the shares that refer to it, and so does what the server keeps in memory.
dropped : Instance → Panel → Panel
dropped i p = forget_uuid i.uuid (record p {
  instances = destroy (λ r. r.id == i.id) p.instances;
  shares = destroy (λ s. s.0 == i.id) p.shares;
  history = clear i.id p.history;
})

-- The row as it was read, if the agent is asked.
unfoldable pub remove_begin : ℕ → Panel → Outcome Instance
remove_begin id p = elim (get id p) [
  | err problem ↦ (p, err problem)
  | ok i ↦
      if not (is_connected i.node_id p)
      then (
        p,
        err (
            conflict
              "${node.name} is offline; the instance can only be deleted while its node is connected"),
      )
      else (tell (agent_request i.node_id "inst.remove" ∷ []) p, ok i)
]

unfoldable pub remove_end : Instance → Result (Unit {0}) → Panel → Outcome (Unit {0})
unfolding remove_answer share_users told_users dropped
remove_end i answer p = elim (remove_answer answer) [
  | err problem ↦ (p, err problem)
  | ok done ↦ (
    tell
        (players_forget i.id ∷ instance_deleted i.id i.node_id ∷ told_users (share_users i.id p)
          ++ instance_updated i.id ∷ [])
        (dropped i p),
    ok tt,
  )
]

unfoldable pub remove : ℕ → Result (Unit {0}) → Panel → Outcome (Unit {0})
unfolding remove_begin remove_end
remove id answer p = and_then (remove_begin id p) (λ i. remove_end i answer)
