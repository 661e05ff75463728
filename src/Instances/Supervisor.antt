-- ===== src/Instances/Supervisor.antt =====
-- server/src/modules/instances/supervisor.ts: rows kept in step with their nodes.
mod Rows
pub mod Reconnect
use gsm.Common.{
  ℕ, Bool, true, false, not, ◌&&◌, ◌||◌, Option, none, some, is_some, List, [], ◌∷◌, ◌++◌, map,
  select, String, ◌==◌, nat_eq, string_eq, lookup, insert, find?, if◌then◌else◌, Result, ok, err,
}
use gsm.Enums.{
  InstanceStatus, status_eq, stopped, crashed, unknown, running, installing, install_failed,
}
use gsm.Effects.{Effect, players_status, players_resync, instance_status, agent_request}
use gsm.Instances.{Instance, InstanceState, Panel, tell, find_row, save_row}
use gsm.Instances.Events.{apply_state, is_ignored, applied}
use gsm.Instances.Service.{start, power}

-- `new Map(states.map((s) => [s.uuid, s]))`.
by_uuid_from : List (String × InstanceState) → List InstanceState → List (String × InstanceState)
by_uuid_from m [] = m
by_uuid_from m (s ∷ states) = by_uuid_from (insert s.uuid s m) states

unfoldable pub by_uuid : List InstanceState → List (String × InstanceState)
unfolding by_uuid_from
by_uuid states = by_uuid_from [] states

-- The status of a row that the node knows nothing about.
unfoldable pub settled : Instance → InstanceStatus
settled i =
    if i.status == installing || i.status == install_failed
    then i.status
    else if is_some i.installed_at
    then stopped
    else if i.status == unknown
    then stopped
    else i.status

-- A row object as the first loop leaves it.
unfoldable pub reconciled : ℕ → List (String × InstanceState) → Instance → Instance
reconciled now states i = elim (lookup i.uuid states) [
  | some s ↦ if is_ignored i s then i else applied now s i
  | none ↦ if i.status == settled i then i else record i { status = settled i; container_id = none }
]

reconcile_row : ℕ → List (String × InstanceState) → Instance → Panel → Panel
reconcile_row now states i p = elim (lookup i.uuid states) [
  | some s ↦ apply_state now i s p
  | none ↦
      if i.status == settled i
      then p
      else tell (players_status i.id (settled i) ∷ instance_status i.id (settled i) i.error ∷ [])
          (save_row i.id (λ r. record r { status = settled i; container_id = none }) p)
]

unfoldable pub reconcile_rows : ℕ → List (String × InstanceState) → List Instance → Panel → Panel
unfolding reconcile_row
reconcile_rows now states [] p = p
reconcile_rows now states (i ∷ rows) p =
    reconcile_rows now states rows (reconcile_row now states i p)

-- The second loop, one instance at a time; what building the spec and the agent come to at each start
-- are arguments, nothing comes between the two, and an error is only logged.
auto_start_row : ℕ → (ℕ → Result (Unit {0})) → (ℕ → Result InstanceState) → Instance → Panel → Panel
auto_start_row now spec answer i p = elim (find_row i.id p) [
  | none ↦ p
  | some fresh ↦
      if fresh.status == stopped || fresh.status == crashed
      then (power now i.id start 0 (spec i.id) (answer i.id) p).0
      else p
]

auto_start_rows :
    ℕ → (ℕ → Result (Unit {0})) → (ℕ → Result InstanceState) → List Instance → Panel → Panel
unfolding auto_start_row
auto_start_rows now spec answer [] p = p
auto_start_rows now spec answer (i ∷ rows) p =
    auto_start_rows now spec answer rows
      (if i.auto_start && is_some i.installed_at then auto_start_row now spec answer i p else p)

-- After an agent's hello: the rows of its node are read and it is asked, unless there are none.
unfoldable pub reconcile_begin : ℕ → Panel → Panel × List Instance
reconcile_begin node_id p = elim (select (λ i. i.node_id == node_id) p.instances) [
  | [] ↦ (p, [])
  | i ∷ more ↦ (tell (agent_request node_id "inst.list" ∷ []) p, i ∷ more)
]

-- `states` is its answer, and `rows` are those read before: others may have run since.
unfoldable pub reconcile_end :
    ℕ
    → List Instance
    → List InstanceState
    → (ℕ → Result (Unit {0}))
    → (ℕ → Result InstanceState)
    → Panel
    → Panel
unfolding auto_start_rows
reconcile_end now [] states spec answer p = p
reconcile_end now (i ∷ more) states spec answer p =
    let after = map (reconciled now (by_uuid states)) (i ∷ more) in
    auto_start_rows now spec answer after (
      tell (players_resync (map (λ r. r.id) (select (λ r. r.status == running) after)) ∷ [])
        (reconcile_rows now (by_uuid states) (i ∷ more) p))

keeps_status : Instance → Bool
keeps_status i = i.status == unknown || i.status == install_failed

mark_row : Instance → Panel → Panel
unfolding keeps_status
mark_row i p =
    if keeps_status i
    then p
    else tell (instance_status i.id unknown i.error ∷ [])
        (save_row i.id (λ r. record r { status = unknown }) p)

mark_rows : List Instance → Panel → Panel
unfolding mark_row
mark_rows [] p = p
mark_rows (i ∷ rows) p = mark_rows rows (mark_row i p)

unfoldable pub mark_unknown : ℕ → Panel → Panel
unfolding mark_rows
mark_unknown node_id p = mark_rows (select (λ i. i.node_id == node_id) p.instances) p
