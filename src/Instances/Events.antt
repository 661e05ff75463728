-- ===== src/Instances/Events.antt =====
-- server/src/modules/instances/agent-events.ts: what an agent reports, folded into the rows.
use gsm.Common.{
  ℕ, Bool, false, not, ◌&&◌, ◌||◌, Option, none, some, is_some, or_else, List, [], ◌∷◌, ◌++◌,
  String, ◌==◌, nat_eq, string_eq, find?, insert, lookup, delete, if◌then◌else◌,
}
use gsm.Enums.{InstanceStatus, status_eq, installing, stopped, starting, running}
use gsm.Effects.{Effect, players_status, instance_running, instance_status, agent_state}
use gsm.Instances.{Instance, InstanceState, Panel, tell, save_row}

-- While an install runs, a container that is stopped and not installed changes nothing.
unfoldable pub is_ignored : Instance → InstanceState → Bool
is_ignored i s = i.status == installing && (s.state == stopped && not s.installed)

is_up : InstanceStatus → Bool
is_up s = s == starting || s == running

-- The row as the report makes it.
unfoldable pub applied : ℕ → InstanceState → Instance → Instance
unfolding is_up
applied now s i = record i {
  status = s.state;
  error = s.error;
  container_id = s.container_id;
  last_started_at =
      if is_up s.state && not (is_up i.status)
      then some (or_else s.started_at now)
      else i.last_started_at;
  installed_at = if s.installed && not (is_some i.installed_at) then some now else i.installed_at;
}

has_error : Option String → Bool
has_error none = false
has_error (some e) = not (e == "")

state_effects : Instance → InstanceState → List Effect
unfolding has_error
state_effects i s =
    (if i.status == s.state then [] else players_status i.id s.state ∷ [])
    ++ (if not (i.status == running) && s.state == running then instance_running i.id ∷ [] else [])
    ++ (if not (i.status == s.state) || has_error s.error
        then instance_status i.id s.state s.error ∷ []
        else [])

unfoldable pub apply_state : ℕ → Instance → InstanceState → Panel → Panel
unfolding state_effects
apply_state now i s p =
    if is_ignored i s then p else tell (state_effects i s) (save_row i.id (applied now s) p)

unfoldable pub on_state : ℕ → ℕ → InstanceState → Panel → Panel
on_state now node_id s p =
    elim (find? (λ i. i.uuid == s.uuid && i.node_id == node_id) p.instances) [
      | none ↦ p
      | some i ↦
          tell (agent_state node_id s.uuid ∷ [])
            (apply_state now i s (record p { id_by_uuid = insert s.uuid i.id p.id_by_uuid }))
    ]

-- `instanceIdFor`: from the map, or from the table, which then goes into the map.
unfoldable pub instance_id_for : ℕ → String → Panel → Panel × Option ℕ
instance_id_for node_id uuid p = elim (lookup uuid p.id_by_uuid) [
  | some id ↦ (p, some id)
  | none ↦ elim (find? (λ i. i.uuid == uuid && i.node_id == node_id) p.instances) [
    | none ↦ (p, none)
    | some i ↦ (record p { id_by_uuid = insert uuid i.id p.id_by_uuid }, some i.id)
  ]
]

abbrev pub forget_uuid : String → Panel → Panel
forget_uuid uuid p = record p { id_by_uuid = delete uuid p.id_by_uuid }
