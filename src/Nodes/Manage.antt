-- ===== src/Nodes/Manage.antt =====
-- Changes of nodes and of their owners in server/src/modules/nodes/service.ts.
use gsm.Common.{
  ℕ, ◌-◌, Bool, true, false, not, ◌&&◌, ◌||◌, Option, none, some, is_some, List, [], ◌∷◌, ◌++◌, map,
  String, ◌==◌, nat_eq, string_eq, ltb, leb, if◌then◌else◌, or_else, select, any, count, contains,
  destroy, update_rows, Result, ok, err, bad_request, not_found, conflict, ◌>>◌, throw_if,
}
use gsm.Effects.{Effect, node_updated, node_deleted, access_changed, reconnect_user, agent_request}
use gsm.Text.{trim}
use gsm.Nodes.{Node, NodeInstance, State, same_bool, tell, find_node, save_node}

-- `UpdateNodeBody`: none leaves a column as it is.
pub record NodeChange : Type 0 where
  pub name : Option String
  pub notes : Option (Option String)
  pub public_address : Option String
  pub bind_address : Option String
  pub port_range_start : Option ℕ
  pub port_range_end : Option ℕ
  pub sftp_port : Option (Option ℕ)
  pub firewall_managed : Option Bool

public_after : NodeChange → Node → Option String
public_after input n = elim input.public_address [
  | none ↦ n.public_address
  | some address ↦ if trim address == "" then none else some (trim address)
]

bind_after : NodeChange → Node → String
bind_after input n = elim input.bind_address [ none ↦ n.bind_address | some address ↦ trim address ]

-- The columns after all assignments.
unfoldable pub changed_node : NodeChange → Node → Node
unfolding public_after bind_after
changed_node input n = record n {
  name = or_else input.name n.name;
  notes = or_else input.notes n.notes;
  public_address = public_after input n;
  bind_address = bind_after input n;
  port_range_start = or_else input.port_range_start n.port_range_start;
  port_range_end = or_else input.port_range_end n.port_range_end;
  sftp_port = or_else input.sftp_port n.sftp_port;
  firewall_managed = or_else input.firewall_managed n.firewall_managed;
}

unfoldable pub in_pool : Option ℕ → ℕ → ℕ → Bool
in_pool none start end_at = false
in_pool (some port) start end_at = leb start port && leb port end_at

used_by_instance : ℕ → NodeChange → State → Bool
used_by_instance id input st = elim input.sftp_port [
  | none ↦ false
  | some given ↦ elim given [
    | none ↦ false
    | some port ↦ ltb 0 (count (λ p. p.0 == id && p.1 == port) st.instance_ports)
  ]
]

-- What may refuse a change, in the order of the code.
unfoldable pub change_checks : ℕ → NodeChange → Node → State → Result (Unit {0})
unfolding in_pool used_by_instance
change_checks id input new st =
    throw_if (ltb new.port_range_end new.port_range_start)
      (bad_request "The port range end must not be below its start")
    >> (throw_if (ltb 20000 (new.port_range_end - new.port_range_start))
          (bad_request "A port range covers at most 20000 ports")
        >> (throw_if (used_by_instance id input st)
              (conflict "Port ${input.sftpPort} is used by an instance")
            >> throw_if (in_pool new.sftp_port new.port_range_start new.port_range_end)
                (bad_request "The SFTP port (${n.sftpPort}) must be outside the port pool")))

same_port : Option ℕ → Option ℕ → Bool
same_port none none = true
same_port none (some b) = false
same_port (some a) none = false
same_port (some a) (some b) = a == b

-- `agentChanged`: what agent.configure sends is not what it was.
agent_changed : Node → Node → Bool
unfolding same_port
agent_changed new old =
    not (same_port new.sftp_port old.sftp_port)
    || (not (new.bind_address == old.bind_address)
        || not (same_bool new.firewall_managed old.firewall_managed))

without_rules : ℕ → List NodeInstance → List NodeInstance
without_rules id instances =
    update_rows (λ i. i.node_id == id) (λ i. record i { firewall = false }) instances

-- What is saved and told when nothing refuses.
unfoldable pub change_saved : ℕ → NodeChange → Node → State → State
unfolding changed_node agent_changed without_rules
change_saved id input n st =
    let new = changed_node input n in
    let saved = save_node id (changed_node input) st in
    let off = n.firewall_managed && not new.firewall_managed in
    let cleared : State = record saved {
      instances = if off then without_rules id saved.instances else saved.instances;
    } in
    tell
      (node_updated id
        ∷ (if agent_changed new n && contains id st.connected
            then agent_request id "agent.configure" ∷ []
            else []))
      cleared

unfoldable pub update : ℕ → NodeChange → State → State × Result Node
unfolding change_checks change_saved
update id input st = elim (find_node id st) [
  | none ↦ (st, err (not_found "Node"))
  | some n ↦ elim (change_checks id input (changed_node input n) st) [
    | err e ↦ (st, err e)
    | ok done ↦ (change_saved id input n st, ok (changed_node input n))
  ]
]

owner_ids : ℕ → State → List ℕ
owner_ids id st = map (λ r. r.1) (select (λ r. r.0 == id) st.node_users)

reconnects : List ℕ → List Effect
reconnects [] = []
reconnects (u ∷ us) = reconnect_user u ∷ reconnects us

-- Destroying the row takes the owners' rows along (the database's cascade).
unfoldable pub remove : ℕ → State → State × Result (Unit {0})
unfolding owner_ids reconnects
remove id st = elim (find_node id st) [
  | none ↦ (st, err (not_found "Node"))
  | some n ↦
      let owners = owner_ids id st in
      if ltb 0 (count (λ i. i.node_id == id) st.instances)
      then (
        st,
        err (conflict "${n.name} still hosts ${instances} instance(s); delete or move them first"),
      )
      else (
        tell
            (node_deleted id
              ∷ node_updated id
              ∷ (if ltb 0 (count (λ r. r.0 == id) st.node_users)
                  then access_changed owners ∷ reconnects owners
                  else []))
            (record st {
              nodes = destroy (λ n. n.id == id) st.nodes;
              node_users = destroy (λ r. r.0 == id) st.node_users;
            }),
        ok tt,
      )
]

owners_changed : ℕ → ℕ → State → State
owners_changed id user_id st =
    tell (access_changed (user_id ∷ []) ∷ reconnect_user user_id ∷ node_updated id ∷ []) st

unfoldable pub grant : ℕ → ℕ → State → State × Result (Unit {0})
unfolding owners_changed
grant id user_id st =
    if not (is_some (find_node id st))
    then (st, err (not_found "Node"))
    else if not (contains user_id st.user_ids)
    then (st, err (bad_request "Unknown user"))
    else (
      owners_changed id user_id (
          if any (λ r. r.0 == id && r.1 == user_id) st.node_users
          then st
          else record st { node_users = st.node_users ++ (id, user_id) ∷ [] }),
      ok tt,
    )

unfoldable pub revoke : ℕ → ℕ → State → State × Result (Unit {0})
unfolding owners_changed
revoke id user_id st =
    if count (λ r. r.0 == id && r.1 == user_id) st.node_users == 0
    then (st, err (not_found "Owner"))
    else (
      owners_changed id user_id
          (record st { node_users = destroy (λ r. r.0 == id && r.1 == user_id) st.node_users }),
      ok tt,
    )
