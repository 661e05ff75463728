-- ===== src/Instances/Tests.antt =====
-- Two nodes and three instances.
use gsm.Common.{
  ℕ, ◌≡◌, ◌≢◌, refl, true, false, none, some, List, [], ◌∷◌, map, select, String, ◌==◌, nat_eq,
  string_eq, if◌then◌else◌, ok, err, HttpError, conflict, http_error, lookup, insert, delete,
  Pairwise, arith,
}
use gsm.Enums.{InstanceStatus, running, stopped, installing, install_failed, crashed}
use gsm.Instances.{Instance, InstanceState, Panel, find_row}
use gsm.Instances.Events.{is_ignored, applied, apply_state, on_state, instance_id_for}
use gsm.Effects.{instance_status}
use gsm.Instances.Service.{
  start, set_status, install_begin, install_end, power_begin, power_end, power, command,
  command_begin, command_end, remove, remove_begin, remove_end,
}
use gsm.Instances.Service.Busy.{is_refused, installing_refuses}
use gsm.Instances.Service.Removal.{IsWhole, remove-IsWhole}
use gsm.Instances.Service.Install.{row_after, install_end-install_begin}
use gsm.Instances.Supervisor.{
  by_uuid, settled, reconciled, reconcile_rows, reconcile_begin, reconcile_end, mark_unknown,
}
use gsm.Instances.Supervisor.Reconnect.{
  marked, status_back, mark_unknown_lem, reconcile_rows-reconciled, reconcile_rows-mark_unknown,
}

abbrev row : ℕ → String → ℕ → InstanceStatus → Instance
row id uuid node_id status = record {
  id = id;
  uuid = uuid;
  name = uuid;
  node_id = node_id;
  status = status;
  error = none;
  auto_start = false;
  installed_at = some 1;
  last_started_at = none;
  container_id = none;
}

abbrev report : String → InstanceStatus → InstanceState
report uuid state = record {
  uuid = uuid;
  state = state;
  error = none;
  container_id = some "c";
  started_at = none;
  installed = true;
}

abbrev p : Panel
p = record {
  instances =
      row 1 "a" 7 running
      ∷ row 2 "b" 7 install_failed
      ∷ row 3 "c" 8 installing
      ∷ row 4 "d" 7 crashed
      ∷ [];
  shares = (1, 5) ∷ (2, 5) ∷ [];
  connected = 7 ∷ 8 ∷ [];
  id_by_uuid = ("a", 1) ∷ [];
  history = record { buffers = []; capacity = 10 };
  audit = [];
  told = [];
}

abbrev unique : Pairwise (λ a b. a.id ≢ b.id) p.instances
unique = omega arith

abbrev reports : List (String × InstanceState)
reports = ("a", report "a" running) ∷ []

run : Unit {0}
unfolding is_ignored applied apply_state on_state instance_id_for set_status install_begin
    install_end power_begin power_end power command command_begin command_end remove remove_begin
    remove_end by_uuid settled reconciled reconcile_rows reconcile_begin reconcile_end mark_unknown
    lookup insert delete
run = tt

-- The node goes away and comes back.
back_run :
    map
      (λ i. i.status)
      (reconcile_end 9
        (reconcile_begin 7 (mark_unknown 7 p)).1
        (report "a" running ∷ [])
        (λ id. ok tt)
        (λ id. err (conflict "no"))
        (reconcile_begin 7 (mark_unknown 7 p)).0).instances
    ≡ running ∷ install_failed ∷ installing ∷ stopped ∷ []
unfolding run
back_run = refl

-- A start that the agent answers, and one that it refuses.
power_run :
    (map (λ i. i.status) (power 9 4 start 1 (ok tt) (ok (report "d" running)) p).0.instances
      ≡ running ∷ install_failed ∷ installing ∷ running ∷ [])
    × ((power 9 1 start 1 (ok tt) (ok (report "a" running)) p).0.told ≡ [])
    × (map (λ i. i.error) (power 9 4 start 1 (ok tt) (err (conflict "no")) p).0.instances
        ≡ none ∷ none ∷ none ∷ some "no" ∷ [])
    × ((power 9 4 start 1 (err (conflict "old")) (ok (report "d" running)) p).0.told
        ≡ instance_status 4 crashed (some "old") ∷ [])
unfolding run
power_run = (refl, refl, refl, refl)

removed_run :
    ((remove 1 (err (http_error 502 "agent_not_found" "gone")) p).0.shares ≡ (2, 5) ∷ [])
    × ((remove 1 (err (http_error 504 "agent_timeout" "late")) p).0.instances ≡ p.instances)
unfolding run
removed_run = (refl, refl)

mark_unknown_lem_example :
    (mark_unknown 7 p).instances ≡ map (λ i. if i.node_id == 7 then marked i else i) p.instances
mark_unknown_lem_example = mark_unknown_lem 7 p unique

reconcile_rows-reconciled_example :
    (reconcile_rows 9 reports (select (λ i. i.node_id == 7) p.instances) p).instances
    ≡ map (λ i. if i.node_id == 7 then reconciled 9 reports i else i) p.instances
reconcile_rows-reconciled_example = reconcile_rows-reconciled 9 7 reports p unique

reconcile_rows-mark_unknown_example :
    let q = mark_unknown 7 p in
    map
      (λ i. i.status)
      (reconcile_rows 9 reports (select (λ i. i.node_id == 7) q.instances) q).instances
    ≡ map (λ i. if i.node_id == 7 then status_back reports i else i.status) p.instances
reconcile_rows-mark_unknown_example = reconcile_rows-mark_unknown 9 7 reports p unique

installing_refuses_example :
    ((install_begin 3 1 (ok tt) (ok tt) p).0 ≡ p)
    × (is_refused (install_begin 3 1 (ok tt) (ok tt) p).1 ≡ true)
    × ((power_begin 3 start 1 (ok tt) p).0 ≡ p)
    × (is_refused (power_begin 3 start 1 (ok tt) p).1 ≡ true)
    × ((command 3 1 (ok tt) p).0 ≡ p)
    × (is_refused (command 3 1 (ok tt) p).1 ≡ true)
installing_refuses_example =
    installing_refuses p (row 3 "c" 8 installing) 3 1 start (ok tt) (ok tt) (ok tt) refl refl

install_end-install_begin_example :
    find_row 4 (install_end 9 4 (ok 0) (install_begin 4 1 (ok tt) (ok tt) p).0).0
    ≡ some (row_after 9 (ok 0) (record (row 4 "d" 7 crashed) { status = installing; error = none }))
install_end-install_begin_example =
    install_end-install_begin p (row 4 "d" 7 crashed) 4 1 9 (ok 0) refl refl refl

abbrev too_old : HttpError
too_old = conflict "${feature} needs agent ${CONTAINER_OPTIONS_AGENT} or newer"

remove-IsWhole_example : IsWhole 1 2 p (remove 1 (err (http_error 502 "agent_not_found" "gone")) p)
remove-IsWhole_example =
    remove-IsWhole 1 2 (err (http_error 502 "agent_not_found" "gone")) p (omega arith)
