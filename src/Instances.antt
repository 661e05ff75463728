-- ===== src/Instances.antt =====
-- Instances: the rows of server/src/modules/instances/models.ts that the lifecycle reads and writes,
-- what an agent reports of one (shared/src/protocol), and the state that the child modules change.
pub mod Variables
pub mod Events
pub mod Service
pub mod Supervisor
mod Tests
use gsm.Common.{
  ℕ, Bool, true, false, ◌||◌, Option, none, some, List, [], ◌∷◌, ◌++◌, String, ◌==◌, nat_eq, Result,
  ok, err, HttpError, find?, update_rows, contains, bad_request, unauthorized, forbidden, not_found,
  conflict, too_many_requests, unavailable, internal, http_error,
}
use gsm.Enums.{InstanceStatus, status_eq, running, starting, stopping, installing}
use gsm.Effects.{Effect}
use gsm.Console.{ConsoleHistory}

pub record Instance : Type 0 where
  pub id : ℕ
  pub uuid : String
  pub name : String
  pub node_id : ℕ
  pub status : InstanceStatus
  pub error : Option String
  pub auto_start : Bool
  pub installed_at : Option ℕ
  pub last_started_at : Option ℕ
  pub container_id : Option String

-- `InstanceState`: an agent's report.
pub record InstanceState : Type 0 where
  pub uuid : String
  pub state : InstanceStatus
  pub error : Option String
  pub container_id : Option String
  pub started_at : Option ℕ
  pub installed : Bool

-- The tables, the nodes that are connected, the server's maps and its console, and what was told.
pub record Panel : Type 0 where
  pub instances : List Instance
  pub shares : List (ℕ × ℕ)  -- instance and user, of `instance_users`
  pub connected : List ℕ
  pub id_by_uuid : List (String × ℕ)
  pub history : ConsoleHistory String
  pub audit : List (String × ℕ × ℕ)  -- action, instance and actor
  pub told : List Effect

abbrev pub Outcome {ℓ} : Type ℓ → Type ℓ
Outcome A = Panel × Result A

-- A part of an operation after another, unless that one threw.
abbrev pub and_then {ℓ κ} :
    {A : Type ℓ} {B : Type κ} → Outcome A → (A → Panel → Outcome B) → Outcome B
and_then (p, err problem) f = (p, err problem)
and_then (p, ok a) f = f a p

abbrev pub tell : List Effect → Panel → Panel
tell effects p = record p { told = p.told ++ effects }

abbrev pub find_row : ℕ → Panel → Option Instance
find_row id p = find? (λ i. i.id == id) p.instances

-- `i.save()`: the columns that an operation changed, written to the row.
abbrev pub save_row : ℕ → (Instance → Instance) → Panel → Panel
save_row id change p = record p { instances = update_rows (λ i. i.id == id) change p.instances }

abbrev pub get : ℕ → Panel → Result Instance
get id p = elim (find_row id p) [ none ↦ err (not_found "Instance") | some i ↦ ok i ]

abbrev pub is_connected : ℕ → Panel → Bool
is_connected node_id p = contains node_id p.connected

-- The set `RUNNING`.
abbrev pub is_busy : InstanceStatus → Bool
is_busy s = s == running || (s == starting || (s == stopping || s == installing))

-- `err.message`.
abbrev pub message_of : HttpError → String
message_of (bad_request m) = m
message_of (unauthorized m) = m
message_of (forbidden m) = m
message_of (not_found m) = m
message_of (conflict m) = m
message_of (too_many_requests m) = m
message_of (unavailable m) = m
message_of (internal m) = m
message_of (http_error status code m) = m
