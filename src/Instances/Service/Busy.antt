-- ===== src/Instances/Service/Busy.antt =====
-- Installs, power actions and commands on an instance that installs.
use gsm.Common.{
  ℕ, ◌≡◌, refl, inl, inr, Bool, true, false, not, ◌&&◌, some, ◌==◌, nat_eq, string_eq, find?,
  Result, ok, err, HttpError, conflict, throw_if, ◌>>◌, contains, is_some, Bool-cases,
}
use gsm.Enums.{status_eq, installing, stopped}
use gsm.Instances.{Instance, InstanceState, Panel, find_row, is_connected}
use gsm.Instances.Events.{on_state, apply_state, is_ignored}
use gsm.Instances.Service.{
  PowerAction, start, stop, restart, kill, power_allowed, install_begin, power_begin, command,
  command_begin, install_checks, power_checks, command_checks, assert_online, needs_install,
}

abbrev pub is_refused {ℓ} : {A : Type ℓ} → Result A → Bool
is_refused (err problem) = true
is_refused (ok value) = false

module _ (p : Panel) (i : Instance) (busy : i.status ≡ installing) where
  install_refused : (e : HttpError) × (install_checks i p ≡ err e)
  unfolding install_checks assert_online
  install_refused = elim (Bool-cases (is_connected i.node_id p)) [
    | inl online ↦ (conflict "Stop the instance before reinstalling", rw (online, busy) refl)
    | inr offline ↦ (conflict "${i.node.name} is offline", rw offline refl)
  ]

  power_refused : (action : PowerAction) → (e : HttpError) × (power_checks action i p ≡ err e)
  unfolding power_checks assert_online
  power_refused action = elim (Bool-cases (is_connected i.node_id p)) [
    | inl online ↦ (
      conflict "Cannot ${action} an instance that is ${i.status}",
      rw online (rw busy (never action)),
    )
    | inr offline ↦ (conflict "${i.node.name} is offline", rw offline refl)
  ]
    where
      never :
          (action : PowerAction)
          → (throw_if
                (not (contains installing (power_allowed action)))
                (conflict "Cannot ${action} an instance that is ${i.status}")
              >> throw_if
                  (needs_install action && not (is_some i.installed_at))
                  (conflict "The instance is not installed yet"))
            ≡ err (conflict "Cannot ${action} an instance that is ${i.status}")
      never start = refl
      never stop = refl
      never restart = refl
      never kill = refl

  command_refused : (e : HttpError) × (command_checks i p ≡ err e)
  unfolding command_checks assert_online
  command_refused = elim (Bool-cases (is_connected i.node_id p)) [
    | inl online ↦ (conflict "The instance is not running", rw (online, busy) refl)
    | inr offline ↦ (conflict "${i.node.name} is offline", rw offline refl)
  ]

-- While an instance installs, another install, every power action and every command are refused,
-- and none of them changes anything or asks the agent.
pub installing_refuses :
    (p : Panel) (i : Instance) (id actor : ℕ) (action : PowerAction)
    (resolved spec answer : Result (Unit {0}))
    → find_row id p ≡ some i
    → i.status ≡ installing
    → ((install_begin id actor resolved spec p).0 ≡ p)
      × (is_refused (install_begin id actor resolved spec p).1 ≡ true)
      × ((power_begin id action actor spec p).0 ≡ p)
      × (is_refused (power_begin id action actor spec p).1 ≡ true)
      × ((command id actor answer p).0 ≡ p)
      × (is_refused (command id actor answer p).1 ≡ true)
unfolding install_begin power_begin command command_begin
installing_refuses p i id actor action resolved spec answer found busy =
    let (e, ie) = install_refused p i busy in
    let (f, pe) = power_refused p i busy action in
    let (g, ce) = command_refused p i busy in
    let stopped_there : command_begin id p ≡ (p, err g) = rw (found, command_begin) (rw ce refl) in
    (
      rw (found, install_begin) (rw ie refl),
      rw (found, install_begin) (rw ie refl),
      rw (found, power_begin) (rw pe refl),
      rw (found, power_begin) (rw pe refl),
      rw (stopped_there, command) refl,
      rw (stopped_there, command) refl,
    )

-- A report that an installing instance's container is stopped and not installed changes no row.
on_state-installing :
    (now node_id : ℕ) (s : InstanceState) (p : Panel) (i : Instance)
    → find? (λ i. i.uuid == s.uuid && i.node_id == node_id) p.instances ≡ some i
    → i.status ≡ installing
    → s.state ≡ stopped
    → s.installed ≡ false
    → (on_state now node_id s p).instances ≡ p.instances
unfolding on_state apply_state is_ignored
on_state-installing now node_id s p i found busy down bare =
    rw (found, on_state) (rw (busy, down, bare) refl)
