-- ===== src/Instances/Service/Install.antt =====
-- An install from its start to the agent's answer.
use gsm.Common.{
  ℕ, ◌≡◌, refl, ap, ◌∙◌, inl, inr, true, false, none, some, some-injective, List, [], ◌∷◌, ◌==◌,
  nat_eq, find?, update_rows, if◌then◌else◌, Result, ok, err, Bool-cases,
}
use gsm.Enums.{status_eq, installing, install_failed, stopped}
use gsm.Instances.{Instance, Panel, find_row, is_connected, is_busy, message_of}
use gsm.Instances.Service.{install_begin, install_end, install_checks, assert_online, set_status}

-- The row that an id finds, once the row of the id was changed.
found_changed :
    (id : ℕ) (f : Instance → Instance) (xs : List Instance) (i : Instance)
    → ((i : Instance) → (f i).id ≡ i.id)
    → find? (λ r. r.id == id) xs ≡ some i
    → find? (λ r. r.id == id) (update_rows (λ r. r.id == id) f xs) ≡ some (f i)
found_changed id f [] i same found = cc
found_changed id f (x ∷ xs) i same found = elim (Bool-cases (x.id == id)) [
  | inl here ↦
      let one = some-injective x i (rw here at found) in
      let still : ((f x).id == id) ≡ true = ap (λ n. n == id) (same x) ∙ here in
      rw here (rw still (ap (λ y. some (f y)) one))
  | inr later ↦ rw later (rw later (found_changed id f xs i same (rw later at found)))
]

module _ (p : Panel) (i : Instance) (id actor : ℕ) (found : find_row id p ≡ some i)
    (online : is_connected i.node_id p ≡ true) (free : is_busy i.status ≡ false) where
  passes : install_checks i p ≡ ok tt
  unfolding install_checks assert_online
  passes = rw (online, free) refl

  begun :
      (spec : Result (Unit {0}))
      → find_row id (install_begin id actor (ok tt) spec p).0
        ≡ some (record i { status = installing; error = none })
  unfolding install_begin set_status
  begun (ok done) =
      rw (found, install_begin) (rw passes (found_changed id _ p.instances i (λ r. refl) found))
  begun (err problem) =
      rw (found, install_begin) (rw passes (found_changed id _ p.instances i (λ r. refl) found))

-- The row once the agent answered: stopped and installed if the script went well, else
-- `install_failed` with the reason.
abbrev pub row_after : ℕ → Result ℕ → Instance → Instance
row_after now (err problem) i = record i {
  status = install_failed;
  error = some (message_of problem);
}
row_after now (ok exit_code) i =
    if exit_code == 0
    then record i { status = stopped; error = none; installed_at = some now }
    else record i {
      status = install_failed;
      error = some "The install script exited with code ${res.exitCode}";
    }

ended :
    (now id : ℕ) (answer : Result ℕ) (q : Panel) (j : Instance)
    → find_row id q ≡ some j
    → find_row id (install_end now id answer q).0 ≡ some (row_after now answer j)
unfolding install_end set_status
ended now id (err problem) q j there =
    rw (there, install_end) (found_changed id _ q.instances j (λ r. refl) there)
ended now id (ok exit_code) q j there = elim (Bool-cases (exit_code == 0)) [
  | inl well ↦
      rw (there, install_end)
        (rw well (
          found_changed id (λ i. record i { status = stopped; error = none }) _
            (record j { installed_at = some now }) (λ r. refl)
            (found_changed id (λ i. record i { installed_at = some now }) q.instances j (λ r. refl)
              there)))
  | inr badly ↦
      rw (there, install_end) (rw badly (found_changed id _ q.instances j (λ r. refl) there))
]

-- An install of an instance that is not busy, on a node that is connected, leaves the row stopped
-- and installed when the agent's script exits with 0, and `install_failed` with the reason otherwise.
pub install_end-install_begin :
    (p : Panel) (i : Instance) (id actor now : ℕ) (answer : Result ℕ)
    → find_row id p ≡ some i
    → is_connected i.node_id p ≡ true
    → is_busy i.status ≡ false
    → find_row id (install_end now id answer (install_begin id actor (ok tt) (ok tt) p).0).0
      ≡ some (row_after now answer (record i { status = installing; error = none }))
install_end-install_begin p i id actor now answer found online free =
    ended now id answer (install_begin id actor (ok tt) (ok tt) p).0 _
      (begun p i id actor found online free (ok tt))
