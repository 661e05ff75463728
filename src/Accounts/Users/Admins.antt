-- ===== src/Accounts/Users/Admins.antt =====
-- Sequences of calls of the administration of users, and the administrators that are left.
use gsm.Common.{
  ℕ, ◌+◌, ◌≤◌, ◌<◌, ◌≡◌, refl, inl, inr, Bool, true, false, ◌&&◌, Option, none, is_some, or_else,
  List, [], ◌∷◌, String, ◌==◌, nat_eq, string_eq, find?, count, All-map, All-append, leb,
  if◌then◌else◌, Bool-cases, Option-cases, ok, err, conflict, Result-cases, arith, ◌⊎◌,
}
use gsm.Text.{lower_case}
use gsm.Enums.{is_admin}
use gsm.Accounts.{User, State, Platform, find_user, save_user, has_two_factor}
use gsm.Accounts.Sessions.{setup, setup_required, end_sessions}
use gsm.Accounts.Manage.{admin_reset}
use gsm.Accounts.Keyed.{
  one, All-destroy, Pairwise-destroy, count-destroy, count-append, Pairwise-snoc,
}
use gsm.Accounts.Users.{
  CreateUserBody, UpdateUserBody, create, update, remove, reset_password, get, is_enabled_admin,
  admin_count, update_checks, is_demoting, is_disabling, edited, after_update, destroy_user,
  remove_checks,
}
use gsm.Accounts.Users.Governed.{
  IsGoverned, save-IsGoverned, admin_reset-IsGoverned, end_sessions-IsGoverned,
}

-- One call of the administration of users.
pub data UserCall : Type 0 where
  create_user : CreateUserBody → UserCall
  update_user : ℕ → UpdateUserBody → ℕ → UserCall
  remove_user : ℕ → ℕ → UserCall
  reset_user_password : ℕ → String → UserCall

abbrev pub run_call : Platform → UserCall → State → State
run_call p (create_user input) st = (create p input st).0
run_call p (update_user id input actor_id) st = (update id input actor_id st).0
run_call p (remove_user id actor_id) st = (remove id actor_id st).0
run_call p (reset_user_password id password) st = (reset_password p id password st).0

abbrev pub run_calls : Platform → List UserCall → State → State
run_calls p [] st = st
run_calls p (call ∷ calls) st = run_calls p calls (run_call p call st)

after_update-IsGoverned :
    (id : ℕ) (input : UpdateUserBody) (u : User) (st : State)
    → IsGoverned st
    → IsGoverned (after_update id input u st)
unfolding after_update
after_update-IsGoverned id input u st g =
    reset_if (input.two_factor_off && has_two_factor u) (ended_if (or_else input.disabled false))
  where
    ended_if : (b : Bool) → IsGoverned (if b then end_sessions id none st else st)
    ended_if true = end_sessions-IsGoverned id st g
    ended_if false = g

    reset_if :
        {st' : State} (b : Bool)
        → IsGoverned st'
        → IsGoverned (if b then admin_reset u st' else st')
    reset_if true h = admin_reset-IsGoverned u _ h
    reset_if false h = h

checked :
    (id : ℕ) (input : UpdateUserBody) (actor : ℕ) (u : User) (st : State) (done : Unit {0})
    → update_checks id input actor u st ≡ ok done
    → (one (is_enabled_admin u) ≤ one (is_enabled_admin (edited input u))) ⊎ (2 ≤ admin_count st)
unfolding update_checks edited is_demoting is_disabling
checked id input actor u st done passed = ground arith

create-IsGoverned :
    (p : Platform) (input : CreateUserBody) (st : State)
    → IsGoverned st
    → IsGoverned (create p input st).0
unfolding create
create-IsGoverned p input st g =
    elim (Bool-cases (is_some (find? (λ u. u.email == lower_case input.email) st.users))) [
      | inl there ↦ rw (there, create) g
      | inr free ↦
          rw (free, create)
            (record {
              keyed = record {
                unique = Pairwise-snoc _ st.users g.keyed.unique g.keyed.below;
                below =
                    All-append (λ u. u.id < st.next_user + 1) st.users _
                      (All-map st.users (λ u h. omega arith) g.keyed.below) (omega arith, tt);
              };
              governed = omega (arith, g.governed, count-append is_enabled_admin 0 st.users);
            })
    ]

update-IsGoverned :
    (id : ℕ) (input : UpdateUserBody) (actor : ℕ) (st : State)
    → IsGoverned st
    → IsGoverned (update id input actor st).0
unfolding update get
update-IsGoverned id input actor st g = elim (Option-cases (find_user st id)) [
  | inl gone ↦ rw (gone, update) g
  | inr (u, found) ↦
      rw (found, update)
        (elim (Result-cases (update_checks id input actor u st)) [
          | inl (problem, refused) ↦ rw refused g
          | inr (done, passed) ↦ rw passed (
              let saved =
                save-IsGoverned id (edited input) u st (λ v. refl) found
                  (checked id input actor u st done passed) g in
              let after =
                after_update-IsGoverned id input u (save_user id (edited input) st) saved in
              record {
                keyed = record { unique = after.keyed.unique; below = after.keyed.below };
                governed = after.governed;
              })
        ])
]

remove-IsGoverned : (id actor : ℕ) (st : State) → IsGoverned st → IsGoverned (remove id actor st).0
unfolding remove get remove_checks destroy_user
remove-IsGoverned id actor st g = elim (Bool-cases (id == actor)) [
  | inl self ↦ rw (self, remove) g
  | inr other ↦ elim (Option-cases (find_user st id)) [
    | inl gone ↦ rw (other, gone, remove) g
    | inr (u, found) ↦
        rw (other, found, remove)
          (elim (Bool-cases (is_admin u.role && leb (admin_count st) 1)) [
            | inl last ↦ rw (last, remove_checks) g
            | inr more ↦
                rw (more, remove_checks)
                  (record {
                    keyed = record {
                      unique = Pairwise-destroy _ st.users g.keyed.unique;
                      below = All-destroy _ (λ u. u.id < st.next_user) st.users g.keyed.below;
                    };
                    governed = ground (
                      arith,
                      count-destroy is_enabled_admin id u st.users g.keyed.unique found,
                      g.governed,
                    );
                  })
          ])
  ]
]

reset_password-IsGoverned :
    (p : Platform) (id : ℕ) (password : String) (st : State)
    → IsGoverned st
    → IsGoverned (reset_password p id password st).0
unfolding reset_password get end_sessions
reset_password-IsGoverned p id password st g = elim (Option-cases (find_user st id)) [
  | inl gone ↦ rw (gone, reset_password) g
  | inr (u, found) ↦
      rw (found, reset_password)
        (let saved =
            save-IsGoverned id (λ u. record u { password_hash = p.hash_password password }) u st
              (λ u. refl) found (inl (omega arith)) g in
          record {
            keyed = record { unique = saved.keyed.unique; below = saved.keyed.below };
            governed = saved.governed;
          })
]

run_call-IsGoverned :
    (p : Platform) (call : UserCall) (st : State) → IsGoverned st → IsGoverned (run_call p call st)
run_call-IsGoverned p (create_user input) st g = create-IsGoverned p input st g
run_call-IsGoverned p (update_user id input actor_id) st g =
    update-IsGoverned id input actor_id st g
run_call-IsGoverned p (remove_user id actor_id) st g = remove-IsGoverned id actor_id st g
run_call-IsGoverned p (reset_user_password id password) st g =
    reset_password-IsGoverned p id password st g

-- Whatever calls of the administration of users follow, refused or not, the ids stay unique and at
-- least one administrator can sign in, given that both hold before.
pub run_calls-IsGoverned :
    (p : Platform) (calls : List UserCall) (st : State)
    → IsGoverned st
    → IsGoverned (run_calls p calls st)
run_calls-IsGoverned p [] st g = g
run_calls-IsGoverned p (call ∷ calls) st g =
    run_calls-IsGoverned p calls (run_call p call st) (run_call-IsGoverned p call st g)

setup-IsGoverned :
    (p : Platform) (now : ℕ) (email name password : String) (ip : Option String) (st : State)
    → st.users ≡ []
    → IsGoverned (setup p now email name password ip st).0
unfolding setup setup_required
setup-IsGoverned p now email name password ip st empty =
    rw (empty, setup)
      (record {
        keyed = record { unique = (tt, tt); below = (omega arith, tt) };
        governed = omega arith;
      })

count_all : (xs : List User) → count is_enabled_admin xs ≤ count (λ u. true) xs
count_all [] = omega arith
count_all (u ∷ xs) = ground (arith, count_all xs)

setup_refused :
    (p : Platform) (now : ℕ) (email name password : String) (ip : Option String) (st : State)
    → 1 ≤ admin_count st
    → setup p now email name password ip st
      ≡ (st, err (conflict "Setup has already been completed"))
unfolding setup setup_required
setup_refused p now email name password ip st g = ground (arith, count_all st.users)

-- The first-run setup of a server without users leaves an administrator who can sign in; whatever
-- calls of the administration of users follow, there is one, and setup is refused from then on,
-- whoever asks for it.
pub run_calls-setup :
    (p : Platform) (now later : ℕ) (email name password : String) (ip : Option String)
    (calls : List UserCall) (st : State) (email' name' password' : String) (ip' : Option String)
    → st.users ≡ []
    → let after = run_calls p calls (setup p now email name password ip st).0 in
      (1 ≤ admin_count after)
      × (setup p later email' name' password' ip' after
          ≡ (after, err (conflict "Setup has already been completed")))
run_calls-setup p now later email name password ip calls st email' name' password' ip' empty =
    let g =
      run_calls-IsGoverned p calls (setup p now email name password ip st).0
        (setup-IsGoverned p now email name password ip st empty) in
    (g.governed, setup_refused p later email' name' password' ip' _ g.governed)
