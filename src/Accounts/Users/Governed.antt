-- ===== src/Accounts/Users/Governed.antt =====
-- A users' table with an administrator, and what saving a row, resetting factors and ending sessions
-- do to it.
use gsm.Common.{ℕ, ◌≤◌, ◌<◌, ◌≡◌, refl, sym, subst, none, some, ◌==◌, nat_eq, string_eq, arith, ◌⊎◌}
use gsm.Accounts.{User, State, find_user, save_user}
use gsm.Accounts.Sessions.{end_sessions}
use gsm.Accounts.Manage.{admin_reset}
use gsm.Accounts.Keyed.{
  one, IsKeyed, All-update_rows, Pairwise-update_rows, count-update_rows, count-same,
}
use gsm.Accounts.Users.{is_enabled_admin, admin_count}

-- A users' table with keys and an administrator who can sign in.
pub record IsGoverned (st : State) : Type 0 where
  pub keyed : IsKeyed st
  pub governed : 1 ≤ admin_count st

-- Saving the user's row: the keys stay, and the count moves by that row.
save-IsKeyed :
    (id : ℕ) (f : User → User) (st : State)
    → ((u : User) → (f u).id ≡ u.id)
    → IsKeyed st
    → IsKeyed (save_user id f st)
save-IsKeyed id f st same k = record {
  unique = Pairwise-update_rows (λ u. u.id == id) f same st.users k.unique;
  below = All-update_rows (λ u. u.id == id) f same (λ i. i < st.next_user) st.users k.below;
}

-- A saved row that is at least as much of an enabled administrator as the one it was, or one of two.
pub save-IsGoverned :
    (id : ℕ) (f : User → User) (u : User) (st : State)
    → ((v : User) → (f v).id ≡ v.id)
    → find_user st id ≡ some u
    → (one (is_enabled_admin u) ≤ one (is_enabled_admin (f u))) ⊎ (2 ≤ admin_count st)
    → IsGoverned st
    → IsGoverned (save_user id f st)
save-IsGoverned id f u st same found kept g = record {
  keyed = save-IsKeyed id f st same g.keyed;
  governed =
      let counted = count-update_rows is_enabled_admin id f u st.users g.keyed.unique found in
      let small : one (is_enabled_admin u) ≤ 1 = ground arith in
      ground (arith, counted, small, kept, g.governed);
}

pub admin_reset-IsGoverned : (u : User) (st : State) → IsGoverned st → IsGoverned (admin_reset u st)
unfolding admin_reset end_sessions
admin_reset-IsGoverned u st g = record {
  keyed = record {
    unique = Pairwise-update_rows (λ v. v.id == u.id) _ (λ v. refl) st.users g.keyed.unique;
    below =
        All-update_rows (λ v. v.id == u.id) _ (λ v. refl) (λ i. i < st.next_user) st.users
          g.keyed.below;
  };
  governed =
      subst (λ n. 1 ≤ n)
        (sym (count-same is_enabled_admin u.id (λ v. v.id == u.id) _ st.users (λ v. refl)))
        g.governed;
}

pub end_sessions-IsGoverned :
    (id : ℕ) (st : State) → IsGoverned st → IsGoverned (end_sessions id none st)
unfolding end_sessions
end_sessions-IsGoverned id st g = record {
  keyed = record { unique = g.keyed.unique; below = g.keyed.below };
  governed = g.governed;
}
