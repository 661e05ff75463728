-- ===== src/Accounts/Keyed.antt =====
-- The users' table as it is changed by id: the ids stay unique, and a change counts by its one row.
use gsm.Common.{
  ℕ, ◌+◌, ◌<◌, ◌≡◌, ◌≢◌, refl, sym, subst, inl, inr, Bool, true, false, some, some-injective, List,
  [], ◌∷◌, ◌++◌, ◌==◌, nat_eq, find?, destroy, count, update_rows, All, Pairwise, All-append,
  Bool-cases, arith,
}
use gsm.Accounts.{User, State}

abbrev pub one : Bool → ℕ
one true = 1
one false = 0

-- Ids are unique and below the next one.
pub record IsKeyed (st : State) : Type 0 where
  pub unique : Pairwise (λ u v. u.id ≢ v.id) st.users
  pub below : All (λ u. u.id < st.next_user) st.users

module _ (q : User → Bool) (f : User → User) (keeps : (u : User) → (f u).id ≡ u.id) where
  pub All-update_rows :
      (P : ℕ → Type 0) (xs : List User)
      → All (λ u. P u.id) xs
      → All (λ u. P u.id) (update_rows q f xs)
  All-update_rows P [] h = tt
  All-update_rows P (u ∷ xs) (h, hs) = (
    elim (Bool-cases (q u)) [ inl hit ↦ rw hit (subst P (sym (keeps u)) h) | inr miss ↦ rw miss h ],
    All-update_rows P xs hs,
  )

  pub Pairwise-update_rows :
      (xs : List User)
      → Pairwise (λ u v. u.id ≢ v.id) xs
      → Pairwise (λ u v. u.id ≢ v.id) (update_rows q f xs)
  Pairwise-update_rows [] h = tt
  Pairwise-update_rows (u ∷ xs) (h, hs) = (
    elim (Bool-cases (q u)) [
      | inl hit ↦ rw hit (
          subst (λ i. All (λ v. i ≢ v.id) (update_rows q f xs)) (sym (keeps u))
            (All-update_rows (λ i. u.id ≢ i) xs h))
      | inr miss ↦ rw miss (All-update_rows (λ i. u.id ≢ i) xs h)
    ],
    Pairwise-update_rows xs hs,
  )

module _ (q : User → Bool) where
  pub All-destroy : (P : User → Type 0) (xs : List User) → All P xs → All P (destroy q xs)
  All-destroy P [] h = tt
  All-destroy P (u ∷ xs) (h, hs) = ground (arith, All-destroy P xs hs)

  pub Pairwise-destroy :
      (xs : List User)
      → Pairwise (λ u v. u.id ≢ v.id) xs
      → Pairwise (λ u v. u.id ≢ v.id) (destroy q xs)
  Pairwise-destroy [] h = tt
  Pairwise-destroy (u ∷ xs) (h, hs) = elim (Bool-cases (q u)) [
    | inl hit ↦ rw hit (Pairwise-destroy xs hs)
    | inr miss ↦ rw miss (All-destroy (λ v. u.id ≢ v.id) xs h, Pairwise-destroy xs hs)
  ]

module _ (p : User → Bool) (id : ℕ) where
  absent-update_rows :
      (f : User → User) (u : User) (xs : List User)
      → (u.id == id) ≡ true
      → All (λ v. u.id ≢ v.id) xs
      → count p (update_rows (λ v. v.id == id) f xs) ≡ count p xs
  absent-update_rows f u [] e h = refl
  absent-update_rows f u (v ∷ xs) e (d, h) = ground (arith, absent-update_rows f u xs e h)

  absent-destroy :
      (u : User) (xs : List User)
      → (u.id == id) ≡ true
      → All (λ v. u.id ≢ v.id) xs
      → count p (destroy (λ v. v.id == id) xs) ≡ count p xs
  absent-destroy u [] e h = refl
  absent-destroy u (v ∷ xs) e (d, h) = ground (arith, absent-destroy u xs e h)

  -- A change to the one row with an id counts by that row alone.
  pub count-update_rows :
      (f : User → User) (u : User) (xs : List User)
      → Pairwise (λ u v. u.id ≢ v.id) xs
      → find? (λ v. v.id == id) xs ≡ some u
      → count p (update_rows (λ v. v.id == id) f xs) + one (p u) ≡ count p xs + one (p (f u))
  count-update_rows f u [] h found = cc
  count-update_rows f u (v ∷ xs) (d, h) found = elim (Bool-cases (v.id == id)) [
    | inl here ↦
        subst
          (λ w.
            count p (update_rows (λ v. v.id == id) f (v ∷ xs)) + one (p w)
            ≡ count p (v ∷ xs) + one (p (f w)))
          (some-injective v u (rw here at found)) (ground (arith, absent-update_rows f v xs here d))
    | inr later ↦ ground (arith, count-update_rows f u xs h)
  ]

  pub count-destroy :
      (u : User) (xs : List User)
      → Pairwise (λ u v. u.id ≢ v.id) xs
      → find? (λ v. v.id == id) xs ≡ some u
      → count p (destroy (λ v. v.id == id) xs) + one (p u) ≡ count p xs
  count-destroy u [] h found = cc
  count-destroy u (v ∷ xs) (d, h) found = elim (Bool-cases (v.id == id)) [
    | inl here ↦
        subst (λ w. count p (destroy (λ v. v.id == id) (v ∷ xs)) + one (p w) ≡ count p (v ∷ xs))
          (some-injective v u (rw here at found)) (ground (arith, absent-destroy v xs here d))
    | inr later ↦ ground (arith, count-destroy u xs h)
  ]

  -- A change that keeps the property of every row keeps the count.
  pub count-same :
      (q : User → Bool) (f : User → User) (xs : List User)
      → ((u : User) → p (f u) ≡ p u)
      → count p (update_rows q f xs) ≡ count p xs
  count-same q f [] h = refl
  count-same q f (v ∷ xs) h = ground (arith, count-same q f xs h, h v)

  pub count-append : (xs ys : List User) → count p (xs ++ ys) ≡ count p xs + count p ys
  count-append [] ys = omega arith
  count-append (v ∷ xs) ys = ground (arith, count-append xs ys)

pub Pairwise-snoc :
    (x : User) (xs : List User)
    → Pairwise (λ u v. u.id ≢ v.id) xs
    → All (λ u. u.id < x.id) xs
    → Pairwise (λ u v. u.id ≢ v.id) (xs ++ x ∷ [])
Pairwise-snoc x [] h k = (tt, tt)
Pairwise-snoc x (u ∷ xs) (d, h) (b, k) =
    (All-append (λ v. u.id ≢ v.id) xs (x ∷ []) d (omega arith, tt), Pairwise-snoc x xs h k)
