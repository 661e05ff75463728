-- ===== src/Common/Rows.antt =====
-- A database table as the list of its rows, queried and changed by Boolean conditions.
use Prim.Native.Nat.{ℕ, suc, ◌+◌, ◌≤◌}
use mathlib.Core.Bool.{Bool, true, false, ◌||◌, ◌&&◌}
use mathlib.Core.Path.{◌≡◌, refl, subst}
use mathlib.Core.Logic.{inl, inr}
use native.Mathlib.Omega.{arith}
use mathlib.Core.List.{List, [], ◌∷◌, ◌++◌}
use mathlib.Core.Option.{Option, none, some, some-injective}
use gsm.Common.Tests.{if◌then◌else◌, Eq, ◌==◌, Bool-cases}
use gsm.Common.Lists.{All, Pairwise, everywhere}

module _ {ℓ} {A : Type ℓ} where
  -- `findOne`: the first row that meets the condition.
  abbrev pub find? : (A → Bool) → List A → Option A
  find? p [] = none
  find? p (x ∷ xs) = if p x then some x else find? p xs

  -- `findAll`.
  abbrev pub select : (A → Bool) → List A → List A
  select p [] = []
  select p (x ∷ xs) = let rest = select p xs in if p x then x ∷ rest else rest

  -- `destroy`.
  abbrev pub destroy : (A → Bool) → List A → List A
  destroy p [] = []
  destroy p (x ∷ xs) = let rest = destroy p xs in if p x then rest else x ∷ rest

  -- `count`.
  abbrev pub count : (A → Bool) → List A → ℕ
  count p [] = 0
  count p (x ∷ xs) = let rest = count p xs in if p x then suc rest else rest

  -- `update`: every row that meets the condition.
  abbrev pub update_rows : (A → Bool) → (A → A) → List A → List A
  update_rows p f [] = []
  update_rows p f (x ∷ xs) = (if p x then f x else x) ∷ update_rows p f xs

  abbrev pub any : (A → Bool) → List A → Bool
  any p [] = false
  any p (x ∷ xs) = p x || any p xs

-- `includes`, and `has` of a set kept as a list.
abbrev pub contains {ℓ} : {A : Type ℓ} ⦃e : Eq A⦄ → A → List A → Bool
contains a [] = false
contains a (x ∷ xs) = x == a || contains a xs

module _ {ℓ} {A : Type ℓ} where
  pub select-All : (P : A → Type 0) (p : A → Bool) (xs : List A) → All P xs → All P (select p xs)
  select-All P p [] h = tt
  select-All P p (x ∷ xs) (h, hs) = ground (arith, select-All P p xs hs)

  -- What is selected keeps a relation that holds between any two rows.
  pub select-Pairwise :
      (R S : A → A → Type 0) (p : A → Bool)
      → ((x y : A) → p x ≡ true → p y ≡ true → R x y → S x y)
      → (xs : List A) → Pairwise R xs
      → Pairwise S (select p xs)
  select-Pairwise R S p f [] h = tt
  select-Pairwise R S p f (x ∷ xs) (h, hs) = elim (Bool-cases (p x)) [
    | inl yes_x ↦ rw yes_x (kept x xs yes_x h, select-Pairwise R S p f xs hs)
    | inr no_x ↦ rw no_x (select-Pairwise R S p f xs hs)
  ]
    where
      kept : (x : A) (ys : List A) → p x ≡ true → All (R x) ys → All (S x) (select p ys)
      kept x [] px r = tt
      kept x (y ∷ ys) px (r, rs) = elim (Bool-cases (p y)) [
        | inl py ↦ rw py (f x y px py r, kept x ys px rs)
        | inr py ↦ rw py (kept x ys px rs)
      ]

  pub find?-select :
      (q p : A → Bool) (xs : List A) → find? q (select p xs) ≡ find? (λ x. p x && q x) xs
  find?-select q p [] = refl
  find?-select q p (x ∷ xs) = ground (arith, find?-select q p xs)

  pub find?_sound : (p : A → Bool) (xs : List A) {x : A} → find? p xs ≡ some x → p x ≡ true
  find?_sound p [] h = cc
  find?_sound p (y ∷ xs) {x} h = elim (Bool-cases (p y)) [
    | inl here ↦ subst (λ z. p z ≡ true) (some-injective y x (rw here at h)) here
    | inr later ↦ find?_sound p xs (rw later at h)
  ]

  pub find?-destroy :
      (q d : A → Bool) (xs : List A) {x : A} → find? q (destroy d xs) ≡ some x → d x ≡ false
  find?-destroy q d [] h = cc
  find?-destroy q d (y ∷ xs) {x} h = elim (Bool-cases (d y)) [
    | inl gone ↦ find?-destroy q d xs (rw gone at h)
    | inr stays ↦ elim (Bool-cases (q y)) [
      | inl here ↦ subst (λ z. d z ≡ false) (some-injective y x (rw here at rw stays at h)) stays
      | inr later ↦ find?-destroy q d xs (rw later at rw stays at h)
    ]
  ]

  pub find?-none_of_destroy :
      (q d : A → Bool) (xs : List A)
      → ((x : A) → q x ≡ true → d x ≡ true)
      → find? q (destroy d xs) ≡ none
  find?-none_of_destroy q d [] h = refl
  find?-none_of_destroy q d (y ∷ xs) h = ground (arith, find?-none_of_destroy q d xs h, h y)

  -- A row put after those that do not meet the condition is the one that is found, and counted.
  pub find?-snoc :
      (q : A → Bool) (xs : List A) (x : A)
      → find? q xs ≡ none
      → q x ≡ true
      → find? q (xs ++ x ∷ []) ≡ some x
  find?-snoc q [] x h e = ground arith
  find?-snoc q (y ∷ xs) x h e = ground (arith, find?-snoc q xs x)

  pub count-snoc :
      (q : A → Bool) (xs : List A) (x : A)
      → find? q xs ≡ none
      → q x ≡ true
      → count q (xs ++ x ∷ []) ≡ 1
  count-snoc q [] x h e = ground arith
  count-snoc q (y ∷ xs) x h e = ground (arith, count-snoc q xs x)

  pub find?-none_of_and :
      (q r : A → Bool) (xs : List A) → find? q xs ≡ none → find? (λ x. q x && r x) xs ≡ none
  find?-none_of_and q r [] h = refl
  find?-none_of_and q r (y ∷ xs) h = ground (arith, find?-none_of_and q r xs)

  pub find?_All :
      (P : A → Type 0) (q : A → Bool) (xs : List A) {x : A} → All P xs → find? q xs ≡ some x → P x
  find?_All P q [] h found = cc
  find?_All P q (y ∷ xs) {x} (h, hs) found = elim (Bool-cases (q y)) [
    | inl here ↦ subst P (some-injective y x (rw here at found)) h
    | inr later ↦ find?_All P q xs hs (rw later at found)
  ]

  pub count-append : (q : A → Bool) (xs ys : List A) → count q (xs ++ ys) ≡ count q xs + count q ys
  count-append q [] ys = omega arith
  count-append q (x ∷ xs) ys = ground (arith, count-append q xs ys)

module _ {ℓ} {A : Type ℓ} where
  -- Counting after a change is counting what the change makes of each row.
  pub count-update_rows :
      (p q : A → Bool) (f : A → A) (xs : List A)
      → count p (update_rows q f xs) ≡ count (λ x. p (if q x then f x else x)) xs
  count-update_rows p q f [] = refl
  count-update_rows p q f (x ∷ xs) = ground (arith, count-update_rows p q f xs)

  -- A stronger condition counts less.
  pub count_mono :
      (p q : A → Bool) (xs : List A)
      → All (λ x. p x ≡ true → q x ≡ true) xs
      → count p xs ≤ count q xs
  count_mono p q [] h = omega arith
  count_mono p q (x ∷ xs) (i, h) = ground (arith, count_mono p q xs h, i)

  pub count-destroy-le : (p q : A → Bool) (xs : List A) → count p (destroy q xs) ≤ count p xs
  count-destroy-le p q [] = omega arith
  count-destroy-le p q (x ∷ xs) = ground (arith, count-destroy-le p q xs)

  pub All-update_where :
      (P : A → Type 0) (q : A → Bool) (f : A → A) (xs : List A)
      → All (λ x. q x ≡ true → P x → P (f x)) xs
      → All P xs
      → All P (update_rows q f xs)
  All-update_where P q f [] h a = tt
  All-update_where P q f (x ∷ xs) (h, hs) (p, a) = elim (Bool-cases (q x)) [
    | inl changes ↦ rw changes (h changes p, All-update_where P q f xs hs a)
    | inr stays ↦ rw stays (p, All-update_where P q f xs hs a)
  ]

  pub All-update_rows :
      (P : A → Type 0) (q : A → Bool) (f : A → A) (xs : List A)
      → ((x : A) → P x → P (f x))
      → All P xs
      → All P (update_rows q f xs)
  All-update_rows P q f xs h a = All-update_where P q f xs (everywhere _ xs (λ x e. h x)) a

  pub All-destroy : (P : A → Type 0) (q : A → Bool) (xs : List A) → All P xs → All P (destroy q xs)
  All-destroy P q [] a = tt
  All-destroy P q (x ∷ xs) (p, a) = ground (arith, All-destroy P q xs a)

  pub count-eq-zero : (q : A → Bool) (xs : List A) → All (λ x. q x ≡ false) xs → count q xs ≡ 0
  count-eq-zero q [] h = refl
  count-eq-zero q (x ∷ xs) (i, h) = ground (arith, count-eq-zero q xs h)

module _ {ℓ} {A : Type ℓ} ⦃e : Eq A⦄ where
  pub count_of_not_contains :
      (a : A) (xs : List A) → contains a xs ≡ false → count (λ x. x == a) xs ≡ 0
  count_of_not_contains a [] h = refl
  count_of_not_contains a (x ∷ xs) h = ground (arith, count_of_not_contains a xs)

  pub count_of_contains : (a : A) (xs : List A) → contains a xs ≡ true → 1 ≤ count (λ x. x == a) xs
  count_of_contains a [] h = cc
  count_of_contains a (x ∷ xs) h = ground (arith, count_of_contains a xs)
