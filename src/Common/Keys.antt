-- ===== src/Common/Keys.antt =====
-- Rows that have a key: the one that is found is the only one.
use Prim.Native.Nat.{◌≤◌}
use mathlib.Core.Bool.{Bool, true, false}
use mathlib.Core.Path.{◌≡◌, refl, subst, sym}
use mathlib.Core.Logic.{inl, inr}
use native.Mathlib.Omega.{arith}
use mathlib.Core.List.{List, [], ◌∷◌}
use mathlib.Core.Option.{none, some, some-injective}
use gsm.Common.Tests.{Bool-cases}
use gsm.Common.Lists.{All}
use gsm.Common.Rows.{find?, find?_sound, count}

module _ {ℓ} {A : Type ℓ} where
  vacuous_of_count {κ} :
      (P : A → Type κ) (q : A → Bool) (xs : List A)
      → count q xs ≡ 0
      → All (λ x. q x ≡ true → P x) xs
  vacuous_of_count P q [] h = tt
  vacuous_of_count P q (x ∷ xs) h = elim (Bool-cases (q x)) [
    | inl yes_x ↦ absurd (ground arith)
    | inr no_x ↦ (λ e. cc, vacuous_of_count P q xs (ground arith))
  ]

  found_count :
      (p q : A → Bool) (xs : List A) {x : A} → find? p xs ≡ some x → q x ≡ true → 1 ≤ count q xs
  found_count p q [] found h = cc
  found_count p q (y ∷ ys) {x} found h = elim (Bool-cases (p y)) [
    | inl here ↦
        let same = subst (λ z. q z ≡ true) (sym (some-injective y x (rw here at found))) h in
        ground arith
    | inr later ↦ let rest = found_count p q ys (rw later at found) h in ground arith
  ]

  -- A row that is found is the only one with its key.
  pub find?_keyed :
      (p q : A → Bool) (xs : List A) {x : A}
      → find? p xs ≡ some x
      → q x ≡ true
      → count q xs ≤ 1
      → All (λ y. q y ≡ true → y ≡ x) xs
  find?_keyed p q [] found h one = tt
  find?_keyed p q (y ∷ ys) {x} found h one = elim (Bool-cases (p y)) [
    | inl here ↦
        let same = some-injective y x (rw here at found) in
        let of_y = subst (λ z. q z ≡ true) (sym same) h in
        (λ e. same, vacuous_of_count (λ z. z ≡ x) q ys (ground arith))
    | inr later ↦
        let rest = found_count p q ys (rw later at found) h in
        (λ e. absurd (ground arith), find?_keyed p q ys (rw later at found) h (ground arith))
  ]

  pub find?_of_key :
      (p q : A → Bool) (xs : List A) {x : A}
      → find? p xs ≡ some x
      → q x ≡ true
      → count q xs ≤ 1
      → find? q xs ≡ some x
  find?_of_key p q [] found h one = cc
  find?_of_key p q (y ∷ ys) {x} found h one = elim (Bool-cases (p y)) [
    | inl here ↦
        let same = some-injective y x (rw here at found) in
        let of_y = subst (λ z. q z ≡ true) (sym same) h in rw of_y (rw here at found)
    | inr later ↦
        let rest = found_count p q ys (rw later at found) h in
        let other : q y ≡ false = ground arith in
        rw other (find?_of_key p q ys (rw later at found) h (ground arith))
  ]

  pub find?-none : (q : A → Bool) (xs : List A) → All (λ x. q x ≡ false) xs → find? q xs ≡ none
  find?-none q [] h = refl
  find?-none q (x ∷ xs) (i, h) = ground (arith, find?-none q xs h)

  -- The one row that meets a condition is the one that is found.
  pub find?_unique :
      (q : A → Bool) (xs : List A) {x : A}
      → find? q xs ≡ some x
      → count q xs ≤ 1
      → All (λ y. q y ≡ true → y ≡ x) xs
  find?_unique q xs found one = find?_keyed q q xs found (find?_sound q xs found) one
