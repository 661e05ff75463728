-- ===== src/Common/Lists.antt =====
-- Lists measured and indexed by native numbers, under the library's names.
use Prim.Native.Nat.{ℕ, zero, suc, ◌+◌, ◌-◌, ◌≤◌, min}
use mathlib.Core.Path.{◌≡◌, refl, ap}
use mathlib.Core.List.{List, [], ◌∷◌, ◌++◌}
use native.Mathlib.Omega.{arith}

module _ {ℓ} {A : Type ℓ} where
  abbrev pub length : List A → ℕ
  length [] = 0
  length (x ∷ xs) = suc (length xs)

  -- An assignment `items[i] = v` at an index in bounds; out of bounds it changes nothing.
  abbrev pub set : List A → ℕ → A → List A
  set [] i v = []
  set (x ∷ xs) zero v = v ∷ xs
  set (x ∷ xs) (suc i) v = x ∷ set xs i v

  abbrev pub take : ℕ → List A → List A
  take zero xs = []
  take (suc n) [] = []
  take (suc n) (x ∷ xs) = x ∷ take n xs

  abbrev pub drop : ℕ → List A → List A
  drop zero xs = xs
  drop (suc n) [] = []
  drop (suc n) (x ∷ xs) = drop n xs

  -- A predicate of every element.
  abbrev pub All {κ} : (A → Type κ) → List A → Type κ
  All P [] = Unit
  All P (x ∷ xs) = P x × All P xs

module _ {ℓ} {A : Type ℓ} where
  pub length-append : (xs ys : List A) → length (xs ++ ys) ≡ length xs + length ys
  length-append [] ys = omega arith
  length-append (x ∷ xs) ys = omega (arith, length-append xs ys)

  pub length-set : (xs : List A) (i : ℕ) (v : A) → length (set xs i v) ≡ length xs
  length-set [] i v = refl
  length-set (x ∷ xs) zero v = refl
  length-set (x ∷ xs) (suc i) v = ap suc (length-set xs i v)

  pub length-drop : (n : ℕ) (xs : List A) → length (drop n xs) ≡ length xs - n
  length-drop zero xs = omega arith
  length-drop (suc n) [] = omega arith
  length-drop (suc n) (x ∷ xs) = omega (arith, length-drop n xs)

  pub length-take : (n : ℕ) (xs : List A) → length (take n xs) ≡ min n (length xs)
  length-take zero xs = omega arith
  length-take (suc n) [] = omega arith
  length-take (suc n) (x ∷ xs) = omega (arith, length-take n xs)

  pub take-append-drop : (n : ℕ) (xs : List A) → take n xs ++ drop n xs ≡ xs
  take-append-drop zero xs = refl
  take-append-drop (suc n) [] = refl
  take-append-drop (suc n) (x ∷ xs) = ap (λ r. x ∷ r) (take-append-drop n xs)

  pub drop-length : (xs : List A) → drop (length xs) xs ≡ []
  drop-length [] = refl
  drop-length (x ∷ xs) = drop-length xs

  pub drop-append : (n : ℕ) (xs ys : List A) → n ≤ length xs → drop n (xs ++ ys) ≡ drop n xs ++ ys
  drop-append zero xs ys h = refl
  drop-append (suc n) [] ys h = absurd (omega arith)
  drop-append (suc n) (x ∷ xs) ys h = drop-append n xs ys (omega arith)

module _ {ℓ κ} {A : Type ℓ} (P : A → Type κ) where
  pub All-append : (xs ys : List A) → All P xs → All P ys → All P (xs ++ ys)
  All-append [] ys h k = k
  All-append (x ∷ xs) ys (p, h) k = (p, All-append xs ys h k)

  -- What an element's property follows from, point by point.
  pub All-zip {μ ν} :
      {Q : A → Type μ} {R : A → Type ν} (xs : List A)
      → ((x : A) → P x → Q x → R x)
      → All P xs
      → All Q xs
      → All R xs
  All-zip [] f h k = tt
  All-zip (x ∷ xs) f (p, h) (q, k) = (f x p q, All-zip xs f h k)

-- Two lists of one length, related element by element, and a relation of each element to those
-- after it.
abbrev pub Zipped {ℓ κ} : {A : Type ℓ} {B : Type κ} → (A → B → Type 0) → List A → List B → Type 0
Zipped R [] [] = Unit
Zipped R [] (y ∷ ys) = ⊥
Zipped R (x ∷ xs) [] = ⊥
Zipped R (x ∷ xs) (y ∷ ys) = R x y × Zipped R xs ys

abbrev pub Pairwise {ℓ} : {A : Type ℓ} → (A → A → Type 0) → List A → Type 0
Pairwise R [] = Unit
Pairwise R (x ∷ xs) = All (R x) xs × Pairwise R xs

module _ {ℓ κ} {A : Type ℓ} {B : Type κ} (R : A → B → Type 0) where
  -- A relation of the elements of one list carries over to those of the other.
  Zipped-All :
      (S : A → Type 0) (T : B → Type 0)
      → ((x : A) (y : B) → R x y → S x → T y)
      → (xs : List A) (ys : List B) → Zipped R xs ys
      → All S xs
      → All T ys
  Zipped-All S T f [] [] z h = tt
  Zipped-All S T f [] (y ∷ ys) z h = absurd z
  Zipped-All S T f (x ∷ xs) [] z h = absurd z
  Zipped-All S T f (x ∷ xs) (y ∷ ys) (r, z) (s, h) = (f x y r s, Zipped-All S T f xs ys z h)

  pub Zipped-Pairwise :
      (S : A → A → Type 0) (T : B → B → Type 0)
      → ((x x' : A) (y y' : B) → R x y → R x' y' → S x x' → T y y')
      → (xs : List A) (ys : List B) → Zipped R xs ys
      → Pairwise S xs
      → Pairwise T ys
  Zipped-Pairwise S T f [] [] z h = tt
  Zipped-Pairwise S T f [] (y ∷ ys) z h = absurd z
  Zipped-Pairwise S T f (x ∷ xs) [] z h = absurd z
  Zipped-Pairwise S T f (x ∷ xs) (y ∷ ys) (r, z) (s, h) = (
    Zipped-All (S x) (T y) (λ x' y' r'. f x x' y y' r r') xs ys z s,
    Zipped-Pairwise S T f xs ys z h,
  )

pub Zipped-with {ℓ κ} :
    {A : Type ℓ} {B : Type κ} (R T : A → B → Type 0) (S : A → Type 0)
    → ((x : A) (y : B) → R x y → S x → T x y)
    → (xs : List A) (ys : List B) → Zipped R xs ys
    → All S xs
    → Zipped T xs ys
Zipped-with R T S f [] [] z h = tt
Zipped-with R T S f [] (y ∷ ys) z h = absurd z
Zipped-with R T S f (x ∷ xs) [] z h = absurd z
Zipped-with R T S f (x ∷ xs) (y ∷ ys) (r, z) (s, h) = (f x y r s, Zipped-with R T S f xs ys z h)

module _ {ℓ κ μ} {A : Type ℓ} {P : A → Type κ} {Q : A → Type μ} where
  pub All-map : (xs : List A) → ((x : A) → P x → Q x) → All P xs → All Q xs
  All-map [] f h = tt
  All-map (x ∷ xs) f (p, h) = (f x p, All-map xs f h)

pub everywhere {ℓ κ} : {A : Type ℓ} (P : A → Type κ) (xs : List A) → ((x : A) → P x) → All P xs
everywhere P [] f = tt
everywhere P (x ∷ xs) f = (f x, everywhere P xs f)
