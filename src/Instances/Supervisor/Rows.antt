-- ===== src/Instances/Supervisor/Rows.antt =====
-- A loop that saves rows one after the other, against a change of every row on its own.
use gsm.Common.{
  ◌≡◌, ◌≢◌, refl, sym, ap, ◌∙◌, subst, inl, inr, Bool, List, [], ◌∷◌, map, ◌==◌, nat_eq, string_eq,
  select, update_rows, All, Pairwise, if◌then◌else◌, Bool-cases, arith, nat_beq_iff,
}
use gsm.Enums.{status_eq}
use gsm.Instances.{Instance}

-- A loop over row objects that saves each by its id changes every row on its own.
module _ (change : Instance → Instance → Instance)
    (same : (i r : Instance) → (change i r).id ≡ r.id) where
  unfoldable pub save_all : List Instance → List Instance → List Instance
  save_all [] xs = xs
  save_all (i ∷ rows) xs = save_all rows (update_rows (λ r. r.id == i.id) (change i) xs)

  one_row : List Instance → Instance → Instance
  one_row [] x = x
  one_row (i ∷ rows) x = one_row rows (if x.id == i.id then change i x else x)

  save_all-map : (rows xs : List Instance) → save_all rows xs ≡ map (one_row rows) xs
  unfolding save_all one_row
  save_all-map [] [] = refl
  save_all-map [] (x ∷ xs) = ap (λ r. x ∷ r) (save_all-map [] xs)
  save_all-map (i ∷ rows) xs =
      save_all-map rows (update_rows (λ r. r.id == i.id) (change i) xs) ∙ step xs
    where
      step :
          (xs : List Instance)
          → map (one_row rows) (update_rows (λ r. r.id == i.id) (change i) xs)
            ≡ map (one_row (i ∷ rows)) xs
      step [] = refl
      step (x ∷ xs) = ap (λ r. one_row rows (if x.id == i.id then change i x else x) ∷ r) (step xs)

  one_row_absent :
      (q : Instance → Bool) (xs : List Instance) (x : Instance)
      → All (λ r. x.id ≢ r.id) xs
      → one_row (select q xs) x ≡ x
  unfolding one_row
  one_row_absent q [] x h = refl
  one_row_absent q (y ∷ xs) x (d, h) = ground (arith, one_row_absent q xs x h)

  one_row_skip :
      (q : Instance → Bool) (y : Instance) (ys xs : List Instance)
      → All (λ x. y.id ≢ x.id) xs
      → All (λ x. one_row (select q ys) x ≡ (if q x then change x x else x)) xs
      → All (λ x. one_row (select q (y ∷ ys)) x ≡ (if q x then change x x else x)) xs
  unfolding one_row
  one_row_skip q y ys [] d h = tt
  one_row_skip q y ys (x ∷ xs) (d, ds) (h, hs) = (ground arith, one_row_skip q y ys xs ds hs)

  one_row_lem :
      (q : Instance → Bool) (xs : List Instance)
      → Pairwise (λ a b. a.id ≢ b.id) xs
      → All (λ x. one_row (select q xs) x ≡ (if q x then change x x else x)) xs
  unfolding one_row
  one_row_lem q [] u = tt
  one_row_lem q (y ∷ ys) (d, u) = (
    elim (Bool-cases (q y)) [
      | inl hit ↦ rw hit (
          ap (λ b. one_row (select q ys) (if b then change y y else y))
            ((nat_beq_iff y.id y.id).1 refl)
          ∙ one_row_absent q ys (change y y)
              (subst (λ i. All (λ r. i ≢ r.id) ys) (sym (same y y)) d))
      | inr miss ↦ rw miss (one_row_absent q ys y d)
    ],
    one_row_skip q y ys ys d (one_row_lem q ys u),
  )

  map_same :
      (f g : Instance → Instance) (xs : List Instance)
      → All (λ x. f x ≡ g x) xs
      → map f xs ≡ map g xs
  map_same f g [] h = refl
  map_same f g (x ∷ xs) (e, h) = cc (e, map_same f g xs h)

  pub save_all_lem :
      (q : Instance → Bool) (xs : List Instance)
      → Pairwise (λ a b. a.id ≢ b.id) xs
      → save_all (select q xs) xs ≡ map (λ x. if q x then change x x else x) xs
  save_all_lem q xs u =
      save_all-map (select q xs) xs
      ∙ map_same (one_row (select q xs)) (λ x. if q x then change x x else x) xs
          (one_row_lem q xs u)

pub kept_rows :
    (q : Instance → Bool) (f : Instance → Instance) (xs : List Instance)
    → ((r : Instance) → f r ≡ r)
    → xs ≡ update_rows q f xs
kept_rows q f [] h = refl
kept_rows q f (x ∷ xs) h = ground (arith, kept_rows q f xs h, h x)

pub same_rows :
    (q : Instance → Bool) (f g : Instance → Instance) (xs : List Instance)
    → ((r : Instance) → f r ≡ g r)
    → update_rows q f xs ≡ update_rows q g xs
same_rows q f g [] h = refl
same_rows q f g (x ∷ xs) h = ground (arith, same_rows q f g xs h, h x)
