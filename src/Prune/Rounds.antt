-- ===== src/Prune/Rounds.antt =====
-- What one round of `destroyInBatches` deletes.
use gsm.Common.{
  ℕ, zero, suc, ◌+◌, ◌≤◌, ◌<◌, ◌≡◌, ◌≢◌, refl, sym, ap, ◌∙◌, inl, inr, Bool, true, false, ◌||◌,
  List, [], ◌∷◌, map, ◌==◌, nat_eq, nat_beq_iff, length, take, select, destroy, count, contains,
  All, Pairwise, All-map, Bool-cases, arith, All-zip,
}
use gsm.Prune.{insert_by_id, sort_by_id, find_batch, in_ids}

module _ {ℓ} {A : Type ℓ} where
  -- Two conditions of which the first is the stronger, on the rows of a table.
  pub destroy-destroy :
      (p q : A → Bool) (xs : List A)
      → All (λ x. p x ≡ true → q x ≡ true) xs
      → destroy q (destroy p xs) ≡ destroy q xs
  destroy-destroy p q [] h = refl
  destroy-destroy p q (x ∷ xs) (i, h) = ground (arith, destroy-destroy p q xs h, i)

  pub count-destroy :
      (p q : A → Bool) (xs : List A)
      → All (λ x. p x ≡ true → q x ≡ true) xs
      → count q (destroy p xs) + count p xs ≡ count q xs
  count-destroy p q [] h = omega arith
  count-destroy p q (x ∷ xs) (i, h) = ground (arith, count-destroy p q xs h, i)

  pub destroy_same :
      (p q : A → Bool) (xs : List A)
      → All (λ x. p x ≡ q x) xs
      → (destroy p xs ≡ destroy q xs) × (count p xs ≡ count q xs)
  destroy_same p q [] h = (refl, refl)
  destroy_same p q (x ∷ xs) (i, h) =
      let (d, c) = destroy_same p q xs h in (ground arith, ground arith)

  pub destroy_none :
      (q : A → Bool) (xs : List A)
      → length (select q xs) ≡ 0
      → (destroy q xs ≡ xs) × (count q xs ≡ 0)
  destroy_none q [] h = (refl, refl)
  destroy_none q (x ∷ xs) h = elim (Bool-cases (q x)) [
    | inl yes_x ↦ absurd (ground arith)
    | inr no_x ↦ let (d, c) = destroy_none q xs (ground arith) in (ground arith, ground arith)
  ]

  pub count-length-select : (q : A → Bool) (xs : List A) → count q xs ≡ length (select q xs)
  count-length-select q [] = refl
  count-length-select q (x ∷ xs) = ground (arith, count-length-select q xs)

module _ {ℓ} {A : Type ℓ} (id_of : A → ℕ) where
  abbrev pub UniqueIds : List A → Type 0
  UniqueIds = Pairwise (λ x y. (id_of x == id_of y) ≡ false)

  pub destroy-UniqueIds : (p : A → Bool) (xs : List A) → UniqueIds xs → UniqueIds (destroy p xs)
  destroy-UniqueIds p [] u = tt
  destroy-UniqueIds p (x ∷ xs) (n, u) = elim (Bool-cases (p x)) [
    | inl gone ↦ rw gone (destroy-UniqueIds p xs u)
    | inr stays ↦ rw stays (kept x xs n, destroy-UniqueIds p xs u)
  ]
    where
      kept :
          (x : A) (xs : List A)
          → All (λ y. (id_of x == id_of y) ≡ false) xs
          → All (λ y. (id_of x == id_of y) ≡ false) (destroy p xs)
      kept x [] n = tt
      kept x (y ∷ ys) (d, n) = ground (arith, kept x ys n)

  in_insert_by_id :
      (k : ℕ) (x : A) (xs : List A)
      → contains k (map id_of (insert_by_id id_of x xs))
        ≡ (id_of x == k || contains k (map id_of xs))
  unfolding insert_by_id
  in_insert_by_id k x [] = refl
  in_insert_by_id k x (y ∷ ys) = ground (arith, in_insert_by_id k x ys)

  in_sort_by_id :
      (k : ℕ) (xs : List A)
      → contains k (map id_of (sort_by_id id_of xs)) ≡ contains k (map id_of xs)
  unfolding sort_by_id
  in_sort_by_id k [] = refl
  in_sort_by_id k (x ∷ xs) =
      ground (arith, in_insert_by_id k x (sort_by_id id_of xs), in_sort_by_id k xs)

  length-insert_by_id : (x : A) (xs : List A) → length (insert_by_id id_of x xs) ≡ suc (length xs)
  unfolding insert_by_id
  length-insert_by_id x [] = refl
  length-insert_by_id x (y ∷ ys) = ground (arith, length-insert_by_id x ys)

  length-sort_by_id : (xs : List A) → length (sort_by_id id_of xs) ≡ length xs
  unfolding sort_by_id
  length-sort_by_id [] = refl
  length-sort_by_id (x ∷ xs) =
      ground (arith, length-insert_by_id x (sort_by_id id_of xs), length-sort_by_id xs)

  in_take :
      (k n : ℕ) (xs : List A)
      → contains k (map id_of (take n xs)) ≡ true
      → contains k (map id_of xs) ≡ true
  in_take k zero xs h = cc
  in_take k (suc n) [] h = cc
  in_take k (suc n) (x ∷ xs) h = ground (arith, in_take k n xs)

  take_all : (n : ℕ) (xs : List A) → length (take n xs) < n → take n xs ≡ xs
  take_all zero xs h = absurd (omega arith)
  take_all (suc n) [] h = refl
  take_all (suc n) (x ∷ xs) h = ground (arith, take_all n xs)

  -- By id, the wanted rows of a table are just those that meet the condition.
  in_select_other :
      (w : A → Bool) (y : A) (xs : List A)
      → All (λ x. (id_of y == id_of x) ≡ false) xs
      → contains (id_of y) (map id_of (select w xs)) ≡ false
  in_select_other w y [] n = refl
  in_select_other w y (x ∷ xs) (d, n) = ground (arith, in_select_other w y xs n)

  in_select :
      (w : A → Bool) (xs : List A)
      → UniqueIds xs
      → All (λ x. contains (id_of x) (map id_of (select w xs)) ≡ w x) xs
  in_select w [] u = tt
  in_select w (y ∷ ys) (n, u) = (
    ground (arith, in_select_other w y ys n, nat_beq_iff (id_of y) (id_of y)),
    All-zip _ ys (λ x d same. ground arith) n (in_select w ys u),
  )

  member_counts :
      (w : A → Bool) (k : ℕ) (ids : List ℕ) (xs : List A)
      → contains k (map id_of (select w xs)) ≡ true
      → contains k ids ≡ true
      → 1 ≤ count (λ x. contains (id_of x) ids) xs
  member_counts w k ids [] h i = cc
  member_counts w k ids (x ∷ xs) h i =
      ground (arith, member_counts w k ids xs, nat_beq_iff (id_of x) k)

  some_member : (rows : List A) → length rows ≢ 0 → (k : ℕ) × (contains k (map id_of rows) ≡ true)
  some_member [] h = absurd (h refl)
  some_member (r ∷ rows) h = (id_of r, ground (arith, nat_beq_iff (id_of r) (id_of r)))

  -- One round.
  module _ (w : A → Bool) (batch : ℕ) (table : List A) (unique : UniqueIds table) where
    pub in_batch :
        All (λ x. in_ids id_of (find_batch id_of w batch table) x ≡ true → w x ≡ true) table
    unfolding find_batch
    in_batch =
        All-map table
          (λ x same h. ground (
            arith,
            same,
            in_take (id_of x) batch (sort_by_id id_of (select w table)) h,
            in_sort_by_id (id_of x) (select w table),
          ))
          (in_select w table unique)

    pub batch_whole :
        length (find_batch id_of w batch table) < batch
        → All (λ x. in_ids id_of (find_batch id_of w batch table) x ≡ w x) table
    unfolding find_batch
    batch_whole short = rw (take_all batch (sort_by_id id_of (select w table)) short) (
        All-map table (λ x same. in_sort_by_id (id_of x) (select w table) ∙ same)
          (in_select w table unique))

    pub batch_none :
        1 ≤ batch → length (find_batch id_of w batch table) ≡ 0 → length (select w table) ≡ 0
    unfolding find_batch
    batch_none many h =
        let all : take batch (sort_by_id id_of (select w table))
            ≡ sort_by_id id_of (select w table) =
          take_all batch (sort_by_id id_of (select w table)) (omega arith) in
        omega (arith, length-sort_by_id (select w table), ap length all)

    pub batch_some :
        length (find_batch id_of w batch table) ≢ 0
        → 1 ≤ count (in_ids id_of (find_batch id_of w batch table)) table
    unfolding find_batch
    batch_some h =
        let (k, member) = some_member (find_batch id_of w batch table) h in
        let listed : contains k (map id_of (sort_by_id id_of (select w table))) ≡ true =
          in_take k batch (sort_by_id id_of (select w table)) member in
        member_counts w k (map id_of (find_batch id_of w batch table)) table
          (sym (in_sort_by_id k (select w table)) ∙ listed) member
