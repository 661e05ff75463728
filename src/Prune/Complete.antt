-- ===== src/Prune/Complete.antt =====
-- Where the loops of deletes end, and with what.
use gsm.Common.{
  ℕ, zero, suc, ◌+◌, ◌≤◌, ◌<◌, ◌≡◌, refl, ◌∙◌, inl, inr, Bool, some, List, [], ◌∷◌, ◌==◌, nat_eq,
  ltb, ltb→lt, length, destroy, count, Bool-cases, arith,
}
use gsm.Prune.{
  find_batch, in_ids, destroy_loop, destroy_in_batches, delete_limit, delete_loop, delete_before,
}
use gsm.Prune.Rounds.{
  destroy-destroy, count-destroy, destroy_same, destroy_none, UniqueIds, destroy-UniqueIds,
  in_batch, batch_whole, batch_none, batch_some,
}

module _ {ℓ} {A : Type ℓ} (id_of : A → ℕ) (w : A → Bool) (batch : ℕ) (many : 1 ≤ batch) where
  destroy_loop_lem :
      (fuel total : ℕ) (table : List A)
      → UniqueIds id_of table
      → count w table < fuel
      → destroy_loop id_of fuel w batch total table ≡ some (total + count w table, destroy w table)
  unfolding destroy_loop
  destroy_loop_lem zero total table u enough = absurd (omega arith)
  destroy_loop_lem (suc fuel) total table u enough =
      let rows = find_batch id_of w batch table in
      let left = destroy (in_ids id_of rows) table in
      let deleted = count (in_ids id_of rows) table in
      let counts = count-destroy (in_ids id_of rows) w table (in_batch id_of w batch table u) in
      elim (Bool-cases (length rows == 0)) [
        | inl empty ↦
            let (d, c) =
              destroy_none w table (batch_none id_of w batch table u many (ground arith)) in
            ground arith
        | inr more ↦
            let some_deleted : 1 ≤ deleted = batch_some id_of w batch table u (ground arith) in
            elim (Bool-cases (ltb (length rows) batch)) [
              | inl short ↦
                  let (d, c) =
                    destroy_same (in_ids id_of rows) w table
                      (batch_whole id_of w batch table u (ground arith)) in
                  ground arith
              | inr full ↦
                  let ih =
                    destroy_loop_lem fuel (total + deleted) left
                      (destroy-UniqueIds id_of (in_ids id_of rows) table u) (omega arith) in
                  let same =
                    destroy-destroy (in_ids id_of rows) w table (in_batch id_of w batch table u) in
                  ground arith
            ]
      ]

count-le-length {ℓ} : {A : Type ℓ} (w : A → Bool) (xs : List A) → count w xs ≤ length xs
count-le-length w [] = omega arith
count-le-length w (x ∷ xs) = ground (arith, count-le-length w xs)

-- With ids that are unique and a batch of one at least, the loop ends, every wanted row is deleted
-- and every other stays, and the number given is that of the wanted rows.
pub destroy_in_batches_lem {ℓ} :
    {A : Type ℓ} (id_of : A → ℕ) (wanted : A → Bool) (batch : ℕ) (table : List A)
    → 1 ≤ batch
    → UniqueIds id_of table
    → destroy_in_batches id_of wanted batch table ≡ some (count wanted table, destroy wanted table)
unfolding destroy_in_batches
destroy_in_batches_lem id_of wanted batch table many u =
    let enough : count wanted table < suc (length table) =
      omega (arith, count-le-length wanted table) in
    destroy_loop_lem id_of wanted batch many (suc (length table)) 0 table u enough ∙ ground arith

module _ {ℓ} {A : Type ℓ} (expired : A → Bool) where
  -- What one statement deletes, and what it leaves to delete.
  abbrev Limited : ℕ → List A → ℕ × List A → Type ℓ
  Limited n xs (deleted, left) =
      (count expired left + deleted ≡ count expired xs)
      × (destroy expired left ≡ destroy expired xs)
      × (deleted < n → left ≡ destroy expired xs)
      × (n ≤ count expired xs → deleted ≡ n)

  delete_limit-Limited : (n : ℕ) (xs : List A) → Limited n xs (delete_limit expired n xs)
  unfolding delete_limit
  delete_limit-Limited n [] = (omega arith, refl, λ h. refl, λ h. omega arith)
  delete_limit-Limited zero (x ∷ xs) = (omega arith, refl, λ h. absurd (omega arith), λ h. refl)
  delete_limit-Limited (suc n) (x ∷ xs) = elim (Bool-cases (expired x)) [
    | inl old ↦
        let (c, d, l, f) = delete_limit-Limited n xs in
        rw old (ground arith, ground arith, λ h. ground arith, λ h. ground arith)
    | inr young ↦
        let (c, d, l, f) = delete_limit-Limited (suc n) xs in
        rw young (ground arith, ground arith, λ h. ground arith, λ h. ground arith)
  ]

  count_destroyed : (xs : List A) → count expired (destroy expired xs) ≡ 0
  count_destroyed [] = refl
  count_destroyed (x ∷ xs) = ground (arith, count_destroyed xs)

  delete_loop_lem :
      (batch fuel total : ℕ) (table : List A)
      → 1 ≤ batch
      → count expired table < fuel
      → delete_loop expired fuel batch total table
        ≡ some (total + count expired table, destroy expired table)
  unfolding delete_loop
  delete_loop_lem batch zero total table many enough = absurd (omega arith)
  delete_loop_lem batch (suc fuel) total table many enough =
      let (c, d, l, f) = delete_limit-Limited batch table in
      let (affected, left) = delete_limit expired batch table in
      elim (Bool-cases (ltb affected batch)) [
        | inl last ↦
            let all = l (ltb→lt affected batch last) in ground (arith, all, count_destroyed table)
        | inr more ↦
            let ih = delete_loop_lem batch fuel (total + affected) left many (ground arith) in
            ground arith
      ]

-- The same for the statements with a limit, which need no ids.
pub delete_before_lem {ℓ} :
    {A : Type ℓ} (expired : A → Bool) (batch : ℕ) (table : List A)
    → 1 ≤ batch
    → delete_before expired batch table ≡ some (count expired table, destroy expired table)
unfolding delete_before
delete_before_lem expired batch table many =
    let enough : count expired table < suc (length table) =
      omega (arith, count-le-length expired table) in
    delete_loop_lem expired batch (suc (length table)) 0 table many enough ∙ ground arith
