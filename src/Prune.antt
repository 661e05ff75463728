-- ===== src/Prune.antt =====
-- server/src/lib/prune.ts: deletes in batches. A table is the list of its rows; a row has an id.
pub mod Rounds
pub mod Complete
mod Tests
use gsm.Common.{
  ℕ, zero, suc, ◌+◌, ◌-◌, ◌*◌, Bool, true, false, not, ◌||◌, Option, none, some, List, [], ◌∷◌, map,
  ◌==◌, nat_eq, ltb, leb, if◌then◌else◌, length, take, select, destroy, count, contains,
}

-- The instant before which rows expire; 0 days keep rows for ever.
cutoff : ℕ → ℕ → Option ℕ
cutoff days now = if ltb 0 days then some (now - days * 86400000) else none

module _ {ℓ} {A : Type ℓ} (id_of : A → ℕ) where
  insert_by_id : A → List A → List A
  insert_by_id x [] = x ∷ []
  insert_by_id x (y ∷ ys) = if leb (id_of x) (id_of y) then x ∷ y ∷ ys else y ∷ insert_by_id x ys

  -- `order: [["id", "ASC"]]`.
  sort_by_id : List A → List A
  unfolding insert_by_id
  sort_by_id [] = []
  sort_by_id (x ∷ xs) = insert_by_id x (sort_by_id xs)

  -- The query of one round.
  pub find_batch : (A → Bool) → ℕ → List A → List A
  unfolding sort_by_id
  find_batch wanted batch table = take batch (sort_by_id (select wanted table))

  -- `id: { [Op.in]: ids }`.
  abbrev pub in_ids : List A → A → Bool
  in_ids rows x = contains (id_of x) (map id_of rows)

  -- The loop, with what it deleted so far; `none` when the fuel ran out.
  pub destroy_loop : ℕ → (A → Bool) → ℕ → ℕ → List A → Option (ℕ × List A)
  unfolding find_batch
  destroy_loop zero wanted batch total table = none
  destroy_loop (suc fuel) wanted batch total table =
      let rows = find_batch wanted batch table in
      let deleted = count (in_ids rows) table in
      let left = destroy (in_ids rows) table in
      let rest = destroy_loop fuel wanted batch (total + deleted) left in
      if length rows == 0
      then some (total, table)
      else if ltb (length rows) batch || deleted == 0
      then some (total + deleted, left)
      else rest

  -- A round deletes a row at least, so one more than the rows that there are is enough fuel.
  pub destroy_in_batches : (A → Bool) → ℕ → List A → Option (ℕ × List A)
  unfolding destroy_loop
  destroy_in_batches wanted batch table = destroy_loop (suc (length table)) wanted batch 0 table

module _ {ℓ} {A : Type ℓ} (expired : A → Bool) where
  -- `DELETE … LIMIT n`: as many matching rows, and those that stay.
  delete_limit : ℕ → List A → ℕ × List A
  delete_limit n [] = (0, [])
  delete_limit zero (x ∷ xs) = (0, x ∷ xs)
  delete_limit (suc n) (x ∷ xs) =
      let (deleted, left) = delete_limit (if expired x then n else suc n) xs in
      if expired x then (suc deleted, left) else (deleted, x ∷ left)

  delete_loop : ℕ → ℕ → ℕ → List A → Option (ℕ × List A)
  unfolding delete_limit
  delete_loop zero batch total table = none
  delete_loop (suc fuel) batch total table =
      let (affected, left) = delete_limit batch table in
      let rest = delete_loop fuel batch (total + affected) left in
      if ltb affected batch then some (total + affected, left) else rest

  pub delete_before : ℕ → List A → Option (ℕ × List A)
  unfolding delete_loop
  delete_before batch table = delete_loop (suc (length table)) batch 0 table
