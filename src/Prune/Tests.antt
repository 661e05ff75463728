-- ===== src/Prune/Tests.antt =====
-- Rows that are their ids.
use gsm.Common.{ℕ, ◌≡◌, refl, some, List, [], ◌∷◌, count, destroy, ltb, arith}
use gsm.Prune.Rounds.{UniqueIds}
use gsm.Prune.Complete.{destroy_in_batches_lem}
use gsm.Prune.{destroy_in_batches, delete_before}

abbrev table : List ℕ
table = 7 ∷ 3 ∷ 12 ∷ 1 ∷ 20 ∷ []

batches_run : destroy_in_batches (λ i. i) (λ i. ltb i 10) 2 table ≡ some (3, 12 ∷ 20 ∷ [])
unfolding destroy_in_batches
batches_run = refl

before_run : delete_before (λ (i : ℕ). ltb i 10) 2 table ≡ some (3, 12 ∷ 20 ∷ [])
unfolding delete_before
before_run = refl

unique : UniqueIds (λ (i : ℕ). i) table
unique = ground arith

destroy_in_batches_lem_example :
    destroy_in_batches (λ i. i) (λ i. ltb i 10) 2 table
    ≡ some (count (λ i. ltb i 10) table, destroy (λ i. ltb i 10) table)
destroy_in_batches_lem_example =
    destroy_in_batches_lem (λ i. i) (λ i. ltb i 10) 2 table (omega arith) unique
