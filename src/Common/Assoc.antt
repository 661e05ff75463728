-- ===== src/Common/Assoc.antt =====
-- A JavaScript `Map` or record as an association list in insertion order.
use mathlib.Core.Path.{◌≡◌, refl, subst}
use mathlib.Core.Bool.{Bool, false}
use mathlib.Core.List.{List, [], ◌∷◌}
use mathlib.Core.Option.{Option, none, some}
use mathlib.Core.Logic.{inl, inr}
use native.Mathlib.Omega.{arith}
use gsm.Common.Tests.{if◌then◌else◌, Eq, ◌==◌, is_some, Bool-cases}
use gsm.Common.Lists.{All, All-zip}

module _ {ℓ κ} {K : Type ℓ} {V : Type κ} ⦃e : Eq K⦄ where
  -- `get`.
  unfoldable pub lookup : K → List (K × V) → Option V
  lookup key [] = none
  lookup key ((k, value) ∷ rest) = if k == key then some value else lookup key rest

  -- `set`: a key that is there keeps its place.
  unfoldable pub insert : K → V → List (K × V) → List (K × V)
  insert key new [] = (key, new) ∷ []
  insert key new ((k, value) ∷ rest) =
      if k == key then (k, new) ∷ rest else (k, value) ∷ insert key new rest

  -- `delete`.
  unfoldable pub delete : K → List (K × V) → List (K × V)
  delete key [] = []
  delete key ((k, value) ∷ rest) =
      let kept = delete key rest in if k == key then kept else (k, value) ∷ kept

  abbrev pub has : K → List (K × V) → Bool
  has key m = is_some (lookup key m)

  pub lookup-insert :
      (key j : K) (new : V) (m : List (K × V))
      → lookup j (insert key new m) ≡ (if key == j then some new else lookup j m)
  unfolding insert lookup
  lookup-insert key j new [] = ground arith
  lookup-insert key j new ((k, value) ∷ rest) =
      let later = lookup-insert key j new rest in
      ground (arith, e.test_iff k key, e.test_iff k j, e.test_iff key j, later)

  pub lookup-delete :
      (key j : K) (m : List (K × V))
      → lookup j (delete key m) ≡ (if key == j then none else lookup j m)
  unfolding delete lookup
  lookup-delete key j [] = ground arith
  lookup-delete key j ((k, value) ∷ rest) =
      let later = lookup-delete key j rest in
      ground (arith, e.test_iff k key, e.test_iff k j, e.test_iff key j, later)

  abbrev pub NoKey : K → List (K × V) → Type 0
  NoKey k m = All (λ x. (x.0 == k) ≡ false) m

  -- No key is there twice.
  abbrev pub UniqueKeys : List (K × V) → Type 0
  UniqueKeys [] = Unit
  UniqueKeys ((k, v) ∷ m) = NoKey k m × UniqueKeys m

  insert-NoKey :
      (j k : K) (v : V) (m : List (K × V)) → (k == j) ≡ false → NoKey j m → NoKey j (insert k v m)
  unfolding insert
  insert-NoKey j k v [] h n = (h, tt)
  insert-NoKey j k v ((i, w) ∷ m) h (n, ns) = ground (arith, insert-NoKey j k v m h ns)

  pub insert-UniqueKeys :
      (k : K) (v : V) (m : List (K × V)) → UniqueKeys m → UniqueKeys (insert k v m)
  unfolding insert
  insert-UniqueKeys k v [] u = (tt, tt)
  insert-UniqueKeys k v ((i, w) ∷ m) (n, u) =
      ground
        (arith, e.test_iff i k, e.test_iff k i, insert-NoKey i k v m, insert-UniqueKeys k v m u)

  lookup_cons_other :
      (k : K) (v : V) (m : List (K × V)) (x : K × V)
      → (x.0 == k) ≡ false
      → lookup x.0 m ≡ some x.1
      → lookup x.0 ((k, v) ∷ m) ≡ some x.1
  unfolding lookup
  lookup_cons_other k v m (j, w) h g = ground (arith, e.test_iff j k, e.test_iff k j)

  pub lookup_of_NoKey : (key : K) (m : List (K × V)) → NoKey key m → lookup key m ≡ none
  unfolding lookup
  lookup_of_NoKey key [] n = refl
  lookup_of_NoKey key ((k, value) ∷ rest) (d, n) = ground (arith, lookup_of_NoKey key rest n)

  -- With unique keys every entry is the one that `lookup` finds.
  pub lookup_of_entry : (m : List (K × V)) → UniqueKeys m → All (λ x. lookup x.0 m ≡ some x.1) m
  unfolding lookup
  lookup_of_entry [] u = tt
  lookup_of_entry ((k, v) ∷ m) (n, u) = (
    ground (arith, e.test_iff k k),
    All-zip _ m (lookup_cons_other k v m) n (lookup_of_entry m u),
  )

  -- What holds of every entry holds of what `lookup` finds.
  pub All_lookup {μ} :
      (P : K × V → Type μ) (m : List (K × V)) (k : K) (v : V)
      → All P m
      → lookup k m ≡ some v
      → P (k, v)
  unfolding lookup
  All_lookup P [] k v h found = cc
  All_lookup P ((j, w) ∷ m) k v (p, h) found = elim (Bool-cases (j == k)) [
    | inl same ↦
        let same_v : w ≡ v = ground arith in
        subst (λ x. P (x, v)) ((e.test_iff j k).0 same) (subst (λ x. P (j, x)) same_v p)
    | inr other ↦ All_lookup P m k v h (ground arith)
  ]

  pub delete-NoKey : (j k : K) (m : List (K × V)) → NoKey j m → NoKey j (delete k m)
  unfolding delete
  delete-NoKey j k [] n = tt
  delete-NoKey j k ((i, w) ∷ m) (h, n) = ground (arith, delete-NoKey j k m n)

  pub delete-UniqueKeys : (k : K) (m : List (K × V)) → UniqueKeys m → UniqueKeys (delete k m)
  unfolding delete
  delete-UniqueKeys k [] u = tt
  delete-UniqueKeys k ((i, w) ∷ m) (n, u) =
      ground (arith, delete-NoKey i k m n, delete-UniqueKeys k m u)

  delete_of_NoKey : (k : K) (m : List (K × V)) → NoKey k m → delete k m ≡ m
  unfolding delete
  delete_of_NoKey k [] n = refl
  delete_of_NoKey k ((i, w) ∷ m) (h, n) = ground (arith, delete_of_NoKey k m n)

  -- Deleting the first key of a map leaves the others.
  pub delete_head :
      (k : K) (v : V) (m : List (K × V)) → UniqueKeys ((k, v) ∷ m) → delete k ((k, v) ∷ m) ≡ m
  unfolding delete
  delete_head k v m (n, u) = ground (arith, e.test_iff k k, delete_of_NoKey k m n)

  pub lookup_head : (k : K) (v : V) (m : List (K × V)) → lookup k ((k, v) ∷ m) ≡ some v
  unfolding lookup
  lookup_head k v m = ground (arith, e.test_iff k k)

  pub lookup-insert_self : (k : K) (v : V) (m : List (K × V)) → lookup k (insert k v m) ≡ some v
  lookup-insert_self k v m = ground (arith, e.test_iff k k, lookup-insert k k v m)

  pub not-has-nil : (k : K) (m : List (K × V)) → m ≡ [] → has k m ≡ false
  unfolding lookup
  not-has-nil k m empty = ground arith
