-- ===== src/Instances/Service/Removal.antt =====
-- What a removal that went well leaves of the instance.
use gsm.Common.{
  ℕ, ◌≡◌, ◌≢◌, refl, sym, subst, inl, inr, none, ◌==◌, nat_eq, find?, destroy, count, List, [], ◌∷◌,
  find?-none_of_destroy, find?_sound, Result, ok, err, HttpError, conflict, not_found, Bool-cases,
  Option-cases, Result-cases, arith,
}
use gsm.Instances.{Instance, Panel, Outcome, and_then, tell, find_row, is_connected}
use gsm.Effects.{Effect, agent_request}
use gsm.Instances.Service.{remove, remove_begin, remove_end, remove_answer, dropped}

shares_gone :
    (id : ℕ) (xs : List (ℕ × ℕ)) → count (λ s. s.0 == id) (destroy (λ s. s.0 == id) xs) ≡ 0
shares_gone id [] = refl
shares_gone id (s ∷ xs) = ground (arith, shares_gone id xs)

others_stay :
    (id other : ℕ) (xs : List Instance)
    → other ≢ id
    → find? (λ i. i.id == other) (destroy (λ i. i.id == id) xs) ≡ find? (λ i. i.id == other) xs
others_stay id other [] apart = refl
others_stay id other (i ∷ xs) apart = ground (arith, others_stay id other xs apart)

abbrev offline_error : HttpError
offline_error =
    conflict "${node.name} is offline; the instance can only be deleted while its node is connected"

-- What a removal of `id` promises of the tables that it leaves, in each case.
abbrev pub IsWhole : ℕ → ℕ → Panel → Outcome (Unit {0}) → Type 0
IsWhole id other p (q, ok done) =
    (find_row id q ≡ none)
    × (count (λ s. s.0 == id) q.shares ≡ 0)
    × (find_row other q ≡ find_row other p)
IsWhole id other p (q, err problem) = (q.instances ≡ p.instances) × (q.shares ≡ p.shares)

end-IsWhole :
    (id other : ℕ) (i : Instance) (answer : Result (Unit {0})) (p : Panel)
    → other ≢ id
    → i.id ≡ id
    → (told : List Effect) → IsWhole id other p (remove_end i answer (tell told p))
unfolding remove_end dropped
end-IsWhole id other i answer p apart same told = elim (Result-cases (remove_answer answer)) [
  | inl (problem, refused) ↦ rw (refused, remove_end) (refl, refl)
  | inr (done, went) ↦
      rw (went, remove_end)
        (subst
          (λ k.
            (find? (λ r. r.id == id) (destroy (λ r. r.id == k) p.instances) ≡ none)
            × (count (λ s. s.0 == id) (destroy (λ s. s.0 == k) p.shares) ≡ 0)
            × (find? (λ r. r.id == other) (destroy (λ r. r.id == k) p.instances)
                ≡ find? (λ r. r.id == other) p.instances))
          (sym same)
          (
            find?-none_of_destroy _ _ p.instances (λ r h. h),
            shares_gone id p.shares,
            others_stay id other p.instances apart,
          ))
]

-- After a removal that went well nothing is found under the id, no share refers to it, and every
-- other instance is found as before; a removal that fails leaves all instances and shares.
pub remove-IsWhole :
    (id other : ℕ) (answer : Result (Unit {0})) (p : Panel)
    → other ≢ id
    → IsWhole id other p (remove id answer p)
unfolding remove remove_begin
remove-IsWhole id other answer p apart = elim (Option-cases (find_row id p)) [
  | inl gone ↦ of_begin (p, err (not_found "Instance")) (rw (gone, remove_begin) refl) (refl, refl)
  | inr (i, found) ↦ elim (Bool-cases (is_connected i.node_id p)) [
    | inr offline ↦
        of_begin (p, err offline_error) (rw (found, remove_begin) (rw offline refl)) (refl, refl)
    | inl online ↦
        of_begin (tell (agent_request i.node_id "inst.remove" ∷ []) p, ok i)
          (rw (found, remove_begin) (rw online refl))
          (end-IsWhole id other i answer p apart
            (ground (arith, find?_sound (λ r. r.id == id) p.instances found)) _)
  ]
]
  where
    of_begin :
        (o : Outcome Instance)
        → remove_begin id p ≡ o
        → IsWhole id other p (and_then o (λ i. remove_end i answer))
        → IsWhole id other p (remove id answer p)
    of_begin o begun h =
        subst (λ x. IsWhole id other p (and_then x (λ i. remove_end i answer))) (sym begun) h
