-- ===== src/Instances/Variables/Checked.antt =====
-- What a merge of variables that went through has checked.
use gsm.Common.{
  ◌≡◌, ◌⊎◌, ◌∙◌, sym, inl, inr, Bool, true, false, ◌||◌, Option, none, some, is_some, List, [], ◌∷◌,
  String, ◌==◌, string_eq, lookup, insert, lookup-insert, lookup-insert_self, All, Pairwise, ok,
  bind-eq-ok, ok-injective, throw_if, throw_if-ok, bad_request, Bool-cases, Option-cases, arith, ap,
}
use gsm.Enums.{InstanceRole, role_eq, owner}
use gsm.Templates.{Script, TemplateVariable, validate_variable}
use gsm.Instances.Variables.{
  value_before, value_for, merge_loop, is_known, check_names, merge_variables,
}

module _ (js : Script) where
  open js use {N}

  abbrev pub UniqueNames : List (TemplateVariable N) → Type 0
  UniqueNames = Pairwise (λ v w. (v.name == w.name) ≡ false)

  -- A value as the variable had it, or as it was given by someone who may change it.
  abbrev pub IsAllowed :
      TemplateVariable N
      → Option (List (String × String))
      → List (String × String)
      → InstanceRole
      → String
      → Type 0
  IsAllowed v current input role value =
      (value ≡ value_before js v current)
      ⊎ ((lookup v.name input ≡ some value) × ((v.editable || role == owner) ≡ true))

  -- What the merged variables have under a template variable.
  abbrev pub IsMerged :
      Option (List (String × String))
      → List (String × String)
      → InstanceRole
      → List (String × String)
      → TemplateVariable N
      → Type 0
  IsMerged current input role out v =
      (value : String) × (lookup v.name out ≡ some value)
      × IsAllowed v current input role value
      × (validate_variable js v value ≡ none)

  module _ (current : Option (List (String × String))) (input : List (String × String))
      (role : InstanceRole) where
    value_for-IsAllowed :
        (v : TemplateVariable N) (value : String)
        → value_for js v current input role ≡ ok value
        → IsAllowed v current input role value
    unfolding value_for
    value_for-IsAllowed v value h = elim (Option-cases (lookup v.name input)) [
      | inl absent ↦ inl (ground arith)
      | inr (given, there) ↦ elim (Bool-cases (given == value_before js v current)) [
        | inl unchanged ↦ inl (ground arith)
        | inr changed ↦ inr (ground arith, ground arith)
      ]
    ]

    -- Names that come later leave an entry alone, and a problem is not forgotten.
    merge_loop-keeps :
        (name : String) (vs : List (TemplateVariable N)) (out : List (String × String)) (bad : Bool)
        (merged : List (String × String) × Bool)
        → All (λ w. (name == w.name) ≡ false) vs
        → merge_loop js vs current input role out bad ≡ ok merged
        → lookup name merged.0 ≡ lookup name out
    unfolding merge_loop
    merge_loop-keeps name [] out bad merged d h =
        ap (λ (m : List (String × String) × Bool). lookup name m.0) (sym (ok-injective h))
    merge_loop-keeps name (v ∷ vs) out bad merged (n, d) h =
        let (value, hv, rest) = bind-eq-ok (value_for js v current input role) _ h in
        merge_loop-keeps name vs (insert v.name value out)
          (bad || is_some (validate_variable js v value)) merged d rest
        ∙ ground (
          arith,
          lookup-insert v.name name value out,
          string_eq.test_iff v.name name,
          string_eq.test_iff name v.name,
        )

    merge_loop-good :
        (vs : List (TemplateVariable N)) (out : List (String × String)) (bad : Bool)
        (merged : List (String × String) × Bool)
        → merge_loop js vs current input role out bad ≡ ok merged
        → merged.1 ≡ false
        → bad ≡ false
    unfolding merge_loop
    merge_loop-good [] out bad merged h good =
        ap (λ (m : List (String × String) × Bool). m.1) (ok-injective h) ∙ good
    merge_loop-good (v ∷ vs) out bad merged h good =
        let (value, hv, rest) = bind-eq-ok (value_for js v current input role) _ h in
        let both =
          merge_loop-good vs (insert v.name value out)
            (bad || is_some (validate_variable js v value)) merged rest good in
        ground arith

    merge_loop-IsMerged :
        (vs : List (TemplateVariable N)) (out : List (String × String)) (bad : Bool)
        (merged : List (String × String) × Bool)
        → UniqueNames vs
        → merge_loop js vs current input role out bad ≡ ok merged
        → merged.1 ≡ false
        → All (IsMerged current input role merged.0) vs
    unfolding merge_loop
    merge_loop-IsMerged [] out bad merged u h good = tt
    merge_loop-IsMerged (v ∷ vs) out bad merged (n, u) h good =
        let (value, hv, rest) = bind-eq-ok (value_for js v current input role) _ h in
        let out' = insert v.name value out in
        let both =
          merge_loop-good vs out' (bad || is_some (validate_variable js v value)) merged rest
            good in
        (
          (
            value,
            merge_loop-keeps v.name vs out' (bad || is_some (validate_variable js v value)) merged n
                  rest
                ∙ lookup-insert_self v.name value out,
            value_for-IsAllowed v value hv,
            no_problem v value bad both,
          ),
          merge_loop-IsMerged vs out' (bad || is_some (validate_variable js v value)) merged u rest
              good,
        )
      where
        no_problem :
            (v : TemplateVariable N) (value : String) (bad : Bool)
            → (bad || is_some (validate_variable js v value)) ≡ false
            → validate_variable js v value ≡ none
        no_problem v value bad h = elim (Option-cases (validate_variable js v value)) [
          | inl fine ↦ fine
          | inr (problem, e) ↦ absurd (ground arith)
        ]

  check_names-known :
      (variables : List (TemplateVariable N)) (input : List (String × String)) (done : Unit {0})
      → check_names js variables input ≡ ok done
      → All (λ x. is_known js variables x.0 ≡ true) input
  unfolding check_names
  check_names-known variables [] done h = tt
  check_names-known variables ((name, value) ∷ rest) done h =
      elim (Bool-cases (is_known js variables name)) [
        | inl known ↦ (known, check_names-known variables rest done (rw known at h))
        | inr other ↦ absurd (ground arith)
      ]

  -- When the merge goes through, every name given is one of the template's, and each of the
  -- template's variables, of different names, has a value that passes its declaration: the one it
  -- had, or the one given if the variable is editable or the caller an owner.
  pub merge_variables-IsMerged :
      (variables : List (TemplateVariable N)) (current : Option (List (String × String)))
      (input : List (String × String)) (role : InstanceRole) (out : List (String × String))
      → UniqueNames variables
      → merge_variables js variables current input role ≡ ok out
      → All (λ x. is_known js variables x.0 ≡ true) input
        × All (IsMerged current input role out) variables
  unfolding merge_variables
  merge_variables-IsMerged variables current input role out u h =
      let (done, names, then_loop) = bind-eq-ok (check_names js variables input) _ h in
      let (merged, looped, then_check) =
        bind-eq-ok (merge_loop js variables current input role [] false) _ then_loop in
      let (fine, passed, result) =
        bind-eq-ok (throw_if merged.1 (bad_request "Some variables are invalid")) _ then_check in
      let good = throw_if-ok merged.1 _ fine passed in
      let same : merged.0 ≡ out = ok-injective result in
      (
        check_names-known variables input done names,
        rw (← same)
            (merge_loop-IsMerged current input role variables [] false merged u looped good),
      )
