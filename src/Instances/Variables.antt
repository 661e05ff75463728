-- ===== src/Instances/Variables.antt =====
-- server/src/modules/instances/service.ts: the variables and the image of an instance.
pub mod Checked
mod Tests
use gsm.Common.{
  ℕ, Bool, true, false, not, ◌&&◌, ◌||◌, Option, none, some, is_some, List, [], ◌∷◌, ◌++◌, map,
  String, ◌==◌, string_eq, or_else, if◌then◌else◌, find?, any, contains, lookup, insert, has,
  Result, ok, err, HttpError, bad_request, forbidden, ◌>>=◌, ◌>>◌, throw_if,
}
use gsm.Enums.{InstanceRole, role_eq, owner}
use gsm.Templates.{Script, TemplateVariable, validate_variable}

module _ (js : Script) where
  open js use {N}

  -- The value so far: that of the instance, or the template's default when there are no current
  -- variables or the name is not among them.
  pub value_before : TemplateVariable N → Option (List (String × String)) → String
  value_before v none = v.default
  value_before v (some current) = or_else (lookup v.name current) v.default

  -- The value of one variable, or the refusal to change it.
  pub value_for :
      TemplateVariable N
      → Option (List (String × String))
      → List (String × String)
      → InstanceRole
      → Result String
  unfolding value_before
  value_for v current input role = elim (lookup v.name input) [
    | none ↦ ok (value_before v current)
    | some given ↦
        if given == value_before v current
        then ok (value_before v current)
        else if not v.editable && not (role == owner)
        then err (forbidden "${v.label} can only be changed by an owner")
        else ok given
  ]

  -- The loop: `out` so far, and whether a value had a problem.
  pub merge_loop :
      List (TemplateVariable N)
      → Option (List (String × String))
      → List (String × String)
      → InstanceRole
      → List (String × String)
      → Bool
      → Result (List (String × String) × Bool)
  unfolding value_for
  merge_loop [] current input role out bad = ok (out, bad)
  merge_loop (v ∷ vs) current input role out bad = value_for v current input role >>= λ value.
      merge_loop vs current input role (insert v.name value out)
        (bad || is_some (validate_variable js v value))

  pub is_known : List (TemplateVariable N) → String → Bool
  is_known variables name = any (λ v. v.name == name) variables

  -- The names of `input` are checked in its order.
  pub check_names : List (TemplateVariable N) → List (String × String) → Result (Unit {0})
  unfolding is_known
  check_names variables [] = ok tt
  check_names variables ((name, value) ∷ rest) =
      let later = check_names variables rest in
      if not (is_known variables name) then err (bad_request "Unknown variable ${name}") else later

  unfoldable pub merge_variables :
      List (TemplateVariable N)
      → Option (List (String × String))
      → List (String × String)
      → InstanceRole
      → Result (List (String × String))
  unfolding check_names merge_loop
  merge_variables variables current input role =
      check_names variables input
      >> (merge_loop variables current input role [] false >>= λ merged.
          throw_if merged.1 (bad_request "Some variables are invalid") >> ok merged.0)

-- `undefined` and `null` are both `none`; `offered` are the template's images, its own first.
unfoldable pub pick_image : String → List String → Option String → Option String → Result String
pick_image own offered image current = elim image [
  | none ↦ ok (or_else current own)
  | some ref ↦
      if not (contains ref (own ∷ offered))
      then err (bad_request "That image is not one the template offers")
      else ok ref
]
