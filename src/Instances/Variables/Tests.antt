-- ===== src/Instances/Variables/Tests.antt =====
-- Two variables, of which one is for owners only.
use gsm.Common.{
  ℕ, ◌≡◌, refl, true, false, none, some, List, [], ◌∷◌, String, ◌==◌, string_eq, if◌then◌else◌, ltb,
  lookup, insert, All, ok, err, bad_request, forbidden,
}
use gsm.Enums.{owner, operator}
use gsm.Templates.{Script, TemplateVariable, number, select, validate_variable}
use gsm.Instances.Variables.{is_known, merge_variables, pick_image}
use gsm.Instances.Variables.Checked.{IsMerged, merge_variables-IsMerged}

abbrev script : Script
script = record {
  N = ℕ;
  number_of = λ s. if s == "5" then some 5 else if s == "50" then some 50 else none;
  less = ltb;
  matches = λ pattern s. some true;
}

abbrev players : TemplateVariable ℕ
players = record {
  name = "PLAYERS";
  label = "Players";
  kind = number;
  default = "5";
  required = true;
  options = [];
  allow_custom = false;
  min_value = some 1;
  max_value = some 20;
  editable = true;
  viewable = true;
  pattern = none;
}

abbrev world : TemplateVariable ℕ
world = record players {
  name = "WORLD";
  kind = select;
  default = "flat";
  options = "flat" ∷ "hills" ∷ [];
  editable = false;
}

abbrev variables : List (TemplateVariable ℕ)
variables = players ∷ world ∷ []

merged_run :
    (merge_variables script variables none (("PLAYERS", "50") ∷ []) owner
      ≡ err (bad_request "Some variables are invalid"))
    × (merge_variables script variables none (("WORLD", "hills") ∷ []) operator
        ≡ err (forbidden "${v.label} can only be changed by an owner"))
    × (merge_variables script variables none (("MOTD", "hi") ∷ []) owner
        ≡ err (bad_request "Unknown variable ${name}"))
    × (pick_image "a" ("b" ∷ []) (some "c") none
        ≡ err (bad_request "That image is not one the template offers"))
    × (pick_image "a" ("b" ∷ []) none (some "b") ≡ ok "b")
unfolding merge_variables validate_variable pick_image lookup insert
merged_run = (refl, refl, refl, refl, refl)

went :
    merge_variables script variables none (("WORLD", "hills") ∷ []) owner
    ≡ ok (("PLAYERS", "5") ∷ ("WORLD", "hills") ∷ [])
unfolding merge_variables validate_variable lookup insert
went = refl

merge_variables-IsMerged_example :
    All {A = String × String} (λ x. is_known script variables x.0 ≡ true) (("WORLD", "hills") ∷ [])
    × All
        (IsMerged script none
          (("WORLD", "hills") ∷ [])
          owner
          (("PLAYERS", "5") ∷ ("WORLD", "hills") ∷ []))
        variables
merge_variables-IsMerged_example =
    merge_variables-IsMerged script variables none (("WORLD", "hills") ∷ []) owner
      (("PLAYERS", "5") ∷ ("WORLD", "hills") ∷ []) ((refl, tt), (tt, tt)) went
