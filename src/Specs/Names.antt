-- ===== src/Specs/Names.antt =====
-- The names of the platform in an instance's environment.
use gsm.Common.{
  ◌≡◌, ◌∙◌, refl, inl, inr, true, Option, none, some, List, [], ◌∷◌, String, ◌==◌, string_eq,
  if◌then◌else◌, lookup, insert, lookup-insert, Bool-cases, arith,
}
use gsm.Text.{starts_with}
use gsm.Templates.{substitute}
use gsm.Specs.{
  Secret, EnvTemplate, EnvInstance, SpecPort, set_all, platform_facts, port_facts, database_facts,
  template_env, build_facts, build_env,
}

abbrev pub or_first : Option String → Option String → Option String
or_first none o = o
or_first (some v) o = some v

-- What a list of assignments gives a name: the last one counts.
abbrev pub last_of : String → List (String × String) → Option String
last_of k [] = none
last_of k ((j, v) ∷ rest) = or_first (last_of k rest) (if j == k then some v else none)

lookup-set_all :
    (k : String) (kvs env : List (String × String))
    → lookup k (set_all kvs env) ≡ or_first (last_of k kvs) (lookup k env)
unfolding set_all
lookup-set_all k [] env = refl
lookup-set_all k ((j, v) ∷ rest) env =
    ground (arith, lookup-set_all k rest (insert j v env), lookup-insert j k v env)

template_env-keeps :
    (k : String) (facts kvs env : List (String × String))
    → starts_with "GSM_" k ≡ true
    → lookup k (template_env facts kvs env) ≡ lookup k env
unfolding template_env
template_env-keeps k facts [] env h = refl
template_env-keeps k facts ((j, v) ∷ rest) env h = elim (Bool-cases (starts_with "GSM_" j)) [
  | inl platform ↦ rw (platform, template_env) (template_env-keeps k facts rest env h)
  | inr own ↦
      rw (own, template_env)
        (template_env-keeps k facts rest (insert j (substitute v facts) env) h
          ∙ ground (arith, lookup-insert j k (substitute v facts) env, string_eq.test_iff j k))
]

-- Under a name that starts with GSM_ the container gets the database's fact, else the port's, else
-- the platform's, and only without any of them the instance's own variable; whatever the template's
-- `env` says of that name has no effect.
pub build_env_names :
    {N : Type 0} (secret : Secret) (i : EnvInstance) (ports : List SpecPort) (def : EnvTemplate N)
    (k : String)
    → starts_with "GSM_" k ≡ true
    → lookup k (build_env secret i ports def)
      ≡ or_first (last_of k (database_facts secret i def)) (
          or_first
            (last_of k (port_facts ports))
            (or_first (last_of k (platform_facts secret i)) (last_of k i.variables)))
unfolding build_env build_facts lookup
build_env_names secret i ports def k h =
    let own = set_all i.variables [] in
    let first = set_all (platform_facts secret i) own in
    let second = set_all (port_facts ports) first in
    let facts = set_all (database_facts secret i def) second in
    template_env-keeps k facts def.env facts h
    ∙ ground (
      arith,
      lookup-set_all k (database_facts secret i def) second,
      lookup-set_all k (port_facts ports) first,
      lookup-set_all k (platform_facts secret i) own,
      lookup-set_all k i.variables [],
    )
