-- ===== src/Specs/Tests.antt =====
-- An instance whose variables and template try to take the platform's names.
use gsm.Common.{
  string_eq, ℕ, ◌≡◌, refl, true, none, some, List, [], ◌∷◌, ok, err, bad_request, lookup, insert,
}
use gsm.Text.{starts_with, decimal, upper_case, drop_trailing, ◌+++◌}
use gsm.Templates.{database_enabled, heap_for_memory, substitute}
use gsm.Specs.{
  Secret, EnvTemplate, EnvInstance, SpecPort, both, platform_facts, port_facts, database_facts,
  build_env,
}
use gsm.Specs.Names.{or_first, last_of, build_env_names}
use gsm.Specs.Mounts.{check_mounts}

abbrev secret : Secret
secret = λ uuid purpose n. purpose +++ ":" +++ uuid

abbrev server : EnvInstance
server = record {
  uuid = "u1";
  name = "Survival";
  variables = ("GSM_BIND", "1.2.3.4") ∷ ("WORLD", "flat") ∷ [];
  memory_mb = 2048;
}

abbrev template : EnvTemplate ℕ
template = record {
  env = ("GSM_BIND", "::") ∷ ("URL", "{{GSM_DB_HOST}}/{{WORLD}}") ∷ [];
  database = some (record {
    engine = "mariadb";
    image = "m";
    name = "gsm";
    memory_mb = 512;
    enabled_by = none;
  });
  variables = [];
}

abbrev ports : List SpecPort
ports = record { name = "game"; protocol = both; port = 25565 } ∷ []

env_run :
    (lookup "GSM_BIND" (build_env secret server ports template) ≡ some "0.0.0.0")
    × (lookup "URL" (build_env secret server ports template) ≡ some "db/flat")
    × (lookup "GSM_PORT_GAME" (build_env secret server ports template) ≡ some "25565")
    × (lookup "GSM_HEAP_MB" (build_env secret server ports template) ≡ some "1664")
unfolding build_env starts_with decimal upper_case database_enabled heap_for_memory substitute
    lookup insert
env_run = (refl, refl, refl, refl)

mounts_run :
    (check_mounts
        ("/srv/maps/" ∷ [])
        (record { host_path = "/srv/maps/a"; container_path = "/m"; read_only = true } ∷ [])
        []
      ≡ ok (record { host_path = "/srv/maps/a"; container_path = "/m"; read_only = true } ∷ []))
    × (check_mounts
          ("/srv/maps" ∷ [])
          (record { host_path = "/srv/mapsx"; container_path = "/m"; read_only = true } ∷ [])
          []
        ≡ err (bad_request "Some mounts are not allowed"))
unfolding check_mounts starts_with drop_trailing
mounts_run = (refl, refl)

bind : starts_with "GSM_" "GSM_BIND" ≡ true
unfolding starts_with
bind = refl

build_env_names_example :
    lookup "GSM_BIND" (build_env secret server ports template)
    ≡ or_first (last_of "GSM_BIND" (database_facts secret server template)) (
        or_first (last_of "GSM_BIND" (port_facts ports)) (
          or_first
            (last_of "GSM_BIND" (platform_facts secret server))
            (last_of "GSM_BIND" server.variables)))
build_env_names_example = build_env_names secret server ports template "GSM_BIND" bind
