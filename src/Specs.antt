-- ===== src/Specs.antt =====
-- server/src/modules/instances/spec.ts: what the agent needs for an instance.
pub mod Names
pub mod Mounts
mod Tests
use Prim.Native.Char.{code}
use gsm.Common.{
  ℕ, zero, suc, ◌+◌, Bool, true, false, not, ◌&&◌, ◌||◌, Option, none, some, is_some, List, [], ◌∷◌,
  ◌++◌, map, String, ◌==◌, nat_eq, string_eq, or_else, if◌then◌else◌, lookup, insert, any, select,
}
use gsm.Text.{upper_case, starts_with, decimal, before_char, has_char, drop_trailing, ◌+++◌}
use gsm.Ports.{Protocol, tcp, udp, both}
use gsm.Templates.{
  TemplateVariable, TemplateDatabase, database_enabled, heap_for_memory, substitute,
}

abbrev pub container_options_agent : String
container_options_agent = "0.6.0"

-- What the modules read of a template, an instance and its ports.
pub record EnvTemplate (N : Type 0) : Type 0 where
  pub env : List (String × String)
  pub database : Option TemplateDatabase
  pub variables : List (TemplateVariable N)

pub record EnvInstance : Type 0 where
  pub uuid : String
  pub name : String
  pub variables : List (String × String)
  pub memory_mb : ℕ

pub record SpecPort : Type 0 where
  pub name : String
  pub protocol : Protocol
  pub port : ℕ

-- `gsm-java:21` in the registry; refs that name a path or host are kept.
qualify_image : String → String → String
unfolding before_char has_char drop_trailing
qualify_image ref registry =
    if has_char b'/' (before_char b':' ref) || registry == ""
    then ref
    else drop_trailing b'/' registry +++ "/" +++ ref

-- `instanceSecret`: an HMAC of the purpose and the uuid, cut to a length.
abbrev pub Secret : Type 0
Secret = String → String → ℕ → String

console_password : Secret → String → String
console_password secret uuid = secret uuid "console-password" 24

pub record Passwords : Type 0 where
  pub password : String
  pub root_password : String

database_passwords : Secret → String → Passwords
database_passwords secret uuid = record {
  password = secret uuid "db-password" 32;
  root_password = secret uuid "db-root-password" 32;
}

-- The loops and assignments of `buildEnv`, each over the object so far.
pub set_all : List (String × String) → List (String × String) → List (String × String)
set_all [] env = env
set_all ((k, v) ∷ rest) env = set_all rest (insert k v env)

pub platform_facts : Secret → EnvInstance → List (String × String)
unfolding console_password
platform_facts secret i =
    ("GSM_INSTANCE_UUID", i.uuid)
    ∷ ("GSM_INSTANCE_NAME", i.name)
    ∷ ("GSM_MEMORY_MB", decimal i.memory_mb)
    ∷ ("GSM_HEAP_MB", decimal (heap_for_memory i.memory_mb))
    ∷ ("GSM_BIND", "0.0.0.0")
    ∷ ("GSM_CONSOLE_PASSWORD", console_password secret i.uuid)
    ∷ []

pub port_facts : List SpecPort → List (String × String)
unfolding upper_case
port_facts [] = []
port_facts (p ∷ ps) = ("GSM_PORT_" +++ upper_case p.name, decimal p.port) ∷ port_facts ps

pub database_facts : {N : Type 0} → Secret → EnvInstance → EnvTemplate N → List (String × String)
unfolding database_passwords
database_facts secret i def = elim def.database [
  | none ↦ []
  | some db ↦
      let on = database_enabled def.database def.variables i.variables in
      ("GSM_DB_HOST", if on then "db" else "")
      ∷ ("GSM_DB_PORT", if on then "3306" else "")
      ∷ ("GSM_DB_NAME", if on then db.name else "")
      ∷ ("GSM_DB_USER", if on then db.name else "")
      ∷ ("GSM_DB_PASSWORD", if on then (database_passwords secret i.uuid).password else "")
      ∷ []
]

-- The template's own `env`, filled from the facts; it may not replace GSM_* names.
pub template_env :
    List (String × String)
    → List (String × String)
    → List (String × String)
    → List (String × String)
template_env facts [] env = env
template_env facts ((k, v) ∷ rest) env =
    template_env facts rest
      (if not (starts_with "GSM_" k) then insert k (substitute v facts) env else env)

pub build_facts :
    {N : Type 0} → Secret → EnvInstance → List SpecPort → EnvTemplate N → List (String × String)
unfolding set_all platform_facts port_facts database_facts
build_facts secret i ports def =
    set_all (database_facts secret i def)
      (set_all (port_facts ports) (set_all (platform_facts secret i) (set_all i.variables [])))

unfoldable pub build_env :
    {N : Type 0} → Secret → EnvInstance → List SpecPort → EnvTemplate N → List (String × String)
unfolding build_facts template_env
build_env secret i ports def =
    let facts = build_facts secret i ports def in template_env facts def.env facts

pub record DatabaseSpec : Type 0 where
  pub engine : String
  pub image : String
  pub name : String
  pub user : String
  pub passwords : Passwords
  pub memory_mb : ℕ

database_spec : {N : Type 0} → Secret → EnvInstance → EnvTemplate N → Option DatabaseSpec
unfolding database_passwords
database_spec secret i def = elim def.database [
  | none ↦ none
  | some db ↦
      if not (database_enabled def.database def.variables i.variables)
      then none
      else some (record {
        engine = db.engine;
        image = db.image;
        name = db.name;
        user = db.name;
        passwords = database_passwords secret i.uuid;
        memory_mb = db.memory_mb;
      })
]

pub record PortBinding : Type 0 where
  pub name : String
  pub protocol : Protocol
  pub host : ℕ
  pub container : ℕ

protocols_of : Protocol → List Protocol
protocols_of both = tcp ∷ udp ∷ []
protocols_of p = p ∷ []

bindings_for : SpecPort → List Protocol → List PortBinding
bindings_for p [] = []
bindings_for p (q ∷ qs) =
    record { name = p.name; protocol = q; host = p.port; container = p.port } ∷ bindings_for p qs

port_bindings : List SpecPort → List PortBinding
unfolding protocols_of bindings_for
port_bindings [] = []
port_bindings (p ∷ ps) = bindings_for p (protocols_of p.protocol) ++ port_bindings ps

-- What `newAgentFeature` reads of a spec.
pub record SpecFeatures : Type 0 where
  pub volumes : List String
  pub mounts : List String
  pub database : Option DatabaseSpec
  pub entrypoint : Option (List String)
  pub pull : String
  pub seccomp_unconfined : Bool
  pub file_formats : List String
  pub transport_kind : Option String

abbrev pub is_empty {ℓ} : {A : Type ℓ} → List A → Bool
is_empty [] = true
is_empty (x ∷ xs) = false

new_agent_feature : SpecFeatures → Option String
new_agent_feature spec =
    if not (is_empty spec.volumes)
    then some "Volumes"
    else if not (is_empty spec.mounts)
    then some "Host mounts"
    else if is_some spec.database
    then some "A database"
    else if is_some spec.entrypoint
    then some "An entrypoint override"
    else if not (spec.pull == "missing")
    then some "Pulling the image on every start"
    else if spec.seccomp_unconfined
    then some "Running without seccomp"
    else if any (λ f. f == "source-cfg") spec.file_formats
    then some "Source .cfg config files"
    else elim spec.transport_kind [
      | none ↦ none
      | some kind ↦ if kind == "fifo" then some "A console pipe" else none
    ]

-- Backup ignore patterns of the volumes that stay out of backups (a name and whether it is kept).
volume_backup_ignore : List (String × Bool) → List String
volume_backup_ignore volumes =
    map (λ v. "volumes/" +++ v.0 +++ "/**") (select (λ v. not v.1) volumes)
