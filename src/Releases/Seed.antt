-- ===== src/Releases/Seed.antt =====
-- server/src/modules/releases/service.ts: builds found on disk, and the roll-out to agents.
use gsm.Common.{
  ℕ, Bool, true, false, not, ◌&&◌, Option, none, some, is_some, List, [], ◌∷◌, ◌++◌, String, ◌==◌,
  nat_eq, string_eq, if◌then◌else◌, find?, select, contains, lookup, insert, has, Result, ok, err,
  length,
}
use gsm.Versions.{Sign, before, same, after, unordered, compare_versions, is_outdated_version}
use gsm.Releases.{
  arches, Build, Release, State, is_version, file_path, latest_of, set_latest, registered, register,
}

-- One version directory of the image: a build that is on disk already is kept.
import_arches :
    String → List (String × Build) → List String → List (String × Build) → List (String × Build)
unfolding file_path
import_arches version bundle [] files = files
import_arches version bundle (arch ∷ rest) files =
    import_arches version bundle rest (elim (lookup arch bundle) [
      | none ↦ files
      | some build ↦
          if has (file_path version arch) files
          then files
          else insert (file_path version arch) build files
    ])

-- `importBundled`, given the directories of the image.
unfoldable pub import_bundled : List (String × List (String × Build)) → State → State
unfolding import_arches is_version
import_bundled [] st = st
import_bundled ((version, bundle) ∷ rest) st = import_bundled rest (
    if is_version version
    then record st { files = import_arches version bundle arches st.files }
    else st)

-- The builds of one version that are on disk and not in the table; `created` collects the rows.
unfoldable pub register_arches : String → List String → List Release → State → List Release × State
unfolding file_path registered register
register_arches version [] created st = (created, st)
register_arches version (arch ∷ rest) created st = elim (lookup (file_path version arch) st.files) [
  | none ↦ register_arches version rest created st
  | some build ↦
      if is_some (find? (λ r. r.version == version && r.arch == arch) st.rows)
      then register_arches version rest created st
      else let row = registered st.next_id version arch build (some "seeded from disk") none in
        register_arches version rest (created ++ row ∷ []) (register row st)
]

unfoldable pub register_found : List String → List Release → State → List Release × State
unfolding register_arches is_version
register_found [] created st = (created, st)
register_found (version ∷ rest) created st =
    let (created', st') =
      (if is_version version then register_arches version arches created st else (created, st)) in
    register_found rest created' st'

-- `compareVersions(b.version, a.version) ?? 0`, and the sort by it.
abbrev pub newest_first : Release → Release → Sign
newest_first a b = elim (compare_versions b.version a.version) [ none ↦ same | some sign ↦ sign ]

pub insert_newest : Release → List Release → List Release
insert_newest x [] = x ∷ []
insert_newest x (y ∷ ys) = elim (newest_first x y) [
  | after ↦ y ∷ insert_newest x ys
  | same ↦ x ∷ y ∷ ys
  | before ↦ x ∷ y ∷ ys
  | unordered ↦ x ∷ y ∷ ys
]

pub sort_newest : List Release → List Release
unfolding insert_newest
sort_newest [] = []
sort_newest (x ∷ xs) = insert_newest x (sort_newest xs)

abbrev pub is_newer : Release → Release → Bool
is_newer r current = elim (compare_versions r.version current.version) [
  | none ↦ false
  | some sign ↦ elim sign [ before ↦ false | same ↦ false | after ↦ true | unordered ↦ false ]
]

pub candidates : String → List Release → State → List Release
unfolding latest_of
candidates arch created st = elim (latest_of arch st) [
  | some current ↦ select (λ r. r.arch == arch && is_newer r current) created
  | none ↦ select (λ r. r.arch == arch) st.rows
]

unfoldable pub mark_arches : ℕ → List String → List Release → State → State
unfolding candidates sort_newest
mark_arches now [] created st = st
mark_arches now (arch ∷ rest) created st =
    mark_arches now rest created (elim (sort_newest (candidates arch created st)) [
      | [] ↦ st
      | newest ∷ others ↦ (set_latest now newest.id st).0
    ])

-- `seedFromDisk`, given the directories of the image and those of `releasesDir()`.
unfoldable pub seed_from_disk :
    ℕ → List (String × List (String × Build)) → List String → State → State × ℕ
unfolding import_bundled register_found mark_arches
seed_from_disk now image versions st =
    let (created, found) = register_found versions [] (import_bundled image st) in
    (mark_arches now arches created found, length created)

-- What the service reads of a node.
pub record NodeBuild : Type 0 where
  pub id : ℕ
  pub arch : Option String
  pub agent_version : String
  pub connected : Bool

-- `agentBuildKey`.
build_key : Option String → String
build_key none = ""
build_key (some arch) = arch

latest_for : NodeBuild → State → Option Release
unfolding latest_of build_key
latest_for n st =
    if contains (build_key n.arch) arches then latest_of (build_key n.arch) st else none

-- `summary().outdatedNodes`.
outdated_nodes : List NodeBuild → State → ℕ
unfolding latest_for
outdated_nodes nodes st = length (
    select
      (λ n. elim (latest_for n st) [
        | none ↦ false
        | some r ↦ is_outdated_version n.agent_version r.version
      ])
      nodes)

is_due : State → NodeBuild → Bool
unfolding latest_for
is_due st n = elim (latest_for n st) [
  | none ↦ false
  | some r ↦ not (n.agent_version == r.version) && n.connected
]

-- `rollout`: the agents' answers (whether the binary was replaced) are an argument.
pub record Rollout : Type 0 where
  pub updated : List ℕ
  pub failed : List ℕ
  pub skipped : ℕ

has_replaced : Result Bool → Bool
has_replaced (ok replaced) = replaced
has_replaced (err problem) = false

ids_where : (NodeBuild → Bool) → List NodeBuild → List ℕ
ids_where p [] = []
ids_where p (n ∷ ns) = let rest = ids_where p ns in if p n then n.id ∷ rest else rest

unfoldable pub rollout : (ℕ → Result Bool) → List NodeBuild → State → Rollout
unfolding is_due has_replaced ids_where
rollout answer nodes st = record {
  updated = ids_where (λ n. is_due st n && has_replaced (answer n.id)) nodes;
  failed = ids_where (λ n. is_due st n && not (has_replaced (answer n.id))) nodes;
  skipped = length (select (λ n. not (is_due st n)) nodes);
}
