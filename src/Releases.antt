-- ===== src/Releases.antt =====
-- server/src/modules/releases/service.ts: the agent builds that the server hosts. A file is known
-- by its path, and its content by what the service asks of it.
pub mod Seed
pub mod Latest
pub mod Runs
mod Tests
use Prim.Native.Char.{code}
use gsm.Common.{
  ℕ, ◌+◌, Bool, true, false, not, ◌&&◌, ◌||◌, Option, none, some, is_some, List, [], ◌∷◌, ◌++◌, map,
  String, ◌==◌, nat_eq, string_eq, ltb, leb, if◌then◌else◌, find?, select, destroy, count,
  update_rows, contains, lookup, insert, delete, has, or_else, Result, ok, err, HttpError,
  bad_request, conflict, not_found, ◌>>=◌, ◌>>◌, throw_if, length,
}
use gsm.Text.{trim, every, ◌+++◌}
use gsm.Effects.{Effect, node_updated}
use gsm.Versions.{
  read_number, read_dot, skip_v, is_symbol, Sign, before, same, after, compare_versions,
  is_outdated_version,
}

-- `AGENT_BUILD_KEYS`.
abbrev pub arches : List String
arches = "x86_64" ∷ "aarch64" ∷ []

-- What the service reads of a file's content.
pub record Build : Type 0 where
  pub size : ℕ
  pub is_elf : Bool
  pub sha256 : String

pub record Release : Type 0 where
  pub id : ℕ
  pub version : String
  pub arch : String
  pub sha256 : String
  pub size : ℕ
  pub path : String
  pub notes : Option String
  pub is_latest : Bool
  pub latest_since : Option ℕ
  pub created_by : Option ℕ

-- The table, and the files below `releasesDir()`.
pub record State : Type 0 where
  pub rows : List Release
  pub next_id : ℕ
  pub files : List (String × Build)
  pub told : List Effect

abbrev pub Outcome : Type 0 → Type 0
Outcome A = State × Result A

-- The rest of `VERSION_RE` after the three numbers: `(?:[-+][A-Za-z0-9.\-]+)?$`.
is_suffix : String → Bool
unfolding is_symbol every
is_suffix String.[] = true
is_suffix (String.◌∷◌ c s) =
    (code c == b'-' || code c == b'+') && not (s == "") && every is_symbol s

after_number : String → (String → Bool) → Bool
unfolding read_number
after_number s next = elim (read_number s) [ none ↦ false | some (n, rest) ↦ next rest ]

after_dot : String → (String → Bool) → Bool
unfolding read_dot
after_dot s next = elim (read_dot s) [ none ↦ false | some rest ↦ next rest ]

-- `VERSION_RE.test(s)`.
pub is_version : String → Bool
unfolding is_suffix after_number after_dot skip_v
is_version s =
    after_number (skip_v s)
      (λ a. after_dot a (λ b. after_number b (λ c. after_dot c (λ d. after_number d is_suffix))))

pub file_path : String → String → String
file_path version arch = version +++ "/" +++ arch

download_path : String → String → String
unfolding file_path
download_path version arch = "/downloads/gsm-agent/" +++ file_path version arch

pub latest_of : String → State → Option Release
latest_of arch st = find? (λ r. r.arch == arch && r.is_latest) st.rows

latest_by_arch : State → List (String × Option Release)
unfolding latest_of
latest_by_arch st = map (λ arch. (arch, latest_of arch st)) arches

-- Making a release the latest of its architecture: the others lose the mark, then the row is saved.
abbrev pub unmarked : Release → Release
unmarked r = record r { is_latest = false; latest_since = none }

abbrev pub marked : ℕ → Release → Release → Release
marked now row r = record r {
  is_latest = true;
  latest_since = if not row.is_latest then some now else r.latest_since;
}

abbrev pub with_latest : ℕ → Release → List Release → List Release
with_latest now row rows =
    update_rows (λ r. r.id == row.id) (marked now row)
      (update_rows (λ r. r.arch == row.arch && not (r.id == row.id)) unmarked rows)

unfoldable pub set_latest : ℕ → ℕ → State → Outcome Release
set_latest now id st = elim (find? (λ r. r.id == id) st.rows) [
  | none ↦ (st, err (not_found "Release"))
  | some row ↦ (
    record st { rows = with_latest now row st.rows; told = st.told ++ node_updated 0 ∷ [] },
    ok row,
  )
]

pub record Upload : Type 0 where
  pub version : String
  pub arch : String
  pub notes : Option String
  pub make_latest : Bool
  pub file : Build

pub registered : ℕ → String → String → Build → Option String → Option ℕ → Release
unfolding download_path
registered id version arch build notes created_by = record {
  id = id;
  version = version;
  arch = arch;
  sha256 = build.sha256;
  size = build.size;
  path = download_path version arch;
  notes = notes;
  is_latest = false;
  latest_since = none;
  created_by = created_by;
}

-- `AgentRelease.create`.
unfoldable pub register : Release → State → State
register row st = record st { rows = st.rows ++ row ∷ []; next_id = st.next_id + 1 }

pub upload_checks : String → Upload → State → Result (Unit {0})
unfolding is_version
upload_checks version input st =
    throw_if (not (is_version version))
      (bad_request "Version must look like 1.2.3 (optionally with -suffix)")
    >> (throw_if (not (contains input.arch arches)) (bad_request "Unsupported architecture")
        >> (throw_if (ltb input.file.size 1000000)
              (bad_request "That does not look like an agent binary (too small)")
            >> (throw_if
                  (is_some (find? (λ r. r.version == version && r.arch == input.arch) st.rows))
                  (conflict "Release ${version} for ${input.arch} already exists")
                >> throw_if (not input.file.is_elf) (bad_request "File is not an ELF executable"))))

unfoldable pub upload : ℕ → Upload → ℕ → State → Outcome (Unit {0})
unfolding upload_checks registered register file_path skip_v trim
upload now input created_by st =
    let version = skip_v (trim input.version) in
    elim (upload_checks version input st) [
      | err problem ↦ (st, err problem)
      | ok done ↦
          let stored = record st {
            files = insert (file_path version input.arch) input.file st.files;
          } in
          let row =
            registered st.next_id version input.arch input.file input.notes (some created_by) in
          let added = register row stored in
          if input.make_latest then ((set_latest now row.id added).0, ok tt) else (added, ok tt)
    ]

-- The two files go; what `Deno.remove` says does not matter.
unfoldable pub remove : ℕ → State → Outcome (Unit {0})
unfolding file_path
remove id st = elim (find? (λ r. r.id == id) st.rows) [
  | none ↦ (st, err (not_found "Release"))
  | some row ↦
      if row.is_latest
      then (st, err (bad_request "Mark another release as latest before deleting this one"))
      else (
        record st {
          rows = destroy (λ r. r.id == row.id) st.rows;
          files = delete (file_path row.version row.arch) st.files;
        },
        ok tt,
      )
]

unfoldable pub resolve_file : String → String → State → Option (String × String)
unfolding latest_of file_path skip_v
resolve_file version arch st =
    if not (contains arch arches)
    then none
    else elim (if version == "latest"
        then latest_of arch st
        else find? (λ r. r.arch == arch && r.version == skip_v version) st.rows) [
          | none ↦ none
          | some r ↦ some (file_path r.version r.arch, r.sha256)
        ]
