-- ===== src/Releases/Tests.antt =====
-- A server that starts with an image of two builds.
use gsm.Common.{
  ◌≡◌, refl, none, some, List, [], ◌∷◌, Bool, String, true, false, err, bad_request, insert, lookup,
  arith,
}
use gsm.Text.{trim, every}
use gsm.Releases.{
  Build, Release, State, Upload, set_latest, register, upload, remove, resolve_file, is_version,
}
use gsm.Releases.Seed.{
  import_bundled, register_arches, register_found, mark_arches, seed_from_disk, rollout,
}
use gsm.Releases.Latest.{IsTidy}
use gsm.Releases.Runs.{run_calls, run_calls-IsTidy, uploads, sets_latest, removes, seeds}
use gsm.Versions.{
  compare_versions, double, skip_v, is_symbol, read_number, read_dot, parse_version, compare_parsed,
  cmp_prerelease, cmp_ident, compare_texts, is_numeric, numeric_value,
}

abbrev empty : State
empty = record { rows = []; next_id = 1; files = []; told = [] }

abbrev build : Build
build = record { size = 2000000; is_elf = true; sha256 = "aa" }

abbrev seeded : State
seeded =
    (seed_from_disk 5 (("0.5.0", ("x86_64", build) ∷ []) ∷ ("0.6.0", ("x86_64", build) ∷ []) ∷ [])
      ("0.5.0" ∷ "0.6.0" ∷ []) empty).0

abbrev newer : Upload
newer = record {
  version = " v0.7.0";
  arch = "x86_64";
  notes = none;
  make_latest = true;
  file = build;
}

abbrev marks : List Release → List (String × Bool)
marks [] = []
marks (r ∷ rs) = (r.version, r.is_latest) ∷ marks rs

run : Unit {0}
unfolding parse_version compare_parsed cmp_prerelease cmp_ident compare_texts is_numeric
    numeric_value set_latest register upload remove resolve_file seed_from_disk rollout lookup
    insert compare_versions double trim every skip_v is_symbol read_number read_dot is_version
    import_bundled register_arches register_found mark_arches
run = tt

-- The newest build becomes the latest; an upload may take its place; the latest cannot be removed.
seeded_run :
    (marks seeded.rows ≡ ("0.5.0", false) ∷ ("0.6.0", true) ∷ [])
    × (marks (upload 9 newer 1 seeded).0.rows
        ≡ ("0.5.0", false) ∷ ("0.6.0", false) ∷ ("0.7.0", true) ∷ [])
    × ((remove 2 seeded).1
        ≡ err (bad_request "Mark another release as latest before deleting this one"))
    × (resolve_file "latest" "x86_64" seeded ≡ some ("0.6.0/x86_64", "aa"))
unfolding run
seeded_run = (refl, refl, refl, refl)

empty-IsTidy : IsTidy empty
empty-IsTidy = record { keyed = λ k. omega arith; below = tt; latest = λ arch. omega arith }

run_calls-IsTidy_example : IsTidy (
    run_calls
      ((5, seeds [] ("0.5.0" ∷ []))
        ∷ (9, uploads newer 1)
        ∷ (9, sets_latest 1)
        ∷ (9, removes 1)
        ∷ [])
      empty)
run_calls-IsTidy_example =
    run_calls-IsTidy
      ((5, seeds [] ("0.5.0" ∷ []))
        ∷ (9, uploads newer 1)
        ∷ (9, sets_latest 1)
        ∷ (9, removes 1)
        ∷ [])
      empty empty-IsTidy
