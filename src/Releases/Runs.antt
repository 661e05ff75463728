-- ===== src/Releases/Runs.antt =====
-- Sequences of calls on releases, and the releases marked latest.
use gsm.Common.{
  ℕ, refl, inl, inr, ◌&&◌, none, some, is_some, List, [], ◌∷◌, ◌++◌, String, ◌==◌, nat_eq,
  string_eq, find?, lookup, Bool-cases, Option-cases,
}
use gsm.Releases.{
  arches, Build, Release, State, Upload, set_latest, registered, register, upload, remove,
  is_version, file_path,
}
use gsm.Releases.Seed.{
  import_bundled, register_arches, register_found, mark_arches, seed_from_disk, candidates,
  sort_newest,
}
use gsm.Releases.Latest.{
  IsTidy, set_latest-IsTidy, register-IsTidy, files-IsTidy, upload-IsTidy, remove-IsTidy,
}

import_bundled-IsTidy :
    (image : List (String × List (String × Build))) (st : State)
    → IsTidy st
    → IsTidy (import_bundled image st)
unfolding import_bundled
import_bundled-IsTidy [] st t = t
import_bundled-IsTidy ((version, bundle) ∷ rest) st t = elim (Bool-cases (is_version version)) [
  | inl good ↦ rw good (import_bundled-IsTidy rest _ (files-IsTidy _ st t))
  | inr bad ↦ rw bad (import_bundled-IsTidy rest st t)
]

register_arches-IsTidy :
    (version : String) (archs : List String) (created : List Release) (st : State)
    → IsTidy st
    → IsTidy (register_arches version archs created st).1
unfolding register_arches registered
register_arches-IsTidy version [] created st t = t
register_arches-IsTidy version (arch ∷ rest) created st t =
    elim (Option-cases (lookup (file_path version arch) st.files)) [
      | inl missing ↦
          rw (missing, register_arches) (register_arches-IsTidy version rest created st t)
      | inr (build, there) ↦
          elim (Bool-cases
            (is_some (find? (λ r. r.version == version && r.arch == arch) st.rows))) [
              | inl known ↦
                  rw (there, register_arches)
                    (rw known (register_arches-IsTidy version rest created st t))
              | inr new ↦
                  let row =
                    registered st.next_id version arch build (some "seeded from disk") none in
                  rw (there, register_arches)
                    (rw new (
                      register_arches-IsTidy version rest (created ++ row ∷ []) (register row st)
                        (register-IsTidy row st refl refl t)))
            ]
    ]

register_found-IsTidy :
    (versions : List String) (created : List Release) (st : State)
    → IsTidy st
    → IsTidy (register_found versions created st).1
unfolding register_found
register_found-IsTidy [] created st t = t
register_found-IsTidy (version ∷ rest) created st t = elim (Bool-cases (is_version version)) [
  | inl good ↦
      rw (good, register_found)
        (register_found-IsTidy rest _ _ (register_arches-IsTidy version arches created st t))
  | inr bad ↦ rw (bad, register_found) (register_found-IsTidy rest created st t)
]

first_marked-IsTidy :
    (now : ℕ) (sorted : List Release) (st : State)
    → IsTidy st
    → IsTidy (elim sorted [ [] ↦ st | newest ∷ others ↦ (set_latest now newest.id st).0 ])
first_marked-IsTidy now [] st t = t
first_marked-IsTidy now (newest ∷ others) st t = set_latest-IsTidy now newest.id st t

mark_arches-IsTidy :
    (now : ℕ) (archs : List String) (created : List Release) (st : State)
    → IsTidy st
    → IsTidy (mark_arches now archs created st)
unfolding mark_arches
mark_arches-IsTidy now [] created st t = t
mark_arches-IsTidy now (arch ∷ rest) created st t =
    mark_arches-IsTidy now rest created _
      (first_marked-IsTidy now (sort_newest (candidates arch created st)) st t)

-- One call of the administration of releases.
pub data Call : Type 0 where
  uploads : Upload → ℕ → Call
  sets_latest : ℕ → Call
  removes : ℕ → Call
  seeds : List (String × List (String × Build)) → List String → Call

abbrev pub run_call : ℕ → Call → State → State
run_call now (uploads input created_by) st = (upload now input created_by st).0
run_call now (sets_latest id) st = (set_latest now id st).0
run_call now (removes id) st = (remove id st).0
run_call now (seeds image versions) st = (seed_from_disk now image versions st).0

abbrev pub run_calls : List (ℕ × Call) → State → State
run_calls [] st = st
run_calls ((now, call) ∷ calls) st = run_calls calls (run_call now call st)

run_call-IsTidy : (now : ℕ) (call : Call) (st : State) → IsTidy st → IsTidy (run_call now call st)
unfolding seed_from_disk
run_call-IsTidy now (uploads input created_by) st t = upload-IsTidy now input created_by st t
run_call-IsTidy now (sets_latest id) st t = set_latest-IsTidy now id st t
run_call-IsTidy now (removes id) st t = remove-IsTidy id st t
run_call-IsTidy now (seeds image versions) st t =
    mark_arches-IsTidy now arches (register_found versions [] (import_bundled image st)).0 _
      (register_found-IsTidy versions [] _ (import_bundled-IsTidy image st t))

-- Whatever calls follow, refused or not, release ids stay a key and an architecture has at most one
-- release that is marked latest, given that both hold before.
pub run_calls-IsTidy :
    (calls : List (ℕ × Call)) (st : State) → IsTidy st → IsTidy (run_calls calls st)
run_calls-IsTidy [] st t = t
run_calls-IsTidy ((now, call) ∷ calls) st t =
    run_calls-IsTidy calls (run_call now call st) (run_call-IsTidy now call st t)
