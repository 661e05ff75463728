-- ===== src/Releases/Latest.antt =====
-- The releases marked latest of an architecture, operation by operation.
use gsm.Common.{
  ℕ, ◌+◌, ◌≤◌, ◌<◌, ◌≡◌, refl, subst, ◌∙◌, sym, inl, inr, Bool, true, false, not, ◌&&◌, some, List,
  [], ◌∷◌, String, ◌==◌, nat_eq, string_eq, nat_beq_iff, if◌then◌else◌, find?, count, insert, All,
  everywhere, All-append, All-map, count-update_rows, count_mono, count-destroy-le, count-append,
  count-eq-zero, find?_unique, find?_sound, All-update_rows, All-destroy, Bool-cases, Option-cases,
  Result-cases, arith,
}
use gsm.Effects.{Effect}
use gsm.Text.{trim}
use gsm.Versions.{skip_v}
use gsm.Releases.{
  file_path, Build, Release, State, Upload, unmarked, marked, with_latest, set_latest, registered,
  register, upload, upload_checks, remove,
}

-- The ids are a key, new ones are above them, and an architecture has one latest release at most.
pub record IsTidy (st : State) : Type 0 where
  pub keyed : (k : ℕ) → count (λ r. r.id == k) st.rows ≤ 1
  pub below : All (λ r. r.id < st.next_id) st.rows
  pub latest : (arch : String) → count (λ r. r.arch == arch && r.is_latest) st.rows ≤ 1

abbrev is_latest_of : String → Release → Bool
is_latest_of arch r = r.arch == arch && r.is_latest

module _ (now : ℕ) (row : Release) (st : State) (t : IsTidy st)
    (found : find? (λ r. r.id == row.id) st.rows ≡ some row) where
  -- What the two updates make of one row.
  after_both : Release → Release
  after_both r =
      let u = if r.arch == row.arch && not (r.id == row.id) then unmarked r else r in
      if u.id == row.id then marked now row u else u

  count_after :
      (p : Release → Bool)
      → count p (with_latest now row st.rows) ≡ count (λ r. p (after_both r)) st.rows
  unfolding after_both
  count_after p =
      count-update_rows p (λ r. r.id == row.id) (marked now row) _
      ∙ count-update_rows (λ r. p (if r.id == row.id then marked now row r else r))
          (λ r. r.arch == row.arch && not (r.id == row.id)) unmarked st.rows

  latest_after : (arch : String) → count (is_latest_of arch) (with_latest now row st.rows) ≤ 1
  unfolding after_both
  latest_after arch = elim (Bool-cases (row.arch == arch)) [
    | inl same ↦
        let only : All (λ r. is_latest_of arch (after_both r) ≡ true → (r.id == row.id) ≡ true)
            st.rows =
          everywhere _ st.rows (λ r h. ground (
            arith,
            string_eq.test_iff r.arch row.arch,
            string_eq.test_iff row.arch arch,
            string_eq.test_iff r.arch arch,
          )) in
        omega (
          arith,
          count_after (is_latest_of arch),
          count_mono _ (λ r. r.id == row.id) st.rows only,
          t.keyed row.id,
        )
    | inr other ↦
        let kept : All (λ r. is_latest_of arch (after_both r) ≡ true → is_latest_of arch r ≡ true)
            st.rows =
          All-map st.rows (λ r is_row h. ground (arith, is_row))
            (find?_unique (λ r. r.id == row.id) st.rows found (t.keyed row.id)) in
        omega (
          arith,
          count_after (is_latest_of arch),
          count_mono _ (is_latest_of arch) st.rows kept,
          t.latest arch,
        )
  ]

  with_latest-IsTidy :
      (told : List Effect) → IsTidy (record st { rows = with_latest now row st.rows; told = told })
  unfolding after_both
  with_latest-IsTidy told = record {
    keyed = λ k.
        let ids : All (λ r. ((after_both r).id == k) ≡ true → (r.id == k) ≡ true) st.rows =
          everywhere _ st.rows (λ r h. ground arith) in
        omega (
          arith,
          count_after (λ r. r.id == k),
          count_mono _ (λ r. r.id == k) st.rows ids,
          t.keyed k,
        );
    below =
        All-update_rows (λ r. r.id < st.next_id) _ (marked now row) _ (λ r h. h)
          (All-update_rows (λ r. r.id < st.next_id) _ unmarked st.rows (λ r h. h) t.below);
    latest = latest_after;
  }

pub set_latest-IsTidy : (now id : ℕ) (st : State) → IsTidy st → IsTidy (set_latest now id st).0
unfolding set_latest
set_latest-IsTidy now id st t = elim (Option-cases (find? (λ r. r.id == id) st.rows)) [
  | inl gone ↦ rw (gone, set_latest) t
  | inr (row, found) ↦
      let same : row.id ≡ id =
        (nat_beq_iff row.id id).0 (find?_sound (λ r. r.id == id) st.rows found) in
      rw (found, set_latest)
        (with_latest-IsTidy now row st t
          (subst (λ k. find? (λ r. r.id == k) st.rows ≡ some row) (sym same) found) _)
]

pub register-IsTidy :
    (row : Release) (st : State)
    → row.id ≡ st.next_id
    → row.is_latest ≡ false
    → IsTidy st
    → IsTidy (register row st)
unfolding register
register-IsTidy row st new plain t = record {
  keyed = λ k.
      let fresh : (st.next_id == k) ≡ true → All (λ r. (r.id == k) ≡ false) st.rows =
        λ h. All-map st.rows (λ r b. ground arith) t.below in
      elim (Bool-cases (st.next_id == k)) [
        | inl here ↦ ground (
          arith,
          count-append (λ r. r.id == k) st.rows (row ∷ []),
          count-eq-zero (λ r. r.id == k) st.rows (fresh here),
        )
        | inr other ↦ ground (arith, count-append (λ r. r.id == k) st.rows (row ∷ []), t.keyed k)
      ];
  below =
      All-append (λ r. r.id < st.next_id + 1) st.rows (row ∷ [])
        (All-map st.rows (λ r b. omega arith) t.below) (omega arith, tt);
  latest =
      λ arch. ground (arith, count-append (is_latest_of arch) st.rows (row ∷ []), t.latest arch);
}

pub files-IsTidy :
    (files : List (String × Build)) (st : State) → IsTidy st → IsTidy (record st { files = files })
files-IsTidy files st t = record { keyed = t.keyed; below = t.below; latest = t.latest }

pub upload-IsTidy :
    (now : ℕ) (input : Upload) (by : ℕ) (st : State) → IsTidy st → IsTidy (upload now input by st).0
unfolding upload registered
upload-IsTidy now input by st t =
    let version = skip_v (trim input.version) in
    elim (Result-cases (upload_checks version input st)) [
      | inl (problem, refused) ↦ rw (refused, upload) t
      | inr (done, passed) ↦
          let row = registered st.next_id version input.arch input.file input.notes (some by) in
          let stored =
            files-IsTidy (insert (file_path version input.arch) input.file st.files) st t in
          let added = register-IsTidy row _ refl refl stored in
          elim (Bool-cases input.make_latest) [
            | inl make ↦ rw (passed, upload) (rw make (set_latest-IsTidy now row.id _ added))
            | inr leave ↦ rw (passed, upload) (rw leave added)
          ]
    ]

pub remove-IsTidy : (id : ℕ) (st : State) → IsTidy st → IsTidy (remove id st).0
unfolding remove
remove-IsTidy id st t = elim (Option-cases (find? (λ r. r.id == id) st.rows)) [
  | inl gone ↦ rw (gone, remove) t
  | inr (row, found) ↦ elim (Bool-cases row.is_latest) [
    | inl latest ↦ rw (found, remove) (rw latest t)
    | inr plain ↦
        rw (found, remove)
          (rw plain (record {
            keyed = λ k.
                omega (
                  arith,
                  count-destroy-le (λ r. r.id == k) (λ r. r.id == row.id) st.rows,
                  t.keyed k,
                );
            below = All-destroy (λ r. r.id < st.next_id) _ st.rows t.below;
            latest = λ arch. omega (
              arith,
              count-destroy-le (is_latest_of arch) (λ r. r.id == row.id) st.rows,
              t.latest arch,
            );
          }))
  ]
]
