-- ===== src/Instances/Supervisor/Reconnect.antt =====
-- What a node's instances are after it went offline and came back.
use gsm.Common.{
  ℕ, ◌≡◌, ◌≢◌, refl, sym, ap, ◌∙◌, subst, inl, inr, true, ◌||◌, none, some, List, [], ◌∷◌, map,
  String, ◌==◌, nat_eq, string_eq, lookup, select, update_rows, All, Pairwise, if◌then◌else◌,
  Bool-cases, Option-cases, arith,
}
use gsm.Enums.{InstanceStatus, status_eq, stopped, unknown, install_failed}
use gsm.Instances.{Instance, InstanceState, Panel}
use gsm.Instances.Events.{apply_state, is_ignored, applied}
use gsm.Instances.Supervisor.Rows.{save_all, save_all_lem, kept_rows, same_rows}
use gsm.Instances.Supervisor.{
  settled, reconciled, reconcile_row, reconcile_rows, keeps_status, mark_row, mark_rows,
  mark_unknown,
}

-- Going offline ---------------------------------------------------------------------------------

-- A row as it is marked.
abbrev pub marked : Instance → Instance
marked i =
    if i.status == unknown || i.status == install_failed then i else record i { status = unknown }

mark_change : Instance → Instance → Instance
mark_change i r =
    if i.status == unknown || i.status == install_failed then r else record r { status = unknown }

mark_change-id : (i r : Instance) → (mark_change i r).id ≡ r.id
unfolding mark_change
mark_change-id i r = ground arith

mark_row_lem :
    (i : Instance) (p : Panel)
    → (mark_row i p).instances ≡ update_rows (λ r. r.id == i.id) (mark_change i) p.instances
unfolding mark_row keeps_status mark_change
mark_row_lem i p = elim (Bool-cases (i.status == unknown || i.status == install_failed)) [
  | inl keeps ↦
      rw (keeps, mark_row)
        (kept_rows (λ r. r.id == i.id) (mark_change i) p.instances
          (λ r. rw (keeps, mark_change) refl))
  | inr marks ↦
      rw (marks, mark_row)
        (same_rows (λ r. r.id == i.id) (λ r. record r { status = unknown }) (mark_change i)
          p.instances (λ r. rw (marks, mark_change) refl))
]

mark_rows_lem :
    (rows : List Instance) (p : Panel)
    → (mark_rows rows p).instances ≡ save_all mark_change mark_change-id rows p.instances
unfolding mark_rows save_all
mark_rows_lem [] p = refl
mark_rows_lem (i ∷ rows) p =
    mark_rows_lem rows (mark_row i p)
    ∙ ap (save_all mark_change mark_change-id rows) (mark_row_lem i p)

-- When a node goes offline, each of its rows that is not `install_failed` becomes `unknown`, and no
-- other row changes, given that ids are unique.
pub mark_unknown_lem :
    (node_id : ℕ) (p : Panel)
    → Pairwise (λ a b. a.id ≢ b.id) p.instances
    → (mark_unknown node_id p).instances
      ≡ map (λ i. if i.node_id == node_id then marked i else i) p.instances
unfolding mark_unknown mark_change
mark_unknown_lem node_id p unique =
    mark_rows_lem (select (λ i. i.node_id == node_id) p.instances) p
    ∙ save_all_lem mark_change mark_change-id (λ i. i.node_id == node_id) p.instances unique

-- Coming back -----------------------------------------------------------------------------------

reconcile_change : ℕ → List (String × InstanceState) → Instance → Instance → Instance
reconcile_change now states i r = elim (lookup i.uuid states) [
  | some s ↦ if is_ignored i s then r else applied now s r
  | none ↦ if i.status == settled i then r else record r { status = settled i; container_id = none }
]

reconcile_change-id :
    (now : ℕ) (states : List (String × InstanceState)) (i r : Instance)
    → (reconcile_change now states i r).id ≡ r.id
unfolding reconcile_change applied
reconcile_change-id now states i r = ground arith

reconcile_row_lem :
    (now : ℕ) (states : List (String × InstanceState)) (i : Instance) (p : Panel)
    → (reconcile_row now states i p).instances
      ≡ update_rows (λ r. r.id == i.id) (reconcile_change now states i) p.instances
unfolding reconcile_row apply_state reconcile_change
reconcile_row_lem now states i p = elim (Option-cases (lookup i.uuid states)) [
  | inr (s, listed) ↦
      rw (listed, reconcile_row)
        (elim (Bool-cases (is_ignored i s)) [
          | inl stays ↦
              rw (stays, apply_state)
                (kept_rows (λ r. r.id == i.id) (reconcile_change now states i) p.instances
                  (λ r. rw (listed, reconcile_change) (rw stays refl)))
          | inr told ↦
              rw (told, apply_state)
                (same_rows (λ r. r.id == i.id) (applied now s) (reconcile_change now states i)
                  p.instances (λ r. rw (listed, reconcile_change) (rw told refl)))
        ])
  | inl missing ↦
      rw (missing, reconcile_row)
        (elim (Bool-cases (i.status == settled i)) [
          | inl stays ↦ rw stays (
              kept_rows (λ r. r.id == i.id) (reconcile_change now states i) p.instances
                (λ r. rw (missing, reconcile_change) (rw stays refl)))
          | inr moved ↦ rw moved (
              same_rows (λ r. r.id == i.id)
                (λ r. record r { status = settled i; container_id = none })
                (reconcile_change now states i) p.instances
                (λ r. rw (missing, reconcile_change) (rw moved refl)))
        ])
]

reconcile_rows_save :
    (now : ℕ) (states : List (String × InstanceState)) (rows : List Instance) (p : Panel)
    → (reconcile_rows now states rows p).instances
      ≡ save_all (reconcile_change now states) (reconcile_change-id now states) rows p.instances
unfolding reconcile_rows save_all
reconcile_rows_save now states [] p = refl
reconcile_rows_save now states (i ∷ rows) p =
    reconcile_rows_save now states rows (reconcile_row now states i p)
    ∙ ap (save_all (reconcile_change now states) (reconcile_change-id now states) rows)
        (reconcile_row_lem now states i p)

-- The loop over a node's rows, which saves one after the other, makes each of them what the agent
-- reports of it (or what it settles to), and changes no other row, given that ids are unique.
pub reconcile_rows-reconciled :
    (now node_id : ℕ) (states : List (String × InstanceState)) (p : Panel)
    → Pairwise (λ a b. a.id ≢ b.id) p.instances
    → (reconcile_rows now states (select (λ i. i.node_id == node_id) p.instances) p).instances
      ≡ map (λ i. if i.node_id == node_id then reconciled now states i else i) p.instances
unfolding reconcile_change reconciled
reconcile_rows-reconciled now node_id states p unique =
    reconcile_rows_save now states (select (λ i. i.node_id == node_id) p.instances) p
    ∙ save_all_lem (reconcile_change now states) (reconcile_change-id now states)
        (λ i. i.node_id == node_id) p.instances unique

-- The status of an instance after its node was away: what the agent reports; without a report
-- `stopped`, unless the install had failed.
abbrev pub status_back : List (String × InstanceState) → Instance → InstanceStatus
status_back states i = elim (lookup i.uuid states) [
  | some s ↦ s.state
  | none ↦ if i.status == install_failed then install_failed else stopped
]

back :
    (now : ℕ) (states : List (String × InstanceState)) (i : Instance)
    → (reconciled now states (marked i)).status ≡ status_back states i
unfolding reconciled applied is_ignored settled
back now states i = elim (Option-cases (lookup i.uuid states)) [
  | inl missing ↦ ground arith
  | inr (s, listed) ↦ ground arith
]

marked-id : (i : Instance) → (marked i).id ≡ i.id
marked-id i = ground arith

module _ (now node_id : ℕ) (states : List (String × InstanceState)) where
  off : Instance → Instance
  off i = if i.node_id == node_id then marked i else i

  off-id : (i : Instance) → (off i).id ≡ i.id
  unfolding off
  off-id i = ground (arith, marked-id i)

  off-All : (j : ℕ) (xs : List Instance) → All (λ x. j ≢ x.id) xs → All (λ x. j ≢ x.id) (map off xs)
  off-All j [] h = tt
  off-All j (x ∷ xs) (d, h) = (subst (λ k. j ≢ k) (sym (off-id x)) d, off-All j xs h)

  off-Pairwise :
      (xs : List Instance)
      → Pairwise (λ a b. a.id ≢ b.id) xs
      → Pairwise (λ a b. a.id ≢ b.id) (map off xs)
  off-Pairwise [] h = tt
  off-Pairwise (x ∷ xs) (d, h) = (
    subst (λ j. All (λ y. j ≢ y.id) (map off xs)) (sym (off-id x)) (off-All x.id xs d),
    off-Pairwise xs h,
  )

  head :
      (x : Instance)
      → (if (off x).node_id == node_id then reconciled now states (off x) else off x).status
        ≡ (if x.node_id == node_id then status_back states x else x.status)
  unfolding off
  head x = elim (Bool-cases (x.node_id == node_id)) [
    | inl here ↦
        let stays : ((marked x).node_id == node_id) ≡ true = ground arith in
        rw here (rw stays (back now states x))
    | inr away ↦ rw away (rw away refl)
  ]

  statuses :
      (xs : List Instance)
      → map
          (λ i. i.status)
          (map (λ i. if i.node_id == node_id then reconciled now states i else i) (map off xs))
        ≡ map (λ i. if i.node_id == node_id then status_back states i else i.status) xs
  unfolding off
  statuses [] = refl
  statuses (x ∷ xs) = cc (head x, statuses xs)

-- After a node went offline and its agent is back, each of its instances has the status that the
-- agent reports; one without a report is `stopped`, unless its install had failed. Instances of
-- other nodes keep their status. Ids are taken to be unique.
pub reconcile_rows-mark_unknown :
    (now node_id : ℕ) (states : List (String × InstanceState)) (p : Panel)
    → Pairwise (λ a b. a.id ≢ b.id) p.instances
    → let q = mark_unknown node_id p in
      map
        (λ i. i.status)
        (reconcile_rows now states (select (λ i. i.node_id == node_id) q.instances) q).instances
      ≡ map (λ i. if i.node_id == node_id then status_back states i else i.status) p.instances
unfolding off
reconcile_rows-mark_unknown now node_id states p unique =
    let gone = mark_unknown_lem node_id p unique in
    let q = mark_unknown node_id p in
    ap (map (λ i. i.status)) (
      reconcile_rows-reconciled now node_id states q (
        subst (Pairwise (λ a b. a.id ≢ b.id)) (sym gone)
          (off-Pairwise now node_id states p.instances unique)))
    ∙ ap
        (λ xs.
          map (λ i. i.status)
            (map (λ i. if i.node_id == node_id then reconciled now states i else i) xs))
        gone
    ∙ statuses now node_id states p.instances
