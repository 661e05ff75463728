-- ===== src/Nodes/Sound.antt =====
-- What every operation on nodes and enrolment tokens keeps.
use gsm.Common.{
  ℕ, ◌+◌, ◌≤◌, ◌<◌, ◌≡◌, ◌⊎◌, subst, inl, inr, Bool, true, none, some, List, [], ◌∷◌, ◌++◌, String,
  ◌==◌, nat_eq, string_eq, if◌then◌else◌, find?, count, update_rows, destroy, All, everywhere,
  All-append, All-map, All-destroy, All-update_where, count-update_rows, count_mono,
  count-destroy-le, count-append, count-snoc, count-eq-zero, Bool-cases, arith,
}
use gsm.Nodes.{EnrollmentToken, Node, State}

-- A pool of ports is no more than 20001 ports from its start on, and has no SFTP port in it.
pub record HasPool (n : Node) : Type 0 where
  pub ordered : n.port_range_start ≤ n.port_range_end
  pub short : n.port_range_end ≤ n.port_range_start + 20000
  pub apart :
      (port : ℕ) → n.sftp_port ≡ some port → (port < n.port_range_start) ⊎ (n.port_range_end < port)

-- The rows of nodes: ids are a key, below the next one; machines are too; and pools.
pub record AreSound (nodes : List Node) (next : ℕ) : Type 0 where
  pub keyed : (k : ℕ) → count (λ n. n.id == k) nodes ≤ 1
  pub below : All (λ n. n.id < next) nodes
  pub machines : (m : String) → count (λ n. n.machine_id == m) nodes ≤ 1
  pub pooled : All HasPool nodes

pub record IsSpendable (t : EnrollmentToken) : Type 0 where
  pub within : (most : ℕ) → t.max_uses ≡ some most → t.uses ≤ most

pub record AreBounded (tokens : List EnrollmentToken) (next : ℕ) : Type 0 where
  pub keyed : (k : ℕ) → count (λ t. t.id == k) tokens ≤ 1
  pub below : All (λ t. t.id < next) tokens
  pub bounded : All IsSpendable tokens

-- Changes of rows that keep id and machine, and the pools of the rows they meet.
pub changed-AreSound :
    (q : Node → Bool) (f : Node → Node) (nodes : List Node) (next : ℕ)
    → ((n : Node) → (f n).id ≡ n.id)
    → ((n : Node) → (f n).machine_id ≡ n.machine_id)
    → All (λ n. q n ≡ true → HasPool n → HasPool (f n)) nodes
    → AreSound nodes next
    → AreSound (update_rows q f nodes) next
changed-AreSound q f nodes next ids machines pools s = record {
  keyed = λ k. omega (
    arith,
    count-update_rows (λ n. n.id == k) q f nodes,
    count_mono (λ n. (if q n then f n else n).id == k) (λ n. n.id == k) nodes
        (everywhere _ nodes (λ n h. ground (arith, ids n))),
    s.keyed k,
  );
  below =
      All-update_where (λ n. n.id < next) q f nodes
        (everywhere _ nodes (λ n h b. ground (arith, ids n))) s.below;
  machines = λ m. omega (
    arith,
    count-update_rows (λ n. n.machine_id == m) q f nodes,
    count_mono (λ n. (if q n then f n else n).machine_id == m) (λ n. n.machine_id == m) nodes
        (everywhere _ nodes (λ n h. ground (arith, machines n))),
    s.machines m,
  );
  pooled = All-update_where HasPool q f nodes pools s.pooled;
}

-- Changes that do not touch the pool.
pub kept-AreSound :
    (q : Node → Bool) (f : Node → Node) (nodes : List Node) (next : ℕ)
    → ((n : Node) → (f n).id ≡ n.id)
    → ((n : Node) → (f n).machine_id ≡ n.machine_id)
    → ((n : Node) → HasPool n → HasPool (f n))
    → AreSound nodes next
    → AreSound (update_rows q f nodes) next
kept-AreSound q f nodes next ids machines pools =
    changed-AreSound q f nodes next ids machines (everywhere _ nodes (λ n h. pools n))

pub gone-AreSound :
    (q : Node → Bool) (nodes : List Node) (next : ℕ)
    → AreSound nodes next
    → AreSound (destroy q nodes) next
gone-AreSound q nodes next s = record {
  keyed = λ k. omega (arith, count-destroy-le (λ n. n.id == k) q nodes, s.keyed k);
  below = All-destroy _ q nodes s.below;
  machines = λ m. omega (arith, count-destroy-le (λ n. n.machine_id == m) q nodes, s.machines m);
  pooled = All-destroy _ q nodes s.pooled;
}

fresh_count :
    (next k : ℕ) (nodes : List Node)
    → All (λ n. n.id < next) nodes
    → (next == k) ≡ true
    → count (λ n. n.id == k) nodes ≡ 0
fresh_count next k nodes below h =
    count-eq-zero (λ n. n.id == k) nodes (All-map nodes (λ n b. ground arith) below)

-- A new row with the next id, a machine that no row has, and a pool.
pub added-AreSound :
    (n : Node) (nodes : List Node) (next : ℕ)
    → n.id ≡ next
    → find? (λ r. r.machine_id == n.machine_id) nodes ≡ none
    → HasPool n
    → AreSound nodes next
    → AreSound (nodes ++ n ∷ []) (next + 1)
added-AreSound n nodes next new machine pool s = record {
  keyed = λ k. elim (Bool-cases (next == k)) [
    | inl here ↦
        ground (
          arith,
          count-append (λ r. r.id == k) nodes (n ∷ []),
          fresh_count next k nodes s.below here,
        )
    | inr other ↦ ground (arith, count-append (λ r. r.id == k) nodes (n ∷ []), s.keyed k)
  ];
  below =
      All-append (λ r. r.id < next + 1) nodes (n ∷ []) (All-map nodes (λ r b. omega arith) s.below)
        (omega arith, tt);
  machines = λ m. elim (Bool-cases (n.machine_id == m)) [
    | inl here ↦
        let same : n.machine_id ≡ m = (string_eq.test_iff n.machine_id m).0 here in
        let none_there = subst (λ x. find? (λ r. r.machine_id == x) nodes ≡ none) same machine in
        let one = count-snoc (λ r. r.machine_id == m) nodes n none_there here in omega arith
    | inr other ↦ ground (arith, count-append (λ r. r.machine_id == m) nodes (n ∷ []), s.machines m)
  ];
  pooled = All-append HasPool nodes (n ∷ []) s.pooled (pool, tt);
}

-- Sound nodes, and tokens that something holds of.
abbrev pub HasBoth : (List EnrollmentToken → ℕ → Type 0) → State → Type 0
HasBoth P st = AreSound st.nodes st.next_node × P st.tokens st.next_token

abbrev pub IsSound : State → Type 0
IsSound = HasBoth AreBounded
