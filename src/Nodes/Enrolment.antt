-- ===== src/Nodes/Enrolment.antt =====
-- Enrolment of agents in server/src/modules/nodes/service.ts. `enroll` waits between its check of the
-- token and its transaction, so it is cut in two there. SHA-256 is a parameter.
use Prim.Native.Nat.{◌*◌}
use gsm.Common.{
  ℕ, ◌+◌, Bool, false, not, ◌&&◌, ◌||◌, Option, none, some, is_some, [], ◌∷◌, ◌++◌, String, ◌==◌,
  nat_eq, string_eq, ltb, leb, if◌then◌else◌, find?, update_rows, Result, ok, err, not_found,
  unauthorized,
}
use gsm.Effects.{node_updated}
use gsm.Text.{trim, slice_to, decimal, before_char, after_char, has_char, ◌+++◌}
use gsm.Nodes.{
  EnrollmentToken, Inventory, offline, Node, State, tell, find_node, save_node, default_range_start,
  default_range_end, default_sftp_port,
}

-- `isUsable`.
unfoldable pub is_usable : ℕ → EnrollmentToken → Bool
is_usable now t =
    if is_some t.revoked_at
    then false
    else not (elim t.expires_at [ none ↦ false | some end_at ↦ ltb end_at now ])
      && not (elim t.max_uses [ none ↦ false | some most ↦ leb most t.uses ])

-- No hours, and zero hours, are no end; hours are whole here.
expiry : ℕ → Option ℕ → Option ℕ
expiry now none = none
expiry now (some hours) = if hours == 0 then none else some (now + hours * 3600000)

-- The columns of a node that is built, with the defaults of its model, after `applyInventory`.
unfoldable pub built : ℕ → ℕ → String → String → Inventory → String → ℕ → Node
built id now name secret_hash inv agent_version token_id = record {
  id = id;
  name = name;
  hostname = inv.hostname;
  machine_id = inv.machine_id;
  status = offline;
  agent_secret_hash = secret_hash;
  agent_version = some agent_version;
  protocol_version = none;
  inventory = some inv;
  last_metrics = none;
  last_seen_at = none;
  enrolled_at = now;
  enrollment_token_id = some token_id;
  notes = none;
  public_address = none;
  bind_address = "0.0.0.0";
  port_range_start = default_range_start;
  port_range_end = default_range_end;
  sftp_port = some default_sftp_port;
  sftp_host_key = none;
  sftp_error = none;
  firewall_managed = false;
  firewall_backend = none;
  firewall_error = none;
  firewall_sftp = none;
}

abbrev pub apply_inventory : Inventory → Node → Node
apply_inventory inv n = record n { hostname = inv.hostname; inventory = some inv }

-- What changes on a node that is there.
abbrev pub reattached : ℕ → String → Inventory → ℕ → Node → Node
reattached now secret_hash inv token_id n = record (apply_inventory inv n) {
  agent_secret_hash = secret_hash;
  enrollment_token_id = some token_id;
  enrolled_at = now;
}

pub record EnrollInput : Type 0 where
  pub token : String
  pub name : Option String
  pub agent_version : String
  pub inventory : Inventory

pub record Enrolled : Type 0 where
  pub agent_token : String
  pub node_id : ℕ
  pub name : String

enrolled_name : EnrollInput → String
enrolled_name input =
    let given : String = elim input.name [ none ↦ "" | some name ↦ trim name ] in
    if not (given == "")
    then given
    else if not (input.inventory.hostname == "")
    then input.inventory.hostname
    else "node"

module _ (sha256_hex : String → String) where
  unfoldable pub create_enrollment_token :
      ℕ → String → Option ℕ → Option ℕ → String → State → State × EnrollmentToken × String
  unfolding expiry
  create_enrollment_token now name max_uses expires_in_hours random st =
      let plaintext = "gsm_enr_" +++ random in
      let token : EnrollmentToken = record {
        id = st.next_token;
        name = name;
        token_hash = sha256_hex plaintext;
        token_prefix = slice_to 12 plaintext;
        max_uses = max_uses;
        uses = 0;
        expires_at = expiry now expires_in_hours;
        revoked_at = none;
      } in
      (
        record st { tokens = st.tokens ++ token ∷ []; next_token = st.next_token + 1 },
        token,
        plaintext,
      )

  -- Up to the check of the token: the row as it was read.
  unfoldable pub enroll_begin : ℕ → String → State → Result EnrollmentToken
  unfolding is_usable
  enroll_begin now token st = elim (find? (λ t. t.token_hash == sha256_hex token) st.tokens) [
    | none ↦ err (unauthorized "Invalid or expired enrollment token")
    | some t ↦
        if not (is_usable now t)
        then err (unauthorized "Invalid or expired enrollment token")
        else ok t
  ]

  -- `token.uses += 1; await token.save()`: one more than the row had when it was read.
  abbrev pub spend : EnrollmentToken → State → State
  spend token st = record st {
    tokens =
        update_rows (λ t. t.id == token.id) (λ t. record t { uses = token.uses + 1 }) st.tokens;
  }

  -- The node's row, and the name and id of the node; a new one is put at the end.
  unfoldable pub save_enrolled : ℕ → String → EnrollmentToken → EnrollInput → State → State × Node
  unfolding built enrolled_name
  save_enrolled now secret token input st =
      let inv = input.inventory in
      elim (find? (λ n. n.machine_id == inv.machine_id) st.nodes) [
        | some n ↦ (
          save_node n.id (reattached now (sha256_hex secret) inv token.id) st,
          reattached now (sha256_hex secret) inv token.id n,
        )
        | none ↦
            let n =
              built st.next_node now (enrolled_name input) (sha256_hex secret) inv
                input.agent_version token.id in
            (record st { nodes = st.nodes ++ n ∷ []; next_node = st.next_node + 1 }, n)
      ]

  -- The transaction and what follows it.
  unfoldable pub enroll_end : ℕ → String → EnrollmentToken → EnrollInput → State → State × Enrolled
  unfolding save_enrolled
  enroll_end now secret token input st =
      let is_there = is_some (find? (λ n. n.machine_id == input.inventory.machine_id) st.nodes) in
      let saved = save_enrolled now secret token input st in
      let n = saved.1 in
      let spent = spend token saved.0 in
      (
        tell (node_updated n.id ∷ []) (record spent {
          audit = (if is_there then "node.reenroll" else "node.enroll", n.id) ∷ spent.audit;
        }),
        record { agent_token = decimal n.id +++ "." +++ secret; node_id = n.id; name = n.name },
      )

  -- An enrolment that nothing comes in between of.
  unfoldable pub enroll : ℕ → String → EnrollInput → State → State × Result Enrolled
  unfolding enroll_begin enroll_end
  enroll now secret input st = elim (enroll_begin now input.token st) [
    | err e ↦ (st, err e)
    | ok token ↦
        ((enroll_end now secret token input st).0, ok (enroll_end now secret token input st).1)
  ]

  -- The node with an id, if the secret is its own.
  unfoldable pub known_agent : ℕ → String → State → Option Node
  known_agent id secret st = elim (find_node id st) [
    | none ↦ none
    | some n ↦ if sha256_hex secret == n.agent_secret_hash then some n else none
  ]

  -- `number_of` gives a text's number where it is a whole one.
  unfoldable pub authenticate_agent : (String → Option ℕ) → Option String → State → Option Node
  unfolding known_agent
  authenticate_agent number_of none st = none
  authenticate_agent number_of (some bearer) st =
      if not (has_char b'.' bearer) || before_char b'.' bearer == ""
      then none
      else elim (number_of (before_char b'.' bearer)) [
        | none ↦ none
        | some id ↦ if id == 0 then none else known_agent id (after_char b'.' bearer) st
      ]

unfoldable pub revoke_enrollment_token : ℕ → ℕ → State → Result State
revoke_enrollment_token now id st =
    if is_some (find? (λ t. t.id == id) st.tokens)
    then ok (record st {
      tokens = update_rows (λ t. t.id == id) (λ t. record t { revoked_at = some now }) st.tokens;
    })
    else err (not_found "Enrollment token")
