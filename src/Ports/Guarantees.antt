-- ===== src/Ports/Guarantees.antt =====
-- What a successful allocation guarantees to the instance.
use gsm.Common.{
  ℕ, ◌+◌, ◌<◌, ◌≡◌, ◌≢◌, ap, inl, inr, some, List, ◌==◌, lookup, All_lookup, Zipped, Zipped-with,
  Pairwise, Zipped-Pairwise, string_eq, nat_eq, arith, Bool-cases, Option-cases, or_else, sym, ok,
  nat_beq,
}
use gsm.Ports.{
  TemplatePort, Range, Sizes, Allocation, head_of, block_sizes, allocation, allocate_ports,
}
use gsm.Ports.Blocks.{IsFree}
use gsm.Ports.Sizes.{size_of, block_sizes_reach}
use gsm.Ports.Chosen.{Honours}
use gsm.Ports.Assign.{Located, FollowsChoice, IsRun, allocate_ports-IsRun}
use gsm.Ports.Heads.{head_of_self}

-- The allocation of one template port: its own data, a valid port that no one had, and the
-- operator's choice where there is one.
abbrev pub Serves : Sizes → List ℕ → TemplatePort → Allocation → Type 0
Serves choices used p a =
    (a ≡ allocation p a.port)
    × IsFree used a.port
    × (or_else (lookup p.name choices) a.port ≡ a.port)

-- Two template ports have places of their own: different heads, or different offsets.
abbrev pub HasOwnPlace : List TemplatePort → TemplatePort → TemplatePort → Type 0
HasOwnPlace ports p q = ¬ (
    ((head_of ports p).0.name ≡ (head_of ports q).0.name)
    × ((head_of ports p).1 ≡ (head_of ports q).1))

module _ (ports : List TemplatePort) (choices : Sizes) (used : List ℕ) (out : List Allocation)
    (run : IsRun ports choices used out) where
  open run use {placed, sound, honoured, assigned}

  size : Sizes
  size = block_sizes ports

  Reaches : TemplatePort → Type 0
  Reaches p = (head_of ports p).1 < size_of size (head_of ports p).0.name

  Located-IsFree :
      (p : TemplatePort) (a : Allocation)
      → Reaches p
      → Located ports placed.first p a
      → IsFree used a.port
  unfolding Reaches size allocation
  Located-IsFree p a r (start, found, made) =
      rw made ((sound.valid (head_of ports p).0.name start _ found (omega arith)).0)

  -- A head that was chosen a port stands at it.
  head_choice :
      (p : TemplatePort) (a : Allocation) (c : ℕ)
      → Reaches p
      → (head_of ports p).1 ≡ 0
      → Located ports placed.first p a
      → lookup p.name choices ≡ some c
      → a.port ≡ c
  unfolding Reaches size allocation
  head_choice p a c r first_offset (start, found, made) chosen =
      let same = ap (λ h. h.name) (head_of_self ports p first_offset) in
      elim (Option-cases (lookup p.name size)) [
        | inl missing ↦ absurd (ground (arith, same))
        | inr (n, entry) ↦
            let at =
              All_lookup (λ e. Honours choices placed e.0) size p.name n honoured entry c chosen in
            ground (arith, same)
      ]

  serves :
      (p : TemplatePort) (a : Allocation)
      → Located ports placed.first p a × FollowsChoice ports choices p a
      → Reaches p
      → Serves choices used p a
  unfolding allocation
  serves p a ((start, found, made), follows) r = (
    ground arith,
    Located-IsFree p a r (start, found, made),
    elim (Option-cases (lookup p.name choices)) [
      | inl unchosen ↦ rw unchosen
      | inr (c, chosen) ↦ rw chosen (
          sym (elim (Bool-cases (nat_beq (head_of ports p).1 0)) [
            | inl first ↦ head_choice p a c r (ground arith) (start, found, made) chosen
            | inr later ↦ follows c (ground arith) chosen
          ]))
    ],
  )

  Located-apart :
      (p q : TemplatePort) (a b : Allocation)
      → Located ports placed.first p a × Reaches p
      → Located ports placed.first q b × Reaches q
      → HasOwnPlace ports p q
      → a.port ≢ b.port
  unfolding Reaches size allocation
  Located-apart p q a b ((s, found, made), r) ((t, found', made'), r') own same =
      let n = (head_of ports p).0.name in
      let m = (head_of ports q).0.name in
      elim (Bool-cases (n == m)) [
        | inl e ↦ let one_head = (string_eq.test_iff n m).0 e in own (one_head, ground arith)
        | inr d ↦
            sound.apart n m s t (s + (head_of ports p).1) (λ e. cc ((string_eq.test_iff n m).1 e))
              found found' (omega arith) (ground arith)
      ]

  run-Serves : Zipped (Serves choices used) ports out
  unfolding Reaches size
  run-Serves =
      Zipped-with _ (Serves choices used) Reaches serves ports out assigned
        (block_sizes_reach ports)

  run_apart : Pairwise (HasOwnPlace ports) ports → Pairwise (λ a b. a.port ≢ b.port) out
  unfolding Reaches size
  run_apart own =
      Zipped-Pairwise _ (HasOwnPlace ports) (λ a b. a.port ≢ b.port)
        (λ p q a b r s d. Located-apart p q a b r s d) ports out
        (Zipped-with _ (λ p a. Located ports placed.first p a × Reaches p) Reaches
          (λ p a r s. (r.0, s)) ports out assigned (block_sizes_reach ports))
        own

-- When the allocation succeeds, every template port gets exactly one allocation, in order, with
-- its own name, label, protocol and primary mark; its port is between 1 and 65535, was not used on
-- the node before, and is the operator's choice whenever one was given.
pub allocate_ports-Serves :
    (ports : List TemplatePort) (choices : Sizes) (used : List ℕ) (range : Range)
    (out : List Allocation)
    → allocate_ports ports choices used range ≡ ok out
    → Zipped (Serves choices used) ports out
allocate_ports-Serves ports choices used range out e =
    run-Serves ports choices used out (allocate_ports-IsRun ports choices used range out e)

-- When the allocation succeeds and no two ports of the template share both their head and their
-- offset from it, no two of the instance's ports are the same.
pub allocate_ports_apart :
    (ports : List TemplatePort) (choices : Sizes) (used : List ℕ) (range : Range)
    (out : List Allocation)
    → Pairwise (HasOwnPlace ports) ports
    → allocate_ports ports choices used range ≡ ok out
    → Pairwise (λ a b. a.port ≢ b.port) out
allocate_ports_apart ports choices used range out own e =
    run_apart ports choices used out (allocate_ports-IsRun ports choices used range out e) own
