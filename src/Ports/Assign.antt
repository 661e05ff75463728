-- ===== src/Ports/Assign.antt =====
-- The last `map`: each port is its head's port plus its offset, and what the whole allocation
-- guarantees.
use gsm.Common.{
  ℕ, ◌+◌, ◌<◌, ◌≡◌, subst, inl, inr, some, List, [], ◌∷◌, lookup, All, All-zip, All-map, Zipped,
  string_eq, nat_eq, arith, Option-cases, ok, bind-eq-ok, ok-injective,
}
use gsm.Ports.{
  TemplatePort, Range, Sizes, Placed, Allocation, head_of, by_name, block_sizes, check_choices,
  place_choices, place_blocks, chosen_differs, allocation, assign, assign_all, allocate_ports,
}
use gsm.Ports.Sizes.{block_sizes-Entries}
use gsm.Ports.Chosen.{IsSound, start-IsSound, place_choices-IsSound, place_choices-Honours, Honours}
use gsm.Ports.Pool.{place_blocks-IsSound, place_blocks_keep}

-- The allocation of a port, by the port of its head.
abbrev pub Located : List TemplatePort → Sizes → TemplatePort → Allocation → Type 0
Located all first p a =
    (start : ℕ) × (lookup (head_of all p).0.name first ≡ some start)
    × (a ≡ allocation p (start + (head_of all p).1))

-- A follower that was chosen a port got that one.
abbrev pub FollowsChoice : List TemplatePort → Sizes → TemplatePort → Allocation → Type 0
FollowsChoice all choices p a =
    (c : ℕ) → 0 < (head_of all p).1 → lookup p.name choices ≡ some c → a.port ≡ c

module _ (all : List TemplatePort) (choices first : Sizes) where
  assign-Located :
      (p : TemplatePort) (a : Allocation)
      → assign choices first p (head_of all p) ≡ ok a
      → Located all first p a
  unfolding assign
  assign-Located p a e = elim (Option-cases (lookup (head_of all p).0.name first)) [
    | inl missing ↦ absurd (ground arith)
    | inr (start, found) ↦ (start, found, ground arith)
  ]

  assign-FollowsChoice :
      (p : TemplatePort) (a : Allocation)
      → assign choices first p (head_of all p) ≡ ok a
      → FollowsChoice all choices p a
  unfolding assign chosen_differs allocation
  assign-FollowsChoice p a e c pos chosen = ground arith

  assign_all-Zipped :
      (ports : List TemplatePort) (out : List Allocation)
      → assign_all all choices first ports ≡ ok out
      → Zipped (λ p a. Located all first p a × FollowsChoice all choices p a) ports out
  unfolding assign_all
  assign_all-Zipped [] out e =
      subst (Zipped (λ p a. Located all first p a × FollowsChoice all choices p a) [])
        (ok-injective e) tt
  assign_all-Zipped (p ∷ ports) out e =
      let (a, here, rest) = bind-eq-ok (assign choices first p (head_of all p)) _ e in
      let (out', later, same) = bind-eq-ok (assign_all all choices first ports) _ rest in
      subst (Zipped (λ p a. Located all first p a × FollowsChoice all choices p a) (p ∷ ports))
        (ok-injective same)
        (
          (assign-Located p a here, assign-FollowsChoice p a here),
          assign_all-Zipped ports out' later,
        )

-- What a successful allocation went through.
pub record IsRun (ports : List TemplatePort) (choices : Sizes) (used : List ℕ)
    (out : List Allocation) : Type 0 where
  pub placed : Placed
  pub sound : IsSound (block_sizes ports) used placed
  pub honoured : All (λ e. Honours choices placed e.0) (block_sizes ports)
  pub assigned :
      Zipped (λ p a. Located ports placed.first p a × FollowsChoice ports choices p a) ports out

pub allocate_ports-IsRun :
    (ports : List TemplatePort) (choices : Sizes) (used : List ℕ) (range : Range)
    (out : List Allocation)
    → allocate_ports ports choices used range ≡ ok out
    → IsRun ports choices used out
unfolding allocate_ports
allocate_ports-IsRun ports choices used range out e =
    let size = block_sizes ports in
    let entries = block_sizes-Entries ports in
    let start : Placed = record { taken = used; first = [] } in
    let (_, checked, e₁) = bind-eq-ok (check_choices (by_name ports) choices) _ e in
    let (s, chosen, e₂) = bind-eq-ok (place_choices choices size start) _ e₁ in
    let ((cursor, t), pooled, e₃) =
      bind-eq-ok (place_blocks (by_name ports) range size (range.start, s)) _ e₂ in
    let sound =
      place_choices-IsSound choices size used size start s entries (start-IsSound size used)
        chosen in
    record {
      placed = t;
      sound =
          place_blocks-IsSound (by_name ports) range size used size range.start s cursor t entries
            sound pooled;
      honoured =
          All-zip _ size
            (λ x h (_, pos) c at.
              place_blocks_keep (by_name ports) range size range.start s cursor t x.0 c
                (All-map size (λ x p. p.1) entries) pooled (h c at))
            (place_choices-Honours choices size start s chosen) entries;
      assigned = assign_all-Zipped ports choices t.first ports out e₃;
    }
