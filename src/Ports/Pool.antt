-- ===== src/Ports/Pool.antt =====
-- The second loop: blocks that were not chosen come from the template's default or the pool.
use gsm.Common.{
  ℕ, ◌+◌, ◌-◌, ◌≤◌, ◌≡◌, sym, ap, subst, ◌⊎◌, inl, inr, true, false, some, List, [], ◌∷◌, String,
  lookup, has, lookup-insert, All, string_eq, nat_eq, arith, Bool-cases, Option-cases, ok, err,
  bind-eq-ok, ok-injective, HttpError,
}
use gsm.Ports.{
  PortMap, Range, Sizes, Placed, place, pick, place_block, place_blocks, block_free, default_fits,
}
use gsm.Ports.Blocks.{advance_free, advance_exhausted}
use gsm.Ports.Sizes.{Entries}
use gsm.Ports.Chosen.{Outcome, IsSound, Outcome-IsSound}

module _ (range : Range) (taken : List ℕ) (n wanted cursor : ℕ) where
  -- A picked block is free.
  pick_free :
      (port cursor' : ℕ)
      → 1 ≤ n
      → pick range taken n wanted cursor ≡ ok (port, cursor')
      → block_free taken port n ≡ true
  unfolding pick default_fits
  pick_free port cursor' pos e = ground (arith, advance_free taken range.end n cursor pos)

  -- It lies inside the node's range, at or after the cursor unless it is the default.
  pick_in_range :
      (port cursor' : ℕ)
      → pick range taken n wanted cursor ≡ ok (port, cursor')
      → port + n - 1 ≤ range.end
  unfolding pick default_fits
  pick_in_range port cursor' e = ground arith

  -- The pool is refused only when no block from the cursor on is free.
  pick_refused :
      (e : HttpError) (x : ℕ)
      → 1 ≤ n
      → pick range taken n wanted cursor ≡ err e
      → cursor ≤ x
      → x + n - 1 ≤ range.end
      → block_free taken x n ≡ false
  unfolding pick
  pick_refused e x pos refused c le =
      ground (arith, advance_exhausted taken range.end n cursor x pos)

module _ (m : PortMap) (range : Range) where
  place_block_cases :
      (name : String) (n cursor : ℕ) (s : Placed) (cursor' : ℕ) (t : Placed)
      → 1 ≤ n
      → place_block m range name n (cursor, s) ≡ ok (cursor', t)
      → ((has name s.first ≡ true) × (t ≡ s))
        ⊎ ((port : ℕ) × (has name s.first ≡ false)
            × (block_free s.taken port n ≡ true)
            × (t ≡ place name port n s))
  unfolding place_block
  place_block_cases name n cursor s cursor' t pos e = elim (Bool-cases (has name s.first)) [
    | inl there ↦ inl (ground arith)
    | inr new ↦ elim (Option-cases (lookup name m)) [
      | inl missing ↦ absurd (ground arith)
      | inr (p, found) ↦
          let ((port, cursor''), picked, rest) =
            bind-eq-ok (pick range s.taken n p.preset cursor) _
              (rw (new, found, place_block) at e) in
          inr (
            port,
            new,
            pick_free range s.taken n p.preset cursor port cursor'' pos picked,
            sym (ap (λ r. r.1) (ok-injective rest)),
          )
    ]
  ]

  place_block-Outcome :
      (name : String) (n cursor : ℕ) (s : Placed) (cursor' : ℕ) (t : Placed)
      → 1 ≤ n
      → place_block m range name n (cursor, s) ≡ ok (cursor', t)
      → Outcome name n s t
  place_block-Outcome name n cursor s cursor' t pos e =
      elim (place_block_cases name n cursor s cursor' t pos e) [
        | inl (_, same) ↦ inl same
        | inr (port, _, free, placed) ↦ inr (port, free, placed)
      ]

  -- A head that stands somewhere stays there.
  place_block_keeps :
      (name : String) (n cursor : ℕ) (s : Placed) (cursor' : ℕ) (t : Placed) (a : String) (p : ℕ)
      → 1 ≤ n
      → place_block m range name n (cursor, s) ≡ ok (cursor', t)
      → lookup a s.first ≡ some p
      → lookup a t.first ≡ some p
  unfolding place
  place_block_keeps name n cursor s cursor' t a p pos e h =
      elim (place_block_cases name n cursor s cursor' t pos e) [
        | inl (_, same) ↦ rw same h
        | inr (port, new, _, placed) ↦
            ground (arith, string_eq.test_iff name a, lookup-insert name a port s.first)
      ]

  place_block-has :
      (name : String) (n cursor : ℕ) (s : Placed) (cursor' : ℕ) (t : Placed)
      → 1 ≤ n
      → place_block m range name n (cursor, s) ≡ ok (cursor', t)
      → has name t.first ≡ true
  unfolding place
  place_block-has name n cursor s cursor' t pos e =
      elim (place_block_cases name n cursor s cursor' t pos e) [
        | inl (there, same) ↦ rw same there
        | inr (port, new, _, placed) ↦
            ground (arith, string_eq.test_iff name name, lookup-insert name name port s.first)
      ]

  pub place_blocks_keep :
      (entries : Sizes) (cursor : ℕ) (s : Placed) (cursor' : ℕ) (t : Placed) (a : String) (p : ℕ)
      → All (λ e. 1 ≤ e.1) entries
      → place_blocks m range entries (cursor, s) ≡ ok (cursor', t)
      → lookup a s.first ≡ some p
      → lookup a t.first ≡ some p
  unfolding place_blocks
  place_blocks_keep [] cursor s cursor' t a p all e h = rw (ap (λ r. r.1) (ok-injective e)) at h
  place_blocks_keep ((name, n) ∷ entries) cursor s cursor' t a p (pos, all) e h =
      let ((c, s'), step, rest) = bind-eq-ok (place_block m range name n (cursor, s)) _ e in
      place_blocks_keep entries c s' cursor' t a p all rest
        (place_block_keeps name n cursor s c s' a p pos step h)

  pub place_blocks-IsSound :
      (size : Sizes) (used : List ℕ) (entries : Sizes) (cursor : ℕ) (s : Placed) (cursor' : ℕ)
      (t : Placed)
      → Entries size entries
      → IsSound size used s
      → place_blocks m range entries (cursor, s) ≡ ok (cursor', t)
      → IsSound size used t
  unfolding place_blocks
  place_blocks-IsSound size used [] cursor s cursor' t all sound e =
      subst (IsSound size used) (ap (λ r. r.1) (ok-injective e)) sound
  place_blocks-IsSound size used ((name, n) ∷ entries) cursor s cursor' t ((entry, pos), all) sound
        e =
      let ((c, s'), step, rest) = bind-eq-ok (place_block m range name n (cursor, s)) _ e in
      place_blocks-IsSound size used entries c s' cursor' t all
        (Outcome-IsSound size used name n s s' entry
          (place_block-Outcome name n cursor s c s' pos step) sound)
        rest

  -- After the second loop every head stands somewhere.
  pub place_blocks_has :
      (entries : Sizes) (cursor : ℕ) (s : Placed) (cursor' : ℕ) (t : Placed)
      → All (λ e. 1 ≤ e.1) entries
      → place_blocks m range entries (cursor, s) ≡ ok (cursor', t)
      → All (λ e. (p : ℕ) × (lookup e.0 t.first ≡ some p)) entries
  unfolding place_blocks
  place_blocks_has [] cursor s cursor' t all e = tt
  place_blocks_has ((name, n) ∷ entries) cursor s cursor' t (pos, all) e =
      let ((c, s'), step, rest) = bind-eq-ok (place_block m range name n (cursor, s)) _ e in
      (
        elim (Option-cases (lookup name s'.first)) [
          | inl missing ↦ absurd (ground (arith, place_block-has name n cursor s c s' pos step))
          | inr (p, found) ↦ (p, place_blocks_keep entries c s' cursor' t name p all rest found)
        ],
        place_blocks_has entries c s' cursor' t all rest,
      )
