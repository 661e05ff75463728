-- ===== src/Ports/Chosen.antt =====
-- The invariant of the two loops that place blocks, and the first of them: the operator's choices.
use gsm.Common.{
  ℕ, ◌≡◌, ◌≢◌, sym, ◌∙◌, ◌⊎◌, inl, inr, true, none, some, List, [], ◌∷◌, String, lookup,
  lookup-insert, All, string_eq, nat_eq, arith, contains, Bool-cases, Option-cases, ok, bind-eq-ok,
  ok-injective,
}
use gsm.Ports.{Sizes, Placed, place, place_choice, place_choices, block_free, take_block}
use gsm.Ports.Blocks.{InBlock, IsFree, block_free_sound, take_block_keeps, take_block_takes}
use gsm.Ports.Sizes.{size_of, Entries}

-- Between two rounds: the placed blocks hold valid ports that were not used before and are taken
-- now, and no two of them share a port.
pub record IsSound (size : Sizes) (used : List ℕ) (s : Placed) : Type 0 where
  pub valid :
      (name : String) (port x : ℕ)
      → lookup name s.first ≡ some port
      → InBlock port (size_of size name) x
      → IsFree used x × (contains x s.taken ≡ true)
  pub apart :
      (a b : String) (p q x : ℕ)
      → a ≢ b
      → lookup a s.first ≡ some p
      → lookup b s.first ≡ some q
      → InBlock p (size_of size a) x
      → InBlock q (size_of size b) x
      → ⊥
  pub kept : (x : ℕ) → contains x used ≡ true → contains x s.taken ≡ true

pub start-IsSound :
    (size : Sizes) (used : List ℕ) → IsSound size used (record { taken = used; first = [] })
unfolding lookup
start-IsSound size used = record {
  valid = λ name port x e b. cc;
  apart = λ a b p q x d e f i j. cc;
  kept = λ x h. h;
}

module _ (size : Sizes) (used : List ℕ) (s : Placed) (name : String) (n port : ℕ)
    (entry : lookup name size ≡ some n) (free : block_free s.taken port n ≡ true)
    (sound : IsSound size used s) where
  new-IsFree : (x : ℕ) → InBlock port (size_of size name) x → IsFree s.taken x
  new-IsFree x b = block_free_sound s.taken port n x free (rw entry at b)

  new_unused : (x : ℕ) → IsFree s.taken x → IsFree used x
  new_unused x f = elim (Bool-cases (contains x used)) [
    | inl u ↦ absurd (ground (arith, sound.kept x u))
    | inr u ↦ ground arith
  ]

  new_taken :
      (x : ℕ) → InBlock port (size_of size name) x → contains x (take_block s.taken port n) ≡ true
  new_taken x b = take_block_takes s.taken port n x (rw entry at b)

  -- What a lookup finds after the placing.
  placed_cases :
      (a : String) (p : ℕ)
      → lookup a (place name port n s).first ≡ some p
      → ((name ≡ a) × (port ≡ p)) ⊎ ((name ≢ a) × (lookup a s.first ≡ some p))
  unfolding place
  placed_cases a p e = ground (arith, string_eq.test_iff name a, lookup-insert name a port s.first)

  place_valid :
      (a : String) (p x : ℕ)
      → lookup a (place name port n s).first ≡ some p
      → InBlock p (size_of size a) x
      → IsFree used x × (contains x (take_block s.taken port n) ≡ true)
  place_valid a p x e b = elim (placed_cases a p e) [
    | inl (same, at) ↦
        let b' : InBlock port (size_of size name) x = rw (same, at) b in
        (new_unused x (new-IsFree x b'), new_taken x b')
    | inr (other, before) ↦
        let (free_x, taken_x) = sound.valid a p x before b in
        (free_x, take_block_keeps s.taken port n x taken_x)
  ]

  -- A port of the new block is in no block placed before.
  new_apart :
      (b : String) (q x : ℕ)
      → lookup b s.first ≡ some q
      → InBlock port (size_of size name) x
      → InBlock q (size_of size b) x
      → ⊥
  new_apart b q x f i j = ground (arith, new-IsFree x i, sound.valid b q x f j)

  place_apart :
      (a b : String) (p q x : ℕ)
      → a ≢ b
      → lookup a (place name port n s).first ≡ some p
      → lookup b (place name port n s).first ≡ some q
      → InBlock p (size_of size a) x
      → InBlock q (size_of size b) x
      → ⊥
  place_apart a b p q x d e f i j = elim (placed_cases a p e) [
    | inl (same, at) ↦ elim (placed_cases b q f) [
      | inl (same', at') ↦ d (sym same ∙ same')
      | inr (other, before) ↦ new_apart b q x before (rw (same, at) i) j
    ]
    | inr (other, before) ↦ elim (placed_cases b q f) [
      | inl (same', at') ↦ new_apart a p x before (rw (same', at') j) i
      | inr (other', before') ↦ sound.apart a b p q x d before before' i j
    ]
  ]

  pub place-IsSound : IsSound size used (place name port n s)
  place-IsSound = record {
    valid = unfold place in place_valid;
    apart = place_apart;
    kept = unfold place in λ x h. take_block_keeps s.taken port n x (sound.kept x h);
  }

-- How a round of either loop may change the state: a block of free ports is placed, or nothing is.
abbrev pub Outcome : String → ℕ → Placed → Placed → Type 0
Outcome name n s t =
    (t ≡ s) ⊎ ((port : ℕ) × (block_free s.taken port n ≡ true) × (t ≡ place name port n s))

pub Outcome-IsSound :
    (size : Sizes) (used : List ℕ) (name : String) (n : ℕ) (s t : Placed)
    → lookup name size ≡ some n
    → Outcome name n s t
    → IsSound size used s
    → IsSound size used t
Outcome-IsSound size used name n s t entry (inl same) sound = rw same sound
Outcome-IsSound size used name n s t entry (inr (port, free, placed)) sound =
    rw placed (place-IsSound size used s name n port entry free sound)

module _ (choices : Sizes) where
  -- What a successful round did.
  place_choice_cases :
      (name : String) (n : ℕ) (s t : Placed)
      → place_choice choices name n s ≡ ok t
      → ((lookup name choices ≡ none) × (t ≡ s))
        ⊎ ((port : ℕ) × (lookup name choices ≡ some port)
            × (block_free s.taken port n ≡ true)
            × (t ≡ place name port n s))
  unfolding place_choice
  place_choice_cases name n s t e = elim (Option-cases (lookup name choices)) [
    | inl unchosen ↦ inl (ground arith)
    | inr (port, chosen) ↦ inr (port, chosen, ground arith, ground arith)
  ]

  place_choice-Outcome :
      (name : String) (n : ℕ) (s t : Placed)
      → place_choice choices name n s ≡ ok t
      → Outcome name n s t
  place_choice-Outcome name n s t e = elim (place_choice_cases name n s t e) [
    | inl (_, same) ↦ inl same
    | inr (port, _, free, placed) ↦ inr (port, free, placed)
  ]

  pub place_choices-IsSound :
      (size : Sizes) (used : List ℕ) (entries : Sizes) (s t : Placed)
      → Entries size entries
      → IsSound size used s
      → place_choices choices entries s ≡ ok t
      → IsSound size used t
  unfolding place_choices
  place_choices-IsSound size used [] s t all sound e = ground arith
  place_choices-IsSound size used ((name, n) ∷ entries) s t ((entry, pos), all) sound e =
      let (s', step, rest) = bind-eq-ok (place_choice choices name n s) _ e in
      place_choices-IsSound size used entries s' t all
        (Outcome-IsSound size used name n s s' entry (place_choice-Outcome name n s s' step) sound)
        rest

  -- `name` stands where the operator put it.
  abbrev pub Honours : Placed → String → Type 0
  Honours s name = (c : ℕ) → lookup name choices ≡ some c → lookup name s.first ≡ some c

  place_choice-Honours :
      (name : String) (n : ℕ) (s t : Placed) (a : String)
      → place_choice choices name n s ≡ ok t
      → Honours s a
      → Honours t a
  unfolding place
  place_choice-Honours name n s t a e h c chosen = elim (place_choice_cases name n s t e) [
    | inl (_, same) ↦ rw same (h c chosen)
    | inr (port, at, _, placed) ↦
        ground (arith, string_eq.test_iff name a, lookup-insert name a port s.first, h c chosen)
  ]

  place_choice-Honours_self :
      (name : String) (n : ℕ) (s t : Placed) → place_choice choices name n s ≡ ok t → Honours t name
  unfolding place
  place_choice-Honours_self name n s t e c chosen = elim (place_choice_cases name n s t e) [
    | inl (unchosen, _) ↦ cc
    | inr (port, at, _, placed) ↦
        ground (arith, string_eq.test_iff name name, lookup-insert name name port s.first)
  ]

  place_choices_keep :
      (entries : Sizes) (s t : Placed) (a : String)
      → place_choices choices entries s ≡ ok t
      → Honours s a
      → Honours t a
  unfolding place_choices
  place_choices_keep [] s t a e h = rw (ok-injective e) at h
  place_choices_keep ((name, n) ∷ entries) s t a e h =
      let (s', step, rest) = bind-eq-ok (place_choice choices name n s) _ e in
      place_choices_keep entries s' t a rest (place_choice-Honours name n s s' a step h)

  -- After the first loop every chosen head stands at its choice.
  pub place_choices-Honours :
      (entries : Sizes) (s t : Placed)
      → place_choices choices entries s ≡ ok t
      → All (λ e. Honours t e.0) entries
  unfolding place_choices
  place_choices-Honours [] s t e = tt
  place_choices-Honours ((name, n) ∷ entries) s t e =
      let (s', step, rest) = bind-eq-ok (place_choice choices name n s) _ e in
      (
        place_choices_keep entries s' t name rest (place_choice-Honours_self name n s s' step),
        place_choices-Honours entries s' t rest,
      )
