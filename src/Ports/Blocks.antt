-- ===== src/Ports/Blocks.antt =====
-- Blocks of consecutive ports: what `blockFree` promises, what `take` changes, where the cursor of
-- the pool stops.
use gsm.Common.{
  ℕ, zero, suc, ◌+◌, ◌-◌, ◌≤◌, ◌<◌, ◌≡◌, refl, subst, true, false, not, ◌&&◌, ◌⊎◌, inl, inr, List,
  ◌∷◌, leb, ◌==◌, contains, Bool-cases, arith, nat_eq, nat_beq_iff,
}
use gsm.Ports.{block_free, take_block, seek, advance}

-- `x` is one of the `n` ports from `start`.
abbrev pub InBlock : ℕ → ℕ → ℕ → Type 0
InBlock start n x = (start ≤ x) × (x < start + n)

-- A port that may be handed out: a valid number that no one has.
abbrev pub IsFree : List ℕ → ℕ → Type 0
IsFree taken x = (1 ≤ x) × (x ≤ 65535) × (contains x taken ≡ false)

block_free_first :
    (taken : List ℕ) (start n : ℕ)
    → block_free taken start (suc n) ≡ true
    → IsFree taken start × (block_free taken (start + 1) n ≡ true)
unfolding block_free
block_free_first taken start n h = ground arith

pub block_free_sound :
    (taken : List ℕ) (start n x : ℕ)
    → block_free taken start n ≡ true
    → InBlock start n x
    → IsFree taken x
block_free_sound taken start zero x h b = absurd (omega arith)
block_free_sound taken start (suc n) x h b =
    let (here, later) = block_free_first taken start n h in
    elim (Bool-cases (start == x)) [
      | inl e ↦ subst (IsFree taken) ((nat_beq_iff start x).0 e) here
      | inr d ↦ block_free_sound taken (start + 1) n x later (ground arith)
    ]

-- The other direction: a block of free ports passes the test.
pub block_free_complete :
    (taken : List ℕ) (start n : ℕ)
    → ((x : ℕ) → InBlock start n x → IsFree taken x)
    → block_free taken start n ≡ true
unfolding block_free
block_free_complete taken start zero h = refl
block_free_complete taken start (suc n) h =
    let here = h start (omega arith) in
    ground (
      arith,
      block_free_complete taken (start + 1) n
          (λ (x : ℕ) (b : InBlock (start + 1) n x). h x (omega arith)),
    )

pub take_block_keeps :
    (taken : List ℕ) (start n x : ℕ)
    → contains x taken ≡ true
    → contains x (take_block taken start n) ≡ true
unfolding take_block
take_block_keeps taken start zero x h = h
take_block_keeps taken start (suc n) x h =
    take_block_keeps (start ∷ taken) (start + 1) n x (ground arith)

pub take_block_takes :
    (taken : List ℕ) (start n x : ℕ)
    → InBlock start n x
    → contains x (take_block taken start n) ≡ true
unfolding take_block
take_block_takes taken start zero x b = absurd (omega arith)
take_block_takes taken start (suc n) x b = elim (Bool-cases (start == x)) [
  | inl e ↦ take_block_keeps (start ∷ taken) (start + 1) n x (ground arith)
  | inr d ↦ take_block_takes (start ∷ taken) (start + 1) n x (ground arith)
]

-- `take` takes nothing else.
pub take_block_only :
    (taken : List ℕ) (start n x : ℕ)
    → contains x (take_block taken start n) ≡ true
    → (contains x taken ≡ true) ⊎ InBlock start n x
unfolding take_block
take_block_only taken start zero x h = inl h
take_block_only taken start (suc n) x h = elim (take_block_only (start ∷ taken) (start + 1) n x h) [
  | inl here ↦ ground arith
  | inr b ↦ inr (omega arith)
]

-- The cursor does not go back, and with enough fuel it stops by the loop's own test.
seek_stops :
    (fuel : ℕ) (taken : List ℕ) (end n cursor : ℕ)
    → 1 ≤ n
    → end < cursor + fuel
    → (cursor ≤ seek fuel taken end n cursor)
      × ((leb (seek fuel taken end n cursor + n - 1) end
            && not (block_free taken (seek fuel taken end n cursor) n))
          ≡ false)
unfolding seek
seek_stops zero taken end n cursor p h = ground arith
seek_stops (suc fuel) taken end n cursor p h =
    ground (arith, seek_stops fuel taken end n (cursor + 1) p)

seek_first :
    (fuel : ℕ) (taken : List ℕ) (end n cursor x : ℕ)
    → cursor ≤ x
    → x < seek (suc fuel) taken end n cursor
    → (block_free taken cursor n ≡ false) × (x < seek fuel taken end n (cursor + 1))
unfolding seek
seek_first fuel taken end n cursor x p h = ground arith

-- Every block that the cursor passed holds a port that is not free.
seek_passed :
    (fuel : ℕ) (taken : List ℕ) (end n cursor x : ℕ)
    → cursor ≤ x
    → x < seek fuel taken end n cursor
    → block_free taken x n ≡ false
unfolding seek
seek_passed zero taken end n cursor x p h = absurd (omega arith)
seek_passed (suc fuel) taken end n cursor x p h =
    let (here, later) = seek_first fuel taken end n cursor x p h in
    elim (Bool-cases (cursor == x)) [
      | inl e ↦ subst (λ c. block_free taken c n ≡ false) ((nat_beq_iff cursor x).0 e) here
      | inr d ↦ seek_passed fuel taken end n (cursor + 1) x (ground arith) later
    ]

pub advance_free :
    (taken : List ℕ) (end n cursor : ℕ)
    → 1 ≤ n
    → advance taken end n cursor + n - 1 ≤ end
    → block_free taken (advance taken end n cursor) n ≡ true
unfolding advance
advance_free taken end n cursor p h =
    ground (arith, seek_stops (end + 1 - cursor) taken end n cursor p)

-- If the cursor runs past the end, no block from it on was free.
pub advance_exhausted :
    (taken : List ℕ) (end n cursor x : ℕ)
    → 1 ≤ n
    → end < advance taken end n cursor + n - 1
    → cursor ≤ x
    → x + n - 1 ≤ end
    → block_free taken x n ≡ false
unfolding advance
advance_exhausted taken end n cursor x p h c le =
    seek_passed (end + 1 - cursor) taken end n cursor x c (omega arith)

pub advance_ge : (taken : List ℕ) (end n cursor : ℕ) → 1 ≤ n → cursor ≤ advance taken end n cursor
unfolding advance
advance_ge taken end n cursor p =
    (seek_stops (end + 1 - cursor) taken end n cursor p (omega arith)).0
