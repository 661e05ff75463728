-- ===== src/Console/Ring.antt =====
-- The class `RingBuffer`: a fixed number of items, of which the oldest is overwritten.
pub mod Keeps
use gsm.Common.{
  ℕ, zero, suc, ◌+◌, ◌-◌, ◌%◌, ◌≤◌, ◌<◌, ◌≡◌, refl, sym, ap, ◌∙◌, inl, inr, Bool, true, false, List,
  [], ◌∷◌, ◌++◌, append_assoc, length, set, take, drop, length-append, length-set, length-drop,
  length-take, drop-append, take-append-drop, ltb, if◌then◌else◌, Bool-cases, arith,
}

pub record RingBuffer {ℓ} (T : Type ℓ) : Type ℓ where
  pub capacity : ℕ
  pub items : List T
  pub start : ℕ

module _ {ℓ} {T : Type ℓ} where
  unfoldable pub new_buffer : ℕ → RingBuffer T
  new_buffer capacity = record { capacity = capacity; items = []; start = 0 }

  unfoldable pub push : T → RingBuffer T → RingBuffer T
  push item b =
      if ltb (length b.items) b.capacity
      then record b { items = b.items ++ item ∷ [] }
      else record b { items = set b.items b.start item; start = (b.start + 1) % b.capacity }

  -- Oldest first.
  unfoldable pub to_array : RingBuffer T → List T
  to_array b =
      if ltb (length b.items) b.capacity
      then b.items
      else drop b.start b.items ++ take b.start b.items

  pub clear_buffer : RingBuffer T → RingBuffer T
  clear_buffer b = record b { items = []; start = 0 }

-- Between two operations: a buffer of at least one item that fits; until it is full it starts at 0.
pub record IsRing {ℓ} {T : Type ℓ} (b : RingBuffer T) : Type 0 where
  pub room : 0 < b.capacity
  pub fits : length b.items ≤ b.capacity
  pub inside : b.start < b.capacity
  pub growing : length b.items < b.capacity → b.start ≡ 0

-- The last `n` of a list.
abbrev pub last {ℓ} : {T : Type ℓ} → ℕ → List T → List T
last n xs = drop (length xs - n) xs

module _ {ℓ} {T : Type ℓ} where
  pub new_buffer-IsRing : (n : ℕ) → 0 < n → IsRing (new_buffer {T = T} n)
  unfolding new_buffer
  new_buffer-IsRing n h = ground arith

  pub push-IsRing : (x : T) (b : RingBuffer T) → IsRing b → IsRing (push x b)
  unfolding push
  push-IsRing x b v = ground (arith, length-append b.items (x ∷ []), length-set b.items b.start x)

  pub push-capacity : (x : T) (b : RingBuffer T) → (push x b).capacity ≡ b.capacity
  unfolding push
  push-capacity x b = ground arith

  pub to_array-new_buffer :
      (n : ℕ)
      → 0 < n
      → (to_array (new_buffer {T = T} n) ≡ []) × ((new_buffer {T = T} n).capacity ≡ n)
  unfolding new_buffer to_array
  to_array-new_buffer n h = (ground arith, refl)
