-- ===== src/Console/History.antt =====
-- What `tail` shows of the lines that were appended.
use gsm.Common.{
  ℕ, ◌+◌, Bool, ◌<◌, ◌-◌, ◌≡◌, refl, sym, ap, ◌∙◌, subst, inl, inr, true, false, List, [], ◌∷◌,
  ◌++◌, append_assoc, append-nil, length, drop, ◌==◌, lookup, lookup-insert, Option, none, some,
  if◌then◌else◌, arith, Bool-cases, min, length-drop,
}
use gsm.Console.Ring.{
  RingBuffer, IsRing, push, to_array, last, push-IsRing, new_buffer-IsRing, push-capacity,
  to_array-new_buffer,
}
use gsm.Console.Ring.Keeps.{push_lem, last-append, last_short, drop-drop}
use gsm.Console.{ConsoleHistory, Key, key_eq, push_all, buffer_or_new, append, lines_of, tail}

module _ {ℓ} {Line : Type ℓ} where
  -- A buffer of capacity `c` that holds the last of the lines `xs`; no buffer if there were none.
  Kept : ℕ → Option (RingBuffer Line) → List Line → Type ℓ
  Kept c none xs = xs ≡ []
  Kept c (some b) xs = IsRing b × (b.capacity ≡ c) × (to_array b ≡ last c xs)

  push-Kept :
      (c : ℕ) (b : RingBuffer Line) (xs : List Line) (x : Line)
      → Kept c (some b) xs
      → Kept c (some (push x b)) (xs ++ x ∷ [])
  unfolding Kept
  push-Kept c b xs x (v, room, held) = (
    push-IsRing x b v,
    push-capacity x b ∙ room,
    push_lem x b v
        ∙ ap (λ l. last b.capacity (l ++ x ∷ [])) held
        ∙ ap (λ m. last m (last c xs ++ x ∷ [])) room
        ∙ last-append c xs (x ∷ []),
  )

  push_all-Kept :
      (c : ℕ) (ls : List Line) (b : RingBuffer Line) (xs : List Line)
      → Kept c (some b) xs
      → Kept c (some (push_all ls b)) (xs ++ ls)
  unfolding push_all
  push_all-Kept c [] b xs k = rw (append-nil xs) k
  push_all-Kept c (l ∷ ls) b xs k =
      subst (Kept c (some (push_all ls (push l b)))) (append_assoc xs (l ∷ []) ls)
        (push_all-Kept c ls (push l b) (xs ++ l ∷ []) (push-Kept c b xs l k))

  buffer-Kept :
      (c : ℕ) (o : Option (RingBuffer Line)) (xs : List Line)
      → 0 < c
      → Kept c o xs
      → Kept c (some (buffer_or_new c o)) xs
  unfolding buffer_or_new Kept
  buffer-Kept c none xs pos e =
      let (at, room) = to_array-new_buffer c pos in
      (new_buffer-IsRing c pos, room, at ∙ sym (ap (last c) e ∙ last_short c [] (omega arith)))
  buffer-Kept c (some b) xs pos k = k

  -- The lines that a sequence of appends gives one key, in order, and the history they leave.
  abbrev pub lines_to : Key → List (Key × List Line) → List Line
  lines_to key [] = []
  lines_to key ((k, lines) ∷ calls) =
      let rest = lines_to key calls in if k == key then lines ++ rest else rest

  abbrev pub append_all : List (Key × List Line) → ConsoleHistory Line → ConsoleHistory Line
  append_all [] h = h
  append_all ((k, lines) ∷ calls) h = append_all calls (append k lines h)

  append-Kept :
      (key k : Key) (lines xs : List Line) (h : ConsoleHistory Line)
      → 0 < h.capacity
      → Kept h.capacity (lookup key h.buffers) xs
      → Kept h.capacity
          (lookup key (append k lines h).buffers)
          (if k == key then xs ++ lines else xs)
  unfolding append
  append-Kept key k lines xs h pos kept =
      rw
        (lookup-insert k key (push_all lines (buffer_or_new h.capacity (lookup k h.buffers)))
          h.buffers)
        (elim (Bool-cases (k == key)) [
          | inl same ↦
              rw same
                let one : k ≡ key = (key_eq.test_iff k key).0 same in
                  push_all-Kept h.capacity lines (buffer_or_new h.capacity (lookup k h.buffers)) xs
                    (buffer-Kept h.capacity (lookup k h.buffers) xs pos
                      (subst (λ i. Kept h.capacity (lookup i h.buffers) xs) (sym one) kept))
          | inr other ↦ rw other kept
        ])

  told_once :
      (t : Bool) (xs lines rest : List Line)
      → (if t then xs ++ lines else xs) ++ rest ≡ xs ++ (if t then lines ++ rest else rest)
  told_once true xs lines rest = append_assoc xs lines rest
  told_once false xs lines rest = refl

  append_all-Kept :
      (key : Key) (calls : List (Key × List Line)) (xs : List Line) (h : ConsoleHistory Line)
      → 0 < h.capacity
      → Kept h.capacity (lookup key h.buffers) xs
      → Kept h.capacity (lookup key (append_all calls h).buffers) (xs ++ lines_to key calls)
  unfolding append
  append_all-Kept key [] xs h pos kept = rw (append-nil xs) kept
  append_all-Kept key ((k, lines) ∷ calls) xs h pos kept =
      subst (Kept h.capacity (lookup key (append_all calls (append k lines h)).buffers))
        (told_once (k == key) xs lines (lines_to key calls))
        (append_all-Kept key calls (if k == key then xs ++ lines else xs) (append k lines h) pos
          (append-Kept key k lines xs h pos kept))

  tail-Kept :
      (c n : ℕ) (o : Option (RingBuffer Line)) (xs : List Line)
      → Kept c o xs
      → last n (lines_of o) ≡ last (min n c) xs
  unfolding Kept lines_of
  tail-Kept c n none xs e =
      rw e (last_short n [] (omega arith) ∙ sym (last_short (min n c) [] (omega arith)))
  tail-Kept c n (some b) xs (v, room, held) = rw held (
      drop-drop (length (last c xs) - n) (length xs - c) xs
      ∙ ap (λ i. drop i xs) {x = (length xs - c) + (length (last c xs) - n)}
          {y = length xs - min n c} (omega (arith, length-drop (length xs - c) xs)))

-- After any appends to an empty history of capacity at least 1, the tail of a console is the last
-- of the lines appended to it, in order: as many as asked for, or as the capacity keeps if that is
-- less.
pub tail-append_all {ℓ} :
    {Line : Type ℓ} (calls : List (Key × List Line)) (capacity n : ℕ) (key : Key)
    → 0 < capacity
    → tail key n (append_all calls (record { buffers = []; capacity = capacity }))
      ≡ last (min n capacity) (lines_to key calls)
unfolding tail
tail-append_all calls capacity n key pos = tail-Kept capacity n _ (lines_to key calls) (
    append_all-Kept key calls [] (record { buffers = []; capacity = capacity }) pos
      (unfold Kept lookup in refl))
