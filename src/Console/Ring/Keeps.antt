-- ===== src/Console/Ring/Keeps.antt =====
-- The ring buffer keeps the last lines, in order: `push` against a list that is cut at the front.
use gsm.Common.{
  ℕ, zero, suc, ◌+◌, ◌-◌, ◌%◌, ◌≤◌, ◌<◌, ◌≡◌, refl, sym, ap, ◌∙◌, inl, inr, false, List, [], ◌∷◌,
  ◌++◌, append_assoc, append-nil, length, set, take, drop, length-append, length-set, length-drop,
  length-take, drop-append, take-append-drop, ltb, Bool-cases, arith,
}
use native.Mathlib.Nat.{mod_self, mod-eq_of_lt}
use gsm.Console.Ring.{RingBuffer, IsRing, push, to_array, last}
use gsm.Console.{key_eq}

module _ {ℓ} {T : Type ℓ} where
  drop-nil : (n : ℕ) → drop {A = T} n [] ≡ []
  drop-nil zero = refl
  drop-nil (suc n) = refl

  pub drop-drop : (m k : ℕ) (xs : List T) → drop m (drop k xs) ≡ drop (k + m) xs
  drop-drop m zero xs = ap (λ i. drop i xs) {x = m} {y = 0 + m} (omega arith)
  drop-drop m (suc k) [] = drop-nil m ∙ sym (drop-nil (suc k + m))
  drop-drop m (suc k) (x ∷ xs) =
      drop-drop m k xs ∙ ap (λ i. drop i (x ∷ xs)) {x = suc (k + m)} {y = suc k + m} (omega arith)

  drop-set : (s : ℕ) (x : T) (xs : List T) → drop (suc s) (set xs s x) ≡ drop (suc s) xs
  drop-set s x [] = refl
  drop-set zero x (y ∷ xs) = refl
  drop-set (suc s) x (y ∷ xs) = drop-set s x xs

  take-set :
      (s : ℕ) (x : T) (xs : List T)
      → s < length xs
      → take (suc s) (set xs s x) ≡ take s xs ++ x ∷ []
  take-set s x [] h = absurd (omega arith)
  take-set zero x (y ∷ xs) h = refl
  take-set (suc s) x (y ∷ xs) h = ap (λ r. y ∷ r) (take-set s x xs (omega arith))

  drop_all : (n : ℕ) (xs : List T) → length xs ≤ n → drop n xs ≡ []
  drop_all zero [] h = refl
  drop_all zero (x ∷ xs) h = absurd (omega arith)
  drop_all (suc n) [] h = refl
  drop_all (suc n) (x ∷ xs) h = drop_all n xs (omega arith)

  pub last_short : (n : ℕ) (xs : List T) → length xs ≤ n → last n xs ≡ xs
  last_short n xs h = ap (λ i. drop i xs) {y = 0} (omega arith)

  pub last-append : (n : ℕ) (xs ys : List T) → last n (last n xs ++ ys) ≡ last n (xs ++ ys)
  last-append n xs ys =
      let k = length xs - n in
      ap (last n) (sym (drop-append k xs ys (omega arith)))
      ∙ drop-drop (length (drop k (xs ++ ys)) - n) k (xs ++ ys)
      ∙ ap (λ i. drop i (xs ++ ys)) (omega (arith, length-drop k (xs ++ ys), length-append xs ys))

  -- Writing over position `s` and reading from the next one on drops the item that was at `s`.
  overwrite :
      (s : ℕ) (x : T) (xs : List T)
      → s < length xs
      → drop (suc s) (set xs s x) ++ take (suc s) (set xs s x)
        ≡ drop 1 ((drop s xs ++ take s xs) ++ x ∷ [])
  overwrite s x xs h =
      rw (drop-set s x xs, take-set s x xs h, append_assoc (drop s xs) (take s xs) (x ∷ []))
        (sym (
          drop-append 1 (drop s xs) (take s xs ++ x ∷ []) (omega (arith, length-drop s xs))
          ∙ ap (λ r. r ++ (take s xs ++ x ∷ []))
              (drop-drop 1 s xs ∙ ap (λ i. drop i xs) {x = s + 1} {y = suc s} (omega arith))))

  rotate_end : (n : ℕ) (ys : List T) → length ys ≡ n → ys ++ [] ≡ drop n ys ++ take n ys
  rotate_end n ys e =
      let none_left = drop_all n ys (omega arith) in
      let all = take-append-drop n ys in
      rw none_left
        (append-nil ys ∙ sym all ∙ ap (λ r. take n ys ++ r) none_left ∙ append-nil (take n ys))

  module _ (x : T) (b : RingBuffer T) (v : IsRing b) where
    full_lem :
        ltb (length b.items) b.capacity ≡ false
        → to_array (push x b) ≡ last b.capacity (to_array b ++ x ∷ [])
    unfolding push to_array
    full_lem full =
        let s = b.start in
        let filled : length b.items ≡ b.capacity = ground (arith, v.fits) in
        let n : length (drop s b.items ++ take s b.items ++ x ∷ []) - b.capacity ≡ 1 = omega (
          arith,
          length-append (drop s b.items ++ take s b.items) (x ∷ []),
          length-append (drop s b.items) (take s b.items),
          length-drop s b.items,
          length-take s b.items,
          v.fits,
          v.inside,
        ) in
        let at = overwrite s x b.items (ground arith) in
        rw (full, n)
          (rw (length-set b.items s x) (
            rw full (elim (Bool-cases (ltb (suc s) b.capacity)) [
              | inl inner ↦
                  let on : (s + 1) % b.capacity ≡ suc s =
                    mod-eq_of_lt {n = s + 1} {m = b.capacity} (ground arith) ∙ omega arith in
                  rw on at
              | inr outer ↦
                  let back : (s + 1) % b.capacity ≡ 0 =
                    let wrap : s + 1 ≡ b.capacity = ground (arith, v.inside) in
                    ap (λ i. i % b.capacity) wrap ∙ mod_self b.capacity in
                  rw back (
                    rotate_end (suc s) (set b.items s x)
                      (ground (arith, length-set b.items s x, v.inside))
                    ∙ at)
            ])))

    -- A push keeps the last items of the list, the new one at its end, that fit.
    pub push_lem : to_array (push x b) ≡ last b.capacity (to_array b ++ x ∷ [])
    unfolding push to_array
    push_lem = elim (Bool-cases (ltb (length b.items) b.capacity)) [
      | inl room ↦
          let short =
            last_short b.capacity (b.items ++ x ∷ [])
              (ground (arith, length-append b.items (x ∷ []))) in
          rw (room, short)
            (elim (Bool-cases (ltb (length (b.items ++ x ∷ [])) b.capacity)) [
              | inl more ↦ rw more refl
              | inr now_full ↦
                  let at_zero : b.start ≡ 0 = v.growing (ground arith) in
                  rw (now_full, at_zero) (append-nil (b.items ++ x ∷ []))
            ])
      | inr full ↦ full_lem full
    ]

  pub length-to_array : (b : RingBuffer T) → IsRing b → length (to_array b) ≤ b.capacity
  unfolding to_array
  length-to_array b v = elim (Bool-cases (ltb (length b.items) b.capacity)) [
    | inl room ↦ rw room v.fits
    | inr full ↦ rw full (
        omega (
          arith,
          v.fits,
          length-append (drop b.start b.items) (take b.start b.items),
          length-drop b.start b.items,
          length-take b.start b.items,
        ))
  ]
