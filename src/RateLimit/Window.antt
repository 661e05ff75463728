-- ===== src/RateLimit/Window.antt =====
-- How many checks of a key pass within one window.
use gsm.Common.{
  ℕ, suc, ◌<◌, ◌+◌, ◌-◌, max, ◌≡◌, refl, inl, inr, true, false, Option, none, some, List, [], ◌∷◌,
  String, ltb, leb, ◌==◌, if◌then◌else◌, lookup, lookup-insert, UniqueKeys, string_eq, Bool-cases,
  arith, All, ◌∙◌, ap, sym, not, min, ◌&&◌, is_some, subst,
}
use gsm.RateLimit.Sweep.{live, live-sweep}
use gsm.RateLimit.{
  Entry, Limits, Limiter, drop_expired, sweep, hit, is_fresh, count_of, reset_of, check,
}

keep_live :
    (t : ℕ) (key : String) (entry : Entry) (hits : List (String × Entry))
    → lookup key hits ≡ some entry
    → t < entry.reset_at
    → lookup key (drop_expired t hits) ≡ some entry
unfolding drop_expired lookup
keep_live t key entry [] found live = cc
keep_live t key entry ((k, v) ∷ hits) found live =
    ground (arith, keep_live t key entry hits, string_eq.test_iff k key)

keep_live_sweep :
    (c : Limits) (t : ℕ) (key : String) (entry : Entry) (l : Limiter)
    → lookup key l.hits ≡ some entry
    → t < entry.reset_at
    → lookup key (sweep c t l).hits ≡ some entry
unfolding sweep
keep_live_sweep c t key entry l found live =
    elim (Bool-cases (ltb (t - l.last_sweep) c.window_ms)) [
      | inl soon ↦ rw soon found
      | inr due ↦ rw due (keep_live t key entry l.hits found live)
    ]

-- A check within the window of an entry counts one more hit and passes up to the limit.
check_live :
    (c : Limits) (t : ℕ) (key : String) (entry : Entry) (l : Limiter)
    → lookup key l.hits ≡ some entry
    → t < entry.reset_at
    → (lookup key (check c t t key l).0.hits
        ≡ some (record { hits = entry.hits + 1; reset_at = entry.reset_at }))
      × ((check c t t key l).1.allowed ≡ leb (entry.hits + 1) c.most)
unfolding check hit is_fresh count_of reset_of
check_live c t key entry l found live =
    let l' = sweep c t l in
    let found' = keep_live_sweep c t key entry l found live in
    let counted : Entry = record { hits = entry.hits + 1; reset_at = entry.reset_at } in
    ground (arith, found', lookup-insert key key counted l'.hits, string_eq.test_iff key key)

check_fresh :
    (c : Limits) (t : ℕ) (key : String) (l : Limiter)
    → is_fresh t (lookup key (sweep c t l).hits) ≡ true
    → (lookup key (check c t t key l).0.hits
        ≡ some (record { hits = 1; reset_at = t + c.window_ms }))
      × ((check c t t key l).1.allowed ≡ true)
unfolding check hit
check_fresh c t key l fresh =
    let l' = sweep c t l in
    let counted : Entry = record { hits = 1; reset_at = t + c.window_ms } in
    ground (arith, lookup-insert key key counted l'.hits, string_eq.test_iff key key)

-- A check of another key leaves a live entry alone.
check_other :
    (c : Limits) (t : ℕ) (key j : String) (entry : Entry) (l : Limiter)
    → (j == key) ≡ false
    → lookup key l.hits ≡ some entry
    → t < entry.reset_at
    → lookup key (check c t t j l).0.hits ≡ some entry
unfolding check hit
check_other c t key j entry l other found live =
    let l' = sweep c t l in
    let found' = keep_live_sweep c t key entry l found live in
    elim (Bool-cases (is_fresh t (lookup j l'.hits))) [
      | inl fresh ↦ rw fresh (lookup-insert j key _ l'.hits ∙ rw other found')
      | inr old ↦ rw old (lookup-insert j key _ l'.hits ∙ rw other found')
    ]

-- The checks of `key` among a sequence of calls, each a time and a key, and how many of them pass.
abbrev pub checks_of : String → List (ℕ × String) → ℕ
checks_of key [] = 0
checks_of key ((t, k) ∷ calls) =
    let rest = checks_of key calls in if k == key then suc rest else rest

abbrev pub passed : Limits → String → List (ℕ × String) → Limiter → ℕ
passed c key [] l = 0
passed c key ((t, k) ∷ calls) l =
    let (l', v) = check c t t k l in
    let rest = passed c key calls l' in if k == key && v.allowed then suc rest else rest

passed_live :
    (c : Limits) (key : String) (entry : Entry) (calls : List (ℕ × String)) (l : Limiter)
    → All (λ call. call.0 < entry.reset_at) calls
    → lookup key l.hits ≡ some entry
    → passed c key calls l ≡ min (checks_of key calls) (c.most - entry.hits)
passed_live c key entry [] l all found = omega arith
passed_live c key entry ((t, k) ∷ calls) l (live, all) found = elim (Bool-cases (k == key)) [
  | inl same ↦
      let one = (string_eq.test_iff k key).0 same in
      let counted : Entry = record { hits = entry.hits + 1; reset_at = entry.reset_at } in
      let (after, verdict) =
        check_live c t k entry l (subst (λ x. lookup x l.hits ≡ some entry) (sym one) found) live in
      let later =
        passed_live c key counted calls (check c t t k l).0 all
          (subst (λ x. lookup x (check c t t k l).0.hits ≡ some counted) one after) in
      ground (arith, verdict, later)
  | inr other ↦ ground (
    arith,
    passed_live c key entry calls (check c t t k l).0 all
        (check_other c t key k entry l other found live),
  )
]

fresh-live : (t : ℕ) (o : Option Entry) → is_fresh t o ≡ not (is_some (live t o))
unfolding is_fresh
fresh-live t none = refl
fresh-live t (some entry) = ground arith

-- From the check that opens a key's window on, of all its checks before the window ends exactly
-- `max` pass (one, if `max` is 0), or all of them if there are no more, whatever checks of other
-- keys come between; given that the map has unique keys and that the key has no entry, or one
-- whose window is over, when the first check comes.
pub passed_within_window :
    (c : Limits) (key : String) (t : ℕ) (calls : List (ℕ × String)) (l : Limiter)
    → UniqueKeys l.hits
    → is_fresh t (lookup key l.hits) ≡ true
    → All (λ call. call.0 < t + c.window_ms) calls
    → passed c key ((t, key) ∷ calls) l ≡ min (suc (checks_of key calls)) (max 1 c.most)
passed_within_window c key t calls l u fresh all =
    let still_fresh : is_fresh t (lookup key (sweep c t l).hits) ≡ true =
      fresh-live t _
      ∙ ap (λ o. not (is_some o)) (live-sweep c t t key l (omega arith) u)
      ∙ sym (fresh-live t _)
      ∙ fresh in
    let (after, verdict) = check_fresh c t key l still_fresh in
    let later = passed_live c key _ calls (check c t t key l).0 all after in
    ground (arith, verdict, later, string_eq.test_iff key key)
