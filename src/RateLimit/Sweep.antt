-- ===== src/RateLimit/Sweep.antt =====
-- What the sweep of the limiter does to its answers.
use gsm.Common.{
  ℕ, ◌≤◌, ◌-◌, ◌≡◌, refl, inl, inr, Option, none, some, List, [], ◌∷◌, String, ltb, leb, ◌==◌,
  if◌then◌else◌, lookup, UniqueKeys, NoKey, lookup_of_NoKey, lookup-insert, subst, ap, sym, ◌∙◌,
  ◌+◌, string_eq, Bool-cases, arith,
}
use gsm.RateLimit.{
  Entry, Limits, Limiter, Verdict, drop_expired, sweep, hit, is_fresh, count_of, reset_of, check,
  retry_after, wait_for,
}

-- What a limiter shows of an entry at a time: nothing, once it has expired.
abbrev pub live : ℕ → Option Entry → Option Entry
live now none = none
live now (some entry) = if leb entry.reset_at now then none else some entry

lookup-drop_expired :
    (t now : ℕ) (key : String) (hits : List (String × Entry))
    → t ≤ now
    → UniqueKeys hits
    → live now (lookup key (drop_expired t hits)) ≡ live now (lookup key hits)
unfolding drop_expired lookup
lookup-drop_expired t now key [] le u = refl
lookup-drop_expired t now key ((k, v) ∷ hits) le (n, u) =
    ground (arith, lookup-drop_expired t now key hits le u, string_eq.test_iff k key, gone)
  where
    gone : k ≡ key → lookup key hits ≡ none
    gone e = lookup_of_NoKey key hits (subst (λ x. NoKey x hits) e n)

pub live-sweep :
    (c : Limits) (t now : ℕ) (key : String) (l : Limiter)
    → t ≤ now
    → UniqueKeys l.hits
    → live now (lookup key (sweep c t l).hits) ≡ live now (lookup key l.hits)
unfolding sweep
live-sweep c t now key l le u = elim (Bool-cases (ltb (t - l.last_sweep) c.window_ms)) [
  | inl soon ↦ rw soon
  | inr due ↦ rw due (lookup-drop_expired t now key l.hits le u)
]

-- Answers read only live entries.
wait_for-live :
    (c : Limits) (now : ℕ) (o : Option Entry) → wait_for c now (live now o) ≡ wait_for c now o
unfolding wait_for
wait_for-live c now none = refl
wait_for-live c now (some entry) = ground arith

verdict-live :
    (c : Limits) (now : ℕ) (key : String) (o : Option Entry) (l m : Limiter)
    → (hit c now key o l).1 ≡ (hit c now key (live now o) m).1
unfolding hit is_fresh count_of reset_of
verdict-live c now key none l m = refl
verdict-live c now key (some entry) l m = ground arith

-- What `hit` leaves for a key.
entry_after : Limits → ℕ → Option Entry → Entry
entry_after c now o =
    if is_fresh now o
    then record { hits = 1; reset_at = now + c.window_ms }
    else record { hits = count_of o + 1; reset_at = reset_of o }

lookup-hit :
    (c : Limits) (now : ℕ) (key j : String) (o : Option Entry) (l : Limiter)
    → lookup j (hit c now key o l).0.hits
      ≡ (if key == j then some (entry_after c now o) else lookup j l.hits)
unfolding hit entry_after
lookup-hit c now key j o l = elim (Bool-cases (is_fresh now o)) [
  | inl fresh ↦ rw fresh (lookup-insert key j _ l.hits)
  | inr old ↦ rw old (lookup-insert key j _ l.hits)
]

entry_after-live :
    (c : Limits) (now : ℕ) (o : Option Entry) → entry_after c now (live now o) ≡ entry_after c now o
unfolding entry_after is_fresh count_of reset_of
entry_after-live c now none = refl
entry_after-live c now (some entry) = ground arith

-- The same check without its sweep.
abbrev pub check_unswept : Limits → ℕ → String → Limiter → Limiter × Verdict
check_unswept c now key l = hit c now key (lookup key l.hits) l

module _ (c : Limits) (t now : ℕ) (key : String) (l : Limiter) (le : t ≤ now)
    (u : UniqueKeys l.hits) where
  swept : Limiter
  swept = sweep c t l

  found-live : live now (lookup key swept.hits) ≡ live now (lookup key l.hits)
  unfolding swept
  found-live = live-sweep c t now key l le u

  same_verdict : (check c t now key l).1 ≡ (check_unswept c now key l).1
  unfolding check swept
  same_verdict =
      verdict-live c now key (lookup key swept.hits) swept l
      ∙ ap (λ o. (hit c now key o l).1) found-live
      ∙ sym (verdict-live c now key (lookup key l.hits) l l)

  same_entry : entry_after c now (lookup key swept.hits) ≡ entry_after c now (lookup key l.hits)
  same_entry =
      sym (entry_after-live c now (lookup key swept.hits))
      ∙ ap (entry_after c now) found-live
      ∙ entry_after-live c now (lookup key l.hits)

  same_live :
      (later : ℕ) (j : String)
      → now ≤ later
      → live later (lookup j (check c t now key l).0.hits)
        ≡ live later (lookup j (check_unswept c now key l).0.hits)
  unfolding check swept
  same_live later j h = rw (lookup-hit c now key j (lookup key swept.hits) swept) (
      rw (lookup-hit c now key j (lookup key l.hits) l) (elim (Bool-cases (key == j)) [
        | inl same ↦ rw same (ap (λ x. live later (some x)) same_entry)
        | inr other ↦ rw other (live-sweep c t later j l (omega arith) u)
      ]))

-- The sweep of `check` changes no answer: with it, the verdict is the same, and so is what
-- `retryAfter` says of any key at that time or later; given that the map has unique keys and that
-- the clock does not go back between the two readings.
pub check-sweep :
    (c : Limits) (t now later : ℕ) (key j : String) (l : Limiter)
    → t ≤ now
    → now ≤ later
    → UniqueKeys l.hits
    → ((check c t now key l).1 ≡ (check_unswept c now key l).1)
      × (retry_after c later j (check c t now key l).0
          ≡ retry_after c later j (check_unswept c now key l).0)
unfolding retry_after
check-sweep c t now later key j l le h u = (
  same_verdict c t now key l le u,
  sym (wait_for-live c later _)
      ∙ ap (wait_for c later) (same_live c t now key l le u later j h)
      ∙ wait_for-live c later _,
)
