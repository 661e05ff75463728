-- ===== src/RateLimit.antt =====
-- server/src/lib/rate-limit.ts: a fixed-window rate limiter in memory. Times are milliseconds; an
-- operation takes the clock's reading, and `check` takes two, since its sweep reads the clock too.
mod Sweep
mod Window
mod Tests
use gsm.Common.{
  ℕ, ◌+◌, ◌-◌, ◌/◌, Bool, true, false, ◌||◌, Option, none, some, List, [], ◌∷◌, String, ltb, leb,
  if◌then◌else◌, lookup, insert, delete, string_eq,
}

pub record Entry : Type 0 where
  pub hits : ℕ  -- `count`
  pub reset_at : ℕ

pub record Limits : Type 0 where
  pub window_ms : ℕ
  pub most : ℕ  -- `max`

pub record Limiter : Type 0 where
  pub hits : List (String × Entry)
  pub last_sweep : ℕ

pub record Verdict : Type 0 where
  pub allowed : Bool  -- `ok`
  pub retry_after_seconds : ℕ

pub create_rate_limiter : ℕ → Limiter
create_rate_limiter now = record { hits = []; last_sweep = now }

-- `Math.ceil(ms / 1000)`.
unfoldable pub seconds_up : ℕ → ℕ
seconds_up ms = (ms + 999) / 1000

drop_expired : ℕ → List (String × Entry) → List (String × Entry)
drop_expired now [] = []
drop_expired now ((k, v) ∷ hits) =
    let rest = drop_expired now hits in if leb v.reset_at now then rest else (k, v) ∷ rest

unfoldable pub sweep : Limits → ℕ → Limiter → Limiter
unfolding drop_expired
sweep c now l =
    if ltb (now - l.last_sweep) c.window_ms
    then l
    else record { hits = drop_expired now l.hits; last_sweep = now }

-- A first hit, or the first after the window: the count starts again.
pub is_fresh : ℕ → Option Entry → Bool
is_fresh now none = true
is_fresh now (some entry) = leb entry.reset_at now

count_of : Option Entry → ℕ
count_of none = 0
count_of (some entry) = entry.hits

reset_of : Option Entry → ℕ
reset_of none = 0
reset_of (some entry) = entry.reset_at

-- `check` behind its sweep, over the entry that it finds.
pub hit : Limits → ℕ → String → Option Entry → Limiter → Limiter × Verdict
hit c now key entry l =
    if is_fresh now entry
    then (
      record l { hits = insert key (record { hits = 1; reset_at = now + c.window_ms }) l.hits },
      record { allowed = true; retry_after_seconds = 0 },
    )
    else (
      record l {
        hits = insert key (record { hits = count_of entry + 1; reset_at = reset_of entry }) l.hits;
      },
      if ltb c.most (count_of entry + 1)
          then record { allowed = false; retry_after_seconds = seconds_up (reset_of entry - now) }
          else record { allowed = true; retry_after_seconds = 0 },
    )

unfoldable pub check : Limits → ℕ → ℕ → String → Limiter → Limiter × Verdict
unfolding hit is_fresh count_of reset_of
check c swept now key l = let l' = sweep c swept l in hit c now key (lookup key l'.hits) l'

unfoldable pub reset : String → Limiter → Limiter
reset key l = record l { hits = delete key l.hits }

wait_for : Limits → ℕ → Option Entry → ℕ
wait_for c now none = 0
wait_for c now (some entry) =
    if leb entry.reset_at now || ltb entry.hits c.most then 0 else seconds_up (entry.reset_at - now)

unfoldable pub retry_after : Limits → ℕ → String → Limiter → ℕ
unfolding wait_for
retry_after c now key l = wait_for c now (lookup key l.hits)
