-- ===== src/RateLimit/Tests.antt =====
-- A limiter of two hits in a second.
use gsm.Common.{
  ℕ, suc, ◌≡◌, refl, false, List, [], ◌∷◌, String, min, max, lookup, insert, delete, string_eq,
  arith,
}
use gsm.RateLimit.{
  Limits, Limiter, create_rate_limiter, check, sweep, is_fresh, reset, retry_after, seconds_up,
}
use gsm.RateLimit.Sweep.{check_unswept, check-sweep}
use gsm.RateLimit.Window.{passed, checks_of, passed_within_window}

abbrev two : Limits
two = record { window_ms = 1000; most = 2 }

run : Unit {0}
unfolding create_rate_limiter check sweep reset retry_after seconds_up lookup insert delete
run = tt

abbrev start : Limiter
start = record { hits = []; last_sweep = 0 }

abbrev calls : List (ℕ × String)
calls = (5, "a") ∷ (6, "b") ∷ (900, "a") ∷ (999, "a") ∷ []

-- The third and later checks of a window fail and say how long to wait.
limited_run :
    let (l, v) = check two 0 0 "a" start in
    let (m, w) = check two 5 5 "a" l in
    let (n, x) = check two 100 100 "a" m in
    (x.allowed ≡ false)
    × (x.retry_after_seconds ≡ 1)
    × (retry_after two 100 "a" n ≡ 1)
    × (retry_after two 100 "a" (reset "a" n) ≡ 0)
unfolding run
limited_run = (refl, refl, refl, refl)

passed_within_window_example :
    passed two "a" ((0, "a") ∷ calls) start ≡ min (suc (checks_of "a" calls)) (max 1 2)
passed_within_window_example =
    passed_within_window two "a" 0 calls start tt (unfold run is_fresh in refl) (omega arith)

check-sweep_example :
    ((check two 7 8 "a" start).1 ≡ (check_unswept two 8 "a" start).1)
    × (retry_after two 9 "b" (check two 7 8 "a" start).0
        ≡ retry_after two 9 "b" (check_unswept two 8 "a" start).0)
check-sweep_example = check-sweep two 7 8 9 "a" "b" start (omega arith) (omega arith) tt
