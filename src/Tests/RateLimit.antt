-- ===== src/Tests/RateLimit.antt =====
-- Tests of the sliding window.
use gosso.Prelude.{◌≡◌, ◌≤◌, refl, true, false, none, some, [], ◌∷◌, arith}
use gosso.RateLimit.{
  Window, fresh, evict, zadd, oldest, sliding_window, rate_limit, too_many_requests,
  service_unavailable,
}
use gosso.RateLimit.Bound.{Run, start, request, recent, outcome, run-bounded, run_allows}

-- Two requests at most in ten seconds; three come within a second.
abbrev at_first : Window
at_first = (sliding_window 10 2 1000000 fresh).1

abbrev at_second : Window
at_second = (sliding_window 10 2 1500000 at_first).1

abbrev at_third : Window
at_third = (sliding_window 10 2 2000000 at_second).1

third :
    (sliding_window 10 2 2000000 at_second).0
    ≡ record { allowed = false; remaining = 0; reset_at = 11; retry_after = 9 }
unfolding sliding_window evict zadd oldest
third = refl

later :
    (sliding_window 10 2 11000000 at_third).0
    ≡ record { allowed = true; remaining = 0; reset_at = 12; retry_after = 1 }
unfolding sliding_window evict zadd oldest
later = refl

busy : Run 10 2 at_third (1500000 ∷ 1000000 ∷ []) 2000000
unfolding sliding_window evict zadd
busy =
    request 2000000 (request 1500000 (request 1000000 start (omega arith)) (omega arith))
      (omega arith)

run-bounded_example : recent 10000 2000 (1500000 ∷ 1000000 ∷ []) ≤ 2
run-bounded_example =
    run-bounded 10 2 at_third (1500000 ∷ 1000000 ∷ []) 2000000 2000 busy (omega arith)

run_allows_example : outcome 10 2 2500000 at_third ≡ false
unfolding recent
run_allows_example =
    run_allows 10 2 at_third (1500000 ∷ 1000000 ∷ []) 2000000 2500000 busy (omega arith)

closed : rate_limit false none ≡ service_unavailable
unfolding rate_limit
closed = refl

turned_away :
    rate_limit true (some (sliding_window 10 2 2000000 at_second).0)
    ≡ too_many_requests (record { allowed = false; remaining = 0; reset_at = 11; retry_after = 9 })
unfolding rate_limit sliding_window evict zadd oldest
turned_away = refl
