-- ===== src/RateLimit/Tests.antt =====
-- Runs of the limiter, and instances of its theorems.
use pool.Base.{◌≤◌, ◌≡◌, refl, [], ◌∷◌, arith, ok, err}
use pool.RateLimit.{RateLimit, RequestRateLimiter, new_rate_limit, admit, invalid_window}
use pool.RateLimit.Window.{IsLimiter, admitted, admitted-le}

abbrev policy : RateLimit
policy = record { maximum_requests = 2; window_ms = 1_000 }

accepted : new_rate_limit 2 1_000_500_000 ≡ ok policy
unfolding new_rate_limit
accepted = refl

too_short : new_rate_limit 2 999_999 ≡ err invalid_window
unfolding new_rate_limit
too_short = refl

abbrev limiter : RequestRateLimiter
limiter = record { policy = policy; window_start_ms = 10; used = 0; last_now_ms = 10 }

limiter-IsLimiter : IsLimiter limiter
limiter-IsLimiter = record {
  some_request = omega arith;
  few = omega arith;
  within = omega arith;
  started = omega arith;
  some_window = omega arith;
}

two_of_four : admitted limiter (10 ∷ 20 ∷ 15 ∷ 900 ∷ []) ≡ 2
unfolding admitted admit
two_of_four = refl

admitted-le_example : admitted limiter (10 ∷ 20 ∷ 15 ∷ 900 ∷ []) ≤ 2
admitted-le_example =
    admitted-le limiter (10 ∷ 20 ∷ 15 ∷ 900 ∷ []) limiter-IsLimiter
      (omega arith, (omega arith, (omega arith, (omega arith, tt))))
