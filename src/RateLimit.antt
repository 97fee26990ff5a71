-- ===== src/RateLimit.antt =====
-- The request limit of crates/wcash-pool-edge/src/rate_limit.rs. A `Duration` is its number of
-- nanoseconds. The process-wide semaphore of connections is a library's.
pub mod Window
mod Tests
use pool.Base.{
  ℕ, ◌+◌, ◌-◌, ◌*◌, ◌/◌, ◌<◌, Bool, true, false, ◌||◌, ltb, leb, ◌==◌, if◌then◌else◌, Result, ok,
  err, ◌>>=◌, ◌>>◌, fail_if, u32_mod, u64_mod,
}

-- `MAXIMUM_RATE_WINDOW`, in nanoseconds.
abbrev pub maximum_rate_window : ℕ
maximum_rate_window = 300_000_000_000

abbrev pub maximum_burst : ℕ
maximum_burst = 65_535

pub data RateLimitError : Type 0 where
  invalid_maximum : ℕ → RateLimitError
  invalid_window exceeded clock_moved_backwards counter_overflow : RateLimitError
  invalid_connection_capacity : ℕ → RateLimitError
  connection_capacity_exceeded : RateLimitError

pub record RateLimit : Type 0 where
  pub maximum_requests : ℕ
  pub window_ms : ℕ

-- `RateLimit::new`.
unfoldable pub new_rate_limit : ℕ → ℕ → Result RateLimitError RateLimit
new_rate_limit maximum_requests window = do
  fail_if (maximum_requests == 0 || ltb maximum_burst maximum_requests)
      (invalid_maximum maximum_requests)
  fail_if (window == 0 || ltb maximum_rate_window window) invalid_window
  let window_ms = window / 1_000_000
  fail_if (leb u64_mod window_ms) invalid_window
  fail_if (window_ms == 0) invalid_window
  ok (record { maximum_requests = maximum_requests; window_ms = window_ms })

pub record RequestRateLimiter : Type 0 where
  pub policy : RateLimit
  pub window_start_ms : ℕ
  pub used : ℕ
  pub last_now_ms : ℕ

-- `RequestRateLimiter::new`.
unfoldable pub new_limiter : RateLimit → ℕ → RequestRateLimiter
new_limiter policy now_ms = record {
  policy = policy;
  window_start_ms = now_ms;
  used = 0;
  last_now_ms = now_ms;
}

-- The end of `admit`: one more request in the open window.
abbrev pub use_one : RequestRateLimiter → Result RateLimitError (Unit {0}) × RequestRateLimiter
use_one l =
    if l.used == l.policy.maximum_requests
    then (err exceeded, l)
    else if leb u32_mod (l.used + 1)
    then (err counter_overflow, l)
    else (ok tt, record l { used = l.used + 1 })

-- `RequestRateLimiter::admit`.
unfoldable pub admit :
    RequestRateLimiter → ℕ → Result RateLimitError (Unit {0}) × RequestRateLimiter
admit l now_ms =
    let seen = record l { last_now_ms = now_ms } in
    if ltb now_ms l.last_now_ms
    then (err clock_moved_backwards, l)
    else if ltb now_ms l.window_start_ms
    then (err clock_moved_backwards, seen)
    else if leb l.policy.window_ms (now_ms - l.window_start_ms)
    then use_one (record seen { window_start_ms = now_ms; used = 0 })
    else use_one seen
