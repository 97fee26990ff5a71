-- ===== src/RateLimit/Window.antt =====
-- How many requests one window admits.
use pool.Base.{
  ℕ, ◌+◌, ◌-◌, ◌≤◌, ◌<◌, ◌≡◌, refl, ap, true, false, List, [], ◌∷◌, arith, ltb, leb, ◌==◌, Result,
  ok, err, inl, inr, Bool-cases, All, u32_mod,
}
use pool.RateLimit.{RateLimit, RequestRateLimiter, RateLimitError, maximum_burst, admit}

-- A limiter over a policy that `new_rate_limit` grants.
pub record IsLimiter (l : RequestRateLimiter) : Type 0 where
  pub some_request : 0 < l.policy.maximum_requests
  pub few : l.policy.maximum_requests ≤ maximum_burst
  pub within : l.used ≤ l.policy.maximum_requests
  pub started : l.window_start_ms ≤ l.last_now_ms
  pub some_window : 0 < l.policy.window_ms

abbrev pub is_admitted : Result RateLimitError (Unit {0}) → ℕ
is_admitted (ok _) = 1
is_admitted (err e) = 0

-- How many of the requests at these times are admitted.
unfoldable pub admitted : RequestRateLimiter → List ℕ → ℕ
admitted l [] = 0
admitted l (now_ms ∷ times) = is_admitted (admit l now_ms).0 + admitted (admit l now_ms).1 times

-- A request inside the open window either takes one place of it, or takes none and is refused.
record IsCounted (l : RequestRateLimiter)
    (r : Result RateLimitError (Unit {0}) × RequestRateLimiter) : Type 0 where
  still : IsLimiter r.1
  policy : r.1.policy ≡ l.policy
  window : r.1.window_start_ms ≡ l.window_start_ms
  count : r.1.used ≡ l.used + is_admitted r.0

unused :
    (l m : RequestRateLimiter) {e : RateLimitError}
    → IsLimiter m
    → m.policy ≡ l.policy
    → m.window_start_ms ≡ l.window_start_ms
    → m.used ≡ l.used
    → IsCounted l (err e, m)
unused l m h p w u = record { still = h; policy = p; window = w; count = omega (arith, u) }

moved :
    (l : RequestRateLimiter) (now_ms : ℕ)
    → IsLimiter l
    → l.last_now_ms ≤ now_ms
    → IsLimiter (record l { last_now_ms = now_ms })
moved l now_ms h later = record {
  some_request = h.some_request;
  few = h.few;
  within = h.within;
  started = omega arith;
  some_window = h.some_window;
}

admit-IsCounted :
    (l : RequestRateLimiter) (now_ms : ℕ)
    → IsLimiter l
    → now_ms < l.window_start_ms + l.policy.window_ms
    → IsCounted l (admit l now_ms)
unfolding admit
admit-IsCounted l now_ms h inside =
    let seen : RequestRateLimiter = record l { last_now_ms = now_ms } in
    elim (Bool-cases (ltb now_ms l.last_now_ms)) [
      | inl back ↦ rw back (unused l l h refl refl refl)
      | inr forth ↦
          let after : (ltb now_ms l.window_start_ms) ≡ false = ground arith in
          let open_ : leb l.policy.window_ms (now_ms - l.window_start_ms) ≡ false = ground arith in
          let same : IsLimiter seen = moved l now_ms h (ground arith) in
          elim (Bool-cases (l.used == l.policy.maximum_requests)) [
            | inl full ↦ rw (forth, after, open_, full) (unused l seen same refl refl refl)
            | inr room ↦
                let small : leb u32_mod (l.used + 1) ≡ false = ground arith in
                rw (forth, after, open_, room, small)
                  (record {
                    still = record {
                      some_request = h.some_request;
                      few = h.few;
                      within = ground arith;
                      started = ground arith;
                      some_window = h.some_window;
                    };
                    policy = refl;
                    window = refl;
                    count = omega arith;
                  })
          ]
    ]

-- A valid limiter, asked at any times before its window ends, admits no more requests than the
-- window has places left.
pub admitted-le :
    (l : RequestRateLimiter) (times : List ℕ)
    → IsLimiter l
    → All (λ (t : ℕ). t < l.window_start_ms + l.policy.window_ms) times
    → admitted l times ≤ l.policy.maximum_requests - l.used
unfolding admitted
admitted-le l [] h inside = omega arith
admitted-le l (now_ms ∷ times) h inside =
    let counted = admit-IsCounted l now_ms h inside.0 in
    let later : All
        (λ (t : ℕ). t < (admit l now_ms).1.window_start_ms + (admit l now_ms).1.policy.window_ms)
        times =
      rw (counted.window, counted.policy) (inside.1) in
    let rest = admitted-le (admit l now_ms).1 times counted.still later in
    omega (
      arith,
      rw (counted.policy) at rest,
      counted.count,
      counted.still.within,
      ap (λ (p : RateLimit). p.maximum_requests) counted.policy,
    )

-- A request at or after the end of the window, at a time that does not run backwards, is admitted,
-- and opens a window that starts there with one place used.
pub admit-reopens :
    (l : RequestRateLimiter) (now_ms : ℕ)
    → IsLimiter l
    → l.last_now_ms ≤ now_ms
    → l.window_start_ms + l.policy.window_ms ≤ now_ms
    → ((admit l now_ms).0 ≡ ok tt)
      × ((admit l now_ms).1.window_start_ms ≡ now_ms)
      × ((admit l now_ms).1.used ≡ 1)
      × IsLimiter (admit l now_ms).1
unfolding admit
admit-reopens l now_ms h forward ended =
    let forth : ltb now_ms l.last_now_ms ≡ false = ground arith in
    let after : ltb now_ms l.window_start_ms ≡ false = ground arith in
    let closed : leb l.policy.window_ms (now_ms - l.window_start_ms) ≡ true = ground arith in
    let room : (0 == l.policy.maximum_requests) ≡ false = ground arith in
    rw (forth, after, closed, room)
      (
        refl,
        refl,
        refl,
        record {
          some_request = h.some_request;
          few = h.few;
          within = omega arith;
          started = omega arith;
          some_window = h.some_window;
        },
      )
