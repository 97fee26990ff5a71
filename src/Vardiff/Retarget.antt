-- ===== src/Vardiff/Retarget.antt =====
-- The next target of a window: exact, bounded by the step, and in the right direction.
use native.Mathlib.Nat.{le-div_iff_mul-le}
use pool.Base.{ℕ, ◌*◌, ◌/◌, ◌≤◌, ◌<◌, min, max, ◌≡◌, arith, u64_mod}
use pool.Target.{IsTarget, clamp, clamp_between, maximum_target}
use pool.Limbs.Scale.{scale_target_lem, multiply_target_lem, divide_target_lem}
use pool.Vardiff.{VardiffController, share_target, tick_target}
use pool.Vardiff.Config.{IsController}

abbrev pub at_least_one : ℕ → ℕ
at_least_one n = max 1 (min n maximum_target)

-- The step of a window, on numbers: the target in proportion to the elapsed time, at most the
-- policy's factor up or down.
abbrev pub proportional : ℕ → ℕ → ℕ → ℕ → ℕ
proportional target elapsed window factor =
    clamp_between (at_least_one (target * elapsed / window)) (max 1 (target / factor))
      (min (target * factor) maximum_target)

abbrev pub eased : ℕ → ℕ → ℕ → ℕ → ℕ
eased target elapsed window factor =
    clamp_between (at_least_one (target * elapsed / window)) target
      (min (target * factor) maximum_target)

module _ (c : VardiffController) (v : IsController c) (elapsed : ℕ) (h : elapsed < u64_mod) where
  target-IsTarget : IsTarget c.binding.target
  target-IsTarget = record {
    nonzero = omega (arith, v.bound.floor, v.nonzero);
    fits = omega (arith, v.bound.ceiling, v.fits);
  }

  -- The limb arithmetic of both methods is exact arithmetic on numbers.
  pub share_target_lem :
      share_target c elapsed
      ≡ clamp c.binding.bounds (
          proportional c.binding.target elapsed c.config.sample_window_ms
            c.config.maximum_adjustment_factor)
  unfolding share_target
  share_target_lem =
      let t = target-IsTarget in
      let raw =
        scale_target_lem c.binding.target elapsed c.config.sample_window_ms t.fits h
          (omega (arith, v.configured.long_window)) (omega (arith, v.configured.window_fits)) in
      let down =
        divide_target_lem c.binding.target c.config.maximum_adjustment_factor t
          (omega (arith, v.configured.some_step)) (omega (arith, v.configured.bounded_step)) in
      let up =
        multiply_target_lem c.binding.target c.config.maximum_adjustment_factor t
          (omega (arith, v.configured.some_step)) (omega (arith, v.configured.bounded_step)) in
      rw (raw, down, up)

  pub tick_target_lem :
      tick_target c elapsed
      ≡ clamp c.binding.bounds (
          eased c.binding.target elapsed c.config.sample_window_ms
            c.config.maximum_adjustment_factor)
  unfolding tick_target
  tick_target_lem =
      let t = target-IsTarget in
      let raw =
        scale_target_lem c.binding.target elapsed c.config.sample_window_ms t.fits h
          (omega (arith, v.configured.long_window)) (omega (arith, v.configured.window_fits)) in
      let up =
        multiply_target_lem c.binding.target c.config.maximum_adjustment_factor t
          (omega (arith, v.configured.some_step)) (omega (arith, v.configured.bounded_step)) in
      rw (raw, up)

scaled_down : (target elapsed window : ℕ) → elapsed ≤ window → target * elapsed / window ≤ target
scaled_down target elapsed window h = grind arith

scaled_up :
    (target elapsed window : ℕ) → 0 < window → window ≤ elapsed → target ≤ target * elapsed / window
scaled_up target elapsed window p h = (le-div_iff_mul-le p).1 (grind arith)

scaled_le : (a b c : ℕ) → b ≤ c → a * b ≤ a * c
scaled_le a b c h = grind arith

scaled_twice :
    (target elapsed window : ℕ)
    → 0 < window
    → 2 * window ≤ elapsed
    → 2 * target ≤ target * elapsed / window
scaled_twice target elapsed window p h =
    let wide = scaled_le target (2 * window) elapsed h in
    (le-div_iff_mul-le p).1 (omega (arith, wide))

divided : (target factor : ℕ) → 0 < factor → target / factor ≤ target
divided target factor p = grind arith

multiplied : (target factor : ℕ) → 0 < factor → target ≤ target * factor
multiplied target factor p = grind arith

-- What a step from `target` to `next` respects.
pub record IsStep (target next factor elapsed window : ℕ) : Type 0 where
  pub not_too_hard : target / factor ≤ next
  pub not_too_easy : next ≤ target * factor
  pub hardens : elapsed ≤ window → next ≤ target
  pub eases : window ≤ elapsed → target ≤ next

module _ (c : VardiffController) (v : IsController c) (elapsed : ℕ) (h : elapsed < u64_mod) where
  abbrev Steps : ℕ → Type 0
  Steps next =
      IsStep c.binding.target next c.config.maximum_adjustment_factor elapsed
        c.config.sample_window_ms
      × (c.binding.bounds.hardest_allowed ≤ next)
      × (next ≤ c.binding.bounds.easiest_allowed)

  pub share_target-IsStep : Steps (share_target c elapsed)
  share_target-IsStep =
      let target = c.binding.target in
      let window = c.config.sample_window_ms in
      let factor = c.config.maximum_adjustment_factor in
      let step = share_target_lem c v elapsed h in
      let pos : 0 < target = omega (arith, v.bound.floor, v.nonzero) in
      let top : target ≤ maximum_target = omega (arith, v.bound.ceiling, v.fits) in
      let some_window : 0 < window = omega (arith, v.configured.long_window) in
      let some_factor : 0 < factor = v.configured.some_step in
      let down = divided target factor some_factor in
      let up = multiplied target factor some_factor in
      (
        record {
          not_too_hard = rw step (ground (arith, v.bound));
          not_too_easy = rw step (ground (arith, v.bound));
          hardens = λ k.
              let less = scaled_down target elapsed window k in rw step (ground (arith, v.bound));
          eases = λ k.
              let more = scaled_up target elapsed window some_window k in
              rw step (ground (arith, v.bound));
        },
        rw step (ground (arith, v.bound.bounded)),
        rw step (ground (arith, v.bound.bounded)),
      )

  -- A tick never makes the target harder.
  pub tick_target-IsStep :
      (c.binding.target ≤ tick_target c elapsed)
      × (tick_target c elapsed ≤ c.binding.target * c.config.maximum_adjustment_factor)
      × (tick_target c elapsed ≤ c.binding.bounds.easiest_allowed)
  tick_target-IsStep =
      let target = c.binding.target in
      let factor = c.config.maximum_adjustment_factor in
      let step = tick_target_lem c v elapsed h in
      let top : target ≤ maximum_target = omega (arith, v.bound.ceiling, v.fits) in
      let some_factor : 0 < factor = v.configured.some_step in
      let up = multiplied target factor some_factor in
      (
        rw step (ground (arith, v.bound)),
        rw step (ground (arith, v.bound)),
        rw step (ground (arith, v.bound)),
      )

  -- After two windows with no full sample a target below the limit is eased.
  pub tick_target_grows :
      2 * c.config.sample_window_ms ≤ elapsed
      → 2 ≤ c.config.maximum_adjustment_factor
      → c.binding.target < c.binding.bounds.easiest_allowed
      → c.binding.target < tick_target c elapsed
  tick_target_grows late factor2 below =
      let target = c.binding.target in
      let window = c.config.sample_window_ms in
      let step = tick_target_lem c v elapsed h in
      let pos : 0 < target = omega (arith, v.bound.floor, v.nonzero) in
      let top : target < maximum_target = omega (arith, v.fits) in
      let some_window : 0 < window = omega (arith, v.configured.long_window) in
      let more = scaled_twice target elapsed window some_window late in
      let up : 2 * target ≤ target * c.config.maximum_adjustment_factor = grind arith in
      rw step (ground (arith, v.bound))
