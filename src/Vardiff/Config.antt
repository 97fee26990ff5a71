-- ===== src/Vardiff/Config.antt =====
-- Valid policies and the invariant of a controller.
use pool.Base.{
  ℕ, ◌*◌, ◌≤◌, ◌<◌, ◌≡◌, refl, inl, inr, Option, none, some, arith, ok, u64_mod, u256_mod,
}
use pool.Target.{ShareTarget, IsBound, TargetBinding, clamp}
use pool.Target.Policy.{new_bounds_lem, new_binding-clamp}
use pool.Vardiff.{
  VardiffConfig, VardiffController, new_config, new_controller, minimum_sample_intervals,
  minimum_sample_window_ms, minimum_hysteresis_bps, basis_points, maximum_adjustment,
}

pub record IsConfig (c : VardiffConfig) : Type 0 where
  pub enough_samples : minimum_sample_intervals ≤ c.sample_intervals
  pub long_window : minimum_sample_window_ms ≤ c.sample_window_ms
  pub window_fits : c.sample_window_ms < u64_mod
  pub wide_hysteresis : minimum_hysteresis_bps ≤ c.hysteresis_bps
  pub bounded_hysteresis : c.hysteresis_bps < basis_points
  pub some_step : 1 ≤ c.maximum_adjustment_factor
  pub bounded_step : c.maximum_adjustment_factor ≤ maximum_adjustment

-- A start of the window is never later than the last time seen.
abbrev pub StartsBefore : Option ℕ → Option ℕ → Type 0
StartsBefore none last = Unit
StartsBefore (some start) none = ⊥
StartsBefore (some start) (some last) = start ≤ last

pub record IsController (c : VardiffController) : Type 0 where
  pub configured : IsConfig c.config
  pub bound : IsBound c.binding
  pub nonzero : 0 < c.binding.bounds.hardest_allowed
  pub fits : c.binding.bounds.easiest_allowed < u256_mod
  pub operator : c.binding.bounds.easiest_allowed ≡ c.config.operator_easiest
  pub numbered : c.binding.revision < u64_mod
  pub started : StartsBefore c.window_start_ms c.last_now_ms

-- A policy that is accepted satisfies its limits; its window, which fits in a u64, is the product
-- of the interval and the count, and it keeps the operator's limit.
pub new_config-IsConfig :
    (interval samples hysteresis factor : ℕ) (easiest : ShareTarget) {c : VardiffConfig}
    → new_config interval samples hysteresis factor easiest ≡ ok c
    → IsConfig c × (c.sample_window_ms ≡ interval * samples) × (c.operator_easiest ≡ easiest)
unfolding new_config
new_config-IsConfig interval samples hysteresis factor easiest {c} e = ground arith

-- A controller over a valid policy is valid from the start, if its three targets and its first
-- revision are in range and the operator's limit admits both networks.
pub new_controller-IsController :
    (config : VardiffConfig) (wcash zcash initial : ShareTarget) (revision : ℕ)
    → IsConfig config
    → 0 < wcash
    → config.operator_easiest < u256_mod
    → revision < u64_mod
    → wcash ≤ config.operator_easiest
    → zcash ≤ config.operator_easiest
    → (c : VardiffController) × (new_controller config wcash zcash initial revision ≡ ok c)
      × IsController c
      × (c.binding.revision ≡ revision)
unfolding new_controller
new_controller-IsController config wcash zcash initial revision h w f r a b =
    elim (new_bounds_lem wcash zcash config.operator_easiest) [
      | inr (low, refused) ↦ absurd (omega (arith, low))
      | inl (bounds, made, _, _, good, _, _, hardest, easiest) ↦
          let (bound, above, below, _) = new_binding-clamp bounds revision initial good in
          let binding : TargetBinding = record {
            revision = revision;
            target = clamp bounds initial;
            bounds = bounds;
          } in
          let c : VardiffController = record {
            config = config;
            binding = binding;
            window_start_ms = none;
            observed_intervals = 0;
            last_now_ms = none;
          } in
          (
            c,
            rw (made) (rw bound),
            record {
              configured = h;
              bound = record { floor = above; ceiling = below; bounded = good };
              nonzero = omega (arith, hardest);
              fits = omega (arith, easiest);
              operator = easiest;
              numbered = r;
              started = tt;
            },
            refl,
          )
    ]
