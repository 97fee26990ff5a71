-- ===== src/Vardiff.antt =====
-- crates/wcash-pool-core/src/vardiff.rs: the variable-difficulty controller. A method of
-- `&mut self` returns its result and the controller, since what it wrote before an error stays.
-- Times are milliseconds of u64; the products of u128 stay below 2^80 and never overflow.
pub mod Config
pub mod Retarget
pub mod Invariant
pub mod History
pub mod Changes
pub mod Easing
pub mod Networks
mod Tests
use pool.Base.{
  ℕ, zero, suc, ◌+◌, ◌-◌, ◌*◌, ◌≤◌, ◌<◌, Bool, true, false, not, ◌&&◌, ◌||◌, Option, none, some,
  List, [], ◌∷◌, ltb, leb, ◌==◌, if◌then◌else◌, Result, ok, err, ◌>>=◌, ◌>>◌, fail_if, u32_mod,
  u64_mod,
}
use pool.Target.{
  ShareTarget, TargetBounds, TargetBinding, TargetPolicyError, new_bounds, new_binding, clamp,
  clamp_between, same_bounds, same_binding,
}
use pool.Limbs.{scale_target, multiply_target, divide_target}

abbrev pub basis_points : ℕ
basis_points = 10_000

abbrev pub minimum_sample_intervals : ℕ
minimum_sample_intervals = 8

abbrev pub minimum_sample_window_ms : ℕ
minimum_sample_window_ms = 60_000

abbrev pub minimum_hysteresis_bps : ℕ
minimum_hysteresis_bps = 2_500

abbrev pub maximum_adjustment : ℕ
maximum_adjustment = 4

pub record VardiffConfig : Type 0 where
  pub sample_intervals : ℕ
  pub sample_window_ms : ℕ
  pub hysteresis_bps : ℕ
  pub maximum_adjustment_factor : ℕ
  pub operator_easiest : ShareTarget

pub data VardiffError : Type 0 where
  invalid_config clock_moved_backwards interval_overflow sample_counter_overflow : VardiffError
  revision_overflow : VardiffError
  target_policy : TargetPolicyError → VardiffError

pub data VardiffUpdate : Type 0 where
  -- `Sampling`, with the observed and the required intervals.
  sampling : ℕ → ℕ → VardiffUpdate
  ignored_stale_binding : VardiffUpdate
  unchanged : TargetBinding → VardiffUpdate
  -- `Changed`, with the previous and the current binding.
  changed : TargetBinding → TargetBinding → VardiffUpdate

-- `VardiffConfig::new`.
pub new_config : ℕ → ℕ → ℕ → ℕ → ShareTarget → Result VardiffError VardiffConfig
new_config target_interval_ms sample_intervals hysteresis_bps factor operator_easiest = do
  let window = target_interval_ms * sample_intervals
  fail_if (leb u64_mod window) interval_overflow
  fail_if
      (ltb sample_intervals minimum_sample_intervals
        || ltb window minimum_sample_window_ms
        || not (leb minimum_hysteresis_bps hysteresis_bps && ltb hysteresis_bps basis_points)
        || not (leb 1 factor && leb factor maximum_adjustment))
      invalid_config
  ok (record {
    sample_intervals = sample_intervals;
    sample_window_ms = window;
    hysteresis_bps = hysteresis_bps;
    maximum_adjustment_factor = factor;
    operator_easiest = operator_easiest;
  })

pub record VardiffController : Type 0 where
  pub config : VardiffConfig
  pub binding : TargetBinding
  pub window_start_ms : Option ℕ
  pub observed_intervals : ℕ
  pub last_now_ms : Option ℕ

abbrev pub from_policy {ℓ} : {A : Type ℓ} → Result TargetPolicyError A → Result VardiffError A
from_policy (ok a) = ok a
from_policy (err e) = err (target_policy e)

-- `VardiffController::new`.
pub new_controller :
    VardiffConfig
    → ShareTarget
    → ShareTarget
    → ShareTarget
    → ℕ
    → Result VardiffError VardiffController
new_controller config wcash_network zcash_network initial initial_revision = do
  bounds ← from_policy (new_bounds wcash_network zcash_network config.operator_easiest)
  binding ← from_policy (new_binding initial_revision (clamp bounds initial) bounds)
  ok (record {
    config = config;
    binding = binding;
    window_start_ms = none;
    observed_intervals = 0;
    last_now_ms = none;
  })

abbrev pub reset_sample : VardiffController → VardiffController
reset_sample c = record c { window_start_ms = none; observed_intervals = 0 }

abbrev pub reset_sample_at : VardiffController → ℕ → VardiffController
reset_sample_at c now_ms = record c { window_start_ms = some now_ms; observed_intervals = 0 }

pub next_revision : VardiffController → Result VardiffError ℕ
next_revision c =
    let next = c.binding.revision + 1 in if ltb next u64_mod then ok next else err revision_overflow

abbrev pub Outcome : Type 0
Outcome = Result VardiffError VardiffUpdate × VardiffController

-- The common end of `observe_share` and `tick`: the target either stays or gets a new revision.
pub install : VardiffController → ShareTarget → ℕ → Outcome
unfolding next_revision
install c next_target now_ms =
    if next_target == c.binding.target
    then (ok (unchanged c.binding), reset_sample_at c now_ms)
    else elim (next_revision c) [
      | err e ↦ (err e, c)
      | ok revision ↦ elim (from_policy (new_binding revision next_target c.binding.bounds)) [
        | err e ↦ (err e, c)
        | ok binding ↦ (
          ok (changed c.binding binding),
          reset_sample_at (record c { binding = binding }) now_ms,
        )
      ]
    ]

abbrev pub distance : ℕ → ℕ → ℕ
distance a b = if ltb a b then b - a else a - b

-- The target of `observe_share` after a full window of `elapsed` milliseconds.
pub share_target : VardiffController → ℕ → ShareTarget
share_target c elapsed =
    let target = c.binding.target in
    let raw = scale_target target elapsed c.config.sample_window_ms in
    let hardest_step = divide_target target c.config.maximum_adjustment_factor in
    let easiest_step = multiply_target target c.config.maximum_adjustment_factor in
    clamp c.binding.bounds (clamp_between raw hardest_step easiest_step)

-- The target of `tick`, which only eases.
pub tick_target : VardiffController → ℕ → ShareTarget
tick_target c elapsed =
    let target = c.binding.target in
    let raw = scale_target target elapsed c.config.sample_window_ms in
    let easiest_step = multiply_target target c.config.maximum_adjustment_factor in
    clamp c.binding.bounds (clamp_between raw target easiest_step)

-- The clock test that opens both methods.
abbrev pub runs_backwards : VardiffController → ℕ → Bool
runs_backwards c now_ms = elim c.last_now_ms [ none ↦ false | some last ↦ ltb now_ms last ]

abbrev pub inside_hysteresis : VardiffController → ℕ → Bool
inside_hysteresis c elapsed =
    leb (distance elapsed c.config.sample_window_ms * basis_points)
      (c.config.sample_window_ms * c.config.hysteresis_bps)

-- `observe_share` once the window is full.
pub close_window : VardiffController → ℕ → ℕ → Outcome
close_window c window_start_ms now_ms =
    if ltb now_ms window_start_ms
    then (err clock_moved_backwards, c)
    else let elapsed = now_ms - window_start_ms in
      if inside_hysteresis c elapsed
      then (ok (unchanged c.binding), reset_sample_at c now_ms)
      else install c (share_target c elapsed) now_ms

-- `observe_share` from the count of intervals on.
pub count_interval : VardiffController → ℕ → ℕ → Outcome
count_interval c window_start_ms now_ms =
    if leb u32_mod (c.observed_intervals + 1)
    then (err sample_counter_overflow, c)
    else let counted = record c { observed_intervals = c.observed_intervals + 1 } in
      if ltb counted.observed_intervals c.config.sample_intervals
      then (ok (sampling counted.observed_intervals c.config.sample_intervals), counted)
      else close_window counted window_start_ms now_ms

pub observe_share : VardiffController → TargetBinding → ℕ → Outcome
observe_share c submitted now_ms =
    if not (same_binding submitted c.binding)
    then (ok ignored_stale_binding, c)
    else if runs_backwards c now_ms
    then (err clock_moved_backwards, c)
    else let clocked = record c { last_now_ms = some now_ms } in
      elim c.window_start_ms [
        | none ↦ (
          ok (sampling 0 c.config.sample_intervals),
          record clocked { window_start_ms = some now_ms },
        )
        | some start ↦ count_interval clocked start now_ms
      ]

-- `tick` inside an open window: only a worker that is too slow has its target eased.
pub ease_window : VardiffController → ℕ → ℕ → Outcome
ease_window c window_start_ms now_ms =
    let elapsed = now_ms - window_start_ms in
    let expected = c.config.sample_window_ms in
    if ltb now_ms window_start_ms
    then (err clock_moved_backwards, c)
    else if leb elapsed expected
        || leb ((elapsed - expected) * basis_points) (expected * c.config.hysteresis_bps)
    then (ok (sampling c.observed_intervals c.config.sample_intervals), c)
    else install c (tick_target c elapsed) now_ms

pub tick : VardiffController → ℕ → Outcome
tick c now_ms =
    if runs_backwards c now_ms
    then (err clock_moved_backwards, c)
    else let clocked = record c { last_now_ms = some now_ms } in
      elim c.window_start_ms [
        | none ↦ (
          ok (sampling c.observed_intervals c.config.sample_intervals),
          record clocked { window_start_ms = some now_ms },
        )
        | some start ↦ ease_window clocked start now_ms
      ]

-- `update_network_targets`, which returns the binding.
pub update_network_targets :
    VardiffController
    → ShareTarget
    → ShareTarget
    → Result VardiffError TargetBinding × VardiffController
update_network_targets c wcash_network zcash_network =
    elim (from_policy (new_bounds wcash_network zcash_network c.config.operator_easiest)) [
      | err e ↦ (err e, c)
      | ok bounds ↦
          if same_bounds bounds c.binding.bounds
          then (ok c.binding, c)
          else elim (next_revision c) [
            | err e ↦ (err e, c)
            | ok revision ↦
                elim (from_policy (new_binding revision (clamp bounds c.binding.target) bounds)) [
                  | err e ↦ (err e, c)
                  | ok binding ↦ (ok binding, reset_sample (record c { binding = binding }))
                ]
          ]
    ]
