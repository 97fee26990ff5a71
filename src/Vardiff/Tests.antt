-- ===== src/Vardiff/Tests.antt =====
-- Runs of the controller, and instances of its theorems.
use pool.Base.{
  ℕ, ◌+◌, ◌-◌, ◌*◌, ◌≡◌, ◌≤◌, ◌<◌, ◌⊎◌, max, refl, true, some, List, [], ◌∷◌, arith, ok, err,
}
use pool.Target.{
  TargetBinding, TargetBounds, same_binding, operator_limit_excludes_network_winner, new_binding,
}
use pool.Limbs.{
  value, to_little_limbs, from_little_limbs, multiply_from, multiply_limbs, limb_at, bit_at, add_at,
  set_bit, divide_bit, divide_bits, divide_320_by_128, scale_target, multiply_target, divide_target,
}
use pool.Vardiff.{
  VardiffConfig, VardiffController, changed, new_config, observe_share, count_interval,
  close_window, tick, ease_window, install, next_revision, share_target, tick_target,
  update_network_targets, distance, basis_points, target_policy,
}
use pool.Vardiff.Config.{IsController}
use pool.Vardiff.Retarget.{IsStep}
use pool.Vardiff.Invariant.{IsSafe, IsLater, observe_share-IsSafe, tick-IsSafe}
use pool.Vardiff.Changes.{IsRevised, observe_share-IsRevised}
use pool.Vardiff.Easing.{tick-IsRevised, tick_progress}
use pool.Vardiff.Networks.{Admits, update_network_targets-Admits}
use pool.Vardiff.History.{Call, share, clock, networks, run, run-revision}

abbrev policy : VardiffConfig
policy = record {
  sample_intervals = 8;
  sample_window_ms = 80_000;
  hysteresis_bps = 2_500;
  maximum_adjustment_factor = 4;
  operator_easiest = 200;
}

accepted : new_config 10_000 8 2_500 4 200 ≡ ok policy
unfolding new_config
accepted = refl

abbrev bounds : TargetBounds
bounds = record { wcash_network = 2; zcash_network = 4; hardest_allowed = 4; easiest_allowed = 200 }

abbrev old : TargetBinding
old = record { revision = 7; target = 40; bounds = bounds }

-- Seven intervals have been seen in 20 seconds.
abbrev sampled : VardiffController
sampled = record {
  config = policy;
  binding = old;
  window_start_ms = some 1_000;
  observed_intervals = 7;
  last_now_ms = some 20_000;
}

sampled-IsController : IsController sampled
sampled-IsController = omega arith

-- The eighth share comes after a quarter of the window: the target falls to a quarter.
abbrev hardened : TargetBinding
hardened = record { revision = 8; target = 10; bounds = bounds }

abbrev hardened_controller : VardiffController
hardened_controller = record {
  config = policy;
  binding = hardened;
  window_start_ms = some 21_000;
  observed_intervals = 0;
  last_now_ms = some 21_000;
}

hardens : observe_share sampled old 21_000 ≡ (ok (changed old hardened), hardened_controller)
unfolding observe_share count_interval close_window install next_revision share_target scale_target
    multiply_target divide_target value to_little_limbs from_little_limbs multiply_from
    multiply_limbs limb_at bit_at add_at set_bit divide_bit divide_bits divide_320_by_128
    new_binding
hardens = refl

-- After three windows with no share a tick eases the target threefold.
abbrev eased : TargetBinding
eased = record { revision = 8; target = 120; bounds = bounds }

abbrev eased_controller : VardiffController
eased_controller = record {
  config = policy;
  binding = eased;
  window_start_ms = some 241_000;
  observed_intervals = 0;
  last_now_ms = some 241_000;
}

eases : tick sampled 241_000 ≡ (ok (changed old eased), eased_controller)
unfolding tick ease_window install next_revision tick_target scale_target multiply_target
    divide_target value to_little_limbs from_little_limbs multiply_from multiply_limbs limb_at
    bit_at add_at set_bit divide_bit divide_bits divide_320_by_128 new_binding
eases = refl

observe_share-IsSafe_example : IsSafe sampled (observe_share sampled old 21_000)
observe_share-IsSafe_example =
    observe_share-IsSafe sampled old 21_000 sampled-IsController (omega arith)

tick-IsSafe_example : IsSafe sampled (tick sampled 241_000)
tick-IsSafe_example = tick-IsSafe sampled 241_000 sampled-IsController (omega arith)

observe_share-IsRevised_example :
    (start : ℕ) × (sampled.window_start_ms ≡ some start)
    × (same_binding old sampled.binding ≡ true)
    × IsLater sampled 21_000
    × (sampled.config.sample_intervals ≤ sampled.observed_intervals + 1)
    × IsRevised sampled old hardened hardened_controller
    × IsStep sampled.binding.target hardened.target sampled.config.maximum_adjustment_factor
        (21_000 - start)
        sampled.config.sample_window_ms
    × (sampled.config.sample_window_ms * sampled.config.hysteresis_bps
        < distance (21_000 - start) sampled.config.sample_window_ms * basis_points)
observe_share-IsRevised_example =
    observe_share-IsRevised sampled old 21_000 sampled-IsController (omega arith) hardens

tick-IsRevised_example :
    (start : ℕ) × (sampled.window_start_ms ≡ some start)
    × (sampled.config.sample_window_ms * sampled.config.hysteresis_bps
        < (241_000 - start - sampled.config.sample_window_ms) * basis_points)
    × IsRevised sampled old eased eased_controller
    × (old.target < eased.target)
    × (eased.target ≤ old.target * sampled.config.maximum_adjustment_factor)
tick-IsRevised_example = tick-IsRevised sampled 241_000 sampled-IsController (omega arith) eases

tick_progress_example :
    (current : TargetBinding) × (d : VardiffController) × (tick sampled 241_000
      ≡ (ok (changed old current), d))
    × (old.target < current.target)
tick_progress_example =
    tick_progress sampled 1_000 241_000 sampled-IsController (omega arith) refl (omega arith)
      (omega arith) (omega arith) (omega arith) (omega arith)

update_network_targets-Admits_example :
    ((b : TargetBinding) × (d : VardiffController) × (update_network_targets sampled 60 50
        ≡ (ok b, d))
      × (b ≡ d.binding)
      × IsController d
      × Admits 60 50 b)
    ⊎ ((sampled.config.operator_easiest < max 60 50)
        × (update_network_targets sampled 60 50 ≡ (
          err (
              target_policy (
                operator_limit_excludes_network_winner
                  (max 60 50)
                  sampled.config.operator_easiest)),
          sampled,
        )))
update_network_targets-Admits_example =
    update_network_targets-Admits sampled 60 50 sampled-IsController (omega arith) (omega arith)

abbrev calls : List Call
calls = share old 21_000 ∷ clock 500_000 ∷ networks 60 50 ∷ []

run-revision_example :
    (sampled.binding.revision ≤ (run sampled calls).binding.revision)
    × ((run sampled calls).binding.revision ≡ sampled.binding.revision
        → (run sampled calls).binding ≡ sampled.binding)
run-revision_example = run-revision sampled calls
