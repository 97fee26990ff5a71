-- ===== src/Vardiff/History.antt =====
-- Bindings over a controller's whole history: a revision never names two bindings.
use pool.Base.{
  ℕ, ◌+◌, ◌-◌, ◌≤◌, ◌≡◌, refl, ap, ◌∙◌, ◌⊎◌, inl, inr, some, List, [], ◌∷◌, arith, Option-cases,
}
use pool.Target.{ShareTarget, TargetBinding, new_binding, new_bounds}
use pool.Vardiff.{
  VardiffController, observe_share, tick, update_network_targets, install, next_revision,
  count_interval, close_window, ease_window, share_target, tick_target,
}

pub data Call : Type 0 where
  share : TargetBinding → ℕ → Call
  clock : ℕ → Call
  networks : ShareTarget → ShareTarget → Call

pub step : VardiffController → Call → VardiffController
step c (share binding now_ms) = (observe_share c binding now_ms).1
step c (clock now_ms) = (tick c now_ms).1
step c (networks wcash zcash) = (update_network_targets c wcash zcash).1

pub run : VardiffController → List Call → VardiffController
run c [] = c
run c (call ∷ calls) = run (step c call) calls

-- A call keeps the binding, or gives the next revision.
abbrev Keeps : VardiffController → VardiffController → Type 0
Keeps c d = (d.binding ≡ c.binding) ⊎ (d.binding.revision ≡ c.binding.revision + 1)

install-Keeps : (c : VardiffController) (t : ShareTarget) (now : ℕ) → Keeps c (install c t now).1
unfolding install new_binding
install-Keeps c t now = ground arith

close_window-Keeps : (c : VardiffController) (start now : ℕ) → Keeps c (close_window c start now).1
unfolding close_window
close_window-Keeps c start now = ground (arith, install-Keeps c (share_target c (now - start)) now)

count_interval-Keeps :
    (c : VardiffController) (start now : ℕ) → Keeps c (count_interval c start now).1
unfolding count_interval
count_interval-Keeps c start now =
    let counted : VardiffController = record c { observed_intervals = c.observed_intervals + 1 } in
    ground (arith, close_window-Keeps counted start now)

observe_share-Keeps :
    (c : VardiffController) (b : TargetBinding) (now : ℕ) → Keeps c (observe_share c b now).1
unfolding observe_share
observe_share-Keeps c b now =
    let clocked : VardiffController = record c { last_now_ms = some now } in
    elim (Option-cases c.window_start_ms) [
      | inl fresh ↦ ground arith
      | inr (start, open_) ↦ ground (arith, count_interval-Keeps clocked start now)
    ]

ease_window-Keeps : (c : VardiffController) (start now : ℕ) → Keeps c (ease_window c start now).1
unfolding ease_window
ease_window-Keeps c start now = ground (arith, install-Keeps c (tick_target c (now - start)) now)

tick-Keeps : (c : VardiffController) (now : ℕ) → Keeps c (tick c now).1
unfolding tick
tick-Keeps c now =
    let clocked : VardiffController = record c { last_now_ms = some now } in
    elim (Option-cases c.window_start_ms) [
      | inl fresh ↦ ground arith
      | inr (start, open_) ↦ ground (arith, ease_window-Keeps clocked start now)
    ]

update_network_targets-Keeps :
    (c : VardiffController) (w z : ShareTarget) → Keeps c (update_network_targets c w z).1
unfolding update_network_targets next_revision new_binding new_bounds
update_network_targets-Keeps c w z = ground arith

step-Keeps : (c : VardiffController) (call : Call) → Keeps c (step c call)
unfolding step
step-Keeps c (share b now) = observe_share-Keeps c b now
step-Keeps c (clock now) = tick-Keeps c now
step-Keeps c (networks w z) = update_network_targets-Keeps c w z

-- Over any calls the revision never falls, and while it is the same so is the whole binding: a
-- revision names one target and one pair of network bounds for ever.
pub run-revision :
    (c : VardiffController) (calls : List Call)
    → (c.binding.revision ≤ (run c calls).binding.revision)
      × ((run c calls).binding.revision ≡ c.binding.revision → (run c calls).binding ≡ c.binding)
unfolding run
run-revision c [] = (omega arith, λ _. refl)
run-revision c (call ∷ calls) =
    let (grows, same) = run-revision (step c call) calls in
    elim (step-Keeps c call) [
      | inl kept ↦
          let e = ap (λ (b : TargetBinding). b.revision) kept in
          (omega (arith, e), λ h. same (omega (arith, e, h)) ∙ kept)
      | inr next ↦ (omega (arith, next), λ h. absurd (omega (arith, next, h)))
    ]
