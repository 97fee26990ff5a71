-- ===== src/Vardiff/Changes.antt =====
-- When a binding changes, and how: by an accepted share, by a tick, by new network targets.
use pool.Base.{
  ℕ, ◌+◌, ◌-◌, ◌*◌, ◌≤◌, ◌<◌, ◌≡◌, ◌≢◌, inl, inr, true, some, arith, ok, u64_mod, Option-cases,
}
use pool.Target.{TargetBinding, same_binding}
use pool.Vardiff.{
  VardiffController, changed, install, close_window, count_interval, observe_share, share_target,
  basis_points, distance,
}
use pool.Vardiff.Config.{IsController}
use pool.Vardiff.Retarget.{IsStep, share_target-IsStep}
use pool.Vardiff.Invariant.{
  install_cases, IsLater, counted-IsController, clocked-IsController, forwards-Follows,
}

-- The change of a binding over an elapsed time: the next revision over the same bounds, with
-- another target inside them.
pub record IsRevised (c : VardiffController) (previous current : TargetBinding)
    (d : VardiffController) : Type 0 where
  pub from_old : previous ≡ c.binding
  pub installed : d.binding ≡ current
  pub next : current.revision ≡ previous.revision + 1
  pub same_limits : current.bounds ≡ previous.bounds
  pub moved : current.target ≢ previous.target
  pub above : previous.bounds.hardest_allowed ≤ current.target
  pub below : current.target ≤ previous.bounds.easiest_allowed
  pub fresh : d.observed_intervals ≡ 0

pub install-IsRevised :
    (c : VardiffController) (next now : ℕ) {previous current : TargetBinding}
    {d : VardiffController}
    → c.binding.bounds.hardest_allowed ≤ next
    → next ≤ c.binding.bounds.easiest_allowed
    → install c next now ≡ (ok (changed previous current), d)
    → IsRevised c previous current d × (current.target ≡ next)
install-IsRevised c next now {previous} {current} {d} low high e =
    elim (install_cases c next now low high) [
      | inl (_, k) ↦ absurd (ground arith)
      | inr (inl (_, k)) ↦ absurd (ground arith)
      | inr (inr (moved, fits, k)) ↦ ground arith
    ]

close_window-IsRevised :
    (c : VardiffController) (start now : ℕ) {previous current : TargetBinding}
    {d : VardiffController}
    → IsController c
    → now < u64_mod
    → close_window c start now ≡ (ok (changed previous current), d)
    → IsRevised c previous current d
      × IsStep c.binding.target current.target c.config.maximum_adjustment_factor
          (now - start)
          c.config.sample_window_ms
      × (c.config.sample_window_ms * c.config.hysteresis_bps
          < distance (now - start) c.config.sample_window_ms * basis_points)
unfolding close_window
close_window-IsRevised c start now {previous} {current} {d} v h e =
    let (step, low, high) = share_target-IsStep c v (now - start) (omega arith) in
    let installed : install c (share_target c (now - start)) now
        ≡ (ok (changed previous current), d) =
      ground arith in
    let (revised, same) =
      install-IsRevised c (share_target c (now - start)) now low high installed in
    (revised, rw same step, ground arith)

count_interval-closes :
    (c : VardiffController) (start now : ℕ) {previous current : TargetBinding}
    {d : VardiffController}
    → count_interval c start now ≡ (ok (changed previous current), d)
    → (c.config.sample_intervals ≤ c.observed_intervals + 1)
      × (close_window (record c { observed_intervals = c.observed_intervals + 1 }) start now
          ≡ (ok (changed previous current), d))
unfolding count_interval
count_interval-closes c start now e = (ground arith, ground arith)

observe_share-counts :
    (c : VardiffController) (submitted : TargetBinding) (now : ℕ) {previous current : TargetBinding}
    {d : VardiffController}
    → observe_share c submitted now ≡ (ok (changed previous current), d)
    → (start : ℕ) × (c.window_start_ms ≡ some start)
      × (same_binding submitted c.binding ≡ true)
      × IsLater c now
      × (count_interval (record c { last_now_ms = some now }) start now
          ≡ (ok (changed previous current), d))
unfolding observe_share
observe_share-counts c submitted now {previous} {current} {d} e =
    elim (Option-cases c.window_start_ms) [
      | inl fresh ↦ absurd (ground arith)
      | inr (start, open_) ↦ (
        start,
        open_,
        ground arith,
        forwards-Follows c.last_now_ms now (ground arith),
        ground arith,
      )
    ]

-- When a share changes the binding, it was found under the present binding, at a time not before
-- the last, with the sample complete and the window outside the hysteresis. The new binding has the
-- next revision, the same bounds and another target inside them, at most the policy's factor
-- away; a short window never eases the target and a long one never hardens it.
pub observe_share-IsRevised :
    (c : VardiffController) (submitted : TargetBinding) (now : ℕ) {previous current : TargetBinding}
    {d : VardiffController}
    → IsController c
    → now < u64_mod
    → observe_share c submitted now ≡ (ok (changed previous current), d)
    → (start : ℕ) × (c.window_start_ms ≡ some start)
      × (same_binding submitted c.binding ≡ true)
      × IsLater c now
      × (c.config.sample_intervals ≤ c.observed_intervals + 1)
      × IsRevised c previous current d
      × IsStep c.binding.target current.target c.config.maximum_adjustment_factor
          (now - start)
          c.config.sample_window_ms
      × (c.config.sample_window_ms * c.config.hysteresis_bps
          < distance (now - start) c.config.sample_window_ms * basis_points)
observe_share-IsRevised c submitted now {previous} {current} {d} v h e =
    let (start, opened, own, later, counted) = observe_share-counts c submitted now e in
    let clocked : VardiffController = record c { last_now_ms = some now } in
    let (full, closed) = count_interval-closes clocked start now counted in
    let v' = counted-IsController clocked (clocked-IsController c now v later) in
    let (revised, step, outside) =
      close_window-IsRevised (record clocked { observed_intervals = c.observed_intervals + 1 })
        start now v' h closed in
    (
      start,
      opened,
      own,
      later,
      full,
      record {
        from_old = revised.from_old;
        installed = revised.installed;
        next = revised.next;
        same_limits = revised.same_limits;
        moved = revised.moved;
        above = revised.above;
        below = revised.below;
        fresh = revised.fresh;
      },
      step,
      outside,
    )
