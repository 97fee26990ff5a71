-- ===== src/Vardiff/Easing.antt =====
-- What a tick and new network targets do to the binding.
use pool.Base.{
  ℕ, ◌+◌, ◌-◌, ◌*◌, ◌≤◌, ◌<◌, ◌≡◌, refl, ap, ◌∙◌, inl, inr, false, Option, none, some, arith, ok,
  ltb, u64_mod, Option-cases,
}
use pool.Target.{TargetBinding}
use pool.Vardiff.{
  VardiffController, changed, install, ease_window, tick, tick_target, basis_points, runs_backwards,
}
use pool.Vardiff.Config.{IsConfig, IsController}
use pool.Vardiff.Retarget.{tick_target-IsStep, tick_target_grows}
use pool.Vardiff.Invariant.{install_cases, IsLater, Follows, clocked-IsController, forwards-Follows}
use pool.Vardiff.Changes.{IsRevised, install-IsRevised}

ease_window-installs :
    (c : VardiffController) (start now : ℕ) {previous current : TargetBinding}
    {d : VardiffController}
    → ease_window c start now ≡ (ok (changed previous current), d)
    → (c.config.sample_window_ms < now - start)
      × (c.config.sample_window_ms * c.config.hysteresis_bps
          < (now - start - c.config.sample_window_ms) * basis_points)
      × (install c (tick_target c (now - start)) now ≡ (ok (changed previous current), d))
unfolding ease_window
ease_window-installs c start now e = (ground arith, ground arith, ground arith)

tick-eases :
    (c : VardiffController) (now : ℕ) {previous current : TargetBinding} {d : VardiffController}
    → tick c now ≡ (ok (changed previous current), d)
    → (start : ℕ) × (c.window_start_ms ≡ some start)
      × IsLater c now
      × (ease_window (record c { last_now_ms = some now }) start now
          ≡ (ok (changed previous current), d))
unfolding tick
tick-eases c now {previous} {current} {d} e = elim (Option-cases c.window_start_ms) [
  | inl fresh ↦ absurd (ground arith)
  | inr (start, open_) ↦
      (start, open_, forwards-Follows c.last_now_ms now (ground arith), ground arith)
]

-- When a tick changes the binding, the window has run beyond the upper hysteresis boundary, and
-- the new target is strictly easier, by at most the policy's factor and inside the bounds: a
-- tick never makes a target harder.
pub tick-IsRevised :
    (c : VardiffController) (now : ℕ) {previous current : TargetBinding} {d : VardiffController}
    → IsController c
    → now < u64_mod
    → tick c now ≡ (ok (changed previous current), d)
    → (start : ℕ) × (c.window_start_ms ≡ some start)
      × (c.config.sample_window_ms * c.config.hysteresis_bps
          < (now - start - c.config.sample_window_ms) * basis_points)
      × IsRevised c previous current d
      × (previous.target < current.target)
      × (current.target ≤ previous.target * c.config.maximum_adjustment_factor)
tick-IsRevised c now {previous} {current} {d} v h e =
    let (start, opened, later, eased) = tick-eases c now e in
    let clocked : VardiffController = record c { last_now_ms = some now } in
    let (long, outside, installed) = ease_window-installs clocked start now eased in
    let v' = clocked-IsController c now v later in
    let (up, bounded, high) = tick_target-IsStep clocked v' (now - start) (omega arith) in
    let (revised, same) =
      install-IsRevised clocked (tick_target clocked (now - start)) now
        (omega (arith, v.bound.floor, up)) high installed in
    let old : previous.target ≡ c.binding.target =
      ap (λ (b : TargetBinding). b.target) revised.from_old in
    (
      start,
      opened,
      outside,
      record {
        from_old = revised.from_old;
        installed = revised.installed;
        next = revised.next;
        same_limits = revised.same_limits;
        moved = revised.moved;
        above = revised.above;
        below = revised.below;
        fresh = revised.fresh;
      },
      rw old (ground (arith, same, up, revised.moved, old)),
      rw old (omega (arith, same, bounded)),
    )

below_window :
    (window hysteresis : ℕ)
    → 0 < window
    → hysteresis < basis_points
    → window * hysteresis < window * basis_points
below_window window hysteresis p h = grind arith

Follows-forwards :
    (last : Option ℕ) (now : ℕ)
    → Follows last now
    → (elim last [ none ↦ false | some t ↦ ltb now t ]) ≡ false
Follows-forwards none now h = refl
Follows-forwards (some t) now h = ground arith

tick-reaches :
    (c : VardiffController) (start now : ℕ)
    → c.window_start_ms ≡ some start
    → runs_backwards c now ≡ false
    → tick c now ≡ ease_window (record c { last_now_ms = some now }) start now
unfolding tick
tick-reaches c start now opened forth = ground arith

ease_window-late :
    (c : VardiffController) (start now : ℕ)
    → IsConfig c.config
    → start + 2 * c.config.sample_window_ms ≤ now
    → ease_window c start now ≡ install c (tick_target c (now - start)) now
unfolding ease_window
ease_window-late c start now v late =
    let narrow =
      below_window c.config.sample_window_ms c.config.hysteresis_bps (omega (arith, v.long_window))
        v.bounded_hysteresis in
    ground arith

-- A worker that stays silent for two windows has its target eased by the next tick, whenever the
-- target is below the operator's limit, the policy allows a step and a revision is left.
pub tick_progress :
    (c : VardiffController) (start now : ℕ)
    → IsController c
    → now < u64_mod
    → c.window_start_ms ≡ some start
    → IsLater c now
    → start + 2 * c.config.sample_window_ms ≤ now
    → 2 ≤ c.config.maximum_adjustment_factor
    → c.binding.target < c.binding.bounds.easiest_allowed
    → c.binding.revision + 1 < u64_mod
    → (current : TargetBinding) × (d : VardiffController) × (tick c now
        ≡ (ok (changed c.binding current), d))
      × (c.binding.target < current.target)
tick_progress c start now v h opened later late factor below numbered =
    let clocked : VardiffController = record c { last_now_ms = some now } in
    let v' = clocked-IsController c now v later in
    let elapsed = now - start in
    let two : 2 * c.config.sample_window_ms ≤ elapsed = omega arith in
    let (up, bounded, high) = tick_target-IsStep clocked v' elapsed (omega arith) in
    let grows = tick_target_grows clocked v' elapsed (omega arith) two factor below in
    let reached =
      tick-reaches c start now opened (Follows-forwards c.last_now_ms now later)
      ∙ ease_window-late clocked start now v'.configured late in
    elim (install_cases clocked (tick_target clocked elapsed) now (omega (arith, v.bound.floor, up))
      high) [
        | inl (stays, _) ↦ absurd (omega (arith, grows, stays))
        | inr (inl (exhausted, _)) ↦ absurd (omega (arith, exhausted))
        | inr (inr (moved, fits, e)) ↦ (_, _, reached ∙ e, grows)
      ]
