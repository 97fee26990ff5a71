-- ===== src/Vardiff/Invariant.antt =====
-- Every method keeps the invariant, never fails on its own targets, and changes a target only by
-- a bounded step in the right direction.
use pool.Base.{
  ℕ, ◌+◌, ◌-◌, ◌≤◌, ◌<◌, ◌≡◌, ◌≢◌, refl, sym, subst, ◌⊎◌, inl, inr, false, Option, none, some,
  arith, ok, err, ltb, u64_mod, Option-cases, Bool-cases,
}
use pool.Target.{ShareTarget, TargetBinding, TargetPolicyError, new_binding}
use pool.Vardiff.{
  VardiffController, Outcome, target_policy, changed, unchanged, revision_overflow, install,
  close_window, count_interval, observe_share, ease_window, tick, share_target, tick_target,
  runs_backwards,
}
use pool.Vardiff.Config.{IsController, StartsBefore}
use pool.Vardiff.Retarget.{share_target-IsStep, tick_target-IsStep}

-- An outcome leaves a valid controller under the same policy, and is no error of target policy.
abbrev pub IsSafe : VardiffController → Outcome → Type 0
IsSafe c (r, d) =
    IsController d × (d.config ≡ c.config) × ((e : TargetPolicyError) → r ≢ err (target_policy e))

-- What `install` does with a target inside the bounds.
pub install_cases :
    (c : VardiffController) (next now : ℕ)
    → c.binding.bounds.hardest_allowed ≤ next
    → next ≤ c.binding.bounds.easiest_allowed
    → let kept : VardiffController = record c {
      window_start_ms = some now;
      observed_intervals = 0;
    } in
      let binding : TargetBinding = record {
        revision = c.binding.revision + 1;
        target = next;
        bounds = c.binding.bounds;
      } in
      ((next ≡ c.binding.target) × (install c next now ≡ (ok (unchanged c.binding), kept)))
      ⊎ ((u64_mod ≤ c.binding.revision + 1) × (install c next now ≡ (err revision_overflow, c)))
      ⊎ ((next ≢ c.binding.target)
          × (c.binding.revision + 1 < u64_mod)
          × (install c next now
              ≡ (ok (changed c.binding binding), record kept { binding = binding })))
unfolding install new_binding
install_cases c next now low high = ground arith

-- A time that the clock may show: not before the last one.
abbrev pub Follows : Option ℕ → ℕ → Type 0
Follows none now = Unit
Follows (some last) now = last ≤ now

abbrev pub IsLater : VardiffController → ℕ → Type 0
IsLater c now = Follows c.last_now_ms now

later-StartsBefore :
    (start last : Option ℕ) (now : ℕ)
    → StartsBefore start last
    → Follows last now
    → StartsBefore start (some now)
later-StartsBefore none last now s k = tt
later-StartsBefore (some start) none now s k = absurd s
later-StartsBefore (some start) (some last) now s k = omega arith

module _ (c : VardiffController) (now : ℕ) (v : IsController c) (l : c.last_now_ms ≡ some now) where
  restarted : StartsBefore (some now) c.last_now_ms
  restarted = subst (StartsBefore (some now)) (sym l) (omega arith)

  kept-IsController : IsController (record c { window_start_ms = some now; observed_intervals = 0 })
  kept-IsController = record {
    configured = v.configured;
    bound = v.bound;
    nonzero = v.nonzero;
    fits = v.fits;
    operator = v.operator;
    numbered = v.numbered;
    started = restarted;
  }

  rebound-IsController :
      (next : ShareTarget)
      → c.binding.bounds.hardest_allowed ≤ next
      → next ≤ c.binding.bounds.easiest_allowed
      → c.binding.revision + 1 < u64_mod
      → IsController (record c {
        binding = record {
          revision = c.binding.revision + 1;
          target = next;
          bounds = c.binding.bounds;
        };
        window_start_ms = some now;
        observed_intervals = 0;
      })
  rebound-IsController next low high fits = record {
    configured = v.configured;
    bound = record { floor = low; ceiling = high; bounded = v.bound.bounded };
    nonzero = v.nonzero;
    fits = v.fits;
    operator = v.operator;
    numbered = fits;
    started = restarted;
  }

install-IsSafe :
    (c : VardiffController) (next now : ℕ)
    → IsController c
    → c.last_now_ms ≡ some now
    → c.binding.bounds.hardest_allowed ≤ next
    → next ≤ c.binding.bounds.easiest_allowed
    → IsSafe c (install c next now)
install-IsSafe c next now v l low high = elim (install_cases c next now low high) [
  | inl (_, e) ↦ subst (IsSafe c) (sym e) (kept-IsController c now v l, refl, λ _ x. cc)
  | inr (inl (_, e)) ↦ subst (IsSafe c) (sym e) (v, refl, λ _ x. cc)
  | inr (inr (_, fits, e)) ↦
      subst (IsSafe c) (sym e) (rebound-IsController c now v l next low high fits, refl, λ _ x. cc)
]

close_window-IsSafe :
    (c : VardiffController) (start now : ℕ)
    → IsController c
    → c.last_now_ms ≡ some now
    → now < u64_mod
    → IsSafe c (close_window c start now)
unfolding close_window
close_window-IsSafe c start now v l h =
    let (step, low, high) = share_target-IsStep c v (now - start) (omega arith) in
    ground (
      arith,
      v,
      kept-IsController c now v l,
      install-IsSafe c (share_target c (now - start)) now v l low high,
    )

pub clocked-IsController :
    (c : VardiffController) (now : ℕ)
    → IsController c
    → IsLater c now
    → IsController (record c { last_now_ms = some now })
clocked-IsController c now v k = record {
  configured = v.configured;
  bound = v.bound;
  nonzero = v.nonzero;
  fits = v.fits;
  operator = v.operator;
  numbered = v.numbered;
  started = later-StartsBefore c.window_start_ms c.last_now_ms now v.started k;
}

pub counted-IsController :
    (c : VardiffController)
    → IsController c
    → IsController (record c { observed_intervals = c.observed_intervals + 1 })
counted-IsController c v = record {
  configured = v.configured;
  bound = v.bound;
  nonzero = v.nonzero;
  fits = v.fits;
  operator = v.operator;
  numbered = v.numbered;
  started = v.started;
}

count_interval-IsSafe :
    (c : VardiffController) (start now : ℕ)
    → IsController c
    → c.last_now_ms ≡ some now
    → now < u64_mod
    → IsSafe c (count_interval c start now)
unfolding count_interval
count_interval-IsSafe c start now v l h =
    let counted : VardiffController = record c { observed_intervals = c.observed_intervals + 1 } in
    let v' = counted-IsController c v in
    ground (arith, v, v', close_window-IsSafe counted start now v' l h)

ease_window-IsSafe :
    (c : VardiffController) (start now : ℕ)
    → IsController c
    → c.last_now_ms ≡ some now
    → now < u64_mod
    → IsSafe c (ease_window c start now)
unfolding ease_window
ease_window-IsSafe c start now v l h =
    let (harder_no, bounded, high) = tick_target-IsStep c v (now - start) (omega arith) in
    ground (
      arith,
      v,
      install-IsSafe c (tick_target c (now - start)) now v l
          (omega (arith, v.bound.floor, harder_no)) high,
    )

pub forwards-Follows :
    (last : Option ℕ) (now : ℕ)
    → (elim last [ none ↦ false | some t ↦ ltb now t ]) ≡ false
    → Follows last now
forwards-Follows none now e = tt
forwards-Follows (some t) now e = ground arith

opened-IsController :
    (c : VardiffController) (now : ℕ)
    → IsController c
    → IsController (record c { window_start_ms = some now; last_now_ms = some now })
opened-IsController c now v = record {
  configured = v.configured;
  bound = v.bound;
  nonzero = v.nonzero;
  fits = v.fits;
  operator = v.operator;
  numbered = v.numbered;
  started = omega arith;
}

-- An accepted share keeps a valid controller valid under the same policy, at any time that fits in
-- a u64 and for any submitted binding, and is never refused by target policy.
pub observe_share-IsSafe :
    (c : VardiffController) (submitted : TargetBinding) (now : ℕ)
    → IsController c
    → now < u64_mod
    → IsSafe c (observe_share c submitted now)
unfolding observe_share
observe_share-IsSafe c submitted now v h =
    let clocked : VardiffController = record c { last_now_ms = some now } in
    let later = λ (e : runs_backwards c now ≡ false).
      clocked-IsController c now v (forwards-Follows c.last_now_ms now e) in
    elim (Bool-cases (runs_backwards c now)) [
      | inl back ↦ ground (arith, v)
      | inr forth ↦ elim (Option-cases c.window_start_ms) [
        | inl fresh ↦ ground (arith, v, opened-IsController c now v)
        | inr (start, open_) ↦
            ground (arith, v, count_interval-IsSafe clocked start now (later forth) refl h)
      ]
    ]

-- A tick keeps a valid controller valid under the same policy, at any time that fits in a u64, and
-- is never refused by target policy.
pub tick-IsSafe :
    (c : VardiffController) (now : ℕ) → IsController c → now < u64_mod → IsSafe c (tick c now)
unfolding tick
tick-IsSafe c now v h =
    let clocked : VardiffController = record c { last_now_ms = some now } in
    let later = λ (e : runs_backwards c now ≡ false).
      clocked-IsController c now v (forwards-Follows c.last_now_ms now e) in
    elim (Bool-cases (runs_backwards c now)) [
      | inl back ↦ ground (arith, v)
      | inr forth ↦ elim (Option-cases c.window_start_ms) [
        | inl fresh ↦ ground (arith, v, opened-IsController c now v)
        | inr (start, open_) ↦
            ground (arith, v, ease_window-IsSafe clocked start now (later forth) refl h)
      ]
    ]
