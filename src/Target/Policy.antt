-- ===== src/Target/Policy.antt =====
-- Bounds and bindings: when they are made, and that clamping always lands inside.
use pool.Base.{ℕ, ◌≤◌, ◌<◌, max, ◌≡◌, refl, ◌⊎◌, inl, inr, arith, ok, err, Bool-cases, ltb, ltb→lt}
use pool.Target.{
  ShareTarget, TargetBounds, IsBounds, new_bounds, new_binding, clamp,
  operator_limit_excludes_network_winner,
}

abbrev bounds_of : ShareTarget → ShareTarget → ShareTarget → TargetBounds
bounds_of w z easiest = record {
  wcash_network = w;
  zcash_network = z;
  hardest_allowed = max w z;
  easiest_allowed = easiest;
}

-- Bounds are made exactly when the operator's limit is at least as easy as both networks; then
-- their hardest target is the easier of the two network targets, and covers both. Otherwise the
-- limit is below that target, and the error names the two.
pub new_bounds_lem :
    (wcash zcash easiest : ShareTarget)
    → ((b : TargetBounds) × (new_bounds wcash zcash easiest ≡ ok b)
        × (wcash ≤ easiest)
        × (zcash ≤ easiest)
        × IsBounds b
        × (b.wcash_network ≡ wcash)
        × (b.zcash_network ≡ zcash)
        × (b.hardest_allowed ≡ max wcash zcash)
        × (b.easiest_allowed ≡ easiest))
      ⊎ ((easiest < max wcash zcash)
          × (new_bounds wcash zcash easiest
              ≡ err (operator_limit_excludes_network_winner (max wcash zcash) easiest)))
unfolding new_bounds
new_bounds_lem wcash zcash easiest = elim (Bool-cases (ltb easiest (max wcash zcash))) [
  | inl low ↦ inr (ltb→lt _ _ low, rw low)
  | inr high ↦ inl (
    bounds_of wcash zcash easiest,
    rw high,
    ground arith,
    ground arith,
    record { covers_wcash = omega arith; covers_zcash = omega arith; ordered = ground arith },
    refl,
    refl,
    refl,
    refl,
  )
]

-- Clamping lands inside the bounds, keeps what is inside, and so always gives a binding.
pub new_binding-clamp :
    (b : TargetBounds) (revision : ℕ) (target : ShareTarget)
    → IsBounds b
    → (new_binding revision (clamp b target) b
        ≡ ok (record { revision = revision; target = clamp b target; bounds = b }))
      × (b.hardest_allowed ≤ clamp b target)
      × (clamp b target ≤ b.easiest_allowed)
      × (b.hardest_allowed ≤ target → target ≤ b.easiest_allowed → clamp b target ≡ target)
unfolding new_binding
new_binding-clamp b revision target h =
    (ground (arith, h.ordered), ground (arith, h.ordered), ground (arith, h.ordered), ground arith)
