-- ===== src/Vardiff/Networks.antt =====
-- New network targets: the binding is moved so that it still admits every winner.
use pool.Base.{
  ◌+◌, ◌≤◌, ◌<◌, max, ◌≡◌, refl, ◌⊎◌, inl, inr, true, none, arith, ok, err, u64_mod, Bool-cases,
}
use pool.Target.{
  ShareTarget, TargetBinding, TargetBounds, clamp, same_bounds,
  operator_limit_excludes_network_winner,
}
use pool.Target.Policy.{new_bounds_lem, new_binding-clamp}
use pool.Vardiff.{VardiffController, target_policy, next_revision, update_network_targets}
use pool.Vardiff.Config.{IsController}

-- The controller's binding admits the winners of both networks.
pub record Admits (wcash zcash : ShareTarget) (b : TargetBinding) : Type 0 where
  pub wcash_bound : b.bounds.wcash_network ≡ wcash
  pub zcash_bound : b.bounds.zcash_network ≡ zcash
  pub wcash_winner : wcash ≤ b.target
  pub zcash_winner : zcash ≤ b.target

kept_bounds :
    (c : VardiffController) (bounds : TargetBounds) (wcash zcash : ShareTarget)
    → IsController c
    → bounds.wcash_network ≡ wcash
    → bounds.zcash_network ≡ zcash
    → same_bounds bounds c.binding.bounds ≡ true
    → Admits wcash zcash c.binding
kept_bounds c bounds wcash zcash v w z same = record {
  wcash_bound = ground arith;
  zcash_bound = ground arith;
  wcash_winner = ground (arith, v.bound.floor, v.bound.bounded.covers_wcash);
  zcash_winner = ground (arith, v.bound.floor, v.bound.bounded.covers_zcash);
}

-- New network targets within the operator's limit, with a revision left: the controller stays
-- valid, and its binding is over the new targets and at least as easy as both. A limit that is
-- harder than a network is refused with the controller unchanged.
pub update_network_targets-Admits :
    (c : VardiffController) (wcash zcash : ShareTarget)
    → IsController c
    → 0 < wcash
    → c.binding.revision + 1 < u64_mod
    → ((b : TargetBinding) × (d : VardiffController) × (update_network_targets c wcash zcash
          ≡ (ok b, d))
        × (b ≡ d.binding)
        × IsController d
        × Admits wcash zcash b)
      ⊎ ((c.config.operator_easiest < max wcash zcash)
          × (update_network_targets c wcash zcash ≡ (
            err (
                target_policy (
                  operator_limit_excludes_network_winner
                    (max wcash zcash)
                    c.config.operator_easiest)),
            c,
          )))
unfolding update_network_targets next_revision
update_network_targets-Admits c wcash zcash v pos fits =
    elim (new_bounds_lem wcash zcash c.config.operator_easiest) [
      | inr (low, refused) ↦ inr (low, ground (arith, refused))
      | inl (bounds, made, _, _, good, w, z, hardest, easiest) ↦
          let (bound, above, below, _) =
            new_binding-clamp bounds (c.binding.revision + 1) c.binding.target good in
          let target = clamp bounds c.binding.target in
          let binding : TargetBinding = record {
            revision = c.binding.revision + 1;
            target = target;
            bounds = bounds;
          } in
          elim (Bool-cases (same_bounds bounds c.binding.bounds)) [
            | inl same ↦ inl (
              c.binding,
              c,
              ground (arith, made),
              refl,
              v,
              kept_bounds c bounds wcash zcash v w z same,
            )
            | inr new ↦ inl (
              binding,
              record c { binding = binding; window_start_ms = none; observed_intervals = 0 },
              ground (arith, made, bound),
              refl,
              record {
                configured = v.configured;
                bound = record { floor = above; ceiling = below; bounded = good };
                nonzero = omega (arith, hardest);
                fits = omega (arith, easiest, v.operator, v.fits);
                operator = easiest;
                numbered = fits;
                started = tt;
              },
              record {
                wcash_bound = w;
                zcash_bound = z;
                wcash_winner = omega (arith, hardest, above);
                zcash_winner = omega (arith, hardest, above);
              },
            )
          ]
    ]
