-- ===== src/Accounting/Conservation.antt =====
-- `distribute` and `settle`: the division of a reward is total, exact and by largest remainder.
use pool.Base.{
  u64_mod, ℕ, ◌+◌, ◌-◌, ◌*◌, ◌/◌, ◌≤◌, ◌<◌, ◌≡◌, refl, ap, ◌∙◌, List, [], ◌∷◌, arith, sum_by, ok,
  length, take, map, length-take, All-take,
}
use pool.Accounting.{
  Work, Provisional, AllocationPlan, AccountAllocation, settle, distribute, remainder_order,
  to_allocation, miner_total_zat, pool_fee, max_chain_value_zat, max_pool_fee_bps, basis_points,
}
use pool.Accounting.Select.{total_work}
use pool.Accounting.Split.{amounts, labels, apportion-Splits, leftover-lt}
use pool.Accounting.Rounding.{bump_all-amounts, remainder_order-All, length-remainder_order}
use pool.Accounting.Fairness.{
  bump_all-get_elem?, bump_all-labels, IsLargestRemainder, raised-IsLargestRemainder,
}

amounts-map :
    (p : List Provisional)
    → sum_by (λ (a : AccountAllocation). a.amount_zat) (map to_allocation p) ≡ amounts p
amounts-map [] = refl
amounts-map (x ∷ p) = omega (arith, amounts-map p)

labels-map :
    (p : List Provisional)
    → map (λ (x : AccountAllocation). (x.account_id, x.work)) (map to_allocation p) ≡ labels p
labels-map [] = refl
labels-map (x ∷ p) = ap (◌∷◌ (x.account_id, x.work)) (labels-map p)

record IsDivided (reward : ℕ) (m : Work) (p : List Provisional) : Type 0 where
  exhausts : amounts p ≡ reward
  labelled : labels p ≡ m
  fair : IsLargestRemainder reward (total_work m) (map to_allocation p)

-- The division of a reward over work is total, and gives out the reward exactly.
distribute-IsDivided :
    (reward : ℕ) (m : Work)
    → reward < u64_mod
    → 0 < total_work m
    → (p : List Provisional) × (distribute reward m ≡ ok p) × IsDivided reward m p
unfolding distribute
distribute-IsDivided reward m b h =
    let (p, final, e, s) = apportion-Splits reward (total_work m) 0 m h b (omega arith) in
    let (fits, few) = leftover-lt reward (total_work m) m p final h refl s in
    let n = reward - final in
    let chosen = take n (remainder_order p) in
    let sized : length chosen ≡ n = length-take _ _ (omega (arith, length-remainder_order p)) in
    let (p', e', t, l) =
      bump_all-amounts chosen p (All-take _ n _ (remainder_order-All p))
        (omega (arith, sized, s.totalled)) in
    let fair =
      raised-IsLargestRemainder reward (total_work m) n p p' s.floors
        (λ (j : ℕ). bump_all-get_elem? chosen j p {p' = p'} e') in
    (
      p',
      ground arith,
      record {
        exhausts = omega (arith, t, sized, s.totalled);
        labelled = bump_all-labels chosen p e' ∙ s.labelled;
        fair = fair;
      },
    )

pool_fee_bound :
    (reward fee_bps : ℕ)
    → reward ≤ max_chain_value_zat
    → fee_bps ≤ max_pool_fee_bps
    → (pool_fee reward fee_bps ≡ ok (reward * fee_bps / basis_points))
      × (reward * fee_bps / basis_points ≤ reward)
unfolding pool_fee
pool_fee_bound reward fee_bps h k =
    let small : reward * fee_bps ≤ max_chain_value_zat * max_pool_fee_bps = grind arith in
    let scaled : reward * fee_bps ≤ reward * max_pool_fee_bps = grind arith in
    (ground arith, omega arith)

-- A plan for the work `m` that gives out the whole reward, charges the disclosed fee, lists the
-- accounts of `m` with their work, and divides the rest by largest remainder.
pub record IsExact (reward fee_bps : ℕ) (m : Work) (plan : AllocationPlan) : Type 0 where
  pub conserves : miner_total_zat plan + plan.pool_fee_zat ≡ reward
  pub charges : plan.pool_fee_zat ≡ reward * fee_bps / basis_points
  pub selects : plan.selected_work ≡ total_work m
  pub lists : map (λ (x : AccountAllocation). (x.account_id, x.work)) plan.accounts ≡ m
  pub divides : IsLargestRemainder (reward - plan.pool_fee_zat) plan.selected_work plan.accounts

pub settle-IsExact :
    (reward fee_bps : ℕ) (m : Work)
    → reward ≤ max_chain_value_zat
    → fee_bps ≤ max_pool_fee_bps
    → 0 < total_work m
    → (plan : AllocationPlan) × (settle reward fee_bps m ≡ ok plan) × IsExact reward fee_bps m plan
unfolding settle miner_total_zat
settle-IsExact reward fee_bps m h k w =
    let fee = reward * fee_bps / basis_points in
    let (charged, fits) = pool_fee_bound reward fee_bps h k in
    let (p, e, d) = distribute-IsDivided (reward - fee) m (omega arith) w in
    let plan : AllocationPlan = record {
      selected_work = total_work m;
      pool_fee_zat = fee;
      accounts = map to_allocation p;
    } in
    (
      plan,
      ground (arith, amounts-map p, d.exhausts),
      record {
        conserves = omega (arith, amounts-map p, d.exhausts);
        charges = refl;
        selects = refl;
        lists = labels-map p ∙ d.labelled;
        divides = d.fair;
      },
    )
