-- ===== src/Accounting/Plan.antt =====
-- `allocate_pplns` as a whole, and `target_work`.
use pool.Base.{
  ℕ, ◌+◌, ◌*◌, ◌/◌, ◌^◌, ◌≤◌, ◌<◌, min, ◌≡◌, ◌≢◌, refl, ap, subst, inl, inr, List, [], ◌∷◌, arith,
  ok, err, All, Result-cases,
}
use pool.Accounting.{
  WeightedShare, Work, AllocationPlan, PplnsError, settle, select, allocate_pplns,
  max_chain_value_zat, max_pool_fee_bps, arithmetic_overflow, conservation_failure, target_work,
}
use pool.Accounting.Select.{
  total_work, offered_work, AreEligible, select-AreEligible, select-le, select_external,
}
use pool.Accounting.Ledger.{
  AscendsFrom, weight, windowed, select-AscendsFrom, select-IsPositive, select-weight,
}
use pool.Accounting.Conservation.{IsExact, settle-IsExact}

-- A plan and the work behind it: the selected work is that of the window, account by account,
-- and the plan divides the reward over it.
pub record IsPlanFor (shares : List WeightedShare) (window reward fee_bps : ℕ) (m : Work)
    (plan : AllocationPlan) : Type 0 where
  pub exact : IsExact reward fee_bps m plan
  pub ascends : AscendsFrom 0 m
  pub weighs : (account : ℕ) → weight account m ≡ windowed account shares window
  pub within : plan.selected_work ≤ window

positive_total : (m : Work) → All (λ (e : ℕ × ℕ). 0 < e.1) m → m ≢ [] → 0 < total_work m
positive_total [] p h = absurd (h refl)
positive_total (x ∷ m) p h = omega (arith, p.0)

module _ (shares : List WeightedShare) (window reward fee_bps : ℕ) where
  -- What follows once the guards are passed and the loop has returned some work.
  settled :
      (m : Work)
      → reward ≤ max_chain_value_zat
      → fee_bps ≤ max_pool_fee_bps
      → select shares window [] [] ≡ ok m
      → m ≢ []
      → (plan : AllocationPlan) × (settle reward fee_bps m ≡ ok plan)
        × IsPlanFor shares window reward fee_bps m plan
  settled m h k e ne =
      let positive = positive_total m (select-IsPositive shares window [] [] tt e) ne in
      let (plan, returned, exact) = settle-IsExact reward fee_bps m h k positive in
      (
        plan,
        returned,
        record {
          exact = exact;
          ascends = select-AscendsFrom shares window [] [] tt e;
          weighs = λ account. omega (arith, select-weight account shares window [] [] e);
          within = omega (arith, exact.selects, select-le shares window [] [] e);
        },
      )

-- What a returned plan says of the guards and of the loop.
returned_parts :
    (shares : List WeightedShare) (window reward fee_bps : ℕ) {plan : AllocationPlan}
    → allocate_pplns shares window reward fee_bps ≡ ok plan
    → (m : Work) × (select shares window [] [] ≡ ok m)
      × (m ≢ [])
      × (reward ≤ max_chain_value_zat)
      × (fee_bps ≤ max_pool_fee_bps)
      × (settle reward fee_bps m ≡ ok plan)
unfolding allocate_pplns
returned_parts shares window reward fee_bps {plan} e =
    elim (Result-cases (select shares window [] [])) [
      | inl (m, done) ↦ (m, done, ground arith, ground arith, ground arith, ground arith)
      | inr (_, failed) ↦ absurd (ground arith)
    ]

-- Every plan that the code returns is exact: the miners' amounts and the fee make up the reward,
-- the fee is the disclosed one, each account is listed once with its work inside the window, and
-- the rest is divided by largest remainder.
pub allocate_pplns-IsPlanFor :
    (shares : List WeightedShare) (window reward fee_bps : ℕ) {plan : AllocationPlan}
    → allocate_pplns shares window reward fee_bps ≡ ok plan
    → (m : Work) × IsPlanFor shares window reward fee_bps m plan
allocate_pplns-IsPlanFor shares window reward fee_bps {plan} e =
    let (m, done, some_work, in_range, fee_fits, paid) =
      returned_parts shares window reward fee_bps e in
    let (plan', settles, good) =
      settled shares window reward fee_bps m in_range fee_fits done some_work in
    let same : plan' ≡ plan = cc in (m, subst (IsPlanFor shares window reward fee_bps m) same good)

settle_succeeds :
    (shares : List WeightedShare) (window reward fee_bps : ℕ) (m : Work)
    → select shares window [] [] ≡ ok m
    → (e : PplnsError) → reward ≤ max_chain_value_zat
    → fee_bps ≤ max_pool_fee_bps
    → m ≢ []
    → settle reward fee_bps m ≢ err e
settle_succeeds shares window reward fee_bps m done e h k ne failed =
    let (plan, settles, good) = settled shares window reward fee_bps m h k done ne in cc

-- Whatever the input, the code reports neither an arithmetic overflow nor a failed conservation
-- check: those two errors are unreachable.
pub allocate_pplns_external :
    (shares : List WeightedShare) (window reward fee_bps : ℕ)
    → (allocate_pplns shares window reward fee_bps ≢ err arithmetic_overflow)
      × (allocate_pplns shares window reward fee_bps ≢ err conservation_failure)
unfolding allocate_pplns
allocate_pplns_external shares window reward fee_bps =
    elim (Result-cases (select shares window [] [])) [
      | inl (m, done) ↦
          let passed = settle_succeeds shares window reward fee_bps m done in
          ground (arith, passed arithmetic_overflow, passed conservation_failure)
      | inr (_, failed) ↦ ground (arith, select_external shares window [] [])
    ]

-- Eligible shares, a window, a reward and a fee in range always give a plan, and it selects the
-- smaller of the window and of the work that the shares offer.
pub allocate_pplns-AreEligible :
    (s : WeightedShare) (shares : List WeightedShare) (window reward fee_bps : ℕ)
    → AreEligible (s ∷ shares) []
    → 0 < window
    → 0 < reward
    → reward ≤ max_chain_value_zat
    → fee_bps ≤ max_pool_fee_bps
    → (plan : AllocationPlan) × (allocate_pplns (s ∷ shares) window reward fee_bps ≡ ok plan)
      × (plan.selected_work ≡ min (offered_work (s ∷ shares)) window)
unfolding allocate_pplns
allocate_pplns-AreEligible s shares window reward fee_bps h w r b f =
    let (m, done, filled) = select-AreEligible (s ∷ shares) window [] [] h in
    let some_work : m ≢ [] = λ e. omega (arith, ap total_work e, filled, h.3) in
    let (plan, settles, good) = settled (s ∷ shares) window reward fee_bps m b f done some_work in
    (plan, ground arith, omega (arith, good.exact.selects, filled))

div-le_of_le : (n a b : ℕ) → 0 < a → a ≤ b → n / b ≤ n / a
div-le_of_le n a b h k = grind arith

-- The work of a target below 2^256 is the floor of 2^256 / (target + 1), at least 1, and an
-- easier target is never worth more.
pub target_work_bounds :
    (target easier : ℕ)
    → 0 < target
    → target ≤ easier
    → easier < 2 ^ 256
    → (work work' : ℕ) × (target_work target ≡ ok work)
      × (target_work easier ≡ ok work')
      × (work * (target + 1) ≤ 2 ^ 256)
      × (2 ^ 256 < (work + 1) * (target + 1))
      × (0 < work')
      × (work' ≤ work)
unfolding target_work
target_work_bounds target easier h le b = (
  2 ^ 256 / (target + 1),
  2 ^ 256 / (easier + 1),
  ground arith,
  ground arith,
  grind arith,
  grind arith,
  grind arith,
  div-le_of_le (2 ^ 256) (target + 1) (easier + 1) (omega arith) (omega arith),
)
