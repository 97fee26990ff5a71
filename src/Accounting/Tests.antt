-- ===== src/Accounting/Tests.antt =====
-- Runs of the accounting model on the inputs of its unit tests, and instances of its theorems.
use pool.Base.{ℕ, min, arith, ◌≡◌, ◌≢◌, refl, List, [], ◌∷◌, ok, err}
use pool.Accounting.{
  WeightedShare, AllocationPlan, fee_too_high, duplicate_share, no_eligible_work, allocate_pplns,
  select, add_work, apportion, insert_by, sort_by, remainder_order, bump, bump_all, distribute,
  miner_total_zat, pool_fee, settle, Work, arithmetic_overflow, conservation_failure,
}
use pool.Accounting.Select.{offered_work}
use pool.Accounting.Plan.{
  IsPlanFor, allocate_pplns-IsPlanFor, allocate_pplns_external, allocate_pplns-AreEligible,
}

abbrev share : ℕ → ℕ → ℕ → WeightedShare
share i a w = record { share_id = i; account_id = a; work = w }

abbrev three_shares : List WeightedShare
three_shares = share 1 1 70 ∷ share 2 2 70 ∷ share 3 3 70 ∷ []

abbrev three_plan : AllocationPlan
three_plan = record {
  selected_work = 100;
  pool_fee_zat = 10;
  accounts =
      record { account_id = 1; work = 70; amount_zat = 694 }
      ∷ record { account_id = 2; work = 30; amount_zat = 297 }
      ∷ [];
}

partial_window : allocate_pplns three_shares 100 1_001 100 ≡ ok three_plan
unfolding allocate_pplns select add_work apportion insert_by sort_by remainder_order bump bump_all
    distribute settle miner_total_zat pool_fee
partial_window = refl

-- Of three equal remainders the smaller accounts have the units.
ties :
    allocate_pplns (share 1 2 1 ∷ share 2 1 1 ∷ share 3 3 1 ∷ []) 3 2 0
    ≡ ok (record {
      selected_work = 3;
      pool_fee_zat = 0;
      accounts =
          record { account_id = 1; work = 1; amount_zat = 1 }
          ∷ record { account_id = 2; work = 1; amount_zat = 1 }
          ∷ record { account_id = 3; work = 1; amount_zat = 0 }
          ∷ [];
    })
unfolding allocate_pplns select add_work apportion insert_by sort_by remainder_order bump bump_all
    distribute settle miner_total_zat pool_fee
ties = refl

refusals :
    (allocate_pplns [] 1 1 0 ≡ err no_eligible_work)
    × (allocate_pplns (share 1 1 1 ∷ []) 1 1 1_001 ≡ err (fee_too_high 1_001))
    × (allocate_pplns (share 1 1 1 ∷ share 1 1 1 ∷ []) 2 1 0 ≡ err duplicate_share)
unfolding allocate_pplns select
refusals = (refl, refl, refl)

allocate_pplns-IsPlanFor_example : (m : Work) × IsPlanFor three_shares 100 1_001 100 m three_plan
allocate_pplns-IsPlanFor_example =
    allocate_pplns-IsPlanFor three_shares 100 1_001 100 partial_window

allocate_pplns_external_example :
    (allocate_pplns three_shares 100 1_001 100 ≢ err arithmetic_overflow)
    × (allocate_pplns three_shares 100 1_001 100 ≢ err conservation_failure)
allocate_pplns_external_example = allocate_pplns_external three_shares 100 1_001 100

allocate_pplns-AreEligible_example :
    (plan : AllocationPlan) × (allocate_pplns three_shares 100 1_001 100 ≡ ok plan)
    × (plan.selected_work ≡ min (offered_work three_shares) 100)
allocate_pplns-AreEligible_example =
    allocate_pplns-AreEligible (share 1 1 70) (share 2 2 70 ∷ share 3 3 70 ∷ []) 100 1_001 100
      (ground arith) (omega arith) (omega arith) (omega arith) (omega arith)
