-- ===== src/Accounting.antt =====
-- crates/wcash-pool-store/src/accounting.rs: PPLNS weighting and reward conservation.
-- A share identity (32 bytes) and an account UUID (16 bytes) are the numbers that their bytes
-- spell in big-endian order, so the nil identifier is 0 and the order of UUIDs is that of numbers.
mod Tests
pub mod Select
pub mod Split
pub mod Rounding
pub mod Ledger
pub mod Plan
pub mod Fairness
pub mod Order
pub mod Conservation
use pool.Base.{
  ℕ, zero, suc, ◌+◌, ◌-◌, ◌*◌, ◌/◌, ◌%◌, ◌^◌, min, Bool, true, false, not, ◌&&◌, ◌||◌, List, [],
  ◌∷◌, Option, none, some, ltb, leb, ◌==◌, if◌then◌else◌, length, get_elem?, take, contains,
  range_from, sum_by, Result, ok, err, ◌>>=◌, ◌>>◌, fail_if, ok_or, map, u64_mod,
}

-- MAX_CHAIN_VALUE_ZAT of crates/wcash-pool-protocol/src/backend.rs.
abbrev pub max_chain_value_zat : ℕ
max_chain_value_zat = 2_100_000_000_000_000

abbrev pub max_pool_fee_bps : ℕ
max_pool_fee_bps = 1_000

abbrev pub basis_points : ℕ
basis_points = 10_000

pub record WeightedShare : Type 0 where
  pub share_id : ℕ
  pub account_id : ℕ
  pub work : ℕ

pub record AccountAllocation : Type 0 where
  pub account_id : ℕ
  pub work : ℕ
  pub amount_zat : ℕ

pub record AllocationPlan : Type 0 where
  pub selected_work : ℕ
  pub pool_fee_zat : ℕ
  pub accounts : List AccountAllocation

pub data PplnsError : Type 0 where
  zero_target zero_window no_eligible_work nil_account zero_share_id : PplnsError
  duplicate_share zero_work arithmetic_overflow conservation_failure : PplnsError
  invalid_reward fee_too_high : ℕ → PplnsError

-- `BigUint::from_bytes_le` of the 32 target bytes is the argument of `target_work`.
pub target_work : ℕ → Result PplnsError ℕ
target_work target = if target == 0 then err zero_target else ok (2 ^ 256 / (target + 1))

-- The accumulated work of each account, as the `BTreeMap` keeps it: in the order of the accounts.
abbrev pub Work : Type 0
Work = List (ℕ × ℕ)

-- `*by_account.entry(account).or_default() += work`.
pub add_work : ℕ → ℕ → Work → Work
add_work account work [] = (account, work) ∷ []
add_work account work ((a, w) ∷ m) =
    if ltb account a
    then (account, work) ∷ (a, w) ∷ m
    else if account == a
    then (a, w + work) ∷ m
    else (a, w) ∷ add_work account work m

-- The selection loop, newest share first: its arguments are `remaining`, `by_account` and `seen`.
pub select : List WeightedShare → ℕ → Work → List ℕ → Result PplnsError Work
select [] remaining by_account seen = ok by_account
select (share ∷ rest) remaining by_account seen =
    let selected = min share.work remaining in
    let next =
      select rest (remaining - selected) (add_work share.account_id selected by_account)
        (share.share_id ∷ seen) in
    if share.account_id == 0
    then err nil_account
    else if share.share_id == 0
    then err zero_share_id
    else if contains share.share_id seen
    then err duplicate_share
    else if share.work == 0
    then err zero_work
    else if remaining == 0
    then ok by_account
    else next

-- One element of `provisional`: the account, its work, its amount and the division's remainder.
pub record Provisional : Type 0 where
  pub account_id : ℕ
  pub work : ℕ
  pub amount_zat : ℕ
  pub remainder : ℕ

-- Arithmetic of u64 that reports an overflow.
abbrev pub checked : ℕ → Result PplnsError ℕ
checked n = if ltb n u64_mod then ok n else err arithmetic_overflow

abbrev pub checked_sub : ℕ → ℕ → Result PplnsError ℕ
checked_sub a b = if ltb a b then err arithmetic_overflow else ok (a - b)

-- The loop that splits the reward: `provisional` and the new `floor_total`.
pub apportion : ℕ → ℕ → Work → ℕ → Result PplnsError (List Provisional × ℕ)
apportion reward selected_work [] floor_total = ok ([], floor_total)
apportion reward selected_work ((account, work) ∷ m) floor_total = do
  let numerator = reward * work
  amount ← checked (numerator / selected_work)
  total ← checked (floor_total + amount)
  (rest, final) ← apportion reward selected_work m total
  let entry : Provisional = record {
    account_id = account;
    work = work;
    amount_zat = amount;
    remainder = numerator % selected_work;
  }
  ok (entry ∷ rest, final)

-- The comparison of `remainder_order.sort_by`, as "not greater": the larger remainder first, and
-- of equal remainders the smaller account.
abbrev pub before : Provisional → Provisional → Bool
before a b =
    ltb b.remainder a.remainder || (a.remainder == b.remainder && leb a.account_id b.account_id)

-- The closure compares by index; an index out of range, which would panic, stands last here.
abbrev pub compare_options : Option Provisional → Option Provisional → Bool
compare_options none none = true
compare_options none (some b) = false
compare_options (some a) none = true
compare_options (some a) (some b) = before a b

abbrev pub before_at : List Provisional → ℕ → ℕ → Bool
before_at p i j = compare_options (get_elem? p i) (get_elem? p j)

-- The standard library's stable sort, as an insertion sort.
pub insert_by : (ℕ → ℕ → Bool) → ℕ → List ℕ → List ℕ
insert_by le i [] = i ∷ []
insert_by le i (j ∷ order) = if le i j then i ∷ j ∷ order else j ∷ insert_by le i order

pub sort_by : (ℕ → ℕ → Bool) → List ℕ → List ℕ
sort_by le [] = []
sort_by le (i ∷ order) = insert_by le i (sort_by le order)

pub remainder_order : List Provisional → List ℕ
remainder_order p = sort_by (before_at p) (range_from 0 (length p))

-- `provisional[index].2` plus one. The indices are those of `remainder_order`, hence in range.
pub bump : ℕ → List Provisional → Result PplnsError (List Provisional)
bump i [] = ok []
bump zero (x ∷ p) = do
  amount ← checked (x.amount_zat + 1)
  ok (record x { amount_zat = amount } ∷ p)
bump (suc i) (x ∷ p) = do rest ← bump i p; ok (x ∷ rest)

pub bump_all : List ℕ → List Provisional → Result PplnsError (List Provisional)
bump_all [] p = ok p
bump_all (i ∷ order) p = do next ← bump i p; bump_all order next

-- The largest-remainder division of the miners' reward, from the floors to the last unit.
pub distribute : ℕ → Work → Result PplnsError (List Provisional)
distribute miner_reward by_account = do
  let selected_work = sum_by (λ (e : ℕ × ℕ). e.1) by_account
  (provisional, floor_total) ← apportion miner_reward selected_work by_account 0
  leftover ← checked_sub miner_reward floor_total
  count ← checked leftover
  fail_if (ltb (length provisional) count) arithmetic_overflow
  bump_all (take count (remainder_order provisional)) provisional

abbrev pub to_allocation : Provisional → AccountAllocation
to_allocation p = record { account_id = p.account_id; work = p.work; amount_zat = p.amount_zat }

pub miner_total_zat : AllocationPlan → ℕ
miner_total_zat plan = sum_by (λ (a : AccountAllocation). a.amount_zat) plan.accounts

abbrev is_empty : Work → Bool
is_empty [] = true
is_empty (_ ∷ _) = false

pub pool_fee : ℕ → ℕ → Result PplnsError ℕ
pool_fee reward_zat fee_bps = do
  product ← checked (reward_zat * fee_bps)
  ok (product / basis_points)

-- The code of `allocate_pplns` below the selection loop and its emptiness test.
pub settle : ℕ → ℕ → Work → Result PplnsError AllocationPlan
settle reward_zat fee_bps by_account = do
  fee ← pool_fee reward_zat fee_bps
  miner_reward ← checked_sub reward_zat fee
  provisional ← distribute miner_reward by_account
  let plan : AllocationPlan = record {
    selected_work = sum_by (λ (e : ℕ × ℕ). e.1) by_account;
    pool_fee_zat = fee;
    accounts = map to_allocation provisional;
  }
  let total = miner_total_zat plan + fee
  fail_if (not (ltb total u64_mod && total == reward_zat)) conservation_failure
  ok plan

pub allocate_pplns : List WeightedShare → ℕ → ℕ → ℕ → Result PplnsError AllocationPlan
allocate_pplns newest_first window_work reward_zat fee_bps = do
  fail_if (window_work == 0) zero_window
  fail_if (reward_zat == 0 || ltb max_chain_value_zat reward_zat) (invalid_reward reward_zat)
  fail_if (ltb max_pool_fee_bps fee_bps) (fee_too_high fee_bps)
  by_account ← select newest_first window_work [] []
  fail_if (is_empty by_account) no_eligible_work
  settle reward_zat fee_bps by_account
