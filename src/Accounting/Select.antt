-- ===== src/Accounting/Select.antt =====
-- The selection loop of PPLNS: what it takes from the window, and when it refuses.
use pool.Base.{
  ℕ, zero, suc, ◌+◌, ◌-◌, ◌≤◌, ◌<◌, min, ◌≡◌, ◌≢◌, refl, false, List, [], ◌∷◌, arith, contains,
  sum_by, ok, err,
}
use pool.Accounting.{
  WeightedShare, Work, arithmetic_overflow, conservation_failure, add_work, select,
}

abbrev pub total_work : Work → ℕ
total_work = sum_by (λ (e : ℕ × ℕ). e.1)

abbrev pub offered_work : List WeightedShare → ℕ
offered_work = sum_by (λ (s : WeightedShare). s.work)

pub total_work-add_work :
    (account work : ℕ) (m : Work) → total_work (add_work account work m) ≡ total_work m + work
unfolding add_work
total_work-add_work account work [] = omega arith
total_work-add_work account work (x ∷ m) = ground (arith, total_work-add_work account work m)

-- Shares that the loop does not refuse, given the identities already seen.
abbrev pub AreEligible : List WeightedShare → List ℕ → Type 0
AreEligible [] seen = Unit
AreEligible (s ∷ rest) seen =
    (0 < s.account_id)
    × (0 < s.share_id)
    × (contains s.share_id seen ≡ false)
    × (0 < s.work)
    × AreEligible rest (s.share_id ∷ seen)

-- Eligible shares are all accepted, and the window is filled as far as their work goes.
pub select-AreEligible :
    (shares : List WeightedShare) (remaining : ℕ) (m : Work) (seen : List ℕ)
    → AreEligible shares seen
    → (m' : Work) × (select shares remaining m seen ≡ ok m')
      × (total_work m' ≡ total_work m + min (offered_work shares) remaining)
unfolding select
select-AreEligible [] remaining m seen h = (m, refl, omega arith)
select-AreEligible (s ∷ rest) zero m seen h = (m, ground arith, omega arith)
select-AreEligible (s ∷ rest) (suc r) m seen h =
    let (m', e, t) =
      select-AreEligible rest (suc r - min s.work (suc r))
        (add_work s.account_id (min s.work (suc r)) m) (s.share_id ∷ seen) h.4 in
    (m', ground arith, omega (arith, total_work-add_work s.account_id (min s.work (suc r)) m))

-- Whatever the loop accepts, it has taken no more than the window.
pub select-le :
    (shares : List WeightedShare) (remaining : ℕ) (m : Work) (seen : List ℕ) {m' : Work}
    → select shares remaining m seen ≡ ok m'
    → total_work m' ≤ total_work m + remaining
unfolding select
select-le [] remaining m seen e = ground arith
select-le (s ∷ rest) remaining m seen {m'} e = ground (
  arith,
  select-le rest (remaining - min s.work remaining) (add_work s.account_id (min s.work remaining) m)
      (s.share_id ∷ seen) {m' = m'},
  total_work-add_work s.account_id (min s.work remaining) m,
)

-- The loop never reports an internal failure.
pub select_external :
    (shares : List WeightedShare) (remaining : ℕ) (m : Work) (seen : List ℕ)
    → (select shares remaining m seen ≢ err arithmetic_overflow)
      × (select shares remaining m seen ≢ err conservation_failure)
unfolding select
select_external [] remaining m seen = ground arith
select_external (s ∷ rest) remaining m seen = ground (
  arith,
  select_external rest (remaining - min s.work remaining)
      (add_work s.account_id (min s.work remaining) m) (s.share_id ∷ seen),
)
