-- ===== src/Accounting/Ledger.antt =====
-- The `BTreeMap` of the selection loop: its order, its positive works, and what each account has.
use pool.Base.{ℕ, ◌+◌, ◌-◌, ◌<◌, min, ◌≡◌, refl, List, [], ◌∷◌, arith, ◌==◌, if◌then◌else◌, ok, All}
use pool.Accounting.{WeightedShare, Work, add_work, select}

-- The accounts rise strictly, from above a bound.
abbrev pub AscendsFrom : ℕ → Work → Type 0
AscendsFrom low [] = Unit
AscendsFrom low ((a, w) ∷ m) = (low < a) × AscendsFrom a m

-- The work that the map holds for an account.
abbrev pub weight : ℕ → Work → ℕ
weight account [] = 0
weight account ((a, w) ∷ m) = (if a == account then w else 0) + weight account m

-- The work of an account inside the window, from the shares alone: the newest share first, each
-- up to what is left of the window.
abbrev pub windowed : ℕ → List WeightedShare → ℕ → ℕ
windowed account [] remaining = 0
windowed account (s ∷ rest) remaining =
    (if s.account_id == account then min s.work remaining else 0)
    + windowed account rest (remaining - s.work)

abbrev IsPositive : ℕ × ℕ → Type 0
IsPositive e = 0 < e.1

add_work-AscendsFrom :
    (low a w : ℕ) (m : Work) → low < a → AscendsFrom low m → AscendsFrom low (add_work a w m)
unfolding add_work
add_work-AscendsFrom low a w [] h s = (h, tt)
add_work-AscendsFrom low a w (x ∷ m) h s = ground (arith, add_work-AscendsFrom x.0 a w m)

weight-add_work :
    (account a w : ℕ) (m : Work)
    → weight account (add_work a w m) ≡ weight account m + (if a == account then w else 0)
unfolding add_work
weight-add_work account a w [] = ground arith
weight-add_work account a w (x ∷ m) = ground (arith, weight-add_work account a w m)

add_work-IsPositive :
    (a w : ℕ) (m : Work) → 0 < w → All IsPositive m → All IsPositive (add_work a w m)
unfolding add_work
add_work-IsPositive a w [] h p = (h, tt)
add_work-IsPositive a w (x ∷ m) h p = ground (arith, add_work-IsPositive a w m h p.1)

-- Whatever the loop returns rises strictly by account.
pub select-AscendsFrom :
    (shares : List WeightedShare) (remaining : ℕ) (m : Work) (seen : List ℕ) {m' : Work}
    → AscendsFrom 0 m
    → select shares remaining m seen ≡ ok m'
    → AscendsFrom 0 m'
unfolding select
select-AscendsFrom [] remaining m seen s e = ground arith
select-AscendsFrom (x ∷ rest) remaining m seen {m'} s e = ground (
  arith,
  select-AscendsFrom rest (remaining - min x.work remaining)
      (add_work x.account_id (min x.work remaining) m) (x.share_id ∷ seen) {m' = m'},
  add_work-AscendsFrom 0 x.account_id (min x.work remaining) m,
)

-- Every account that the loop enters has some work.
pub select-IsPositive :
    (shares : List WeightedShare) (remaining : ℕ) (m : Work) (seen : List ℕ) {m' : Work}
    → All IsPositive m
    → select shares remaining m seen ≡ ok m'
    → All IsPositive m'
unfolding select
select-IsPositive [] remaining m seen s e = ground arith
select-IsPositive (x ∷ rest) remaining m seen {m'} s e = ground (
  arith,
  select-IsPositive rest (remaining - min x.work remaining)
      (add_work x.account_id (min x.work remaining) m) (x.share_id ∷ seen) {m' = m'},
  add_work-IsPositive x.account_id (min x.work remaining) m,
)

windowed-zero : (account : ℕ) (shares : List WeightedShare) → windowed account shares 0 ≡ 0
windowed-zero account [] = refl
windowed-zero account (s ∷ rest) = ground (arith, windowed-zero account rest)

-- What the loop has for an account is what the window holds of its shares.
pub select-weight :
    (account : ℕ) (shares : List WeightedShare) (remaining : ℕ) (m : Work) (seen : List ℕ)
    {m' : Work}
    → select shares remaining m seen ≡ ok m'
    → weight account m' ≡ weight account m + windowed account shares remaining
unfolding select
select-weight account [] remaining m seen e = ground arith
select-weight account (x ∷ rest) remaining m seen {m'} e = ground (
  arith,
  select-weight account rest (remaining - min x.work remaining)
      (add_work x.account_id (min x.work remaining) m) (x.share_id ∷ seen) {m' = m'},
  weight-add_work account x.account_id (min x.work remaining) m,
  windowed-zero account (x ∷ rest),
)
