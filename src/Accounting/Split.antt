-- ===== src/Accounting/Split.antt =====
-- The floor division of a reward among the accounts: exact shares with remainders below the work.
use native.Mathlib.Nat.{mul-sub}
use pool.Base.{
  u64_mod, ℕ, ◌+◌, ◌-◌, ◌*◌, ◌/◌, ◌%◌, ◌≤◌, ◌<◌, ◌≡◌, refl, ap, List, [], ◌∷◌, arith, sum_by, ok,
  All, length, map,
}
use pool.Accounting.{Work, Provisional, apportion, u64_mod}
use pool.Accounting.Select.{total_work}

abbrev pub amounts : List Provisional → ℕ
amounts = sum_by (λ (x : Provisional). x.amount_zat)

abbrev pub remainders : List Provisional → ℕ
remainders = sum_by (λ (x : Provisional). x.remainder)

-- The account and the work of each entry, as `by_account` lists them.
abbrev pub labels : List Provisional → Work
labels = map (λ (x : Provisional). (x.account_id, x.work))

-- An entry is the floor of its exact share, with the remainder of that division.
pub record IsFloor (reward selected : ℕ) (x : Provisional) : Type 0 where
  pub exact : x.amount_zat * selected + x.remainder ≡ reward * x.work
  pub below : x.remainder < selected

pub record Splits (reward selected floor : ℕ) (m : Work) (p : List Provisional) (final : ℕ)
    : Type 0 where
  pub floors : All (IsFloor reward selected) p
  pub sized : length p ≡ length m
  pub labelled : labels p ≡ m
  pub totalled : final ≡ floor + amounts p
  pub conserved : final * selected + remainders p ≡ floor * selected + reward * total_work m

div-mul-mod : (n d : ℕ) → 0 < d → (n / d) * d + n % d ≡ n
div-mul-mod n d h = grind arith

mul-le_cancel : (a b c : ℕ) → 0 < c → a * c ≤ b * c → a ≤ b
mul-le_cancel a b c h e = grind arith

mul-lt_cancel : (a b c : ℕ) → a * c < b * c → a < b
mul-lt_cancel a b c e = grind arith

-- The bound under which no step overflows: what is given out plus what is due stays in the reward.
abbrev Affordable : ℕ → ℕ → ℕ → Work → Type 0
Affordable reward selected floor m = floor * selected + reward * total_work m ≤ reward * selected

Affordable-step :
    (reward selected floor : ℕ) (x : ℕ × ℕ) (m : Work)
    → 0 < selected
    → Affordable reward selected floor (x ∷ m)
    → Affordable reward selected (floor + (reward * x.1) / selected) m
Affordable-step reward selected floor x m h a =
    omega (arith, div-mul-mod (reward * x.1) selected h, a)

Affordable-le :
    (reward selected floor : ℕ) (m : Work)
    → 0 < selected
    → Affordable reward selected floor m
    → floor ≤ reward
Affordable-le reward selected floor m h a = mul-le_cancel floor reward selected h (omega arith)

-- With an affordable start the loop ends without an overflow, and splits exactly.
pub apportion-Splits :
    (reward selected floor : ℕ) (m : Work)
    → 0 < selected
    → reward < u64_mod
    → Affordable reward selected floor m
    → (p : List Provisional) × (final : ℕ) × (apportion reward selected m floor ≡ ok (p, final))
      × Splits reward selected floor m p final
unfolding apportion
apportion-Splits reward selected floor [] h b a = (
  [],
  floor,
  refl,
  record {
    floors = tt;
    sized = refl;
    labelled = refl;
    totalled = omega arith;
    conserved = omega arith;
  },
)
apportion-Splits reward selected floor (x ∷ m) h b a =
    let q = (reward * x.1) / selected in
    let next = Affordable-step reward selected floor x m h a in
    let fits = Affordable-le reward selected (floor + q) m h next in
    let (p, final, e, s) = apportion-Splits reward selected (floor + q) m h b next in
    let entry : Provisional = record {
      account_id = x.0;
      work = x.1;
      amount_zat = q;
      remainder = (reward * x.1) % selected;
    } in
    let division = div-mul-mod (reward * x.1) selected h in
    (
      entry ∷ p,
      final,
      ground arith,
      record {
        floors = (record { exact = division; below = grind arith }, s.floors);
        sized = ground arith;
        labelled = ap (◌∷◌ x) s.labelled;
        totalled = omega (arith, s.totalled);
        conserved = omega (arith, s.conserved, division);
      },
    )

remainders-lt :
    (reward selected : ℕ) (x : Provisional) (p : List Provisional)
    → All (IsFloor reward selected) (x ∷ p)
    → remainders (x ∷ p) < length (x ∷ p) * selected
remainders-lt reward selected x [] h = omega (arith, h.0.below)
remainders-lt reward selected x (y ∷ p) h =
    omega (arith, h.0.below, remainders-lt reward selected y p h.1)

-- What the floors leave is less than one unit for each account.
pub leftover-lt :
    (reward selected : ℕ) (m : Work) (p : List Provisional) (final : ℕ)
    → 0 < selected
    → total_work m ≡ selected
    → Splits reward selected 0 m p final
    → (final ≤ reward) × (reward - final < length p)
leftover-lt reward selected [] [] final h t s = absurd (omega (arith, t))
leftover-lt reward selected (w ∷ m) [] final h t s = absurd (omega (arith, s.sized))
leftover-lt reward selected m (x ∷ p) final h t s =
    let few = remainders-lt reward selected x p s.floors in
    let whole : final * selected + remainders (x ∷ p) ≡ reward * selected =
      omega (arith, ap (λ (n : ℕ). reward * n) t, s.conserved) in
    let fits = mul-le_cancel final reward selected h (omega (arith, whole)) in
    let left_mul : (reward - final) * selected ≡ remainders (x ∷ p) =
      omega (arith, mul-sub selected reward final, whole) in
    (fits, mul-lt_cancel (reward - final) (length (x ∷ p)) selected (omega (arith, left_mul)))

-- The floor as a quotient, with its remainder.
pub div_of_floor :
    (reward selected : ℕ) (x : Provisional)
    → IsFloor reward selected x
    → (x.amount_zat ≡ reward * x.work / selected) × (x.remainder ≡ reward * x.work % selected)
div_of_floor reward selected x f = grind arith
