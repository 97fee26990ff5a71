-- ===== src/Accounting/Rounding.antt =====
-- Handing out the units that the floors leave: a total step that adds exactly one unit each.
use pool.Base.{
  u64_mod, ℕ, zero, suc, ◌+◌, ◌<◌, ◌≡◌, refl, ap, sym, subst, Bool, List, [], ◌∷◌, arith, ok, All,
  length, range_from,
}
use pool.Accounting.{Provisional, bump, bump_all, insert_by, sort_by, remainder_order, before_at}
use pool.Accounting.Split.{amounts}

abbrev IsBelow : ℕ → ℕ → Type 0
IsBelow n i = i < n

-- A unit for one entry in range, when the sum still fits.
bump-amounts :
    (i : ℕ) (p : List Provisional)
    → i < length p
    → amounts p + 1 < u64_mod
    → (p' : List Provisional) × (bump i p ≡ ok p')
      × (amounts p' ≡ amounts p + 1)
      × (length p' ≡ length p)
unfolding bump
bump-amounts i [] h b = absurd (omega arith)
bump-amounts zero (x ∷ p) h b =
    (record x { amount_zat = x.amount_zat + 1 } ∷ p, ground arith, omega arith, refl)
bump-amounts (suc i) (x ∷ p) h b =
    let (p', e, t, l) = bump-amounts i p (omega arith) (omega arith) in
    (x ∷ p', ground arith, omega (arith, t), ap suc l)

-- A unit for each index of a list in range.
pub bump_all-amounts :
    (order : List ℕ) (p : List Provisional)
    → All (IsBelow (length p)) order
    → amounts p + length order < u64_mod
    → (p' : List Provisional) × (bump_all order p ≡ ok p')
      × (amounts p' ≡ amounts p + length order)
      × (length p' ≡ length p)
unfolding bump_all
bump_all-amounts [] p h b = (p, refl, omega arith, refl)
bump_all-amounts (i ∷ order) p h b =
    let (q, e, t, l) = bump-amounts i p h.0 (omega arith) in
    let (p', e', t', l') =
      bump_all-amounts order q (subst (λ n. All (IsBelow n) order) (sym l) h.1)
        (omega (arith, t)) in
    (p', ground arith, omega (arith, t, t'), omega (arith, l, l'))

insert_by-All {κ} :
    (P : ℕ → Type κ) (le : ℕ → ℕ → Bool) (i : ℕ) (order : List ℕ)
    → P i
    → All P order
    → All P (insert_by le i order)
unfolding insert_by
insert_by-All P le i [] h a = (h, tt)
insert_by-All P le i (j ∷ order) h a = ground (arith, insert_by-All P le i order h a.1)

sort_by-All {κ} :
    (P : ℕ → Type κ) (le : ℕ → ℕ → Bool) (order : List ℕ) → All P order → All P (sort_by le order)
unfolding sort_by
sort_by-All P le [] a = tt
sort_by-All P le (i ∷ order) a = insert_by-All P le i _ a.0 (sort_by-All P le order a.1)

length-insert_by :
    (le : ℕ → ℕ → Bool) (i : ℕ) (order : List ℕ)
    → length (insert_by le i order) ≡ suc (length order)
unfolding insert_by
length-insert_by le i [] = refl
length-insert_by le i (j ∷ order) = ground (arith, length-insert_by le i order)

length-sort_by : (le : ℕ → ℕ → Bool) (order : List ℕ) → length (sort_by le order) ≡ length order
unfolding sort_by
length-sort_by le [] = refl
length-sort_by le (i ∷ order) =
    omega (arith, length-insert_by le i (sort_by le order), length-sort_by le order)

range_from-IsBelow : (i n : ℕ) → All (IsBelow (i + n)) (range_from i n)
range_from-IsBelow i zero = tt
range_from-IsBelow i (suc n) =
    let shifted : suc i + n ≡ i + suc n = omega arith in
    (
      omega arith,
      subst (λ k. All (IsBelow k) (range_from (suc i) n)) shifted (range_from-IsBelow (suc i) n),
    )

length-range_from : (i n : ℕ) → length (range_from i n) ≡ n
length-range_from i zero = refl
length-range_from i (suc n) = ap suc (length-range_from (suc i) n)

-- The order visits indices of the list only, and as many as there are.
pub remainder_order-All : (p : List Provisional) → All (IsBelow (length p)) (remainder_order p)
unfolding remainder_order
remainder_order-All p =
    let zeroed : 0 + length p ≡ length p = omega arith in
    sort_by-All _ (before_at p) _ (
      subst (λ k. All (IsBelow k) (range_from 0 (length p))) zeroed
        (range_from-IsBelow 0 (length p)))

pub length-remainder_order : (p : List Provisional) → length (remainder_order p) ≡ length p
unfolding remainder_order
length-remainder_order p =
    omega (
      arith,
      length-sort_by (before_at p) (range_from 0 (length p)),
      length-range_from 0 (length p),
    )
