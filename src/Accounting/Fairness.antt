-- ===== src/Accounting/Fairness.antt =====
-- Which accounts get the units that the floors leave.
use pool.Base.{
  ℕ, zero, suc, ◌+◌, ◌*◌, ◌/◌, ◌%◌, ◌≤◌, ◌<◌, ◌≡◌, refl, ◌⊎◌, inl, inr, true, List, [], ◌∷◌, Option,
  none, some, arith, ◌==◌, if◌then◌else◌, All, take, get_elem?, get_elem?-All, get_elem?-below, map,
  ok, Result-cases, Option-cases,
}
use pool.Accounting.{
  Provisional, AccountAllocation, to_allocation, bump, bump_all, remainder_order, before, before_at,
}
use pool.Accounting.Split.{labels, IsFloor, div_of_floor}
use pool.Accounting.Order.{
  count, count-take-le, count-remainder_order, Ordered-take, remainder_order-Ordered,
}

abbrev pub raise : ℕ → Option Provisional → Option Provisional
raise n none = none
raise n (some x) = some (record x { amount_zat = x.amount_zat + n })

raise-zero : (o : Option Provisional) → raise 0 o ≡ o
raise-zero none = refl
raise-zero (some x) = ground arith

raise-raise : (m n : ℕ) (o : Option Provisional) → raise m (raise n o) ≡ raise (n + m) o
raise-raise m n none = refl
raise-raise m n (some x) = ground arith

bump-get_elem? :
    (i j : ℕ) (p : List Provisional) {p' : List Provisional}
    → bump i p ≡ ok p'
    → get_elem? p' j ≡ raise (if i == j then 1 else 0) (get_elem? p j)
unfolding bump
bump-get_elem? i j [] e = ground arith
bump-get_elem? zero zero (x ∷ p) e = ground arith
bump-get_elem? zero (suc j) (x ∷ p) e = ground (arith, raise-zero (get_elem? p j))
bump-get_elem? (suc i) zero (x ∷ p) {p'} e = ground arith
bump-get_elem? (suc i) (suc j) (x ∷ p) {p'} e = elim (Result-cases (bump i p)) [
  | inl (q, done) ↦ ground (arith, bump-get_elem? i j p done)
  | inr (_, failed) ↦ ground arith
]

-- Each entry gains one unit for each time that its index is visited.
pub bump_all-get_elem? :
    (order : List ℕ) (j : ℕ) (p : List Provisional) {p' : List Provisional}
    → bump_all order p ≡ ok p'
    → get_elem? p' j ≡ raise (count j order) (get_elem? p j)
unfolding bump_all
bump_all-get_elem? [] j p e = ground (arith, raise-zero (get_elem? p j))
bump_all-get_elem? (i ∷ order) j p {p'} e = elim (Result-cases (bump i p)) [
  | inl (q, done) ↦ ground (
    arith,
    bump-get_elem? i j p done,
    bump_all-get_elem? order j q {p' = p'},
    raise-raise (count j order) (if i == j then 1 else 0) (get_elem? p j),
  )
  | inr (_, failed) ↦ ground arith
]

bump-labels :
    (i : ℕ) (p : List Provisional) {p' : List Provisional} → bump i p ≡ ok p' → labels p' ≡ labels p
unfolding bump
bump-labels i [] e = ground arith
bump-labels zero (x ∷ p) e = ground arith
bump-labels (suc i) (x ∷ p) {p'} e = elim (Result-cases (bump i p)) [
  | inl (q, done) ↦ ground (arith, bump-labels i p done)
  | inr (_, failed) ↦ ground arith
]

pub bump_all-labels :
    (order : List ℕ) (p : List Provisional) {p' : List Provisional}
    → bump_all order p ≡ ok p'
    → labels p' ≡ labels p
unfolding bump_all
bump_all-labels [] p e = ground arith
bump_all-labels (i ∷ order) p {p'} e = elim (Result-cases (bump i p)) [
  | inl (q, done) ↦ ground (arith, bump-labels i p done, bump_all-labels order q {p' = p'})
  | inr (_, failed) ↦ ground arith
]

-- The method of the largest remainder, for a reward and the work of all accounts together: an
-- account has its proportional share rounded down, or one unit more, and those that have the
-- unit come first by remainder and then by account.
pub record IsLargestRemainder (reward selected : ℕ) (accounts : List AccountAllocation)
    : Type 0 where
  pub rounded :
      (i : ℕ) (x : AccountAllocation)
      → get_elem? accounts i ≡ some x
      → (x.amount_zat ≡ reward * x.work / selected)
        ⊎ (x.amount_zat ≡ reward * x.work / selected + 1)
  pub favoured :
      (i j : ℕ) (x y : AccountAllocation)
      → get_elem? accounts i ≡ some x
      → get_elem? accounts j ≡ some y
      → x.amount_zat ≡ reward * x.work / selected + 1
      → y.amount_zat ≡ reward * y.work / selected
      → (reward * y.work % selected < reward * x.work % selected)
        ⊎ ((reward * y.work % selected ≡ reward * x.work % selected)
            × (x.account_id ≤ y.account_id))

get_elem?-map :
    (p : List Provisional) (i : ℕ) (a : AccountAllocation)
    → get_elem? (map to_allocation p) i ≡ some a
    → (x : Provisional) × (get_elem? p i ≡ some x) × (a ≡ to_allocation x)
get_elem?-map [] i a e = absurd (cc)
get_elem?-map (x ∷ p) zero a e = (x, refl, cc)
get_elem?-map (x ∷ p) (suc i) a e = get_elem?-map p i a e

-- `x` stands before `y` in the division by largest remainder.
abbrev pub Precedes : ℕ → ℕ → Provisional → Provisional → Type 0
Precedes reward selected x y =
    (reward * y.work % selected < reward * x.work % selected)
    ⊎ ((reward * y.work % selected ≡ reward * x.work % selected) × (x.account_id ≤ y.account_id))

before-cases :
    (x y : Provisional)
    → before x y ≡ true
    → (y.remainder < x.remainder) ⊎ ((y.remainder ≡ x.remainder) × (x.account_id ≤ y.account_id))
before-cases x y h = ground arith

module _ (reward selected n : ℕ) (p p' : List Provisional)
    (floors : All (IsFloor reward selected) p)
    (raised : (j : ℕ)
      → get_elem? p' j ≡ raise (count j (take n (remainder_order p))) (get_elem? p j)) where
  -- An entry of the result and the floor from which it was raised.
  origin :
      (j : ℕ) {y : Provisional}
      → get_elem? p' j ≡ some y
      → (x : Provisional) × (get_elem? p j ≡ some x)
        × (y ≡ record x { amount_zat = x.amount_zat + count j (take n (remainder_order p)) })
  origin j {y} e = elim (Option-cases (get_elem? p j)) [
    | inl missing ↦ ground (arith, raised j)
    | inr (x, found) ↦ (x, found, ground (arith, raised j))
  ]

  visits-le : (j : ℕ) → count j (take n (remainder_order p)) ≤ 1
  visits-le j = ground (arith, count-take-le j n (remainder_order p), count-remainder_order p j)

  -- Every entry has its floor, or its floor and one unit.
  pub quota :
      (j : ℕ) {y : Provisional}
      → get_elem? p' j ≡ some y
      → (reward * y.work / selected ≤ y.amount_zat)
        × (y.amount_zat ≤ reward * y.work / selected + 1)
  quota j {y} e =
      let (x, found, same) = origin j e in
      let floor = div_of_floor reward selected x (get_elem?-All _ p j floors found) in
      let visited = visits-le j in ground arith

  -- Who has the unit stands before who has it not.
  pub ranked :
      (i j : ℕ) {x y : Provisional}
      → get_elem? p' i ≡ some x
      → get_elem? p' j ≡ some y
      → x.amount_zat ≡ reward * x.work / selected + 1
      → y.amount_zat ≡ reward * y.work / selected
      → Precedes reward selected x y
  ranked i j {x} {y} ex ey up down =
      let (x0, foundx, samex) = origin i ex in
      let (y0, foundy, samey) = origin j ey in
      let floorx = div_of_floor reward selected x0 (get_elem?-All _ p i floors foundx) in
      let floory = div_of_floor reward selected y0 (get_elem?-All _ p j floors foundy) in
      let given : 0 < count i (take n (remainder_order p)) = ground arith in
      let passed : count j (take n (remainder_order p)) ≡ 0 = ground arith in
      let listed : 0 < count j (remainder_order p) =
        ground (arith, count-remainder_order p j, get_elem?-below p j foundy) in
      let first =
        Ordered-take (before_at p) i j n (remainder_order p) (remainder_order-Ordered p) given
          passed listed in
      let tested : before x0 y0 ≡ true = ground (arith, foundx, foundy, first) in
      let rank = before-cases x0 y0 tested in ground arith

  pub raised-IsLargestRemainder : IsLargestRemainder reward selected (map to_allocation p')
  raised-IsLargestRemainder = record {
    rounded = λ i a ga.
        let (x, gx, ax) = get_elem?-map p' i a ga in let bounds = quota i gx in ground arith;
    favoured = λ i j a b ga gb up down.
        let (x, gx, ax) = get_elem?-map p' i a ga in
        let (y, gy, ay) = get_elem?-map p' j b gb in let rank = ranked i j gx gy in ground arith;
  }
