-- ===== src/Accounting/Order.antt =====
-- The sorted order of the remainders: a permutation of the indices in which no later entry has
-- precedence over an earlier one.
use pool.Base.{
  ℕ, zero, suc, ◌+◌, ◌≤◌, ◌<◌, ◌≡◌, refl, ◌∙◌, subst, inl, inr, Bool, true, false, List, [], ◌∷◌,
  arith, ◌==◌, if◌then◌else◌, All, length, take, range_from, ltb, Bool-cases, ==→eq,
}
use pool.Accounting.{Provisional, insert_by, sort_by, remainder_order, before_at}

-- How often a number stands in a list.
abbrev pub count : ℕ → List ℕ → ℕ
count a [] = 0
count a (x ∷ xs) = (if x == a then 1 else 0) + count a xs

abbrev pub Ordered : (ℕ → ℕ → Bool) → List ℕ → Type 0
Ordered le [] = Unit
Ordered le (x ∷ xs) = All (λ y. le x y ≡ true) xs × Ordered le xs

pub count-take-le : (a n : ℕ) (xs : List ℕ) → count a (take n xs) ≤ count a xs
count-take-le a zero xs = omega arith
count-take-le a (suc n) [] = omega arith
count-take-le a (suc n) (x ∷ xs) = omega (arith, count-take-le a n xs)

count-insert_by :
    (le : ℕ → ℕ → Bool) (a i : ℕ) (xs : List ℕ) → count a (insert_by le i xs) ≡ count a (i ∷ xs)
unfolding insert_by
count-insert_by le a i [] = refl
count-insert_by le a i (x ∷ xs) = ground (arith, count-insert_by le a i xs)

count-sort_by : (le : ℕ → ℕ → Bool) (a : ℕ) (xs : List ℕ) → count a (sort_by le xs) ≡ count a xs
unfolding sort_by
count-sort_by le a [] = refl
count-sort_by le a (x ∷ xs) =
    omega (arith, count-insert_by le a x (sort_by le xs), count-sort_by le a xs)

count-range_from :
    (a i n : ℕ) → count a (range_from i n) ≡ (if ltb a i then 0 else if ltb a (i + n) then 1 else 0)
count-range_from a i zero = ground arith
count-range_from a i (suc n) = ground (arith, count-range_from a (suc i) n)

-- Every index of the list is visited exactly once.
pub count-remainder_order :
    (p : List Provisional) (i : ℕ)
    → count i (remainder_order p) ≡ (if ltb i (length p) then 1 else 0)
unfolding remainder_order
count-remainder_order p i =
    count-sort_by (before_at p) i (range_from 0 (length p))
    ∙ ground (arith, count-range_from i 0 (length p))

All-count {κ} : (P : ℕ → Type κ) (a : ℕ) (xs : List ℕ) → All P xs → 0 < count a xs → P a
All-count P a [] h c = absurd (omega arith)
All-count P a (x ∷ xs) h c = elim (Bool-cases (x == a)) [
  | inl same ↦ subst P (==→eq x a same) h.0
  | inr other ↦ All-count P a xs h.1 (ground arith)
]

module _ (le : ℕ → ℕ → Bool) (total : (i j : ℕ) → le i j ≡ false → le j i ≡ true)
    (trans : (i j k : ℕ) → le i j ≡ true → le j k ≡ true → le i k ≡ true) where
  All-trans :
      (i j : ℕ) (xs : List ℕ)
      → le i j ≡ true
      → All (λ y. le j y ≡ true) xs
      → All (λ y. le i y ≡ true) xs
  All-trans i j [] h a = tt
  All-trans i j (x ∷ xs) h a = (trans i j x h a.0, All-trans i j xs h a.1)

  insert_by-All :
      (i j : ℕ) (xs : List ℕ)
      → le j i ≡ true
      → All (λ y. le j y ≡ true) xs
      → All (λ y. le j y ≡ true) (insert_by le i xs)
  unfolding insert_by
  insert_by-All i j [] h a = (h, tt)
  insert_by-All i j (x ∷ xs) h a = ground (arith, insert_by-All i j xs h a.1)

  insert_by-Ordered : (i : ℕ) (xs : List ℕ) → Ordered le xs → Ordered le (insert_by le i xs)
  unfolding insert_by
  insert_by-Ordered i [] o = (tt, tt)
  insert_by-Ordered i (x ∷ xs) o =
      ground (arith, insert_by-Ordered i xs o.1, insert_by-All i x xs, total i x, All-trans i x xs)

  pub sort_by-Ordered : (xs : List ℕ) → Ordered le (sort_by le xs)
  unfolding sort_by
  sort_by-Ordered [] = tt
  sort_by-Ordered (x ∷ xs) = insert_by-Ordered x _ (sort_by-Ordered xs)

-- Of an ordered list, what the first `n` places hold precedes what they leave out.
pub Ordered-take :
    (le : ℕ → ℕ → Bool) (i j n : ℕ) (xs : List ℕ)
    → Ordered le xs
    → 0 < count i (take n xs)
    → count j (take n xs) ≡ 0
    → 0 < count j xs
    → le i j ≡ true
Ordered-take le i j zero xs o c d e = absurd (omega arith)
Ordered-take le i j (suc n) [] o c d e = absurd (omega arith)
Ordered-take le i j (suc n) (x ∷ xs) o c d e = elim (Bool-cases (x == i)) [
  | inl same ↦
      let here : le x j ≡ true = All-count (λ y. le x y ≡ true) j xs o.0 (ground arith) in
      rw (← ==→eq x i same) here
  | inr other ↦ Ordered-take le i j n xs o.1 (ground arith) (omega arith) (ground arith)
]

before_at-total :
    (p : List Provisional) (i j : ℕ) → before_at p i j ≡ false → before_at p j i ≡ true
before_at-total p i j h = ground arith

before_at_trans :
    (p : List Provisional) (i j k : ℕ)
    → before_at p i j ≡ true
    → before_at p j k ≡ true
    → before_at p i k ≡ true
before_at_trans p i j k h g = ground arith

pub remainder_order-Ordered : (p : List Provisional) → Ordered (before_at p) (remainder_order p)
unfolding remainder_order
remainder_order-Ordered p = sort_by-Ordered (before_at p) (before_at-total p) (before_at_trans p) _
