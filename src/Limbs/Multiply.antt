-- ===== src/Limbs/Multiply.antt =====
-- Multiplication of limbs by a word is multiplication of the number, with no overflow of u128.
use pool.Base.{
  ℕ, suc, ◌+◌, ◌-◌, ◌*◌, ◌/◌, ◌≤◌, ◌<◌, ◌≡◌, refl, List, [], ◌∷◌, arith, All, length, ap, u64_mod,
  u128_mod, u256_mod,
}
use pool.Limbs.{value, to_little_limbs, multiply_from, multiply_limbs}

abbrev pub IsLimb : ℕ → Type 0
IsLimb limb = limb < u64_mod

-- The widest intermediate of the loop fits in a u128, and its carry in a u64.
pub product_fits :
    (limb multiplier carry : ℕ)
    → limb < u64_mod
    → multiplier < u64_mod
    → carry < u64_mod
    → (limb * multiplier + carry < u128_mod) × ((limb * multiplier + carry) / u64_mod < u64_mod)
product_fits limb multiplier carry h k c =
    let bound : limb * multiplier ≤ (u64_mod - 1) * (u64_mod - 1) = grind arith in
    (omega arith, omega arith)

value-multiply_from :
    (limbs : List ℕ) (multiplier carry : ℕ)
    → All IsLimb limbs
    → multiplier < u64_mod
    → carry < u64_mod
    → value (multiply_from limbs multiplier carry) ≡ value limbs * multiplier + carry
unfolding value multiply_from
value-multiply_from [] multiplier carry h k c = omega arith
value-multiply_from (limb ∷ limbs) multiplier carry h k c =
    let (wide, narrow) = product_fits limb multiplier carry h.0 k c in
    omega (
      arith,
      value-multiply_from limbs multiplier ((limb * multiplier + carry) / u64_mod) h.1 k narrow,
    )

multiply_from-IsLimb :
    (limbs : List ℕ) (multiplier carry : ℕ) → All IsLimb (multiply_from limbs multiplier carry)
unfolding multiply_from
multiply_from-IsLimb [] multiplier carry = (omega arith, tt)
multiply_from-IsLimb (limb ∷ limbs) multiplier carry =
    (omega arith, multiply_from-IsLimb limbs multiplier _)

pub length-multiply_from :
    (limbs : List ℕ) (multiplier carry : ℕ)
    → length (multiply_from limbs multiplier carry) ≡ suc (length limbs)
unfolding multiply_from
length-multiply_from [] multiplier carry = refl
length-multiply_from (limb ∷ limbs) multiplier carry =
    ap suc (length-multiply_from limbs multiplier _)

pub value-multiply_limbs :
    (limbs : List ℕ) (multiplier : ℕ)
    → All IsLimb limbs
    → multiplier < u64_mod
    → (value (multiply_limbs limbs multiplier) ≡ value limbs * multiplier)
      × All IsLimb (multiply_limbs limbs multiplier)
unfolding multiply_limbs
value-multiply_limbs limbs multiplier h k = (
  omega (arith, value-multiply_from limbs multiplier 0 h k (omega arith)),
  multiply_from-IsLimb limbs multiplier 0,
)

pub value-to_little_limbs :
    (target : ℕ)
    → target < u256_mod
    → (value (to_little_limbs target) ≡ target) × All IsLimb (to_little_limbs target)
unfolding value to_little_limbs
value-to_little_limbs target h =
    (omega arith, (omega arith, (omega arith, (omega arith, (omega arith, tt)))))
