-- ===== src/Limbs/Scale.antt =====
-- Scaling, multiplying and dividing a target, against exact arithmetic on numbers.
use pool.Base.{
  ℕ, ◌+◌, ◌-◌, ◌*◌, ◌/◌, ◌≤◌, ◌<◌, min, max, ◌≡◌, ap, ◌∙◌, List, [], ◌∷◌, arith, All, length,
  u64_mod, u128_mod, u256_mod,
}
use pool.Target.{IsTarget, maximum_target}
use pool.Limbs.{
  value, to_little_limbs, from_little_limbs, multiply_limbs, limb_at, scale_target, multiply_target,
  divide_target, low_limbs,
}
use pool.Limbs.Multiply.{IsLimb, value-to_little_limbs, value-multiply_limbs, length-multiply_from}
use pool.Limbs.Divide.{value-divide_320_by_128}

-- The product of a target and a word, on limbs.
product :
    (target multiplier : ℕ)
    → target < u256_mod
    → multiplier < u64_mod
    → (value (multiply_limbs (to_little_limbs target) multiplier) ≡ target * multiplier)
      × All IsLimb (multiply_limbs (to_little_limbs target) multiplier)
product target multiplier h k =
    let (same, limbs) = value-to_little_limbs target h in
    let (times, fits) = value-multiply_limbs (to_little_limbs target) multiplier limbs k in
    (times ∙ ap (λ (t : ℕ). t * multiplier) same, fits)

length-product :
    (target multiplier : ℕ) → length (multiply_limbs (to_little_limbs target) multiplier) ≡ 5
unfolding multiply_limbs to_little_limbs
length-product target multiplier = length-multiply_from _ multiplier 0

-- Scaling a 256-bit target by a u64 over a nonzero u128 is exact floor division of the product,
-- kept within 1 and the largest target.
pub scale_target_lem :
    (target multiplier divisor : ℕ)
    → target < u256_mod
    → multiplier < u64_mod
    → 0 < divisor
    → divisor < u128_mod
    → scale_target target multiplier divisor
      ≡ max 1 (min (target * multiplier / divisor) maximum_target)
unfolding scale_target from_little_limbs
scale_target_lem target multiplier divisor h k d w =
    let (times, limbs) = product target multiplier h k in
    let wide : target * multiplier ≤ (u256_mod - 1) * (u64_mod - 1) = grind arith in
    let quotient =
      value-divide_320_by_128 (multiply_limbs (to_little_limbs target) multiplier) divisor limbs w d
        (omega (arith, times)) in
    ground (arith, quotient, ap (λ (t : ℕ). t / divisor) times)

-- The result of every rescaling is a target.
pub scale_target-IsTarget :
    (target multiplier divisor : ℕ)
    → target < u256_mod
    → multiplier < u64_mod
    → 0 < divisor
    → divisor < u128_mod
    → IsTarget (scale_target target multiplier divisor)
scale_target-IsTarget target multiplier divisor h k d w =
    rw (scale_target_lem target multiplier divisor h k d w) (omega arith)

-- The four low limbs of a product and the fifth.
low_limbs-value :
    (p : List ℕ)
    → length p ≡ 5
    → All IsLimb p
    → (value p ≡ value (low_limbs p) + limb_at p 4 * u256_mod) × (value (low_limbs p) < u256_mod)
unfolding value limb_at
low_limbs-value (a ∷ b ∷ c ∷ d ∷ e ∷ []) l h = (omega arith, omega arith)
low_limbs-value [] l h = absurd (omega arith)
low_limbs-value (a ∷ []) l h = absurd (omega arith)
low_limbs-value (a ∷ b ∷ []) l h = absurd (omega arith)
low_limbs-value (a ∷ b ∷ c ∷ []) l h = absurd (omega arith)
low_limbs-value (a ∷ b ∷ c ∷ d ∷ []) l h = absurd (omega arith)
low_limbs-value (a ∷ b ∷ c ∷ d ∷ e ∷ f ∷ p) l h = absurd (omega arith)

-- Multiplying a target by a nonzero u64 is exact, kept at the largest target.
pub multiply_target_lem :
    (target multiplier : ℕ)
    → IsTarget target
    → 0 < multiplier
    → multiplier < u64_mod
    → multiply_target target multiplier ≡ min (target * multiplier) maximum_target
unfolding multiply_target from_little_limbs
multiply_target_lem target multiplier h pos k =
    let p = multiply_limbs (to_little_limbs target) multiplier in
    let (times, limbs) = product target multiplier h.fits k in
    let (whole, low) = low_limbs-value p (length-product target multiplier) limbs in
    let some_product : 0 < target * multiplier = grind arith in ground (arith, times, whole)

-- Dividing by a word is exact floor division, kept at 1 from below.
pub divide_target_lem :
    (target divisor : ℕ)
    → IsTarget target
    → 0 < divisor
    → divisor < u64_mod
    → divide_target target divisor ≡ max 1 (target / divisor)
unfolding divide_target
divide_target_lem target divisor h pos k =
    let e : target * 1 / divisor ≡ target / divisor = ap (λ (t : ℕ). t / divisor) (omega arith) in
    let small : target / divisor ≤ target = grind arith in
    scale_target_lem target 1 divisor h.fits (omega arith) pos (omega arith) ∙ omega (arith, e)
