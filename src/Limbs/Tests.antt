-- ===== src/Limbs/Tests.antt =====
-- Runs of the limb arithmetic.
use pool.Limbs.Scale.{scale_target_lem}
use pool.Limbs.Divide.{value-divide_320_by_128}
use pool.Base.{min, max, u256_mod, [], ◌∷◌, arith, ◌≡◌, ◌+◌, ◌-◌, ◌*◌, ◌/◌, ◌^◌, refl}
use pool.Target.{maximum_target}
use pool.Limbs.{
  value, to_little_limbs, from_little_limbs, multiply_from, multiply_limbs, limb_at, bit_at, add_at,
  set_bit, divide_bit, divide_bits, divide_320_by_128, scale_target,
}

scaled : scale_target (2 ^ 200 + 12345) 977 1000 ≡ (2 ^ 200 + 12345) * 977 / 1000
unfolding scale_target value to_little_limbs from_little_limbs multiply_from multiply_limbs limb_at
    bit_at add_at set_bit divide_bit divide_bits divide_320_by_128
scaled = refl

saturated : scale_target maximum_target 2 1 ≡ maximum_target
unfolding scale_target value to_little_limbs from_little_limbs multiply_from multiply_limbs limb_at
    bit_at add_at set_bit divide_bit divide_bits divide_320_by_128
saturated = refl

scale_target_lem_example : scale_target 1000 977 250 ≡ max 1 (min (1000 * 977 / 250) maximum_target)
scale_target_lem_example =
    scale_target_lem 1000 977 250 (omega arith) (omega arith) (omega arith) (omega arith)

value-divide_320_by_128_example :
    value (divide_320_by_128 (7 ∷ 0 ∷ 0 ∷ 0 ∷ 5 ∷ []) 3)
    ≡ min (value (7 ∷ 0 ∷ 0 ∷ 0 ∷ 5 ∷ []) / 3) (u256_mod - 1)
unfolding value
value-divide_320_by_128_example =
    value-divide_320_by_128 (7 ∷ 0 ∷ 0 ∷ 0 ∷ 5 ∷ []) 3 (omega arith) (omega arith) (omega arith)
      (omega arith)
