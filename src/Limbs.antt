-- ===== src/Limbs.antt =====
-- crates/wcash-pool-core/src/vardiff.rs, from `scale_target` down: the 256-bit arithmetic of
-- retargeting on 64-bit limbs, least significant first.
pub mod Multiply
pub mod Bits
pub mod Divide
pub mod Scale
mod Tests
use pool.Base.{
  ℕ, zero, suc, ◌+◌, ◌-◌, ◌*◌, ◌/◌, ◌%◌, ◌^◌, Bool, true, false, not, ◌||◌, List, [], ◌∷◌, leb,
  ◌==◌, if◌then◌else◌, u64_mod, u128_mod,
}
use pool.Target.{ShareTarget, maximum_target}

-- The number that limbs spell.
unfoldable pub value : List ℕ → ℕ
value [] = 0
value (limb ∷ limbs) = limb + u64_mod * value limbs

-- Limb `i` is made of the big-endian bytes `24 - 8 i` to `32 - 8 i`.
unfoldable pub to_little_limbs : ShareTarget → List ℕ
to_little_limbs target =
    target % u64_mod
    ∷ target / u64_mod % u64_mod
    ∷ target / u64_mod ^ 2 % u64_mod
    ∷ target / u64_mod ^ 3 % u64_mod
    ∷ []

-- The bytes of all limbs, with the last byte set to 1 where they are all zero.
unfoldable pub from_little_limbs : List ℕ → ShareTarget
from_little_limbs limbs = if value limbs == 0 then 1 else value limbs

-- The loop of `multiply_limbs` from the carry on; the last limb is `carry as u64`.
unfoldable pub multiply_from : List ℕ → ℕ → ℕ → List ℕ
multiply_from [] multiplier carry = carry % u64_mod ∷ []
multiply_from (limb ∷ limbs) multiplier carry =
    let product = limb * multiplier + carry in
    product % u64_mod ∷ multiply_from limbs multiplier (product / u64_mod)

unfoldable pub multiply_limbs : List ℕ → ℕ → List ℕ
multiply_limbs limbs multiplier = multiply_from limbs multiplier 0

unfoldable pub limb_at : List ℕ → ℕ → ℕ
limb_at [] i = 0
limb_at (limb ∷ limbs) zero = limb
limb_at (limb ∷ limbs) (suc i) = limb_at limbs i

-- `(numerator[bit_index / 64] >> (bit_index % 64)) & 1`.
unfoldable pub bit_at : List ℕ → ℕ → ℕ
bit_at numerator bit_index = limb_at numerator (bit_index / 64) / 2 ^ (bit_index % 64) % 2

unfoldable pub add_at : List ℕ → ℕ → ℕ → List ℕ
add_at [] i n = []
add_at (limb ∷ limbs) zero n = (limb + n) ∷ limbs
add_at (limb ∷ limbs) (suc i) n = limb ∷ add_at limbs i n

-- `quotient[bit_index / 64] |= 1 << (bit_index % 64)`: the loop sets each bit once, so that the
-- bit is clear and "or" is a sum.
unfoldable pub set_bit : List ℕ → ℕ → List ℕ
set_bit quotient bit_index = add_at quotient (bit_index / 64) (2 ^ (bit_index % 64))

pub record Division : Type 0 where
  pub remainder : ℕ
  pub overflow : Bool
  pub quotient : List ℕ

-- One round of the loop of `divide_320_by_128`, on u128 words: `remainder << 1` drops the top
-- bit, which `high` keeps, and the subtraction wraps.
unfoldable pub divide_bit : List ℕ → ℕ → ℕ → Division → Division
divide_bit numerator divisor bit_index s =
    let high = not (s.remainder / 2 ^ 127 == 0) in
    let shifted = s.remainder * 2 % u128_mod + bit_at numerator bit_index in
    let reduced = (shifted + u128_mod - divisor) % u128_mod in
    if high || leb divisor shifted
    then if leb 256 bit_index
      then record s { remainder = reduced; overflow = true }
      else record s { remainder = reduced; quotient = set_bit s.quotient bit_index }
    else record s { remainder = shifted }

-- The rounds for the bits below `bits`, from the highest.
unfoldable pub divide_bits : List ℕ → ℕ → ℕ → Division → Division
divide_bits numerator divisor zero s = s
divide_bits numerator divisor (suc bits) s =
    divide_bits numerator divisor bits (divide_bit numerator divisor bits s)

abbrev pub all_ones : List ℕ
all_ones = (u64_mod - 1) ∷ (u64_mod - 1) ∷ (u64_mod - 1) ∷ (u64_mod - 1) ∷ []

abbrev pub start : Division
start = record { remainder = 0; overflow = false; quotient = 0 ∷ 0 ∷ 0 ∷ 0 ∷ [] }

abbrev pub finish : Division → List ℕ
finish s = if s.overflow then all_ones else s.quotient

unfoldable pub divide_320_by_128 : List ℕ → ℕ → List ℕ
divide_320_by_128 numerator divisor = finish (divide_bits numerator divisor 320 start)

unfoldable pub scale_target : ShareTarget → ℕ → ℕ → ShareTarget
scale_target target multiplier divisor =
    from_little_limbs
      (divide_320_by_128 (multiply_limbs (to_little_limbs target) multiplier) divisor)

abbrev low_limbs : List ℕ → List ℕ
low_limbs (a ∷ b ∷ c ∷ d ∷ rest) = a ∷ b ∷ c ∷ d ∷ []
low_limbs other = other

unfoldable pub multiply_target : ShareTarget → ℕ → ShareTarget
multiply_target target multiplier =
    let product = multiply_limbs (to_little_limbs target) multiplier in
    if not (limb_at product 4 == 0) then maximum_target else from_little_limbs (low_limbs product)

unfoldable pub divide_target : ShareTarget → ℕ → ShareTarget
divide_target target divisor = scale_target target 1 divisor
