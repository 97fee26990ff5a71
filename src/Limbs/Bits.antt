-- ===== src/Limbs/Bits.antt =====
-- Reading and setting a bit of limbs is reading and setting a bit of the number.
use native.Mathlib.Nat.{
  pow-zero, pow-suc, add-mul-div_left, div-div-eq-div-mul, one-le-pow, zero-div,
}
use pool.Base.{
  ℕ, zero, suc, ◌+◌, ◌-◌, ◌*◌, ◌/◌, ◌%◌, ◌^◌, ◌<◌, ◌≡◌, refl, ap, sym, ◌∙◌, List, [], ◌∷◌, arith,
  All, length, u64_mod,
}
use pool.Limbs.{value, limb_at, bit_at, add_at, set_bit}
use pool.Limbs.Multiply.{IsLimb}

pub pow_add : (a m n : ℕ) → a ^ (m + n) ≡ a ^ m * a ^ n
pow_add a zero n = let e : 0 + n ≡ n = omega arith in rw (e, pow-zero a) (omega arith)
pow_add a (suc m) n =
    let e : suc m + n ≡ suc (m + n) = omega arith in
    rw (e, pow-suc a (m + n), pow-suc a m, pow_add a m n) (omega arith)

pub two_pow_pos : (n : ℕ) → 0 < 2 ^ n
two_pow_pos n = one-le-pow n 2 (omega arith)

-- A limb's weight, split at one of its bits.
split_limb : (j : ℕ) → j < 64 → u64_mod ≡ 2 ^ j * (2 * 2 ^ (63 - j))
split_limb j h =
    let e : 64 ≡ j + suc (63 - j) = omega arith in
    omega (
      arith,
      ap (λ (k : ℕ). 2 ^ k) e,
      pow_add 2 j (suc (63 - j)),
      ap (λ (k : ℕ). 2 ^ j * k) (pow-suc 2 (63 - j)),
    )

bit_of_low : (limb rest j : ℕ) → j < 64 → (limb + u64_mod * rest) / 2 ^ j % 2 ≡ limb / 2 ^ j % 2
bit_of_low limb rest j h =
    let place = 2 * 2 ^ (63 - j) * rest in
    let e : u64_mod * rest ≡ 2 ^ j * place =
      omega (arith, ap (λ (k : ℕ). k * rest) (split_limb j h)) in
    omega (arith, ap (λ (k : ℕ). (limb + k) / 2 ^ j) e, add-mul-div_left limb place (two_pow_pos j))

limb_at-value :
    (limbs : List ℕ) (i j : ℕ)
    → All IsLimb limbs
    → j < 64
    → limb_at limbs i / 2 ^ j % 2 ≡ value limbs / (u64_mod ^ i * 2 ^ j) % 2
unfolding limb_at value
limb_at-value [] i j h k = rw (zero-div (2 ^ j), zero-div (u64_mod ^ i * 2 ^ j))
limb_at-value (limb ∷ limbs) zero j h k =
    let e : 1 * 2 ^ j ≡ 2 ^ j = omega arith in rw e (sym (bit_of_low limb (value limbs) j k))
limb_at-value (limb ∷ limbs) (suc i) j h k =
    let e : u64_mod ^ suc i * 2 ^ j ≡ u64_mod * (u64_mod ^ i * 2 ^ j) =
      omega (arith, ap (λ (t : ℕ). t * 2 ^ j) (pow-suc u64_mod i)) in
    let high : (limb + u64_mod * value limbs) / u64_mod ≡ value limbs = omega arith in
    rw (e, ← div-div-eq-div-mul (limb + u64_mod * value limbs) u64_mod (u64_mod ^ i * 2 ^ j), high)
      (limb_at-value limbs i j h.1 k)

word_pow : (i : ℕ) → u64_mod ^ i ≡ 2 ^ (64 * i)
word_pow zero = refl
word_pow (suc i) =
    let e : 64 * suc i ≡ 64 * i + 64 = omega arith in
    rw (e, pow_add 2 (64 * i) 64, pow-suc u64_mod i, word_pow i)

index_pow : (k : ℕ) → u64_mod ^ (k / 64) * 2 ^ (k % 64) ≡ 2 ^ k
index_pow k =
    let e : k ≡ 64 * (k / 64) + k % 64 = omega arith in
    rw (word_pow (k / 64))
      (sym (pow_add 2 (64 * (k / 64)) (k % 64)) ∙ ap (λ (t : ℕ). 2 ^ t) (sym e))

-- The bit that the loop reads is the bit of the number.
pub bit_at-value :
    (limbs : List ℕ) (k : ℕ) → All IsLimb limbs → bit_at limbs k ≡ value limbs / 2 ^ k % 2
unfolding bit_at
bit_at-value limbs k h =
    limb_at-value limbs (k / 64) (k % 64) h (omega arith)
    ∙ ap (λ (t : ℕ). value limbs / t % 2) (index_pow k)

value-add_at :
    (limbs : List ℕ) (i n : ℕ)
    → i < length limbs
    → value (add_at limbs i n) ≡ value limbs + u64_mod ^ i * n
unfolding value add_at
value-add_at [] i n h = absurd (omega arith)
value-add_at (limb ∷ limbs) zero n h = omega arith
value-add_at (limb ∷ limbs) (suc i) n h =
    omega (arith, value-add_at limbs i n (omega arith), ap (λ (t : ℕ). t * n) (pow-suc u64_mod i))

length-add_at : (limbs : List ℕ) (i n : ℕ) → length (add_at limbs i n) ≡ length limbs
unfolding add_at
length-add_at [] i n = refl
length-add_at (limb ∷ limbs) zero n = refl
length-add_at (limb ∷ limbs) (suc i) n = ap suc (length-add_at limbs i n)

-- The bit that the loop sets is a power of two more.
pub value-set_bit :
    (limbs : List ℕ) (k : ℕ)
    → length limbs ≡ 4
    → k < 256
    → (value (set_bit limbs k) ≡ value limbs + 2 ^ k) × (length (set_bit limbs k) ≡ 4)
unfolding set_bit
value-set_bit limbs k l h = (
  omega (arith, value-add_at limbs (k / 64) (2 ^ (k % 64)) (omega (arith, l)), index_pow k),
  length-add_at limbs (k / 64) (2 ^ (k % 64)) ∙ l,
)
