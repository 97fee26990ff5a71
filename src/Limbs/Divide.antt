-- ===== src/Limbs/Divide.antt =====
-- The bit loop is floor division, saturated at 256 bits.
use native.Mathlib.Nat.{
  pow-suc, add-mul-div_right, div-div-eq-div-mul, div-add-mod', mod-lt, pow-le-pow_right,
  div-eq_of_lt, div-lt_iff_lt-mul,
}
use pool.Base.{
  ℕ, zero, suc, ◌+◌, ◌-◌, ◌*◌, ◌/◌, ◌%◌, ◌^◌, ◌≤◌, ◌<◌, min, ◌≡◌, refl, ap, sym, subst, ◌∙◌, ◌⊎◌,
  inl, inr, true, false, List, arith, All, length, leb, Bool-cases, u128_mod, u256_mod, leb→le, ltb,
  ltb→lt,
}
use pool.Limbs.{
  value, bit_at, set_bit, Division, divide_bit, divide_bits, divide_320_by_128, start, finish,
  all_ones,
}
use pool.Limbs.Multiply.{IsLimb}
use pool.Limbs.Bits.{bit_at-value, value-set_bit, two_pow_pos}

-- One round for a bit of the quotient proper: the remainder and the next bit either stay below
-- the divisor, or the divisor is taken off and the bit is set.
divide_bit-low :
    (n : List ℕ) (d k : ℕ) (s : Division)
    → s.remainder < d
    → d < u128_mod
    → bit_at n k < 2
    → k < 256
    → ((s.remainder * 2 + bit_at n k < d)
        × (divide_bit n d k s ≡ record s { remainder = s.remainder * 2 + bit_at n k }))
      ⊎ ((d ≤ s.remainder * 2 + bit_at n k)
          × (divide_bit n d k s ≡ record s {
            remainder = s.remainder * 2 + bit_at n k - d;
            quotient = set_bit s.quotient k;
          }))
unfolding divide_bit
divide_bit-low n d k s h w b l = ground arith

-- One round for a bit beyond the quotient: taking the divisor off is an overflow.
divide_bit-high :
    (n : List ℕ) (d k : ℕ) (s : Division)
    → s.remainder < d
    → d < u128_mod
    → bit_at n k < 2
    → 256 ≤ k
    → ((s.remainder * 2 + bit_at n k < d)
        × (divide_bit n d k s ≡ record s { remainder = s.remainder * 2 + bit_at n k }))
      ⊎ ((d ≤ s.remainder * 2 + bit_at n k)
          × (divide_bit n d k s
              ≡ record s { remainder = s.remainder * 2 + bit_at n k - d; overflow = true }))
unfolding divide_bit
divide_bit-high n d k s h w b l = ground arith

mod_double : (n p : ℕ) → 0 < p → n % (p * 2) ≡ n / p % 2 * p + n % p
mod_double n p h =
    let halves : n / p ≡ n / p / 2 * 2 + n / p % 2 = omega arith in
    omega (
      arith,
      div-add-mod' n p,
      div-add-mod' n (p * 2),
      ap (λ (t : ℕ). t * (p * 2)) (div-div-eq-div-mul n p 2),
      ap (λ (t : ℕ). t * p) halves,
    )

mod-step : (n k : ℕ) → n % 2 ^ suc k ≡ n / 2 ^ k % 2 * 2 ^ k + n % 2 ^ k
mod-step n k = rw (pow-suc 2 k) (mod_double n (2 ^ k) (two_pow_pos k))

-- What is left to divide before the rounds for the bits below `k`.
abbrev pending : ℕ → ℕ → ℕ → ℕ
pending number remainder k = remainder * 2 ^ k + number % 2 ^ k

pending-step :
    (number remainder k : ℕ)
    → pending number remainder (suc k) ≡ pending number (remainder * 2 + number / 2 ^ k % 2) k
pending-step number remainder k =
    omega (arith, mod-step number k, ap (λ (t : ℕ). remainder * t) (pow-suc 2 k))

split : (x d : ℕ) → d ≤ x → x ≡ x - d + d
split x d h = omega arith

pending-taken :
    (number x d k : ℕ)
    → 0 < d
    → d ≤ x
    → pending number x k / d ≡ 2 ^ k + pending number (x - d) k / d
pending-taken number x d k h le =
    let e : pending number x k ≡ pending number (x - d) k + 2 ^ k * d =
      omega (arith, ap (λ (t : ℕ). t * 2 ^ k) (split x d le)) in
    omega (arith, ap (λ (t : ℕ). t / d) e, add-mul-div_right (pending number (x - d) k) (2 ^ k) h)

pending-lt : (number r d k : ℕ) → r < d → pending number r k < d * 2 ^ k
pending-lt number r d k h =
    let scaled : (r + 1) * 2 ^ k ≤ d * 2 ^ k = grind arith in
    omega (arith, mod-lt number (two_pow_pos k))

value-start : value start.quotient ≡ 0
unfolding value
value-start = refl

value-all_ones : value all_ones ≡ u256_mod - 1
unfolding value
value-all_ones = refl

finish-fits : (t : Division) → t.overflow ≡ false → finish t ≡ t.quotient
finish-fits t e = ground arith

finish-saturated : (t : Division) → t.overflow ≡ true → finish t ≡ all_ones
finish-saturated t e = ground arith

module _ (n : List ℕ) (d : ℕ) (limbs : All IsLimb n) (word : d < u128_mod) where
  bit_below : (k : ℕ) → bit_at n k < 2
  bit_below k = omega (arith, bit_at-value n k limbs)

  round : (r k : ℕ) → pending (value n) r (suc k) ≡ pending (value n) (r * 2 + bit_at n k) k
  round r k =
      pending-step (value n) r k
      ∙ ap (λ (b : ℕ). pending (value n) (r * 2 + b) k) (sym (bit_at-value n k limbs))

  -- What the rounds have made of `s` when they end in `t`, as long as the quotient fits.
  abbrev Divides : ℕ → Division → Division → Type 0
  Divides k s t =
      (value t.quotient ≡ value s.quotient + pending (value n) s.remainder k / d)
      × (t.overflow ≡ s.overflow)

  pending-zero : (r : ℕ) → r < d → pending (value n) r 0 / d ≡ 0
  pending-zero r h =
      let e : pending (value n) r 0 ≡ r = omega arith in ap (λ (t : ℕ). t / d) e ∙ div-eq_of_lt h

  -- The rounds for the bits of the quotient divide what is pending.
  divide_bits-low :
      (k : ℕ) (s : Division)
      → k ≤ 256
      → s.remainder < d
      → length s.quotient ≡ 4
      → Divides k s (divide_bits n d k s)
  unfolding divide_bits
  divide_bits-low zero s h r l = (omega (arith, pending-zero s.remainder r), refl)
  divide_bits-low (suc k) s h r l = elim (divide_bit-low n d k s r word (bit_below k) h) [
    | inl (below, e) ↦
        let t : Division = record s { remainder = s.remainder * 2 + bit_at n k } in
        let (v, o) = divide_bits-low k t (omega arith) below l in
        subst (λ u. Divides (suc k) s (divide_bits n d k u)) (sym e)
          (v ∙ ap (λ (x : ℕ). value s.quotient + x / d) (sym (round s.remainder k)), o)
    | inr (above, e) ↦
        let x = s.remainder * 2 + bit_at n k in
        let (added, l') = value-set_bit s.quotient k l h in
        let t : Division = record s { remainder = x - d; quotient = set_bit s.quotient k } in
        let (v, o) = divide_bits-low k t (omega arith) (omega (arith, bit_below k)) l' in
        subst (λ u. Divides (suc k) s (divide_bits n d k u)) (sym e)
          (
            omega (
              arith,
              v,
              added,
              pending-taken (value n) x d k (omega arith) above,
              ap (λ (y : ℕ). y / d) (round s.remainder k),
            ),
            o,
          )
  ]

  -- With the bits beyond the quotient too: the quotient is right if it fits, and an overflow is
  -- noted if it does not.
  abbrev Outcome : ℕ → Division → Division → Type 0
  Outcome total s t =
      (total < u256_mod → (value t.quotient ≡ value s.quotient + total) × (t.overflow ≡ s.overflow))
      × (u256_mod ≤ total → t.overflow ≡ true)
      × (s.overflow ≡ true → t.overflow ≡ true)

  abbrev Saturates : ℕ → Division → Division → Type 0
  Saturates k s t = Outcome (pending (value n) s.remainder k / d) s t

  low-Saturates :
      (k : ℕ) (s : Division)
      → k ≤ 256
      → s.remainder < d
      → length s.quotient ≡ 4
      → Saturates k s (divide_bits n d k s)
  low-Saturates k s h r l =
      let (v, o) = divide_bits-low k s h r l in
      let wide : 2 ^ k ≤ 2 ^ 256 = pow-le-pow_right (omega arith) h in
      let scaled : d * 2 ^ k ≤ d * 2 ^ 256 = grind arith in
      let fits : pending (value n) s.remainder k / d < u256_mod =
        (div-lt_iff_lt-mul {k = d} {y = u256_mod} (omega arith)).1
          (omega (arith, pending-lt (value n) s.remainder d k r, scaled)) in
      (λ _. (v, o), λ big. absurd (omega arith), λ old. o ∙ old)

  divide_bits-high :
      (k : ℕ) (s : Division)
      → s.remainder < d
      → length s.quotient ≡ 4
      → Saturates k s (divide_bits n d k s)
  unfolding divide_bits
  divide_bits-high zero s r l = low-Saturates zero s (omega arith) r l
  divide_bits-high (suc k) s r l = elim (Bool-cases (leb 256 k)) [
    | inr less ↦ low-Saturates (suc k) s (ground arith) r l
    | inl more ↦ elim (divide_bit-high n d k s r word (bit_below k) (leb→le 256 k more)) [
      | inl (below, e) ↦
          let t : Division = record s { remainder = s.remainder * 2 + bit_at n k } in
          let ih = divide_bits-high k t below l in
          subst (λ u. Saturates (suc k) s (divide_bits n d k u)) (sym e)
            (subst (λ total. Outcome total t (divide_bits n d k t))
              (sym (ap (λ (y : ℕ). y / d) (round s.remainder k))) ih)
      | inr (above, e) ↦
          let x = s.remainder * 2 + bit_at n k in
          let t : Division = record s { remainder = x - d; overflow = true } in
          let ih = divide_bits-high k t (omega (arith, bit_below k)) l in
          let wide : 2 ^ 256 ≤ 2 ^ k = pow-le-pow_right (omega arith) (leb→le 256 k more) in
          let total : pending (value n) s.remainder (suc k) / d
              ≡ 2 ^ k + pending (value n) (x - d) k / d =
            ap (λ (y : ℕ). y / d) (round s.remainder k)
            ∙ pending-taken (value n) x d k (omega arith) above in
          subst (λ u. Saturates (suc k) s (divide_bits n d k u)) (sym e)
            (λ little. absurd (omega arith), λ _. ih.2 refl, λ _. ih.2 refl)
    ]
  ]

  -- For five u64 limbs and a nonzero u128 divisor, the division computes the floor of the value of
  -- the limbs over the divisor, and the largest 256-bit value where that does not fit.
  pub value-divide_320_by_128 :
      0 < d → value n < 2 ^ 320 → value (divide_320_by_128 n d) ≡ min (value n / d) (u256_mod - 1)
  unfolding divide_320_by_128
  value-divide_320_by_128 pos bound =
      let done = divide_bits-high 320 start pos refl in
      let total : pending (value n) 0 320 ≡ value n = omega arith in
      let same : pending (value n) 0 320 / d ≡ value n / d = ap (λ (y : ℕ). y / d) total in
      elim (Bool-cases (ltb (value n / d) u256_mod)) [
        | inl small ↦
            let (v, o) = done.0 (rw same (ltb→lt _ _ small)) in
            ap value (finish-fits (divide_bits n d 320 start) o)
            ∙ v
            ∙ omega (arith, same, ltb→lt _ _ small, value-start)
        | inr big ↦
            let large : u256_mod ≤ value n / d = ground arith in
            ap value (finish-saturated (divide_bits n d 320 start) (done.1 (rw same large)))
            ∙ omega (arith, value-all_ones)
      ]
