-- ===== src/Nonce/Prefix.antt =====
-- A prefix determines its profile, its namespace and its counter.
use Prim.Native.Nat.{bit_or}
use pool.Base.{
  if◌then◌else◌, Bool-cases, inl, inr, subst, false, ℕ, zero, suc, ◌+◌, ◌%◌, ◌^◌, ◌<◌, ◌≡◌, ◌≢◌,
  refl, ap, sym, ◌∙◌, Bool, true, List, ◌∷◌, arith, ◌==◌, ==→eq, length, get_elem?, some, u32_mod,
}
use pool.Base.Bytes.{to_le_bytes, from_le_bytes, from_le_bytes-to_le_bytes}
use pool.Nonce.{
  NonceProfile, four_byte, eight_byte, capacity, domain_byte, prefix_of, as_bytes, prefix_bytes,
}

-- A namespace that `new_lease` grants.
pub record IsLease (lease : ℕ) : Type 0 where
  pub some_lease : 0 < lease
  pub below : lease < 128

-- The table of the bytes below a bound, with their high bit set.
highs_agree : ℕ → Bool
highs_agree zero = true
highs_agree (suc bound) = if bit_or 0x80 bound == 128 + bound then highs_agree bound else false

highs_agree_128 : highs_agree 128 ≡ true
unfolding highs_agree
highs_agree_128 = refl

highs_agree-below :
    (bound byte : ℕ) → byte < bound → highs_agree bound ≡ true → bit_or 0x80 byte ≡ 128 + byte
unfolding highs_agree
highs_agree-below zero byte lt table = absurd (omega arith)
highs_agree-below (suc bound) byte lt table = elim (Bool-cases (bit_or 0x80 bound == 128 + bound)) [
  | inr q ↦ absurd (cc)
  | inl q ↦ elim (Bool-cases (byte == bound)) [
    | inl here ↦ subst (λ (b : ℕ). bit_or 0x80 b ≡ 128 + b) (sym (==→eq _ _ here)) (==→eq _ _ q)
    | inr below ↦ highs_agree-below bound byte (ground arith) (rw q at table)
  ]
]

-- Setting the high bit of a byte below 128 adds 128.
high_bit : (byte : ℕ) → byte < 128 → bit_or 0x80 byte ≡ 128 + byte
high_bit byte h = highs_agree-below 128 byte h highs_agree_128

-- The domain bytes of the two profiles are disjoint.
domain_byte-range :
    (lease : ℕ)
    → IsLease lease
    → (domain_byte four_byte lease ≡ lease) × (domain_byte eight_byte lease ≡ 128 + lease)
unfolding domain_byte
domain_byte-range lease h = (refl, high_bit lease h.below)

-- The first byte of a prefix is its domain byte, and it has as many bytes as its profile says.
pub length-prefix_of :
    (p : NonceProfile) (lease n : ℕ) → length (as_bytes (prefix_of p lease n)) ≡ prefix_bytes p
unfolding prefix_of to_le_bytes
length-prefix_of four_byte lease n = refl
length-prefix_of eight_byte lease n = refl

same_list : {x y : ℕ} {xs ys : List ℕ} → x ∷ xs ≡ y ∷ ys → (x ≡ y) × (xs ≡ ys)
same_list e = (cc, cc)

-- Numbers that fit in a width are determined by their bytes.
to_le_bytes-injective :
    (width m n : ℕ)
    → m < 256 ^ width
    → n < 256 ^ width
    → to_le_bytes width m ≡ to_le_bytes width n
    → m ≡ n
to_le_bytes-injective width m n h k e =
    sym (from_le_bytes-to_le_bytes width m h)
    ∙ ap from_le_bytes e
    ∙ from_le_bytes-to_le_bytes width n k

-- A prefix of four bytes never equals one of eight.
prefixes_apart :
    (l k m n : ℕ) → as_bytes (prefix_of four_byte l m) ≢ as_bytes (prefix_of eight_byte k n)
unfolding prefix_of to_le_bytes
prefixes_apart l k m n e =
    absurd
      (omega (arith, length-prefix_of four_byte l m, length-prefix_of eight_byte k n, ap length e))

same_four :
    (l k m n : ℕ)
    → IsLease l
    → IsLease k
    → m < capacity four_byte
    → n < capacity four_byte
    → as_bytes (prefix_of four_byte l m) ≡ as_bytes (prefix_of four_byte k n)
    → (l ≡ k) × (m ≡ n)
unfolding prefix_of domain_byte to_le_bytes
same_four l k m n hl hk hm hn e =
    let low =
      to_le_bytes-injective 3 (m % u32_mod) (n % u32_mod) (omega arith) (omega arith)
        ((same_list e).1) in
    ((same_list e).0, omega arith)

same_eight :
    (l k m n : ℕ)
    → IsLease l
    → IsLease k
    → m < capacity eight_byte
    → n < capacity eight_byte
    → as_bytes (prefix_of eight_byte l m) ≡ as_bytes (prefix_of eight_byte k n)
    → (l ≡ k) × (m ≡ n)
unfolding prefix_of to_le_bytes
same_eight l k m n hl hk hm hn e =
    let first = (same_list e).0 in
    (
      omega (arith, first, (domain_byte-range l hl).1, (domain_byte-range k hk).1),
      to_le_bytes-injective 7 m n (omega arith) (omega arith) (same_list e).1,
    )

-- Two prefixes with the same bytes, made from granted namespaces and counters below the
-- capacities of their profiles, have the same profile, the same namespace and the same counter.
pub prefix_of-injective :
    (p q : NonceProfile) (l k m n : ℕ)
    → IsLease l
    → IsLease k
    → m < capacity p
    → n < capacity q
    → as_bytes (prefix_of p l m) ≡ as_bytes (prefix_of q k n)
    → (p ≡ q) × (l ≡ k) × (m ≡ n)
prefix_of-injective four_byte four_byte l k m n hl hk hm hn e =
    let same = same_four l k m n hl hk hm hn e in (refl, same.0, same.1)
prefix_of-injective eight_byte eight_byte l k m n hl hk hm hn e =
    let same = same_eight l k m n hl hk hm hn e in (refl, same.0, same.1)
prefix_of-injective four_byte eight_byte l k m n hl hk hm hn e = absurd (prefixes_apart l k m n e)
prefix_of-injective eight_byte four_byte l k m n hl hk hm hn e =
    absurd (prefixes_apart k l n m (sym e))

-- The first byte tells the profiles apart even where one prefix is read as the start of the
-- other: the domain bytes of two profiles never agree, whatever their namespaces.
pub domain_byte-apart :
    (l k : ℕ) → IsLease l → IsLease k → domain_byte four_byte l ≢ domain_byte eight_byte k
domain_byte-apart l k hl hk e =
    omega (arith, (domain_byte-range l hl).0, (domain_byte-range k hk).1)

-- The first byte of a prefix.
pub prefix_of-head :
    (p : NonceProfile) (l n : ℕ) → get_elem? (as_bytes (prefix_of p l n)) 0 ≡ some (domain_byte p l)
unfolding prefix_of
prefix_of-head four_byte l n = refl
prefix_of-head eight_byte l n = refl
