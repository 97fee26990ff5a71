-- ===== src/Nonce/Joined.antt =====
-- `join_nonce`: the prefix a session holds, followed by the suffix of its miner.
use pool.Base.{
  ℕ, ◌<◌, ◌≡◌, refl, ap, sym, ◌∙◌, List, [], ◌∷◌, ◌++◌, take, length, get_elem?, some, ok,
}
use pool.Nonce.{
  NonceProfile, four_byte, eight_byte, NoncePrefix, four, eight, NonceSuffix, twenty_eight,
  twenty_four, capacity, domain_byte, prefix_of, as_bytes, prefix_bytes, join_nonce, prefix_profile,
  suffix_profile,
}
use pool.Nonce.Prefix.{
  IsLease, length-prefix_of, prefix_of-injective, domain_byte-apart, prefix_of-head,
}

abbrev pub suffix_as_bytes : NonceSuffix → List ℕ
suffix_as_bytes (twenty_eight bytes) = bytes
suffix_as_bytes (twenty_four bytes) = bytes

-- A joined nonce is the bytes of its prefix followed by those of its suffix.
pub join_nonce-append :
    (prefix : NoncePrefix) (suffix : NonceSuffix) {nonce : List ℕ}
    → join_nonce prefix suffix ≡ ok nonce
    → (nonce ≡ as_bytes prefix ++ suffix_as_bytes suffix)
      × (prefix_profile prefix ≡ suffix_profile suffix)
unfolding join_nonce
join_nonce-append (four p) (twenty_eight s) e = (cc, refl)
join_nonce-append (eight p) (twenty_four s) e = (cc, refl)
join_nonce-append (four p) (twenty_four s) e = absurd (cc)
join_nonce-append (eight p) (twenty_eight s) e = absurd (cc)

take-append : (xs ys : List ℕ) → take (length xs) (xs ++ ys) ≡ xs
take-append [] ys = refl
take-append (x ∷ xs) ys = ap (λ (t : List ℕ). x ∷ t) (take-append xs ys)

head-append : (xs ys : List ℕ) {x : ℕ} → get_elem? xs 0 ≡ some x → get_elem? (xs ++ ys) 0 ≡ some x
head-append [] ys e = absurd (cc)
head-append (y ∷ xs) ys e = e

-- The prefix is read back from the nonce.
take-join_nonce :
    (p : NonceProfile) (l n : ℕ) (suffix : NonceSuffix) {nonce : List ℕ}
    → join_nonce (prefix_of p l n) suffix ≡ ok nonce
    → take (prefix_bytes p) nonce ≡ as_bytes (prefix_of p l n)
take-join_nonce p l n suffix e =
    rw ((join_nonce-append (prefix_of p l n) suffix e).0, sym (length-prefix_of p l n))
      (take-append (as_bytes (prefix_of p l n)) (suffix_as_bytes suffix))

head-join_nonce :
    (p : NonceProfile) (l n : ℕ) (suffix : NonceSuffix) {nonce : List ℕ}
    → join_nonce (prefix_of p l n) suffix ≡ ok nonce
    → get_elem? nonce 0 ≡ some (domain_byte p l)
head-join_nonce p l n suffix e =
    rw ((join_nonce-append (prefix_of p l n) suffix e).0)
      (head-append (as_bytes (prefix_of p l n)) (suffix_as_bytes suffix) (prefix_of-head p l n))

same_domain : {x y : ℕ} → some x ≡ some y → x ≡ y
same_domain e = cc

domains_agree :
    (p q : NonceProfile) (l k m n : ℕ) (s t : NonceSuffix) {nonce : List ℕ}
    → join_nonce (prefix_of p l m) s ≡ ok nonce
    → join_nonce (prefix_of q k n) t ≡ ok nonce
    → domain_byte p l ≡ domain_byte q k
domains_agree p q l k m n s t d e =
    same_domain (sym (head-join_nonce p l m s d) ∙ head-join_nonce q k n t e)

same_profile :
    (p q : NonceProfile) (l k : ℕ)
    → IsLease l
    → IsLease k
    → domain_byte p l ≡ domain_byte q k
    → p ≡ q
same_profile four_byte four_byte l k hl hk e = refl
same_profile eight_byte eight_byte l k hl hk e = refl
same_profile four_byte eight_byte l k hl hk e = absurd (domain_byte-apart l k hl hk e)
same_profile eight_byte four_byte l k hl hk e = absurd (domain_byte-apart k l hk hl (sym e))

-- Two sessions that submit the same nonce hold the same prefix: nonces joined from prefixes of
-- granted namespaces and counters below the capacities of their profiles, with any suffixes, are
-- equal only when the profiles, the namespaces and the counters are.
pub join_nonce-injective :
    (p q : NonceProfile) (l k m n : ℕ) (s t : NonceSuffix) {nonce : List ℕ}
    → IsLease l
    → IsLease k
    → m < capacity p
    → n < capacity q
    → join_nonce (prefix_of p l m) s ≡ ok nonce
    → join_nonce (prefix_of q k n) t ≡ ok nonce
    → (p ≡ q) × (l ≡ k) × (m ≡ n)
join_nonce-injective p q l k m n s t {nonce} hl hk hm hn d e =
    let same = same_profile p q l k hl hk (domains_agree p q l k m n s t d e) in
    let bytes : as_bytes (prefix_of p l m) ≡ as_bytes (prefix_of q k n) =
      sym (take-join_nonce p l m s d)
      ∙ ap (λ (r : NonceProfile). take (prefix_bytes r) nonce) same
      ∙ take-join_nonce q k n t e in
    prefix_of-injective p q l k m n hl hk hm hn bytes
