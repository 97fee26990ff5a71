-- ===== src/Target/Codec.antt =====
-- The two byte orders of a target: round trips, and the order of targets.
use mathlib.Core.List.{reverse, reverse-cons, reverse-reverse}
use pool.Base.{
  ℕ, ◌≡◌, ◌≢◌, ◌<◌, refl, ap, sym, ◌∙◌, List, [], ◌∷◌, ◌++◌, arith, ltb, ok, err, length, All,
  u256_mod,
}
use pool.Base.Bytes.{
  IsByte, from_be_bytes, from_be_bytes-lt, from_le_bytes, to_be_bytes, to_le_bytes, lex_ltb,
  lex_ltb-ltb, length-reverse, to_le_bytes-from_le_bytes, from_le_bytes-to_le_bytes,
  from_le_bytes-reverse,
}
use pool.Target.{
  ShareTarget, IsTarget, zero_target, from_zip301, from_backend, to_zip301, to_backend, swap_order,
}

-- 32 bytes.
pub record IsEncoded (bytes : List ℕ) : Type 0 where
  pub sized : length bytes ≡ 32
  pub octets : All IsByte bytes

All-snoc : (bytes : List ℕ) {b : ℕ} → All IsByte bytes → IsByte b → All IsByte (bytes ++ b ∷ [])
All-snoc [] h k = (k, tt)
All-snoc (x ∷ bytes) h k = (h.0, All-snoc bytes h.1 k)

from_be_bytes-to_be_bytes : (n : ℕ) → n < u256_mod → from_be_bytes (to_be_bytes 32 n) ≡ n
unfolding to_be_bytes
from_be_bytes-to_be_bytes n h =
    sym (from_le_bytes-reverse (reverse (to_le_bytes 32 n)))
    ∙ ap from_le_bytes (reverse-reverse (to_le_bytes 32 n))
    ∙ from_le_bytes-to_le_bytes 32 n h

-- A nonzero 256-bit target survives both encodings, and its backend form is the reverse of its
-- ZIP-301 form.
pub from_zip301-to_zip301 :
    (target : ShareTarget)
    → IsTarget target
    → (from_zip301 (to_zip301 target) ≡ ok target)
      × (from_backend (to_backend target) ≡ ok target)
      × (to_backend target ≡ swap_order (to_zip301 target))
unfolding from_zip301 to_zip301 from_backend to_backend
from_zip301-to_zip301 target h = (
  ground (arith, from_be_bytes-to_be_bytes target h.fits),
  ground (arith, from_be_bytes-to_be_bytes target h.fits, reverse-reverse (to_be_bytes 32 target)),
  refl,
)

All-reverse : (bytes : List ℕ) → All IsByte bytes → All IsByte (reverse bytes)
All-reverse [] h = tt
All-reverse (b ∷ bytes) h =
    rw (reverse-cons b bytes) (All-snoc (reverse bytes) (All-reverse bytes h.1) h.0)

to_be_bytes-from_be_bytes :
    (bytes : List ℕ)
    → length bytes ≡ 32
    → All IsByte bytes
    → to_be_bytes 32 (from_be_bytes bytes) ≡ bytes
unfolding to_be_bytes
to_be_bytes-from_be_bytes bytes l h =
    let width : 32 ≡ length (reverse bytes) = omega (arith, length-reverse bytes, l) in
    let decoded = to_le_bytes-from_le_bytes (reverse bytes) (All-reverse bytes h) in
    rw (width, ← from_le_bytes-reverse bytes, decoded) (reverse-reverse bytes)

-- All strings of 32 bytes but the zero target are accepted at both boundaries, in their own byte
-- order, as one target, which encodes to the same bytes again.
pub to_zip301-from_zip301 :
    (bytes : List ℕ)
    → IsEncoded bytes
    → from_be_bytes bytes ≢ 0
    → (target : ShareTarget) × (from_zip301 bytes ≡ ok target)
      × IsTarget target
      × (to_zip301 target ≡ bytes)
      × (from_backend (swap_order bytes) ≡ ok target)
      × (to_backend target ≡ swap_order bytes)
unfolding from_zip301 to_zip301 from_backend to_backend
to_zip301-from_zip301 bytes h ne =
    let back = to_be_bytes-from_be_bytes bytes h.sized h.octets in
    (
      from_be_bytes bytes,
      ground arith,
      record { nonzero = omega arith; fits = rw h.sized at (from_be_bytes-lt bytes h.octets) },
      back,
      ground (arith, reverse-reverse bytes),
      ap reverse back,
    )

-- The zero target is refused in both byte orders.
pub from_zip301-zero :
    (bytes : List ℕ)
    → from_be_bytes bytes ≡ 0
    → (from_zip301 bytes ≡ err zero_target) × (from_backend (swap_order bytes) ≡ err zero_target)
unfolding from_zip301 from_backend
from_zip301-zero bytes h = ground (arith, reverse-reverse bytes)

-- The lexicographic order that Rust derives for two accepted strings of 32 bytes is the numeric
-- order of their targets.
pub from_zip301-order :
    (a b : List ℕ) {s t : ShareTarget}
    → IsEncoded a
    → IsEncoded b
    → from_zip301 a ≡ ok s
    → from_zip301 b ≡ ok t
    → lex_ltb a b ≡ ltb s t
unfolding from_zip301
from_zip301-order a b h k e f =
    ground (arith, lex_ltb-ltb a b (h.sized ∙ sym k.sized) h.octets k.octets)
