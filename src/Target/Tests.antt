-- ===== src/Target/Tests.antt =====
-- Runs of the target model, and instances of its theorems.
use pool.Base.{ℕ, ◌≡◌, refl, List, [], ◌∷◌, arith, ok, err, ltb}
use pool.Base.Bytes.{from_be_bytes, lex_ltb}
use pool.Target.{
  ShareTarget, TargetBounds, IsTarget, new_bounds, clamp, from_zip301, from_backend, to_zip301,
  to_backend, swap_order, operator_limit_excludes_network_winner,
}
use pool.Target.Codec.{IsEncoded, from_zip301-to_zip301, to_zip301-from_zip301, from_zip301-order}

operator_limit : new_bounds 2 4 3 ≡ err (operator_limit_excludes_network_winner 4 3)
unfolding new_bounds
operator_limit = refl

abbrev bounds : TargetBounds
bounds = record { wcash_network = 2; zcash_network = 4; hardest_allowed = 4; easiest_allowed = 8 }

clamped : (clamp bounds 1 ≡ 4) × (clamp bounds 6 ≡ 6) × (clamp bounds 9 ≡ 8)
clamped = (refl, refl, refl)

-- The big-endian bytes of 0xa502.
abbrev encoded : List ℕ
encoded =
    0 ∷ 0 ∷ 0 ∷ 0 ∷ 0 ∷ 0 ∷ 0 ∷ 0 ∷ 0 ∷ 0 ∷ 0 ∷ 0 ∷ 0 ∷ 0 ∷ 0 ∷ 0 ∷ 0 ∷ 0 ∷ 0 ∷ 0 ∷ 0 ∷ 0 ∷ 0 ∷ 0
    ∷ 0 ∷ 0 ∷ 0 ∷ 0 ∷ 0 ∷ 0 ∷ 0xa5 ∷ 2 ∷ []

encoded-IsEncoded : IsEncoded encoded
encoded-IsEncoded = record { sized = refl; octets = omega arith }

decoded : from_zip301 encoded ≡ ok 0xa502
unfolding from_zip301 from_be_bytes
decoded = refl

from_zip301-to_zip301_example :
    (from_zip301 (to_zip301 77) ≡ ok 77)
    × (from_backend (to_backend 77) ≡ ok 77)
    × (to_backend 77 ≡ swap_order (to_zip301 77))
from_zip301-to_zip301_example =
    from_zip301-to_zip301 77 (record { nonzero = omega arith; fits = omega arith })

to_zip301-from_zip301_example :
    (target : ShareTarget) × (from_zip301 encoded ≡ ok target)
    × IsTarget target
    × (to_zip301 target ≡ encoded)
    × (from_backend (swap_order encoded) ≡ ok target)
    × (to_backend target ≡ swap_order encoded)
unfolding from_be_bytes
to_zip301-from_zip301_example = to_zip301-from_zip301 encoded encoded-IsEncoded (omega arith)

from_zip301-order_example : lex_ltb encoded encoded ≡ ltb 0xa502 0xa502
from_zip301-order_example =
    from_zip301-order encoded encoded encoded-IsEncoded encoded-IsEncoded decoded decoded
