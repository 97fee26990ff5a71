-- ===== src/Target.antt =====
-- crates/wcash-pool-core/src/target.rs and the target types of
-- crates/wcash-pool-protocol/src/fixed_hex.rs: share targets, their bounds and their bindings.
-- A `ShareTarget` is the number that its 32 big-endian bytes spell. The conversions at the two
-- byte boundaries are functions of the bytes; the derived lexicographic order of the bytes is
-- the order of these numbers, so `min`, `max` and `clamp` are those of numbers.
pub mod Codec
pub mod Policy
mod Tests
use mathlib.Core.List.{reverse}
use pool.Base.{
  ℕ, zero, suc, ◌+◌, ◌≤◌, ◌<◌, ◌≡◌, min, max, Bool, true, false, ◌&&◌, List, [], ◌∷◌, ltb, leb,
  ◌==◌, if◌then◌else◌, Result, ok, err, ◌>>=◌, ◌>>◌, fail_if, u256_mod,
}
use pool.Base.Bytes.{from_be_bytes, to_be_bytes}

abbrev pub ShareTarget : Type 0
ShareTarget = ℕ

abbrev pub maximum_target : ShareTarget
maximum_target = 0xffff_ffff_ffff_ffff_ffff_ffff_ffff_ffff_ffff_ffff_ffff_ffff_ffff_ffff_ffff_ffff

-- What every `ShareTarget` value is: nonzero, and of 256 bits.
pub record IsTarget (target : ShareTarget) : Type 0 where
  pub nonzero : 0 < target
  pub fits : target < u256_mod

pub data ShareTargetError : Type 0 where
  zero_target : ShareTargetError

-- `ShareTarget::from_be_bytes` and `from_zip301`: the argument is the `TargetBe`'s bytes.
pub from_zip301 : List ℕ → Result ShareTargetError ShareTarget
from_zip301 bytes = if from_be_bytes bytes == 0 then err zero_target else ok (from_be_bytes bytes)

-- `TargetBe::from(&TargetLe)` and `TargetLe::from(&TargetBe)` reverse the bytes.
unfoldable pub swap_order : List ℕ → List ℕ
swap_order bytes = reverse bytes

pub from_backend : List ℕ → Result ShareTargetError ShareTarget
unfolding swap_order
from_backend bytes = from_zip301 (swap_order bytes)

unfoldable pub to_zip301 : ShareTarget → List ℕ
to_zip301 target = to_be_bytes 32 target

unfoldable pub to_backend : ShareTarget → List ℕ
unfolding swap_order
to_backend target = swap_order (to_zip301 target)

pub harder : ShareTarget → ShareTarget → ShareTarget
harder a b = min a b

pub easier : ShareTarget → ShareTarget → ShareTarget
easier a b = max a b

-- `Ord::clamp`. It panics where `low` exceeds `high`, which no caller lets happen.
abbrev pub clamp_between : ℕ → ℕ → ℕ → ℕ
clamp_between target low high =
    if ltb target low then low else if ltb high target then high else target

pub record TargetBounds : Type 0 where
  pub wcash_network : ShareTarget
  pub zcash_network : ShareTarget
  pub hardest_allowed : ShareTarget
  pub easiest_allowed : ShareTarget

pub data TargetPolicyError : Type 0 where
  -- `OperatorLimitExcludesNetworkWinner`, with `required` and `configured`.
  operator_limit_excludes_network_winner : ShareTarget → ShareTarget → TargetPolicyError
  -- `OutsideBounds`, with `target`, `hardest` and `easiest`.
  outside_bounds : ShareTarget → ShareTarget → ShareTarget → TargetPolicyError

-- `TargetBounds::new`.
unfoldable pub new_bounds :
    ShareTarget → ShareTarget → ShareTarget → Result TargetPolicyError TargetBounds
new_bounds wcash_network zcash_network operator_easiest =
    let hardest = max wcash_network zcash_network in
    if ltb operator_easiest hardest
    then err (operator_limit_excludes_network_winner hardest operator_easiest)
    else ok (record {
      wcash_network = wcash_network;
      zcash_network = zcash_network;
      hardest_allowed = hardest;
      easiest_allowed = operator_easiest;
    })

abbrev pub clamp : TargetBounds → ShareTarget → ShareTarget
clamp bounds target = clamp_between target bounds.hardest_allowed bounds.easiest_allowed

abbrev pub inside : TargetBounds → ShareTarget → Bool
inside bounds target = leb bounds.hardest_allowed target && leb target bounds.easiest_allowed

pub record TargetBinding : Type 0 where
  pub revision : ℕ
  pub target : ShareTarget
  pub bounds : TargetBounds

-- `TargetBinding::new`.
unfoldable pub new_binding : ℕ → ShareTarget → TargetBounds → Result TargetPolicyError TargetBinding
new_binding revision target bounds =
    if inside bounds target
    then ok (record { revision = revision; target = target; bounds = bounds })
    else err (outside_bounds target bounds.hardest_allowed bounds.easiest_allowed)

-- The derived equality of bounds and of bindings.
abbrev pub same_bounds : TargetBounds → TargetBounds → Bool
same_bounds a b =
    a.wcash_network == b.wcash_network
    && a.zcash_network == b.zcash_network
    && a.hardest_allowed == b.hardest_allowed
    && a.easiest_allowed == b.easiest_allowed

abbrev pub same_binding : TargetBinding → TargetBinding → Bool
same_binding a b = a.revision == b.revision && a.target == b.target && same_bounds a.bounds b.bounds

-- The bounds that `new_bounds` makes.
pub record IsBounds (b : TargetBounds) : Type 0 where
  pub covers_wcash : b.wcash_network ≤ b.hardest_allowed
  pub covers_zcash : b.zcash_network ≤ b.hardest_allowed
  pub ordered : b.hardest_allowed ≤ b.easiest_allowed

-- The bindings that `new_binding` makes over such bounds.
pub record IsBound (b : TargetBinding) : Type 0 where
  pub floor : b.bounds.hardest_allowed ≤ b.target
  pub ceiling : b.target ≤ b.bounds.easiest_allowed
  pub bounded : IsBounds b.bounds
