-- ===== src/Nonce.antt =====
-- crates/wcash-pool-core/src/nonce.rs, and the nonce types and `join_nonce` of
-- crates/wcash-pool-protocol/src/zip301.rs. The mutex around the reserved range makes each call
-- atomic: a call is a function of the range, and `poisoned` says that a holder of the lock has
-- panicked. Byte arrays are lists of bytes.
pub mod Prefix
pub mod Allocate
pub mod Runs
pub mod Cursor
pub mod Joined
mod Tests
use Prim.Native.Nat.{bit_or}
use pool.Base.{
  ℕ, zero, suc, ◌+◌, ◌-◌, ◌%◌, ◌^◌, ◌≤◌, ◌<◌, ◌≡◌, Bool, true, false, not, ◌||◌, List, [], ◌∷◌,
  ◌++◌, ltb, leb, ◌==◌, if◌then◌else◌, Result, ok, err, ◌>>=◌, ◌>>◌, fail_if, take, u32_mod,
}
use pool.Base.Bytes.{to_le_bytes}

pub data NonceProfile : Type 0 where
  four_byte eight_byte : NonceProfile

pub data NoncePrefix : Type 0 where
  four eight : List ℕ → NoncePrefix

pub data NonceSuffix : Type 0 where
  twenty_eight twenty_four : List ℕ → NonceSuffix

abbrev pub prefix_bytes : NonceProfile → ℕ
prefix_bytes four_byte = 4
prefix_bytes eight_byte = 8

abbrev pub suffix_bytes : NonceProfile → ℕ
suffix_bytes profile = 32 - prefix_bytes profile

abbrev pub as_bytes : NoncePrefix → List ℕ
as_bytes (four bytes) = bytes
as_bytes (eight bytes) = bytes

abbrev pub prefix_profile : NoncePrefix → NonceProfile
prefix_profile (four bytes) = four_byte
prefix_profile (eight bytes) = eight_byte

abbrev pub suffix_profile : NonceSuffix → NonceProfile
suffix_profile (twenty_eight bytes) = four_byte
suffix_profile (twenty_four bytes) = eight_byte

pub data JoinError : Type 0 where
  crossed_profiles : JoinError

-- `join_nonce`.
unfoldable pub join_nonce : NoncePrefix → NonceSuffix → Result JoinError (List ℕ)
join_nonce (four prefix) (twenty_eight suffix) = ok (prefix ++ suffix)
join_nonce (eight prefix) (twenty_four suffix) = ok (prefix ++ suffix)
join_nonce (four prefix) (twenty_four suffix) = err crossed_profiles
join_nonce (eight prefix) (twenty_eight suffix) = err crossed_profiles

abbrev pub capacity : NonceProfile → ℕ
capacity four_byte = 2 ^ 24
capacity eight_byte = 2 ^ 56

pub data NoncePrefixError : Type 0 where
  zero_namespace poisoned_lock : NoncePrefixError
  namespace_out_of_range : ℕ → NoncePrefixError
  exhausted : NonceProfile → NoncePrefixError
  invalid_cursor : NonceProfile → ℕ → NoncePrefixError
  -- `LeaseMismatch`, with the cursor's namespace and the provided one.
  lease_mismatch : ℕ → ℕ → NoncePrefixError
  -- `InvalidReservation`, with its start and its exclusive end.
  invalid_reservation : ℕ → ℕ → NoncePrefixError
  -- `NonContiguousReservation`, with the current end and the proposed start and end.
  non_contiguous_reservation : ℕ → ℕ → ℕ → NoncePrefixError

-- A `NonceNamespaceLease` is its namespace.
abbrev pub NonceNamespaceLease : Type 0
NonceNamespaceLease = ℕ

-- `NonceNamespaceLease::new`, of a u8.
pub new_lease : ℕ → Result NoncePrefixError NonceNamespaceLease
new_lease namespace =
    if namespace == 0
    then err zero_namespace
    else if ltb 0x7f namespace
    then err (namespace_out_of_range namespace)
    else ok namespace

-- The first byte of a prefix.
unfoldable pub domain_byte : NonceProfile → NonceNamespaceLease → ℕ
domain_byte four_byte lease = lease
domain_byte eight_byte lease = bit_or 0x80 lease

pub record NonceCursor : Type 0 where
  pub profile : NonceProfile
  pub lease : NonceNamespaceLease
  pub next : ℕ

-- `NonceCursor::new`.
pub new_cursor : NonceProfile → NonceNamespaceLease → ℕ → Result NoncePrefixError NonceCursor
new_cursor profile lease next =
    if ltb (capacity profile) next
    then err (invalid_cursor profile next)
    else ok (record { profile = profile; lease = lease; next = next })

pub record NoncePrefixAllocator : Type 0 where
  pub profile : NonceProfile
  pub lease : NonceNamespaceLease
  pub next : ℕ
  pub end_exclusive : ℕ
  pub poisoned : Bool

-- `NoncePrefixAllocator::new`.
pub new_allocator : NonceProfile → NonceNamespaceLease → NoncePrefixAllocator
new_allocator profile lease = record {
  profile = profile;
  lease = lease;
  next = 0;
  end_exclusive = capacity profile;
  poisoned = false;
}

pub restore : NonceCursor → NonceNamespaceLease → Result NoncePrefixError NoncePrefixAllocator
restore cursor lease =
    if cursor.lease == lease
    then ok (record {
      profile = cursor.profile;
      lease = lease;
      next = cursor.next;
      end_exclusive = capacity cursor.profile;
      poisoned = false;
    })
    else err (lease_mismatch cursor.lease lease)

pub restore_reserved :
    NonceCursor → NonceNamespaceLease → ℕ → Result NoncePrefixError NoncePrefixAllocator
restore_reserved cursor lease end_exclusive = do
  fail_if (not (cursor.lease == lease)) (lease_mismatch cursor.lease lease)
  fail_if (leb end_exclusive cursor.next || ltb (capacity cursor.profile) end_exclusive)
      (invalid_reservation cursor.next end_exclusive)
  ok (record {
    profile = cursor.profile;
    lease = lease;
    next = cursor.next;
    end_exclusive = end_exclusive;
    poisoned = false;
  })

unfoldable pub extend_reserved :
    NoncePrefixAllocator → ℕ → ℕ → Result NoncePrefixError (Unit {0}) × NoncePrefixAllocator
extend_reserved a start end_exclusive =
    if a.poisoned
    then (err poisoned_lock, a)
    else if not (start == a.end_exclusive)
        || leb end_exclusive start
        || ltb (capacity a.profile) end_exclusive
    then (err (non_contiguous_reservation a.end_exclusive start end_exclusive), a)
    else (ok tt, record a { end_exclusive = end_exclusive })

-- `saturating_sub` is the subtraction of ℕ.
pub remaining : NoncePrefixAllocator → Result NoncePrefixError ℕ
remaining a = if a.poisoned then err poisoned_lock else ok (a.end_exclusive - a.next)

-- The prefix of a counter: the domain byte and the three or seven low bytes of the counter.
unfoldable pub prefix_of : NonceProfile → NonceNamespaceLease → ℕ → NoncePrefix
prefix_of four_byte lease value =
    four (domain_byte four_byte lease ∷ take 3 (to_le_bytes 4 (value % u32_mod)))
prefix_of eight_byte lease value =
    eight (domain_byte eight_byte lease ∷ take 7 (to_le_bytes 8 value))

unfoldable pub allocate :
    NoncePrefixAllocator → Result NoncePrefixError NoncePrefix × NoncePrefixAllocator
allocate a =
    if a.poisoned
    then (err poisoned_lock, a)
    else if leb a.end_exclusive a.next
    then (err (exhausted a.profile), a)
    else (ok (prefix_of a.profile a.lease a.next), record a { next = a.next + 1 })

pub next_cursor : NoncePrefixAllocator → Result NoncePrefixError NonceCursor
next_cursor a = if a.poisoned then err poisoned_lock else new_cursor a.profile a.lease a.next
