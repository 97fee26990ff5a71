-- ===== src/Nonce/Tests.antt =====
-- Runs of the allocator, and instances of its theorems.
use pool.Base.{
  ℕ, ◌+◌, ◌-◌, ◌≡◌, ◌≢◌, ◌<◌, ◌≤◌, ◌⊎◌, inl, inr, refl, ap, Bool, true, false, ◌||◌, not, List, [],
  ◌∷◌, ◌++◌, arith, ltb, leb, ◌==◌, Option, some, Result, ok, err, ◌>>=◌, ◌>>◌, fail_if, length,
  get_elem?, min,
}
use pool.Nonce.{
  four_byte, four, twenty_eight, NoncePrefixAllocator, zero_namespace, namespace_out_of_range,
  prefix_of, domain_byte, as_bytes, new_lease, allocate, extend_reserved, join_nonce,
  restore_reserved, next_cursor,
}
use pool.Nonce.Prefix.{IsLease}
use pool.Nonce.Allocate.{IsAllocator}
use pool.Nonce.Runs.{
  Call, allocating, extending, run, consecutive, allocations, run-consecutive, run-distinct,
  run-disjoint, length-allocations,
}
use pool.Nonce.Cursor.{restore_reserved-next_cursor}
use pool.Nonce.Joined.{join_nonce-injective}

five_IsLease : IsLease 5
five_IsLease = record { some_lease = omega arith; below = omega arith }

six_IsLease : IsLease 6
six_IsLease = record { some_lease = omega arith; below = omega arith }

refused_zero : new_lease 0 ≡ err zero_namespace
unfolding new_lease
refused_zero = refl

refused_128 : new_lease 128 ≡ err (namespace_out_of_range 128)
unfolding new_lease
refused_128 = refl

-- Two prefixes are left of the reserved range.
abbrev reserved : NoncePrefixAllocator
reserved = record {
  profile = four_byte;
  lease = 5;
  next = 255;
  end_exclusive = 257;
  poisoned = false;
}

reserved-IsAllocator : IsAllocator reserved
reserved-IsAllocator = record { lease = five_IsLease; within = omega arith; reserved = omega arith }

-- Three allocations, of which the last finds the range used up, an extension that skips a counter,
-- the extension that follows the range, and one more allocation.
abbrev calls : List Call
calls =
    allocating ∷ allocating ∷ allocating ∷ extending 258 300 ∷ extending 257 300 ∷ allocating ∷ []

calls_grant :
    (run calls reserved).0
    ≡ four (5 ∷ 255 ∷ 0 ∷ 0 ∷ []) ∷ four (5 ∷ 0 ∷ 1 ∷ 0 ∷ []) ∷ four (5 ∷ 1 ∷ 1 ∷ 0 ∷ []) ∷ []
unfolding run allocate extend_reserved prefix_of domain_byte pool.Base.Bytes.to_le_bytes
calls_grant = refl

run-consecutive_example :
    ((run calls reserved).0 ≡ consecutive reserved (length (run calls reserved).0))
    × IsAllocator (run calls reserved).1
    × ((run calls reserved).1.next ≡ 255 + length (run calls reserved).0)
run-consecutive_example = run-consecutive calls reserved reserved-IsAllocator

run-distinct_example : as_bytes (prefix_of four_byte 5 255) ≢ as_bytes (prefix_of four_byte 5 257)
unfolding run allocate extend_reserved
run-distinct_example = run-distinct calls reserved 0 2 reserved-IsAllocator (omega arith) refl refl

abbrev elsewhere : NoncePrefixAllocator
elsewhere = record {
  profile = four_byte;
  lease = 5;
  next = 300;
  end_exclusive = 400;
  poisoned = false;
}

elsewhere-IsAllocator : IsAllocator elsewhere
elsewhere-IsAllocator = record {
  lease = five_IsLease;
  within = omega arith;
  reserved = omega arith;
}

ends_before : (run calls reserved).1.end_exclusive ≤ 300
unfolding run allocate extend_reserved
ends_before = omega arith

run-disjoint_example : as_bytes (prefix_of four_byte 5 257) ≢ as_bytes (prefix_of four_byte 5 300)
unfolding run allocate extend_reserved
run-disjoint_example =
    run-disjoint calls (allocations 1) reserved elsewhere 2 0 reserved-IsAllocator
      elsewhere-IsAllocator (inr (inr ends_before)) refl refl

length-allocations_example : length (run (allocations 3) reserved).0 ≡ 2
length-allocations_example = length-allocations 3 reserved refl

restore_reserved-next_cursor_example :
    (next_cursor reserved >>= λ c. restore_reserved c 5 257) ≡ ok reserved
restore_reserved-next_cursor_example =
    restore_reserved-next_cursor reserved reserved-IsAllocator refl (omega arith)

abbrev suffix : List ℕ
suffix =
    1 ∷ 2 ∷ 3 ∷ 4 ∷ 5 ∷ 6 ∷ 7 ∷ 8 ∷ 9 ∷ 10 ∷ 11 ∷ 12 ∷ 13 ∷ 14 ∷ 15 ∷ 16 ∷ 17 ∷ 18 ∷ 19 ∷ 20 ∷ 21
    ∷ 22 ∷ 23 ∷ 24 ∷ 25 ∷ 26 ∷ 27 ∷ 28 ∷ []

join_nonce-injective_example : (four_byte ≡ four_byte) × ◌≡◌ {A = ℕ} 5 5 × ◌≡◌ {A = ℕ} 255 255
unfolding join_nonce prefix_of
join_nonce-injective_example =
    join_nonce-injective four_byte four_byte 5 5 255 255 (twenty_eight suffix) (twenty_eight suffix)
      five_IsLease five_IsLease (omega arith) (omega arith) refl refl
