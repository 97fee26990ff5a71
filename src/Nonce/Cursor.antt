-- ===== src/Nonce/Cursor.antt =====
-- Leases, cursors and restored allocators.
use pool.Base.{
  err-ne-ok, ok_injective, ℕ, ◌≤◌, ◌<◌, ◌≡◌, refl, false, ◌||◌, arith, ltb, leb, ◌==◌, ok, ◌>>=◌,
  Bool-cases, inl, inr, eq→==, ge→ltb, ==→eq, subst,
}
use pool.Nonce.{
  NonceProfile, NonceCursor, NonceNamespaceLease, NoncePrefixAllocator, capacity, new_lease,
  new_cursor, restore_reserved, next_cursor,
}
use pool.Nonce.Allocate.{IsAllocator}
use pool.Nonce.Prefix.{IsLease}

-- A namespace that `NonceNamespaceLease::new` grants is from 1 to 127.
pub new_lease-IsLease : (n : ℕ) {l : NonceNamespaceLease} → new_lease n ≡ ok l → IsLease l
unfolding new_lease
new_lease-IsLease n {l} e = record { some_lease = ground arith; below = ground arith }

-- A cursor that `NonceCursor::new` makes is within its profile.
pub new_cursor-bounded :
    (p : NonceProfile) (l : NonceNamespaceLease) (n : ℕ) {c : NonceCursor}
    → new_cursor p l n ≡ ok c
    → c.next ≤ capacity c.profile
unfolding new_cursor
new_cursor-bounded p l n {c} e = elim (Bool-cases (ltb (capacity p) n)) [
  | inl q ↦ absurd (err-ne-ok (rw q at e))
  | inr q ↦
      subst (λ (t : NonceCursor). t.next ≤ capacity t.profile) (ok_injective (rw q at e))
        (ground arith)
]

-- An allocator restored to a reserved range is well formed, starts at the cursor and ends where
-- the reservation does; the cursor's namespace is the lease that was provided.
pub restore_reserved-IsAllocator :
    (c : NonceCursor) (l : NonceNamespaceLease) (end_exclusive : ℕ) {a : NoncePrefixAllocator}
    → IsLease l
    → restore_reserved c l end_exclusive ≡ ok a
    → IsAllocator a × (a.next ≡ c.next) × (a.end_exclusive ≡ end_exclusive) × (c.lease ≡ l)
unfolding restore_reserved
restore_reserved-IsAllocator c l end_exclusive {a} h e = elim (Bool-cases (c.lease == l)) [
  | inr q ↦ absurd (err-ne-ok (rw q at e))
  | inl q ↦ elim (Bool-cases (leb end_exclusive c.next || ltb (capacity c.profile) end_exclusive)) [
    | inl r ↦ absurd (err-ne-ok (rw (q, r) at e))
    | inr r ↦
        subst
          (λ (t : NoncePrefixAllocator).
            IsAllocator t × (t.next ≡ c.next) × (t.end_exclusive ≡ end_exclusive) × (c.lease ≡ l))
          (ok_injective (rw (q, r) at e))
          (
            record { lease = h; within = ground arith; reserved = ground arith },
            refl,
            refl,
            ==→eq _ _ q,
          )
  ]
]

-- Taking the cursor of a well-formed allocator whose lock is not poisoned, and restoring it under
-- the same lease with the end of its range, gives the allocator back, as long as a prefix remains.
pub restore_reserved-next_cursor :
    (a : NoncePrefixAllocator)
    → IsAllocator a
    → a.poisoned ≡ false
    → a.next < a.end_exclusive
    → (next_cursor a >>= λ c. restore_reserved c a.lease a.end_exclusive) ≡ ok a
unfolding restore_reserved next_cursor new_cursor
restore_reserved-next_cursor a h clean some_left =
    let small = ge→ltb (capacity a.profile) a.next (omega arith) in
    let own = eq→== a.lease a.lease refl in
    let room : (leb a.end_exclusive a.next || ltb (capacity a.profile) a.end_exclusive) ≡ false =
      ground arith in
    rw (clean, small, own, room) refl
