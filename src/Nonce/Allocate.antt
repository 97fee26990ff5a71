-- ===== src/Nonce/Allocate.antt =====
-- One call of the allocator: what it may do to the range, and that the range stays well formed.
use pool.Base.{
  ℕ, ◌+◌, ◌≤◌, ◌<◌, ◌≡◌, refl, false, ◌||◌, not, arith, ltb, leb, ◌==◌, ok, err, Bool-cases, leb→le,
  ◌⊎◌, inl, inr,
}
use pool.Nonce.{
  NoncePrefixError, NoncePrefixAllocator, capacity, prefix_of, poisoned_lock, exhausted,
  extend_reserved, allocate,
}
use pool.Nonce.Prefix.{IsLease}

pub record IsAllocator (a : NoncePrefixAllocator) : Type 0 where
  pub lease : IsLease a.lease
  pub within : a.next ≤ a.end_exclusive
  pub reserved : a.end_exclusive ≤ capacity a.profile

-- What calls leave of an allocator: the same namespace, a range that is still well formed, and an
-- end that never moves back.
pub record IsLater (a b : NoncePrefixAllocator) : Type 0 where
  pub profile : b.profile ≡ a.profile
  pub lease : b.lease ≡ a.lease
  pub next : a.next ≤ b.next
  pub end_exclusive : a.end_exclusive ≤ b.end_exclusive

pub refl_IsLater : (a : NoncePrefixAllocator) → IsLater a a
refl_IsLater a = record {
  profile = refl;
  lease = refl;
  next = omega arith;
  end_exclusive = omega arith;
}

abbrev pub stepped : NoncePrefixAllocator → NoncePrefixAllocator
stepped a = record a { next = a.next + 1 }

-- An allocation either grants the prefix of the next counter, which is below the end, and steps
-- the counter, or leaves the allocator as it is.
pub allocate-cases :
    (a : NoncePrefixAllocator)
    → (a.next < a.end_exclusive
        × (a.poisoned ≡ false)
        × (allocate a ≡ (ok (prefix_of a.profile a.lease a.next), stepped a)))
      ⊎ ((e : NoncePrefixError) × (allocate a ≡ (err e, a))
          × (a.poisoned ≡ false → a.end_exclusive ≤ a.next))
unfolding allocate
allocate-cases a = elim (Bool-cases a.poisoned) [
  | inl p ↦ inr (poisoned_lock, rw p refl, λ clean. absurd (cc))
  | inr p ↦ elim (Bool-cases (leb a.end_exclusive a.next)) [
    | inl q ↦ inr (exhausted a.profile, rw (p, q) refl, λ clean. leb→le _ _ q)
    | inr q ↦ inl (ground arith, p, rw (p, q) refl)
  ]
]

-- An extension either moves the end further, within the capacity, or leaves the allocator.
pub extend_reserved-cases :
    (a : NoncePrefixAllocator) (start end_exclusive : ℕ)
    → (a.end_exclusive < end_exclusive
        × end_exclusive ≤ capacity a.profile
        × ((extend_reserved a start end_exclusive).1 ≡ record a { end_exclusive = end_exclusive }))
      ⊎ ((extend_reserved a start end_exclusive).1 ≡ a)
unfolding extend_reserved
extend_reserved-cases a start end_exclusive = elim (Bool-cases a.poisoned) [
  | inl p ↦ inr (rw p refl)
  | inr p ↦
      elim (Bool-cases (
        not (start == a.end_exclusive)
        || leb end_exclusive start
        || ltb (capacity a.profile) end_exclusive)) [
          | inl q ↦ inr (rw (p, q) refl)
          | inr q ↦ inl (ground arith, ground arith, rw (p, q) refl)
        ]
]

-- Whatever its arguments, an extension keeps the allocator well formed, and the next counter.
pub extend_reserved-IsAllocator :
    (a : NoncePrefixAllocator) (start end_exclusive : ℕ)
    → IsAllocator a
    → IsAllocator (extend_reserved a start end_exclusive).1
      × IsLater a (extend_reserved a start end_exclusive).1
      × ((extend_reserved a start end_exclusive).1.next ≡ a.next)
extend_reserved-IsAllocator a start end_exclusive h =
    elim (extend_reserved-cases a start end_exclusive) [
      | inl r ↦ rw (r.2) (
        record { lease = h.lease; within = ground arith; reserved = r.1 },
        record { profile = refl; lease = refl; next = omega arith; end_exclusive = ground arith },
        refl,
      )
      | inr e ↦ rw e (h, refl_IsLater a, refl)
    ]

pub allocate-IsAllocator :
    (a : NoncePrefixAllocator)
    → IsAllocator a
    → IsAllocator (allocate a).1 × IsLater a (allocate a).1
allocate-IsAllocator a h = elim (allocate-cases a) [
  | inl r ↦ rw (r.2) (
    record { lease = h.lease; within = ground arith; reserved = h.reserved },
    record { profile = refl; lease = refl; next = omega arith; end_exclusive = omega arith },
  )
  | inr r ↦ rw (r.1) (h, refl_IsLater a)
]
