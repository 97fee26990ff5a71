-- ===== src/Nonce/Runs.antt =====
-- The allocator over any sequence of its calls: the reserved range stays within the namespace, the
-- prefixes it grants are those of consecutive counters, and no prefix is granted twice.
use pool.Base.{
  ℕ, zero, suc, ◌+◌, ◌-◌, ◌≤◌, ◌<◌, ◌≡◌, ◌≢◌, refl, ap, sym, ◌∙◌, false, List, [], ◌∷◌, arith,
  length, get_elem?, some, Result, ok, err, range_from, map, min, subst, ◌⊎◌, inl, inr,
}
use pool.Nonce.{
  NonceProfile, NoncePrefix, NoncePrefixError, NoncePrefixAllocator, capacity, prefix_of, as_bytes,
  extend_reserved, allocate,
}
use pool.Nonce.Allocate.{
  IsAllocator, IsLater, refl_IsLater, stepped, allocate-cases, extend_reserved-IsAllocator,
  allocate-IsAllocator,
}
use pool.Nonce.Prefix.{prefix_of-injective}

-- The calls that a holder of the allocator can make.
pub data Call : Type 0 where
  allocating : Call
  extending : ℕ → ℕ → Call

-- The prefix a reply carries, in front of the later ones.
abbrev pub granted : {E : Type 0} → Result E NoncePrefix → List NoncePrefix → List NoncePrefix
granted (ok prefix) rest = prefix ∷ rest
granted (err e) rest = rest

-- The prefixes granted by the calls of a list, in order, and the allocator after them.
unfoldable pub run : List Call → NoncePrefixAllocator → List NoncePrefix × NoncePrefixAllocator
run [] a = ([], a)
run (allocating ∷ calls) a =
    let rest = run calls (allocate a).1 in (granted (allocate a).0 rest.0, rest.1)
run (extending start end_exclusive ∷ calls) a = run calls (extend_reserved a start end_exclusive).1

-- What a run grants: the prefixes of consecutive counters from the allocator's next one.
abbrev pub consecutive : NoncePrefixAllocator → ℕ → List NoncePrefix
consecutive a count = map (prefix_of a.profile a.lease) (range_from a.next count)

record IsRun (a : NoncePrefixAllocator) (r : List NoncePrefix × NoncePrefixAllocator) : Type 0 where
  prefixes : r.0 ≡ consecutive a (length r.0)
  still : IsAllocator r.1
  later : IsLater a r.1
  counter : r.1.next ≡ a.next + length r.0

-- A call that grants nothing in front of a run.
silent-IsRun :
    (a b : NoncePrefixAllocator) (r : List NoncePrefix × NoncePrefixAllocator)
    → IsLater a b
    → b.next ≡ a.next
    → IsRun b r
    → IsRun a r
silent-IsRun a b r h same k = record {
  prefixes = rw (sym h.profile, sym h.lease, sym same) k.prefixes;
  still = k.still;
  later = record {
    profile = k.later.profile ∙ h.profile;
    lease = k.later.lease ∙ h.lease;
    next = omega (arith, h.next, k.later.next);
    end_exclusive = omega (arith, h.end_exclusive, k.later.end_exclusive);
  };
  counter = omega (arith, k.counter);
}

next_is_suc : (n : ℕ) → n + 1 ≡ suc n
next_is_suc n = omega arith

-- A granted prefix in front of a run from the next counter.
granting-IsRun :
    (a : NoncePrefixAllocator) (r : List NoncePrefix × NoncePrefixAllocator)
    → IsRun (stepped a) r
    → IsRun a (prefix_of a.profile a.lease a.next ∷ r.0, r.1)
granting-IsRun a r k = record {
  prefixes =
      ap (λ (t : List NoncePrefix). prefix_of a.profile a.lease a.next ∷ t)
        (rw (next_is_suc a.next) at k.prefixes);
  still = k.still;
  later = record {
    profile = k.later.profile;
    lease = k.later.lease;
    next = omega (arith, k.later.next);
    end_exclusive = k.later.end_exclusive;
  };
  counter = omega (arith, k.counter);
}

run-IsRun : (calls : List Call) (a : NoncePrefixAllocator) → IsAllocator a → IsRun a (run calls a)
unfolding run
run-IsRun [] a h = record {
  prefixes = refl;
  still = h;
  later = refl_IsLater a;
  counter = omega arith;
}
run-IsRun (extending start end_exclusive ∷ calls) a h =
    let moved = extend_reserved-IsAllocator a start end_exclusive h in
    silent-IsRun a (extend_reserved a start end_exclusive).1 _ moved.1 moved.2
      (run-IsRun calls (extend_reserved a start end_exclusive).1 moved.0)
run-IsRun (allocating ∷ calls) a h =
    let kept = allocate-IsAllocator a h in
    elim (allocate-cases a) [
      | inl r ↦ rw (r.2) (
          granting-IsRun a (run calls (stepped a)) (
            run-IsRun calls (stepped a) (
              subst
                (λ (t : Result NoncePrefixError NoncePrefix × NoncePrefixAllocator).
                  IsAllocator t.1)
                r.2 kept.0)))
      | inr r ↦ rw (r.1) (run-IsRun calls a h)
    ]

-- For every sequence of allocations and extensions of a well-formed allocator, the prefixes
-- granted are those of the consecutive counters from the allocator's next one on, the allocator
-- stays well formed, and its counter has moved by the number of prefixes granted.
pub run-consecutive :
    (calls : List Call) (a : NoncePrefixAllocator)
    → IsAllocator a
    → ((run calls a).0 ≡ consecutive a (length (run calls a).0))
      × IsAllocator (run calls a).1
      × ((run calls a).1.next ≡ a.next + length (run calls a).0)
run-consecutive calls a h = let k = run-IsRun calls a h in (k.prefixes, k.still, k.counter)

get_elem?-consecutive :
    (f : ℕ → NoncePrefix) (first count i : ℕ) {x : NoncePrefix}
    → get_elem? (map f (range_from first count)) i ≡ some x
    → (x ≡ f (first + i)) × i < count
get_elem?-consecutive f first zero i e = absurd (cc)
get_elem?-consecutive f first (suc count) zero {x} e =
    let here : first + 0 ≡ first = omega arith in (rw here (cc), omega arith)
get_elem?-consecutive f first (suc count) (suc i) e =
    let rest = get_elem?-consecutive f (suc first) count i e in
    let shifted : first + suc i ≡ suc first + i = omega arith in
    (rw shifted rest.0, omega (arith, rest.1))

-- The counter behind a granted prefix.
granted-counter :
    (calls : List Call) (a : NoncePrefixAllocator) (i : ℕ) {x : NoncePrefix}
    → IsAllocator a
    → get_elem? (run calls a).0 i ≡ some x
    → (x ≡ prefix_of a.profile a.lease (a.next + i))
      × a.next + i < (run calls a).1.end_exclusive
      × a.next + i < capacity a.profile
granted-counter calls a i {x} h e =
    let k = run-IsRun calls a h in
    let found =
      get_elem?-consecutive (prefix_of a.profile a.lease) a.next _ i
        (subst (λ (t : List NoncePrefix). get_elem? t i ≡ some x) k.prefixes e) in
    let room : (run calls a).1.end_exclusive ≤ capacity a.profile =
      subst (λ (p : NonceProfile). (run calls a).1.end_exclusive ≤ capacity p) k.later.profile
        (k.still.reserved) in
    (
      found.0,
      omega (arith, found.1, k.counter, k.still.within),
      omega (arith, found.1, k.counter, k.still.within, room),
    )

-- No sequence of allocations and extensions of a well-formed allocator grants the same prefix
-- twice: the prefixes at two places of the sequence granted differ in their bytes.
pub run-distinct :
    (calls : List Call) (a : NoncePrefixAllocator) (i j : ℕ) {x y : NoncePrefix}
    → IsAllocator a
    → i < j
    → get_elem? (run calls a).0 i ≡ some x
    → get_elem? (run calls a).0 j ≡ some y
    → as_bytes x ≢ as_bytes y
run-distinct calls a i j {x} {y} h lt d e same =
    let first = granted-counter calls a i h d in
    let second = granted-counter calls a j h e in
    let bytes : as_bytes (prefix_of a.profile a.lease (a.next + i))
        ≡ as_bytes (prefix_of a.profile a.lease (a.next + j)) =
      ap as_bytes (sym first.0) ∙ same ∙ ap as_bytes second.0 in
    let counters =
      prefix_of-injective a.profile a.profile a.lease a.lease (a.next + i) (a.next + j) h.lease
        h.lease first.2 second.2 bytes in
    omega (arith, counters.2)

-- Two well-formed allocators that differ in their profile or their namespace, or the second of
-- which starts at or after the end that the first has reached, never grant the same prefix,
-- whatever their calls.
pub run-disjoint :
    (calls others : List Call) (a b : NoncePrefixAllocator) (i j : ℕ) {x y : NoncePrefix}
    → IsAllocator a
    → IsAllocator b
    → (a.profile ≢ b.profile) ⊎ (a.lease ≢ b.lease) ⊎ ((run calls a).1.end_exclusive ≤ b.next)
    → get_elem? (run calls a).0 i ≡ some x
    → get_elem? (run others b).0 j ≡ some y
    → as_bytes x ≢ as_bytes y
run-disjoint calls others a b i j {x} {y} h k apart d e same =
    let first = granted-counter calls a i h d in
    let second = granted-counter others b j k e in
    let bytes : as_bytes (prefix_of a.profile a.lease (a.next + i))
        ≡ as_bytes (prefix_of b.profile b.lease (b.next + j)) =
      ap as_bytes (sym first.0) ∙ same ∙ ap as_bytes second.0 in
    let counters =
      prefix_of-injective a.profile b.profile a.lease b.lease (a.next + i) (b.next + j) h.lease
        k.lease first.2 second.2 bytes in
    elim apart [
      | inl p ↦ absurd (p counters.0)
      | inr (inl l) ↦ absurd (l counters.1)
      | inr (inr r) ↦ omega (arith, counters.2, first.1, r)
    ]

abbrev pub allocations : ℕ → List Call
allocations zero = []
allocations (suc n) = allocating ∷ allocations n

-- Of an allocator whose lock is not poisoned, as many allocations succeed as prefixes remain:
-- `n` allocations grant the smaller of `n` and the number remaining.
pub length-allocations :
    (n : ℕ) (a : NoncePrefixAllocator)
    → a.poisoned ≡ false
    → length (run (allocations n) a).0 ≡ min n (a.end_exclusive - a.next)
unfolding run
length-allocations zero a clean = omega arith
length-allocations (suc n) a clean = elim (allocate-cases a) [
  | inl r ↦ rw (r.2) (omega (arith, length-allocations n (stepped a) clean, r.0))
  | inr r ↦ rw (r.1) (omega (arith, length-allocations n a clean, r.2 clean))
]
