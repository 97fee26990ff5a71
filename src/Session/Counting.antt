-- ===== src/Session/Counting.antt =====
-- How the list operations of crates/wcash-pool-core/src/session.rs change the number of assignments
-- and the number for one generation.
use pool.Base.{
  ℕ, ◌+◌, ◌-◌, ◌≤◌, ◌≡◌, refl, ap, Bool, List, [], ◌∷◌, ◌++◌, none, some, arith, ◌==◌, keep, length,
  Bool-cases, inl, inr, some_injective, none-ne-some, sym, ==→eq, ◌∙◌,
}
use pool.Jobs.{JobAssignment}
use pool.Session.{find_job, remove_first, pop_back}
use pool.Session.Calls.{count_job}

pub count_job-append :
    (id : ℕ) (xs ys : List JobAssignment)
    → count_job id (xs ++ ys) ≡ count_job id xs + count_job id ys
count_job-append id [] ys = omega arith
count_job-append id (a ∷ xs) ys = omega (arith, count_job-append id xs ys)

pub count_job-keep-le :
    (id : ℕ) (p : JobAssignment → Bool) (xs : List JobAssignment)
    → count_job id (keep p xs) ≤ count_job id xs
count_job-keep-le id p [] = omega arith
count_job-keep-le id p (a ∷ xs) = ground (arith, count_job-keep-le id p xs)

pub count_job-pop_back-le :
    (id : ℕ) (xs : List JobAssignment) → count_job id (pop_back xs) ≤ count_job id xs
count_job-pop_back-le id [] = omega arith
count_job-pop_back-le id (a ∷ []) = ground arith
count_job-pop_back-le id (a ∷ b ∷ xs) = omega (arith, count_job-pop_back-le id (b ∷ xs))

pub length-pop_back : (xs : List JobAssignment) → length (pop_back xs) ≡ length xs - 1
length-pop_back [] = refl
length-pop_back (a ∷ []) = refl
length-pop_back (a ∷ b ∷ xs) = omega (arith, length-pop_back (b ∷ xs))

-- An assignment that is not found is not counted, and one that is found is of the generation.
pub find_job-none : (id : ℕ) (xs : List JobAssignment) → find_job id xs ≡ none → count_job id xs ≡ 0
find_job-none id [] e = refl
find_job-none id (a ∷ xs) e = elim (Bool-cases (a.generation_id == id)) [
  | inl hit ↦ absurd (none-ne-some (sym (rw hit at e)))
  | inr miss ↦ rw miss (omega (arith, find_job-none id xs (rw miss at e)))
]

pub find_job-id :
    (id : ℕ) (xs : List JobAssignment) {a : JobAssignment}
    → find_job id xs ≡ some a
    → a.generation_id ≡ id
find_job-id id [] e = absurd (none-ne-some e)
find_job-id id (b ∷ xs) {a} e = elim (Bool-cases (b.generation_id == id)) [
  | inl hit ↦
      let same : b ≡ a = some_injective (rw hit at e) in
      sym (ap (λ (a : JobAssignment). a.generation_id) same) ∙ ==→eq _ _ hit
  | inr miss ↦ find_job-id id xs (rw miss at e)
]

-- Removing the first assignment for a generation takes that one away and no other.
pub count_job-remove_first :
    (k id : ℕ) (xs : List JobAssignment) {a : JobAssignment}
    → find_job id xs ≡ some a
    → count_job k xs ≡ count_job k (a ∷ remove_first id xs)
count_job-remove_first k id [] e = absurd (none-ne-some e)
count_job-remove_first k id (b ∷ xs) {a} e = elim (Bool-cases (b.generation_id == id)) [
  | inl hit ↦
      rw hit (ap (λ (a : JobAssignment). count_job k (a ∷ xs)) (some_injective (rw hit at e)))
  | inr miss ↦ rw miss (omega (arith, count_job-remove_first k id xs (rw miss at e)))
]

pub length-remove_first :
    (id : ℕ) (xs : List JobAssignment) {a : JobAssignment}
    → find_job id xs ≡ some a
    → length (remove_first id xs) + 1 ≡ length xs
length-remove_first id [] e = absurd (none-ne-some e)
length-remove_first id (b ∷ xs) e = elim (Bool-cases (b.generation_id == id)) [
  | inl hit ↦ rw hit (omega arith)
  | inr miss ↦ rw miss (omega (arith, length-remove_first id xs (rw miss at e)))
]
