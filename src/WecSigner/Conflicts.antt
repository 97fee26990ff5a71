-- ===== src/WecSigner/Conflicts.antt =====
-- The operations of crates/wcash-wec-payout-signer/src/pipeline.rs that must change nothing: those
-- of a batch that is bound to other facts, and those that only inspect.
use pool.Base.{
  err-ne-ok, ◌≢◌, ◌≡◌, refl, ap, sym, ◌∙◌, subst, true, Option, none, some, Result, ok, err,
  Bool-cases, Option-cases, inl, inr, some_injective, none-ne-some, ok_injective, not, ◌||◌, ok_or,
}
use pool.WecSigner.{Libraries, WecPayoutError, idempotency_conflict, journal_corrupt}
use pool.WecSigner.Config.{WecSignerConfig, validate_config}
use pool.WecSigner.Journal.{StoredArtifact, JournalRecord, artifact_of, find_record}
use pool.WecSigner.Requests.{WecPayoutRequest, ValidatedRequest, validate_request}
use pool.WecSigner.Machine.{Surroundings, World, Run, continue, load, lift, ◌>>=◌}
use pool.WecSigner.Asking.{recover_existing}
use pool.WecSigner.Pipeline.{
  other_artifact, has_artifact, execute_locked, load_or_reserve, take_record, prepare_locked,
  recover_found, inspect_found, compare_inspected, guarded, execute, prepare, recover_prepared,
  inspect_prepared, other_facts,
}
use pool.WecSigner.Steps.{continue-ok}
use pool.WecSigner.Writes.{load-same, load-some, load-none}

-- An operation after another that changes nothing, and that fails or changes nothing.
continue-same {ℓ κ} :
    {A : Type ℓ} {B : Type κ} (w : World) (r : Result WecPayoutError A × World) (f : A → Run B)
    → r.1 ≡ w
    → ((a : A) → r.0 ≡ ok a → (f a w).1 ≡ w)
    → (continue r f).1 ≡ w
continue-same w (ok a, v) f h k = ap (λ (u : World). (f a u).1) h ∙ k a refl
continue-same w (err e, v) f h k = h

module _ (lib : Libraries) (config : WecSignerConfig) (env : Surroundings)
    (request : WecPayoutRequest) (w : World) where
  guarded-same {ℓ} :
      {A : Type ℓ} (operation : ValidatedRequest → Run A)
      → ((validated : ValidatedRequest)
          → validate_request lib config request ≡ ok validated
          → (operation validated w).1 ≡ w)
      → (guarded lib config env request operation w).1 ≡ w
  unfolding guarded
  guarded-same operation h =
      continue-same w (validate_config config, w) _ refl
        (λ _ _.
          continue-same w (validate_request lib config request, w) _ refl
            (λ validated e.
              continue-same w (env.lock, w) (λ _. operation validated) refl (λ _ _. h validated e)))

  pub guarded-ok {ℓ} :
      {A : Type ℓ} (operation : ValidatedRequest → Run A) {a : A}
      → (guarded lib config env request operation w).0 ≡ ok a
      → (validated : ValidatedRequest) × (validate_request lib config request ≡ ok validated)
        × ((operation validated w).0 ≡ ok a)
        × ((guarded lib config env request operation w).1 ≡ (operation validated w).1)
  unfolding guarded
  guarded-ok operation e =
      let valid = continue-ok (validate_config config, w) _ e in
      let asked = continue-ok (validate_request lib config request, w) _ valid.2 in
      let locked = continue-ok (env.lock, w) (λ _. operation asked.0) asked.2 in
      (asked.0, asked.1, locked.2, valid.3 ∙ asked.3 ∙ locked.3)

  compare_inspected-same :
      (held : JournalRecord) (a : StoredArtifact) (inspected : Option StoredArtifact)
      → (compare_inspected lib config env held a inspected w).1 ≡ w
  unfolding compare_inspected
  compare_inspected-same held a none = refl
  compare_inspected-same held a (some b) = elim (Bool-cases (other_artifact b a)) [
    | inl other ↦ rw (compare_inspected, other) refl
    | inr same ↦ rw (compare_inspected, same) refl
  ]

  inspect_found-same :
      (validated : ValidatedRequest) (held : JournalRecord)
      → (inspect_found lib config env request validated held w).1 ≡ w
  unfolding inspect_found
  inspect_found-same validated held =
      elim (Bool-cases (other_facts held validated || not (has_artifact held.stage))) [
        | inl other ↦ rw (inspect_found, other) refl
        | inr same ↦
            rw (inspect_found, same)
              (continue-same w (ok_or (artifact_of held.stage) journal_corrupt, w) _ refl
                (λ a _.
                  continue-same w (recover_existing lib config env request validated, w)
                    (compare_inspected lib config env held a) refl
                    (λ inspected _. compare_inspected-same held a inspected)))
      ]

  -- An inspection changes nothing, whatever it finds: it neither writes the journal nor asks for a
  -- signature or a broadcast.
  pub inspect_prepared-same : (inspect_prepared lib config env request w).1 ≡ w
  unfolding inspect_prepared
  inspect_prepared-same = guarded-same _ (λ validated _.
      continue-same w (load env request.batch.batch_id w) _ (load-same env request.batch.batch_id w)
        (λ found _.
          continue-same w (ok_or found journal_corrupt, w)
            (inspect_found lib config env request validated) refl
            (λ held _. inspect_found-same validated held)))

-- A call that fails and changes nothing.
pub record IsRefused {ℓ} {A : Type ℓ} (w : World) (r : Result WecPayoutError A × World)
    : Type ℓ where
  pub unchanged : r.1 ≡ w
  pub refused : (a : A) → r.0 ≢ ok a

continue-IsRefused {ℓ κ} :
    {A : Type ℓ} {B : Type κ} (w : World) (r : Result WecPayoutError A × World) (f : A → Run B)
    → r.1 ≡ w
    → ((a : A) → r.0 ≡ ok a → IsRefused w (f a w))
    → IsRefused w (continue r f)
continue-IsRefused w (ok a, v) f h k = subst (λ (u : World). IsRefused w (f a u)) (sym h) (k a refl)
continue-IsRefused w (err e, v) f h k = record {
  unchanged = h;
  refused = λ a is. absurd (err-ne-ok is);
}

err-IsRefused {ℓ} : {A : Type ℓ} (w : World) (e : WecPayoutError) → IsRefused {A = A} w (err e, w)
err-IsRefused w e = record { unchanged = refl; refused = λ a is. absurd (err-ne-ok is) }

module _ (lib : Libraries) (config : WecSignerConfig) (env : Surroundings)
    (request : WecPayoutRequest) (w : World) {held : JournalRecord} {validated : ValidatedRequest}
    (found : find_record request.batch.batch_id w.journal ≡ some held)
    (valid : validate_request lib config request ≡ ok validated)
    (other : other_facts held validated ≡ true) where
  guarded-IsRefused {ℓ} :
      {A : Type ℓ} (operation : ValidatedRequest → Run A)
      → IsRefused w (operation validated w)
      → IsRefused w (guarded lib config env request operation w)
  unfolding guarded
  guarded-IsRefused operation h =
      continue-IsRefused w (validate_config config, w) _ refl
        (λ _ _.
          continue-IsRefused w (validate_request lib config request, w) _ refl
            (λ v e.
              continue-IsRefused w (env.lock, w) (λ _. operation v) refl
                (λ _ _.
                  subst (λ (v : ValidatedRequest). IsRefused w (operation v w))
                    (ok_injective (sym valid ∙ e)) h)))

  -- Reading the record of the batch fails, or gives this one.
  loaded-IsRefused {ℓ} :
      {B : Type ℓ} (f : Option JournalRecord → Run B)
      → IsRefused w (f (some held) w)
      → IsRefused w (continue (load env request.batch.batch_id w) f)
  loaded-IsRefused f h =
      continue-IsRefused w (load env request.batch.batch_id w) f
        (load-same env request.batch.batch_id w)
        (λ old e. elim (Option-cases old) [
          | inl absent ↦ absurd (
              none-ne-some
                (sym (load-none env request.batch.batch_id w (e ∙ ap ok absent)) ∙ found))
          | inr is ↦
              let read = (load-some env request.batch.batch_id w (e ∙ ap ok is.1)).0 in
              subst (λ (o : Option JournalRecord). IsRefused w (f o w))
                (ap some (some_injective (sym found ∙ read)) ∙ sym is.1) h
        ])

  taken-IsRefused {ℓ} :
      {B : Type ℓ} (f : JournalRecord → Run B)
      → IsRefused w (continue (load_or_reserve lib config env request validated w) f)
  unfolding load_or_reserve take_record
  taken-IsRefused f =
      let whole : IsRefused w (load_or_reserve lib config env request validated w) =
        loaded-IsRefused (take_record lib config env request validated)
          (rw (take_record, other) (err-IsRefused w idempotency_conflict)) in
      continue-IsRefused w (load_or_reserve lib config env request validated w) f whole.unchanged
        (λ a e. absurd (whole.refused a e))

  -- A batch that the journal has bound to other facts is refused by every operation, whatever the
  -- answers and the interruptions: none succeeds, and none writes, signs or broadcasts anything.
  pub execute-IsRefused :
      IsRefused w (execute lib config env request w)
      × IsRefused w (prepare lib config env request w)
      × IsRefused w (recover_prepared lib config env request w)
      × IsRefused w (inspect_prepared lib config env request w)
  unfolding execute prepare recover_prepared inspect_prepared execute_locked prepare_locked
      recover_found inspect_found
  execute-IsRefused = (
    guarded-IsRefused (execute_locked lib config env request) (taken-IsRefused _),
    guarded-IsRefused (prepare_locked lib config env request) (taken-IsRefused _),
    guarded-IsRefused _ (
        loaded-IsRefused (recover_found lib config env request validated)
          (rw (recover_found, other) (err-IsRefused w idempotency_conflict))),
    guarded-IsRefused _ (
        loaded-IsRefused
          (λ old.
            lift (ok_or old journal_corrupt) >>= inspect_found lib config env request validated)
          (rw (inspect_found, other) (err-IsRefused w idempotency_conflict))),
  )
