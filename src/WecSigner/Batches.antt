-- ===== src/WecSigner/Batches.antt =====
-- The calls of the signer of crates/wcash-wec-payout-signer/src/pipeline.rs, from the reading of a
-- batch's record on.
use pool.Base.{
  err-ne-ok, ℕ, ◌≡◌, refl, ap, sym, ◌∙◌, subst, Option, none, some, Result, ok, err, Bool-cases,
  inl, inr, ok_injective,
}
use pool.WecSigner.{Libraries, WecPayoutError}
use pool.WecSigner.Config.{WecSignerConfig, validate_config}
use pool.WecSigner.Journal.{
  StoredArtifact, StoredStage, JournalRecord, reserved, prepared, signed, broadcast_unresolved,
  rejected, completed, find_record,
}
use pool.WecSigner.Requests.{WecPayoutRequest, ValidatedRequest, validate_request}
use pool.WecSigner.Machine.{Surroundings, World, Run, continue, load, persist, ◌>>=◌}
use pool.WecSigner.Asking.{recover_existing}
use pool.WecSigner.Pipeline.{
  at_stage, execute_locked, load_or_reserve, take_record, prepare_locked, adopt, recover_from,
  recover_found, guarded, execute, prepare, recover_prepared, other_facts,
}
use pool.WecSigner.Steps.{Steps, refl_Steps, continue-Steps}
use pool.WecSigner.Writes.{load-same, load-some, load-none}
use pool.WecSigner.Attempts.{moved-Steps}
use pool.WecSigner.Operations.{
  execute_from-Steps, prepare_from-Steps, reserve-Steps, reserve-found, reserved-IsLater,
}

module _ (lib : Libraries) (config : WecSignerConfig) (env : Surroundings) where
  -- A record that is taken is found, whether it was there or is new.
  take_record-Steps :
      (request : WecPayoutRequest) (validated : ValidatedRequest) (found : Option JournalRecord)
      (w : World)
      → (found ≡ none → find_record request.batch.batch_id w.journal ≡ none)
      → Steps w (take_record lib config env request validated found w).1
  unfolding take_record
  take_record-Steps request validated none w h =
      reserve-Steps lib config env request validated w (h refl)
  take_record-Steps request validated (some held) w h =
      elim (Bool-cases (other_facts held validated)) [
        | inl other ↦ rw (take_record, other) (refl_Steps w)
        | inr same ↦ rw (take_record, same) (refl_Steps w)
      ]

  pub take_record-found :
      (request : WecPayoutRequest) (validated : ValidatedRequest) (found : Option JournalRecord)
      (w : World) {held : JournalRecord}
      → ((old : JournalRecord) → found ≡ some old → find_record old.batch_id w.journal ≡ some old)
      → (take_record lib config env request validated found w).0 ≡ ok held
      → find_record held.batch_id (take_record lib config env request validated found w).1.journal
        ≡ some held
  unfolding take_record
  take_record-found request validated none w h e =
      reserve-found lib config env request validated w e
  take_record-found request validated (some old) w {held} h e =
      elim (Bool-cases (other_facts old validated)) [
        | inl other ↦ absurd (err-ne-ok (rw (take_record, other) at e))
        | inr same ↦
            let is : old ≡ held = ok_injective (rw (take_record, same) at e) in
            rw (take_record, same)
              (subst (λ (r : JournalRecord). find_record r.batch_id w.journal ≡ some r) is
                (h old refl))
      ]

  -- What follows the reading of the journal.
  loaded-Steps {ℓ} :
      {B : Type ℓ} (id : ℕ) (f : Option JournalRecord → Run B) (w : World)
      → ((found : Option JournalRecord)
          → ((old : JournalRecord)
              → found ≡ some old
              → find_record old.batch_id w.journal ≡ some old)
          → (found ≡ none → find_record id w.journal ≡ none)
          → Steps w (f found w).1)
      → Steps w (continue (load env id w) f).1
  loaded-Steps id f w h =
      continue-Steps w (load env id w) f (subst (Steps w) (sym (load-same env id w)) (refl_Steps w))
        (λ found e.
          subst (λ (v : World). Steps v (f found v).1) (sym (load-same env id w))
            (h found
              (λ old is.
                let read = load-some env id w (e ∙ ap ok is) in
                subst (λ (k : ℕ). find_record k w.journal ≡ some old) (sym read.1) read.0)
              (λ is. load-none env id w (e ∙ ap ok is))))

  -- Of two operations after another, the second one may be taken first.
  continue_assoc {ℓ κ μ} :
      {A : Type ℓ} {B : Type κ} {C : Type μ} (r : Result WecPayoutError A × World) (f : A → Run B)
      (g : B → Run C)
      → continue (continue r f) g ≡ continue r (λ a. f a >>= g)
  continue_assoc (ok a, w) f g = refl
  continue_assoc (err e, w) f g = refl

  -- What follows the record of a batch.
  taken-Steps {ℓ} :
      {B : Type ℓ} (request : WecPayoutRequest) (validated : ValidatedRequest)
      (f : JournalRecord → Run B) (w : World)
      → ((held : JournalRecord) (v : World)
          → find_record held.batch_id v.journal ≡ some held
          → Steps v (f held v).1)
      → Steps w (continue (load_or_reserve lib config env request validated w) f).1
  unfolding load_or_reserve
  taken-Steps request validated f w h =
      subst (λ (r : Result WecPayoutError _ × World). Steps w r.1)
        (sym (
          continue_assoc (load env request.batch.batch_id w)
            (take_record lib config env request validated) f))
        (loaded-Steps request.batch.batch_id
          (λ found. take_record lib config env request validated found >>= f) w
          (λ found there absent.
            continue-Steps w (take_record lib config env request validated found w) f
              (take_record-Steps request validated found w absent)
              (λ held e. h held _ (take_record-found request validated found w there e))))

  execute_locked-Steps :
      (request : WecPayoutRequest) (validated : ValidatedRequest) (w : World)
      → Steps w (execute_locked lib config env request validated w).1
  unfolding execute_locked
  execute_locked-Steps request validated w = taken-Steps request validated _ w (λ held v found.
      execute_from-Steps lib config env request validated held held.stage v found refl)

  prepare_locked-Steps :
      (request : WecPayoutRequest) (validated : ValidatedRequest) (w : World)
      → Steps w (prepare_locked lib config env request validated w).1
  unfolding prepare_locked
  prepare_locked-Steps request validated w = taken-Steps request validated _ w (λ held v found.
      prepare_from-Steps lib config env request validated held held.stage v found refl)

  adopt-Steps :
      (held : JournalRecord) (recovered : Option StoredArtifact) (w : World)
      → find_record held.batch_id w.journal ≡ some held
      → held.stage ≡ reserved
      → Steps w (adopt lib config env held recovered w).1
  unfolding adopt
  adopt-Steps held none w found e = refl_Steps w
  adopt-Steps held (some a) w found e =
      continue-Steps w (persist env (at_stage held (prepared a)) w) _
        (moved-Steps lib config env held (prepared a) w found
          (reserved-IsLater lib config env held a e))
        (λ _ _. refl_Steps _)

  recover_from-Steps :
      (request : WecPayoutRequest) (validated : ValidatedRequest) (held : JournalRecord)
      (stage : StoredStage) (w : World)
      → find_record held.batch_id w.journal ≡ some held
      → held.stage ≡ stage
      → Steps w (recover_from lib config env request validated held stage w).1
  unfolding recover_from
  recover_from-Steps request validated held reserved w found e =
      continue-Steps w (recover_existing lib config env request validated, w)
        (adopt lib config env held) (refl_Steps w)
        (λ recovered _. adopt-Steps held recovered w found e)
  recover_from-Steps request validated held (prepared a) w found e = refl_Steps w
  recover_from-Steps request validated held (signed a) w found e = refl_Steps w
  recover_from-Steps request validated held (broadcast_unresolved a) w found e = refl_Steps w
  recover_from-Steps request validated held (rejected a) w found e = refl_Steps w
  recover_from-Steps request validated held (completed a disposition) w found e = refl_Steps w

  recover_found-Steps :
      (request : WecPayoutRequest) (validated : ValidatedRequest) (found : Option JournalRecord)
      (w : World)
      → ((old : JournalRecord) → found ≡ some old → find_record old.batch_id w.journal ≡ some old)
      → Steps w (recover_found lib config env request validated found w).1
  unfolding recover_found
  recover_found-Steps request validated none w h = refl_Steps w
  recover_found-Steps request validated (some held) w h =
      elim (Bool-cases (other_facts held validated)) [
        | inl other ↦ rw (recover_found, other) (refl_Steps w)
        | inr same ↦
            rw (recover_found, same)
              (recover_from-Steps request validated held held.stage w (h held refl) refl)
      ]

  -- The checks before the lock, and the lock, change nothing.
  guarded-Steps {ℓ} :
      {A : Type ℓ} (request : WecPayoutRequest) (operation : ValidatedRequest → Run A) (w : World)
      → ((validated : ValidatedRequest) → Steps w (operation validated w).1)
      → Steps w (guarded lib config env request operation w).1
  unfolding guarded
  guarded-Steps request operation w h =
      continue-Steps w (validate_config config, w) _ (refl_Steps w)
        (λ _ _.
          continue-Steps w (validate_request lib config request, w) _ (refl_Steps w)
            (λ validated _.
              continue-Steps w (env.lock, w) (λ _. operation validated) (refl_Steps w)
                (λ _ _. h validated)))

  pub execute-Steps :
      (request : WecPayoutRequest) (w : World) → Steps w (execute lib config env request w).1
  unfolding execute
  execute-Steps request w =
      guarded-Steps request (execute_locked lib config env request) w
        (λ validated. execute_locked-Steps request validated w)

  pub prepare-Steps :
      (request : WecPayoutRequest) (w : World) → Steps w (prepare lib config env request w).1
  unfolding prepare
  prepare-Steps request w =
      guarded-Steps request (prepare_locked lib config env request) w
        (λ validated. prepare_locked-Steps request validated w)

  pub recover_prepared-Steps :
      (request : WecPayoutRequest) (w : World)
      → Steps w (recover_prepared lib config env request w).1
  unfolding recover_prepared
  recover_prepared-Steps request w = guarded-Steps request _ w (λ validated.
      loaded-Steps request.batch.batch_id (recover_found lib config env request validated) w
        (λ found there _. recover_found-Steps request validated found w there))
