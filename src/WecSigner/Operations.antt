-- ===== src/WecSigner/Operations.antt =====
-- Every operation of the signer of crates/wcash-wec-payout-signer/src/pipeline.rs, successful or
-- not, loses no record and changes no artifact, and broadcasts only what the journal holds.
use pool.Base.{◌≡◌, refl, ap, sym, ◌∙◌, subst, none, some, arith, ok, none-ne-some, ok_injective}
use pool.WecSigner.{Libraries}
use pool.WecSigner.Config.{WecSignerConfig}
use pool.WecSigner.Journal.{
  StoredArtifact, StoredStage, JournalRecord, reserved, prepared, signed, broadcast_unresolved,
  rejected, completed, artifact_of, find_record,
}
use pool.WecSigner.Requests.{WecPayoutRequest, ValidatedRequest}
use pool.WecSigner.Verify.{prepared_from_record}
use pool.WecSigner.Machine.{Surroundings, World, Run, continue, persist, lift, ◌>>=◌}
use pool.WecSigner.Artifacts.{create_or_recover}
use pool.WecSigner.Pipeline.{
  admission, reservation, at_stage, publish, execute_from, reserve, prepare_from,
}
use pool.WecSigner.Steps.{IsLater, Steps, refl_Steps, continue-Steps, continue-ok, rank}
use pool.WecSigner.Writes.{persist-Steps, persist-ok}
use pool.WecSigner.Quiet.{IsQuiet-Steps, create_or_recover-IsQuiet}
use pool.WecSigner.Attempts.{moved-Steps, attempt-Steps, publish-Steps}

module _ (lib : Libraries) (config : WecSignerConfig) (env : Surroundings) where
  -- The stage that follows a reservation.
  pub reserved-IsLater :
      (held : JournalRecord) (a : StoredArtifact)
      → held.stage ≡ reserved
      → IsLater held.stage (prepared a)
  reserved-IsLater held a e = record {
    artifact = λ b f. absurd (none-ne-some (sym (ap artifact_of e) ∙ f));
    reached = omega (arith, ap rank e);
    final = λ f. absurd (omega (arith, ap rank e, f));
  }

  -- What a reservation's transaction is followed by.
  created-Steps {ℓ} :
      {B : Type ℓ} (request : WecPayoutRequest) (validated : ValidatedRequest)
      (held : JournalRecord) (f : StoredArtifact → Run B) (w : World)
      → find_record held.batch_id w.journal ≡ some held
      → ((a : StoredArtifact) (v : World)
          → find_record held.batch_id v.journal ≡ some held
          → Steps v (f a v).1)
      → Steps w (continue (create_or_recover lib config env request validated w) f).1
  created-Steps request validated held f w found h =
      let quiet = create_or_recover-IsQuiet lib config env request validated w in
      continue-Steps w (create_or_recover lib config env request validated w) f
        (IsQuiet-Steps w _ quiet)
        (λ a _. h a _ (ap (find_record held.batch_id) quiet.journal ∙ found))

  pub execute_from-Steps :
      (request : WecPayoutRequest) (validated : ValidatedRequest) (held : JournalRecord)
      (stage : StoredStage) (w : World)
      → find_record held.batch_id w.journal ≡ some held
      → held.stage ≡ stage
      → Steps w (execute_from lib config env request validated held stage w).1
  unfolding execute_from
  execute_from-Steps request validated held reserved w found e =
      created-Steps request validated held
        (λ a. persist env (at_stage held (prepared a)) >>= λ _.
          publish lib config env (at_stage held (prepared a)) a)
        w found
        (λ a v here.
          continue-Steps v (persist env (at_stage held (prepared a)) v)
            (λ _. publish lib config env (at_stage held (prepared a)) a)
            (moved-Steps lib config env held (prepared a) v here (reserved-IsLater held a e))
            (λ _ stored.
              publish-Steps lib config env (at_stage held (prepared a)) a _
                (persist-ok env (at_stage held (prepared a)) v stored) refl))
  execute_from-Steps request validated held (prepared a) w found e =
      publish-Steps lib config env held a w found e
  execute_from-Steps request validated held (signed a) w found e =
      attempt-Steps lib config env held a w found
        (record { artifact = ap artifact_of e; announced = ap rank e })
  execute_from-Steps request validated held (broadcast_unresolved a) w found e =
      attempt-Steps lib config env held a w found
        (record { artifact = ap artifact_of e; announced = ap rank e })
  execute_from-Steps request validated held (rejected a) w found e = refl_Steps w
  execute_from-Steps request validated held (completed a disposition) w found e = refl_Steps w

  pub prepare_from-Steps :
      (request : WecPayoutRequest) (validated : ValidatedRequest) (held : JournalRecord)
      (stage : StoredStage) (w : World)
      → find_record held.batch_id w.journal ≡ some held
      → held.stage ≡ stage
      → Steps w (prepare_from lib config env request validated held stage w).1
  unfolding prepare_from
  prepare_from-Steps request validated held reserved w found e =
      created-Steps request validated held
        (λ a. persist env (at_stage held (prepared a)) >>= λ _.
          lift (prepared_from_record lib (at_stage held (prepared a))))
        w found
        (λ a v here.
          continue-Steps v (persist env (at_stage held (prepared a)) v)
            (λ _. lift (prepared_from_record lib (at_stage held (prepared a))))
            (moved-Steps lib config env held (prepared a) v here (reserved-IsLater held a e))
            (λ _ _. refl_Steps _))
  prepare_from-Steps request validated held (prepared a) w found e = refl_Steps w
  prepare_from-Steps request validated held (signed a) w found e = refl_Steps w
  prepare_from-Steps request validated held (broadcast_unresolved a) w found e = refl_Steps w
  prepare_from-Steps request validated held (rejected a) w found e = refl_Steps w
  prepare_from-Steps request validated held (completed a disposition) w found e = refl_Steps w

  -- A new reservation, of a batch that the journal does not have.
  pub reserve-Steps :
      (request : WecPayoutRequest) (validated : ValidatedRequest) (w : World)
      → find_record request.batch.batch_id w.journal ≡ none
      → Steps w (reserve lib config env request validated w).1
  unfolding reserve
  reserve-Steps request validated w absent =
      continue-Steps w (admission lib config env request, w) _ (refl_Steps w)
        (λ _ _.
          continue-Steps w (persist env (reservation lib config env request validated) w) _
            (persist-Steps env (reservation lib config env request validated) w
              (λ old e. absurd (none-ne-some (sym absent ∙ e))))
            (λ _ _. refl_Steps _))

  pub reserve-found :
      (request : WecPayoutRequest) (validated : ValidatedRequest) (w : World) {held : JournalRecord}
      → (reserve lib config env request validated w).0 ≡ ok held
      → find_record held.batch_id (reserve lib config env request validated w).1.journal ≡ some held
  unfolding reserve
  reserve-found request validated w {held} e =
      let new = reservation lib config env request validated in
      let allowed = continue-ok (admission lib config env request, w) _ e in
      let stored = continue-ok (persist env new w) (λ _. lift (ok new)) allowed.2 in
      let same : new ≡ held = ok_injective stored.2 in
      let there : find_record new.batch_id (reserve lib config env request validated w).1.journal
          ≡ some new =
        ap (λ (v : World). find_record new.batch_id v.journal) (allowed.3 ∙ stored.3)
        ∙ persist-ok env new w stored.1 in
      subst
        (λ (r : JournalRecord).
          find_record r.batch_id (reserve lib config env request validated w).1.journal ≡ some r)
        same there
