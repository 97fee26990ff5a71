-- ===== src/WecSigner/Executed.antt =====
-- What a payout that `execute` of crates/wcash-wec-payout-signer/src/pipeline.rs reports as done
-- leaves in the journal.
use pool.Base.{
  err-ne-ok, bind-ok, ℕ, ◌≡◌, refl, ap, sym, ◌∙◌, subst, some, Result, ok, err, Bool-cases, inl,
  inr, ok_injective, not,
}
use pool.Jobs.{same_bytes}
use pool.WecSigner.{
  Libraries, WecPayoutError, stage_broadcast_unresolved, stage_rejected, stage_completed,
  broadcast_ambiguous, broadcast_rejected,
}
use pool.WecSigner.Wallet.{
  BroadcastDisposition, BroadcastOutcome, BroadcastFailure, node_rejected, node_timeout,
  node_unavailable, node_ambiguous, node_violation,
}
use pool.WecSigner.Config.{WecSignerConfig}
use pool.WecSigner.Journal.{
  StoredArtifact, StoredStage, JournalRecord, Records, reserved, prepared, signed,
  broadcast_unresolved, rejected, completed, find_record,
}
use pool.WecSigner.Requests.{WecPayoutRequest, ValidatedRequest}
use pool.WecSigner.Verify.{WecPayoutExecution, prepared_from_record, execution_from_record}
use pool.WecSigner.Machine.{
  Surroundings, World, Run, continue, persist, reach, broadcast_exact, broadcast_returned, lift,
  ◌>>=◌,
}
use pool.WecSigner.Artifacts.{create_or_recover}
use pool.WecSigner.Pipeline.{at_stage, resolve, attempt, publish, execute_from}
use pool.WecSigner.Steps.{continue-ok}
use pool.WecSigner.Writes.{persist-ok}

-- A batch whose record is completed, and gives the execution.
pub record IsExecuted (lib : Libraries) (records : Records) (id : ℕ) (x : WecPayoutExecution)
    : Type 0 where
  pub held : JournalRecord
  pub found : find_record id records ≡ some held
  pub artifact : StoredArtifact
  pub stage : held.stage ≡ completed artifact x.disposition
  pub returned : execution_from_record lib held x.disposition ≡ ok x

execution_from_record-disposition :
    (lib : Libraries) (held : JournalRecord) (d : BroadcastDisposition) {x : WecPayoutExecution}
    → execution_from_record lib held d ≡ ok x
    → x.disposition ≡ d
unfolding execution_from_record
execution_from_record-disposition lib held d e =
    let made = bind-ok (prepared_from_record lib held) _ e in
    sym (ap (λ (x : WecPayoutExecution). x.disposition) (ok_injective made.2))

-- A record at the stage `Completed` that gives an execution.
completed-IsExecuted :
    (lib : Libraries) (records : Records) (held : JournalRecord) (a : StoredArtifact)
    (d : BroadcastDisposition) {x : WecPayoutExecution}
    → find_record held.batch_id records ≡ some held
    → held.stage ≡ completed a d
    → execution_from_record lib held d ≡ ok x
    → IsExecuted lib records held.batch_id x
completed-IsExecuted lib records held a d {x} found e made =
    let same : d ≡ x.disposition = sym (execution_from_record-disposition lib held d made) in
    record {
      held = held;
      found = found;
      artifact = a;
      stage = e ∙ ap (completed a) same;
      returned =
          subst (λ (d : BroadcastDisposition). execution_from_record lib held d ≡ ok x) same made;
    }

module _ (lib : Libraries) (config : WecSignerConfig) (env : Surroundings) where
  -- What stores a stage and then fails does not succeed.
  settled-fails :
      (stop : Result WecPayoutError (Unit {0})) (new : JournalRecord) (e : WecPayoutError)
      (w : World) {x : WecPayoutExecution}
      → (continue (stop, w) (λ _. persist env new >>= λ _. lift (err e))).0 ≡ ok x
      → ⊥
  settled-fails stop new e w h =
      let passed = continue-ok (stop, w) (λ _. persist env new >>= λ _. lift (err e)) h in
      let stored = continue-ok (persist env new w) (λ _. lift (err e)) passed.2 in
      err-ne-ok stored.2

  unresolved-fails :
      (held : JournalRecord) (a : StoredArtifact) (w : World) {x : WecPayoutExecution}
      → (resolve lib config env held a (err node_timeout) w).0 ≡ ok x
      → ⊥
  unfolding resolve
  unresolved-fails held a w e =
      settled-fails (reach env (broadcast_returned stage_broadcast_unresolved))
        (at_stage held (broadcast_unresolved a)) broadcast_ambiguous w e

  resolve-IsExecuted :
      (held : JournalRecord) (a : StoredArtifact)
      (answer : Result BroadcastFailure BroadcastOutcome) (w : World) {x : WecPayoutExecution}
      → (resolve lib config env held a answer w).0 ≡ ok x
      → IsExecuted lib (resolve lib config env held a answer w).1.journal held.batch_id x
  unfolding resolve
  resolve-IsExecuted held a (ok outcome) w {x} e =
      elim (Bool-cases (not (same_bytes outcome.transaction_id a.transaction_id))) [
        | inl other ↦ absurd (
            settled-fails (reach env (broadcast_returned stage_broadcast_unresolved))
              (at_stage held (broadcast_unresolved a)) broadcast_ambiguous w
              (rw (resolve, other) at e))
        | inr same ↦
            let new = at_stage held (completed a outcome.disposition) in
            let made = execution_from_record lib new outcome.disposition in
            let passed =
              continue-ok (reach env (broadcast_returned stage_completed), w)
                (λ _. persist env new >>= λ _. lift made) (rw (resolve, same) at e) in
            let stored = continue-ok (persist env new w) (λ _. lift made) passed.2 in
            rw (resolve, same)
              (subst (λ (v : World). IsExecuted lib v.journal held.batch_id x)
                (sym (passed.3 ∙ stored.3))
                (completed-IsExecuted lib _ new a outcome.disposition
                  (persist-ok env new w stored.1) refl stored.2))
      ]
  resolve-IsExecuted held a (err node_rejected) w e = absurd (
      settled-fails (reach env (broadcast_returned stage_rejected)) (at_stage held (rejected a))
        broadcast_rejected w e)
  resolve-IsExecuted held a (err node_timeout) w e = absurd (unresolved-fails held a w e)
  resolve-IsExecuted held a (err node_unavailable) w e = absurd (unresolved-fails held a w e)
  resolve-IsExecuted held a (err node_ambiguous) w e = absurd (unresolved-fails held a w e)
  resolve-IsExecuted held a (err node_violation) w e = absurd (unresolved-fails held a w e)

  attempt-IsExecuted :
      (held : JournalRecord) (a : StoredArtifact) (w : World) {x : WecPayoutExecution}
      → (attempt lib config env held a w).0 ≡ ok x
      → IsExecuted lib (attempt lib config env held a w).1.journal held.batch_id x
  unfolding attempt broadcast_exact
  attempt-IsExecuted held a w e = resolve-IsExecuted held a _ _ e

  publish-IsExecuted :
      (held : JournalRecord) (a : StoredArtifact) (w : World) {x : WecPayoutExecution}
      → (publish lib config env held a w).0 ≡ ok x
      → IsExecuted lib (publish lib config env held a w).1.journal held.batch_id x
  unfolding publish
  publish-IsExecuted held a w {x} e =
      let next = at_stage held (broadcast_unresolved a) in
      let stored = continue-ok (persist env next w) (λ _. attempt lib config env next a) e in
      subst (λ (v : World). IsExecuted lib v.journal held.batch_id x) (sym stored.3)
        (attempt-IsExecuted next a _ stored.2)

  pub execute_from-IsExecuted :
      (request : WecPayoutRequest) (validated : ValidatedRequest) (held : JournalRecord)
      (stage : StoredStage) (w : World) {x : WecPayoutExecution}
      → find_record held.batch_id w.journal ≡ some held
      → held.stage ≡ stage
      → (execute_from lib config env request validated held stage w).0 ≡ ok x
      → IsExecuted lib
          (execute_from lib config env request validated held stage w).1.journal
          held.batch_id
          x
  unfolding execute_from
  execute_from-IsExecuted request validated held reserved w {x} found is e =
      let after : StoredArtifact → Run WecPayoutExecution = λ a.
        persist env (at_stage held (prepared a)) >>= λ _.
        publish lib config env (at_stage held (prepared a)) a in
      let made = continue-ok (create_or_recover lib config env request validated w) after e in
      let next = at_stage held (prepared made.0) in
      let stored =
        continue-ok (persist env next _) (λ _. publish lib config env next made.0) made.2 in
      subst (λ (v : World). IsExecuted lib v.journal held.batch_id x) (sym (made.3 ∙ stored.3))
        (publish-IsExecuted next made.0 _ stored.2)
  execute_from-IsExecuted request validated held (prepared a) w found is e =
      publish-IsExecuted held a w e
  execute_from-IsExecuted request validated held (signed a) w found is e =
      attempt-IsExecuted held a w e
  execute_from-IsExecuted request validated held (broadcast_unresolved a) w found is e =
      attempt-IsExecuted held a w e
  execute_from-IsExecuted request validated held (rejected a) w found is e = absurd (err-ne-ok e)
  execute_from-IsExecuted request validated held (completed a d) w found is e =
      completed-IsExecuted lib w.journal held a d found is e
