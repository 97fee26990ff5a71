-- ===== src/WecSigner/Attempts.antt =====
-- The broadcasts of crates/wcash-wec-payout-signer/src/pipeline.rs: of what the journal holds, and
-- stored before and after.
use pool.Base.{
  ◌≤◌, ◌≡◌, refl, ap, sym, ◌∙◌, subst, some, arith, Result, ok, err, Bool-cases, inl, inr,
  some_injective, not,
}
use pool.Jobs.{same_bytes}
use pool.WecSigner.{
  Libraries, WecPayoutError, stage_broadcast_unresolved, stage_rejected, stage_completed,
}
use pool.WecSigner.Wallet.{
  BroadcastOutcome, BroadcastFailure, node_rejected, node_timeout, node_unavailable, node_ambiguous,
  node_violation,
}
use pool.WecSigner.Config.{WecSignerConfig}
use pool.WecSigner.Journal.{
  StoredArtifact, StoredStage, JournalRecord, prepared, broadcast_unresolved, rejected, completed,
  artifact_of, find_record,
}
use pool.WecSigner.Verify.{WecPayoutExecution}
use pool.WecSigner.Machine.{
  Surroundings, World, continue, persist, reach, broadcast_exact, broadcast_returned, lift, ◌>>=◌,
}
use pool.WecSigner.Pipeline.{broadcast_call, at_stage, resolve, attempt, publish}
use pool.WecSigner.Steps.{IsLater, Carries, Steps, refl_Steps, continue-Steps, rank}
use pool.WecSigner.Writes.{persist-Steps, persist-ok, broadcast_exact-Steps}

-- A record whose stage moves on.
pub moved-Carries :
    (held : JournalRecord) (stage : StoredStage)
    → IsLater held.stage stage
    → Carries held (at_stage held stage)
moved-Carries held stage h = record {
  batch_id = refl;
  pipeline = refl;
  portal = refl;
  total = refl;
  stage = h;
}

-- A stage that the node may have seen, before its end.
pub record IsOpen (held : JournalRecord) (a : StoredArtifact) : Type 0 where
  pub artifact : artifact_of held.stage ≡ some a
  pub announced : rank held.stage ≡ 2

-- A stage that an open one may be followed by.
open-IsLater :
    (held : JournalRecord) (a : StoredArtifact) (stage : StoredStage)
    → IsOpen held a
    → artifact_of stage ≡ some a
    → 2 ≤ rank stage
    → IsLater held.stage stage
open-IsLater held a stage h e le = record {
  artifact = λ b f. e ∙ sym h.artifact ∙ f;
  reached = omega (arith, h.announced);
  final = λ f. absurd (omega (arith, h.announced, f));
}

module _ (lib : Libraries) (config : WecSignerConfig) (env : Surroundings) where
  -- The stage that a record moves on to may be stored where the record is found.
  pub moved-Steps :
      (held : JournalRecord) (stage : StoredStage) (w : World)
      → find_record held.batch_id w.journal ≡ some held
      → IsLater held.stage stage
      → Steps w (persist env (at_stage held stage) w).1
  moved-Steps held stage w found later = persist-Steps env (at_stage held stage) w (λ old e.
      subst (λ (r : JournalRecord). Carries r (at_stage held stage))
        (some_injective (sym found ∙ e)) (moved-Carries held stage later))

  -- A checkpoint, the storing of a stage, and a result.
  settled-Steps :
      (stop : Result WecPayoutError (Unit {0})) (held : JournalRecord) (stage : StoredStage)
      (end_ : Result WecPayoutError WecPayoutExecution) (w : World)
      → find_record held.batch_id w.journal ≡ some held
      → IsLater held.stage stage
      → Steps w (continue (stop, w) (λ _. persist env (at_stage held stage) >>= λ _. lift end_)).1
  settled-Steps stop held stage end_ w found later =
      continue-Steps w (stop, w) (λ _. persist env (at_stage held stage) >>= λ _. lift end_)
        (refl_Steps w)
        (λ _ _.
          continue-Steps w (persist env (at_stage held stage) w) (λ _. lift end_)
            (moved-Steps held stage w found later) (λ _ _. refl_Steps _))

  unresolved-Steps :
      (held : JournalRecord) (a : StoredArtifact) (w : World)
      → find_record held.batch_id w.journal ≡ some held
      → IsOpen held a
      → Steps w (resolve lib config env held a (err node_timeout) w).1
  unfolding resolve
  unresolved-Steps held a w found h =
      settled-Steps (reach env (broadcast_returned stage_broadcast_unresolved)) held
        (broadcast_unresolved a) _ w found
        (open-IsLater held a (broadcast_unresolved a) h refl (omega arith))

  -- Whatever the node answers, what is stored is a later stage of the same artifact.
  resolve-Steps :
      (held : JournalRecord) (a : StoredArtifact)
      (answer : Result BroadcastFailure BroadcastOutcome) (w : World)
      → find_record held.batch_id w.journal ≡ some held
      → IsOpen held a
      → Steps w (resolve lib config env held a answer w).1
  unfolding resolve
  resolve-Steps held a (ok outcome) w found h =
      elim (Bool-cases (not (same_bytes outcome.transaction_id a.transaction_id))) [
        | inl other ↦
            rw (resolve, other)
              (settled-Steps (reach env (broadcast_returned stage_broadcast_unresolved)) held
                (broadcast_unresolved a) _ w found
                (open-IsLater held a (broadcast_unresolved a) h refl (omega arith)))
        | inr same ↦
            rw (resolve, same)
              (settled-Steps (reach env (broadcast_returned stage_completed)) held
                (completed a outcome.disposition) _ w found
                (open-IsLater held a (completed a outcome.disposition) h refl (omega arith)))
      ]
  resolve-Steps held a (err node_rejected) w found h =
      settled-Steps (reach env (broadcast_returned stage_rejected)) held (rejected a) _ w found
        (open-IsLater held a (rejected a) h refl (omega arith))
  resolve-Steps held a (err node_timeout) w found h = unresolved-Steps held a w found h
  resolve-Steps held a (err node_unavailable) w found h = unresolved-Steps held a w found h
  resolve-Steps held a (err node_ambiguous) w found h = unresolved-Steps held a w found h
  resolve-Steps held a (err node_violation) w found h = unresolved-Steps held a w found h

  -- A broadcast asked for at an open stage, and what is stored of its outcome.
  pub attempt-Steps :
      (held : JournalRecord) (a : StoredArtifact) (w : World)
      → find_record held.batch_id w.journal ≡ some held
      → IsOpen held a
      → Steps w (attempt lib config env held a w).1
  unfolding attempt broadcast_exact
  attempt-Steps held a w found h =
      continue-Steps w (broadcast_exact env (broadcast_call lib config env held a) w)
        (resolve lib config env held a)
        (broadcast_exact-Steps env (broadcast_call lib config env held a) w (record {
          held = held;
          found = found;
          commitment = refl;
          artifact = a;
          stored = h.artifact;
          transaction = refl;
          raw = refl;
          announced = omega (arith, h.announced);
        }))
        (λ answer _. resolve-Steps held a answer _ found h)

  -- From the stage before the first broadcast: the open stage is stored before the node is asked.
  pub publish-Steps :
      (held : JournalRecord) (a : StoredArtifact) (w : World)
      → find_record held.batch_id w.journal ≡ some held
      → held.stage ≡ prepared a
      → Steps w (publish lib config env held a w).1
  unfolding publish
  publish-Steps held a w found e =
      let next = at_stage held (broadcast_unresolved a) in
      continue-Steps w (persist env next w) (λ _. attempt lib config env next a)
        (moved-Steps held (broadcast_unresolved a) w found (record {
          artifact = λ b f. sym (ap artifact_of e) ∙ f;
          reached = omega (arith, ap rank e);
          final = λ f. absurd (omega (arith, ap rank e, f));
        }))
        (λ _ stored.
          attempt-Steps next a _ (persist-ok env next w stored)
            (record { artifact = refl; announced = refl }))
