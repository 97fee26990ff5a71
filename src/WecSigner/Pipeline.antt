-- ===== src/WecSigner/Pipeline.antt =====
-- The operations of the signer of crates/wcash-wec-payout-signer/src/pipeline.rs. The loops of
-- `execute_locked` and `prepare_locked` go on with the stage that an arm has just stored, so that
-- an arm here ends in the arm of that stage.
use pool.Base.{
  Bool, true, false, not, ◌&&◌, ◌||◌, List, [], ◌∷◌, Option, none, some, ◌==◌, if◌then◌else◌,
  Result, ok, err, ok_or,
}
use pool.Jobs.{same_bytes}
use pool.WecSigner.{
  Libraries, WecPayoutError, invalid_request, idempotency_conflict, journal_corrupt,
  broadcast_rejected, broadcast_ambiguous, stage_broadcast_unresolved, stage_rejected,
  stage_completed,
}
use pool.WecSigner.Batch.{PayoutOutput}
use pool.WecSigner.Wallet.{WalletBroadcastCall, BroadcastOutcome, BroadcastFailure, node_rejected}
use pool.WecSigner.Config.{WecSignerConfig, validate_config}
use pool.WecSigner.Journal.{
  StoredArtifact, StoredStage, JournalRecord, reserved, prepared, signed, broadcast_unresolved,
  rejected, completed, artifact_of,
}
use pool.WecSigner.Requests.{WecPayoutRequest, ValidatedRequest, is_transparent, validate_request}
use pool.WecSigner.Verify.{
  WecPreparedPayout, WecPayoutExecution, prepared_from_record, execution_from_record,
}
use pool.WecSigner.Machine.{
  Surroundings, Run, ◌>>=◌, ◌>>◌, lift, load, checkpoint, persist, broadcast_exact,
  with_exclusive_lock, broadcast_returned,
}
use pool.WecSigner.Asking.{recover_existing}
use pool.WecSigner.Artifacts.{create_or_recover}

-- The facts of a record against those of a request.
abbrev pub other_facts : JournalRecord → ValidatedRequest → Bool
other_facts held validated =
    not (same_bytes held.pipeline_commitment validated.pipeline_commitment)
    || not (same_bytes held.portal_commitment validated.portal_commitment)
    || not (held.output_total_zat == validated.output_total_zat)

abbrev pub fail_when : Bool → WecPayoutError → Run (Unit {0})
fail_when test e = lift (if test then err e else ok tt)

-- `outputs[0].receiver_kind == Transparent`, of a batch that has an output.
abbrev pub first_transparent : List PayoutOutput → Bool
first_transparent [] = false
first_transparent (output ∷ outputs) = is_transparent output.receiver_kind

abbrev pub has_artifact : StoredStage → Bool
has_artifact stage = elim (artifact_of stage) [ none ↦ false | some a ↦ true ]

abbrev pub other_artifact : StoredArtifact → StoredArtifact → Bool
other_artifact a b =
    not (same_bytes a.raw_transaction_hex b.raw_transaction_hex)
    || not (same_bytes a.transaction_id b.transaction_id)
    || not (same_bytes a.unsigned_digest b.unsigned_digest)
    || not (a.fee_zat == b.fee_zat)
    || not (a.target_height == b.target_height)
    || not (a.expiry_height == b.expiry_height)

-- A record with the stage that is stored next.
abbrev pub at_stage : JournalRecord → StoredStage → JournalRecord
at_stage held stage = record held { stage = stage }

module _ (lib : Libraries) (config : WecSignerConfig) (env : Surroundings) where
  -- The record of a batch that the journal does not have.
  abbrev pub reservation : WecPayoutRequest → ValidatedRequest → JournalRecord
  reservation request validated = record {
    batch_id = request.batch.batch_id;
    pipeline_commitment = validated.pipeline_commitment;
    portal_commitment = validated.portal_commitment;
    output_total_zat = validated.output_total_zat;
    stage = reserved;
  }

  -- Whether a batch may be reserved.
  abbrev pub admission : WecPayoutRequest → Result WecPayoutError (Unit {0})
  admission request =
      if first_transparent request.batch.outputs && not config.transparent_payouts_enabled
      then err invalid_request
      else ok tt

  unfoldable pub reserve : WecPayoutRequest → ValidatedRequest → Run JournalRecord
  reserve request validated = do
    lift (admission request)
    persist env (reservation request validated)
    lift (ok (reservation request validated))

  unfoldable pub take_record :
      WecPayoutRequest → ValidatedRequest → Option JournalRecord → Run JournalRecord
  take_record request validated none = reserve request validated
  take_record request validated (some held) =
      fail_when (other_facts held validated) idempotency_conflict >> lift (ok held)

  unfoldable pub load_or_reserve : WecPayoutRequest → ValidatedRequest → Run JournalRecord
  load_or_reserve request validated =
      load env request.batch.batch_id >>= take_record request validated

  -- The arms of `broadcast_exact` in `execute_locked`.
  unfoldable pub resolve :
      JournalRecord
      → StoredArtifact
      → Result BroadcastFailure BroadcastOutcome
      → Run WecPayoutExecution
  resolve held a (ok outcome) =
      if not (same_bytes outcome.transaction_id a.transaction_id)
      then (do
        checkpoint env (broadcast_returned stage_broadcast_unresolved)
        persist env (at_stage held (broadcast_unresolved a))
        lift (err broadcast_ambiguous))
      else (do
        checkpoint env (broadcast_returned stage_completed)
        persist env (at_stage held (completed a outcome.disposition))
        lift (
            execution_from_record lib (at_stage held (completed a outcome.disposition))
              outcome.disposition))
  resolve held a (err node_rejected) = do
    checkpoint env (broadcast_returned stage_rejected)
    persist env (at_stage held (rejected a))
    lift (err broadcast_rejected)
  resolve held a (err _) = do
    checkpoint env (broadcast_returned stage_broadcast_unresolved)
    persist env (at_stage held (broadcast_unresolved a))
    lift (err broadcast_ambiguous)

  abbrev pub broadcast_call : JournalRecord → StoredArtifact → WalletBroadcastCall
  broadcast_call held a = record {
    batch_id = held.batch_id;
    request_commitment = held.pipeline_commitment;
    transaction_id = a.transaction_id;
    raw_transaction_hex = a.raw_transaction_hex;
    timeout = config.limits.broadcast_timeout;
    max_response_bytes = config.limits.max_response_bytes;
  }

  -- The arm of the stages `Signed` and `BroadcastUnresolved`.
  unfoldable pub attempt : JournalRecord → StoredArtifact → Run WecPayoutExecution
  attempt held a = broadcast_exact env (broadcast_call held a) >>= resolve held a

  -- The arm of the stage `Prepared`.
  unfoldable pub publish : JournalRecord → StoredArtifact → Run WecPayoutExecution
  publish held a =
      persist env (at_stage held (broadcast_unresolved a))
      >> attempt (at_stage held (broadcast_unresolved a)) a

  -- The loop of `execute_locked`, from a stage on.
  unfoldable pub execute_from :
      WecPayoutRequest → ValidatedRequest → JournalRecord → StoredStage → Run WecPayoutExecution
  execute_from request validated held reserved = do
    a ← create_or_recover lib config env request validated
    persist env (at_stage held (prepared a))
    publish (at_stage held (prepared a)) a
  execute_from request validated held (prepared a) = publish held a
  execute_from request validated held (signed a) = attempt held a
  execute_from request validated held (broadcast_unresolved a) = attempt held a
  execute_from request validated held (rejected a) = lift (err broadcast_rejected)
  execute_from request validated held (completed a disposition) =
      lift (execution_from_record lib held disposition)

  unfoldable pub execute_locked : WecPayoutRequest → ValidatedRequest → Run WecPayoutExecution
  execute_locked request validated = do
    held ← load_or_reserve request validated
    execute_from request validated held held.stage

  -- The loop of `prepare_locked`, from a stage on.
  unfoldable pub prepare_from :
      WecPayoutRequest → ValidatedRequest → JournalRecord → StoredStage → Run WecPreparedPayout
  prepare_from request validated held reserved = do
    a ← create_or_recover lib config env request validated
    persist env (at_stage held (prepared a))
    lift (prepared_from_record lib (at_stage held (prepared a)))
  prepare_from request validated held (rejected a) = lift (err broadcast_rejected)
  prepare_from request validated held _ = lift (prepared_from_record lib held)

  unfoldable pub prepare_locked : WecPayoutRequest → ValidatedRequest → Run WecPreparedPayout
  prepare_locked request validated = do
    held ← load_or_reserve request validated
    prepare_from request validated held held.stage

  -- The end of `recover_prepared`, with a record that has an artifact.
  abbrev pub recovered_payout :
      JournalRecord → StoredStage → Result WecPayoutError (Option WecPreparedPayout)
  recovered_payout held reserved = err journal_corrupt
  recovered_payout held (rejected a) = err broadcast_rejected
  recovered_payout held _ = elim (prepared_from_record lib held) [
    | ok payout ↦ ok (some payout)
    | err e ↦ err e
  ]

  -- A reservation whose transaction the wallet has is made `Prepared`.
  unfoldable pub adopt : JournalRecord → Option StoredArtifact → Run (Option WecPreparedPayout)
  adopt held none = lift (ok none)
  adopt held (some a) = do
    persist env (at_stage held (prepared a))
    lift (recovered_payout (at_stage held (prepared a)) (prepared a))

  unfoldable pub recover_from :
      WecPayoutRequest
      → ValidatedRequest
      → JournalRecord
      → StoredStage
      → Run (Option WecPreparedPayout)
  recover_from request validated held reserved =
      lift (recover_existing lib config env request validated) >>= adopt held
  recover_from request validated held stage = lift (recovered_payout held stage)

  unfoldable pub recover_found :
      WecPayoutRequest → ValidatedRequest → Option JournalRecord → Run (Option WecPreparedPayout)
  recover_found request validated none = lift (ok none)
  recover_found request validated (some held) =
      fail_when (other_facts held validated) idempotency_conflict
      >> recover_from request validated held held.stage

  -- The body of `inspect_prepared`, with the record and the transaction that the wallet has.
  unfoldable pub compare_inspected :
      JournalRecord → StoredArtifact → Option StoredArtifact → Run WecPreparedPayout
  compare_inspected held expected none = lift (err journal_corrupt)
  compare_inspected held expected (some inspected) =
      fail_when (other_artifact inspected expected) idempotency_conflict
      >> lift (prepared_from_record lib held)

  unfoldable pub inspect_found :
      WecPayoutRequest → ValidatedRequest → JournalRecord → Run WecPreparedPayout
  inspect_found request validated held = do
    fail_when (other_facts held validated || not (has_artifact held.stage)) idempotency_conflict
    expected ← lift (ok_or (artifact_of held.stage) journal_corrupt)
    inspected ← lift (recover_existing lib config env request validated)
    compare_inspected held expected inspected

  -- The checks before the lock, and the lock.
  unfoldable pub guarded {ℓ} : {A : Type ℓ} → WecPayoutRequest → (ValidatedRequest → Run A) → Run A
  guarded request operation = do
    lift (validate_config config)
    validated ← lift (validate_request lib config request)
    with_exclusive_lock env (operation validated)

  unfoldable pub execute : WecPayoutRequest → Run WecPayoutExecution
  execute request = guarded request (execute_locked request)

  unfoldable pub prepare : WecPayoutRequest → Run WecPreparedPayout
  prepare request = guarded request (prepare_locked request)

  unfoldable pub recover_prepared : WecPayoutRequest → Run (Option WecPreparedPayout)
  recover_prepared request =
      guarded request
        λ validated. load env request.batch.batch_id >>= recover_found request validated

  unfoldable pub inspect_prepared : WecPayoutRequest → Run WecPreparedPayout
  inspect_prepared request = guarded request λ validated. (do
    found ← load env request.batch.batch_id
    held ← lift (ok_or found journal_corrupt)
    inspect_found request validated held)
