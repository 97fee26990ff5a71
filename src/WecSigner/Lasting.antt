-- ===== src/WecSigner/Lasting.antt =====
-- A payout that `execute` of crates/wcash-wec-payout-signer/src/pipeline.rs reports as done stays
-- done.
use pool.Base.{
  err-ne-ok, ℕ, ◌≡◌, refl, ap, sym, ◌∙◌, subst, List, Option, none, some, ok, Bool-cases, inl, inr,
  ok_injective,
}
use pool.WecSigner.{Libraries}
use pool.WecSigner.Wallet.{BroadcastDisposition}
use pool.WecSigner.Config.{WecSignerConfig}
use pool.WecSigner.Journal.{StoredArtifact, JournalRecord, Records, completed, find_record}
use pool.WecSigner.Requests.{WecPayoutRequest, ValidatedRequest}
use pool.WecSigner.Verify.{WecPayoutExecution}
use pool.WecSigner.Machine.{Surroundings, World, continue, load, persist, lift}
use pool.WecSigner.Pipeline.{
  admission, reservation, execute_from, execute_locked, load_or_reserve, reserve, take_record,
  execute, other_facts,
}
use pool.WecSigner.Steps.{Carries, Grows, continue-ok, rank}
use pool.WecSigner.Writes.{load-same, load-some}
use pool.WecSigner.Batches.{take_record-found}
use pool.WecSigner.Conflicts.{guarded-ok}
use pool.WecSigner.Executed.{IsExecuted, execute_from-IsExecuted}
use pool.WecSigner.History.{Call, run, run-Steps}

module _ (lib : Libraries) (config : WecSignerConfig) (env : Surroundings) where
  reserve-batch_id :
      (request : WecPayoutRequest) (validated : ValidatedRequest) (w : World) {held : JournalRecord}
      → (reserve lib config env request validated w).0 ≡ ok held
      → held.batch_id ≡ request.batch.batch_id
  unfolding reserve
  reserve-batch_id request validated w e =
      let new = reservation lib config env request validated in
      let allowed = continue-ok (admission lib config env request, w) _ e in
      let stored = continue-ok (persist env new w) (λ _. lift (ok new)) allowed.2 in
      ap (λ (r : JournalRecord). r.batch_id) (sym (ok_injective stored.2))

  take_record-batch_id :
      (request : WecPayoutRequest) (validated : ValidatedRequest) (found : Option JournalRecord)
      (w : World) {held : JournalRecord}
      → ((old : JournalRecord) → found ≡ some old → old.batch_id ≡ request.batch.batch_id)
      → (take_record lib config env request validated found w).0 ≡ ok held
      → held.batch_id ≡ request.batch.batch_id
  unfolding take_record
  take_record-batch_id request validated none w h e = reserve-batch_id request validated w e
  take_record-batch_id request validated (some old) w h e =
      elim (Bool-cases (other_facts old validated)) [
        | inl other ↦ absurd (err-ne-ok (rw (take_record, other) at e))
        | inr same ↦
            ap (λ (r : JournalRecord). r.batch_id)
              (sym (ok_injective (rw (take_record, same) at e)))
            ∙ h old refl
      ]

  -- The record that an operation works on is the batch's, and is found.
  load_or_reserve-ok :
      (request : WecPayoutRequest) (validated : ValidatedRequest) (w : World) {held : JournalRecord}
      → (load_or_reserve lib config env request validated w).0 ≡ ok held
      → (held.batch_id ≡ request.batch.batch_id)
        × (find_record held.batch_id (load_or_reserve lib config env request validated w).1.journal
            ≡ some held)
  unfolding load_or_reserve
  load_or_reserve-ok request validated w {held} e =
      let id = request.batch.batch_id in
      let same = load-same env id w in
      let read = continue-ok (load env id w) (take_record lib config env request validated) e in
      let taken : (take_record lib config env request validated read.0 w).0 ≡ ok held =
        subst (λ (v : World). (take_record lib config env request validated read.0 v).0 ≡ ok held)
          same read.2 in
      let end_ : (continue (load env id w) (take_record lib config env request validated)).1
          ≡ (take_record lib config env request validated read.0 w).1 =
        read.3
        ∙ ap (λ (v : World). (take_record lib config env request validated read.0 v).1) same in
      (
        take_record-batch_id request validated read.0 w
            (λ old is. (load-some env id w (read.1 ∙ ap ok is)).1) taken,
        subst (λ (v : World). find_record held.batch_id v.journal ≡ some held) (sym end_)
            (take_record-found lib config env request validated read.0 w
              (λ old is.
                let there = load-some env id w (read.1 ∙ ap ok is) in
                subst (λ (k : ℕ). find_record k w.journal ≡ some old) (sym there.1) there.0)
              taken),
      )

  execute-IsExecuted :
      (request : WecPayoutRequest) (w : World) {x : WecPayoutExecution}
      → (execute lib config env request w).0 ≡ ok x
      → IsExecuted lib (execute lib config env request w).1.journal request.batch.batch_id x
  unfolding execute execute_locked
  execute-IsExecuted request w {x} e =
      let whole = guarded-ok lib config env request w (execute_locked lib config env request) e in
      let taken =
        continue-ok (load_or_reserve lib config env request whole.0 w)
          (λ held. execute_from lib config env request whole.0 held held.stage) whole.2 in
      let record_ = load_or_reserve-ok request whole.0 w taken.1 in
      subst (λ (v : World). IsExecuted lib v.journal request.batch.batch_id x)
        (sym (whole.3 ∙ taken.3))
        (subst
          (λ (id : ℕ).
            IsExecuted lib
              (execute_from lib config env request whole.0 taken.0 taken.0.stage
                (load_or_reserve lib config env request whole.0 w).1).1.journal
              id x)
          record_.0
          (execute_from-IsExecuted lib config env request whole.0 taken.0 taken.0.stage _ record_.1
            refl taken.2))

-- A record that carries a completed one is the same.
completed-same :
    (held later : JournalRecord) (a : StoredArtifact) (d : BroadcastDisposition)
    → Carries held later
    → held.stage ≡ completed a d
    → later ≡ held
completed-same held later a d h e =
    let stage = h.stage.final (ap rank e) in
    λ i. record {
      batch_id = h.batch_id i;
      pipeline_commitment = h.pipeline i;
      portal_commitment = h.portal i;
      output_total_zat = h.total i;
      stage = stage i;
    }

IsExecuted-Grows :
    (lib : Libraries) (a b : Records) (id : ℕ) (x : WecPayoutExecution)
    → Grows a b
    → IsExecuted lib a id x
    → IsExecuted lib b id x
IsExecuted-Grows lib a b id x h done =
    let now = h id done.held done.found in
    record {
      held = done.held;
      found =
          now.1
          ∙ ap some (completed-same done.held now.0 done.artifact x.disposition now.2 done.stage);
      artifact = done.artifact;
      stage = done.stage;
      returned = done.returned;
    }

-- A payout that is reported as executed stays executed: after it, and after any further calls,
-- whatever the answers, the failed writes and the interruptions, the journal holds the batch as
-- completed, with the record that gives the same execution, its receipt and its transaction.
pub execute-lasts :
    (lib : Libraries) (config : WecSignerConfig) (env : Surroundings) (request : WecPayoutRequest)
    (w : World) (calls : List Call) {x : WecPayoutExecution}
    → (execute lib config env request w).0 ≡ ok x
    → IsExecuted lib
        (run lib (execute lib config env request w).1 calls).journal
        request.batch.batch_id
        x
execute-lasts lib config env request w calls {x} e =
    let after = (execute lib config env request w).1 in
    IsExecuted-Grows lib after.journal (run lib after calls).journal request.batch.batch_id x
      (run-Steps lib after calls).grows (execute-IsExecuted lib config env request w e)
