-- ===== src/WecSigner/History.antt =====
-- The signer of crates/wcash-wec-payout-signer/src/pipeline.rs over any sequence of its calls, each
-- with its own configuration, answers and interruptions: what reaches the node.
use pool.Base.{
  ℕ, ◌≡◌, ap, sym, ◌∙◌, subst, List, [], ◌∷◌, some, some_injective, get_elem?, get_elem?-All,
}
use pool.WecSigner.{Libraries}
use pool.WecSigner.Wallet.{WalletBroadcastCall}
use pool.WecSigner.Config.{WecSignerConfig}
use pool.WecSigner.Journal.{StoredArtifact, JournalRecord, find_record, artifact_of}
use pool.WecSigner.Requests.{WecPayoutRequest}
use pool.WecSigner.Machine.{Surroundings, World}
use pool.WecSigner.Pipeline.{execute, prepare, recover_prepared, inspect_prepared}
use pool.WecSigner.Steps.{Carries, IsSent, IsSafe, Steps, refl_Steps, trans_Steps}
use pool.WecSigner.Batches.{execute-Steps, prepare-Steps, recover_prepared-Steps}
use pool.WecSigner.Conflicts.{inspect_prepared-same}

pub data Operation : Type 0 where
  executing preparing recovering inspecting : Operation

pub record Call : Type 0 where
  pub operation : Operation
  pub config : WecSignerConfig
  pub env : Surroundings
  pub request : WecPayoutRequest

module _ (lib : Libraries) where
  unfoldable pub perform :
      Operation → WecSignerConfig → Surroundings → WecPayoutRequest → World → World
  perform executing config env request w = (execute lib config env request w).1
  perform preparing config env request w = (prepare lib config env request w).1
  perform recovering config env request w = (recover_prepared lib config env request w).1
  perform inspecting config env request w = (inspect_prepared lib config env request w).1

  unfoldable pub run : World → List Call → World
  run w [] = w
  run w (call ∷ calls) = run (perform call.operation call.config call.env call.request w) calls

  perform-Steps :
      (operation : Operation) (config : WecSignerConfig) (env : Surroundings)
      (request : WecPayoutRequest) (w : World)
      → Steps w (perform operation config env request w)
  unfolding perform
  perform-Steps executing config env request w = execute-Steps lib config env request w
  perform-Steps preparing config env request w = prepare-Steps lib config env request w
  perform-Steps recovering config env request w = recover_prepared-Steps lib config env request w
  perform-Steps inspecting config env request w =
      subst (Steps w) (sym (inspect_prepared-same lib config env request w)) (refl_Steps w)

  pub run-Steps : (w : World) (calls : List Call) → Steps w (run w calls)
  unfolding run
  run-Steps w [] = refl_Steps w
  run-Steps w (call ∷ calls) =
      trans_Steps w (perform call.operation call.config call.env call.request w) _
        (perform-Steps call.operation call.config call.env call.request w)
        (run-Steps (perform call.operation call.config call.env call.request w) calls)

  -- Over any calls, whatever the wallet and the node answer, whatever writes fail, and wherever
  -- the signer is interrupted, no record of the journal is lost: its batch still has a record of
  -- the same facts, with the same artifact if it had one, at a stage that has not gone back, and
  -- with the same stage if that was final.
  pub run-Carries :
      (w : World) (calls : List Call) (id : ℕ) (held : JournalRecord)
      → find_record id w.journal ≡ some held
      → (later : JournalRecord) × (find_record id (run w calls).journal ≡ some later)
        × Carries held later
  run-Carries w calls id held found = (run-Steps w calls).grows id held found

  -- Two broadcasts of one batch that are of the journal's transaction are of one transaction.
  same-IsSent :
      (w : World) (c d : WalletBroadcastCall)
      → IsSent w.journal c
      → IsSent w.journal d
      → c.batch_id ≡ d.batch_id
      → (c.transaction_id ≡ d.transaction_id)
        × (c.raw_transaction_hex ≡ d.raw_transaction_hex)
        × (c.request_commitment ≡ d.request_commitment)
  same-IsSent w c d h k e =
      let same : h.held ≡ k.held =
        some_injective (sym h.found ∙ ap (λ (id : ℕ). find_record id w.journal) e ∙ k.found) in
      let one : h.artifact ≡ k.artifact =
        some_injective
          (sym h.stored ∙ ap (λ (r : JournalRecord). artifact_of r.stage) same ∙ k.stored) in
      (
        h.transaction ∙ ap (λ (a : StoredArtifact). a.transaction_id) one ∙ sym k.transaction,
        h.raw ∙ ap (λ (a : StoredArtifact). a.raw_transaction_hex) one ∙ sym k.raw,
        h.commitment ∙ ap (λ (r : JournalRecord). r.pipeline_commitment) same ∙ sym k.commitment,
      )

  -- Of one batch, no two transactions are ever broadcast: over any calls, whatever the wallet and
  -- the node answer, whatever writes fail, and wherever the signer is interrupted, any two
  -- broadcasts for the same batch have the same transaction identifier, the same bytes and the
  -- same commitment, as long as the broadcasts before those calls were of the transactions that
  -- the journal holds.
  pub run-one_transaction :
      (w : World) (calls : List Call) (i j : ℕ) {c d : WalletBroadcastCall}
      → IsSafe w
      → get_elem? (run w calls).broadcasts i ≡ some c
      → get_elem? (run w calls).broadcasts j ≡ some d
      → c.batch_id ≡ d.batch_id
      → (c.transaction_id ≡ d.transaction_id)
        × (c.raw_transaction_hex ≡ d.raw_transaction_hex)
        × (c.request_commitment ≡ d.request_commitment)
  run-one_transaction w calls i j {c} {d} h e f same =
      let safe = (run-Steps w calls).safe h in
      let sent = IsSent (run w calls).journal in
      same-IsSent (run w calls) c d (get_elem?-All sent _ i safe e) (get_elem?-All sent _ j safe f)
        same

  -- Nothing is broadcast that the journal does not hold: over any calls, every broadcast is for a
  -- batch whose record has its commitment and its transaction, at a stage that says the node may
  -- have seen it, as long as this held of the broadcasts before those calls.
  pub run-IsSent :
      (w : World) (calls : List Call) (i : ℕ) {c : WalletBroadcastCall}
      → IsSafe w
      → get_elem? (run w calls).broadcasts i ≡ some c
      → IsSent (run w calls).journal c
  run-IsSent w calls i h e =
      get_elem?-All (IsSent (run w calls).journal) _ i ((run-Steps w calls).safe h) e
