-- ===== src/WecSigner/Machine.antt =====
-- What the signer of crates/wcash-wec-payout-signer/src/pipeline.rs acts on: the journal's files,
-- and the requests that have reached the wallet and the node. An operation keeps what it has
-- written when it fails. The answers of the wallet, of the node and of the file system during one
-- call are `Surroundings`, which no two calls need share.
use pool.Base.{ℕ, Bool, List, ◌∷◌, Option, none, some, if◌then◌else◌, Result, ok, err}
use pool.WecSigner.{
  WecPayoutError, WecPipelineStage, NativeWalletError, interrupted, journal_unavailable,
}
use pool.WecSigner.Wallet.{
  WalletIdentity, WalletRecoveryCall, WalletSignCall, WalletSignedTransaction, WalletInspectionCall,
  PersistedIntent, WalletBroadcastCall, BroadcastOutcome, BroadcastFailure,
}
use pool.WecSigner.Journal.{
  JournalRecord, Records, find_record, put_record, check_record, validate_stage, public_stage,
}

pub data Checkpoint : Type 0 where
  identity_returned recovery_returned signing_returned inspection_returned : Checkpoint
  broadcast_returned stage_persisted : WecPipelineStage → Checkpoint

-- How `write_and_replace` ends: with the file replaced and its directory synchronized, with an
-- error after the replacement, or with an error before it.
pub data WriteOutcome : Type 0 where
  file_replaced file_unsynced file_kept : WriteOutcome

pub record Surroundings : Type 0 where
  pub identity : ℕ → ℕ → Result NativeWalletError WalletIdentity
  pub recover_exact : WalletRecoveryCall → Result NativeWalletError (Option WalletSignedTransaction)
  pub sign_exact : WalletSignCall → List ℕ → Result NativeWalletError WalletSignedTransaction
  pub inspect_persisted : WalletInspectionCall → Result NativeWalletError PersistedIntent
  pub broadcast_exact : WalletBroadcastCall → Result BroadcastFailure BroadcastOutcome
  -- The credential's file, checked without reading the seed, and its seed.
  pub seed_metadata : Result WecPayoutError (Unit {0})
  pub read_seed : Result WecPayoutError (List ℕ)
  pub should_interrupt : Checkpoint → Bool
  -- The lock of the journal.
  pub lock : Result WecPayoutError (Unit {0})
  -- A file that cannot be read, or whose text or checksum is wrong.
  pub read_fault : ℕ → Option WecPayoutError
  pub write : JournalRecord → WriteOutcome

pub record World : Type 0 where
  pub journal : Records
  pub signings : List WalletSignCall
  pub broadcasts : List WalletBroadcastCall

abbrev pub Run {ℓ} : Type ℓ → Type ℓ
Run A = World → Result WecPayoutError A × World

abbrev pub continue {ℓ κ} :
    {A : Type ℓ} {B : Type κ}
    → Result WecPayoutError A × World
    → (A → Run B)
    → Result WecPayoutError B × World
continue (ok a, w) f = f a w
continue (err e, w) f = (err e, w)

infixl 5 ◌>>=◌ ◌>>◌
abbrev pub ◌>>=◌ {ℓ κ} : {A : Type ℓ} {B : Type κ} → Run A → (A → Run B) → Run B
◌>>=◌ m f w = continue (m w) f

abbrev pub ◌>>◌ {ℓ} : {B : Type ℓ} → Run (Unit {0}) → Run B → Run B
m >> k = m >>= λ _. k

-- A value, or an error, without an effect.
abbrev pub lift {ℓ} : {A : Type ℓ} → Result WecPayoutError A → Run A
lift r w = (r, w)

abbrev pub map_error {ℓ} :
    {A : Type ℓ}
    → Result NativeWalletError A
    → (NativeWalletError → WecPayoutError)
    → Result WecPayoutError A
map_error (ok a) f = ok a
map_error (err e) f = err (f e)

abbrev pub checked : ℕ → Option JournalRecord → Result WecPayoutError (Option JournalRecord)
checked id none = ok none
checked id (some found) = elim (check_record id found) [ ok _ ↦ ok (some found) | err e ↦ err e ]

-- What a write leaves of the journal.
abbrev pub after_write : WriteOutcome → JournalRecord → Run (Unit {0})
after_write file_replaced held w =
    (ok tt, record w { journal = put_record held.batch_id held w.journal })
after_write file_unsynced held w =
    (err journal_unavailable, record w { journal = put_record held.batch_id held w.journal })
after_write file_kept held w = (err journal_unavailable, w)

module _ (env : Surroundings) where
  -- `Journal::load`.
  unfoldable pub load : ℕ → Run (Option JournalRecord)
  load id w = elim (env.read_fault id) [
    | some e ↦ (err e, w)
    | none ↦ (checked id (find_record id w.journal), w)
  ]

  -- `Journal::store`.
  unfoldable pub store : JournalRecord → Run (Unit {0})
  store held = lift (validate_stage held.stage) >> after_write (env.write held) held

  -- `checkpoint`.
  unfoldable pub reach : Checkpoint → Result WecPayoutError (Unit {0})
  reach point = if env.should_interrupt point then err interrupted else ok tt

  abbrev pub checkpoint : Checkpoint → Run (Unit {0})
  checkpoint point = lift (reach point)

  unfoldable pub persist : JournalRecord → Run (Unit {0})
  persist held = store held >> checkpoint (stage_persisted (public_stage held.stage))

  -- A request to the wallet to sign, which has reached it whatever it answers.
  unfoldable pub sign_exact :
      WalletSignCall → List ℕ → Run (Result NativeWalletError WalletSignedTransaction)
  sign_exact call seed w =
      (ok (env.sign_exact call seed), record w { signings = call ∷ w.signings })

  -- A request to the node to broadcast, which may have reached it whatever it answers.
  unfoldable pub broadcast_exact :
      WalletBroadcastCall → Run (Result BroadcastFailure BroadcastOutcome)
  broadcast_exact call w =
      (ok (env.broadcast_exact call), record w { broadcasts = call ∷ w.broadcasts })

  -- `Journal::with_exclusive_lock`.
  abbrev pub with_exclusive_lock {ℓ} : {A : Type ℓ} → Run A → Run A
  with_exclusive_lock operation = lift env.lock >> operation
