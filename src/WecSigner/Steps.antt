-- ===== src/WecSigner/Steps.antt =====
-- What the operations of crates/wcash-wec-payout-signer/src/pipeline.rs may do to the journal and to
-- the node.
use pool.Base.{
  ℕ, ◌≤◌, ◌≡◌, ◌≢◌, refl, ap, sym, ◌∙◌, subst, List, [], ◌∷◌, some, arith, Result, ok, err, ◌==◌,
  Bool-cases, inl, inr, ==→eq, eq→==, true-ne-false, All, err-ne-ok,
}
use pool.WecSigner.{WecPayoutError}
use pool.WecSigner.Wallet.{WalletBroadcastCall}
use pool.WecSigner.Journal.{
  StoredArtifact, StoredStage, JournalRecord, Records, reserved, prepared, signed,
  broadcast_unresolved, rejected, completed, artifact_of, find_record, put_record,
}
use pool.WecSigner.Machine.{World, Run, continue}

-- How far a stage has come: from 2 on the node may have seen the transaction.
abbrev pub rank : StoredStage → ℕ
rank reserved = 0
rank (prepared a) = 1
rank (signed a) = 2
rank (broadcast_unresolved a) = 2
rank (rejected a) = 3
rank (completed a disposition) = 3

-- A later stage has the same artifact, and is the same stage where that is final.
pub record IsLater (s t : StoredStage) : Type 0 where
  pub artifact : (a : StoredArtifact) → artifact_of s ≡ some a → artifact_of t ≡ some a
  pub reached : rank s ≤ rank t
  pub final : rank s ≡ 3 → t ≡ s

-- A later record of the same batch and facts.
pub record Carries (held later : JournalRecord) : Type 0 where
  pub batch_id : later.batch_id ≡ held.batch_id
  pub pipeline : later.pipeline_commitment ≡ held.pipeline_commitment
  pub portal : later.portal_commitment ≡ held.portal_commitment
  pub total : later.output_total_zat ≡ held.output_total_zat
  pub stage : IsLater held.stage later.stage

-- No record of a journal is lost.
abbrev pub Grows : Records → Records → Type 0
Grows records others =
    (id : ℕ) (held : JournalRecord)
    → find_record id records ≡ some held
    → (later : JournalRecord) × (find_record id others ≡ some later) × Carries held later

-- A broadcast of the transaction that the journal holds for its batch, at a stage that says so.
pub record IsSent (records : Records) (call : WalletBroadcastCall) : Type 0 where
  pub held : JournalRecord
  pub found : find_record call.batch_id records ≡ some held
  pub commitment : call.request_commitment ≡ held.pipeline_commitment
  pub artifact : StoredArtifact
  pub stored : artifact_of held.stage ≡ some artifact
  pub transaction : call.transaction_id ≡ artifact.transaction_id
  pub raw : call.raw_transaction_hex ≡ artifact.raw_transaction_hex
  pub announced : 2 ≤ rank held.stage

-- Every broadcast so far is of the transaction that the journal holds.
abbrev pub IsSafe : World → Type 0
IsSafe w = All (IsSent w.journal) w.broadcasts

-- What an operation may do.
pub record Steps (w v : World) : Type 0 where
  pub grows : Grows w.journal v.journal
  pub safe : IsSafe w → IsSafe v

pub refl_IsLater : (s : StoredStage) → IsLater s s
refl_IsLater s = record { artifact = λ a e. e; reached = omega arith; final = λ _. refl }

trans_IsLater : (s t u : StoredStage) → IsLater s t → IsLater t u → IsLater s u
trans_IsLater s t u h k = record {
  artifact = λ a e. k.artifact a (h.artifact a e);
  reached = omega (arith, h.reached, k.reached);
  final = λ e. k.final (ap rank (h.final e) ∙ e) ∙ h.final e;
}

pub refl_Carries : (held : JournalRecord) → Carries held held
refl_Carries held = record {
  batch_id = refl;
  pipeline = refl;
  portal = refl;
  total = refl;
  stage = refl_IsLater held.stage;
}

trans_Carries : (a b c : JournalRecord) → Carries a b → Carries b c → Carries a c
trans_Carries a b c h k = record {
  batch_id = k.batch_id ∙ h.batch_id;
  pipeline = k.pipeline ∙ h.pipeline;
  portal = k.portal ∙ h.portal;
  total = k.total ∙ h.total;
  stage = trans_IsLater a.stage b.stage c.stage h.stage k.stage;
}

pub refl_Grows : (records : Records) → Grows records records
refl_Grows records id held e = (held, e, refl_Carries held)

pub trans_Grows : (a b c : Records) → Grows a b → Grows b c → Grows a c
trans_Grows a b c h k id held e =
    let middle = h id held e in
    let last = k id middle.0 middle.1 in
    (last.0, last.1, trans_Carries held middle.0 last.0 middle.2 last.2)

-- A broadcast that was of the journal's transaction still is.
IsSent-Grows :
    (a b : Records) (call : WalletBroadcastCall) → Grows a b → IsSent a call → IsSent b call
IsSent-Grows a b call h sent =
    let now = h call.batch_id sent.held sent.found in
    record {
      held = now.0;
      found = now.1;
      commitment = sent.commitment ∙ sym now.2.pipeline;
      artifact = sent.artifact;
      stored = now.2.stage.artifact sent.artifact sent.stored;
      transaction = sent.transaction;
      raw = sent.raw;
      announced = omega (arith, sent.announced, now.2.stage.reached);
    }

pub All-IsSent-Grows :
    (a b : Records) (calls : List WalletBroadcastCall)
    → Grows a b
    → All (IsSent a) calls
    → All (IsSent b) calls
All-IsSent-Grows a b [] h k = tt
All-IsSent-Grows a b (call ∷ calls) h k =
    (IsSent-Grows a b call h k.0, All-IsSent-Grows a b calls h k.1)

pub refl_Steps : (w : World) → Steps w w
refl_Steps w = record { grows = refl_Grows w.journal; safe = λ h. h }

pub trans_Steps : (w v u : World) → Steps w v → Steps v u → Steps w u
trans_Steps w v u h k = record {
  grows = trans_Grows w.journal v.journal u.journal h.grows k.grows;
  safe = λ s. k.safe (h.safe s);
}

-- A change of the journal alone.
pub journal-Steps :
    (w : World) (records : Records)
    → Grows w.journal records
    → Steps w (record w { journal = records })
journal-Steps w records h = record {
  grows = h;
  safe = λ s. All-IsSent-Grows w.journal records w.broadcasts h s;
}

-- An operation after another.
pub continue-Steps {ℓ κ} :
    {A : Type ℓ} {B : Type κ} (w : World) (r : Result WecPayoutError A × World) (f : A → Run B)
    → Steps w r.1
    → ((a : A) → r.0 ≡ ok a → Steps r.1 (f a r.1).1)
    → Steps w (continue r f).1
continue-Steps w (ok a, v) f h k = trans_Steps w v (f a v).1 h (k a refl)
continue-Steps w (err e, v) f h k = h

-- An operation that succeeds, of two.
pub continue-ok {ℓ κ} :
    {A : Type ℓ} {B : Type κ} (r : Result WecPayoutError A × World) (f : A → Run B) {b : B}
    → (continue r f).0 ≡ ok b
    → (a : A) × (r.0 ≡ ok a) × ((f a r.1).0 ≡ ok b) × ((continue r f).1 ≡ (f a r.1).1)
continue-ok (ok a, v) f e = (a, refl, e, refl)
continue-ok (err x, v) f e = absurd (err-ne-ok e)

-- Where a record replaces another, or none.
pub find_record-put :
    (id : ℕ) (new : JournalRecord) (records : Records)
    → find_record id (put_record id new records) ≡ some new
unfolding find_record put_record
find_record-put id new [] = ground arith
find_record-put id new ((k, old) ∷ records) = elim (Bool-cases (k == id)) [
  | inl hit ↦ rw hit (ground arith)
  | inr miss ↦ rw (find_record, put_record, miss, miss) (find_record-put id new records)
]

find_record-other :
    (id other : ℕ) (new : JournalRecord) (records : Records)
    → id ≢ other
    → find_record other (put_record id new records) ≡ find_record other records
unfolding find_record put_record
find_record-other id other new [] ne = elim (Bool-cases (id == other)) [
  | inl hit ↦ absurd (ne (==→eq _ _ hit))
  | inr miss ↦ rw miss refl
]
find_record-other id other new ((k, old) ∷ records) ne = elim (Bool-cases (k == id)) [
  | inl hit ↦ elim (Bool-cases (k == other)) [
    | inl same ↦ absurd (ne (sym (==→eq _ _ hit) ∙ ==→eq _ _ same))
    | inr miss ↦ elim (Bool-cases (id == other)) [
      | inl same ↦ absurd (ne (==→eq _ _ same))
      | inr apart ↦ rw (hit, miss, apart) refl
    ]
  ]
  | inr miss ↦ elim (Bool-cases (k == other)) [
    | inl same ↦ rw (miss, same) refl
    | inr apart ↦ rw (miss, apart) (find_record-other id other new records ne)
  ]
]

-- A record that carries what it replaces loses nothing.
pub put_record-Grows :
    (id : ℕ) (new : JournalRecord) (records : Records)
    → ((old : JournalRecord) → find_record id records ≡ some old → Carries old new)
    → Grows records (put_record id new records)
put_record-Grows id new records h other held e = elim (Bool-cases (id == other)) [
  | inl same ↦
      let here : other ≡ id = sym (==→eq _ _ same) in
      (
        new,
        subst (λ (k : ℕ). find_record k (put_record id new records) ≡ some new) (sym here)
            (find_record-put id new records),
        h held (subst (λ (k : ℕ). find_record k records ≡ some held) here e),
      )
  | inr apart ↦ (
    held,
    find_record-other id other new records (λ same. true-ne-false (sym (eq→== _ _ same) ∙ apart))
        ∙ e,
    refl_Carries held,
  )
]
