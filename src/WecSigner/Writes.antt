-- ===== src/WecSigner/Writes.antt =====
-- The reads and writes of the journal of crates/wcash-wec-payout-signer/src/journal.rs.
use pool.Base.{
  ℕ, ◌≡◌, refl, ap, sym, ◌∙◌, subst, Option, none, some, ok, ◌==◌, ==→eq, Result-cases,
  Option-cases, Bool-cases, inl, inr, ok_injective, err-ne-ok, some_injective, none-ne-some,
}
use pool.WecSigner.Wallet.{WalletBroadcastCall}
use pool.WecSigner.Journal.{JournalRecord, find_record, check_record, validate_stage}
use pool.WecSigner.Machine.{
  Surroundings, World, WriteOutcome, file_replaced, file_unsynced, file_kept, checked, after_write,
  load, store, persist, broadcast_exact,
}
use pool.WecSigner.Steps.{
  Carries, IsSent, Steps, refl_Steps, refl_Grows, journal-Steps, continue-Steps, continue-ok,
  find_record-put, put_record-Grows,
}

check_record-id :
    (id : ℕ) (held : JournalRecord) → check_record id held ≡ ok tt → held.batch_id ≡ id
unfolding check_record
check_record-id id held e = elim (Bool-cases (held.batch_id == id)) [
  | inl same ↦ ==→eq _ _ same
  | inr apart ↦ absurd (err-ne-ok (rw (check_record, apart) at e))
]

checked-some :
    (id : ℕ) (found : Option JournalRecord) {held : JournalRecord}
    → checked id found ≡ ok (some held)
    → (found ≡ some held) × (held.batch_id ≡ id)
checked-some id none e = absurd (none-ne-some (ok_injective e))
checked-some id (some old) e = elim (Result-cases (check_record id old)) [
  | inl passed ↦
      let same = some_injective (ok_injective (rw (checked, passed.1) at e)) in
      (
        ap some same,
        sym (ap (λ (r : JournalRecord). r.batch_id) same) ∙ check_record-id id old passed.1,
      )
  | inr failed ↦ absurd (err-ne-ok (rw (checked, failed.1) at e))
]

checked-none : (id : ℕ) (found : Option JournalRecord) → checked id found ≡ ok none → found ≡ none
checked-none id none e = refl
checked-none id (some old) e = elim (Result-cases (check_record id old)) [
  | inl passed ↦ absurd (none-ne-some (sym (ok_injective (rw (checked, passed.1) at e))))
  | inr failed ↦ absurd (err-ne-ok (rw (checked, failed.1) at e))
]

module _ (env : Surroundings) where
  -- Reading changes nothing, and finds what the journal holds under the batch.
  pub load-same : (id : ℕ) (w : World) → (load env id w).1 ≡ w
  unfolding load
  load-same id w = elim (Option-cases (env.read_fault id)) [
    | inl clear ↦ rw (load, clear) refl
    | inr fault ↦ rw (load, fault.1) refl
  ]

  load-ok :
      (id : ℕ) (w : World) {found : Option JournalRecord}
      → (load env id w).0 ≡ ok found
      → checked id (find_record id w.journal) ≡ ok found
  unfolding load
  load-ok id w e = elim (Option-cases (env.read_fault id)) [
    | inl clear ↦ rw (load, clear) at e
    | inr fault ↦ absurd (err-ne-ok (rw (load, fault.1) at e))
  ]

  pub load-some :
      (id : ℕ) (w : World) {held : JournalRecord}
      → (load env id w).0 ≡ ok (some held)
      → (find_record id w.journal ≡ some held) × (held.batch_id ≡ id)
  load-some id w e = checked-some id (find_record id w.journal) (load-ok id w e)

  pub load-none :
      (id : ℕ) (w : World) → (load env id w).0 ≡ ok none → find_record id w.journal ≡ none
  load-none id w e = checked-none id (find_record id w.journal) (load-ok id w e)

  after_write-Steps :
      (outcome : WriteOutcome) (new : JournalRecord) (w : World)
      → ((old : JournalRecord) → find_record new.batch_id w.journal ≡ some old → Carries old new)
      → Steps w (after_write outcome new w).1
  after_write-Steps file_replaced new w h =
      journal-Steps w _ (put_record-Grows new.batch_id new w.journal h)
  after_write-Steps file_unsynced new w h =
      journal-Steps w _ (put_record-Grows new.batch_id new w.journal h)
  after_write-Steps file_kept new w h = refl_Steps w

  after_write-ok :
      (outcome : WriteOutcome) (new : JournalRecord) (w : World)
      → (after_write outcome new w).0 ≡ ok tt
      → find_record new.batch_id (after_write outcome new w).1.journal ≡ some new
  after_write-ok file_replaced new w e = find_record-put new.batch_id new w.journal
  after_write-ok file_unsynced new w e = absurd (err-ne-ok e)
  after_write-ok file_kept new w e = absurd (err-ne-ok e)

  -- A record that carries the one it replaces may be stored, whether the write succeeds or not.
  pub persist-Steps :
      (new : JournalRecord) (w : World)
      → ((old : JournalRecord) → find_record new.batch_id w.journal ≡ some old → Carries old new)
      → Steps w (persist env new w).1
  unfolding persist store
  persist-Steps new w h =
      continue-Steps w (store env new w) _
        (continue-Steps w (validate_stage new.stage, w) _ (refl_Steps w)
          (λ _ _. after_write-Steps (env.write new) new w h))
        (λ _ _. refl_Steps _)

  -- A record that is persisted is found.
  pub persist-ok :
      (new : JournalRecord) (w : World)
      → (persist env new w).0 ≡ ok tt
      → find_record new.batch_id (persist env new w).1.journal ≡ some new
  unfolding persist store
  persist-ok new w e =
      let whole = continue-ok (store env new w) _ e in
      let valid = continue-ok (validate_stage new.stage, w) _ whole.1 in
      subst (λ (v : World). find_record new.batch_id v.journal ≡ some new) (sym (whole.3 ∙ valid.3))
        (after_write-ok (env.write new) new w valid.2)

  -- A broadcast may be asked for of the transaction that the journal holds.
  pub broadcast_exact-Steps :
      (call : WalletBroadcastCall) (w : World)
      → IsSent w.journal call
      → Steps w (broadcast_exact env call w).1
  unfolding broadcast_exact
  broadcast_exact-Steps call w sent = record { grows = refl_Grows w.journal; safe = λ h. (sent, h) }
