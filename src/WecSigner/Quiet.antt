-- ===== src/WecSigner/Quiet.antt =====
-- The steps of crates/wcash-wec-payout-signer/src/pipeline.rs that only ask the wallet.
use pool.Base.{◌≡◌, refl, sym, ◌∙◌, subst, Option, none, some, Result, ok, err}
use pool.WecSigner.{Libraries, WecPayoutError}
use pool.WecSigner.Wallet.{WalletIdentity, WalletSignedTransaction}
use pool.WecSigner.Config.{WecSignerConfig}
use pool.WecSigner.Journal.{Records}
use pool.WecSigner.Requests.{WecPayoutRequest, ValidatedRequest}
use pool.WecSigner.Machine.{Surroundings, World, Run, continue, sign_exact, lift}
use pool.WecSigner.Asking.{ask_identity, ask_recovery, take_signed}
use pool.WecSigner.Artifacts.{sign_call, sign_unless, create_or_recover}
use pool.WecSigner.Steps.{Grows, Steps, refl_Grows}

-- A step that neither writes nor broadcasts.
pub record IsQuiet (w v : World) : Type 0 where
  pub journal : v.journal ≡ w.journal
  pub broadcasts : v.broadcasts ≡ w.broadcasts

pub IsQuiet-Steps : (w v : World) → IsQuiet w v → Steps w v
IsQuiet-Steps w v q = record {
  grows =
      subst (λ (records : Records). Grows w.journal records) (sym q.journal) (refl_Grows w.journal);
  safe = λ h. rw (q.journal, q.broadcasts) h;
}

refl_IsQuiet : (w : World) → IsQuiet w w
refl_IsQuiet w = record { journal = refl; broadcasts = refl }

continue-IsQuiet {ℓ κ} :
    {A : Type ℓ} {B : Type κ} (w : World) (r : Result WecPayoutError A × World) (f : A → Run B)
    → IsQuiet w r.1
    → ((a : A) (v : World) → IsQuiet v (f a v).1)
    → IsQuiet w (continue r f).1
continue-IsQuiet w (ok a, v) f h k = record {
  journal = (k a v).journal ∙ h.journal;
  broadcasts = (k a v).broadcasts ∙ h.broadcasts;
}
continue-IsQuiet w (err e, v) f h k = h

module _ (lib : Libraries) (config : WecSignerConfig) (env : Surroundings)
    (request : WecPayoutRequest) (validated : ValidatedRequest) where
  sign_unless-IsQuiet :
      (identity : WalletIdentity) (recovered : Option WalletSignedTransaction) (w : World)
      → IsQuiet w (sign_unless lib config env request validated identity recovered w).1
  unfolding sign_unless sign_exact
  sign_unless-IsQuiet identity (some s) w = refl_IsQuiet w
  sign_unless-IsQuiet identity none w =
      continue-IsQuiet w (env.read_seed, w) _ (refl_IsQuiet w)
        (λ seed v.
          continue-IsQuiet v
            (sign_exact env (sign_call lib config env request validated identity) seed v)
            (λ answer. lift (take_signed env answer)) (record { journal = refl; broadcasts = refl })
            (λ answer u. refl_IsQuiet u))

  -- Obtaining the transaction of a batch neither writes the journal nor broadcasts.
  pub create_or_recover-IsQuiet :
      (w : World) → IsQuiet w (create_or_recover lib config env request validated w).1
  unfolding create_or_recover
  create_or_recover-IsQuiet w =
      continue-IsQuiet w (ask_identity config env, w) _ (refl_IsQuiet w)
        (λ identity v.
          continue-IsQuiet v (ask_recovery lib config env request validated, v) _ (refl_IsQuiet v)
            (λ recovered u.
              continue-IsQuiet u (sign_unless lib config env request validated identity recovered u)
                _ (sign_unless-IsQuiet identity recovered u) (λ s x. refl_IsQuiet x)))
