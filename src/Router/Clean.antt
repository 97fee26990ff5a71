-- ===== src/Router/Clean.antt =====
-- When miners are told to abandon older work, of crates/wcash-pool-edge/src/router.rs.
use pool.Base.{
  ◌≡◌, refl, ap, sym, ◌∙◌, Bool, true, List, [], ◌∷◌, ◌++◌, Option, none, some, ◌⊎◌, inl, inr,
}
use pool.Router.{
  JobUpdate, activated, retired, suspended, RouterState, JobRouter, send, suspend_all,
}

-- Whether an update is an activation, and asks for clean jobs.
abbrev pub clean_flag : JobUpdate → Option Bool
clean_flag (activated g clean_jobs) = some clean_jobs
clean_flag (retired id) = none
clean_flag suspended = none

-- The first activation that a list of updates sends, of which the newest stands first.
abbrev pub or_newer : Option Bool → JobUpdate → Option Bool
or_newer none update = clean_flag update
or_newer (some clean_jobs) update = some clean_jobs

abbrev pub first_activation : List JobUpdate → Option Bool
first_activation [] = none
first_activation (update ∷ older) = or_newer (first_activation older) update

-- What follows a router that owes its miners a clean activation: it still does, with no activation
-- sent, or the first one it has sent was clean.
pub record IsClean (j k : JobRouter) : Type 0 where
  pub sent : List JobUpdate
  pub updates : k.updates ≡ sent ++ j.updates
  pub owed :
      j.state.force_clean_jobs ≡ true
      → (first_activation sent ≡ some true)
        ⊎ ((first_activation sent ≡ none) × (k.state.force_clean_jobs ≡ true))

-- Of two routers, the later: it has sent no activation since the earlier one, and owes its miners a
-- clean one, or the first activation that it has sent since was clean.
pub record IsOwed (earlier later : JobRouter) : Type 0 where
  pub sent : List JobUpdate
  pub updates : later.updates ≡ sent ++ earlier.updates
  pub first :
      (first_activation sent ≡ some true)
      ⊎ ((first_activation sent ≡ none) × (later.state.force_clean_jobs ≡ true))

pub refl_IsClean : (j : JobRouter) → IsClean j j
refl_IsClean j = record { sent = []; updates = refl; owed = λ h. inr (refl, h) }

append_assoc : (xs ys zs : List JobUpdate) → (xs ++ ys) ++ zs ≡ xs ++ (ys ++ zs)
append_assoc [] ys zs = refl
append_assoc (x ∷ xs) ys zs = ap (λ (t : List JobUpdate). x ∷ t) (append_assoc xs ys zs)

-- Older activations come first.
first_activation-append :
    (newer older : List JobUpdate) {clean_jobs : Bool}
    → first_activation older ≡ some clean_jobs
    → first_activation (newer ++ older) ≡ some clean_jobs
first_activation-append [] older e = e
first_activation-append (update ∷ newer) older e = rw (first_activation-append newer older e) refl

first_activation-none :
    (newer older : List JobUpdate)
    → first_activation older ≡ none
    → first_activation (newer ++ older) ≡ first_activation newer
first_activation-none [] older e = e
first_activation-none (update ∷ newer) older e =
    ap (λ (o : Option Bool). or_newer o update) (first_activation-none newer older e)

pub trans_IsClean : (i j k : JobRouter) → IsClean i j → IsClean j k → IsClean i k
trans_IsClean i j k a b = record {
  sent = b.sent ++ a.sent;
  updates =
      b.updates
      ∙ ap (λ (t : List JobUpdate). b.sent ++ t) a.updates
      ∙ sym (append_assoc b.sent a.sent i.updates);
  owed = λ h. elim (a.owed h) [
    | inl clean ↦ inl (first_activation-append b.sent a.sent clean)
    | inr still ↦ elim (b.owed still.1) [
      | inl clean ↦ inl (first_activation-none b.sent a.sent still.0 ∙ clean)
      | inr kept ↦ inr (first_activation-none b.sent a.sent still.0 ∙ kept.0, kept.1)
    ]
  ];
}

-- A call that sends nothing and keeps what is owed.
pub unsent-IsClean :
    (j : JobRouter) (s : RouterState)
    → (j.state.force_clean_jobs ≡ true → s.force_clean_jobs ≡ true)
    → IsClean j (record j { state = s })
unsent-IsClean j s h = record { sent = []; updates = refl; owed = λ e. inr (refl, h e) }

pub suspend_all-IsClean :
    (j : JobRouter) (s : RouterState) → IsClean j (suspend_all (record j { state = s }))
suspend_all-IsClean j s = record {
  sent = suspended ∷ [];
  updates = refl;
  owed = λ e. inr (refl, refl);
}

pub warned-IsClean : (j : JobRouter) → IsClean j (send suspended j)
warned-IsClean j = record { sent = suspended ∷ []; updates = refl; owed = λ e. inr (refl, e) }
