-- ===== src/Action/Runs.antt =====
-- controller/stateless-action/v1/reconcile.go, `RunAction`: the calls of a run that ends.
use operator_toolkit.Prelude.{ℕ, zero, suc, Bool, true, false, List, [], ◌∷◌, ◌≡◌, ◌⊎◌, ok, err}
use operator_toolkit.Action.{
  ActionEnv, Ready, retry_period_over, context_done, ManagerCall, ran, checked,
}

abbrev pub cancelled : List Ready → Bool
cancelled [] = false
cancelled (context_done ∷ choices) = true
cancelled (retry_period_over ∷ choices) = cancelled choices

-- How many retry periods are over before the context is cancelled.
abbrev pub periods : List Ready → ℕ
periods [] = 0
periods (context_done ∷ choices) = 0
periods (retry_period_over ∷ choices) = suc (periods choices)

-- Calls from the first to the last, put before those that were made earlier, the latest first.
abbrev pub latest_first : List ManagerCall → List ManagerCall → List ManagerCall
latest_first [] earlier = earlier
latest_first (c ∷ calls) earlier = latest_first calls (c ∷ earlier)

module _ {E Key Obj S : Type 0} (env : ActionEnv E Key Obj S) (o : Obj) where
  -- The calls, from the first to the last, of a number of retry periods, and the worlds before and
  -- after them. Each period makes a check. Where this fails, the next period follows, where it answers
  -- true, a run and the next period, and where it answers false, nothing.
  abbrev pub Retries : ℕ → List ManagerCall → S → S → Type 0
  Retries zero calls s s' = (calls ≡ []) × (s ≡ s')
  Retries (suc n) calls s s' =
      ((e : E) × (rest : List ManagerCall) × ((env.check o s).0 ≡ err e)
        × (calls ≡ checked ∷ rest)
        × Retries n rest (env.check o s).1 s')
      ⊎ (((rest : List ManagerCall) × ((env.check o s).0 ≡ ok true)
            × (calls ≡ checked ∷ ran ∷ rest)
            × Retries n rest (env.run o (env.check o s).1).1 s')
          ⊎ (((env.check o s).0 ≡ ok false) × (calls ≡ checked ∷ []) × ((env.check o s).1 ≡ s')))
