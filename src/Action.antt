-- ===== src/Action.antt =====
-- controller/stateless-action/v1/reconcile.go: a reconciliation decides whether to act, and an action
-- is run until its check says that it is no longer needed, or its context is cancelled.
pub mod Runs
pub mod Init
pub mod Samples
use operator_toolkit.Prelude.{
  ℕ, String, Bool, true, false, Option, none, some, List, [], ◌∷◌, ◌++◌, if◌then◌else◌, Result, ok,
  err,
}

-- The controller's and the action manager's methods, with the world `S`. A nil object is `none`, and
-- an error of `GetObject` has passed `client.IgnoreNotFound`, which may leave nil.
pub record ActionEnv (E Key Obj S : Type 0) : Type 0 where
  pub get_object : Key → S → Result (Option E) (Option Obj) × S
  pub require_action : Obj → S → Result E Bool × S
  pub build_action_manager : Obj → S → Option E × S
  pub get_objects : S → Result E (List Obj) × S
  pub get_name : Obj → S → Result E String × S
  pub run : Obj → S → Option E × S
  pub check : Obj → S → Result E Bool × S
  pub defer : Obj → S → Option E × S
  -- `errors.Wrapf` with its message.
  pub wrap : String → E → E

-- What the `select` of the retry loop finds ready: the timer, or the cancelled context.
pub data Ready : Type 0 where
  retry_period_over context_done : Ready

-- The calls of the manager, which only the theorems read, the latest first.
pub data ManagerCall : Type 0 where
  ran checked deferred : ManagerCall

module _ {E Key Obj S : Type 0} (env : ActionEnv E Key Obj S) where
  -- The retry loop; `none` where it goes on after the given choices of `select`.
  unfoldable pub retry_loop :
      Obj → List Ready → S → List ManagerCall → Option (S × List ManagerCall)
  retry_loop o [] s calls = none
  retry_loop o (context_done ∷ choices) s calls = some (s, calls)
  retry_loop o (retry_period_over ∷ choices) s calls =
      let (checked_result, s') = env.check o s in
      elim checked_result [
        | err check_err ↦ retry_loop o choices s' (checked ∷ calls)
        | ok true ↦ retry_loop o choices (env.run o s').1 (ran ∷ checked ∷ calls)
        | ok false ↦ some (s', checked ∷ calls)
      ]

  -- The error of `RunAction` after its deferred function answered.
  abbrev pub deferred_error : Option E → Option E
  deferred_error none = none
  deferred_error (some e) = some (env.wrap "failed to run deferred action" e)

  -- `RunAction`: the error that it returns, and the calls.
  unfoldable pub run_action : Obj → List Ready → S → Option (Option E × (S × List ManagerCall))
  unfolding retry_loop
  run_action o choices s =
      let (named, s') = env.get_name o s in
      elim named [
        | err e ↦ some (some (env.wrap "failed to get action manager name" e), (s', []))
        | ok name ↦ elim (retry_loop o choices (env.run o s').1 (ran ∷ [])) [
          | none ↦ none
          | some (s'', calls) ↦
              let (defer_err, after) = env.defer o s'' in
              some (deferred_error defer_err, (after, deferred ∷ calls))
        ]
      ]

  -- `RunActionManager`: its error, or the objects for which it starts a goroutine each.
  unfoldable pub run_action_manager : Obj → S → Result E (List Obj) × S
  run_action_manager o s =
      let (built, s') = env.build_action_manager o s in
      elim built [
        | some e ↦ (err (env.wrap "failed to build action manager" e), s')
        | none ↦
            let (objects, s'') = env.get_objects s' in
            elim objects [
              | err e ↦ (err (env.wrap "failed to get objects from action manager" e), s'')
              | ok os ↦ (ok os, s'')
            ]
      ]

  -- `Reconcile`: its error, and the objects for which goroutines were started.
  unfoldable pub action_reconcile : Key → S → (Option E × List Obj) × S
  unfolding run_action_manager
  action_reconcile req s =
      let (found, s') = env.get_object req s in
      elim found [
        | err ignored ↦ ((ignored, []), s')
        | ok none ↦ ((none, []), s')
        | ok (some obj) ↦
            let (required, s'') = env.require_action obj s' in
            elim required [
              | err e ↦ ((some e, []), s'')
              | ok false ↦ ((none, []), s'')
              | ok true ↦
                  let (started, s3) = run_action_manager obj s'' in
                  elim started [ err e ↦ ((some e, []), s3) | ok os ↦ ((none, os), s3) ]
            ]
      ]
