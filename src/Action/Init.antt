-- ===== src/Action/Init.antt =====
-- controller/stateless-action/v1/reconcile.go: the options of the reconciler, and `Init`.
use operator_toolkit.Prelude.{ℕ, String, Option, none, some, List, [], ◌∷◌}

-- The periods are in nanoseconds.
pub record ActionReconciler (Ctrl Client Scheme Inst : Type 0) : Type 0 where
  pub name : String
  pub ctrlr : Option Ctrl
  pub client : Option Client
  pub scheme : Option Scheme
  pub action_retry_period : ℕ
  pub action_timeout : ℕ
  pub inst : Option Inst

abbrev pub ActionOption : (Ctrl Client Scheme Inst : Type 0) → Type 0
ActionOption Ctrl Client Scheme Inst =
    ActionReconciler Ctrl Client Scheme Inst → ActionReconciler Ctrl Client Scheme Inst

module _ {Ctrl Client Scheme Inst : Type 0} where
  unfoldable pub with_name : String → ActionOption Ctrl Client Scheme Inst
  with_name name r = record r { name = name }

  unfoldable pub with_action_retry_period : ℕ → ActionOption Ctrl Client Scheme Inst
  with_action_retry_period duration r = record r { action_retry_period = duration }

  unfoldable pub with_action_timeout : ℕ → ActionOption Ctrl Client Scheme Inst
  with_action_timeout duration r = record r { action_timeout = duration }

  unfoldable pub with_scheme : Scheme → ActionOption Ctrl Client Scheme Inst
  with_scheme scheme r = record r { scheme = some scheme }

  abbrev run_options :
      List (ActionOption Ctrl Client Scheme Inst) → ActionOption Ctrl Client Scheme Inst
  run_options [] r = r
  run_options (opt ∷ opts) r = run_options opts (opt r)

  unfoldable pub init :
      (new_instrumentation : String → Inst) (mgr : Option (Client × Scheme)) (ctrlr : Option Ctrl)
      → List (ActionOption Ctrl Client Scheme Inst)
      → ActionOption Ctrl Client Scheme Inst
  init new_instrumentation mgr ctrlr opts r =
      let r' = run_options opts (record r {
        ctrlr = ctrlr;
        client = elim mgr [ none ↦ r.client | some (client, scheme) ↦ some client ];
        scheme = elim mgr [ none ↦ r.scheme | some (client, scheme) ↦ some scheme ];
      }) in
      record r' {
        inst = elim r'.inst [ none ↦ some (new_instrumentation r'.name) | some inst ↦ some inst ];
      }
