-- ===== src/Operator.antt =====
-- operator/v1: the composite operator over its operands' graph, its order and its executor.
pub mod Ensure
pub mod Built
pub mod Samples
use operator_toolkit.Prelude.{
  ℕ, zero, suc, ◌+◌, ◌*◌, String, Bool, true, false, not, Option, none, some, List, [], ◌∷◌, ◌≡◌,
  if◌then◌else◌, Result, ok, err,
}
use operator_toolkit.Dag.{Steps}
use operator_toolkit.Dag.Build.{
  DagLib, Named, Outcome, runs_on, panics, returns, new_operand_dag, order,
}
use operator_toolkit.Operand.{Errors, Operand, OperandOrder, RunCall, call_ensure, call_cleanup}
use operator_toolkit.Operand.Reverse.{reverse_order}
use operator_toolkit.Executor.{
  ExecutionStrategy, parallel, CtrlResult, zero_result, requeued, State, execute_operands,
}

-- `5 * time.Second`, in nanoseconds.
abbrev pub default_retry_period : ℕ
default_retry_period = 5000000000

-- The fields of `CompositeOperator` that its behaviour depends on. The recorder is a field of the
-- state (`Executor.State`), and here it is only known whether one was given.
pub record CompositeOperator (Ev E W : Type 0) : Type 0 where
  pub operands : List (Operand Ev E W)
  pub is_suspended : W → Bool
  pub order : OperandOrder Ev E W
  pub execution_strategy : ExecutionStrategy
  pub has_recorder : Bool
  pub retry_period : ℕ

abbrev pub default_is_suspended : {W : Type 0} → W → Bool
default_is_suspended w = false

module _ {Ev E W : Type 0} where
  pub with_execution_strategy :
      ExecutionStrategy → CompositeOperator Ev E W → CompositeOperator Ev E W
  with_execution_strategy strategy c = record c { execution_strategy = strategy }

  pub with_operands : List (Operand Ev E W) → CompositeOperator Ev E W → CompositeOperator Ev E W
  with_operands operands c = record c { operands = operands }

  pub with_suspension_check : (W → Bool) → CompositeOperator Ev E W → CompositeOperator Ev E W
  with_suspension_check f c = record c { is_suspended = f }

  pub with_event_recorder : CompositeOperator Ev E W → CompositeOperator Ev E W
  with_event_recorder c = record c { has_recorder = true }

  pub with_retry_period : ℕ → CompositeOperator Ev E W → CompositeOperator Ev E W
  with_retry_period duration c = record c { retry_period = duration }

  abbrev defaults : CompositeOperator Ev E W
  defaults = record {
    operands = [];
    is_suspended = default_is_suspended;
    order = [];
    execution_strategy = parallel;
    has_recorder = false;
    retry_period = default_retry_period;
  }

  abbrev apply_options :
      List (CompositeOperator Ev E W → CompositeOperator Ev E W)
      → CompositeOperator Ev E W
      → CompositeOperator Ev E W
  apply_options [] c = c
  apply_options (opt ∷ opts) c = apply_options opts (opt c)

  abbrev operand_names : Named (Operand Ev E W)
  operand_names = record { name = λ op. op.name; requires = λ op. op.requires }

  module _ {G : Type 0} (lib : DagLib E (Operand Ev E W) G) (no_recorder : E)
      (range : Steps → Steps) (fuel : ℕ) where
    -- The end of `NewCompositeOperator`, once the options have run.
    unfoldable pub with_order :
        CompositeOperator Ev E W → Outcome (Result E (CompositeOperator Ev E W))
    with_order c = elim (new_operand_dag lib operand_names c.operands) [
      | err e ↦ returns (err e)
      | ok od ↦ elim (order lib range fuel od) [
        | runs_on ↦ runs_on
        | panics ↦ panics
        | returns (err e) ↦ returns (err e)
        | returns (ok rows) ↦ returns (ok (record c { order = rows }))
      ]
    ]

    unfoldable pub new_composite_operator :
        List (CompositeOperator Ev E W → CompositeOperator Ev E W)
        → Outcome (Result E (CompositeOperator Ev E W))
    unfolding with_order
    new_composite_operator opts =
        let c = apply_options opts defaults in
        if c.has_recorder then with_order c else returns (err no_recorder)

  module _ (errors : Errors E) (co : CompositeOperator Ev E W) where
    -- What `Ensure` makes of the executor's answer.
    unfoldable pub ensure_result : CtrlResult × Option E → CtrlResult × Option E
    ensure_result (res, none) = (res, none)
    ensure_result (res, some e) =
        if errors.is_not_ready e
        then (record { requeue = true; requeue_after = co.retry_period }, none)
        else (requeued, some e)

  module _ (errors : Errors E) (unknown : ExecutionStrategy → E) (scheduler : State Ev E W → List ℕ)
      (co : CompositeOperator Ev E W) where
    unfoldable pub ensure_all : State Ev E W → (CtrlResult × Option E) × State Ev E W
    unfolding ensure_result
    ensure_all s =
        if not (co.is_suspended s.world)
        then (let (r, s') =
              execute_operands errors (call_ensure errors) unknown co.execution_strategy scheduler
                co.order s in
            (ensure_result errors co r, s'))
        else ((zero_result, none), s)

    unfoldable pub cleanup_all : State Ev E W → (CtrlResult × Option E) × State Ev E W
    cleanup_all s =
        if not (co.is_suspended s.world)
        then execute_operands errors call_cleanup unknown co.execution_strategy scheduler
            (reverse_order [] co.order) s
        else ((zero_result, none), s)
