-- ===== src/Executor/Gate.antt =====
-- executor.go, `ExecuteOperands`: a step is started only after all of the step before it succeeded.
use operator_toolkit.Prelude.{
  ℕ, ◌+◌, ◌≤◌, String, true, false, Option, none, some, List, [], ◌∷◌, ◌++◌, ◌≡◌, refl, sym, ap,
  subst, ◌∙◌, arith, count_if-append, ◌==◌, ltb, append-nil, append_assoc, inl, inr, ◌⊎◌,
}
use operator_toolkit.Operand.{
  Errors, IsErrors, Operand, OperandOrder, RunCall, RequeueStrategy, requeue_always,
  requeue_on_error, step_requeue_strategy, holds, is_some,
}
use operator_toolkit.Executor.{
  State, Call, CtrlResult, zero_result, requeued, serial_exec, concurrent_exec, exec_step,
  execute_loop, execute_operands, ExecutionStrategy, serial, parallel,
}
use operator_toolkit.Executor.Accounts.{Stepped, failures, calls_of, named}
use operator_toolkit.Executor.Serial.{serial_exec-Stepped}
use operator_toolkit.Executor.Concurrent.{concurrent_exec-Stepped}

abbrev pub IsKnown : ExecutionStrategy → Type 0
IsKnown strategy = (strategy ≡ serial) ⊎ (strategy ≡ parallel)

strategy_cases : (r : RequeueStrategy) → (r ≡ requeue_always) ⊎ (r ≡ requeue_on_error)
strategy_cases requeue_always = inl refl
strategy_cases requeue_on_error = inr refl

module _ {Ev E W : Type 0} where
  -- The calls go through the steps in order: those of a step before the last that was started are
  -- calls of each of its operands, once, and none of them failed.
  abbrev pub Gated : OperandOrder Ev E W → List (Call Ev E) → Type 0
  Gated [] calls = calls ≡ []
  Gated (ops ∷ order) calls =
      (mine : List (Call Ev E)) × (rest : List (Call Ev E)) × (calls ≡ mine ++ rest)
      × ((n : String) → calls_of n mine ≤ named n ops)
      × ((rest ≡ [])
          ⊎ ((failures (λ _. true) mine ≡ 0)
              × ((n : String) → calls_of n mine ≡ named n ops)
              × Gated order rest))

  abbrev pub named_all : String → OperandOrder Ev E W → ℕ
  named_all n [] = 0
  named_all n (ops ∷ order) = named n ops + named_all n order

  -- The outcome of `ExecuteOperands`.
  pub record Executed (errors : Errors E) (order : OperandOrder Ev E W) (s : State Ev E W)
      (out : (CtrlResult × Option E) × State Ev E W) : Type 0 where
    pub calls : List (Call Ev E)
    pub extends : out.1.calls ≡ s.calls ++ calls
    pub gated : Gated order calls
    -- An error is reported where a call failed, and then with a requeue.
    pub failed : is_some out.0.1 ≡ ltb 0 (failures (λ _. true) calls)
    pub not_ready : holds errors.is_not_ready out.0.1 ≡ ltb 0 (failures errors.is_not_ready calls)
    pub at_once : out.0.0.requeue_after ≡ 0
    pub retried : is_some out.0.1 ≡ true → out.0.0 ≡ requeued
    -- Without an error and a requeue every operand of every step was called, once.
    pub finished :
        out.0.1 ≡ none
        → out.0.0.requeue ≡ false
        → (n : String) → calls_of n calls ≡ named_all n order

  module _ {errors : Errors E} (l : IsErrors errors) (call : RunCall Ev E W)
      (unknown : ExecutionStrategy → E) (scheduler : State Ev E W → List ℕ) where
    -- The step is the last that is started.
    Executed-stop :
        (ops : List (Operand Ev E W)) (order : OperandOrder Ev E W) (s : State Ev E W)
        (res : Option CtrlResult) (rerr : Option E) (s' : State Ev E W)
        → Stepped errors ops s ((res, rerr), s')
        → Executed errors (ops ∷ order) s ((requeued, rerr), s')
    Executed-stop ops order s res rerr s' k = record {
      calls = k.mine;
      extends = k.extends;
      gated = (k.mine, [], sym (append-nil k.mine), k.at_most, inl refl);
      failed = k.failed;
      not_ready = k.not_ready;
      at_once = refl;
      retried = λ _. refl;
      finished = λ h g. absurd (ground arith);
    }

    -- The loop goes on to the next step.
    Executed-next :
        (ops : List (Operand Ev E W)) (order : OperandOrder Ev E W) (s : State Ev E W)
        (res : Option CtrlResult) (s' : State Ev E W) (out : (CtrlResult × Option E) × State Ev E W)
        → Stepped errors ops s ((res, none), s')
        → Executed errors order s' out
        → Executed errors (ops ∷ order) s out
    Executed-next ops order s res s' out k x =
        let none_failed : failures (λ _. true) k.mine ≡ 0 = ground (arith, k.failed) in
        let none_not_ready : failures errors.is_not_ready k.mine ≡ 0 =
          ground (arith, k.not_ready) in
        record {
          calls = k.mine ++ x.calls;
          extends =
              x.extends ∙ ap (λ c. c ++ x.calls) k.extends ∙ append_assoc s.calls k.mine x.calls;
          gated = (k.mine, x.calls, refl, k.at_most, inr (none_failed, k.complete refl, x.gated));
          failed =
              x.failed
              ∙ ap (ltb 0) (
                  omega (
                    arith,
                    none_failed,
                    count_if-append (λ (c : Call Ev E). holds (λ _. true) c.reply.error) k.mine
                        x.calls,
                  ));
          not_ready =
              x.not_ready
              ∙ ap (ltb 0) (
                  omega (
                    arith,
                    none_not_ready,
                    count_if-append (λ (c : Call Ev E). holds errors.is_not_ready c.reply.error)
                        k.mine x.calls,
                  ));
          at_once = x.at_once;
          retried = x.retried;
          finished = λ h g n. omega (
            arith,
            k.complete refl n,
            x.finished h g n,
            count_if-append (λ (c : Call Ev E). c.operand == n) k.mine x.calls,
          );
        }

    -- The step is executed as the contract says, and the loop stops or goes on as it must.
    loop-stop_or_next :
        (strategy : ExecutionStrategy) (ops : List (Operand Ev E W)) (order : OperandOrder Ev E W)
        (s : State Ev E W) (res : Option CtrlResult) (rerr : Option E) (s' : State Ev E W)
        → exec_step errors call strategy (scheduler s) ops s ≡ some ((res, rerr), s')
        → Stepped errors ops s ((res, rerr), s')
        → Executed errors order s' (execute_loop errors call unknown strategy scheduler order s')
        → Executed errors
            (ops ∷ order)
            s
            (execute_loop errors call unknown strategy scheduler (ops ∷ order) s)
    loop-stop_or_next strategy ops order s res (some e) s' taken k x =
        subst (Executed errors (ops ∷ order) s) {x = ((requeued, some e), s')}
          (sym (unfold execute_loop in rw (taken, execute_loop)))
          (Executed-stop ops order s res (some e) s' k)
    loop-stop_or_next strategy ops order s none none s' taken k x =
        subst (Executed errors (ops ∷ order) s)
          {x = execute_loop errors call unknown strategy scheduler order s'}
          (sym (unfold execute_loop in rw (taken, execute_loop)))
          (Executed-next ops order s none s' _ k x)
    loop-stop_or_next strategy ops order s (some r) none s' taken k x =
        elim (strategy_cases (step_requeue_strategy ops)) [
          | inl always ↦
              subst (Executed errors (ops ∷ order) s) {x = ((requeued, none), s')}
                (sym (unfold execute_loop in rw (taken, always, execute_loop)))
                (Executed-stop ops order s (some r) none s' k)
          | inr on_error ↦
              subst (Executed errors (ops ∷ order) s)
                {x = execute_loop errors call unknown strategy scheduler order s'}
                (sym (unfold execute_loop in rw (taken, on_error, execute_loop)))
                (Executed-next ops order s (some r) s' _ k x)
        ]

    Executed-nil : (s : State Ev E W) → Executed errors [] s ((zero_result, none), s)
    Executed-nil s = record {
      calls = [];
      extends = sym (append-nil s.calls);
      gated = refl;
      failed = ground arith;
      not_ready = ground arith;
      at_once = refl;
      retried = λ h. absurd (ground arith);
      finished = λ _ _ n. refl;
    }

    serial-Executed :
        (order : OperandOrder Ev E W) (s : State Ev E W)
        → Executed errors order s (execute_loop errors call unknown serial scheduler order s)
    serial-Executed [] s = unfold execute_loop in Executed-nil s
    serial-Executed (ops ∷ order) s =
        let (r, s') = serial_exec errors call ops s in
        loop-stop_or_next serial ops order s r.0 r.1 s' (unfold exec_step in refl)
          (serial_exec-Stepped l call ops s) (serial-Executed order s')

    parallel-Executed :
        (order : OperandOrder Ev E W) (s : State Ev E W)
        → Executed errors order s (execute_loop errors call unknown parallel scheduler order s)
    parallel-Executed [] s = unfold execute_loop in Executed-nil s
    parallel-Executed (ops ∷ order) s =
        let (r, s') = concurrent_exec errors call (scheduler s) ops s in
        loop-stop_or_next parallel ops order s r.0 r.1 s' (unfold exec_step in refl)
          (concurrent_exec-Stepped l call (scheduler s) ops s) (parallel-Executed order s')

    -- With either strategy and under every schedule, and with error values that aggregate as
    -- documented, `ExecuteOperands` calls the operands step by step: an operand is called only after
    -- every operand of the earlier steps was, once and without an error. It reports an error where a
    -- call failed, with a requeue, and otherwise it either requeues or has called every operand of
    -- the order once.
    pub execute_operands-Executed :
        (strategy : ExecutionStrategy)
        → IsKnown strategy
        → (order : OperandOrder Ev E W) (s : State Ev E W)
        → Executed errors order s (execute_operands errors call unknown strategy scheduler order s)
    unfolding execute_operands
    execute_operands-Executed strategy (inl e) order s =
        subst (λ x. Executed errors order s (execute_loop errors call unknown x scheduler order s))
          (sym e) (serial-Executed order s)
    execute_operands-Executed strategy (inr e) order s =
        subst (λ x. Executed errors order s (execute_loop errors call unknown x scheduler order s))
          (sym e) (parallel-Executed order s)
