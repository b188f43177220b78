-- ===== src/Operator/Ensure.antt =====
-- operator/v1/composite_operator.go: what `Ensure` and `Cleanup` report, and what they call.
use operator_toolkit.Prelude.{
  ℕ, zero, suc, ◌+◌, ◌≤◌, String, true, false, Option, none, some, List, [], ◌∷◌, ◌++◌, ◌≡◌, ◌≢◌,
  if◌then◌else◌, refl, sym, ap, ◌∙◌, arith, ltb, nat_eq, length, get_elem?, count_if-append, ◌==◌,
  ◌<◌, ◌-◌, Bool-cases, inl, inr,
}
use operator_toolkit.Operand.{
  Errors, IsErrors, Operand, OperandOrder, call_ensure, call_cleanup, holds, is_some,
}
use operator_toolkit.Operand.Reverse.{reverse_order, reverse_order-rows, length-reverse_order}
use operator_toolkit.Executor.{ExecutionStrategy, CtrlResult, State, Call, execute_operands}
use operator_toolkit.Executor.Accounts.{failures, calls_of, named}
use operator_toolkit.Executor.Gate.{Gated, Executed, IsKnown, named_all, execute_operands-Executed}
use operator_toolkit.Operator.{CompositeOperator, ensure_result, ensure_all, cleanup_all}

module _ {Ev E W : Type 0} (n : String) where
  calls_of-Gated :
      (order : OperandOrder Ev E W) (calls : List (Call Ev E))
      → Gated order calls
      → calls_of n calls ≤ named_all n order
  calls_of-Gated [] calls e = rw e (omega arith)
  calls_of-Gated (ops ∷ order) calls (mine, rest, e, most, inl last) = omega (
    arith,
    most n,
    ap (calls_of n) e,
    ap (calls_of n) last,
    count_if-append (λ (c : Call Ev E). c.operand == n) mine rest,
  )
  calls_of-Gated (ops ∷ order) calls (mine, rest, e, most, inr (_, _, later)) = omega (
    arith,
    most n,
    ap (calls_of n) e,
    calls_of-Gated order rest later,
    count_if-append (λ (c : Call Ev E). c.operand == n) mine rest,
  )

  named_all-zero :
      (order : OperandOrder Ev E W)
      → ((j : ℕ) (row : List (Operand Ev E W)) → get_elem? order j ≡ some row → named n row ≡ 0)
      → named_all n order ≡ 0
  named_all-zero [] h = refl
  named_all-zero (ops ∷ order) h =
      omega (arith, h 0 ops refl, named_all-zero order (λ j row e. h (suc j) row e))

get_elem?-lt : {A : Type 0} (xs : List A) (i : ℕ) (a : A) → get_elem? xs i ≡ some a → i < length xs
get_elem?-lt [] i a e = absurd (ground arith)
get_elem?-lt (x ∷ xs) zero a e = omega arith
get_elem?-lt (x ∷ xs) (suc i) a e = omega (arith, get_elem?-lt xs i a e)

module _ {Ev E W : Type 0} (errors : Errors E) (co : CompositeOperator Ev E W) where
  ensure_result-error :
      (r : CtrlResult × Option E)
      → is_some (ensure_result errors co r).1
        ≡ (if holds errors.is_not_ready r.1 then false else is_some r.1)
  unfolding ensure_result
  ensure_result-error (res, none) = refl
  ensure_result-error (res, some e) = ground arith

  ensure_result-after :
      (r : CtrlResult × Option E)
      → r.0.requeue_after ≡ 0
      → (ensure_result errors co r).0.requeue_after
        ≡ (if holds errors.is_not_ready r.1 then co.retry_period else 0)
  unfolding ensure_result
  ensure_result-after (res, none) h = h
  ensure_result-after (res, some e) h = ground arith

  -- Without an error and a requeue of `Ensure` there was none of the executor.
  ensure_result-through :
      (r : CtrlResult × Option E)
      → (ensure_result errors co r).1 ≡ none
      → (ensure_result errors co r).0.requeue ≡ false
      → (r.1 ≡ none) × (r.0.requeue ≡ false)
  unfolding ensure_result
  ensure_result-through (res, none) h g = (refl, g)
  ensure_result-through (res, some e) h g = absurd (ground (arith, h, g))

module _ {Ev E W : Type 0} {errors : Errors E} (l : IsErrors errors)
    (unknown : ExecutionStrategy → E) (scheduler : State Ev E W → List ℕ)
    (co : CompositeOperator Ev E W) (known : IsKnown co.execution_strategy) (s : State Ev E W)
    (active : co.is_suspended s.world ≡ false) where
  -- `Ensure` of an operator that is not suspended, and has a known strategy, over error values that
  -- aggregate as documented, calls operands in the order of its steps, none before those of the
  -- earlier steps succeeded. Where a call failed since its operand was not ready, it reports no error,
  -- whatever else failed, and asks for a retry after the retry period; where calls failed, but none
  -- for that reason, it reports an error and sets no period. Where it reports no error and asks for no
  -- requeue, it has called every operand of every step, once.
  pub ensure_all-reports :
      (calls : List (Call Ev E)) × ((ensure_all errors unknown scheduler co s).1.calls
        ≡ s.calls ++ calls)
      × Gated co.order calls
      × (is_some (ensure_all errors unknown scheduler co s).0.1 ≡ (
          if ltb 0 (failures errors.is_not_ready calls)
          then false
          else ltb 0 (failures (λ _. true) calls)))
      × ((ensure_all errors unknown scheduler co s).0.0.requeue_after
          ≡ (if ltb 0 (failures errors.is_not_ready calls) then co.retry_period else 0))
      × ((ensure_all errors unknown scheduler co s).0.1 ≡ none
          → (ensure_all errors unknown scheduler co s).0.0.requeue ≡ false
          → (n : String) → calls_of n calls ≡ named_all n co.order)
  unfolding ensure_all
  ensure_all-reports =
      let out =
        execute_operands errors (call_ensure errors) unknown co.execution_strategy scheduler
          co.order s in
      let x =
        execute_operands-Executed l (call_ensure errors) unknown scheduler co.execution_strategy
          known co.order s in
      (
        x.calls,
        rw active x.extends,
        x.gated,
        rw active (ensure_result-error errors co out.0 ∙ rw (x.not_ready, x.failed)),
        rw active (ensure_result-after errors co out.0 x.at_once ∙ rw x.not_ready),
        rw active (λ h g.
            let (no_error, no_requeue) = ensure_result-through errors co out.0 h g in
            x.finished no_error no_requeue),
      )

  -- `Cleanup` of an operator that is not suspended, and has a known strategy, goes through the
  -- reversed order step by step, no step before the earlier ones succeeded. It reports an error
  -- where a call failed; where it reports none and asks for no requeue, it has called every operand
  -- of the steps of the reversed order, once.
  pub cleanup_all-Executed :
      Executed errors (reverse_order [] co.order) s (cleanup_all errors unknown scheduler co s)
  unfolding cleanup_all
  cleanup_all-Executed = rw active (
      execute_operands-Executed l call_cleanup unknown scheduler co.execution_strategy known
        (reverse_order [] co.order) s)

  reversed_row :
      (n : String) (i : ℕ)
      → i + i + 1 ≡ length co.order
      → ((j : ℕ) (row : List (Operand Ev E W))
          → get_elem? co.order j ≡ some row
          → j ≢ i
          → named n row ≡ 0)
      → (j : ℕ) (row : List (Operand Ev E W)) → get_elem? (reverse_order [] co.order) j ≡ some row
      → named n row ≡ 0
  reversed_row n i middle elsewhere j row at =
      let lt : j < length co.order = omega (
        arith,
        length-reverse_order [] co.order,
        get_elem?-lt (reverse_order [] co.order) j row at,
      ) in
      let from = sym (reverse_order-rows [] co.order j lt) ∙ at in
      elim (Bool-cases (nat_eq (j + j + 1) (length co.order))) [
        | inl same ↦ ground arith
        | inr other ↦
            elsewhere (length co.order - 1 - j) row (ground arith) (λ e. absurd (ground arith))
      ]

  -- An order of an odd number of steps has a step in the middle, and `Cleanup` of an operator that
  -- is not suspended, and has a known strategy, calls no operand whose name stands in that step
  -- alone.
  pub cleanup_all-skips_middle :
      (n : String) (i : ℕ)
      → i + i + 1 ≡ length co.order
      → ((j : ℕ) (row : List (Operand Ev E W))
          → get_elem? co.order j ≡ some row
          → j ≢ i
          → named n row ≡ 0)
      → calls_of n (cleanup_all errors unknown scheduler co s).1.calls ≡ calls_of n s.calls
  cleanup_all-skips_middle n i middle elsewhere =
      let x = cleanup_all-Executed in
      omega (
        arith,
        ap (calls_of n) x.extends,
        count_if-append (λ (c : Call Ev E). c.operand == n) s.calls x.calls,
        calls_of-Gated n (reverse_order [] co.order) x.calls x.gated,
        named_all-zero n (reverse_order [] co.order) (reversed_row n i middle elsewhere),
      )
