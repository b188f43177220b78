-- ===== src/Operator/Samples.antt =====
-- Operands over a counter, and runs of the executor and of the composite operator on them.
use operator_toolkit.Prelude.{
  ℕ, zero, suc, ◌+◌, String, Bool, true, false, ◌||◌, List, [], ◌∷◌, Option, none, some, ◌≡◌, ◌≢◌,
  refl, arith, inl, inr, get_elem?, if◌then◌else◌, ltb,
}
use operator_toolkit.Operand.{
  requeue_on_error, is_some, holds, Errors, IsErrors, Operand, OperandOrder, call_post_ready,
  call_ready_check, call_ensure, call_cleanup, step_requeue_strategy,
}
use operator_toolkit.Operand.Calls.{call_ensure-succeeds}
use operator_toolkit.Operand.Reverse.{reverse_order, reverse_order-rows}
use operator_toolkit.Executor.{
  ExecutionStrategy, parallel, serial, State, Call, serial_loop, serial_exec, exec_step,
  execute_loop, execute_operands, concurrent_exec, concurrent_pool, collect, run_schedule, move,
  advance, wait, complete,
}
use operator_toolkit.Executor.Accounts.{Stepped, failures, calls_of, named}
use operator_toolkit.Executor.Serial.{serial_exec-Stepped}
use operator_toolkit.Executor.Concurrent.{concurrent_exec-Stepped}
use operator_toolkit.Executor.Gate.{Executed, Gated, named_all, execute_operands-Executed}
use operator_toolkit.Operator.{
  CompositeOperator, default_retry_period, default_is_suspended, ensure_result, ensure_all,
  cleanup_all,
}
use operator_toolkit.Operator.Ensure.{
  ensure_all-reports, cleanup_all-Executed, cleanup_all-skips_middle,
}

-- An error is known by whether it is a not-ready error.
abbrev combined : Option Bool → Option Bool → Option Bool
combined none b = b
combined (some a) none = some a
combined (some a) (some b) = some (a || b)

abbrev flags : Errors Bool
flags = record { new_aggregate = combined; not_ready = λ n. true; is_not_ready = λ e. e }

combined_some : (a b : Option Bool) → is_some (combined a b) ≡ (is_some a || is_some b)
combined_some none b = refl
combined_some (some x) none = refl
combined_some (some x) (some y) = refl

combined_is :
    (a b : Option Bool) → holds (λ e. e) (combined a b) ≡ (holds (λ e. e) a || holds (λ e. e) b)
combined_is none b = refl
combined_is (some x) none = ground arith
combined_is (some x) (some y) = refl

flags-IsErrors : IsErrors flags
flags-IsErrors = record {
  aggregate_some = combined_some;
  aggregate_is = combined_is;
  not_ready_is = λ n. refl;
}

-- An operand that counts its changes, is ready or not, and fails to change where the counter is full.
abbrev counting : String → Bool → ℕ → Operand String Bool ℕ
counting n is_ready full = record {
  name = n;
  requires = [];
  ensure = λ w.
      if ltb w full
      then (record { event = some n; error = none }, w + 1)
      else (record { event = none; error = some false }, w);
  delete = λ w. (record { event = some n; error = none }, w + 1);
  requeue_strategy = requeue_on_error;
  ready_check = λ w. ((is_ready, none), w);
  post_ready = λ w. (none, w);
}

abbrev rows : OperandOrder String Bool ℕ
rows =
    (counting "a" true 9 ∷ [])
    ∷ (counting "b" true 9 ∷ counting "c" false 9 ∷ [])
    ∷ (counting "d" true 9 ∷ [])
    ∷ []

abbrev start : State String Bool ℕ
start = record { world = 0; recorded = []; calls = [] }

abbrev operator : ExecutionStrategy → CompositeOperator String Bool ℕ
operator strategy = record {
  operands = [];
  is_suspended = default_is_suspended;
  order = rows;
  execution_strategy = strategy;
  has_recorder = true;
  retry_period = default_retry_period;
}

-- Each goroutine in turn, from the second on.
abbrev backwards : State String Bool ℕ → List ℕ
backwards s = 1 ∷ 0 ∷ 1 ∷ 0 ∷ []

abbrev unknown : ExecutionStrategy → Bool
unknown strategy = false

-- `c` is not ready, so `d` is not called, and the retry comes after the retry period.
not_ready_run :
    (ensure_all flags unknown backwards (operator parallel) start).0
    ≡ (record { requeue = true; requeue_after = default_retry_period }, none)
unfolding ensure_all ensure_result execute_operands execute_loop exec_step concurrent_exec
    concurrent_pool collect run_schedule move advance wait complete call_ensure call_ready_check
    call_post_ready step_requeue_strategy
not_ready_run = refl

-- A cleanup of three steps calls the operands of the last and of the first.
cleanup_run :
    (cleanup_all flags unknown backwards (operator serial) start).1.recorded ≡ "d" ∷ "a" ∷ []
unfolding cleanup_all execute_operands execute_loop exec_step serial_exec serial_loop call_cleanup
    step_requeue_strategy reverse_order
cleanup_run = refl

ensured : (call_ensure flags (counting "a" true 9) 0).0.event ≡ some "a"
unfolding call_ensure call_ready_check call_post_ready
ensured = (call_ensure-succeeds flags (counting "a" true 9) 0 refl).4

reverse_order-rows_example : get_elem? {A = ℕ} (reverse_order 0 (1 ∷ 2 ∷ 3 ∷ [])) 1 ≡ some 0
reverse_order-rows_example = reverse_order-rows 0 (1 ∷ 2 ∷ 3 ∷ []) 1 (omega arith)

concurrent_exec-Stepped_example :
    Stepped flags (counting "b" true 9 ∷ counting "c" false 9 ∷ []) start (
      concurrent_exec flags
        (call_ensure flags)
        (backwards start)
        (counting "b" true 9 ∷ counting "c" false 9 ∷ [])
        start)
concurrent_exec-Stepped_example =
    concurrent_exec-Stepped flags-IsErrors (call_ensure flags) (backwards start)
      (counting "b" true 9 ∷ counting "c" false 9 ∷ []) start

serial_exec-Stepped_example :
    Stepped flags (counting "b" true 9 ∷ counting "c" false 9 ∷ []) start (
      serial_exec flags (call_ensure flags) (counting "b" true 9 ∷ counting "c" false 9 ∷ []) start)
serial_exec-Stepped_example =
    serial_exec-Stepped flags-IsErrors (call_ensure flags)
      (counting "b" true 9 ∷ counting "c" false 9 ∷ []) start

execute_operands-Executed_example :
    Executed flags rows start
      (execute_operands flags (call_ensure flags) unknown parallel backwards rows start)
execute_operands-Executed_example =
    execute_operands-Executed flags-IsErrors (call_ensure flags) unknown backwards parallel
      (inr refl) rows start

ensure_all-reports_example :
    (calls : List (Call String Bool)) × ((ensure_all flags unknown backwards
        (operator parallel)
        start).1.calls
      ≡ calls)
    × Gated rows calls
    × (is_some (ensure_all flags unknown backwards (operator parallel) start).0.1
        ≡ (if ltb 0 (failures (λ e. e) calls) then false else ltb 0 (failures (λ _. true) calls)))
    × ((ensure_all flags unknown backwards (operator parallel) start).0.0.requeue_after
        ≡ (if ltb 0 (failures (λ e. e) calls) then default_retry_period else 0))
    × ((ensure_all flags unknown backwards (operator parallel) start).0.1 ≡ none
        → (ensure_all flags unknown backwards (operator parallel) start).0.0.requeue ≡ false
        → (n : String) → calls_of n calls ≡ named_all n rows)
ensure_all-reports_example =
    ensure_all-reports flags-IsErrors unknown backwards (operator parallel) (inr refl) start refl

cleanup_all-Executed_example :
    Executed flags
      (reverse_order [] rows)
      start
      (cleanup_all flags unknown backwards (operator serial) start)
cleanup_all-Executed_example =
    cleanup_all-Executed flags-IsErrors unknown backwards (operator serial) (inl refl) start refl

b_in_the_middle :
    (j : ℕ) (row : List (Operand String Bool ℕ))
    → get_elem? rows j ≡ some row
    → j ≢ 1
    → named "b" row ≡ 0
b_in_the_middle zero row e other = ground (arith, e)
b_in_the_middle (suc zero) row e other = absurd (other refl)
b_in_the_middle (suc (suc zero)) row e other = ground (arith, e)
b_in_the_middle (suc (suc (suc j))) row e other = ground (arith, e)

cleanup_all-skips_middle_example :
    calls_of "b" (cleanup_all flags unknown backwards (operator serial) start).1.calls ≡ 0
cleanup_all-skips_middle_example =
    cleanup_all-skips_middle flags-IsErrors unknown backwards (operator serial) (inl refl) start
      refl "b" 1 refl b_in_the_middle
