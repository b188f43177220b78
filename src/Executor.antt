-- ===== src/Executor.antt =====
-- operator/v1/executor/executor.go: the operands of each step are called in series, or by goroutines
-- whose moves interleave as a schedule says.
pub mod Serial
pub mod Threads
pub mod Accounts
pub mod Concurrent
pub mod Gate
use operator_toolkit.Prelude.{
  ℕ, zero, suc, ◌+◌, String, Bool, true, false, Option, none, some, List, [], ◌∷◌, ◌++◌, ◌≡◌,
  if◌then◌else◌, map,
}
use operator_toolkit.Operand.{
  Errors, Reply, Operand, OperandOrder, RunCall, RequeueStrategy, requeue_on_error, requeue_always,
  step_requeue_strategy, is_some,
}

pub data ExecutionStrategy : Type 0 where
  parallel serial : ExecutionStrategy
  other : ℕ → ExecutionStrategy

-- `ctrl.Result`, its period in nanoseconds.
pub record CtrlResult : Type 0 where
  pub requeue : Bool
  pub requeue_after : ℕ

abbrev pub zero_result : CtrlResult
zero_result = record { requeue = false; requeue_after = 0 }

abbrev pub requeued : CtrlResult
requeued = record { requeue = true; requeue_after = 0 }

-- A call that an operand answered.
pub record Call (Ev E : Type 0) : Type 0 where
  pub operand : String
  pub reply : Reply Ev E

-- The world, the events that the recorder has broadcast, and the calls so far, which only the
-- theorems read.
pub record State (Ev E W : Type 0) : Type 0 where
  pub world : W
  pub recorded : List Ev
  pub calls : List (Call Ev E)

module _ {Ev E W : Type 0} where
  -- `event.Record(exe.recorder)`, where there is an event.
  abbrev pub record_event : Option Ev → State Ev E W → State Ev E W
  record_event none s = s
  record_event (some ev) s = record s { recorded = s.recorded ++ (ev ∷ []) }

  -- `call(op)(ctx, obj, ownerRef)`
  abbrev pub call_operand :
      RunCall Ev E W → Operand Ev E W → State Ev E W → Reply Ev E × State Ev E W
  call_operand call op s =
      let (reply, w) = call op s.world in
      (
        reply,
        record s {
          world = w;
          calls = s.calls ++ (record { operand = op.name; reply = reply } ∷ []);
        },
      )

  module _ (errors : Errors E) (call : RunCall Ev E W) where
    -- The loop of `serialExec`, from the operands that are left and the result so far.
    unfoldable pub serial_loop :
        List (Operand Ev E W)
        → Option CtrlResult
        → State Ev E W
        → (Option CtrlResult × Option E) × State Ev E W
    serial_loop [] result s = ((result, none), s)
    serial_loop (op ∷ ops) result s =
        let (reply, s') = call_operand call op s in
        elim reply.error [
          | some e ↦ ((result, errors.new_aggregate none (some e)), s')
          | none ↦ elim reply.event [
            | none ↦ serial_loop ops result s'
            | some ev ↦ serial_loop ops (some zero_result) (record_event (some ev) s')
          ]
        ]

    unfoldable pub serial_exec :
        List (Operand Ev E W) → State Ev E W → (Option CtrlResult × Option E) × State Ev E W
    unfolding serial_loop
    serial_exec ops s = serial_loop ops none s

-- Where a goroutine of `operateWithWaitGroup` stands: before its call, and with the call's reply
-- before the send of the error, the broadcast of the event, the send of the result, and `Done`.
pub data Phase (Ev E : Type 0) : Type 0 where
  ready : Phase Ev E
  replied : Option Ev → Option E → Phase Ev E
  error_sent : Option Ev → Phase Ev E
  event_recorded : Phase Ev E
  finished : Phase Ev E

pub record Thread (Ev E W : Type 0) : Type 0 where
  pub operand : Operand Ev E W
  pub phase : Phase Ev E

-- What the goroutines share: the state, `errChan`, and the number of results in `resultChan`.
pub record Pool (Ev E W : Type 0) : Type 0 where
  pub state : State Ev E W
  pub err_chan : List E
  pub result_chan : ℕ

-- `rerr = kerrors.NewAggregate([]error{rerr, err})` for each error in the channel.
unfoldable pub collect : {E : Type 0} → Errors E → Option E → List E → Option E
collect errors rerr [] = rerr
collect errors rerr (e ∷ es) = collect errors (errors.new_aggregate rerr (some e)) es

module _ {Ev E W : Type 0} where
  module _ (call : RunCall Ev E W) where
    -- One move of a goroutine.
    unfoldable pub advance : Operand Ev E W → Phase Ev E → Pool Ev E W → Phase Ev E × Pool Ev E W
    advance op ready p =
        let (reply, s) = call_operand call op p.state in
        (replied reply.event reply.error, record p { state = s })
    advance op (replied event (some e)) p =
        (error_sent event, record p { err_chan = p.err_chan ++ (e ∷ []) })
    advance op (replied event none) p = (error_sent event, p)
    advance op (error_sent (some ev)) p =
        (event_recorded, record p { state = record_event (some ev) p.state })
    advance op (error_sent none) p = (finished, p)
    advance op event_recorded p = (finished, record p { result_chan = p.result_chan + 1 })
    advance op finished p = (finished, p)

    -- The scheduler lets the goroutine number `i` make a move.
    unfoldable pub move :
        ℕ → List (Thread Ev E W) → Pool Ev E W → List (Thread Ev E W) × Pool Ev E W
    unfolding advance
    move i [] p = ([], p)
    move zero (t ∷ ts) p =
        let (phase, p') = advance t.operand t.phase p in (record t { phase = phase } ∷ ts, p')
    move (suc i) (t ∷ ts) p = let (ts', p') = move i ts p in (t ∷ ts', p')

    unfoldable pub run_schedule :
        List ℕ → List (Thread Ev E W) → Pool Ev E W → List (Thread Ev E W) × Pool Ev E W
    unfolding move
    run_schedule [] ts p = (ts, p)
    run_schedule (i ∷ is) ts p = let (ts', p') = move i ts p in run_schedule is ts' p'

    -- `wg.Wait()`: each goroutine makes the moves that it has left.
    unfoldable pub complete : Operand Ev E W → Phase Ev E → Pool Ev E W → Pool Ev E W
    unfolding advance
    complete op phase p =
        let (f1, p1) = advance op phase p in
        let (f2, p2) = advance op f1 p1 in let (f3, p3) = advance op f2 p2 in (advance op f3 p3).1

    unfoldable pub wait : List (Thread Ev E W) → Pool Ev E W → Pool Ev E W
    unfolding complete
    wait [] p = p
    wait (t ∷ ts) p = wait ts (complete t.operand t.phase p)

  abbrev pub spawn : List (Operand Ev E W) → List (Thread Ev E W)
  spawn ops = map (λ op. record { operand = op; phase = ready }) ops

  abbrev pub open_pool : State Ev E W → Pool Ev E W
  open_pool s = record { state = s; err_chan = []; result_chan = 0 }

  module _ (call : RunCall Ev E W) where
    -- The goroutines' moves under a schedule, up to the end of `wg.Wait()`.
    unfoldable pub concurrent_pool : List ℕ → List (Operand Ev E W) → State Ev E W → Pool Ev E W
    unfolding run_schedule wait
    concurrent_pool schedule ops s =
        let (ts, p) = run_schedule call schedule (spawn ops) (open_pool s) in wait call ts p

  module _ (errors : Errors E) (call : RunCall Ev E W) where
    -- `concurrentExec` under a schedule of the goroutines' moves.
    unfoldable pub concurrent_exec :
        List ℕ
        → List (Operand Ev E W)
        → State Ev E W
        → (Option CtrlResult × Option E) × State Ev E W
    unfolding concurrent_pool collect
    concurrent_exec schedule ops s =
        let p = concurrent_pool call schedule ops s in
        let result : Option CtrlResult = elim p.result_chan [
          | zero ↦ none
          | suc n ↦ some zero_result
        ] in
        ((result, collect errors none p.err_chan), p.state)

    -- The switch over the strategy; `none` is the unknown strategy.
    unfoldable pub exec_step :
        ExecutionStrategy
        → List ℕ
        → List (Operand Ev E W)
        → State Ev E W
        → Option ((Option CtrlResult × Option E) × State Ev E W)
    unfolding serial_exec concurrent_exec
    exec_step serial schedule ops s = some (serial_exec errors call ops s)
    exec_step parallel schedule ops s = some (concurrent_exec schedule ops s)
    exec_step (other n) schedule ops s = none

    -- The loop of `ExecuteOperands`. The scheduler picks a schedule for each step from the state.
    unfoldable pub execute_loop :
        (unknown : ExecutionStrategy → E)
        → ExecutionStrategy
        → (State Ev E W → List ℕ)
        → OperandOrder Ev E W
        → State Ev E W
        → (CtrlResult × Option E) × State Ev E W
    unfolding exec_step
    execute_loop unknown strategy scheduler [] s = ((zero_result, none), s)
    execute_loop unknown strategy scheduler (ops ∷ order) s =
        elim (exec_step strategy (scheduler s) ops s) [
          | none ↦ ((zero_result, some (unknown strategy)), s)
          | some ((res, some e), s') ↦ ((requeued, some e), s')
          | some ((none, none), s') ↦ execute_loop unknown strategy scheduler order s'
          | some ((some r, none), s') ↦ elim (step_requeue_strategy ops) [
            | requeue_always ↦ ((requeued, none), s')
            | requeue_on_error ↦ execute_loop unknown strategy scheduler order s'
          ]
        ]

    unfoldable pub execute_operands :
        (unknown : ExecutionStrategy → E)
        → ExecutionStrategy
        → (State Ev E W → List ℕ)
        → OperandOrder Ev E W
        → State Ev E W
        → (CtrlResult × Option E) × State Ev E W
    unfolding execute_loop
    execute_operands unknown strategy scheduler order s =
        execute_loop unknown strategy scheduler order s
