-- ===== src/Executor/Accounts.antt =====
-- executor.go, `operateWithWaitGroup`: what one move of a goroutine does to the channels, the
-- recorder and the calls.
use operator_toolkit.Prelude.{
  ℕ, ◌+◌, ◌≤◌, String, Bool, true, Option, none, some, List, [], ◌∷◌, ◌++◌, ◌≡◌, if◌then◌else◌,
  refl, arith, count_if, count_if-append, ◌==◌, ltb,
}
use operator_toolkit.Operand.{Errors, Operand, RunCall, holds, is_some}
use operator_toolkit.Executor.{
  CtrlResult, State, Call, Phase, ready, replied, error_sent, event_recorded, finished, Pool,
  advance,
}
use operator_toolkit.Executor.Threads.{next_phase, next_pool}

-- The calls that failed with such an error, and those that returned such an event.
abbrev pub failures : {Ev E : Type 0} → (E → Bool) → List (Call Ev E) → ℕ
failures q calls = count_if (λ c. holds q c.reply.error) calls

abbrev pub changes : {Ev E : Type 0} → (Ev → Bool) → List (Call Ev E) → ℕ
changes r calls = count_if (λ c. holds r c.reply.event) calls

abbrev pub calls_of : {Ev E : Type 0} → String → List (Call Ev E) → ℕ
calls_of n calls = count_if (λ c. c.operand == n) calls

abbrev pub one_if : Bool → ℕ
one_if b = if b then 1 else 0

-- How many operands of a step have the name.
abbrev pub named : {Ev E W : Type 0} → String → List (Operand Ev E W) → ℕ
named n ops = count_if (λ op. op.name == n) ops

-- What a step may rely on, whichever way its operands are called: `mine` are the calls that it makes.
pub record Stepped {Ev E W : Type 0} (errors : Errors E) (ops : List (Operand Ev E W))
    (s : State Ev E W) (out : (Option CtrlResult × Option E) × State Ev E W) : Type 0 where
  pub mine : List (Call Ev E)
  pub extends : out.1.calls ≡ s.calls ++ mine
  -- An error is reported where a call failed, and is a not-ready error where one of theirs was.
  pub failed : is_some out.0.1 ≡ ltb 0 (failures (λ _. true) mine)
  pub not_ready : holds errors.is_not_ready out.0.1 ≡ ltb 0 (failures errors.is_not_ready mine)
  -- No operand is called twice, and where no error is reported none is left out.
  pub at_most : (n : String) → calls_of n mine ≤ named n ops
  pub complete : out.0.1 ≡ none → (n : String) → calls_of n mine ≡ named n ops
  -- Where no error is reported, a result is reported where an event came, and each was broadcast.
  pub changed : out.0.1 ≡ none → is_some out.0.0 ≡ ltb 0 (changes (λ _. true) mine)
  pub broadcast :
      out.0.1 ≡ none
      → (r : Ev → Bool) → count_if r out.1.recorded ≡ count_if r s.recorded + changes r mine

module _ {Ev E W : Type 0} where
  abbrev pub owed_error : (E → Bool) → Operand Ev E W → Phase Ev E → ℕ
  owed_error q op (replied event error) = one_if (holds q error)
  owed_error q op _ = 0

  abbrev pub owed_event : (Ev → Bool) → Operand Ev E W → Phase Ev E → ℕ
  owed_event r op (replied event error) = one_if (holds r event)
  owed_event r op (error_sent event) = one_if (holds r event)
  owed_event r op _ = 0

  abbrev pub owed_result : Operand Ev E W → Phase Ev E → ℕ
  owed_result op (replied event error) = one_if (is_some event)
  owed_result op (error_sent event) = one_if (is_some event)
  owed_result op event_recorded = 1
  owed_result op _ = 0

  abbrev pub owed_call : String → Operand Ev E W → Phase Ev E → ℕ
  owed_call n op ready = one_if (op.name == n)
  owed_call n op _ = 0

  module _ (call : RunCall Ev E W) where
    pub error_fair :
        (q : E → Bool) (op : Operand Ev E W) (phase : Phase Ev E) (p : Pool Ev E W)
        → count_if q (next_pool call op phase p).err_chan
            + owed_error q op (next_phase call op phase p)
            + failures q p.state.calls
          ≡ count_if q p.err_chan
            + owed_error q op phase
            + failures q (next_pool call op phase p).state.calls
    unfolding advance
    error_fair q op ready p = ground (
      arith,
      count_if-append (λ c. holds q c.reply.error) p.state.calls
          (record { operand = op.name; reply = (call op p.state.world).0 } ∷ []),
    )
    error_fair q op (replied event (some e)) p =
        ground (arith, count_if-append q p.err_chan (e ∷ []))
    error_fair q op (replied event none) p = refl
    error_fair q op (error_sent none) p = refl
    error_fair q op (error_sent (some ev)) p = refl
    error_fair q op event_recorded p = refl
    error_fair q op finished p = refl

    pub event_fair :
        (r : Ev → Bool) (op : Operand Ev E W) (phase : Phase Ev E) (p : Pool Ev E W)
        → count_if r (next_pool call op phase p).state.recorded
            + owed_event r op (next_phase call op phase p)
            + changes r p.state.calls
          ≡ count_if r p.state.recorded
            + owed_event r op phase
            + changes r (next_pool call op phase p).state.calls
    unfolding advance
    event_fair r op ready p = ground (
      arith,
      count_if-append (λ c. holds r c.reply.event) p.state.calls
          (record { operand = op.name; reply = (call op p.state.world).0 } ∷ []),
    )
    event_fair r op (replied event (some e)) p = refl
    event_fair r op (replied event none) p = refl
    event_fair r op (error_sent none) p = refl
    event_fair r op (error_sent (some ev)) p =
        ground (arith, count_if-append r p.state.recorded (ev ∷ []))
    event_fair r op event_recorded p = refl
    event_fair r op finished p = refl

    pub result_fair :
        (op : Operand Ev E W) (phase : Phase Ev E) (p : Pool Ev E W)
        → (next_pool call op phase p).result_chan
            + owed_result op (next_phase call op phase p)
            + changes (λ _. true) p.state.calls
          ≡ p.result_chan
            + owed_result op phase
            + changes (λ _. true) (next_pool call op phase p).state.calls
    unfolding advance
    result_fair op ready p = ground (
      arith,
      count_if-append (λ c. holds (λ _. true) c.reply.event) p.state.calls
          (record { operand = op.name; reply = (call op p.state.world).0 } ∷ []),
    )
    result_fair op (replied event (some e)) p = refl
    result_fair op (replied event none) p = refl
    result_fair op (error_sent none) p = refl
    result_fair op (error_sent (some ev)) p = refl
    result_fair op event_recorded p = omega arith
    result_fair op finished p = refl

    pub call_fair :
        (n : String) (op : Operand Ev E W) (phase : Phase Ev E) (p : Pool Ev E W)
        → calls_of n (next_pool call op phase p).state.calls
            + owed_call n op (next_phase call op phase p)
            + 0
          ≡ calls_of n p.state.calls + owed_call n op phase + 0
    unfolding advance
    call_fair n op ready p = ground (
      arith,
      count_if-append (λ c. c.operand == n) p.state.calls
          (record { operand = op.name; reply = (call op p.state.world).0 } ∷ []),
    )
    call_fair n op (replied event (some e)) p = refl
    call_fair n op (replied event none) p = refl
    call_fair n op (error_sent none) p = refl
    call_fair n op (error_sent (some ev)) p = refl
    call_fair n op event_recorded p = refl
    call_fair n op finished p = refl
