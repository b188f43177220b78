-- ===== src/Executor/Serial.antt =====
-- executor.go, `serialExec`: the operands of a step in series, up to the first error.
use operator_toolkit.Prelude.{
  ◌+◌, ◌≤◌, String, Bool, true, Option, none, some, List, [], ◌∷◌, ◌++◌, ◌≡◌, refl, sym, ap, subst,
  ◌∙◌, arith, count_if, count_if-append, ◌||◌, ltb, append-nil, append_assoc, Option-cases, inl,
  inr,
}
use operator_toolkit.Operand.{Errors, IsErrors, Operand, RunCall, holds, is_some}
use operator_toolkit.Executor.{
  State, Call, CtrlResult, zero_result, serial_loop, serial_exec, call_operand, record_event,
}
use operator_toolkit.Executor.Accounts.{Stepped, failures, changes, calls_of, named, one_if}

module _ {Ev E W : Type 0} {errors : Errors E} (l : IsErrors errors) (call : RunCall Ev E W) where
  -- As `Stepped`, from the result so far.
  record Looped (result : Option CtrlResult) (ops : List (Operand Ev E W)) (s : State Ev E W)
      (out : (Option CtrlResult × Option E) × State Ev E W) : Type 0 where
    mine : List (Call Ev E)
    extends : out.1.calls ≡ s.calls ++ mine
    failed : is_some out.0.1 ≡ ltb 0 (failures (λ _. true) mine)
    not_ready : holds errors.is_not_ready out.0.1 ≡ ltb 0 (failures errors.is_not_ready mine)
    at_most : (n : String) → calls_of n mine ≤ named n ops
    complete : out.0.1 ≡ none → (n : String) → calls_of n mine ≡ named n ops
    changed :
        out.0.1 ≡ none → is_some out.0.0 ≡ (is_some result || ltb 0 (changes (λ _. true) mine))
    broadcast :
        out.0.1 ≡ none
        → (r : Ev → Bool) → count_if r out.1.recorded ≡ count_if r s.recorded + changes r mine

  -- A call without an error, and then the rest of the loop.
  Looped-next :
      (op : Operand Ev E W) (ops : List (Operand Ev E W)) (c : Call Ev E)
      (result result' : Option CtrlResult) (s s' : State Ev E W)
      (out : (Option CtrlResult × Option E) × State Ev E W)
      → c.operand ≡ op.name
      → c.reply.error ≡ none
      → s'.calls ≡ s.calls ++ (c ∷ [])
      → is_some result' ≡ (is_some result || is_some c.reply.event)
      → ((r : Ev → Bool)
          → count_if r s'.recorded ≡ count_if r s.recorded + one_if (holds r c.reply.event))
      → Looped result' ops s' out
      → Looped result (op ∷ ops) s out
  Looped-next op ops c result result' s s' out same fine grew came told k = record {
    mine = c ∷ k.mine;
    extends = k.extends ∙ ap (λ calls. calls ++ k.mine) grew ∙ append_assoc s.calls (c ∷ []) k.mine;
    failed = ground (arith, k.failed);
    not_ready = ground (arith, k.not_ready);
    at_most = λ n. ground (arith, k.at_most n);
    complete = λ h n. ground (arith, k.complete h n);
    changed = λ h. ground (arith, k.changed h);
    broadcast = λ h r. ground (arith, k.broadcast h r, told r);
  }

  Looped-error :
      (op : Operand Ev E W) (ops : List (Operand Ev E W)) (c : Call Ev E) (e : E)
      (result : Option CtrlResult) (s s' : State Ev E W)
      → c.operand ≡ op.name
      → c.reply.error ≡ some e
      → s'.calls ≡ s.calls ++ (c ∷ [])
      → Looped result (op ∷ ops) s ((result, errors.new_aggregate none (some e)), s')
  Looped-error op ops c e result s s' same failed grew =
      let reported : is_some (errors.new_aggregate none (some e)) ≡ true =
        l.aggregate_some none (some e) in
      record {
        mine = c ∷ [];
        extends = grew;
        failed = ground arith;
        not_ready = ground (arith, l.aggregate_is none (some e));
        at_most = λ n. ground arith;
        complete = λ h. absurd (ground arith);
        changed = λ h. absurd (ground arith);
        broadcast = λ h. absurd (ground arith);
      }

  serial_loop-Looped :
      (ops : List (Operand Ev E W)) (result : Option CtrlResult) (s : State Ev E W)
      → Looped result ops s (serial_loop errors call ops result s)
  unfolding serial_loop
  serial_loop-Looped [] result s = record {
    mine = [];
    extends = sym (append-nil s.calls);
    failed = ground arith;
    not_ready = ground arith;
    at_most = λ n. omega arith;
    complete = λ _ n. refl;
    changed = λ _. ground arith;
    broadcast = λ _ r. omega arith;
  }
  serial_loop-Looped (op ∷ ops) result s =
      let c : Call Ev E = record { operand = op.name; reply = (call op s.world).0 } in
      let s' = (call_operand call op s).1 in
      elim (Option-cases c.reply.error) [
        | inr (e, bad) ↦
            subst (Looped result (op ∷ ops) s) (sym (unfold serial_loop in ground arith))
              (Looped-error op ops c e result s s' refl bad refl)
        | inl fine ↦ elim (Option-cases c.reply.event) [
          | inl quiet ↦
              subst (Looped result (op ∷ ops) s) (sym (unfold serial_loop in ground arith)) (
                Looped-next op ops c result result s s' (serial_loop errors call ops result s') refl
                  fine refl (ground arith) (λ r. ground arith) (serial_loop-Looped ops result s'))
          | inr (ev, came) ↦
              let s'' = record_event (some ev) s' in
              subst (Looped result (op ∷ ops) s) (sym (unfold serial_loop in ground arith)) (
                Looped-next op ops c result (some zero_result) s s''
                  (serial_loop errors call ops (some zero_result) s'') refl fine refl (ground arith)
                  (λ r. ground (arith, count_if-append r s.recorded (ev ∷ [])))
                  (serial_loop-Looped ops (some zero_result) s''))
        ]
      ]

  -- `serialExec` keeps the same contract: no operand is called more often than it stands in the
  -- step, and an error is reported exactly where a call failed, a not-ready error where one of the
  -- calls' was. Where none is reported each operand was called once, every event was broadcast, and
  -- a result is reported exactly where there was an event.
  pub serial_exec-Stepped :
      (ops : List (Operand Ev E W)) (s : State Ev E W)
      → Stepped errors ops s (serial_exec errors call ops s)
  unfolding serial_exec
  serial_exec-Stepped ops s =
      let k = serial_loop-Looped ops none s in
      record {
        mine = k.mine;
        extends = k.extends;
        failed = k.failed;
        not_ready = k.not_ready;
        at_most = k.at_most;
        complete = k.complete;
        changed = k.changed;
        broadcast = k.broadcast;
      }
