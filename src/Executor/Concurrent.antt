-- ===== src/Executor/Concurrent.antt =====
-- executor.go, `concurrentExec`: its outcome under every schedule.
use operator_toolkit.Prelude.{
  ℕ, zero, suc, ◌+◌, String, Bool, true, Option, none, some, List, [], ◌∷◌, ◌++◌, ◌≡◌, refl, ap,
  ◌∙◌, arith, count_if, count_if-append, ◌==◌, ◌||◌, ltb,
}
use operator_toolkit.Operand.{Errors, IsErrors, Operand, RunCall, holds, is_some}
use operator_toolkit.Executor.{
  State, Call, CtrlResult, Phase, ready, Pool, spawn, concurrent_pool, concurrent_exec, collect,
  zero_result,
}
use operator_toolkit.Executor.Threads.{concurrent_pool-fair, concurrent_pool-Grows, owed_all}
use operator_toolkit.Executor.Accounts.{
  Stepped, failures, changes, calls_of, owed_error, owed_event, owed_result, owed_call, named,
  error_fair, event_fair, result_fair, call_fair,
}

collect-is_some :
    {E : Type 0} {errors : Errors E} (l : IsErrors errors) (rerr : Option E) (es : List E)
    → is_some (collect errors rerr es) ≡ (is_some rerr || ltb 0 (count_if (λ _. true) es))
unfolding collect
collect-is_some l rerr [] = ground arith
collect-is_some {errors = errors} l rerr (e ∷ es) = ground (
  arith,
  l.aggregate_some rerr (some e),
  collect-is_some l (errors.new_aggregate rerr (some e)) es,
)

collect-is_not_ready :
    {E : Type 0} {errors : Errors E} (l : IsErrors errors) (rerr : Option E) (es : List E)
    → holds errors.is_not_ready (collect errors rerr es)
      ≡ (holds errors.is_not_ready rerr || ltb 0 (count_if errors.is_not_ready es))
unfolding collect
collect-is_not_ready l rerr [] = ground arith
collect-is_not_ready {errors = errors} l rerr (e ∷ es) = ground (
  arith,
  l.aggregate_is rerr (some e),
  collect-is_not_ready l (errors.new_aggregate rerr (some e)) es,
)

module _ {Ev E W : Type 0} (call : RunCall Ev E W) (schedule : List ℕ) (ops : List (Operand Ev E W))
    (s : State Ev E W) where
  abbrev pool : Pool Ev E W
  pool = concurrent_pool call schedule ops s

  nothing_owed :
      (owed : Operand Ev E W → Phase Ev E → ℕ)
      → ((op : Operand Ev E W) → owed op ready ≡ 0)
      → (ops : List (Operand Ev E W)) → owed_all owed (spawn ops) ≡ 0
  nothing_owed owed h [] = refl
  nothing_owed owed h (op ∷ ops) = omega (arith, h op, nothing_owed owed h ops)

  call_owed :
      (n : String) (ops : List (Operand Ev E W)) → owed_all (owed_call n) (spawn ops) ≡ named n ops
  call_owed n [] = refl
  call_owed n (op ∷ ops) = ground (arith, call_owed n ops)

  module _ (mine : List (Call Ev E)) (grows : pool.state.calls ≡ s.calls ++ mine) where
    errors-eq : (q : E → Bool) → count_if q pool.err_chan ≡ failures q mine
    errors-eq q = omega (
      arith,
      concurrent_pool-fair call (λ p. count_if q p.err_chan) (λ p. failures q p.state.calls)
          (owed_error q) (λ op. refl) (error_fair call q) schedule ops s,
      nothing_owed (owed_error q) (λ op. refl) ops,
      ap (failures q) grows,
      count_if-append (λ (c : Call Ev E). holds q c.reply.error) s.calls mine,
    )

    events-eq :
        (r : Ev → Bool) → count_if r pool.state.recorded ≡ count_if r s.recorded + changes r mine
    events-eq r = omega (
      arith,
      concurrent_pool-fair call (λ p. count_if r p.state.recorded) (λ p. changes r p.state.calls)
          (owed_event r) (λ op. refl) (event_fair call r) schedule ops s,
      nothing_owed (owed_event r) (λ op. refl) ops,
      ap (changes r) grows,
      count_if-append (λ (c : Call Ev E). holds r c.reply.event) s.calls mine,
    )

    results-eq : pool.result_chan ≡ changes (λ _. true) mine
    results-eq = omega (
      arith,
      concurrent_pool-fair call (λ p. p.result_chan) (λ p. changes (λ _. true) p.state.calls)
          owed_result (λ op. refl) (result_fair call) schedule ops s,
      nothing_owed owed_result (λ op. refl) ops,
      ap (changes (λ _. true)) grows,
      count_if-append (λ (c : Call Ev E). holds (λ _. true) c.reply.event) s.calls mine,
    )

    calls-eq : (n : String) → calls_of n mine ≡ named n ops
    calls-eq n = omega (
      arith,
      concurrent_pool-fair call (λ p. calls_of n p.state.calls) (λ p. 0) (owed_call n) (λ op. refl)
          (call_fair call n) schedule ops s,
      call_owed n ops,
      ap (calls_of n) grows,
      count_if-append (λ (c : Call Ev E). c.operand == n) s.calls mine,
    )

-- Under every schedule of the goroutines `concurrentExec` calls no operand of the step more often
-- than it stands there, and reports an error exactly where a call failed, a not-ready error where
-- one of the calls' was. Where it reports none it has called each operand once, has broadcast every
-- event, and reports a result exactly where there was an event.
pub concurrent_exec-Stepped :
    {Ev E W : Type 0} {errors : Errors E} (l : IsErrors errors) (call : RunCall Ev E W)
    (schedule : List ℕ) (ops : List (Operand Ev E W)) (s : State Ev E W)
    → Stepped errors ops s (concurrent_exec errors call schedule ops s)
unfolding concurrent_exec
concurrent_exec-Stepped {errors = errors} l call schedule ops s =
    let g = concurrent_pool-Grows call schedule ops s in
    let mine = g.mine in
    let grows = g.extends in
    let p = concurrent_pool call schedule ops s in
    record {
      mine = mine;
      extends = grows;
      failed =
          collect-is_some l none p.err_chan
          ∙ ap (ltb 0) (errors-eq call schedule ops s mine grows (λ _. true));
      not_ready =
          collect-is_not_ready l none p.err_chan
          ∙ ap (ltb 0) (errors-eq call schedule ops s mine grows errors.is_not_ready);
      at_most = λ n. omega (arith, calls-eq call schedule ops s mine grows n);
      complete = λ _ n. calls-eq call schedule ops s mine grows n;
      changed =
          λ _. any_result p.result_chan ∙ ap (ltb 0) (results-eq call schedule ops s mine grows);
      broadcast = λ _ r. events-eq call schedule ops s mine grows r;
    }
  where
    any_result :
        (n : ℕ)
        → is_some {A = CtrlResult} (elim n [ zero ↦ none | suc n ↦ some zero_result ]) ≡ ltb 0 n
    any_result zero = refl
    any_result (suc n) = ground arith
