-- ===== src/Executor/Threads.antt =====
-- executor.go, `concurrentExec`: what every schedule of the goroutines has in common.
use operator_toolkit.Prelude.{
  ℕ, zero, suc, ◌+◌, none, some, List, [], ◌∷◌, ◌++◌, ◌≡◌, refl, sym, ◌∙◌, ap, arith, append_assoc,
  append-nil,
}
use operator_toolkit.Operand.{Operand, RunCall}
use operator_toolkit.Executor.{
  State, Phase, ready, replied, error_sent, event_recorded, finished, Thread, Pool, advance, move,
  run_schedule, complete, wait, spawn, open_pool, concurrent_pool,
}

-- The calls only grow.
pub record Grows {A : Type 0} (xs ys : List A) : Type 0 where
  pub mine : List A
  pub extends : ys ≡ xs ++ mine

Grows-refl : {A : Type 0} (xs : List A) → Grows xs xs
Grows-refl xs = record { mine = []; extends = sym (append-nil xs) }

Grows-trans : {A : Type 0} {xs ys zs : List A} → Grows xs ys → Grows ys zs → Grows xs zs
Grows-trans {xs = xs} a b = record {
  mine = a.mine ++ b.mine;
  extends = b.extends ∙ ap (λ l. l ++ b.mine) a.extends ∙ append_assoc xs a.mine b.mine;
}

-- What the goroutines together still owe.
abbrev pub owed_all :
    {Ev E W : Type 0} → (Operand Ev E W → Phase Ev E → ℕ) → List (Thread Ev E W) → ℕ
owed_all owed [] = 0
owed_all owed (t ∷ ts) = owed t.operand t.phase + owed_all owed ts

module _ {Ev E W : Type 0} (call : RunCall Ev E W) where
  abbrev pub next_phase : Operand Ev E W → Phase Ev E → Pool Ev E W → Phase Ev E
  next_phase op phase p = (advance call op phase p).0

  abbrev pub next_pool : Operand Ev E W → Phase Ev E → Pool Ev E W → Pool Ev E W
  next_pool op phase p = (advance call op phase p).1

  -- After four moves a goroutine has finished.
  four_moves :
      (op : Operand Ev E W) (phase : Phase Ev E) (p : Pool Ev E W)
      → (let (f1, p1) = advance call op phase p in
          let (f2, p2) = advance call op f1 p1 in
          let (f3, p3) = advance call op f2 p2 in (advance call op f3 p3).0)
        ≡ finished
  unfolding advance
  four_moves op ready p = ground arith
  four_moves op (replied none none) p = refl
  four_moves op (replied (some ev) none) p = refl
  four_moves op (replied none (some e)) p = refl
  four_moves op (replied (some ev) (some e)) p = refl
  four_moves op (error_sent none) p = refl
  four_moves op (error_sent (some ev)) p = refl
  four_moves op event_recorded p = refl
  four_moves op finished p = refl

  -- What a goroutine still owes is `owed`, what it has delivered is in `got`, and what `made` counts
  -- was asked for. Where each move keeps the account, so does every schedule.
  module _ (got made : Pool Ev E W → ℕ) (owed : Operand Ev E W → Phase Ev E → ℕ)
      (settled : (op : Operand Ev E W) → owed op finished ≡ 0)
      (fair : (op : Operand Ev E W) (phase : Phase Ev E) (p : Pool Ev E W)
        → got (next_pool op phase p) + owed op (next_phase op phase p) + made p
          ≡ got p + owed op phase + made (next_pool op phase p)) where
    move-fair :
        (i : ℕ) (ts : List (Thread Ev E W)) (p : Pool Ev E W)
        → got (move call i ts p).1 + owed_all owed (move call i ts p).0 + made p
          ≡ got p + owed_all owed ts + made (move call i ts p).1
    unfolding move
    move-fair i [] p = refl
    move-fair zero (t ∷ ts) p = omega (arith, fair t.operand t.phase p)
    move-fair (suc i) (t ∷ ts) p = omega (arith, move-fair i ts p)

    run_schedule-fair :
        (is : List ℕ) (ts : List (Thread Ev E W)) (p : Pool Ev E W)
        → got (run_schedule call is ts p).1 + owed_all owed (run_schedule call is ts p).0 + made p
          ≡ got p + owed_all owed ts + made (run_schedule call is ts p).1
    unfolding run_schedule
    run_schedule-fair [] ts p = refl
    run_schedule-fair (i ∷ is) ts p =
        omega
          (arith, move-fair i ts p, run_schedule-fair is (move call i ts p).0 (move call i ts p).1)

    complete-fair :
        (op : Operand Ev E W) (phase : Phase Ev E) (p : Pool Ev E W)
        → got (complete call op phase p) + made p
          ≡ got p + owed op phase + made (complete call op phase p)
    unfolding complete
    complete-fair op phase p =
        let p1 = next_pool op phase p in
        let f1 = next_phase op phase p in
        let p2 = next_pool op f1 p1 in
        let f2 = next_phase op f1 p1 in
        let p3 = next_pool op f2 p2 in
        let f3 = next_phase op f2 p2 in
        omega (
          arith,
          fair op phase p,
          fair op f1 p1,
          fair op f2 p2,
          fair op f3 p3,
          ap (owed op) (four_moves op phase p),
          settled op,
        )

    wait-fair :
        (ts : List (Thread Ev E W)) (p : Pool Ev E W)
        → got (wait call ts p) + made p ≡ got p + owed_all owed ts + made (wait call ts p)
    unfolding wait
    wait-fair [] p = omega arith
    wait-fair (t ∷ ts) p =
        omega (
          arith,
          complete-fair t.operand t.phase p,
          wait-fair ts (complete call t.operand t.phase p),
        )

    pub concurrent_pool-fair :
        (schedule : List ℕ) (ops : List (Operand Ev E W)) (s : State Ev E W)
        → got (concurrent_pool call schedule ops s) + made (open_pool s)
          ≡ got (open_pool s)
            + owed_all owed (spawn ops)
            + made (concurrent_pool call schedule ops s)
    unfolding concurrent_pool
    concurrent_pool-fair schedule ops s =
        let r = run_schedule call schedule (spawn ops) (open_pool s) in
        omega (arith, run_schedule-fair schedule (spawn ops) (open_pool s), wait-fair r.0 r.1)

  advance-Grows :
      (op : Operand Ev E W) (phase : Phase Ev E) (p : Pool Ev E W)
      → Grows p.state.calls (next_pool op phase p).state.calls
  unfolding advance
  advance-Grows op ready p = record {
    mine = record { operand = op.name; reply = (call op p.state.world).0 } ∷ [];
    extends = refl;
  }
  advance-Grows op (replied event (some e)) p = Grows-refl p.state.calls
  advance-Grows op (replied event none) p = Grows-refl p.state.calls
  advance-Grows op (error_sent none) p = Grows-refl p.state.calls
  advance-Grows op (error_sent (some ev)) p = Grows-refl p.state.calls
  advance-Grows op event_recorded p = Grows-refl p.state.calls
  advance-Grows op finished p = Grows-refl p.state.calls

  move-Grows :
      (i : ℕ) (ts : List (Thread Ev E W)) (p : Pool Ev E W)
      → Grows p.state.calls (move call i ts p).1.state.calls
  unfolding move
  move-Grows i [] p = Grows-refl p.state.calls
  move-Grows zero (t ∷ ts) p = advance-Grows t.operand t.phase p
  move-Grows (suc i) (t ∷ ts) p = move-Grows i ts p

  run_schedule-Grows :
      (is : List ℕ) (ts : List (Thread Ev E W)) (p : Pool Ev E W)
      → Grows p.state.calls (run_schedule call is ts p).1.state.calls
  unfolding run_schedule
  run_schedule-Grows [] ts p = Grows-refl p.state.calls
  run_schedule-Grows (i ∷ is) ts p =
      Grows-trans (move-Grows i ts p)
        (run_schedule-Grows is (move call i ts p).0 (move call i ts p).1)

  complete-Grows :
      (op : Operand Ev E W) (phase : Phase Ev E) (p : Pool Ev E W)
      → Grows p.state.calls (complete call op phase p).state.calls
  unfolding complete
  complete-Grows op phase p =
      let p1 = next_pool op phase p in
      let f1 = next_phase op phase p in
      let p2 = next_pool op f1 p1 in
      let f2 = next_phase op f1 p1 in
      let p3 = next_pool op f2 p2 in
      let f3 = next_phase op f2 p2 in
      Grows-trans (advance-Grows op phase p) (
        Grows-trans (advance-Grows op f1 p1)
          (Grows-trans (advance-Grows op f2 p2) (advance-Grows op f3 p3)))

  wait-Grows :
      (ts : List (Thread Ev E W)) (p : Pool Ev E W)
      → Grows p.state.calls (wait call ts p).state.calls
  unfolding wait
  wait-Grows [] p = Grows-refl p.state.calls
  wait-Grows (t ∷ ts) p =
      Grows-trans (complete-Grows t.operand t.phase p)
        (wait-Grows ts (complete call t.operand t.phase p))

  pub concurrent_pool-Grows :
      (schedule : List ℕ) (ops : List (Operand Ev E W)) (s : State Ev E W)
      → Grows s.calls (concurrent_pool call schedule ops s).state.calls
  unfolding concurrent_pool
  concurrent_pool-Grows schedule ops s =
      let r = run_schedule call schedule (spawn ops) (open_pool s) in
      Grows-trans (run_schedule-Grows schedule (spawn ops) (open_pool s)) (wait-Grows r.0 r.1)
