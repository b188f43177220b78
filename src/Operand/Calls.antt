-- ===== src/Operand/Calls.antt =====
-- operator/v1/operand/operand.go: what the success of `CallEnsure` means.
use operator_toolkit.Prelude.{true, none, ◌≡◌, arith}
use operator_toolkit.Operand.{Operand, Errors, call_ensure}

module _ {Ev E W : Type 0} (errors : Errors E) (op : Operand Ev E W) (w : W) where
  open op use {ensure, ready_check, post_ready}

  -- `CallEnsure` reports no error only where the change was applied without one, the ready check
  -- then answered yes without one, and the action after it made none; its event is that of the change.
  pub call_ensure-succeeds :
      (call_ensure errors op w).0.error ≡ none
      → ((ensure w).0.error ≡ none)
        × ((ready_check (ensure w).1).0.1 ≡ none)
        × ((ready_check (ensure w).1).0.0 ≡ true)
        × ((post_ready (ready_check (ensure w).1).1).0 ≡ none)
        × ((call_ensure errors op w).0.event ≡ (ensure w).0.event)
  unfolding call_ensure
  call_ensure-succeeds h = ground arith
