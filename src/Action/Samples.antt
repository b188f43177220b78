-- ===== src/Action/Samples.antt =====
-- An action whose check asks for a second run, and then for none.
use operator_toolkit.Prelude.{ℕ, ◌+◌, String, true, [], ◌∷◌, none, some, ◌≡◌, refl, ok, ltb}
use operator_toolkit.Action.{
  ActionEnv, retry_period_over, ran, checked, deferred, retry_loop, run_action,
}

-- The world counts the runs.
abbrev twice : ActionEnv String String String ℕ
twice = record {
  get_object = λ k s. (ok (some k), s);
  require_action = λ o s. (ok true, s);
  build_action_manager = λ o s. (none, s);
  get_objects = λ s. (ok [], s);
  get_name = λ o s. (ok o, s);
  run = λ o s. (none, s + 1);
  check = λ o s. (ok (ltb s 2), s);
  defer = λ o s. (none, s);
  wrap = λ message e. e;
}

two_runs :
    run_action twice "game" (retry_period_over ∷ retry_period_over ∷ []) 0
    ≡ some (none, (2, deferred ∷ checked ∷ ran ∷ checked ∷ ran ∷ []))
unfolding run_action retry_loop
two_runs = refl
