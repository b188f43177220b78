-- ===== src/Operator/Built/Samples.antt =====
-- Two operands, the first of which requires the second, and the operator that is built of them.
use operator_toolkit.Prelude.{
  ℕ, ◌+◌, ◌<◌, String, true, false, ◌&&◌, ◌==◌, List, [], ◌∷◌, some, none, ◌≡◌, ◌⊎◌, refl, sym,
  arith, ok, err, map, elem, eq_iff, if◌then◌else◌,
}
use operator_toolkit.Dag.Build.{returns}
use operator_toolkit.Dag.Build.Accepts.{requires_in, well_required}
use operator_toolkit.Dag.Build.Library.{listed_lib, listed_lib-IsDagLib}
use operator_toolkit.Dag.Build.Schedule.{IsSchedule}
use operator_toolkit.Operand.{requeue_on_error, Operand}
use operator_toolkit.Operator.{
  CompositeOperator, defaults, apply_options, operand_names, with_operands, with_event_recorder,
  new_composite_operator,
}
use operator_toolkit.Operator.Built.{required_by, new_composite_operator-orders}

abbrev requiring : String → List String → Operand String String ℕ
requiring n deps = record {
  name = n;
  requires = deps;
  ensure = λ w. (record { event = some n; error = none }, w + 1);
  delete = λ w. (record { event = some n; error = none }, w + 1);
  requeue_strategy = requeue_on_error;
  ready_check = λ w. ((true, none), w);
  post_ready = λ w. (none, w);
}

abbrev service_first : List (Operand String String ℕ)
service_first = requiring "workload" ("service" ∷ []) ∷ requiring "service" [] ∷ []

abbrev options : List (CompositeOperator String String ℕ → CompositeOperator String String ℕ)
options = with_operands service_first ∷ with_event_recorder ∷ []

abbrev built : CompositeOperator String String ℕ
built = record defaults { operands = service_first; has_recorder = true }

configured : apply_options options defaults ≡ built
unfolding with_operands with_event_recorder
configured = refl

abbrev rank : String → ℕ
rank n = if n == "workload" then 1 else 0

grows : (u w : String) → requires_in operand_names service_first u w ≡ true → rank u < rank w
grows u w h =
    let u_is : "service" ≡ u = ground (arith, h, eq_iff "service" u) in
    let w_is : "workload" ≡ w = ground (arith, h, eq_iff "workload" w) in
    rw (sym u_is, sym w_is) (omega arith)

below : (w : String) → elem w (map (λ op. op.name) service_first) ≡ true → rank w < 2
below w h = ground (arith, h)

new_composite_operator-orders_example :
    (((true && well_required operand_names service_first) ≡ true)
      × ((rows : List (List (Operand String String ℕ))) × (new_composite_operator
              (listed_lib (λ v. v))
              "no recorder"
              (λ soln. soln)
              2
              options
            ≡ returns (ok (record built { order = rows })))
          × IsSchedule
              (λ op. op.name)
              ("workload" ∷ "service" ∷ [])
              (required_by service_first)
              rows))
    ⊎ (((true && well_required operand_names service_first) ≡ false)
        × ((e : String) × (new_composite_operator
                (listed_lib (λ v. v))
                "no recorder"
                (λ soln. soln)
                2
                options
              ≡ returns (err e))))
new_composite_operator-orders_example =
    new_composite_operator-orders (listed_lib-IsDagLib (λ v. v)) "no recorder" (λ soln. soln) 2
      options built rank 2 configured (record { keeps = λ soln n d. refl; distinct = λ soln d. d })
      (record { grows = grows; below = below }) (omega arith) refl
