-- ===== src/Operator/Built.antt =====
-- composite_operator.go, `NewCompositeOperator`: from the options to the order of the operands.
pub mod Samples
use operator_toolkit.Prelude.{
  ℕ, ◌≤◌, ◌<◌, String, Bool, true, false, ◌&&◌, ◌||◌, ◌==◌, Option, none, some, List, [], ◌∷◌, ◌++◌,
  ◌≡◌, ◌⊎◌, inl, inr, refl, sym, ap, ◌∙◌, arith, Result, ok, err, if◌then◌else◌, map, elem,
  elem-append, Bool-cases, Option-cases,
}
use operator_toolkit.Dag.{IsGraph, Steps}
use operator_toolkit.Dag.Solve.{IsRanked}
use operator_toolkit.Dag.Build.{DagLib, Outcome, returns, new_operand_dag, order}
use operator_toolkit.Dag.Build.Laws.{IsDagLib, distinct_from}
use operator_toolkit.Dag.Build.Accepts.{
  find_named, find_named-some, find_named-none, requires_in, well_required, new_operand_dag-accepts,
}
use operator_toolkit.Dag.Build.Schedule.{IsRange, IsSchedule, order-IsSchedule}
use operator_toolkit.Operand.{requeue_on_error, Operand}
use operator_toolkit.Operator.{
  CompositeOperator, defaults, apply_options, operand_names, with_order, new_composite_operator,
}

-- A schedule of the same vertices with the same predecessors.
IsSchedule-same :
    {Op : Type 0} (name : Op → String) (vs ws : List String) (ps qs : String → List String)
    (rows : List (List Op))
    → ((v : String) → elem v vs ≡ elem v ws)
    → ((u w : String) → elem u (ps w) ≡ elem u (qs w))
    → IsSchedule name vs ps rows
    → IsSchedule name ws qs rows
IsSchedule-same name vs ws ps qs rows same_v same_p k = record {
  step_of = k.step_of;
  in_range = λ v h. k.in_range v (same_v v ∙ h);
  once = λ v i row h at. k.once v i row (same_v v ∙ h) at;
  timely = λ v p h e. k.timely v p (same_v v ∙ h) (same_p p v ∙ e);
}

module _ {Ev E W : Type 0} where
  -- The names that the operands of the given name require.
  abbrev pub required_by : List (Operand Ev E W) → String → List String
  required_by [] w = []
  required_by (op ∷ operands) w =
      if op.name == w then op.requires ++ required_by operands w else required_by operands w

  elem-required_by :
      (operands : List (Operand Ev E W)) (u w : String)
      → elem u (required_by operands w) ≡ requires_in operand_names operands u w
  elem-required_by [] u w = refl
  elem-required_by (op ∷ operands) u w =
      ground
        (arith, elem-required_by operands u w, elem-append u op.requires (required_by operands w))

  -- The operand of a name, or one that does nothing.
  abbrev blank : String → Operand Ev E W
  blank n = record {
    name = n;
    requires = [];
    ensure = λ w. (record { event = none; error = none }, w);
    delete = λ w. (record { event = none; error = none }, w);
    requeue_strategy = requeue_on_error;
    ready_check = λ w. ((true, none), w);
    post_ready = λ w. (none, w);
  }

  abbrev or_blank : String → Option (Operand Ev E W) → Operand Ev E W
  or_blank n none = blank n
  or_blank n (some op) = op

  abbrev named_or_blank : List (Operand Ev E W) → String → Operand Ev E W
  named_or_blank operands n = or_blank n (find_named operand_names operands n)

  name-named_or_blank :
      (operands : List (Operand Ev E W)) (n : String) → (named_or_blank operands n).name ≡ n
  name-named_or_blank operands n = elim (Bool-cases (elem n (map (λ op. op.name) operands))) [
    | inl there ↦
        let (op, found, named) = find_named-some operand_names operands n there in
        ap (λ o. (or_blank n o).name) found ∙ named
    | inr out ↦ ap (λ o. (or_blank n o).name) (find_named-none operand_names operands n out)
  ]

  named_or_blank-found :
      (operands : List (Operand Ev E W)) (n : String)
      → elem n (map (λ op. op.name) operands) ≡ true
      → find_named operand_names operands n ≡ some (named_or_blank operands n)
  named_or_blank-found operands n there =
      let (op, found, named) = find_named-some operand_names operands n there in
      found ∙ ap (λ o. some (or_blank n o)) (sym found)

  -- The ranks of operands whose requirements have no cycle.
  pub record IsAcyclic (operands : List (Operand Ev E W)) (rank : String → ℕ) (bound : ℕ)
      : Type 0 where
    pub grows : (u w : String) → requires_in operand_names operands u w ≡ true → rank u < rank w
    pub below : (w : String) → elem w (map (λ op. op.name) operands) ≡ true → rank w < bound

  module _ {G : Type 0} {lib : DagLib E (Operand Ev E W) G} (l : IsDagLib lib) (no_recorder : E)
      (range : Steps → Steps) where
    with_order_lem :
        (fuel : ℕ) (c : CompositeOperator Ev E W) (rank : String → ℕ) (bound : ℕ)
        → IsRange range
        → IsAcyclic c.operands rank bound
        → bound ≤ fuel
        → distinct_from [] (map (λ op. op.name) c.operands) ≡ true
        → ((well_required operand_names c.operands ≡ true)
            × ((rows : List (List (Operand Ev E W))) × (with_order lib no_recorder range fuel c
                  ≡ returns (ok (record c { order = rows })))
                × IsSchedule
                    (λ op. op.name)
                    (map (λ op. op.name) c.operands)
                    (required_by c.operands)
                    rows))
          ⊎ ((well_required operand_names c.operands ≡ false)
              × ((e : E) × (with_order lib no_recorder range fuel c ≡ returns (err e))))
    unfolding with_order
    with_order_lem fuel c rank bound r k enough once =
        elim (new_operand_dag-accepts operand_names l c.operands once) [
          | inr (bad, (e, run)) ↦ inr (bad, (e, rw (run, with_order)))
          | inl (fine, (od, run, vs, ps, found)) ↦
              let (rows, made, schedule) =
                order-IsSchedule lib od (l.graph od) (λ op. op.name) (named_or_blank c.operands)
                  range
                  (λ n h.
                    found n (named_or_blank c.operands n)
                      (named_or_blank-found c.operands n (sym (vs n) ∙ h)))
                  (name-named_or_blank c.operands) r rank bound fuel
                  (record {
                    grows = λ u v h. k.grows u v (sym (ps u v) ∙ h);
                    below = λ v h. k.below v (sym (vs v) ∙ h);
                  })
                  enough in
              inl (
                fine,
                (
                  rows,
                  rw (run, made, with_order),
                  IsSchedule-same (λ op. op.name) _ _ _ _ rows vs
                      (λ u w. ps u w ∙ sym (elem-required_by c.operands u w)) schedule,
                ),
              )
        ]

    by_recorder :
        (fuel : ℕ) (opts : List (CompositeOperator Ev E W → CompositeOperator Ev E W))
        (c : CompositeOperator Ev E W) (given : Bool)
        → apply_options opts defaults ≡ c
        → c.has_recorder ≡ given
        → new_composite_operator lib no_recorder range fuel opts
          ≡ (if given then with_order lib no_recorder range fuel c else returns (err no_recorder))
    unfolding new_composite_operator
    by_recorder fuel opts c given is e =
        ap
          (λ o.
            if o.has_recorder
            then with_order lib no_recorder range fuel o
            else returns (err no_recorder))
          is
        ∙ ap (λ b. if b then with_order lib no_recorder range fuel c else returns (err no_recorder))
            e

    -- Where the operands' names are distinct and their requirements have no cycle, shown by ranks that
    -- stay within the fuel, and the graph library and the iteration over a map are as documented:
    -- `NewCompositeOperator` returns. With an event recorder, and with operands that require only names
    -- among them, each listed once, it returns the operator that the options make, with an order that
    -- holds every operand exactly once and none in an earlier step than an operand that it requires.
    -- Without a recorder, or where an operand of theirs requires an unknown name or a name twice, it
    -- returns an error.
    pub new_composite_operator-orders :
        (fuel : ℕ) (opts : List (CompositeOperator Ev E W → CompositeOperator Ev E W))
        (c : CompositeOperator Ev E W) (rank : String → ℕ) (bound : ℕ)
        → apply_options opts defaults ≡ c
        → IsRange range
        → IsAcyclic c.operands rank bound
        → bound ≤ fuel
        → distinct_from [] (map (λ op. op.name) c.operands) ≡ true
        → (((c.has_recorder && well_required operand_names c.operands) ≡ true)
            × ((rows : List (List (Operand Ev E W))) × (new_composite_operator lib no_recorder range
                    fuel opts
                  ≡ returns (ok (record c { order = rows })))
                × IsSchedule
                    (λ op. op.name)
                    (map (λ op. op.name) c.operands)
                    (required_by c.operands)
                    rows))
          ⊎ (((c.has_recorder && well_required operand_names c.operands) ≡ false)
              × ((e : E) × (new_composite_operator lib no_recorder range fuel opts
                    ≡ returns (err e))))
    new_composite_operator-orders fuel opts c rank bound is r k enough once =
        elim (Bool-cases c.has_recorder) [
          | inr without ↦
              inr (ground (arith, without), (no_recorder, by_recorder fuel opts c false is without))
          | inl given ↦ elim (with_order_lem fuel c rank bound r k enough once) [
            | inl (fine, (rows, run, schedule)) ↦ inl (
              ground (arith, given, fine),
              (rows, by_recorder fuel opts c true is given ∙ run, schedule),
            )
            | inr (bad, (e, run)) ↦
                inr (ground (arith, bad), (e, by_recorder fuel opts c true is given ∙ run))
          ]
        ]
