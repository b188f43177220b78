-- ===== src/Dag/Levels.antt =====
-- dag.go, `solveStep`: which step a vertex gets in a round, where the graph has levels and where an
-- edge skips one.
use operator_toolkit.Prelude.{
  ℕ, ◌+◌, ◌<◌, ◌≤◌, String, true, false, ◌==◌, some, List, [], ◌∷◌, ◌≡◌, sym, subst, ◌∙◌, elem, has,
  insert, arith, Bool-cases, ok, ap, inl, inr, ◌⊎◌, eq_iff, lookup, lookup-insert, has→lookup,
  lookup→has,
}
use operator_toolkit.Dag.{Graph, IsGraph, Steps, solve, solve_step}
use operator_toolkit.Dag.View.{
  all_placed, place-eq-if, visit, visit_all, next_roots, next_roots-from, solve_step-eq-ok,
}
use operator_toolkit.Dag.Placed.{visit_all-places_ready}
use operator_toolkit.Dag.Solve.{AreVertices, solve_loop-keeps}
use operator_toolkit.Dag.Schedule.{solve-total}

module _ {E : Type 0} {g : Graph E} (m : IsGraph g) where
  open m use {vertices, preds, succs, edges, sources_in}

  lookup-visit :
      (step : ℕ) (c v : String) (order : Steps) (s : ℕ)
      → lookup v (visit m step c order) ≡ some s
      → (lookup v order ≡ some s) ⊎ ((c ≡ v) × (s ≡ step))
  lookup-visit step c v order s e = elim (Bool-cases (has c order)) [
    | inl old ↦ inl (ground arith)
    | inr new ↦ elim (Bool-cases (c == v)) [
      | inl same ↦
          ground
            (arith, place-eq-if step order c (preds c), lookup-insert c v step order, eq_iff c v)
      | inr other ↦
          inl (ground (arith, place-eq-if step order c (preds c), lookup-insert c v step order))
    ]
  ]

  -- A vertex that a round places is one of its roots, and gets the number of the round.
  pub lookup-visit_all :
      (step : ℕ) (v : String) (cs : List String) (order : Steps) (s : ℕ)
      → lookup v (visit_all m step cs order) ≡ some s
      → (lookup v order ≡ some s) ⊎ ((elem v cs ≡ true) × (s ≡ step))
  lookup-visit_all step v [] order s e = inl e
  lookup-visit_all step v (c ∷ cs) order s e =
      elim (lookup-visit_all step v cs (visit m step c order) s e) [
        | inl now ↦ elim (lookup-visit step c v order s now) [
          | inl old ↦ inl old
          | inr (same, at) ↦ inr (ground (arith, eq_iff c v), at)
        ]
        | inr (later, at) ↦ inr (ground arith, at)
      ]

  -- Every edge goes up by one level, and the source vertices are on level 0.
  pub record IsLevelled (level : String → ℕ) : Type 0 where
    pub at_sources : (v : String) → elem v g.source_vertices ≡ true → level v ≡ 0
    pub along : (u v : String) → elem v (succs u) ≡ true → level v ≡ level u + 1

  Level : (String → ℕ) → Steps → List String → ℕ → Type 0
  Level level order roots step =
      ((v : String) → elem v roots ≡ true → level v ≡ step)
      × ((v : String) (s : ℕ) → lookup v order ≡ some s → s ≡ level v)

  Level-round :
      (level : String → ℕ)
      → IsLevelled level
      → (step : ℕ) (roots : List String) (order : Steps) → AreVertices m roots
      → Level level order roots step
      → Level level (visit_all m step roots order) (next_roots m roots []) (step + 1)
  unfolding Level
  Level-round level l step roots order h (here, placed) = (
    (λ v e. elim (next_roots-from m v roots [] e) [
      | inl absent ↦ absurd (ground arith)
      | inr (c, f, edge) ↦ omega (arith, l.along c v edge, here c f)
    ]),
    (λ v s e. elim (lookup-visit_all step v roots order s e) [
      | inl old ↦ placed v s old
      | inr (root, now) ↦ now ∙ sym (here v root)
    ]),
  )

  solve-placed_level :
      (level : String → ℕ)
      → IsLevelled level
      → (fuel : ℕ) (order : Steps) (steps : ℕ) → solve g fuel ≡ some (ok (order, steps))
      → (v : String) (s : ℕ) → lookup v order ≡ some s
      → s ≡ level v
  unfolding solve Level
  solve-placed_level level l fuel order steps e v s at =
      let (_, placed) =
        solve_loop-keeps m (Level level) (Level-round level l) fuel 0 g.source_vertices []
          sources_in (l.at_sources, (λ v s h. absurd (ground arith))) order steps e in
      placed v s at

  -- On a graph with levels, which are below a bound: within that many rounds `solve` ends, without an
  -- error, and gives every vertex of the graph its level for a step. So each vertex has a step that is
  -- by one later than that of each of its predecessors.
  pub solve-level :
      (level : String → ℕ)
      → IsLevelled level
      → (bound : ℕ) → ((v : String) → elem v vertices ≡ true → level v < bound)
      → (fuel : ℕ) → bound ≤ fuel
      → (order : Steps) × (steps : ℕ) × (solve g fuel ≡ some (ok (order, steps)))
        × ((v : String)
            → elem v vertices ≡ true
            → (lookup v order ≡ some (level v))
              × ((p : String) → elem p (preds v) ≡ true → level v ≡ level p + 1))
  solve-level level l bound low fuel enough =
      let (order, steps, e, all) =
        solve-total m level bound
          (record {
            grows = λ u v edge. omega (arith, l.along u v (edges u v ∙ edge));
            below = low;
          })
          fuel enough in
      (
        order,
        steps,
        e,
        λ v h. (
          (let (s, at) = has→lookup v order (all v h) in
              at ∙ ap some (solve-placed_level level l fuel order steps e v s at)),
          (λ p edge. l.along p v (edges p v ∙ edge)),
        ),
      )

  -- Where a round over vertices of the graph visits `a` first and `b` later, neither has a step yet, every predecessor of `a` has
  -- one, and so has every predecessor of `b`, except that `a` may be one: a round that ends without an
  -- error gives both the same step, its own, also when `b` requires `a`.
  pub solve_step-shares_step :
      (step : ℕ) (a b : String) (rest : List String) (order : Steps)
      → AreVertices m (a ∷ rest)
      → has a order ≡ false
      → has b order ≡ false
      → elem b rest ≡ true
      → all_placed order (preds a) ≡ true
      → all_placed (insert a step order) (preds b) ≡ true
      → (roots : List String) (order' : Steps)
      → solve_step g step (a ∷ rest) order ≡ ok (roots, order')
      → (lookup a order' ≡ some step) × (lookup b order' ≡ some step)
  solve_step-shares_step step a b rest order h new_a new_b later ready_a ready_b roots order' e =
      rw (← second) (numbered a new_a placed_a, numbered b new_b placed_b)
    where
      second : visit_all m step (a ∷ rest) order ≡ order'
      second = cc (solve_step-eq-ok m step (a ∷ rest) order h)

      visited : visit m step a order ≡ insert a step order
      visited = rw (new_a, place-eq-if step order a (preds a), ready_a)

      placed_a : has a (visit_all m step (a ∷ rest) order) ≡ true
      placed_a =
          visit_all-places_ready m step a (a ∷ rest) order (ground (arith, eq_iff a a)) ready_a

      placed_b : has b (visit_all m step (a ∷ rest) order) ≡ true
      placed_b =
          visit_all-places_ready m step b rest (visit m step a order) later
            (subst (λ o. all_placed o (preds b) ≡ true) (sym visited) ready_b)

      numbered :
          (v : String)
          → has v order ≡ false
          → has v (visit_all m step (a ∷ rest) order) ≡ true
          → lookup v (visit_all m step (a ∷ rest) order) ≡ some step
      numbered v new placed =
          let (s, at) = has→lookup v (visit_all m step (a ∷ rest) order) placed in
          elim (lookup-visit_all step v (a ∷ rest) order s at) [
            | inl old ↦ absurd (ground (arith, lookup→has v s order))
            | inr (_, now) ↦ at ∙ ap some now
          ]
