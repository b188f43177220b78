-- ===== src/Dag/Schedule.antt =====
-- dag.go, `solve`: when it ends, which vertices it places and at which steps.
use operator_toolkit.Prelude.{
  ℕ, zero, suc, ◌+◌, ◌≤◌, ◌<◌, String, true, false, none, some, List, [], ◌∷◌, ◌≡◌, refl, ◌∙◌, elem,
  has, arith, Bool-cases, ok, inl, inr, eq_iff, all-elem, lookup,
}
use operator_toolkit.Dag.{Graph, IsGraph, Steps, solve, solve_loop}
use operator_toolkit.Dag.View.{visit, visit_all, next_roots, next_roots-add}
use operator_toolkit.Dag.Placed.{
  IsBy, IsSettled, has-visit, visit_all-IsSettled, visit_all-IsTimely,
}
use operator_toolkit.Dag.Solve.{
  AreVertices, solve_loop-zero, solve_loop-suc, next_roots-AreVertices, solve_loop-keeps, IsRanked,
  solve_loop_total, IsSettled-nil, IsSettled-sources,
}

module _ {E : Type 0} {g : Graph E} (m : IsGraph g) where
  open m use {vertices, preds, succs, edges, succs_in, sources_in}

  -- The steps of the result are numbered below the count that goes with it.
  Numbered : Steps → List String → ℕ → Type 0
  Numbered order roots step =
      ((v : String) (s : ℕ) → lookup v order ≡ some s → s < step)
      × ((v : String) (s : ℕ)
          → lookup v order ≡ some s
          → (p : String) → elem p (preds v) ≡ true
          → IsBy order s p)

  Numbered-round :
      (step : ℕ) (roots : List String) (order : Steps)
      → AreVertices m roots
      → Numbered order roots step
      → Numbered (visit_all m step roots order) (next_roots m roots []) (step + 1)
  unfolding Numbered
  Numbered-round step roots order h (low, after) =
      let t =
        visit_all-IsTimely m step roots order
          (record { bounded = λ v s e. omega (arith, low v s e); after = after }) in
      ((λ v s e. omega (arith, t.bounded v s e)), t.after)

  -- Whatever the graph: `solve` numbers the steps below the count that it returns, and a vertex is
  -- placed only if all its predecessors are, each at the same step or at an earlier one.
  pub solve-timely :
      (fuel : ℕ) (order : Steps) (steps : ℕ)
      → solve g fuel ≡ some (ok (order, steps))
      → ((v : String) (s : ℕ) → lookup v order ≡ some s → s < steps)
        × ((v : String) (s : ℕ)
            → lookup v order ≡ some s
            → (p : String) → elem p (preds v) ≡ true
            → IsBy order s p)
  unfolding solve Numbered
  solve-timely fuel order steps e =
      solve_loop-keeps m Numbered Numbered-round fuel 0 g.source_vertices [] sources_in
        ((λ v s h. absurd (ground arith)), (λ v s h. absurd (ground arith))) order steps e

  -- On a graph whose vertices have ranks below a bound that grow along the edges, so that there is
  -- no cycle, `solve` ends, without an error, within that many rounds, and places every vertex.
  pub solve-total :
      (rank : String → ℕ) (bound : ℕ)
      → IsRanked m rank bound
      → (fuel : ℕ) → bound ≤ fuel
      → (order : Steps) × (steps : ℕ) × (solve g fuel ≡ some (ok (order, steps)))
        × ((v : String) → elem v vertices ≡ true → has v order ≡ true)
  unfolding solve
  solve-total rank bound k fuel enough =
      let (order, steps, e) =
        solve_loop_total m rank bound k fuel 0 g.source_vertices [] sources_in (λ v h. omega arith)
          (omega arith) in
      (
        order,
        steps,
        e,
        λ v h.
            IsSettled-nil m rank bound k order
              (solve_loop-keeps m (λ order roots _. IsSettled m order roots)
                (λ step roots order _ s. visit_all-IsSettled m step roots order s) fuel 0
                g.source_vertices [] sources_in (IsSettled-sources m) order steps e)
              (rank v + 1) v (omega arith) h,
      )

  solve_loop_diverges :
      (walk : ℕ → String)
      → ((n : ℕ) → elem (walk (suc n)) (succs (walk n)) ≡ true)
      → (fuel step n : ℕ) (roots : List String) (order : Steps) → AreVertices m roots
      → elem (walk n) roots ≡ true
      → solve_loop g fuel step roots order ≡ none
  solve_loop_diverges walk goes fuel step n [] order h e = absurd (ground arith)
  solve_loop_diverges walk goes zero step n (r ∷ rs) order h e = solve_loop-zero m step r rs order
  solve_loop_diverges walk goes (suc fuel) step n (r ∷ rs) order h e =
      solve_loop-suc m fuel step r rs order h
      ∙ solve_loop_diverges walk goes fuel (step + 1) (suc n) _ _
          (next_roots-AreVertices m (r ∷ rs))
          (next_roots-add m (walk n) (walk (suc n)) (r ∷ rs) [] e (goes n))

  -- Where an endless walk along the edges starts at a source vertex, that is where a cycle can be
  -- reached from one, `solve` returns after no number of rounds: neither an order nor an error.
  pub solve-diverges :
      (walk : ℕ → String)
      → elem (walk 0) g.source_vertices ≡ true
      → ((n : ℕ) → elem (walk (suc n)) (succs (walk n)) ≡ true)
      → (fuel : ℕ) → solve g fuel ≡ none
  unfolding solve
  solve-diverges walk start goes fuel =
      solve_loop_diverges walk goes fuel 0 0 g.source_vertices [] sources_in start

  -- Each member of `cycle` requires one of them.
  abbrev pub IsCyclic : List String → Type 0
  IsCyclic cycle =
      (v : String)
      → elem v cycle ≡ true
      → (p : String) × (elem p cycle ≡ true) × (elem p (preds v) ≡ true)

  abbrev NonePlaced : List String → Steps → Type 0
  NonePlaced cycle order = (v : String) → elem v cycle ≡ true → has v order ≡ false

  visit_all-NonePlaced :
      (cycle : List String)
      → IsCyclic cycle
      → (step : ℕ) (roots : List String) (order : Steps) → NonePlaced cycle order
      → NonePlaced cycle (visit_all m step roots order)
  visit_all-NonePlaced cycle c step [] order h = h
  visit_all-NonePlaced cycle c step (r ∷ rs) order h = visit_all-NonePlaced cycle c step rs _ λ v e.
      elim (Bool-cases (has v (visit m step r order))) [
        | inl placed ↦
            let (p, member, edge) = c v e in
            absurd (
              ground (
                arith,
                has-visit m step r v order,
                h v e,
                h p member,
                eq_iff r v,
                all-elem (λ p. has p order) (preds r) p,
              ))
        | inr absent ↦ absent
      ]

  -- Of vertices each of which requires one of them, as on a cycle, none is in an order that `solve`
  -- returns.
  pub solve-omits_cycle :
      (cycle : List String)
      → IsCyclic cycle
      → (fuel : ℕ) (order : Steps) (steps : ℕ) → solve g fuel ≡ some (ok (order, steps))
      → (v : String) → elem v cycle ≡ true
      → has v order ≡ false
  unfolding solve
  solve-omits_cycle cycle c fuel order steps e =
      solve_loop-keeps m (λ order _ _. NonePlaced cycle order)
        (λ step roots order _ h. visit_all-NonePlaced cycle c step roots order h) fuel 0
        g.source_vertices [] sources_in (λ v h. refl) order steps e
