-- ===== src/Dag/Bounds.antt =====
-- dag.go, `solve`: how many steps an order has.
use operator_toolkit.Prelude.{
  ℕ, zero, suc, ◌+◌, ◌≤◌, String, some, List, [], ◌∷◌, ◌≡◌, sym, ◌∙◌, arith, Result, ok,
  Result-cases, Bool-cases, inl, inr, leb, some_inv,
}
use operator_toolkit.Dag.{Graph, IsGraph, Steps, solve_step, solve_loop, solve}
use operator_toolkit.Dag.Solve.{IsRanked}
use operator_toolkit.Dag.Schedule.{solve-total}

module _ {E : Type 0} (g : Graph E) where
  solve_loop-steps :
      (fuel step : ℕ) (roots : List String) (order final : Steps) (steps : ℕ)
      → solve_loop g fuel step roots order ≡ some (ok (final, steps))
      → steps ≤ step + fuel
  unfolding solve_loop
  solve_loop-steps fuel step [] order final steps h = ground (arith, h)
  solve_loop-steps zero step (r ∷ rs) order final steps h = absurd (ground (arith, h))
  solve_loop-steps (suc fuel) step (r ∷ rs) order final steps h =
      elim (Result-cases (solve_step g step (r ∷ rs) order)) [
        | inr (e, bad) ↦ absurd (ground (arith, h, bad))
        | inl ((new_roots, order'), good) ↦ omega (
          arith,
          solve_loop-steps fuel (step + 1) new_roots order' final steps (ground (arith, h, good)),
        )
      ]

  -- More fuel gives the same.
  solve_loop-more :
      (fuel more step : ℕ) (roots : List String) (order : Steps) (r : Result E (Steps × ℕ))
      → solve_loop g fuel step roots order ≡ some r
      → fuel ≤ more
      → solve_loop g more step roots order ≡ some r
  unfolding solve_loop
  solve_loop-more fuel more step [] order r h le = ground (arith, h)
  solve_loop-more zero more step (v ∷ vs) order r h le = absurd (ground (arith, h))
  solve_loop-more (suc fuel) zero step (v ∷ vs) order r h le = absurd (omega (arith, le))
  solve_loop-more (suc fuel) (suc more) step (v ∷ vs) order r h le =
      elim (Result-cases (solve_step g step (v ∷ vs) order)) [
        | inr (e, bad) ↦ ground (arith, h, bad)
        | inl ((new_roots, order'), good) ↦ ground (
          arith,
          good,
          solve_loop-more fuel more (step + 1) new_roots order' r (ground (arith, h, good))
              (omega (arith, le)),
        )
      ]

module _ {E : Type 0} {g : Graph E} (m : IsGraph g) where
  -- Where the vertices have ranks below a bound that grow along the edges, the order of a `solve` that
  -- ends without an error has at most as many steps as the bound.
  pub solve-steps :
      (rank : String → ℕ) (bound fuel : ℕ) (soln : Steps) (steps : ℕ)
      → IsRanked m rank bound
      → solve g fuel ≡ some (ok (soln, steps))
      → steps ≤ bound
  unfolding solve
  solve-steps rank bound fuel soln steps k h =
      let (soln', steps', e, _) = solve-total m rank bound k bound (omega arith) in
      let low = solve_loop-steps g bound 0 g.source_vertices [] soln' steps' e in
      elim (Bool-cases (leb fuel bound)) [
        | inl less ↦
            let up =
              solve_loop-more g fuel bound 0 g.source_vertices [] (ok (soln, steps)) h
                (ground (arith, less)) in
            ground (arith, low, some_inv (sym up ∙ e))
        | inr more ↦
            let up =
              solve_loop-more g bound fuel 0 g.source_vertices [] (ok (soln', steps')) e
                (ground (arith, more)) in
            ground (arith, low, some_inv (sym up ∙ h))
      ]
