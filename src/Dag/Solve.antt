-- ===== src/Dag/Solve.antt =====
-- dag.go, the loop of `solve`: a round as an equation, and rules for what the rounds keep.
use operator_toolkit.Prelude.{
  ℕ, zero, suc, ◌+◌, ◌≤◌, ◌<◌, String, Bool, true, Option, none, some, List, [], ◌∷◌, ◌≡◌, refl,
  sym, subst, ◌∙◌, elem, has, all, arith, Result, ok, inl, inr, eq_iff,
}
use operator_toolkit.Dag.{Graph, IsGraph, Steps, solve_loop, solve_step}
use operator_toolkit.Dag.View.{all_placed, visit_all, next_roots, next_roots-from, solve_step-eq-ok}
use operator_toolkit.Dag.Placed.{IsSettled}

all_intro :
    (q : String → Bool) (xs : List String)
    → ((x : String) → elem x xs ≡ true → q x ≡ true)
    → all q xs ≡ true
all_intro q [] h = refl
all_intro q (x ∷ xs) h = ground (arith, eq_iff x x, h x, all_intro q xs (λ y e. h y (ground arith)))

module _ {E : Type 0} {g : Graph E} (m : IsGraph g) where
  open m use {vertices, preds, succs, edges, succs_in, sources_in, sources_have, sources_free}

  abbrev pub AreVertices : List String → Type 0
  AreVertices roots = (v : String) → elem v roots ≡ true → elem v vertices ≡ true

  pub next_roots-AreVertices : (roots : List String) → AreVertices (next_roots m roots [])
  next_roots-AreVertices roots v h = elim (next_roots-from m v roots [] h) [
    | inl e ↦ absurd (ground arith)
    | inr (c, e, f) ↦ succs_in c v f
  ]

  pub solve_loop-nil :
      (fuel step : ℕ) (order : Steps) → solve_loop g fuel step [] order ≡ some (ok (order, step))
  unfolding solve_loop
  solve_loop-nil zero step order = refl
  solve_loop-nil (suc fuel) step order = refl

  pub solve_loop-zero :
      (step : ℕ) (r : String) (rs : List String) (order : Steps)
      → solve_loop g zero step (r ∷ rs) order ≡ none
  unfolding solve_loop
  solve_loop-zero step r rs order = refl

  -- A round of the loop.
  pub solve_loop-suc :
      (fuel step : ℕ) (r : String) (rs : List String) (order : Steps)
      → AreVertices (r ∷ rs)
      → solve_loop g (suc fuel) step (r ∷ rs) order
        ≡ solve_loop g fuel (step + 1) (next_roots m (r ∷ rs) []) (visit_all m step (r ∷ rs) order)
  solve_loop-suc fuel step r rs order h =
      rw (← solve_loop_step (solve_step-eq-ok m step (r ∷ rs) order h))
    where
      solve_loop_step :
          {a : List String × Steps}
          → solve_step g step (r ∷ rs) order ≡ ok a
          → solve_loop g fuel (step + 1) a.0 a.1 ≡ solve_loop g (suc fuel) step (r ∷ rs) order
      solve_loop_step e = unfold solve_loop in rw (e, solve_loop)

  -- What each round keeps holds of the result.
  module _ (P : Steps → List String → ℕ → Type 0)
      (round : (step : ℕ) (roots : List String) (order : Steps)
        → AreVertices roots
        → P order roots step
        → P (visit_all m step roots order) (next_roots m roots []) (step + 1)) where
    abbrev IsDone : Option (Result E (Steps × ℕ)) → Type 0
    IsDone (some (ok (final, steps))) = P final [] steps
    IsDone _ = Unit

    pub solve_loop-keeps :
        (fuel step : ℕ) (roots : List String) (order : Steps)
        → AreVertices roots
        → P order roots step
        → (final : Steps) (steps : ℕ)
        → solve_loop g fuel step roots order ≡ some (ok (final, steps))
        → P final [] steps
    solve_loop-keeps zero step [] order h p final steps e =
        subst (λ r. IsDone r) (sym (solve_loop-nil zero step order) ∙ e) p
    solve_loop-keeps (suc fuel) step [] order h p final steps e =
        subst (λ r. IsDone r) (sym (solve_loop-nil (suc fuel) step order) ∙ e) p
    solve_loop-keeps zero step (r ∷ rs) order h p final steps e =
        cc (solve_loop-zero step r rs order)
    solve_loop-keeps (suc fuel) step (r ∷ rs) order h p final steps e =
        solve_loop-keeps fuel (step + 1) _ _ (next_roots-AreVertices (r ∷ rs))
          (round step (r ∷ rs) order h p) final steps
          (sym (solve_loop-suc fuel step r rs order h) ∙ e)

  -- A rank that grows along the edges, and stays below `bound`: the graph has no cycle.
  pub record IsRanked (rank : String → ℕ) (bound : ℕ) : Type 0 where
    pub grows : (u v : String) → elem u (preds v) ≡ true → rank u < rank v
    pub below : (v : String) → elem v vertices ≡ true → rank v < bound

  module _ (rank : String → ℕ) (bound : ℕ) (k : IsRanked rank bound) where
    pub solve_loop_total :
        (fuel step : ℕ) (roots : List String) (order : Steps)
        → AreVertices roots
        → ((v : String) → elem v roots ≡ true → step ≤ rank v)
        → bound ≤ step + fuel
        → (final : Steps) × (steps : ℕ) × (solve_loop g fuel step roots order
            ≡ some (ok (final, steps)))
    solve_loop_total fuel step [] order h low enough = (order, step, solve_loop-nil fuel step order)
    solve_loop_total zero step (r ∷ rs) order h low enough = absurd (
        omega
          (arith, low r (ground (arith, eq_iff r r)), k.below r (h r (ground (arith, eq_iff r r)))))
    solve_loop_total (suc fuel) step (r ∷ rs) order h low enough =
        let (final, steps, e) =
          solve_loop_total fuel (step + 1) (next_roots m (r ∷ rs) [])
            (visit_all m step (r ∷ rs) order) (next_roots-AreVertices (r ∷ rs)) low'
            (omega arith) in
        (final, steps, solve_loop-suc fuel step r rs order h ∙ e)
      where
        low' : (v : String) → elem v (next_roots m (r ∷ rs) []) ≡ true → step + 1 ≤ rank v
        low' v e = elim (next_roots-from m v (r ∷ rs) [] e) [
          | inl none' ↦ absurd (ground arith)
          | inr (c, e, f) ↦ omega (arith, low c e, k.grows c v (sym (edges c v) ∙ f))
        ]

    -- Where every vertex with placed predecessors is placed, every vertex is.
    pub IsSettled-nil :
        (order : Steps)
        → IsSettled m order []
        → (n : ℕ) (v : String) → rank v < n
        → elem v vertices ≡ true
        → has v order ≡ true
    IsSettled-nil order h zero v low e = absurd (omega arith)
    IsSettled-nil order h (suc n) v low e =
        elim (h v e (
          all_intro (λ p. has p order) (preds v)
            λ p edge.
              IsSettled-nil order h n p (omega (arith, k.grows p v edge)) (m.preds_in p v edge))) [
                | inl placed ↦ placed
                | inr root ↦ absurd (ground arith)
              ]

  pub IsSettled-sources : IsSettled m [] g.source_vertices
  IsSettled-sources v e ready = inr (sources_have v e (all_has_nil (preds v) ready))
    where
      all_has_nil : (pp : List String) → all_placed [] pp ≡ true → pp ≡ []
      all_has_nil [] h = refl
      all_has_nil (p ∷ pp) h = absurd (ground arith)
