-- ===== src/Dag.antt =====
-- operator/v1/dag/dag.go: the graph of the operands' requirements, and the order of execution that
-- is read off it. A `*dag.Vertex` is named by its ID, and its value is what `get_vertex` finds.
pub mod View
pub mod Build
pub mod Levels
pub mod Schedule
pub mod Bounds
pub mod Solve
pub mod Placed
pub mod Listed
pub mod Samples
use operator_toolkit.Prelude.{
  ℕ, zero, suc, ◌+◌, String, Bool, true, false, ◌||◌, ◌==◌, Option, none, some, List, [], ◌∷◌, ◌++◌,
  ◌≡◌, refl, Result, ok, err, ◌>>=◌, if◌then◌else◌, elem, has, insert, all,
}

-- What the graph library (github.com/goombaio/dag) answers: a parameter of the model.
pub record Graph (E : Type 0) : Type 0 where
  pub source_vertices : List String
  pub predecessors : String → Result E (List String)
  pub successors : String → Result E (List String)

-- What that library documents: the queries succeed on a vertex of the graph, a successor of a vertex
-- is a vertex that has it for a predecessor, and the source vertices are those without predecessors.
pub record IsGraph {E : Type 0} (g : Graph E) : Type 0 where
  pub vertices : List String
  pub preds : String → List String
  pub succs : String → List String
  pub predecessors_ok : (v : String) → elem v vertices ≡ true → g.predecessors v ≡ ok (preds v)
  pub successors_ok : (v : String) → elem v vertices ≡ true → g.successors v ≡ ok (succs v)
  pub preds_in : (u v : String) → elem u (preds v) ≡ true → elem u vertices ≡ true
  pub succs_in : (u v : String) → elem v (succs u) ≡ true → elem v vertices ≡ true
  pub edges : (u v : String) → elem v (succs u) ≡ elem u (preds v)
  pub sources_in : (v : String) → elem v g.source_vertices ≡ true → elem v vertices ≡ true
  pub sources_have :
      (v : String) → elem v vertices ≡ true → preds v ≡ [] → elem v g.source_vertices ≡ true
  pub sources_free : (v : String) → elem v g.source_vertices ≡ true → preds v ≡ []

-- The map `order` of the source: the step that is given to a vertex.
abbrev pub Steps : Type 0
Steps = List (String × ℕ)

pub vertex_exists : List String → String → Bool
vertex_exists [] target = false
vertex_exists (v ∷ vs) target = if v == target then true else vertex_exists vs target

-- The loop of `addSuccessorsToNewRoots`: "add to root if not exists".
pub add_missing : List String → List String → List String
add_missing [] new_roots = new_roots
add_missing (s ∷ ss) new_roots =
    add_missing ss (if vertex_exists new_roots s then new_roots else new_roots ++ (s ∷ []))

-- The loop over the predecessors in `solveStep`, with `satisfied` so far.
pub satisfied_by : Steps → List String → Bool → Bool
satisfied_by order [] satisfied = satisfied
satisfied_by order (p ∷ pp) satisfied =
    satisfied_by order pp (if has p order then satisfied else false)

-- The new state of `order` when a vertex that it lacks is visited with predecessors `pp`.
pub place : ℕ → Steps → String → List String → Steps
place step order c [] = insert c step order
place step order c (p ∷ pp) =
    if satisfied_by order (p ∷ pp) true then insert c step order else order

module _ {E : Type 0} (g : Graph E) where
  pub add_successors_to_new_roots : String → List String → Result E (List String)
  add_successors_to_new_roots v new_roots = do ss ← g.successors v; ok (add_missing ss new_roots)

  -- The body of the loop of `solveStep`. Each of its paths ends with the successors.
  pub visit_root : ℕ → String → List String → Steps → Result E (List String × Steps)
  visit_root step c new_roots order =
      if has c order
      then (do new_roots' ← add_successors_to_new_roots c new_roots; ok (new_roots', order))
      else (do
        pp ← g.predecessors c
        new_roots' ← add_successors_to_new_roots c new_roots
        ok (new_roots', place step order c pp))

  pub visit_roots : ℕ → List String → List String → Steps → Result E (List String × Steps)
  visit_roots step [] new_roots order = ok (new_roots, order)
  visit_roots step (c ∷ current_roots) new_roots order =
      visit_root step c new_roots order >>= λ state. visit_roots step current_roots state.0 state.1

  pub solve_step : ℕ → List String → Steps → Result E (List String × Steps)
  solve_step step current_roots order = visit_roots step current_roots [] order

  -- The loop of `solve`, on fuel: `none` means that the fuel ran out.
  pub solve_loop : ℕ → ℕ → List String → Steps → Option (Result E (Steps × ℕ))
  solve_loop fuel step [] order = some (ok (order, step))
  solve_loop zero step (r ∷ rs) order = none
  solve_loop (suc fuel) step (r ∷ rs) order = elim (solve_step step (r ∷ rs) order) [
    | ok (new_roots, order') ↦ solve_loop fuel (step + 1) new_roots order'
    | err e ↦ some (err e)
  ]

  unfoldable pub solve : ℕ → Option (Result E (Steps × ℕ))
  solve fuel = solve_loop fuel 0 g.source_vertices []
