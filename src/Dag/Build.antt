-- ===== src/Dag/Build.antt =====
-- dag.go, `NewOperandDAG` and `Order`: from the operands to the graph, and from the solution to the
-- steps of operands.
pub mod Filled
pub mod Laws
pub mod Accepts
pub mod Library
pub mod Schedule
pub mod Samples
use operator_toolkit.Prelude.{
  ℕ, zero, suc, String, Option, none, some, List, [], ◌∷◌, ◌++◌, Result, ok, err, ◌>>=◌, replicate,
}
use operator_toolkit.Dag.{Graph, Steps, solve}

-- The operations of the graph library that dag.go calls: a parameter of the model. A graph is a
-- value, and the value of a vertex is what `get_vertex` returns.
pub record DagLib (E Op G : Type 0) : Type 0 where
  pub new_dag : G
  pub add_vertex : G → String → Op → Result E G
  pub get_vertex : G → String → Result E Op
  pub add_edge : G → (tail head : String) → Result E G
  pub queries : G → Graph E

-- The parts of an operand that the order depends on.
pub record Named (Op : Type 0) : Type 0 where
  pub name : Op → String
  pub requires : Op → List String

-- A call that does not return, one that panics, and one that returns.
pub data Outcome (A : Type 0) : Type 0 where
  runs_on panics : Outcome A
  returns : A → Outcome A

module _ {E Op G : Type 0} (lib : DagLib E Op G) (operand : Named Op) where
  open lib use {new_dag, add_vertex, get_vertex, add_edge, queries}
  open operand use {name, requires}

  pub add_vertices : List Op → G → Result E G
  add_vertices [] od = ok od
  add_vertices (op ∷ operands) od = add_vertex od (name op) op >>= add_vertices operands

  -- "Connect the operand to all the vertices it depends on."
  pub add_edges : String → List String → G → Result E G
  add_edges head [] od = ok od
  add_edges head (dep ∷ deps) od = do
    _ ← get_vertex od dep
    od' ← add_edge od dep head
    add_edges head deps od'

  pub connect : List Op → G → Result E G
  connect [] od = ok od
  connect (op ∷ operands) od = do
    _ ← get_vertex od (name op)
    od' ← add_edges (name op) (requires op) od
    connect operands od'

  pub new_operand_dag : List Op → Result E G
  new_operand_dag operands = add_vertices operands new_dag >>= connect operands

-- `result[step] = append(result[step], op)`; `none` is an index out of range.
pub append_at {ℓ} : {A : Type ℓ} → ℕ → A → List (List A) → Option (List (List A))
append_at step op [] = none
append_at zero op (ops ∷ result) = some ((ops ++ (op ∷ [])) ∷ result)
append_at (suc step) op (ops ∷ result) = elim (append_at step op result) [
  | none ↦ none
  | some result' ↦ some (ops ∷ result')
]

module _ {E Op G : Type 0} (lib : DagLib E Op G) where
  -- The loop of `Order` over the entries of the solution, in the order in which the map gives them.
  pub fill : G → Steps → List (List Op) → Outcome (Result E (List (List Op)))
  fill od [] result = returns (ok result)
  fill od ((name, step) ∷ soln) result = elim (lib.get_vertex od name) [
    | err verr ↦ returns (err verr)
    | ok op ↦ elim (append_at step op result) [
      | none ↦ panics
      | some result' ↦ fill od soln result'
    ]
  ]

  -- `Order`, with fuel for the loop of `solve`; `range` is the order of the iteration over the map.
  pub order : (range : Steps → Steps) (fuel : ℕ) → G → Outcome (Result E (List (List Op)))
  order range fuel od = elim (solve (lib.queries od) fuel) [
    | none ↦ runs_on
    | some (err e) ↦ returns (err e)
    | some (ok (soln, steps)) ↦ fill od (range soln) (replicate steps [])
  ]
