-- ===== src/Dag/Build/Samples.antt =====
-- A small graph library, and what `NewOperandDAG` and `Order` make of it.
use operator_toolkit.Prelude.{
  String, true, false, ◌==◌, ◌⊎◌, some, map, List, [], ◌∷◌, ◌≡◌, refl, arith, ok, err,
  if◌then◌else◌, elem,
}
use operator_toolkit.Dag.{
  vertex_exists, add_missing, satisfied_by, place, add_successors_to_new_roots, visit_root,
  visit_roots, solve_step, solve_loop, solve,
}
use operator_toolkit.Dag.Listed.{Edges, listed, tails}
use operator_toolkit.Dag.Samples.{
  diamond_ids, diamond_edges, diamond-IsGraph, diamond-IsRanked, level,
}
use operator_toolkit.Dag.Build.{
  DagLib, Named, returns, new_operand_dag, order, fill, append_at, add_vertices, add_edges, connect,
}
use operator_toolkit.Dag.Build.Laws.{IsDagLib, is_vertex, is_pred}
use operator_toolkit.Dag.Build.Accepts.{
  find_named, requires_in, well_required, new_operand_dag-accepts,
}
use operator_toolkit.Dag.Build.Library.{ListedDag, listed_lib, listed_lib-IsDagLib}
use operator_toolkit.Dag.Build.Schedule.{IsSchedule, order-IsSchedule}

-- A graph library over such graphs, whose operands are their names.
abbrev names : DagLib String String (List String × Edges)
names = record {
  new_dag = ([], []);
  add_vertex = λ od v op. ok (v ∷ od.0, od.1);
  get_vertex = λ od v. if elem v od.0 then ok v else err v;
  add_edge = λ od t h. ok (od.0, (t, h) ∷ od.1);
  queries = λ od. listed od.0 od.1;
}

order-IsSchedule_example :
    (rows : List (List String)) × (order names (λ soln. soln) 3 (diamond_ids, diamond_edges)
      ≡ returns (ok rows))
    × IsSchedule (λ op. op) diamond_ids (tails diamond_edges) rows
order-IsSchedule_example =
    order-IsSchedule names (diamond_ids, diamond_edges) diamond-IsGraph (λ op. op) (λ n. n)
      (λ soln. soln) (λ n h. rw h refl) (λ n. refl)
      (record { keeps = λ soln n d. refl; distinct = λ soln d. d }) level 3 3 diamond-IsRanked
      (omega arith)

-- The operands of dag_test.go's first case, and the steps that it expects of them.
abbrev requirements : String → List String
requirements n =
    if n == "B" then "A" ∷ [] else if n == "C" then "A" ∷ [] else if n == "D" then "B" ∷ [] else []

built_order :
    (order names
      (λ soln. soln)
      3
      (("D" ∷ "C" ∷ "B" ∷ "A" ∷ []), (("B", "D") ∷ ("A", "C") ∷ ("A", "B") ∷ [])))
    ≡ returns (ok (("A" ∷ []) ∷ ("C" ∷ "B" ∷ []) ∷ ("D" ∷ []) ∷ []))
unfolding order fill append_at solve solve_loop solve_step visit_roots visit_root
    add_successors_to_new_roots add_missing vertex_exists place satisfied_by
built_order = refl

built :
    new_operand_dag names
      (record { name = λ n. n; requires = requirements })
      ("A" ∷ "B" ∷ "C" ∷ "D" ∷ [])
    ≡ ok (("D" ∷ "C" ∷ "B" ∷ "A" ∷ []), (("B", "D") ∷ ("A", "C") ∷ ("A", "B") ∷ []))
unfolding new_operand_dag add_vertices connect add_edges
built = refl

-- The same operands over the library of listed vertices, and an operand that requires what is not there.
abbrev by_requirement : Named String
by_requirement = record { name = λ n. n; requires = requirements }

abbrev four : List String
four = "A" ∷ "B" ∷ "C" ∷ "D" ∷ []

listed_names-IsDagLib : IsDagLib (listed_lib {E = String} {Op = String} (λ v. v))
listed_names-IsDagLib = listed_lib-IsDagLib (λ v. v)

refused : new_operand_dag (listed_lib {E = String} (λ v. v)) by_requirement ("B" ∷ []) ≡ err "A"
unfolding new_operand_dag add_vertices connect add_edges
refused = refl

new_operand_dag-accepts_example :
    ((well_required by_requirement four ≡ true)
      × ((od : ListedDag String) × (new_operand_dag (listed_lib (λ v. v)) by_requirement four
            ≡ ok od)
          × ((v : String)
              → is_vertex listed_names-IsDagLib by_requirement od v ≡ elem v (map (λ n. n) four))
          × ((u w : String)
              → is_pred listed_names-IsDagLib by_requirement od u w
                ≡ requires_in by_requirement four u w)
          × ((w : String) (op : String)
              → find_named by_requirement four w ≡ some op
              → (listed_lib {E = String} (λ v. v)).get_vertex od w ≡ ok op)))
    ⊎ ((well_required by_requirement four ≡ false)
        × ((e : String) × (new_operand_dag (listed_lib (λ v. v)) by_requirement four ≡ err e)))
new_operand_dag-accepts_example =
    new_operand_dag-accepts by_requirement listed_names-IsDagLib four refl
