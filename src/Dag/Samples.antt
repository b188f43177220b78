-- ===== src/Dag/Samples.antt =====
-- Small graphs, and what dag.go makes of them.
use operator_toolkit.Prelude.{
  ℕ, zero, suc, ◌+◌, ◌<◌, ◌≤◌, String, true, false, ◌==◌, List, [], ◌∷◌, none, some, ◌≡◌, refl, sym,
  ◌∙◌, arith, ok, if◌then◌else◌, elem, has, lookup, ltb, nat_eq, Bool-cases, inl, inr, eq_iff,
}
use operator_toolkit.Dag.{
  Graph, IsGraph, Steps, vertex_exists, add_missing, satisfied_by, place,
  add_successors_to_new_roots, visit_root, visit_roots, solve_step, solve_loop, solve,
}
use operator_toolkit.Dag.Listed.{
  Edges, listed, listed-IsGraph, heads-tails, tails, heads, tails-all,
}
use operator_toolkit.Dag.Solve.{IsRanked}
use operator_toolkit.Dag.Bounds.{solve-steps}
use operator_toolkit.Dag.Schedule.{solve-timely, solve-total, solve-diverges, solve-omits_cycle}
use operator_toolkit.Dag.Levels.{IsLevelled, solve-level, solve_step-shares_step}

abbrev pub diamond_ids : List String
diamond_ids = "a" ∷ "b" ∷ "c" ∷ "d" ∷ []

abbrev pub diamond_edges : Edges
diamond_edges = ("a", "b") ∷ ("a", "c") ∷ ("b", "d") ∷ ("c", "d") ∷ []

abbrev pub diamond : Graph String
diamond = listed diamond_ids diamond_edges

abbrev pub diamond-IsGraph : IsGraph diamond
diamond-IsGraph = listed-IsGraph diamond_ids diamond_edges refl

abbrev diamond_order : Steps
diamond_order = ("a", 0) ∷ ("b", 1) ∷ ("c", 1) ∷ ("d", 2) ∷ []

diamond_solved : solve diamond 3 ≡ some (ok (diamond_order, 3))
unfolding solve solve_loop solve_step visit_roots visit_root add_successors_to_new_roots add_missing
    vertex_exists place satisfied_by
diamond_solved = refl

-- The level of each vertex of the diamond.
abbrev pub level : String → ℕ
level v = if v == "a" then 0 else if v == "d" then 2 else 1

pub diamond-IsRanked : IsRanked diamond-IsGraph level 3
diamond-IsRanked = record {
  grows =
      λ u v e. ground (arith, tails-all (λ a b. ltb (level a) (level b)) diamond_edges u v refl e);
  below = λ v h. ground arith;
}

nat_eq→eq : (m n : ℕ) → nat_eq m n ≡ true → m ≡ n
nat_eq→eq m n h = ground arith

diamond-IsLevelled : IsLevelled diamond-IsGraph level
diamond-IsLevelled = record {
  at_sources = λ v h. ground (arith, h, eq_iff "a" v);
  along = λ u v e. nat_eq→eq (level v) (level u + 1) (
      tails-all (λ a b. nat_eq (level b) (level a + 1)) diamond_edges u v refl
        (sym (heads-tails diamond_edges u v) ∙ e));
}

solve-timely_example :
    ((v : String) (s : ℕ) → lookup v diamond_order ≡ some s → s < 3)
    × ((v : String) (s : ℕ)
        → lookup v diamond_order ≡ some s
        → (p : String) → elem p (tails diamond_edges v) ≡ true
        → (t : ℕ) × (lookup p diamond_order ≡ some t) × (t ≤ s))
solve-timely_example = solve-timely diamond-IsGraph 3 diamond_order 3 diamond_solved

solve-total_example :
    (order : Steps) × (steps : ℕ) × (solve diamond 5 ≡ some (ok (order, steps)))
    × ((v : String) → elem v diamond_ids ≡ true → has v order ≡ true)
solve-total_example = solve-total diamond-IsGraph level 3 diamond-IsRanked 5 (omega arith)

solve-steps_example : 3 ≤ 3
solve-steps_example =
    solve-steps diamond-IsGraph level 3 3 diamond_order 3 diamond-IsRanked diamond_solved

solve-level_example :
    (order : Steps) × (steps : ℕ) × (solve diamond 4 ≡ some (ok (order, steps)))
    × ((v : String)
        → elem v diamond_ids ≡ true
        → (lookup v order ≡ some (level v))
          × ((p : String) → elem p (tails diamond_edges v) ≡ true → level v ≡ level p + 1))
solve-level_example =
    solve-level diamond-IsGraph level diamond-IsLevelled 3 diamond-IsRanked.below 4 (omega arith)

-- The requirements of `b` and `c` on each other, which the source vertex `a` leads to.
abbrev entered : Edges
entered = ("a", "b") ∷ ("b", "c") ∷ ("c", "b") ∷ []

abbrev turn : ℕ → String → String → String
turn zero x y = x
turn (suc n) x y = turn n y x

abbrev around : ℕ → String
around zero = "a"
around (suc n) = turn n "b" "c"

turns :
    (n : ℕ) (x y : String)
    → elem y (heads entered x) ≡ true
    → elem x (heads entered y) ≡ true
    → elem (turn n y x) (heads entered (turn n x y)) ≡ true
turns zero x y h k = h
turns (suc n) x y h k = turns n y x k h

goes_around : (n : ℕ) → elem (around (suc n)) (heads entered (around n)) ≡ true
goes_around zero = refl
goes_around (suc n) = turns n "b" "c" refl refl

solve-diverges_example : solve (listed ("a" ∷ "b" ∷ "c" ∷ []) entered) 100 ≡ none
solve-diverges_example =
    solve-diverges (listed-IsGraph ("a" ∷ "b" ∷ "c" ∷ []) entered refl) around refl goes_around 100

-- Without a way in from `a` the cycle is never visited.
abbrev apart : Edges
apart = ("b", "c") ∷ ("c", "b") ∷ []

abbrev apart_order : Steps
apart_order = ("a", 0) ∷ []

apart_solved : solve (listed ("a" ∷ "b" ∷ "c" ∷ []) apart) 1 ≡ some (ok (apart_order, 1))
unfolding solve solve_loop solve_step visit_roots visit_root add_successors_to_new_roots add_missing
    vertex_exists place satisfied_by
apart_solved = refl

apart-IsCyclic :
    (v : String)
    → elem v ("b" ∷ "c" ∷ []) ≡ true
    → (p : String) × (elem p ("b" ∷ "c" ∷ []) ≡ true) × (elem p (tails apart v) ≡ true)
apart-IsCyclic v h = elim (Bool-cases ("b" == v)) [
  | inl b ↦ ("c", refl, ground (arith, eq_iff "b" v))
  | inr other ↦ ("b", refl, ground (arith, h, eq_iff "c" v))
]

solve-omits_cycle_example : has "b" apart_order ≡ false
solve-omits_cycle_example =
    solve-omits_cycle (listed-IsGraph ("a" ∷ "b" ∷ "c" ∷ []) apart refl) ("b" ∷ "c" ∷ [])
      apart-IsCyclic 1 apart_order 1 apart_solved "b" refl

-- `c` requires `a` and `b`, and `b` requires `a`: both are visited in the round after that of `a`.
abbrev short_cut : Edges
short_cut = ("a", "b") ∷ ("a", "c") ∷ ("b", "c") ∷ []

abbrev short_cut-IsGraph : IsGraph (listed ("a" ∷ "b" ∷ "c" ∷ []) short_cut)
short_cut-IsGraph = listed-IsGraph ("a" ∷ "b" ∷ "c" ∷ []) short_cut refl

abbrev together : Steps
together = ("a", 0) ∷ ("b", 1) ∷ ("c", 1) ∷ []

second_round :
    solve_step (listed ("a" ∷ "b" ∷ "c" ∷ []) short_cut) 1 ("b" ∷ "c" ∷ []) (("a", 0) ∷ [])
    ≡ ok ("c" ∷ [], together)
unfolding solve_step visit_roots visit_root add_successors_to_new_roots add_missing vertex_exists
    place satisfied_by
second_round = refl

short_cut_roots :
    (v : String) → elem v ("b" ∷ "c" ∷ []) ≡ true → elem v ("a" ∷ "b" ∷ "c" ∷ []) ≡ true
short_cut_roots v h = ground arith

solve_step-shares_step_example : (lookup "b" together ≡ some 1) × (lookup "c" together ≡ some 1)
solve_step-shares_step_example =
    solve_step-shares_step short_cut-IsGraph 1 "b" "c" ("c" ∷ []) (("a", 0) ∷ []) short_cut_roots
      refl refl refl refl refl ("c" ∷ []) together second_round
