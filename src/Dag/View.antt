-- ===== src/Dag/View.antt =====
-- dag.go over a graph that answers as documented: what a round does to the roots and to the order.
use operator_toolkit.Prelude.{
  ℕ, String, Bool, true, false, ◌||◌, ◌&&◌, ◌==◌, List, [], ◌∷◌, ◌++◌, ◌≡◌, refl, ok, if◌then◌else◌,
  elem, elem-append, has, insert, all, arith, Bool-cases, inl, inr, ◌⊎◌, eq_iff,
}
use operator_toolkit.Dag.{
  Graph, IsGraph, Steps, vertex_exists, add_missing, satisfied_by, place,
  add_successors_to_new_roots, visit_root, visit_roots, solve_step,
}

vertex_exists-eq-elem : (vs : List String) (v : String) → vertex_exists vs v ≡ elem v vs
unfolding vertex_exists
vertex_exists-eq-elem [] v = refl
vertex_exists-eq-elem (w ∷ vs) v = ground (arith, vertex_exists-eq-elem vs v)

pub elem-add_missing :
    (w : String) (ss roots : List String)
    → elem w (add_missing ss roots) ≡ (elem w roots || elem w ss)
unfolding add_missing
elem-add_missing w [] roots = ground arith
elem-add_missing w (s ∷ ss) roots = elim (Bool-cases (vertex_exists roots s)) [
  | inl old ↦
      rw old
        (ground (arith, elem-add_missing w ss roots, eq_iff s w, vertex_exists-eq-elem roots s))
  | inr new ↦
      rw new
        (ground (arith, elem-add_missing w ss (roots ++ (s ∷ [])), elem-append w roots (s ∷ [])))
]

satisfied_by-eq-all :
    (order : Steps) (pp : List String) (b : Bool)
    → satisfied_by order pp b ≡ (b && all (λ p. has p order) pp)
unfolding satisfied_by
satisfied_by-eq-all order [] b = ground arith
satisfied_by-eq-all order (p ∷ pp) b =
    ground (arith, satisfied_by-eq-all order pp (if has p order then b else false))

-- Are all of `pp` placed?
abbrev pub all_placed : Steps → List String → Bool
all_placed order pp = all (λ p. has p order) pp

pub place-eq-if :
    (step : ℕ) (order : Steps) (c : String) (pp : List String)
    → place step order c pp ≡ (if all_placed order pp then insert c step order else order)
unfolding place
place-eq-if step order c [] = refl
place-eq-if step order c (p ∷ pp) = rw satisfied_by-eq-all

module _ {E : Type 0} {g : Graph E} (m : IsGraph g) where
  open m use {vertices, preds, succs, predecessors_ok, successors_ok}

  -- The roots of the next round, and the order after the visit of one root and of all.
  abbrev pub next_roots : List String → List String → List String
  next_roots [] roots = roots
  next_roots (c ∷ cs) roots = next_roots cs (add_missing (succs c) roots)

  abbrev pub visit : ℕ → String → Steps → Steps
  visit step c order = if has c order then order else place step order c (preds c)

  abbrev pub visit_all : ℕ → List String → Steps → Steps
  visit_all step [] order = order
  visit_all step (c ∷ cs) order = visit_all step cs (visit step c order)

  visit_root-eq-ok :
      (step : ℕ) (c : String) (roots : List String) (order : Steps)
      → elem c vertices ≡ true
      → visit_root g step c roots order ≡ ok (add_missing (succs c) roots, visit step c order)
  unfolding visit_root add_successors_to_new_roots
  visit_root-eq-ok step c roots order h = elim (Bool-cases (has c order)) [
    | inl old ↦ rw (old, successors_ok c h)
    | inr new ↦ rw (new, predecessors_ok c h, successors_ok c h)
  ]

  visit_roots-eq-ok :
      (step : ℕ) (cs roots : List String) (order : Steps)
      → ((c : String) → elem c cs ≡ true → elem c vertices ≡ true)
      → visit_roots g step cs roots order ≡ ok (next_roots cs roots, visit_all step cs order)
  unfolding visit_roots
  visit_roots-eq-ok step [] roots order h = refl
  visit_roots-eq-ok step (c ∷ cs) roots order h =
      rw (visit_root-eq-ok step c roots order (h c (ground (arith, eq_iff c c))))
        (visit_roots-eq-ok step cs _ _ (λ d e. h d (ground arith)))

  pub solve_step-eq-ok :
      (step : ℕ) (cs : List String) (order : Steps)
      → ((c : String) → elem c cs ≡ true → elem c vertices ≡ true)
      → solve_step g step cs order ≡ ok (next_roots cs [], visit_all step cs order)
  unfolding solve_step
  solve_step-eq-ok step cs order h = visit_roots-eq-ok step cs [] order h

  -- The next roots are the successors of the roots.
  pub next_roots-keep :
      (w : String) (cs roots : List String)
      → elem w roots ≡ true
      → elem w (next_roots cs roots) ≡ true
  next_roots-keep w [] roots h = h
  next_roots-keep w (c ∷ cs) roots h =
      next_roots-keep w cs _ (ground (arith, elem-add_missing w (succs c) roots))

  pub next_roots-add :
      (c w : String) (cs roots : List String)
      → elem c cs ≡ true
      → elem w (succs c) ≡ true
      → elem w (next_roots cs roots) ≡ true
  next_roots-add c w [] roots h e = absurd (ground arith)
  next_roots-add c w (d ∷ cs) roots h e = elim (Bool-cases (d == c)) [
    | inl same ↦
        next_roots-keep w cs _ (rw (elem-add_missing, (eq_iff d c).0 same, e) (ground arith))
    | inr other ↦ next_roots-add c w cs _ (ground arith) e
  ]

  pub next_roots-from :
      (w : String) (cs roots : List String)
      → elem w (next_roots cs roots) ≡ true
      → (elem w roots ≡ true) ⊎ ((c : String) × (elem c cs ≡ true) × (elem w (succs c) ≡ true))
  next_roots-from w [] roots h = inl h
  next_roots-from w (c ∷ cs) roots h = elim (next_roots-from w cs _ h) [
    | inl now ↦ elim (Bool-cases (elem w roots)) [
      | inl old ↦ inl old
      | inr new ↦
          inr (c, ground (arith, eq_iff c c), ground (arith, elem-add_missing w (succs c) roots))
    ]
    | inr (d, e, f) ↦ inr (d, ground arith, f)
  ]
