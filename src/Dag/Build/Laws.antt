-- ===== src/Dag/Build/Laws.antt =====
-- dag.go, `NewOperandDAG`: what the graph library documents of the calls that build a graph, and what
-- the loop over one operand's requirements does by them.
use operator_toolkit.Prelude.{
  String, Bool, true, false, not, ◌&&◌, ◌||◌, ◌==◌, List, [], ◌∷◌, ◌≡◌, ◌⊎◌, inl, inr, refl, arith,
  ◌∙◌, ok, err, if◌then◌else◌, elem, eq_refl, Bool-cases,
}
use operator_toolkit.Dag.{IsGraph}
use operator_toolkit.Dag.Build.{DagLib, Named, add_edges}

-- A vertex is added under an ID that is not there, and found under it; an edge is added between two
-- vertices once. Nothing is said of a vertex that is added under an ID that is there already.
pub record IsDagLib {E Op G : Type 0} (lib : DagLib E Op G) : Type 0 where
  pub graph : (od : G) → IsGraph (lib.queries od)
  pub no_vertices : (v : String) → elem v (graph lib.new_dag).vertices ≡ false
  pub add_vertex_new :
      (od : G) (v : String) (op : Op)
      → elem v (graph od).vertices ≡ false
      → (od' : G) × (lib.add_vertex od v op ≡ ok od')
        × ((w : String) → elem w (graph od').vertices ≡ (v == w || elem w (graph od).vertices))
        × ((u w : String) → elem u ((graph od').preds w) ≡ elem u ((graph od).preds w))
        × ((w : String) → lib.get_vertex od' w ≡ (if v == w then ok op else lib.get_vertex od w))
  pub get_vertex_none :
      (od : G) (v : String)
      → elem v (graph od).vertices ≡ false
      → (e : E) × (lib.get_vertex od v ≡ err e)
  pub get_vertex_some :
      (od : G) (v : String)
      → elem v (graph od).vertices ≡ true
      → (op : Op) × (lib.get_vertex od v ≡ ok op)
  pub add_edge_old :
      (od : G) (t h : String)
      → elem t ((graph od).preds h) ≡ true
      → (e : E) × (lib.add_edge od t h ≡ err e)
  pub add_edge_new :
      (od : G) (t h : String)
      → elem t (graph od).vertices ≡ true
      → elem h (graph od).vertices ≡ true
      → elem t ((graph od).preds h) ≡ false
      → (od' : G) × (lib.add_edge od t h ≡ ok od')
        × ((w : String) → elem w (graph od').vertices ≡ elem w (graph od).vertices)
        × ((u w : String)
            → elem u ((graph od').preds w) ≡ (elem u ((graph od).preds w) || (t == u && h == w)))
        × ((w : String) → lib.get_vertex od' w ≡ lib.get_vertex od w)

-- Do the names stand once each in the list, and none of them among those seen?
abbrev pub distinct_from : List String → List String → Bool
distinct_from seen [] = true
distinct_from seen (n ∷ ns) = not (elem n seen) && distinct_from (n ∷ seen) ns

-- Are all of the names known, and each listed once?
abbrev pub edges_ok : (List String) → List String → List String → Bool
edges_ok known seen [] = true
edges_ok known seen (d ∷ ds) = (elem d known && not (elem d seen)) && edges_ok known (d ∷ seen) ds

module _ {E Op G : Type 0} {lib : DagLib E Op G} (l : IsDagLib lib) (operand : Named Op) where
  abbrev pub is_vertex : G → String → Bool
  is_vertex od v = elem v (l.graph od).vertices

  abbrev pub is_pred : G → String → String → Bool
  is_pred od u w = elem u ((l.graph od).preds w)

  -- The vertices and their values are as they were.
  abbrev pub SameVertices : G → G → Type 0
  SameVertices od od' =
      ((w : String) → is_vertex od' w ≡ is_vertex od w)
      × ((w : String) → lib.get_vertex od' w ≡ lib.get_vertex od w)

  -- The loop over the requirements `deps` of `head`, of which those in `seen` are done.
  pub add_edges_lem :
      (head : String) (known seen deps : List String) (od : G)
      → ((v : String) → is_vertex od v ≡ elem v known)
      → elem head known ≡ true
      → ((u : String) → is_pred od u head ≡ elem u seen)
      → ((edges_ok known seen deps ≡ true)
          × ((od' : G) × (add_edges lib operand head deps od ≡ ok od')
              × SameVertices od od'
              × ((u w : String)
                  → is_pred od' u w ≡ (is_pred od u w || (head == w && elem u deps)))))
        ⊎ ((edges_ok known seen deps ≡ false)
            × ((e : E) × (add_edges lib operand head deps od ≡ err e)))
  unfolding add_edges
  add_edges_lem head known seen [] od vs there ps =
      inl (refl, (od, refl, ((λ w. refl), (λ w. refl)), λ u w. ground arith))
  add_edges_lem head known seen (d ∷ ds) od vs there ps = elim (Bool-cases (elem d known)) [
    | inr unknown ↦
        let (e, bad) = l.get_vertex_none od d (vs d ∙ unknown) in
        inr (ground (arith, unknown), (e, rw bad))
    | inl is ↦
        let (op, got) = l.get_vertex_some od d (vs d ∙ is) in
        elim (Bool-cases (elem d seen)) [
          | inl again ↦
              let (e, bad) = l.add_edge_old od d head (ps d ∙ again) in
              inr (ground (arith, again), (e, rw (got, bad)))
          | inr new ↦
              let (od1, added, vs1, ps1, got1) =
                l.add_edge_new od d head (vs d ∙ is) (vs head ∙ there) (ps d ∙ new) in
              elim (add_edges_lem head known (d ∷ seen) ds od1 (λ v. vs1 v ∙ vs v) there
                (λ u. ground (arith, ps1 u head, ps u, eq_refl head))) [
                  | inl (fine, (od', run, (same_v, same_g), more)) ↦ inl (
                    ground (arith, is, new, fine),
                    (
                      od',
                      rw (got, added) run,
                      ((λ w. same_v w ∙ vs1 w), (λ w. same_g w ∙ got1 w)),
                      (λ u w. ground (arith, more u w, ps1 u w)),
                    ),
                  )
                  | inr (bad, (e, run)) ↦
                      inr (ground (arith, is, new, bad), (e, rw (got, added) run))
                ]
        ]
  ]
