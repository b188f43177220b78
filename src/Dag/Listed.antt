-- ===== src/Dag/Listed.antt =====
-- A graph given by the list of its edges, tail first: a concrete instance of the graph library's
-- parameter, on which the definitions of dag.go run.
use operator_toolkit.Prelude.{
  String, Bool, true, false, ◌&&◌, ◌==◌, List, [], ◌∷◌, ◌≡◌, refl, arith, ok, err, if◌then◌else◌,
  elem, all, eq_iff,
}
use operator_toolkit.Dag.{Graph, IsGraph}

abbrev pub Edges : Type 0
Edges = List (String × String)

abbrev pub tails : Edges → String → List String
tails [] v = []
tails ((t, h) ∷ es) v = if h == v then t ∷ tails es v else tails es v

abbrev pub heads : Edges → String → List String
heads [] u = []
heads ((t, h) ∷ es) u = if t == u then h ∷ heads es u else heads es u

abbrev pub is_empty : List String → Bool
is_empty [] = true
is_empty (x ∷ xs) = false

abbrev pub sources : Edges → List String → List String
sources es [] = []
sources es (v ∷ ids) = if is_empty (tails es v) then v ∷ sources es ids else sources es ids

abbrev pub listed : List String → Edges → Graph String
listed ids es = record {
  source_vertices = sources es ids;
  predecessors = λ v. if elem v ids then ok (tails es v) else err v;
  successors = λ v. if elem v ids then ok (heads es v) else err v;
}

-- What holds of each edge holds of each vertex and its predecessors.
pub tails-all :
    (r : String → String → Bool) (es : Edges) (u v : String)
    → all (λ e. r e.0 e.1) es ≡ true
    → elem u (tails es v) ≡ true
    → r u v ≡ true
tails-all r [] u v h e = ground (arith, e)
tails-all r ((t, k) ∷ es) u v h e = ground (arith, h, e, eq_iff k v, eq_iff t u, tails-all r es u v)

pub heads-tails : (es : Edges) (u v : String) → elem v (heads es u) ≡ elem u (tails es v)
heads-tails [] u v = refl
heads-tails ((t, h) ∷ es) u v = ground (arith, heads-tails es u v)

pub elem-sources :
    (es : Edges) (ids : List String) (v : String)
    → elem v (sources es ids) ≡ (elem v ids && is_empty (tails es v))
elem-sources es [] v = refl
elem-sources es (i ∷ ids) v = ground (arith, elem-sources es ids v, eq_iff i v)

pub is_empty-nil : (l : List String) → is_empty l ≡ true → l ≡ []
is_empty-nil [] h = refl
is_empty-nil (x ∷ l) h = ground (arith, h)

abbrev pub listed-IsGraph :
    (ids : List String) (es : Edges)
    → all (λ e. elem e.0 ids && elem e.1 ids) es ≡ true
    → IsGraph (listed ids es)
listed-IsGraph ids es within = record {
  vertices = ids;
  preds = tails es;
  succs = heads es;
  predecessors_ok = λ v h. rw h refl;
  successors_ok = λ v h. rw h refl;
  preds_in = λ u v e. ground (arith, tails-all (λ a b. elem a ids && elem b ids) es u v within e);
  succs_in = λ u v e.
      ground (arith, heads-tails es u v, tails-all (λ a b. elem a ids && elem b ids) es u v within);
  edges = λ u v. heads-tails es u v;
  sources_in = λ v h. ground (arith, elem-sources es ids v);
  sources_have = λ v h e. ground (arith, elem-sources es ids v, e);
  sources_free = λ v h. is_empty-nil (tails es v) (ground (arith, elem-sources es ids v));
}
