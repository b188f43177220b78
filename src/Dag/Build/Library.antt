-- ===== src/Dag/Build/Library.antt =====
-- A graph library over listed vertices and edges: a concrete instance of the library's parameter.
use operator_toolkit.Prelude.{
  String, Bool, true, false, ◌&&◌, ◌==◌, Option, none, some, List, [], ◌∷◌, ◌≡◌, refl, arith, ap,
  ◌∙◌, Result, ok, err, if◌then◌else◌, map, elem, all, lookup, eq_iff, Bool-cases, inl, inr,
}
use operator_toolkit.Dag.Listed.{Edges, listed, tails, heads, listed-IsGraph}
use operator_toolkit.Dag.Build.{DagLib}
use operator_toolkit.Dag.Build.Laws.{IsDagLib}

abbrev pub within : List String → Edges → Bool
within ids es = all (λ e. elem e.0 ids && elem e.1 ids) es

pub within-more :
    (v : String) (ids : List String) (es : Edges)
    → within ids es ≡ true
    → within (v ∷ ids) es ≡ true
within-more v ids [] h = refl
within-more v ids ((t, k) ∷ es) h = ground (arith, h, within-more v ids es)

pub within-edge :
    (t h : String) (ids : List String) (es : Edges)
    → (elem t ids && elem h ids) ≡ true
    → within ids es ≡ true
    → within ids ((t, h) ∷ es) ≡ true
within-edge t h ids es there rest = ground (arith, there, rest)

module _ {Op : Type 0} where
  abbrev pub keys : List (String × Op) → List String
  keys ops = map (λ e. e.0) ops

  lookup-none :
      (ops : List (String × Op)) (v : String) → elem v (keys ops) ≡ false → lookup v ops ≡ none
  lookup-none [] v h = refl
  lookup-none ((n, op) ∷ ops) v h = ground (arith, h, lookup-none ops v)

  lookup-some :
      (ops : List (String × Op)) (v : String)
      → elem v (keys ops) ≡ true
      → (op : Op) × (lookup v ops ≡ some op)
  lookup-some [] v h = absurd (ground (arith, h))
  lookup-some ((n, op) ∷ ops) v h = elim (Bool-cases (n == v)) [
    | inl is ↦ (op, rw is refl)
    | inr other ↦
        let (found, e) = lookup-some ops v (ground (arith, h, other)) in (found, rw other e)
  ]

-- The vertices with their values, and edges between vertices.
pub record ListedDag (Op : Type 0) : Type 0 where
  pub ops : List (String × Op)
  pub edges : Edges
  pub closed : within (keys ops) edges ≡ true

-- With one more vertex.
abbrev pub added : {Op : Type 0} → ListedDag Op → String → Op → ListedDag Op
added od v op = record {
  ops = (v, op) ∷ od.ops;
  edges = od.edges;
  closed = within-more v (keys od.ops) od.edges od.closed;
}

module _ {E Op : Type 0} (fail : String → E) where
  abbrev value_or : String → Option Op → Result E Op
  value_or v none = err (fail v)
  value_or v (some op) = ok op

  abbrev connected :
      (od : ListedDag Op) (t h : String) (there : Bool)
      → (elem t (keys od.ops) && elem h (keys od.ops)) ≡ there
      → Result E (ListedDag Op)
  connected od t h true p = ok (record {
    ops = od.ops;
    edges = (t, h) ∷ od.edges;
    closed = within-edge t h (keys od.ops) od.edges p od.closed;
  })
  connected od t h false p = err (fail t)

  abbrev pub listed_lib : DagLib E Op (ListedDag Op)
  listed_lib = record {
    new_dag = record { ops = []; edges = []; closed = refl };
    add_vertex = λ od v op. ok (added od v op);
    get_vertex = λ od v. value_or v (lookup v od.ops);
    add_edge = λ od t h.
        if elem t (tails od.edges h)
        then err (fail t)
        else connected od t h (elem t (keys od.ops) && elem h (keys od.ops)) refl;
    queries = λ od. record {
      source_vertices = (listed (keys od.ops) od.edges).source_vertices;
      predecessors = λ v. if elem v (keys od.ops) then ok (tails od.edges v) else err (fail v);
      successors = λ v. if elem v (keys od.ops) then ok (heads od.edges v) else err (fail v);
    };
  }

  connected_lem :
      (od : ListedDag Op) (t h : String) (there : Bool)
      (p : (elem t (keys od.ops) && elem h (keys od.ops)) ≡ there)
      → there ≡ true
      → (od' : ListedDag Op) × (connected od t h there p ≡ ok od')
        × (od'.ops ≡ od.ops)
        × (od'.edges ≡ ((t, h) ∷ od.edges))
  connected_lem od t h true p is = (_, refl, refl, refl)
  connected_lem od t h false p is = absurd (ground (arith, is))

  pub listed_lib-IsDagLib : IsDagLib listed_lib
  listed_lib-IsDagLib = record {
    graph = λ od.
        let m = listed-IsGraph (keys od.ops) od.edges od.closed in
        record {
          vertices = keys od.ops;
          preds = tails od.edges;
          succs = heads od.edges;
          predecessors_ok = λ v h. rw h refl;
          successors_ok = λ v h. rw h refl;
          preds_in = m.preds_in;
          succs_in = m.succs_in;
          edges = m.edges;
          sources_in = m.sources_in;
          sources_have = m.sources_have;
          sources_free = m.sources_free;
        };
    no_vertices = λ v. refl;
    add_vertex_new = λ od v op h. (
      added od v op,
      refl,
      (λ w. refl),
      (λ u w. refl),
      λ w. elim (Bool-cases (v == w)) [ inl is ↦ rw is refl | inr other ↦ rw other refl ],
    );
    get_vertex_none = λ od v h. (fail v, ap (value_or v) (lookup-none od.ops v h));
    get_vertex_some = λ od v h. let (op, e) = lookup-some od.ops v h in (op, ap (value_or v) e);
    add_edge_old = λ od t h e. (fail t, rw e refl);
    add_edge_new = λ od t h t_in h_in fresh.
        let (od', made, same, more) = connected_lem od t h _ refl (ground (arith, t_in, h_in)) in
        (
          od',
          rw fresh made,
          (λ w. ap (λ ops. elem w (keys ops)) same),
          (λ u w. ap (λ es. elem u (tails es w)) more ∙ ground (arith, eq_iff h w, eq_iff t u)),
          (λ w. ap (λ ops. value_or w (lookup w ops)) same),
        );
  }
