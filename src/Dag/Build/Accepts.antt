-- ===== src/Dag/Build/Accepts.antt =====
-- dag.go, `NewOperandDAG`: the operands that it accepts, and the graph that it builds of them.
use operator_toolkit.Prelude.{
  String, Bool, true, false, ◌&&◌, ◌||◌, ◌==◌, Option, none, some, List, [], ◌∷◌, ◌≡◌, ◌⊎◌, inl,
  inr, refl, arith, ◌∙◌, ok, err, if◌then◌else◌, map, elem, all, any, eq_iff, eq_refl, Bool-cases,
  all_culprit,
}
use operator_toolkit.Dag.Build.{DagLib, Named, add_vertices, connect, new_operand_dag}
use operator_toolkit.Dag.Build.Laws.{
  IsDagLib, distinct_from, edges_ok, is_vertex, is_pred, SameVertices, add_edges_lem,
}

distinct_from-new :
    (seen ns : List String) (w : String)
    → distinct_from seen ns ≡ true
    → elem w ns ≡ true
    → elem w seen ≡ false
distinct_from-new seen [] w d h = absurd (ground (arith, h))
distinct_from-new seen (n ∷ ns) w d h =
    ground (arith, d, h, eq_iff n w, distinct_from-new (n ∷ seen) ns w)

all-elem_self : (ns : List String) → all (λ v. elem v ns) ns ≡ true
all-elem_self ns = elim (Bool-cases (all (λ v. elem v ns) ns)) [
  | inl h ↦ h
  | inr h ↦
      let (x, is, isnt) = all_culprit (λ v. elem v ns) ns h in absurd (ground (arith, is, isnt))
]

module _ {Op : Type 0} (operand : Named Op) where
  open operand use {name, requires}

  abbrev pub find_named : List Op → String → Option Op
  find_named [] w = none
  find_named (op ∷ operands) w = if name op == w then some op else find_named operands w

  pub find_named-none :
      (operands : List Op) (w : String)
      → elem w (map name operands) ≡ false
      → find_named operands w ≡ none
  find_named-none [] w h = refl
  find_named-none (op ∷ operands) w h = ground (arith, h, find_named-none operands w)

  pub find_named-some :
      (operands : List Op) (w : String)
      → elem w (map name operands) ≡ true
      → (op : Op) × (find_named operands w ≡ some op) × (name op ≡ w)
  find_named-some [] w h = absurd (ground (arith, h))
  find_named-some (op ∷ operands) w h = elim (Bool-cases (name op == w)) [
    | inl is ↦ (op, rw is refl, ground (arith, is, eq_iff (name op) w))
    | inr other ↦
        let (found, e, n) = find_named-some operands w (ground (arith, h, other)) in
        (found, rw other e, n)
  ]

  -- Does the operand named `w` among them require `u`?
  abbrev pub requires_in : List Op → String → String → Bool
  requires_in operands u w = any (λ op. (name op == w) && elem u (requires op)) operands

  -- Does every operand require names among theirs, each listed once?
  abbrev pub well_required : List Op → Bool
  well_required operands = all (λ op. edges_ok (map name operands) [] (requires op)) operands

  module _ {E G : Type 0} {lib : DagLib E Op G} (l : IsDagLib lib) where
    add_vertices_lem :
        (operands : List Op) (od : G) (known : List String)
        → ((v : String) → is_vertex l operand od v ≡ elem v known)
        → distinct_from known (map name operands) ≡ true
        → (od' : G) × (add_vertices lib operand operands od ≡ ok od')
          × ((v : String)
              → is_vertex l operand od' v ≡ (elem v known || elem v (map name operands)))
          × ((u w : String) → is_pred l operand od' u w ≡ is_pred l operand od u w)
          × ((w : String) (op : Op)
              → find_named operands w ≡ some op
              → lib.get_vertex od' w ≡ ok op)
          × ((w : String)
              → find_named operands w ≡ none
              → lib.get_vertex od' w ≡ lib.get_vertex od w)
    unfolding add_vertices
    add_vertices_lem [] od known vs d = (
      od,
      refl,
      (λ v. ground (arith, vs v)),
      (λ u w. refl),
      (λ w op h. absurd (ground (arith, h))),
      (λ w h. refl),
    )
    add_vertices_lem (op ∷ operands) od known vs d =
        let new : elem (name op) known ≡ false = ground (arith, d) in
        let later : distinct_from (name op ∷ known) (map name operands) ≡ true =
          ground (arith, d) in
        let (od1, added, vs1, ps1, got1) = l.add_vertex_new od (name op) op (vs (name op) ∙ new) in
        let (od', run, vs', ps', found, kept) =
          add_vertices_lem operands od1 (name op ∷ known) (λ v. ground (arith, vs1 v, vs v))
            later in
        (
          od',
          rw added run,
          (λ v. ground (arith, vs' v)),
          (λ u w. ps' u w ∙ ps1 u w),
          (λ w o h. elim (Bool-cases (name op == w)) [
            | inr other ↦ found w o (ground (arith, h, other))
            | inl is ↦
                let fresh : elem w (map name operands) ≡ false =
                  elim (Bool-cases (elem w (map name operands))) [
                    | inr out ↦ out
                    | inl in' ↦ absurd (
                        ground (
                          arith,
                          is,
                          distinct_from-new (name op ∷ known) (map name operands) w later in',
                        ))
                  ] in
                kept w (find_named-none operands w fresh) ∙ got1 w ∙ ground (arith, is, h)
          ]),
          (λ w h. ground (arith, h, kept w, got1 w)),
        )

    connect_lem :
        (known : List String) (operands : List Op) (seen : List String) (od : G)
        → ((v : String) → is_vertex l operand od v ≡ elem v known)
        → all (λ v. elem v known) (map name operands) ≡ true
        → distinct_from seen (map name operands) ≡ true
        → ((u w : String) → elem w (map name operands) ≡ true → is_pred l operand od u w ≡ false)
        → ((all (λ op. edges_ok known [] (requires op)) operands ≡ true)
            × ((od' : G) × (connect lib operand operands od ≡ ok od')
                × SameVertices l operand od od'
                × ((u w : String)
                    → is_pred l operand od' u w
                      ≡ (is_pred l operand od u w || requires_in operands u w))))
          ⊎ ((all (λ op. edges_ok known [] (requires op)) operands ≡ false)
              × ((e : E) × (connect lib operand operands od ≡ err e)))
    unfolding connect
    connect_lem known [] seen od vs known_all d free =
        inl (refl, (od, refl, ((λ w. refl), (λ w. refl)), λ u w. ground arith))
    connect_lem known (op ∷ operands) seen od vs known_all d free =
        let there : elem (name op) known ≡ true = ground (arith, known_all) in
        let (value, got) = l.get_vertex_some od (name op) (vs (name op) ∙ there) in
        elim (add_edges_lem l operand (name op) known [] (requires op) od vs there
          (λ u. free u (name op) (ground (arith, eq_refl (name op))))) [
            | inr (bad, (e, run)) ↦ inr (ground (arith, bad), (e, rw (got, run)))
            | inl (fine, (od1, run1, (same_v, same_g), more)) ↦
                elim (connect_lem known operands (name op ∷ seen) od1 (λ v. same_v v ∙ vs v)
                  (ground (arith, known_all)) (ground (arith, d))
                  (λ u w h. ground (
                    arith,
                    more u w,
                    free u w,
                    h,
                    eq_iff (name op) w,
                    distinct_from-new (name op ∷ seen) (map name operands) w (ground (arith, d)) h,
                  ))) [
                    | inr (bad, (e, run)) ↦ inr (ground (arith, bad, fine), (e, rw (got, run1) run))
                    | inl (rest, (od', run, (same_v', same_g'), more')) ↦ inl (
                      ground (arith, rest, fine),
                      (
                        od',
                        rw (got, run1) run,
                        ((λ w. same_v' w ∙ same_v w), (λ w. same_g' w ∙ same_g w)),
                        (λ u w. ground (arith, more' u w, more u w)),
                      ),
                    )
                  ]
          ]

    new_dag-no_edges : (u w : String) → is_pred l operand lib.new_dag u w ≡ false
    new_dag-no_edges u w = elim (Bool-cases (is_pred l operand lib.new_dag u w)) [
      | inr free ↦ free
      | inl hit ↦ absurd (ground (arith, l.no_vertices u, (l.graph lib.new_dag).preds_in u w hit))
    ]

    -- Over a graph library with the laws of `IsDagLib`, and for operands whose names are distinct:
    -- exactly the operands that require names among them, each listed once, are accepted. The graph
    -- then has the names for its vertices, an edge from each required name to the operand that requires
    -- it and no other edge, and finds each operand under its name. Operands of distinct names of which
    -- one requires an unknown name or the same name twice are an error.
    pub new_operand_dag-accepts :
        (operands : List Op)
        → distinct_from [] (map name operands) ≡ true
        → ((well_required operands ≡ true)
            × ((od : G) × (new_operand_dag lib operand operands ≡ ok od)
                × ((v : String) → is_vertex l operand od v ≡ elem v (map name operands))
                × ((u w : String) → is_pred l operand od u w ≡ requires_in operands u w)
                × ((w : String) (op : Op)
                    → find_named operands w ≡ some op
                    → lib.get_vertex od w ≡ ok op)))
          ⊎ ((well_required operands ≡ false)
              × ((e : E) × (new_operand_dag lib operand operands ≡ err e)))
    unfolding new_operand_dag
    new_operand_dag-accepts operands d =
        let (od1, run1, vs, ps, found, _) =
          add_vertices_lem operands lib.new_dag [] l.no_vertices d in
        elim (connect_lem (map name operands) operands [] od1 (λ v. vs v)
          (all-elem_self (map name operands)) d (λ u w h. ps u w ∙ new_dag-no_edges u w)) [
            | inr (bad, (e, run)) ↦ inr (bad, (e, rw run1 run))
            | inl (fine, (od, run, (same_v, same_g), more)) ↦ inl (
              fine,
              (
                od,
                rw run1 run,
                (λ v. same_v v ∙ vs v),
                (λ u w. ground (arith, more u w, ps u w, new_dag-no_edges u w)),
                (λ w op h. same_g w ∙ found w op h),
              ),
            )
          ]
