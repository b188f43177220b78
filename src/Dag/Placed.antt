-- ===== src/Dag/Placed.antt =====
-- dag.go: which vertices a round places, and what it leaves alone.
use operator_toolkit.Prelude.{
  ℕ, ◌≤◌, String, true, false, ◌||◌, ◌&&◌, ◌==◌, some, List, [], ◌∷◌, ◌≡◌, refl, ◌∙◌, elem, has,
  insert, arith, Bool-cases, inl, inr, ◌⊎◌, eq_iff, has-insert, all-elem, all_culprit, lookup,
  lookup-insert, has→lookup, lookup→has,
}
use operator_toolkit.Dag.{Graph, IsGraph, Steps}
use operator_toolkit.Dag.View.{
  all_placed, place-eq-if, visit, visit_all, next_roots, next_roots-add,
}

-- A predecessor is placed, at the step `s` or before it.
abbrev pub IsBy : Steps → ℕ → String → Type 0
IsBy order s p = (t : ℕ) × (lookup p order ≡ some t) × (t ≤ s)

module _ {E : Type 0} {g : Graph E} (m : IsGraph g) where
  open m use {vertices, preds, succs, edges}

  pub has-visit :
      (step : ℕ) (c w : String) (order : Steps)
      → has w (visit m step c order) ≡ (has w order || (c == w && all_placed order (preds c)))
  has-visit step c w order =
      ground (arith, place-eq-if step order c (preds c), has-insert c w step order, eq_iff c w)

  pub has-visit_all :
      (step : ℕ) (w : String) (cs : List String) (order : Steps)
      → has w order ≡ true
      → has w (visit_all m step cs order) ≡ true
  has-visit_all step w [] order h = h
  has-visit_all step w (c ∷ cs) order h =
      has-visit_all step w cs _ (rw (has-visit step c w order, h))

  pub visit_all-places_roots :
      (step : ℕ) (w : String) (cs : List String) (order : Steps)
      → has w (visit_all m step cs order) ≡ true
      → (has w order ≡ true) ⊎ (elem w cs ≡ true)
  visit_all-places_roots step w [] order h = inl h
  visit_all-places_roots step w (c ∷ cs) order h =
      elim (visit_all-places_roots step w cs (visit m step c order) h) [
        | inl now ↦ ground (arith, has-visit step c w order)
        | inr later ↦ inr (ground arith)
      ]

  all_placed-visit :
      (step : ℕ) (c : String) (order : Steps) (pp : List String)
      → all_placed order pp ≡ true
      → all_placed (visit m step c order) pp ≡ true
  all_placed-visit step c order [] h = refl
  all_placed-visit step c order (p ∷ pp) h =
      rw (has-visit step c p order) (ground (arith, all_placed-visit step c order pp))

  pub visit_all-places_ready :
      (step : ℕ) (c : String) (cs : List String) (order : Steps)
      → elem c cs ≡ true
      → all_placed order (preds c) ≡ true
      → has c (visit_all m step cs order) ≡ true
  visit_all-places_ready step c [] order e h = absurd (ground arith)
  visit_all-places_ready step c (d ∷ cs) order e h = elim (Bool-cases (d == c)) [
    | inl same ↦
        has-visit_all step c cs _
          (rw (has-visit step d c order, (eq_iff d c).0 same, h) (ground (arith, eq_iff c c)))
    | inr other ↦
        visit_all-places_ready step c cs _ (ground arith)
          (all_placed-visit step d order (preds c) h)
  ]

  -- Every vertex whose predecessors are all placed is placed, or is a root of the next round.
  abbrev pub IsSettled : Steps → List String → Type 0
  IsSettled order roots =
      (v : String)
      → elem v vertices ≡ true
      → all_placed order (preds v) ≡ true
      → (has v order ≡ true) ⊎ (elem v roots ≡ true)

  pub visit_all-IsSettled :
      (step : ℕ) (roots : List String) (order : Steps)
      → IsSettled order roots
      → IsSettled (visit_all m step roots order) (next_roots m roots [])
  visit_all-IsSettled step roots order h v e ready =
      elim (Bool-cases (all_placed order (preds v))) [
        | inl old ↦ elim (h v e old) [
          | inl placed ↦ inl (has-visit_all step v roots order placed)
          | inr root ↦ inl (visit_all-places_ready step v roots order root old)
        ]
        | inr new ↦
            let (p, edge, late) = all_culprit (λ p. has p order) (preds v) new in
            elim (visit_all-places_roots step p roots order
              (all-elem (λ p. has p (visit_all m step roots order)) (preds v) p ready edge)) [
                | inl placed ↦ absurd (ground arith)
                | inr root ↦ inr (next_roots-add m p v roots [] root (edges p v ∙ edge))
              ]
      ]

  -- Every placed vertex has its predecessors placed, not later than itself, up to the step `step`.
  pub record IsTimely (order : Steps) (step : ℕ) : Type 0 where
    pub bounded : (v : String) (s : ℕ) → lookup v order ≡ some s → s ≤ step
    pub after :
        (v : String) (s : ℕ)
        → lookup v order ≡ some s
        → (p : String) → elem p (preds v) ≡ true
        → IsBy order s p

  insert-IsTimely :
      (step : ℕ) (c : String) (order : Steps)
      → has c order ≡ false
      → all_placed order (preds c) ≡ true
      → IsTimely order step
      → IsTimely (insert c step order) step
  insert-IsTimely step c order fresh ready h = record {
    bounded = λ v s e. elim (Bool-cases (c == v)) [
      | inl same ↦ ground (arith, lookup-insert c v step order)
      | inr other ↦ h.bounded v s (ground (arith, lookup-insert c v step order))
    ];
    after = λ v s e p edge. elim (Bool-cases (c == v)) [
      | inl same ↦
          let placed =
            all-elem (λ p. has p order) (preds v) p (rw (← (eq_iff c v).0 same) ready) edge in
          let (t, at) = has→lookup p order placed in
          (
            t,
            ground (arith, lookup-insert c p step order, eq_iff c p),
            ground (arith, lookup-insert c v step order, h.bounded p t),
          )
      | inr other ↦
          let (t, at, le) = h.after v s (ground (arith, lookup-insert c v step order)) p edge in
          (t, ground (arith, lookup-insert c p step order, eq_iff c p, lookup→has p t order), le)
    ];
  }

  visit-IsTimely :
      (step : ℕ) (c : String) (order : Steps)
      → IsTimely order step
      → IsTimely (visit m step c order) step
  visit-IsTimely step c order h = elim (Bool-cases (has c order)) [
    | inl old ↦ rw old h
    | inr new ↦ elim (Bool-cases (all_placed order (preds c))) [
      | inl ready ↦
          rw (new, place-eq-if step order c (preds c), ready)
            (insert-IsTimely step c order new ready h)
      | inr waits ↦ rw (new, place-eq-if step order c (preds c), waits) h
    ]
  ]

  pub visit_all-IsTimely :
      (step : ℕ) (cs : List String) (order : Steps)
      → IsTimely order step
      → IsTimely (visit_all m step cs order) step
  visit_all-IsTimely step [] order h = h
  visit_all-IsTimely step (c ∷ cs) order h =
      visit_all-IsTimely step cs _ (visit-IsTimely step c order h)
