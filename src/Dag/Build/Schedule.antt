-- ===== src/Dag/Build/Schedule.antt =====
-- dag.go, `Order` as a whole: the steps that it returns for a graph without cycles.
use operator_toolkit.Prelude.{
  ℕ, zero, suc, ◌≤◌, ◌<◌, String, true, none, some, List, [], ◌∷◌, ◌≡◌, refl, sym, ◌∙◌,
  if◌then◌else◌, elem, has, arith, Bool-cases, ok, ap, length, map, inl, inr, lookup, has→lookup,
  lookup→has, nat_eq, some_inv, get_elem?, replicate,
}
use operator_toolkit.Dag.{Graph, IsGraph, Steps, solve}
use operator_toolkit.Dag.View.{all_placed, place-eq-if, visit_all}
use operator_toolkit.Dag.Placed.{IsBy, visit_all-places_roots}
use operator_toolkit.Dag.Solve.{IsRanked, solve_loop-keeps}
use operator_toolkit.Dag.Schedule.{solve-timely, solve-total}
use operator_toolkit.Dag.Build.{DagLib, returns, fill, order}
use operator_toolkit.Dag.Build.Filled.{
  count, IsDistinct, insert-IsDistinct, ops_at, fill_rows, count-ops_at,
}

-- What Go promises of `range` over a map: each entry once, in some order.
pub record IsRange (range : Steps → Steps) : Type 0 where
  pub keeps : (soln : Steps) (n : String) → IsDistinct soln → lookup n (range soln) ≡ lookup n soln
  pub distinct : (soln : Steps) → IsDistinct soln → IsDistinct (range soln)

module _ {E : Type 0} {g : Graph E} (m : IsGraph g) where
  open m use {vertices, preds}

  visit_all-IsDistinct :
      (step : ℕ) (cs : List String) (soln : Steps)
      → IsDistinct soln
      → IsDistinct (visit_all m step cs soln)
  visit_all-IsDistinct step [] soln d = d
  visit_all-IsDistinct step (c ∷ cs) soln d =
      visit_all-IsDistinct step cs _ (elim (Bool-cases (has c soln)) [
        | inl old ↦ rw old d
        | inr new ↦ elim (Bool-cases (all_placed soln (preds c))) [
          | inl ready ↦
              rw (new, place-eq-if step soln c (preds c), ready) (insert-IsDistinct c step soln d)
          | inr waits ↦ rw (new, place-eq-if step soln c (preds c), waits) d
        ]
      ])

  solve-IsDistinct :
      (fuel : ℕ) (soln : Steps) (steps : ℕ)
      → solve g fuel ≡ some (ok (soln, steps))
      → IsDistinct soln × ((v : String) → has v soln ≡ true → elem v vertices ≡ true)
  solve-IsDistinct fuel soln steps e =
      solve_loop-keeps m
        (λ soln _ _. IsDistinct soln × ((v : String) → has v soln ≡ true → elem v vertices ≡ true))
        (λ step roots soln known (d, only). (
          visit_all-IsDistinct step roots soln d,
          λ v h. elim (visit_all-places_roots m step v roots soln h) [
            | inl old ↦ only v old
            | inr root ↦ known v root
          ],
        ))
        fuel 0 g.source_vertices [] m.sources_in (tt, λ v h. absurd (ground arith)) soln steps
        (unfold solve in e)

length-replicate {ℓ} : {A : Type ℓ} (n : ℕ) (a : A) → length (replicate n a) ≡ n
length-replicate zero a = refl
length-replicate (suc n) a = ap suc (length-replicate n a)

get_elem?-replicate {ℓ} :
    {A : Type ℓ} (n i : ℕ) (a : A) → i < n → get_elem? (replicate n a) i ≡ some a
get_elem?-replicate zero i a h = absurd (omega arith)
get_elem?-replicate (suc n) zero a h = refl
get_elem?-replicate (suc n) (suc i) a h = get_elem?-replicate n i a (omega arith)

abbrev pub step_in : Steps → String → ℕ
step_in soln v = elim (lookup v soln) [ none ↦ 0 | some s ↦ s ]

step_in-eq : (v : String) (s : ℕ) (soln : Steps) → lookup v soln ≡ some s → step_in soln v ≡ s
step_in-eq v s soln e = ground arith

get_elem?-lt {ℓ} :
    {A : Type ℓ} (xs : List A) (i : ℕ) (a : A) → get_elem? xs i ≡ some a → i < length xs
get_elem?-lt [] i a e = absurd (ground arith)
get_elem?-lt (x ∷ xs) zero a e = omega arith
get_elem?-lt (x ∷ xs) (suc i) a e = omega (arith, get_elem?-lt xs i a e)

-- `rows` holds every vertex, in the row of its step and there once, in no row twice, and never in an
-- earlier row than a predecessor.
pub record IsSchedule {Op : Type 0} (name : Op → String) (vertices : List String)
    (preds : String → List String) (rows : List (List Op)) : Type 0 where
  pub step_of : String → ℕ
  pub in_range : (v : String) → elem v vertices ≡ true → step_of v < length rows
  pub once :
      (v : String) (i : ℕ) (row : List Op)
      → elem v vertices ≡ true
      → get_elem? rows i ≡ some row
      → count v (map name row) ≡ (if nat_eq (step_of v) i then 1 else 0)
  pub timely :
      (v p : String) → elem v vertices ≡ true → elem p (preds v) ≡ true → step_of p ≤ step_of v

module _ {E Op G : Type 0} (lib : DagLib E Op G) (od : G) (m : IsGraph (lib.queries od))
    (name : Op → String) (value : String → Op) (range : Steps → Steps) where
  open m use {vertices, preds}

  order-eq-fill :
      (fuel : ℕ) (soln : Steps) (steps : ℕ)
      → solve (lib.queries od) fuel ≡ some (ok (soln, steps))
      → order lib range fuel od ≡ fill lib od (range soln) (replicate steps [])
  unfolding order
  order-eq-fill fuel soln steps e = rw (e, order)

  fill-IsSchedule :
      (soln : Steps) (steps : ℕ)
      → ((n : String) → elem n vertices ≡ true → lib.get_vertex od n ≡ ok (value n))
      → ((n : String) → name (value n) ≡ n)
      → IsRange range
      → IsDistinct soln
      → ((v : String) → has v soln ≡ true → elem v vertices ≡ true)
      → ((v : String) → elem v vertices ≡ true → has v soln ≡ true)
      → ((v : String) (s : ℕ) → lookup v soln ≡ some s → s < steps)
      → ((v : String) (s : ℕ)
          → lookup v soln ≡ some s
          → (p : String) → elem p (preds v) ≡ true
          → IsBy soln s p)
      → (rows : List (List Op)) × (fill lib od (range soln) (replicate steps [])
          ≡ returns (ok rows))
        × IsSchedule name vertices preds rows
  fill-IsSchedule soln steps known named r d only every low after =
      let (rows, f, len, row_of) =
        fill_rows value lib od (range soln) (replicate steps [])
          (λ n h.
            let (s, at) = has→lookup n (range soln) h in
            known n (only n (lookup→has n s soln (sym (r.keeps soln n d) ∙ at))))
          (λ n s at. rw length-replicate (low n s (sym (r.keeps soln n d) ∙ at)))
          (r.distinct soln d) in
      let size : length rows ≡ steps = len ∙ length-replicate steps [] in
      (
        rows,
        f,
        record {
          step_of = step_in soln;
          in_range = λ v h.
              let (s, at) = has→lookup v soln (every v h) in
              omega (arith, step_in-eq v s soln at, low v s at, size);
          once = λ v i row h at.
              let (s, here) = has→lookup v soln (every v h) in
              let filled : row ≡ ops_at value i (range soln) = some_inv (
                sym at
                ∙ row_of i [] (
                    get_elem?-replicate steps i []
                      (omega (arith, get_elem?-lt rows i row at, size)))) in
              rw (filled, step_in-eq v s soln here)
                (count-ops_at value name named v i s (range soln) (r.distinct soln d)
                  (r.keeps soln v d ∙ here));
          timely = λ v p h edge.
              let (s, at) = has→lookup v soln (every v h) in
              let (t, at', le) = after v s at p edge in
              omega (arith, step_in-eq v s soln at, step_in-eq p t soln at');
        },
      )

  -- Where the vertices have ranks that grow along the edges, so that there is no cycle, and stay
  -- within the fuel, the library finds the operand of each vertex, which has the vertex's ID for a
  -- name, and an iteration gives the entries of the map: `Order` returns, without an error and
  -- without a panic, steps that hold every operand exactly once and no operand in an earlier step
  -- than an operand that it requires.
  pub order-IsSchedule :
      ((n : String) → elem n vertices ≡ true → lib.get_vertex od n ≡ ok (value n))
      → ((n : String) → name (value n) ≡ n)
      → IsRange range
      → (rank : String → ℕ) (bound fuel : ℕ) → IsRanked m rank bound
      → bound ≤ fuel
      → (rows : List (List Op)) × (order lib range fuel od ≡ returns (ok rows))
        × IsSchedule name vertices preds rows
  order-IsSchedule known named r rank bound fuel k enough =
      let (soln, steps, e, every) = solve-total m rank bound k fuel enough in
      let (low, after) = solve-timely m fuel soln steps e in
      let (d, only) = solve-IsDistinct m fuel soln steps e in
      let (rows, f, schedule) = fill-IsSchedule soln steps known named r d only every low after in
      (rows, order-eq-fill fuel soln steps e ∙ f, schedule)
