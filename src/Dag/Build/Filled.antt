-- ===== src/Dag/Build/Filled.antt =====
-- dag.go, `Order`: the rows that the entries of a solution make.
use operator_toolkit.Prelude.{
  ℕ, zero, suc, ◌<◌, String, true, false, ◌==◌, some, List, [], ◌∷◌, ◌++◌, ◌≡◌, refl, ◌∙◌,
  if◌then◌else◌, has, insert, arith, Bool-cases, ok, ap, length, map, inl, inr, eq_iff, has-insert,
  lookup, lookup→has, nat_eq, get_elem?, append_assoc, append-nil,
}
use operator_toolkit.Dag.{Steps}
use operator_toolkit.Dag.Build.{DagLib, returns, append_at, fill}

-- How often a name occurs.
abbrev pub count : String → List String → ℕ
count v [] = 0
count v (w ∷ ws) = if w == v then suc (count v ws) else count v ws

-- Every key stands in the dictionary once.
abbrev pub IsDistinct : Steps → Type 0
IsDistinct [] = Unit
IsDistinct ((n, s) ∷ soln) = (has n soln ≡ false) × IsDistinct soln

pub insert-IsDistinct :
    (k : String) (s : ℕ) (soln : Steps) → IsDistinct soln → IsDistinct (insert k s soln)
insert-IsDistinct k s [] h = (refl, tt)
insert-IsDistinct k s ((n, t) ∷ soln) (new, h) = elim (Bool-cases (n == k)) [
  | inl same ↦ rw same (rw (← (eq_iff n k).0 same) new, h)
  | inr other ↦
      rw other (
        ground (arith, has-insert k n s soln, eq_iff n k, eq_iff k n),
        insert-IsDistinct k s soln h,
      )
]

-- The row of `result` after `append_at`.
abbrev appended {ℓ} : {A : Type ℓ} → ℕ → A → ℕ → List A → List A
appended step op i ops = if nat_eq step i then ops ++ (op ∷ []) else ops

append_at_rows {ℓ} :
    {A : Type ℓ} (step : ℕ) (op : A) (result : List (List A))
    → step < length result
    → (result' : List (List A)) × (append_at step op result ≡ some result')
      × (length result' ≡ length result)
      × ((i : ℕ) (ops : List A)
          → get_elem? result i ≡ some ops
          → get_elem? result' i ≡ some (appended step op i ops))
unfolding append_at
append_at_rows step op [] h = absurd (omega arith)
append_at_rows zero op (row ∷ result) h = ((row ++ (op ∷ [])) ∷ result, refl, refl, rows)
  where
    rows :
        (i : ℕ) (ops : List _)
        → get_elem? (row ∷ result) i ≡ some ops
        → get_elem? ((row ++ (op ∷ [])) ∷ result) i ≡ some (appended zero op i ops)
    rows zero ops e = ground arith
    rows (suc i) ops e = ground arith
append_at_rows (suc step) op (row ∷ result) h =
    let (result', e, len, rows') = append_at_rows step op result (omega arith) in
    (row ∷ result', rw e, ap suc len, rows result' rows')
  where
    rows :
        (result' : List (List _))
        → ((i : ℕ) (ops : List _)
            → get_elem? result i ≡ some ops
            → get_elem? result' i ≡ some (appended step op i ops))
        → (i : ℕ) (ops : List _) → get_elem? (row ∷ result) i ≡ some ops
        → get_elem? (row ∷ result') i ≡ some (appended (suc step) op i ops)
    rows result' rows' zero ops e = ground arith
    rows result' rows' (suc i) ops e = ground (arith, rows' i ops e)

fill-cons :
    {E Op G : Type 0} (lib : DagLib E Op G) (od : G) (n : String) (s : ℕ) (soln : Steps) (op : Op)
    (result result' : List (List Op))
    → lib.get_vertex od n ≡ ok op
    → append_at s op result ≡ some result'
    → fill lib od ((n, s) ∷ soln) result ≡ fill lib od soln result'
unfolding fill
fill-cons lib od n s soln op result result' e f = rw (e, f, fill)

module _ {Op : Type 0} (value : String → Op) where
  -- The operands of the entries for step `i`.
  abbrev pub ops_at : ℕ → Steps → List Op
  ops_at i [] = []
  ops_at i ((n, s) ∷ soln) = if nat_eq s i then value n ∷ ops_at i soln else ops_at i soln

  pub fill_rows :
      {E G : Type 0} (lib : DagLib E Op G) (od : G) (soln : Steps) (result : List (List Op))
      → ((n : String) → has n soln ≡ true → lib.get_vertex od n ≡ ok (value n))
      → ((n : String) (s : ℕ) → lookup n soln ≡ some s → s < length result)
      → IsDistinct soln
      → (result' : List (List Op)) × (fill lib od soln result ≡ returns (ok result'))
        × (length result' ≡ length result)
        × ((i : ℕ) (ops : List Op)
            → get_elem? result i ≡ some ops
            → get_elem? result' i ≡ some (ops ++ ops_at i soln))
  fill_rows lib od [] result known low d =
      (result, unfold fill in refl, refl, λ i ops e. rw append-nil e)
  fill_rows lib od ((n, s) ∷ soln) result known low (new, d) =
      let (mid, e, len, rows) =
        append_at_rows s (value n) result (low n s (ground (arith, eq_iff n n))) in
      let (final, e', len', rows') =
        fill_rows lib od soln mid (λ k h. known k (ground arith))
          (λ k t h. rw len (low k t (ground (arith, eq_iff n k, lookup→has k t soln)))) d in
      (
        final,
        fill-cons lib od n s soln (value n) result mid (known n (ground (arith, eq_iff n n))) e
            ∙ e',
        len' ∙ len,
        λ i ops at. rows' i _ (rows i ops at) ∙ ap some (regroup i ops),
      )
    where
      regroup :
          (i : ℕ) (ops : List Op)
          → appended s (value n) i ops ++ ops_at i soln ≡ ops ++ ops_at i ((n, s) ∷ soln)
      regroup i ops = elim (Bool-cases (nat_eq s i)) [
        | inl same ↦ rw same (append_assoc ops (value n ∷ []) (ops_at i soln))
        | inr other ↦ rw other
      ]

  module _ (name : Op → String) (named : (n : String) → name (value n) ≡ n) where
    count-absent :
        (v : String) (i : ℕ) (soln : Steps)
        → has v soln ≡ false
        → count v (map name (ops_at i soln)) ≡ 0
    count-absent v i [] h = refl
    count-absent v i ((n, s) ∷ soln) h = ground (arith, named n, count-absent v i soln)

    -- A name is in the row of its own step once, and in no other.
    pub count-ops_at :
        (v : String) (i s : ℕ) (soln : Steps)
        → IsDistinct soln
        → lookup v soln ≡ some s
        → count v (map name (ops_at i soln)) ≡ (if nat_eq s i then 1 else 0)
    count-ops_at v i s [] d e = absurd (ground arith)
    count-ops_at v i s ((n, t) ∷ soln) (new, d) e = elim (Bool-cases (n == v)) [
      | inl same ↦ ground (arith, named n, eq_iff n v, count-absent v i soln)
      | inr other ↦ ground (arith, named n, count-ops_at v i s soln d)
    ]
