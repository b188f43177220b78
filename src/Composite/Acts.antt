-- ===== src/Composite/Acts.antt =====
-- controller/composite/v1/reconcile.go: which calls `Reconcile` makes, and when.
use operator_toolkit.Prelude.{
  String, Bool, true, false, not, Option, List, [], ◌∷◌, ◌≡◌, Result, ok, err, ◌||◌, ◌&&◌, refl,
  arith, Result-cases, inl, inr,
}
use operator_toolkit.Object.{is_initialized}
use operator_toolkit.Executor.{CtrlResult}
use operator_toolkit.Operand.{is_some}
use operator_toolkit.Composite.{
  CleanupStrategy, owner_reference_cleanup, finalizer_cleanup, Env, Act, validated, initialized,
  status_written, written, cleaned, operated, status_computed, Run, contains, run_body, deferred,
  reconcile_valid, reconcile_found, reconcile,
}

abbrev same_act : Act → Act → Bool
same_act validated validated = true
same_act initialized initialized = true
same_act status_written status_written = true
same_act written written = true
same_act cleaned cleaned = true
same_act operated operated = true
same_act status_computed status_computed = true
same_act _ _ = false

-- Is the act among those that were done?
abbrev pub did : Act → List Act → Bool
did a [] = false
did a (b ∷ acts) = same_act a b || did a acts

abbrev answers_true : {E : Type 0} → Result E Bool → Bool
answers_true (ok b) = b
answers_true (err e) = false

module _ {E O S : Type 0} (env : Env E O S) (strategy : CleanupStrategy)
    (finalizer_name : String) where
  -- May the main operation run on the instance, as far as deletion and the finalizer go?
  abbrev pub may_operate : O → Bool
  may_operate o = elim strategy [
    | owner_reference_cleanup ↦ true
    | finalizer_cleanup ↦ not (env.is_deleting o) && env.contains_finalizer o finalizer_name
  ]

  abbrev pub may_clean : O → Bool
  may_clean o = elim strategy [
    | owner_reference_cleanup ↦ false
    | finalizer_cleanup ↦ env.is_deleting o && contains (env.finalizers o) finalizer_name
  ]

  deferred-acts :
      (old : O) (body : (CtrlResult × Option E) × Bool) (r : Run O S)
      → (did operated (deferred env old body r).1.acts ≡ did operated r.acts)
        × (did cleaned (deferred env old body r).1.acts ≡ did cleaned r.acts)
        × (did written (deferred env old body r).1.acts ≡ did written r.acts)
  unfolding deferred
  deferred-acts old (answer, true) r = (refl, refl, refl)
  deferred-acts old (answer, false) r = (ground arith, ground arith, ground arith)

  run_body-operated :
      (r : Run O S)
      → did operated (run_body env strategy finalizer_name r).1.acts
        ≡ (may_operate r.obj || did operated r.acts)
  unfolding run_body
  run_body-operated r = ground arith

  run_body-cleaned :
      (r : Run O S)
      → did cleaned (run_body env strategy finalizer_name r).1.acts
        ≡ (may_clean r.obj || did cleaned r.acts)
  unfolding run_body
  run_body-cleaned r = ground arith

  -- The instance as it is once the defaults are populated and the validation has run.
  abbrev pub validation : O → S → Option E × (O × S)
  validation o s = env.validate (env.default (o, s))

  abbrev pub is_ready : O → S → Bool
  is_ready o s =
      not (is_some (validation o s).0)
      && answers_true (is_initialized env.convert (validation o s).1.0)

  reconcile_valid-acts :
      (r : Run O S)
      → (did operated (reconcile_valid env strategy finalizer_name r).1.acts ≡ (
          answers_true (is_initialized env.convert r.obj) && may_operate r.obj
          || did operated r.acts))
        × (did cleaned (reconcile_valid env strategy finalizer_name r).1.acts ≡ (
            answers_true (is_initialized env.convert r.obj) && may_clean r.obj
            || did cleaned r.acts))
  unfolding reconcile_valid
  reconcile_valid-acts r =
      let b = run_body env strategy finalizer_name r in
      let (d, e, _) = deferred-acts r.obj b.0 b.1 in
      (
        unfold reconcile_valid in ground (arith, d, run_body-operated r),
        unfold reconcile_valid in ground (arith, e, run_body-cleaned r),
      )

  reconcile_found-acts :
      (o : O) (s : S)
      → (did operated
            (reconcile_found env strategy finalizer_name
              (record { obj = o; world = s; acts = [] })).1.acts
          ≡ (is_ready o s && may_operate (validation o s).1.0))
        × (did cleaned
              (reconcile_found env strategy finalizer_name
                (record { obj = o; world = s; acts = [] })).1.acts
            ≡ (is_ready o s && may_clean (validation o s).1.0))
  unfolding reconcile_found
  reconcile_found-acts o s =
      let v = validation o s in
      let (d, e) =
        reconcile_valid-acts (record { obj = v.1.0; world = v.1.1; acts = validated ∷ [] }) in
      (ground (arith, d), ground (arith, e))

  abbrev on_found : (O → Bool) → Result E O → Bool
  on_found p (ok o) = p o
  on_found p (err e) = false

  -- `Reconcile` runs the main operation exactly when the object is found, passes the validation and
  -- is initialized, and, under the finalizer strategy, is not being deleted and has the finalizer.
  pub reconcile-operates :
      (s : S)
      → did operated (reconcile env strategy finalizer_name s).1.1
        ≡ on_found (λ o. is_ready o s && may_operate (validation o s).1.0) (env.get s)
  unfolding reconcile
  reconcile-operates s = elim (Result-cases (env.get s)) [
    | inl (o, found) ↦ rw (found, reconcile) (reconcile_found-acts o s).0
    | inr (e, lost) ↦ rw (lost, reconcile)
  ]

  -- `Reconcile` runs the custom cleanup exactly when the object is found, valid and initialized, the
  -- strategy is the finalizer's, the object is being deleted and still has the finalizer.
  pub reconcile-cleans :
      (s : S)
      → did cleaned (reconcile env strategy finalizer_name s).1.1
        ≡ on_found (λ o. is_ready o s && may_clean (validation o s).1.0) (env.get s)
  unfolding reconcile
  reconcile-cleans s = elim (Result-cases (env.get s)) [
    | inl (o, found) ↦ rw (found, reconcile) (reconcile_found-acts o s).1
    | inr (e, lost) ↦ rw (lost, reconcile)
  ]

  -- An object that is being deleted, and was not written before in the pass, is written exactly when
  -- it may be cleaned up and the cleanup answers without an error.
  pub run_body-releases :
      (r : Run O S)
      → env.is_deleting r.obj ≡ true
      → did written r.acts ≡ false
      → did written (run_body env strategy finalizer_name r).1.acts
        ≡ (may_clean r.obj && not (is_some (env.cleanup (r.obj, r.world)).0.1))
  unfolding run_body
  run_body-releases r deleting before = ground arith
