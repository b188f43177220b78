-- ===== src/Composite/Samples.antt =====
-- An instance that is initialized and carries a finalizer, and reconciliations of it.
use operator_toolkit.Prelude.{
  String, Bool, true, false, List, [], ◌∷◌, Option, none, some, ◌≡◌, refl, ok, err, elem,
}
use operator_toolkit.Object.{
  Fields, object, list, no_items, end, field, field_of, nested_value, nested_field_no_copy,
  get_object_status, get_unstructured_object, is_initialized,
}
use operator_toolkit.Executor.{zero_result}
use operator_toolkit.Composite.{
  owner_reference_cleanup, finalizer_cleanup, Env, written, cleaned, operated, Run, contains,
  run_body, reconcile,
}
use operator_toolkit.Composite.Init.{
  CompositeReconciler, default_init_condition, init_defaults, init, with_name, with_finalizer,
  with_cleanup_strategy,
}
use operator_toolkit.Composite.Acts.{did, reconcile-operates, reconcile-cleans, run_body-releases}

record Instance : Type 0 where
  deleting : Bool
  finalizers : List String
  fields : Fields

abbrev initialized_fields : Fields
initialized_fields = field "status" (object (field "conditions" (list no_items) end)) end

-- The world is the stored instance, and a cleanup fails where `broken` holds.
abbrev stored : (broken : Bool) → Env String Instance (Option Instance)
stored broken = record {
  get = λ s. elim s [ none ↦ err "NotFound" | some o ↦ ok o ];
  ignore_not_found = λ e. none;
  default = λ p. p;
  validate = λ p. (none, p);
  initialize = λ p. (none, p);
  update_status = λ p. (none, p);
  operate = λ p. ((zero_result, none), p);
  cleanup = λ p. ((zero_result, elim broken [ true ↦ some "failed" | false ↦ none ]), p);
  status_write = λ p. (none, (p.0, some p.0));
  write = λ p. (none, (p.0, some p.0));
  is_deleting = λ o. o.deleting;
  finalizers = λ o. o.finalizers;
  contains_finalizer = λ o f. elem f o.finalizers;
  add_finalizer = λ o f. record o { finalizers = f ∷ o.finalizers };
  remove_finalizer = λ o f. record o { finalizers = [] };
  convert = λ o. ok o.fields;
  deep_equal = λ a b. true;
  object_error = λ e. "object";
  new_aggregate = λ a b. b;
  status_error = λ e. e;
}

abbrev alive : Instance
alive = record { deleting = false; finalizers = "f" ∷ []; fields = initialized_fields }

abbrev leaving : Instance
leaving = record { deleting = true; finalizers = "f" ∷ []; fields = initialized_fields }

abbrev fresh : Instance
fresh = record { deleting = false; finalizers = []; fields = initialized_fields }

abbrev pass_over : Instance → Run Instance (Option Instance)
pass_over o = record { obj = o; world = some o; acts = [] }

reconcile-operates_example :
    did operated (reconcile (stored false) finalizer_cleanup "f" (some alive)).1.1 ≡ true
unfolding is_initialized get_unstructured_object get_object_status nested_field_no_copy nested_value
    field_of
reconcile-operates_example = reconcile-operates (stored false) finalizer_cleanup "f" (some alive)

reconcile-cleans_example :
    did cleaned (reconcile (stored false) finalizer_cleanup "f" (some leaving)).1.1 ≡ true
unfolding is_initialized get_unstructured_object get_object_status nested_field_no_copy nested_value
    field_of contains
reconcile-cleans_example = reconcile-cleans (stored false) finalizer_cleanup "f" (some leaving)

run_body-releases_example :
    did written (run_body (stored true) finalizer_cleanup "f" (pass_over leaving)).1.acts ≡ false
unfolding contains
run_body-releases_example =
    run_body-releases (stored true) finalizer_cleanup "f" (pass_over leaving) refl refl

abbrev unnamed : CompositeReconciler String String String String String
unnamed = record {
  name = "";
  init_condition = default_init_condition;
  finalizer_name = "";
  cleanup_strategy = owner_reference_cleanup;
  ctrlr = none;
  prototype = none;
  client = none;
  scheme = none;
  inst = none;
}

-- The finalizer is the name where no option sets one.
named_finalizer :
    ((init (λ n. n) none none none (with_name "games" ∷ []) unnamed).finalizer_name ≡ "games")
    × ((init
          (λ n. n)
          none
          none
          none
          (with_finalizer "own" ∷ with_name "games" ∷ [])
          unnamed).finalizer_name
        ≡ "own")
    × ((init
          (λ n. n)
          none
          none
          none
          (with_cleanup_strategy finalizer_cleanup ∷ [])
          unnamed).cleanup_strategy
        ≡ finalizer_cleanup)
unfolding init init_defaults with_name with_finalizer with_cleanup_strategy
named_finalizer = (refl, refl, refl)
