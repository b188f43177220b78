-- ===== src/Composite/Init.antt =====
-- controller/composite/v1/composite.go: the options of the composite reconciler, and `Init`.
use operator_toolkit.Prelude.{String, Option, none, some, List, [], ◌∷◌, ◌==◌, if◌then◌else◌}
use operator_toolkit.Composite.{CleanupStrategy, owner_reference_cleanup}

-- `metav1.Condition`, as far as the reconciler sets it.
pub record Condition : Type 0 where
  pub condition_type : String
  pub status : String
  pub reason : String
  pub message : String

-- The object's prototype, the controller, the client, the scheme and the instrumentation are values
-- that the reconciler only holds; nil is `none`.
pub record CompositeReconciler (Ctrl Obj Client Scheme Inst : Type 0) : Type 0 where
  pub name : String
  pub init_condition : Condition
  pub finalizer_name : String
  pub cleanup_strategy : CleanupStrategy
  pub ctrlr : Option Ctrl
  pub prototype : Option Obj
  pub client : Option Client
  pub scheme : Option Scheme
  pub inst : Option Inst

abbrev pub default_init_condition : Condition
default_init_condition = record {
  condition_type = "Progressing";
  status = "True";
  reason = "Initializing";
  message = "Component initializing";
}

-- `CompositeReconcilerOption`
abbrev pub ReconcilerOption : (Ctrl Obj Client Scheme Inst : Type 0) → Type 0
ReconcilerOption Ctrl Obj Client Scheme Inst =
    CompositeReconciler Ctrl Obj Client Scheme Inst
    → CompositeReconciler Ctrl Obj Client Scheme Inst

module _ {Ctrl Obj Client Scheme Inst : Type 0} where
  unfoldable pub with_name : String → ReconcilerOption Ctrl Obj Client Scheme Inst
  with_name name c = record c { name = name }

  unfoldable pub with_client : Client → ReconcilerOption Ctrl Obj Client Scheme Inst
  with_client cli c = record c { client = some cli }

  unfoldable pub with_prototype : Obj → ReconcilerOption Ctrl Obj Client Scheme Inst
  with_prototype obj c = record c { prototype = some obj }

  unfoldable pub with_init_condition : Condition → ReconcilerOption Ctrl Obj Client Scheme Inst
  with_init_condition cndn c = record c { init_condition = cndn }

  unfoldable pub with_finalizer : String → ReconcilerOption Ctrl Obj Client Scheme Inst
  with_finalizer finalizer c = record c { finalizer_name = finalizer }

  unfoldable pub with_cleanup_strategy :
      CleanupStrategy → ReconcilerOption Ctrl Obj Client Scheme Inst
  with_cleanup_strategy cleanup_strat c = record c { cleanup_strategy = cleanup_strat }

  unfoldable pub with_scheme : Scheme → ReconcilerOption Ctrl Obj Client Scheme Inst
  with_scheme scheme c = record c { scheme = some scheme }

  abbrev run_options :
      List (ReconcilerOption Ctrl Obj Client Scheme Inst)
      → ReconcilerOption Ctrl Obj Client Scheme Inst
  run_options [] c = c
  run_options (opt ∷ opts) c = run_options opts (opt c)

  -- Before the options: what the arguments give, and the defaults.
  unfoldable pub init_defaults :
      (mgr : Option (Client × Scheme)) (ctrlr : Option Ctrl) (prototype : Option Obj)
      → ReconcilerOption Ctrl Obj Client Scheme Inst
  init_defaults mgr ctrlr prototype c = record c {
    ctrlr = ctrlr;
    client = elim mgr [ none ↦ c.client | some (client, scheme) ↦ some client ];
    scheme = elim mgr [ none ↦ c.scheme | some (client, scheme) ↦ some scheme ];
    prototype = elim prototype [ none ↦ c.prototype | some obj ↦ some obj ];
    init_condition = default_init_condition;
    cleanup_strategy = owner_reference_cleanup;
  }

  -- `new_instrumentation` makes the default instrumentation of a name.
  unfoldable pub init :
      (new_instrumentation : String → Inst)
      → (mgr : Option (Client × Scheme)) (ctrlr : Option Ctrl) (prototype : Option Obj)
      → List (ReconcilerOption Ctrl Obj Client Scheme Inst)
      → ReconcilerOption Ctrl Obj Client Scheme Inst
  unfolding init_defaults
  init new_instrumentation mgr ctrlr prototype opts c =
      let c' = run_options opts (init_defaults mgr ctrlr prototype c) in
      record c' {
        finalizer_name = if c'.finalizer_name == "" then c'.name else c'.finalizer_name;
        inst = elim c'.inst [ none ↦ some (new_instrumentation c'.name) | some inst ↦ some inst ];
      }
