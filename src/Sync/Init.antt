-- ===== src/Sync/Init.antt =====
-- controller/sync/v1: the options of the sync reconciler, `Init`, and the run of a sync function.
use operator_toolkit.Prelude.{
  ℕ, zero, suc, ◌+◌, String, Option, none, some, List, [], ◌∷◌, map, ltb, if◌then◌else◌, ◌++◌, ◌≡◌,
  ◌<◌, refl, ap, true, arith,
}
use operator_toolkit.Sync.{SyncFunc, new_sync_func}

pub record SyncReconciler (Ctrl Obj ObjList Client Scheme Inst F : Type 0) : Type 0 where
  pub name : String
  pub ctrlr : Option Ctrl
  pub prototype : Option Obj
  pub prototype_list : Option ObjList
  pub client : Option Client
  pub scheme : Option Scheme
  pub sync_funcs : List (SyncFunc F)
  pub inst : Option Inst

abbrev pub SyncOption : (Ctrl Obj ObjList Client Scheme Inst F : Type 0) → Type 0
SyncOption Ctrl Obj ObjList Client Scheme Inst F =
    SyncReconciler Ctrl Obj ObjList Client Scheme Inst F
    → SyncReconciler Ctrl Obj ObjList Client Scheme Inst F

module _ {Ctrl Obj ObjList Client Scheme Inst F : Type 0} where
  unfoldable pub with_name : String → SyncOption Ctrl Obj ObjList Client Scheme Inst F
  with_name name s = record s { name = name }

  unfoldable pub with_client : Client → SyncOption Ctrl Obj ObjList Client Scheme Inst F
  with_client cli s = record s { client = some cli }

  unfoldable pub with_prototype : Obj → SyncOption Ctrl Obj ObjList Client Scheme Inst F
  with_prototype obj s = record s { prototype = some obj }

  unfoldable pub with_scheme : Scheme → SyncOption Ctrl Obj ObjList Client Scheme Inst F
  with_scheme scheme s = record s { scheme = some scheme }

  unfoldable pub with_functions :
      List (SyncFunc F) → SyncOption Ctrl Obj ObjList Client Scheme Inst F
  with_functions sf s = record s { sync_funcs = sf }

  abbrev run_options :
      List (SyncOption Ctrl Obj ObjList Client Scheme Inst F)
      → SyncOption Ctrl Obj ObjList Client Scheme Inst F
  run_options [] s = s
  run_options (opt ∷ opts) s = run_options opts (opt s)

  -- Before the options: what the arguments give.
  unfoldable pub init_arguments :
      (mgr : Option (Client × Scheme)) (ctrlr : Option Ctrl) (prototype : Option Obj)
      (prototype_list : Option ObjList)
      → SyncOption Ctrl Obj ObjList Client Scheme Inst F
  init_arguments mgr ctrlr prototype prototype_list s = record s {
    ctrlr = ctrlr;
    client = elim mgr [ none ↦ s.client | some (client, scheme) ↦ some client ];
    scheme = elim mgr [ none ↦ s.scheme | some (client, scheme) ↦ some scheme ];
    prototype = elim prototype [ none ↦ s.prototype | some obj ↦ some obj ];
    prototype_list = elim prototype_list [ none ↦ s.prototype_list | some objs ↦ some objs ];
  }

  -- The reconciler, and the sync functions that it starts a goroutine for.
  unfoldable pub init :
      (new_instrumentation : String → Inst)
      → (mgr : Option (Client × Scheme)) (ctrlr : Option Ctrl) (prototype : Option Obj)
        (prototype_list : Option ObjList)
      → List (SyncOption Ctrl Obj ObjList Client Scheme Inst F)
      → SyncReconciler Ctrl Obj ObjList Client Scheme Inst F
      → SyncReconciler Ctrl Obj ObjList Client Scheme Inst F × List (SyncFunc F)
  unfolding init_arguments
  init new_instrumentation mgr ctrlr prototype prototype_list opts s =
      let s' = run_options opts (init_arguments mgr ctrlr prototype prototype_list s) in
      (
        record s' {
          inst = elim s'.inst [ none ↦ some (new_instrumentation s'.name) | some inst ↦ some inst ];
        },
        s'.sync_funcs,
      )

  -- `Init` of the two derived reconcilers, of which `own` is the sync function.
  unfoldable pub init_derived :
      (new_instrumentation : String → Inst) (own : F) (period delay : ℕ)
      → (mgr : Option (Client × Scheme)) (ctrlr : Option Ctrl) (prototype : Option Obj)
        (prototype_list : Option ObjList)
      → List (SyncOption Ctrl Obj ObjList Client Scheme Inst F)
      → SyncReconciler Ctrl Obj ObjList Client Scheme Inst F
      → SyncReconciler Ctrl Obj ObjList Client Scheme Inst F × List (SyncFunc F)
  unfolding init with_functions new_sync_func
  init_derived new_instrumentation own period delay mgr ctrlr prototype prototype_list opts s =
      init new_instrumentation mgr ctrlr prototype prototype_list
        (if ltb 0 period
          then opts ++ (with_functions (new_sync_func own period delay ∷ []) ∷ [])
          else opts)
        s

module _ {Ctrl Obj ObjList Client Scheme Inst F : Type 0} where
  run_options-last :
      (opts : List (SyncOption Ctrl Obj ObjList Client Scheme Inst F))
      (opt : SyncOption Ctrl Obj ObjList Client Scheme Inst F)
      (s : SyncReconciler Ctrl Obj ObjList Client Scheme Inst F)
      → run_options (opts ++ (opt ∷ [])) s ≡ opt (run_options opts s)
  run_options-last [] opt s = refl
  run_options-last (o ∷ opts) opt s = run_options-last opts opt (o s)

  -- With a positive period the `Init` of a derived reconciler starts its own sync function and no
  -- other, whatever options the caller gives: sync functions that these set are dropped.
  pub init_derived-runs_own :
      (new_instrumentation : String → Inst) (own : F) (period delay : ℕ)
      (mgr : Option (Client × Scheme)) (ctrlr : Option Ctrl) (prototype : Option Obj)
      (prototype_list : Option ObjList)
      (opts : List (SyncOption Ctrl Obj ObjList Client Scheme Inst F))
      (s : SyncReconciler Ctrl Obj ObjList Client Scheme Inst F)
      → 0 < period
      → (init_derived new_instrumentation own period delay mgr ctrlr prototype prototype_list opts
          s).1
        ≡ new_sync_func own period delay ∷ []
  unfolding init_derived init with_functions
  init_derived-runs_own new_instrumentation own period delay mgr ctrlr prototype prototype_list opts
        s h =
      let on : ltb 0 period ≡ true = ground arith in
      rw on (
        ap (λ r. r.sync_funcs)
          (run_options-last opts (with_functions (new_sync_func own period delay ∷ []))
            (init_arguments mgr ctrlr prototype prototype_list s)))

-- The times, in nanoseconds from its start, of the first `n` calls of a sync function that takes no
-- time itself: one after the delay, and one at each tick.
unfoldable pub call_times : {F : Type 0} → SyncFunc F → ℕ → List ℕ
call_times sf zero = []
call_times sf (suc n) = sf.startup_sync_delay ∷ map (λ t. t + sf.period) (call_times sf n)
