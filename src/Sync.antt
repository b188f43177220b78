-- ===== src/Sync.antt =====
-- controller/sync/v1, controller/external-object-sync/v1, controller/metadata-sync/v1: the sync
-- reconciler and the two functions that its periodic passes run.
pub mod Garbage
pub mod Init
pub mod Samples
use operator_toolkit.Prelude.{
  ℕ, suc, ◌<◌, String, Bool, true, false, Option, none, some, List, [], ◌∷◌, ◌++◌, ◌≡◌,
  if◌then◌else◌, Result, ok, err, nat_eq, ltb,
}
use operator_toolkit.Executor.{CtrlResult, zero_result, requeued}
use operator_toolkit.Object.Names.{NamespacedName, namespaced_names, namespaced_names_diff}

-- The client and the controller of the sync reconciler, with the world `S`.
pub record SyncEnv (E O S : Type 0) : Type 0 where
  pub get : NamespacedName → S → Result E O
  pub is_not_found : E → Bool
  -- A copy of the prototype with a name and a namespace.
  pub named_instance : NamespacedName → O
  pub delete : O → S → Option E × S
  pub ensure : O → S → Option E × S
  -- `fmt.Errorf` around the error of a delete and of an ensure.
  pub delete_failed : E → E
  pub ensure_failed : E → E

abbrev failure : {E : Type 0} → (E → E) → Option E → CtrlResult × Option E
failure wrap none = (zero_result, none)
failure wrap (some e) = (requeued, some (wrap e))

module _ {E O S : Type 0} (env : SyncEnv E O S) where
  unfoldable pub sync_reconcile : NamespacedName → S → (CtrlResult × Option E) × S
  sync_reconcile req s = elim (env.get req s) [
    | err get_err ↦
        if env.is_not_found get_err
        then (let (e, s') = env.delete (env.named_instance req) s in
            (failure env.delete_failed e, s'))
        else ((zero_result, some get_err), s)
    | ok instance' ↦ (let (e, s') = env.ensure instance' s in (failure env.ensure_failed e, s'))
  ]

-- A sync function: what it calls, its period and its delay, in nanoseconds.
pub record SyncFunc (F : Type 0) : Type 0 where
  pub f : F
  pub period : ℕ
  pub startup_sync_delay : ℕ

-- `10 * time.Second`
abbrev pub default_startup_sync_delay : ℕ
default_startup_sync_delay = 10000000000

unfoldable pub new_sync_func : {F : Type 0} → F → ℕ → ℕ → SyncFunc F
new_sync_func f p d = record {
  f = f;
  period = p;
  startup_sync_delay = if nat_eq d 0 then default_startup_sync_delay else d;
}

-- `WithSyncFuncs` of each option in turn: each sets the list.
unfoldable pub with_sync_funcs :
    {F : Type 0} → List (List (SyncFunc F)) → List (SyncFunc F) → List (SyncFunc F)
with_sync_funcs [] sync_funcs = sync_funcs
with_sync_funcs (sf ∷ options) sync_funcs = with_sync_funcs options sf

-- The sync functions that the `Init` of the two derived reconcilers leaves: the options set the list
-- one after another, and the reconciler's own option, present if its period is positive, is the last.
unfoldable pub init_sync_funcs :
    {F : Type 0} → F → (period delay : ℕ) → List (List (SyncFunc F)) → List (SyncFunc F)
unfolding new_sync_func with_sync_funcs
init_sync_funcs own period delay options =
    with_sync_funcs
      (if ltb 0 period then options ++ ((new_sync_func own period delay ∷ []) ∷ []) else options) []

module _ {E O S : Type 0} (env : SyncEnv E O S) where
  -- The loop of `collectGarbage` over the names to delete; a failed delete is only logged.
  unfoldable pub delete_all : List NamespacedName → S → S
  delete_all [] s = s
  delete_all (obj ∷ del_objs) s = delete_all del_objs (env.delete (env.named_instance obj) s).1

  -- The loop of `resync`; a failed ensure is only logged.
  unfoldable pub ensure_each : List O → S → S
  ensure_each [] s = s
  ensure_each (obj ∷ objs) s = ensure_each objs (env.ensure obj s).1

module _ {E Items Item O S : Type 0} (env : SyncEnv E O S) where
  -- `collectGarbage`: the objects of the cluster, those of the external system, and the difference.
  unfoldable pub collect_garbage :
      (client_list : S → Result E Items)
      → (extract_list : Items → Result E (List Item)) → (accessor : Item → Result E NamespacedName)
      → (list : S → Result E (List NamespacedName) × S) → S
      → S
  unfolding delete_all
  collect_garbage client_list extract_list accessor list s = elim (client_list s) [
    | err e ↦ s
    | ok instances ↦ elim (namespaced_names extract_list accessor instances) [
      | err e ↦ s
      | ok k_objs ↦
          let (listed, s') = list s in
          elim listed [
            | err e ↦ s'
            | ok ext_objs ↦ delete_all env (namespaced_names_diff ext_objs k_objs) s'
          ]
    ]
  ]

  unfoldable pub resync :
      (client_list : S → Result E Items)
      → (extract_list : Items → Result E (List Item))
      → (client_objects : List Item → Result E (List O))
      → (diff : List O → S → Result E (List O) × S) → S
      → S
  unfolding ensure_each
  resync client_list extract_list client_objects diff s = elim (client_list s) [
    | err e ↦ s
    | ok instances ↦ elim (extract_list instances) [
      | err e ↦ s
      | ok items ↦ elim (client_objects items) [
        | err e ↦ s
        | ok k8s_objs ↦
            let (differing, s') = diff k8s_objs s in
            elim differing [ err e ↦ s' | ok resync_objs ↦ ensure_each env resync_objs s' ]
      ]
    ]
  ]
