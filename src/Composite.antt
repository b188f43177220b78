-- ===== src/Composite.antt =====
-- controller/composite/v1: the composite reconciler over a client, an object and a controller.
pub mod Acts
pub mod Init
pub mod Samples
use operator_toolkit.Prelude.{
  ℕ, String, Bool, true, false, not, Option, none, some, List, [], ◌∷◌, ◌≡◌, if◌then◌else◌, Result,
  ok, err, ◌==◌, ◌||◌,
}
use operator_toolkit.Object.{Fields, ObjectError, is_initialized, status_changed}
use operator_toolkit.Executor.{CtrlResult, zero_result, requeued}
use operator_toolkit.Operand.{is_some}

pub data CleanupStrategy : Type 0 where
  owner_reference_cleanup finalizer_cleanup : CleanupStrategy

-- What the reconciler calls. The methods of the controller and the writes of the client act on the
-- object `O` in memory and on the rest of the world `S`.
pub record Env (E O S : Type 0) : Type 0 where
  -- `client.Get` into a copy of the prototype, and `client.IgnoreNotFound`.
  pub get : S → Result E O
  pub ignore_not_found : E → Option E
  -- The controller's methods.
  pub default : O × S → O × S
  pub validate : O × S → Option E × (O × S)
  pub initialize : O × S → Option E × (O × S)
  pub update_status : O × S → Option E × (O × S)
  pub operate : O × S → (CtrlResult × Option E) × (O × S)
  pub cleanup : O × S → (CtrlResult × Option E) × (O × S)
  -- `client.Status().Update` and `client.Update`.
  pub status_write : O × S → Option E × (O × S)
  pub write : O × S → Option E × (O × S)
  -- The object's metadata, and the helpers of controllerutil on its finalizers.
  pub is_deleting : O → Bool
  pub finalizers : O → List String
  pub contains_finalizer : O → String → Bool
  pub add_finalizer : O → String → O
  pub remove_finalizer : O → String → O
  -- The scheme's conversion, `reflect.DeepEqual`, and the errors that are made from errors.
  pub convert : O → Result E Fields
  pub deep_equal : Fields → Fields → Bool
  pub object_error : ObjectError E → E
  pub new_aggregate : Option E → Option E → Option E
  pub status_error : E → E

-- The calls with an effect, which only the theorems read.
pub data Act : Type 0 where
  validated initialized status_written written cleaned operated status_computed : Act

pub record Run (O S : Type 0) : Type 0 where
  pub obj : O
  pub world : S
  pub acts : List Act

-- A call, noted in the acts, the latest first.
abbrev pub act : {A O S : Type 0} → Act → (O × S → A × (O × S)) → Run O S → A × Run O S
act a f r =
    let (x, p) = f (r.obj, r.world) in (x, record { obj = p.0; world = p.1; acts = a ∷ r.acts })

-- `contains` of reconcile.go.
unfoldable pub contains : List String → String → Bool
contains [] s = false
contains (element ∷ slice) s = if element == s then true else contains slice s

-- What `cleanupHandler` returns.
pub record Handled (E : Type 0) : Type 0 where
  pub del_enabled : Bool
  pub updated : Bool
  pub result : CtrlResult
  pub reterr : Option E

module _ {E O S : Type 0} (env : Env E O S) where
  -- The end of the deferred function: the comparison of the statuses, and the update.
  unfoldable pub patch_status :
      O → CtrlResult × Option E → Run O S → (CtrlResult × Option E) × Run O S
  patch_status old (result, reterr) r = elim (status_changed env.convert env.deep_equal old r.obj) [
    | err e ↦ ((result, env.new_aggregate reterr (some (env.status_error (env.object_error e)))), r)
    | ok false ↦ ((result, reterr), r)
    | ok true ↦
        let (failed, r') = act status_written env.status_write r in
        (
          (
            result,
            elim failed [
              | none ↦ reterr
              | some e ↦ env.new_aggregate reterr (some (env.status_error e))
            ],
          ),
          r',
        )
  ]

  unfoldable pub deferred :
      O → ((CtrlResult × Option E) × Bool) → Run O S → (CtrlResult × Option E) × Run O S
  unfolding patch_status
  deferred old (answer, true) r = (answer, r)
  deferred old (answer, false) r =
      let (failed, r') = act status_computed env.update_status r in
      elim failed [
        | some e ↦ ((requeued, env.new_aggregate answer.1 (some (env.status_error e))), r')
        | none ↦ patch_status old answer r'
      ]

  unfoldable pub run_initialize : Run O S → (CtrlResult × Option E) × Run O S
  run_initialize r =
      let (failed, r') = act initialized env.initialize r in
      elim failed [
        | some e ↦ ((zero_result, some e), r')
        | none ↦ ((requeued, none), (act status_written env.status_write r').1)
      ]

module _ {E O S : Type 0} (env : Env E O S) (strategy : CleanupStrategy)
    (finalizer_name : String) where
  -- The branch of an object that is not marked for deletion.
  unfoldable pub handle_alive : Run O S → Handled E × Run O S
  handle_alive r =
      if not (env.contains_finalizer r.obj finalizer_name)
      then (
        record { del_enabled = false; updated = true; result = zero_result; reterr = none },
        (act written env.write (record r { obj = env.add_finalizer r.obj finalizer_name })).1,
      )
      else (record { del_enabled = false; updated = false; result = zero_result; reterr = none }, r)

  -- The end of a cleanup that answered `res` and `err`.
  unfoldable pub handle_cleaned : CtrlResult → Option E → Run O S → Handled E × Run O S
  handle_cleaned res (some e) r =
      (record { del_enabled = true; updated = false; result = res; reterr = some e }, r)
  handle_cleaned res none r = (
    record { del_enabled = true; updated = true; result = res; reterr = none },
    (act written env.write (record r { obj = env.remove_finalizer r.obj finalizer_name })).1,
  )

  unfoldable pub handle_deleting : Run O S → Handled E × Run O S
  unfolding contains handle_cleaned
  handle_deleting r =
      if contains (env.finalizers r.obj) finalizer_name
      then (let (answer, r') = act cleaned env.cleanup r in handle_cleaned answer.0 answer.1 r')
      else (record { del_enabled = true; updated = false; result = zero_result; reterr = none }, r)

  unfoldable pub cleanup_handler : Run O S → Handled E × Run O S
  unfolding handle_alive handle_deleting
  cleanup_handler r = if not (env.is_deleting r.obj) then handle_alive r else handle_deleting r

  -- From the main operation on: the result and error of `Reconcile` before the deferred function,
  -- and whether that is to skip.
  abbrev pub run_operate : Run O S → ((CtrlResult × Option E) × Bool) × Run O S
  run_operate r = let (answer, r') = act operated env.operate r in ((answer, false), r')

  unfoldable pub run_finalizers : Run O S → ((CtrlResult × Option E) × Bool) × Run O S
  unfolding cleanup_handler
  run_finalizers r =
      let (h, r') = cleanup_handler r in
      if h.updated || (h.del_enabled || is_some h.reterr)
      then (((h.result, h.reterr), h.updated), r')
      else run_operate r'

  unfoldable pub run_body : Run O S → ((CtrlResult × Option E) × Bool) × Run O S
  unfolding run_finalizers
  run_body r = elim strategy [
    | finalizer_cleanup ↦ run_finalizers r
    | owner_reference_cleanup ↦ run_operate r
  ]

  -- `Reconcile` of a valid instance.
  unfoldable pub reconcile_valid : Run O S → (CtrlResult × Option E) × Run O S
  unfolding run_body deferred run_initialize
  reconcile_valid r = elim (is_initialized env.convert r.obj) [
    | err e ↦ ((zero_result, some (env.object_error e)), r)
    | ok false ↦ run_initialize env r
    | ok true ↦ (let (body, r') = run_body r in deferred env r.obj body r')
  ]

  unfoldable pub reconcile_found : Run O S → (CtrlResult × Option E) × Run O S
  unfolding reconcile_valid
  reconcile_found r =
      let p = env.default (r.obj, r.world) in
      let (failed, r') = act validated env.validate (record r { obj = p.0; world = p.1 }) in
      elim failed [ some e ↦ ((zero_result, some e), r') | none ↦ reconcile_valid r' ]

  -- The answer of `Reconcile`, the world after it, and what it did, the latest first.
  unfoldable pub reconcile : S → (CtrlResult × Option E) × (S × List Act)
  unfolding reconcile_found
  reconcile s = elim (env.get s) [
    | err e ↦ ((zero_result, env.ignore_not_found e), (s, []))
    | ok o ↦
        let (answer, r) = reconcile_found (record { obj = o; world = s; acts = [] }) in
        (answer, (r.world, r.acts))
  ]
