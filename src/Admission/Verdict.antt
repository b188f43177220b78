-- ===== src/Admission/Verdict.antt =====
-- webhook/admission: when a request is allowed, and what labels pass after they were added.
use operator_toolkit.Prelude.{
  String, Bool, true, false, Option, some, List, [], ◌∷◌, ◌≡◌, ◌||◌, ◌==◌, if◌then◌else◌, Result,
  ok, err, has, insert, lookup, refl, arith, all, lookup-insert, ◌∙◌, ap, not,
}
use operator_toolkit.Operand.{is_some}
use operator_toolkit.Admission.{
  Operation, create, update, delete, connect, Request, Response, allowed, Validator,
  run_validations, run_update_validations, validate_one, validate_both, handle_validating,
  add_entries, validate_labels,
}

abbrev pub is_allowed : {E Raw : Type 0} → Response E Raw → Bool
is_allowed allowed = true
is_allowed _ = false

abbrev pub passes : {E O : Type 0} → O → List (O → Option E) → Bool
passes obj ms = all (λ m. not (is_some (m obj))) ms

abbrev pub passes_update : {E O : Type 0} → O → O → List (O → O → Option E) → Bool
passes_update obj old ms = all (λ m. not (is_some (m obj old))) ms

abbrev pub decoded : {E O : Type 0} → (O → Bool) → Result E O → Bool
decoded p (ok obj) = p obj
decoded p (err e) = false

module _ {E O Raw : Type 0} (v : Validator E O Raw) where
  run_validations-allowed :
      (ms : List (O → Option E)) (obj : O) → is_allowed (run_validations v ms obj) ≡ passes obj ms
  unfolding run_validations
  run_validations-allowed [] obj = refl
  run_validations-allowed (m ∷ ms) obj = ground (arith, run_validations-allowed ms obj)

  run_update_validations-allowed :
      (ms : List (O → O → Option E)) (obj old : O)
      → is_allowed (run_update_validations v ms obj old) ≡ passes_update obj old ms
  unfolding run_update_validations
  run_update_validations-allowed [] obj old = refl
  run_update_validations-allowed (m ∷ ms) obj old =
      ground (arith, run_update_validations-allowed ms obj old)

  validate_one-allowed :
      (ms : List (O → Option E)) (r : Result E O)
      → is_allowed (validate_one v ms r)
        ≡ decoded (λ obj. not (v.require_validating obj) || passes obj ms) r
  unfolding validate_one
  validate_one-allowed ms (err e) = refl
  validate_one-allowed ms (ok obj) = ground (arith, run_validations-allowed ms obj)

  validate_both-allowed :
      (r old : Result E O)
      → is_allowed (validate_both v r old)
        ≡ decoded
            (λ obj.
              decoded
                (λ o. not (v.require_validating obj) || passes_update obj o v.validate_update)
                old)
            r
  unfolding validate_both
  validate_both-allowed (err e) old = refl
  validate_both-allowed (ok obj) (err e) = refl
  validate_both-allowed (ok obj) (ok o) =
      ground (arith, run_update_validations-allowed v.validate_update obj o)

  -- Which requests the validating handler is to allow.
  abbrev pub acceptable : Request Raw → Bool
  acceptable req = elim req.operation [
    | create ↦
        decoded (λ obj. not (v.require_validating obj) || passes obj v.validate_create)
          (v.decode req)
    | update ↦
        decoded
          (λ obj.
            decoded (λ o. not (v.require_validating obj) || passes_update obj o v.validate_update)
              (v.decode_raw req.old_object))
          (v.decode_raw req.object)
    | delete ↦
        decoded (λ obj. not (v.require_validating obj) || passes obj v.validate_delete)
          (v.decode_raw req.old_object)
    | connect ↦ true
  ]

  handle_cases :
      (op : Operation) (object old : Raw)
      → is_allowed
          (handle_validating v (record { operation = op; object = object; old_object = old }))
        ≡ acceptable (record { operation = op; object = object; old_object = old })
  unfolding handle_validating
  handle_cases create object old = validate_one-allowed v.validate_create _
  handle_cases update object old = validate_both-allowed _ _
  handle_cases delete object old = validate_one-allowed v.validate_delete _
  handle_cases connect object old = refl

  -- The validating handler allows a request exactly when the objects of its operation decode and
  -- either need no validation or pass every function for the operation; it allows any other operation.
  pub handle_validating-allowed :
      (req : Request Raw) → is_allowed (handle_validating v req) ≡ acceptable req
  handle_validating-allowed req = handle_cases req.operation req.object req.old_object

-- `ValidateLabels` finds a fault exactly when the given labels lack the key of one of the object's.
pub validate_labels-eq-all :
    (obj_labels labels : List (String × String))
    → is_some (validate_labels obj_labels labels) ≡ not (all (λ l. has l.0 labels) obj_labels)
unfolding validate_labels
validate_labels-eq-all [] labels = refl
validate_labels-eq-all ((k, v) ∷ obj_labels) labels =
    ground (arith, validate_labels-eq-all obj_labels labels)

-- The value that the last of the given entries sets for a key.
abbrev pub given_value : String → List (String × String) → Option String → Option String
given_value k [] old = old
given_value k ((j, v) ∷ given) old = given_value k given (if j == k then some v else old)

-- After `AddLabels` a key has the value that the given labels set for it last, and where they set
-- none the value that it had.
pub lookup-add_entries :
    (k : String) (given entries : List (String × String))
    → lookup k (add_entries given entries) ≡ given_value k given (lookup k entries)
unfolding add_entries
lookup-add_entries k [] entries = refl
lookup-add_entries k ((j, v) ∷ given) entries =
    lookup-add_entries k given (insert j v entries)
    ∙ ap (given_value k given) (lookup-insert j k v entries)
