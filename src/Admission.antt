-- ===== src/Admission.antt =====
-- webhook/admission and webhook/function: the validating and the mutating handler, and the functions
-- that the toolkit gives them.
pub mod Verdict
pub mod Samples
use operator_toolkit.Prelude.{
  ℕ, String, Bool, true, false, Option, none, some, List, [], ◌∷◌, if◌then◌else◌, Result, ok, err,
  has, insert, lookup,
}

pub data Operation : Type 0 where
  create update delete connect : Operation

-- An admission request: the operation, and the object and the old object as raw bytes `Raw`.
pub record Request (Raw : Type 0) : Type 0 where
  pub operation : Operation
  pub object : Raw
  pub old_object : Raw

-- `admission.Response`: allowed, denied with a message, denied with the status of an API error, an
-- error with its HTTP status code, or a patch from one text of the object to another.
pub data Response (E Raw : Type 0) : Type 0 where
  allowed : Response E Raw
  denied : E → Response E Raw
  denied_status : E → Response E Raw
  errored : ℕ → E → Response E Raw
  patched : (original marshalled : Raw) → Response E Raw

abbrev pub status_bad_request : ℕ
status_bad_request = 400

abbrev pub status_internal_server_error : ℕ
status_internal_server_error = 500

-- A validator, with the decoder and the test whether an error carries an API status.
pub record Validator (E O Raw : Type 0) : Type 0 where
  -- The decoders of the request and of raw bytes, into a new object in the request's namespace.
  pub decode : Request Raw → Result E O
  pub decode_raw : Raw → Result E O
  pub is_api_status : E → Bool
  pub validate_create : List (O → Option E)
  pub validate_update : List (O → O → Option E)
  pub validate_delete : List (O → Option E)
  pub require_validating : O → Bool

module _ {E O Raw : Type 0} (v : Validator E O Raw) where
  unfoldable pub refuse : E → Response E Raw
  refuse e = if v.is_api_status e then denied_status e else denied e

  -- The loop over the validating functions of a create or a delete, and of an update.
  unfoldable pub run_validations : List (O → Option E) → O → Response E Raw
  unfolding refuse
  run_validations [] obj = allowed
  run_validations (m ∷ ms) obj = elim (m obj) [ some e ↦ refuse e | none ↦ run_validations ms obj ]

  unfoldable pub run_update_validations : List (O → O → Option E) → O → O → Response E Raw
  unfolding refuse
  run_update_validations [] obj old = allowed
  run_update_validations (m ∷ ms) obj old = elim (m obj old) [
    | some e ↦ refuse e
    | none ↦ run_update_validations ms obj old
  ]

  unfoldable pub validate_one : List (O → Option E) → Result E O → Response E Raw
  unfolding run_validations
  validate_one ms (err e) = errored status_bad_request e
  validate_one ms (ok obj) = if v.require_validating obj then run_validations ms obj else allowed

  unfoldable pub validate_both : Result E O → Result E O → Response E Raw
  unfolding run_update_validations
  validate_both (err e) old = errored status_bad_request e
  validate_both (ok obj) (err e) = errored status_bad_request e
  validate_both (ok obj) (ok old) =
      if v.require_validating obj then run_update_validations v.validate_update obj old else allowed

  unfoldable pub handle_validating : Request Raw → Response E Raw
  unfolding validate_one validate_both
  handle_validating req = elim req.operation [
    | create ↦ validate_one v.validate_create (v.decode req)
    | update ↦ validate_both (v.decode_raw req.object) (v.decode_raw req.old_object)
    | delete ↦ validate_one v.validate_delete (v.decode_raw req.old_object)
    | connect ↦ allowed
  ]

-- A defaulter, with the decoder and `json.Marshal`.
pub record Defaulter (E O Raw : Type 0) : Type 0 where
  pub decode : Request Raw → Result E O
  pub marshal : O → Result E Raw
  pub default : List (O → O)
  pub require_defaulting : O → Bool

module _ {E O Raw : Type 0} (d : Defaulter E O Raw) where
  unfoldable pub run_defaults : List (O → O) → O → O
  run_defaults [] obj = obj
  run_defaults (m ∷ ms) obj = run_defaults ms (m obj)

  unfoldable pub handle_defaulting : Request Raw → Response E Raw
  unfolding run_defaults
  handle_defaulting req = elim (d.decode req) [
    | err e ↦ errored status_bad_request e
    | ok obj ↦
        let obj' = if d.require_defaulting obj then run_defaults d.default obj else obj in
        elim (d.marshal obj') [
          | err e ↦ errored status_internal_server_error e
          | ok marshalled ↦ patched req.object marshalled
        ]
  ]

-- `AddLabels` and `AddAnnotations`: the loop that sets each of the given entries. A nil map is empty.
unfoldable pub add_entries :
    List (String × String) → List (String × String) → List (String × String)
add_entries [] entries = entries
add_entries ((k, v) ∷ given) entries = add_entries given (insert k v entries)

-- `ValidateLabels`: the first label key that the given labels lack, if any.
unfoldable pub validate_labels : (obj_labels labels : List (String × String)) → Option String
validate_labels [] labels = none
validate_labels ((k, v) ∷ obj_labels) labels =
    if has k labels then validate_labels obj_labels labels else some k
