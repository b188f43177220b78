-- ===== src/Admission/Samples.antt =====
-- A validator of numbers that may only grow, and sets of labels.
use operator_toolkit.Prelude.{
  ℕ, String, true, false, List, [], ◌∷◌, none, some, ◌≡◌, ok, if◌then◌else◌, ltb, lookup,
}
use operator_toolkit.Operand.{is_some}
use operator_toolkit.Admission.{update, Validator, handle_validating, add_entries, validate_labels}
use operator_toolkit.Admission.Verdict.{
  is_allowed, handle_validating-allowed, lookup-add_entries, validate_labels-eq-all,
}

abbrev growing : Validator String ℕ ℕ
growing = record {
  decode = λ req. ok req.object;
  decode_raw = λ raw. ok raw;
  is_api_status = λ e. false;
  validate_create = [];
  validate_update = (λ obj old. if ltb obj old then some "smaller" else none) ∷ [];
  validate_delete = [];
  require_validating = λ obj. true;
}

handle_validating-allowed_example :
    is_allowed
      (handle_validating growing (record { operation = update; object = 3; old_object = 5 }))
    ≡ false
handle_validating-allowed_example =
    handle_validating-allowed growing (record { operation = update; object = 3; old_object = 5 })

abbrev labels : List (String × String)
labels = ("app", "game") ∷ ("tier", "front") ∷ []

overwritten : lookup "tier" (add_entries (("tier", "back") ∷ []) labels) ≡ some "back"
overwritten = lookup-add_entries "tier" (("tier", "back") ∷ []) labels

label_refused : is_some (validate_labels labels (("app", "other") ∷ [])) ≡ true
label_refused = validate_labels-eq-all labels (("app", "other") ∷ [])
