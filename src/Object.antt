-- ===== src/Object.antt =====
-- object/object.go: the status of an object that is converted to unstructured fields.
pub mod Status
pub mod Names
pub mod Samples
use operator_toolkit.Prelude.{
  ℕ, String, Bool, true, false, not, Option, none, some, List, [], ◌∷◌, ◌≡◌, if◌then◌else◌, Result,
  ok, err, ◌>>=◌, ◌==◌,
}

-- The values of `map[string]interface{}`, as JSON has them.
mutual
  pub data Value : Type 0 where
    null : Value
    flag : Bool → Value
    number : ℕ → Value
    text : String → Value
    list : Items → Value
    object : Fields → Value

  pub data Fields : Type 0 where
    end : Fields
    field : String → Value → Fields → Fields

  pub data Items : Type 0 where
    no_items : Items
    item : Value → Items → Items

-- The errors of the package, one for each message, with what a converter answered.
pub data ObjectError (E : Type 0) : Type 0 where
  not_converted : E → ObjectError E
  accessor : ObjectError E
  status_not_found : ObjectError E
  status_not_map : ObjectError E

-- `val, ok = m[field]`
unfoldable pub field_of : String → Fields → Option Value
field_of k end = none
field_of k (field j v fs) = if j == k then some v else field_of k fs

-- The loop of `NestedFieldNoCopy`: the value, if it is there.
unfoldable pub nested_value :
    {E : Type 0} → List String → Value → Result (ObjectError E) (Option Value)
unfolding field_of
nested_value [] val = ok (some val)
nested_value (f ∷ fields) (object m) = elim (field_of f m) [
  | none ↦ ok none
  | some v ↦ nested_value fields v
]
nested_value (f ∷ fields) _ = err accessor

unfoldable pub nested_field_no_copy :
    {E : Type 0} → Fields → List String → Result (ObjectError E) (Option Value)
unfolding nested_value
nested_field_no_copy obj fields = nested_value fields (object obj)

abbrev as_status : {E : Type 0} → Option Value → Result (ObjectError E) Fields
as_status none = err status_not_found
as_status (some (object status)) = ok status
as_status (some _) = err status_not_map

unfoldable pub get_object_status : {E : Type 0} → Fields → Result (ObjectError E) Fields
unfolding nested_field_no_copy
get_object_status obj = nested_field_no_copy obj ("status" ∷ []) >>= as_status

abbrev is_list : Option Value → Bool
is_list (some (list items)) = true
is_list _ = false

-- `convert` is `GetUnstructuredObject`: the scheme's conversion, a parameter.
module _ {E O : Type 0} (convert : O → Result E Fields) where
  unfoldable pub get_unstructured_object : O → Result (ObjectError E) Fields
  get_unstructured_object obj = elim (convert obj) [ ok u ↦ ok u | err e ↦ err (not_converted e) ]

  unfoldable pub is_initialized : O → Result (ObjectError E) Bool
  unfolding get_unstructured_object get_object_status
  is_initialized obj = do
    u ← get_unstructured_object obj
    status ← get_object_status u
    ok (is_list (field_of "conditions" status))

  -- `deep_equal` is `reflect.DeepEqual` on two maps.
  unfoldable pub status_changed :
      (deep_equal : Fields → Fields → Bool) → O → O → Result (ObjectError E) Bool
  unfolding get_unstructured_object get_object_status
  status_changed deep_equal oldo newo = do
    ou ← get_unstructured_object oldo
    old_status ← get_object_status ou
    nu ← get_unstructured_object newo
    new_status ← get_object_status nu
    ok (not (deep_equal old_status new_status))
