-- ===== src/Object/Samples.antt =====
-- Objects with and without a status, and lists of names.
use operator_toolkit.Prelude.{ℕ, String, true, false, List, [], ◌∷◌, ◌≡◌, refl, Result, ok}
use operator_toolkit.Object.{Fields, object, end, field, number, field_of, status_changed}
use operator_toolkit.Object.Names.{
  NamespacedName, found_in, times, namespaced_names, namespaced_names_diff,
  namespaced_names_diff-times, namespaced_names-eq-map,
}
use operator_toolkit.Object.Status.{status_changed-same_status}

abbrev with_status : ℕ → Fields
with_status spec = field "spec" (number spec) (field "status" (object end) end)

-- The objects are their fields.
abbrev converted : Fields → Result String Fields
converted m = ok m

spec_change_only : status_changed converted (λ a b. true) (with_status 1) (with_status 2) ≡ ok false
unfolding field_of
spec_change_only =
    status_changed-same_status converted (λ a b. true) (λ m. refl) (with_status 1) (with_status 2)
      (with_status 1) (with_status 2) end refl refl refl refl

abbrev named_in : String → String → NamespacedName
named_in namespace n = record { name = n; namespace = namespace }

abbrev some_names : List NamespacedName
some_names = named_in "x" "a" ∷ named_in "y" "a" ∷ named_in "x" "a" ∷ named_in "x" "b" ∷ []

namespaced_names_diff-times_example :
    times (named_in "x" "a") (namespaced_names_diff some_names (named_in "x" "b" ∷ [])) ≡ 2
unfolding found_in
namespaced_names_diff-times_example =
    namespaced_names_diff-times (named_in "x" "a") some_names (named_in "x" "b" ∷ [])

abbrev whole : List NamespacedName → Result String (List NamespacedName)
whole items = ok items

abbrev itself : NamespacedName → Result String NamespacedName
itself item = ok item

all_names : namespaced_names whole itself some_names ≡ ok some_names
all_names =
    namespaced_names-eq-map whole itself (λ item. item) some_names some_names refl (λ item. refl)
