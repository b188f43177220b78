-- ===== src/Object/Status.antt =====
-- object/object.go: what the comparison of two objects' statuses depends on.
use operator_toolkit.Prelude.{Bool, true, false, some, ◌≡◌, Result, ok, arith}
use operator_toolkit.Object.{object, Fields, field_of, status_changed}

module _ {E O : Type 0} (convert : O → Result E Fields) where
  -- `StatusChanged` compares the two status maps and looks at no other field: objects that convert to
  -- fields with the same status map count as unchanged, whatever else differs.
  pub status_changed-same_status :
      (deep_equal : Fields → Fields → Bool)
      → ((m : Fields) → deep_equal m m ≡ true)
      → (a b : O) (fa fb status : Fields) → convert a ≡ ok fa
      → convert b ≡ ok fb
      → field_of "status" fa ≡ some (object status)
      → field_of "status" fb ≡ some (object status)
      → status_changed convert deep_equal a b ≡ ok false
  unfolding status_changed
  status_changed-same_status deep_equal same a b fa fb status ca cb sa sb =
      ground (arith, same status)
