-- ===== src/Lookups.antt =====
-- singleton/singleton.go and client/composite/client.go: a single instance among the listed objects,
-- and reads that fall back from the cache to the API server.
pub mod Samples
use operator_toolkit.Prelude.{
  ℕ, zero, suc, String, Bool, true, false, Option, none, some, List, [], ◌∷◌, ◌≡◌, if◌then◌else◌,
  Result, ok, err, ◌>>=◌, length, refl, arith, Result-cases, inl, inr, ◌∙◌, ap, ◌≢◌, ◌<◌,
}
use operator_toolkit.Dag.Build.{Outcome, runs_on, panics, returns}

-- The client's reads and the conversions of apimachinery, with the world `S`.
pub record SingletonEnv (E Items Item O S : Type 0) : Type 0 where
  pub list : S → Result E Items
  pub extract_list : Items → Result E (List Item)
  -- The kind of an item in the scheme, "unknown" where there is none.
  pub kind_of : Item → String
  pub client_objects : List Item → Result E (List O)
  -- `newMultipleObjectsFound`
  pub multiple_objects_found : String → ℕ → E

module _ {E Items Item O S : Type 0} (env : SingletonEnv E Items Item O S) where
  -- `cobjs[0]`; `none` is an index out of range.
  abbrev pub first : List O → Option O
  first [] = none
  first (o ∷ os) = some o

  -- The switch over the number of items. A nil object is `none`.
  unfoldable pub single : List Item → Outcome (Result E (Option O))
  single [] = returns (ok none)
  single (item ∷ []) = elim (env.client_objects (item ∷ [])) [
    | err e ↦ returns (err e)
    | ok cobjs ↦ elim (first cobjs) [ none ↦ panics | some o ↦ returns (ok (some o)) ]
  ]
  single (item ∷ other ∷ items) =
      returns (err (env.multiple_objects_found (env.kind_of item) (length (item ∷ other ∷ items))))

  -- The function that `GetInstance` returns.
  unfoldable pub get_instance : S → Outcome (Result E (Option O))
  unfolding single
  get_instance s = elim (env.list s) [
    | err list_err ↦ returns (err list_err)
    | ok instances ↦ elim (env.extract_list instances) [
      | err e ↦ returns (err e)
      | ok items ↦ single items
    ]
  ]

  -- `ValidateSingletonCreate`: the error for an object that is to be created, if there is one.
  unfoldable pub validate_singleton_create : (exists_error : O → E) → S → Outcome (Option E)
  unfolding get_instance
  validate_singleton_create exists_error s = elim (get_instance s) [
    | runs_on ↦ runs_on
    | panics ↦ panics
    | returns (err e) ↦ returns (some e)
    | returns (ok none) ↦ returns none
    | returns (ok (some o)) ↦ returns (some (exists_error o))
  ]

  single-none : (items : List Item) → single items ≡ returns (ok none) → items ≡ []
  unfolding single
  single-none [] h = refl
  single-none (item ∷ []) h = elim (Result-cases (env.client_objects (item ∷ []))) [
    | inl ([], none_left) ↦ absurd (ground (arith, h, none_left))
    | inl (o ∷ os, some_left) ↦ absurd (ground (arith, h, some_left))
    | inr (e, bad) ↦ absurd (ground (arith, h, bad))
  ]
  single-none (item ∷ other ∷ items) h = absurd (ground (arith, h))

  get_instance-none :
      (found : Outcome (Result E (Option O))) (exists_error : O → E) (s : S)
      → get_instance s ≡ found
      → validate_singleton_create exists_error s ≡ returns none
      → found ≡ returns (ok none)
  unfolding validate_singleton_create
  get_instance-none runs_on exists_error s e h = absurd (ground (arith, h, e))
  get_instance-none panics exists_error s e h = absurd (ground (arith, h, e))
  get_instance-none (returns (err x)) exists_error s e h = absurd (ground (arith, h, e))
  get_instance-none (returns (ok none)) exists_error s e h = refl
  get_instance-none (returns (ok (some o))) exists_error s e h = absurd (ground (arith, h, e))

  -- The creation of an object passes, without a panic and without an error, only where the list of the
  -- existing ones can be read and is empty.
  pub validate_singleton_create-admits :
      (exists_error : O → E) (s : S)
      → validate_singleton_create exists_error s ≡ returns none
      → (instances : Items) × (env.list s ≡ ok instances) × (env.extract_list instances ≡ ok [])
  unfolding get_instance
  validate_singleton_create-admits exists_error s h =
      let nothing = get_instance-none (get_instance s) exists_error s refl h in
      elim (Result-cases (env.list s)) [
        | inr (e, bad) ↦ absurd (ground (arith, nothing, bad))
        | inl (instances, listed) ↦ elim (Result-cases (env.extract_list instances)) [
          | inr (e, bad) ↦ absurd (ground (arith, nothing, listed, bad))
          | inl (items, extracted) ↦ (
            instances,
            listed,
            extracted ∙ ap ok (single-none items (ground (arith, nothing, listed, extracted))),
          )
        ]
      ]

-- The cached and the uncached client, for keys and objects, and lists.
pub record CompositeClient (E Key O Items S : Type 0) : Type 0 where
  pub cached_get : Key → S → Result E O
  pub uncached_get : Key → S → Result E O
  pub cached_list : S → Result E Items
  pub uncached_list : S → Result E Items
  pub is_not_found : E → Bool
  pub raw_listing : Bool

module _ {E Key O Items S : Type 0} (c : CompositeClient E Key O Items S) where
  unfoldable pub client_get : Key → S → Result E O
  client_get key s = elim (c.cached_get key s) [
    | err c_err ↦ if c.is_not_found c_err then c.uncached_get key s else err c_err
    | ok obj ↦ ok obj
  ]

  unfoldable pub client_list : S → Result E Items
  client_list s = if c.raw_listing then c.uncached_list s else c.cached_list s

  -- Where the cache answers as the API server does, if it finds the object, and with a not-found error
  -- otherwise, the composite client's `Get` is the API server's.
  pub client_get-uncached :
      (key : Key) (s : S)
      → ((o : O) → c.cached_get key s ≡ ok o → c.uncached_get key s ≡ ok o)
      → ((e : E) → c.cached_get key s ≡ err e → c.is_not_found e ≡ true)
      → client_get key s ≡ c.uncached_get key s
  unfolding client_get
  client_get-uncached key s fresh misses = elim (Result-cases (c.cached_get key s)) [
    | inl (o, found) ↦ ground (arith, fresh o found)
    | inr (e, missed) ↦ ground (arith, misses e missed)
  ]
