-- ===== src/Lookups/Samples.antt =====
-- An empty cluster, and a cache that misses an object.
use operator_toolkit.Prelude.{
  String, true, false, ◌==◌, List, [], ◌≡◌, refl, arith, ok, err, eq_iff,
}
use operator_toolkit.Lookups.{
  SingletonEnv, single, get_instance, validate_singleton_create, validate_singleton_create-admits,
  CompositeClient, client_get, client_get-uncached,
}

-- The cluster is the list of its objects.
abbrev objects : SingletonEnv String (List String) String String (List String)
objects = record {
  list = λ s. ok s;
  extract_list = λ items. ok items;
  kind_of = λ item. "Game";
  client_objects = λ items. ok items;
  multiple_objects_found = λ kind n. kind;
}

validate_singleton_create-admits_example :
    (instances : List String) × (objects.list [] ≡ ok instances)
    × (objects.extract_list instances ≡ ok [])
unfolding validate_singleton_create get_instance single
validate_singleton_create-admits_example = validate_singleton_create-admits objects (λ o. o) [] refl

abbrev lagging : CompositeClient String String String String (List String)
lagging = record {
  cached_get = λ key s. err "NotFound";
  uncached_get = λ key s. ok key;
  cached_list = λ s. ok "";
  uncached_list = λ s. ok "";
  is_not_found = λ e. e == "NotFound";
  raw_listing = false;
}

misses : (e : String) → lagging.cached_get "game" [] ≡ err e → lagging.is_not_found e ≡ true
misses e h = ground (arith, h, eq_iff e "NotFound")

finds : (o : String) → lagging.cached_get "game" [] ≡ ok o → lagging.uncached_get "game" [] ≡ ok o
finds o h = absurd (ground (arith, h))

falls_back : client_get lagging "game" [] ≡ ok "game"
falls_back = client_get-uncached lagging "game" [] finds misses
