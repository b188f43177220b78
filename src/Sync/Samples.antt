-- ===== src/Sync/Samples.antt =====
-- An external system that is a list of names, and the collection of its garbage.
use operator_toolkit.Prelude.{
  none, some, refl, String, false, not, ◌&&◌, ◌==◌, List, [], ◌∷◌, none, ◌≡◌, refl, arith, Result,
  ok, err, if◌then◌else◌, eq_iff,
}
use operator_toolkit.Object.Names.{
  NamespacedName, same_name, found_in, namespaced_names, names_loop,
}
use operator_toolkit.Sync.{SyncEnv, new_sync_func, init_sync_funcs, collect_garbage}
use operator_toolkit.Sync.Init.{
  SyncOption, SyncReconciler, with_name, with_functions, init_derived, init_derived-runs_own,
  call_times,
}
use operator_toolkit.Sync.Garbage.{collect_garbage-holds, init_sync_funcs-replaces}

-- The list without a name.
without : NamespacedName → List NamespacedName → List NamespacedName
without n [] = []
without n (m ∷ names) = if same_name n m then without n names else m ∷ without n names

found_in-without :
    (n m : NamespacedName) (s : List NamespacedName)
    → found_in (without n s) m ≡ (found_in s m && not (same_name m n))
unfolding found_in without
found_in-without n m [] = refl
found_in-without n m (x ∷ s) = ground (
  arith,
  found_in-without n m s,
  eq_iff n.name x.name,
  eq_iff n.namespace x.namespace,
  eq_iff m.name x.name,
  eq_iff m.namespace x.namespace,
  eq_iff m.name n.name,
  eq_iff m.namespace n.namespace,
)

abbrev external : SyncEnv String NamespacedName (List NamespacedName)
external = record {
  get = λ n s. if found_in s n then ok n else err "NotFound";
  is_not_found = λ e. e == "NotFound";
  named_instance = λ n. n;
  delete = λ n s. (none, without n s);
  ensure = λ n s. (none, n ∷ s);
  delete_failed = λ e. e;
  ensure_failed = λ e. e;
}

abbrev named_in : String → String → NamespacedName
named_in namespace n = record { name = n; namespace = namespace }

abbrev held : List NamespacedName
held = named_in "x" "a" ∷ named_in "x" "b" ∷ []

abbrev cluster : List NamespacedName → Result String (List NamespacedName)
cluster s = ok (named_in "x" "b" ∷ [])

abbrev whole : List NamespacedName → Result String (List NamespacedName)
whole items = ok items

abbrev itself : NamespacedName → Result String NamespacedName
itself item = ok item

abbrev listing : List NamespacedName → Result String (List NamespacedName) × List NamespacedName
listing s = (ok s, s)

collect_garbage-holds_example :
    found_in (collect_garbage external cluster whole itself listing held) (named_in "x" "a") ≡ false
unfolding found_in namespaced_names names_loop
collect_garbage-holds_example =
    collect_garbage-holds external found_in found_in-without cluster whole itself listing held
      (named_in "x" "b" ∷ []) (named_in "x" "b" ∷ []) held refl refl refl (λ n. refl)
      (named_in "x" "a")

abbrev collection : String
collection = "collectGarbage"

own_function_only :
    init_sync_funcs collection 60 0 ((new_sync_func "mine" 5 1 ∷ []) ∷ [])
    ≡ new_sync_func collection 60 0 ∷ []
own_function_only =
    init_sync_funcs-replaces collection 60 0 ((new_sync_func "mine" 5 1 ∷ []) ∷ []) (omega arith)

-- A reconciler of names only.
abbrev bare : SyncReconciler String String String String String String String
bare = record {
  name = "";
  ctrlr = none;
  prototype = none;
  prototype_list = none;
  client = none;
  scheme = none;
  sync_funcs = [];
  inst = none;
}

abbrev of_caller : List (SyncOption String String String String String String String)
of_caller = with_name "games" ∷ with_functions (new_sync_func "mine" 5 1 ∷ []) ∷ []

init_derived-runs_own_example :
    (init_derived (λ n. n) collection 60 0 none (some "controller") none none of_caller bare).1
    ≡ new_sync_func collection 60 0 ∷ []
init_derived-runs_own_example =
    init_derived-runs_own (λ n. n) collection 60 0 none (some "controller") none none of_caller bare
      (omega arith)

ticks : call_times (new_sync_func collection 60 5) 3 ≡ 5 ∷ 65 ∷ 125 ∷ []
unfolding call_times new_sync_func
ticks = refl
