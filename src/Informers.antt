-- ===== src/Informers.antt =====
-- cache/informer/informersmap.go: the map of informers that the goroutines of a cache share, and the
-- readers of cache/informer_cache.go on it. What runs under the lock `mu` is one move.
pub mod Once
pub mod Held
pub mod Shared
pub mod Samples
use Prim.Native.String.{◌++◌ as str_append}
use operator_toolkit.Prelude.{
  ℕ, ◌+◌, String, Bool, true, false, not, ◌&&◌, ◌==◌, Option, none, some, List, [], ◌∷◌, ◌++◌, ◌≡◌,
  map, if◌then◌else◌, Result, ok, err, lookup, insert,
}

-- `apimeta.RESTScopeName`
pub data ScopeName : Type 0 where
  scope_root scope_namespace : ScopeName

-- An informer is named by its number in the order of creation.
pub record MapEntry : Type 0 where
  pub informer : ℕ
  pub group_version_kind : String
  pub scope_name : ScopeName

-- A group, version and kind is the text of the three. `stop` says whether the stop channel is set,
-- `created` counts the informers made, and `runs` notes each informer that a goroutine was started to
-- run, with whether it was given the set channel.
pub record InformersMap : Type 0 where
  pub informers_by_gvk : List (String × MapEntry)
  pub namespace : String
  pub stop : Bool
  pub started : Bool
  pub created : ℕ
  pub runs : List (ℕ × Bool)

pub new_informers_map : String → InformersMap
new_informers_map namespace = record {
  informers_by_gvk = [];
  namespace = namespace;
  stop = false;
  started = false;
  created = 0;
  runs = [];
}

-- The order in which the map gives the informers is that of the goroutines' creation only.
pub start_informers : InformersMap → InformersMap
start_informers m = record m {
  stop = true;
  runs = m.runs ++ map (λ e. (e.1.informer, true)) m.informers_by_gvk;
  started = true;
}

-- The goroutine of `Start`; `none` where it panics, since `startWait` is closed a second time.
pub start_section : InformersMap → Option InformersMap
start_section m = if m.started then none else some (start_informers m)

-- "RESTScope based on the cache namespace."
pub scope_of_cache : String → ScopeName
scope_of_cache namespace = if namespace == "" then scope_root else scope_namespace

-- A new informer, in the map and running where the map has been started.
pub insert_informer : String → InformersMap → InformersMap
insert_informer gvk m = record m {
  informers_by_gvk =
      insert gvk
        (record {
          informer = m.created;
          group_version_kind = gvk;
          scope_name = scope_of_cache m.namespace;
        })
        m.informers_by_gvk;
  created = m.created + 1;
  runs = if m.started then m.runs ++ ((m.created, m.stop) ∷ []) else m.runs;
}

-- What the environment answers to a call: the error of `createListWatcher`, whether the informer has
-- synced, and whether waiting for that ends with success.
pub record Choice (E : Type 0) : Type 0 where
  pub list_watcher : Option E
  pub has_synced : Bool
  pub waited : Bool

pub add_informer_to_map :
    {E : Type 0} → Choice E → String → InformersMap → Result E (MapEntry × Bool) × InformersMap
add_informer_to_map c gvk m = elim (lookup gvk m.informers_by_gvk) [
  | some i ↦ (ok (i, m.started), m)
  | none ↦ elim c.list_watcher [
    | some e ↦ (err e, m)
    | none ↦ (
      ok (
        record {
          informer = m.created;
          group_version_kind = gvk;
          scope_name = scope_of_cache m.namespace;
        },
        m.started,
      ),
      insert_informer gvk m,
    )
  ]
]

-- The results of `Get`: an entry and whether the map was started, or an error.
pub data Answer (E : Type 0) : Type 0 where
  found : MapEntry → Bool → Answer E
  refused : E → Answer E
  timed_out : Answer E

-- Where a call of `Get` stands: before the section under the read lock, before that of
-- `addInformerToMap`, before the wait for the sync, and at its end.
pub data Phase (E : Type 0) : Type 0 where
  getting adding : String → Phase E
  waiting : String → MapEntry → Bool → Phase E
  answered : String → Answer E → Phase E

-- The wait for the sync.
pub sync_wait : {E : Type 0} → Choice E → MapEntry → Bool → Answer E
sync_wait c i started =
    if started && not c.has_synced
    then (if c.waited then found i started else timed_out)
    else found i started

pub advance : {E : Type 0} → Choice E → Phase E → InformersMap → Phase E × InformersMap
advance c (getting gvk) m = (
  elim (lookup gvk m.informers_by_gvk) [ none ↦ adding gvk | some i ↦ waiting gvk i m.started ],
  m,
)
advance c (adding gvk) m =
    let (added, m') = add_informer_to_map c gvk m in
    (elim added [ ok (i, started) ↦ waiting gvk i started | err e ↦ answered gvk (refused e) ], m')
advance c (waiting gvk i started) m = (answered gvk (sync_wait c i started), m)
advance c (answered gvk a) m = (answered gvk a, m)

-- The map, and the calls of `Get` that have been made.
pub record System (E : Type 0) : Type 0 where
  pub informers : InformersMap
  pub calls : List (Phase E)

abbrev pub new_system : {E : Type 0} → String → System E
new_system namespace = record { informers = new_informers_map namespace; calls = [] }

-- A new call, the goroutine of `Start`, and one move of a call.
pub data Step {E : Type 0} : System E → System E → Type 0 where
  calls_get : (s : System E) (gvk : String) → Step s (record s { calls = getting gvk ∷ s.calls })
  starts :
      (s : System E) (m : InformersMap)
      → start_section s.informers ≡ some m
      → Step s (record s { informers = m })
  moves :
      (m : InformersMap) (before after : List (Phase E)) (p : Phase E) (c : Choice E)
      → Step
          (record { informers = m; calls = before ++ (p ∷ after) })
          (record { informers = (advance c p m).1; calls = before ++ ((advance c p m).0 ∷ after) })

pub data Reach {E : Type 0} (s : System E) : System E → Type 0 where
  here : Reach s s
  next : {t u : System E} → Reach s t → Step t u → Reach s u

-- The reader of a type: `CacheReader.Get` by the scope of the reader. `reader_get` looks an object up by
-- its store key; a parameter, as is the name of the error.
pub object_key_to_store_key : (namespace name : String) → String
object_key_to_store_key namespace name =
    if namespace == "" then name else str_append namespace (str_append "/" name)

pub reader_key : MapEntry → (namespace name : String) → String
reader_key entry namespace name = elim entry.scope_name [
  | scope_root ↦ object_key_to_store_key "" name
  | scope_namespace ↦ object_key_to_store_key namespace name
]

-- `informerCache.Get` from the answer of the map on.
pub cache_answer :
    {E A : Type 0}
    → (not_started timeout : E) → (read : MapEntry → Result E A) → Answer E
    → Result E A
cache_answer not_started timeout read (found i started) =
    if not started then err not_started else read i
cache_answer not_started timeout read (refused e) = err e
cache_answer not_started timeout read timed_out = err timeout
