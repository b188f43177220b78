-- ===== src/Rbac.antt =====
-- rbac/client: a client that records the permission each call needs before it passes the call on, and
-- the grouping of the recorded rules.
pub mod Keys
pub mod Grouping
pub mod Permits
pub mod Reorder
pub mod Output
pub mod Samples
use Prim.Native.String.{◌++◌ as str_append}
use operator_toolkit.Prelude.{
  ℕ, String, Bool, true, false, not, Option, none, some, List, [], ◌∷◌, ◌++◌, if◌then◌else◌, Result,
  ok, err, ◌==◌, insert, lookup, ◌||◌,
}

-- `rbacv1.PolicyRule`
pub record PolicyRule : Type 0 where
  pub api_groups : List String
  pub resources : List String
  pub verbs : List String

-- A group and a resource, or a group and a kind.
pub record GroupName : Type 0 where
  pub group : String
  pub name : String

-- What the recorder asks of apimachinery and of the REST mapper: parameters.
pub record RbacEnv (E Obj : Type 0) : Type 0 where
  -- `apiutil.GVKForObject`: on an error the kind is empty, and it is used all the same.
  pub gvk_for_object : Obj → GroupName × Option E
  -- `meta.UnsafeGuessKindToResource`, the plural.
  pub guess_resource : GroupName → GroupName
  pub is_unstructured : Obj → Bool
  pub own_kind : Obj → GroupName
  -- The name of the scope in the REST mapping, and `meta.RESTScopeNameRoot`.
  pub rest_scope : GroupName → Result E String
  pub root_scope : String
  pub mapping_failed : E → E
  pub empty_scope : E

-- The client's record: the rules of the role and of the cluster role, and the errors.
pub record Recorder (E : Type 0) : Type 0 where
  pub role_rules : List PolicyRule
  pub cluster_role_rules : List PolicyRule
  pub errors : List E

module _ {E Obj : Type 0} (env : RbacEnv E Obj) where
  unfoldable pub scope_of : GroupName → Result E Bool
  scope_of gk = elim (env.rest_scope gk) [
    | err e ↦ err (env.mapping_failed e)
    | ok scope ↦ if scope == "" then err env.empty_scope else ok (not (scope == env.root_scope))
  ]

  unfoldable pub is_namespaced : Obj → Result E Bool
  unfolding scope_of
  is_namespaced obj =
      if env.is_unstructured obj
      then scope_of (env.own_kind obj)
      else elim (env.gvk_for_object obj).1 [
        | some e ↦ err e
        | none ↦ scope_of (env.gvk_for_object obj).0
      ]

  abbrev note : Option E → List E → List E
  note none errors = errors
  note (some e) errors = errors ++ (e ∷ [])

  abbrev add_rule : Bool → PolicyRule → Recorder E → Recorder E
  add_rule true rule c = record c { role_rules = c.role_rules ++ (rule ∷ []) }
  add_rule false rule c = record c { cluster_role_rules = c.cluster_role_rules ++ (rule ∷ []) }

  -- `recordRuleWithStatus`. Errors are stored, and the rule is recorded in any case.
  unfoldable pub record_rule_with_status :
      Obj → (verb : String) → (status : Bool) → Recorder E → Recorder E
  unfolding is_namespaced
  record_rule_with_status obj verb status c =
      let (gvk, gvk_err) = env.gvk_for_object obj in
      let gvr = env.guess_resource gvk in
      let resource = if status then str_append gvr.name "/status" else gvr.name in
      let rule : PolicyRule = record {
        api_groups = gvr.group ∷ [];
        resources = resource ∷ [];
        verbs = verb ∷ [];
      } in
      let c' = record c { errors = note gvk_err c.errors } in
      elim (is_namespaced obj) [
        | ok namespaced ↦ add_rule namespaced rule c'
        | err e ↦ add_rule false rule (record c' { errors = note (some e) c'.errors })
      ]

  unfoldable pub record_rule : Obj → String → Recorder E → Recorder E
  unfolding record_rule_with_status
  record_rule obj verb c = record_rule_with_status obj verb false c

-- The calls of the client and of its status writer, with the verb that each records.
pub data ClientCall : Type 0 where
  create update delete delete_all_of patch get list status_update status_patch : ClientCall

unfoldable pub verb_of : ClientCall → String
verb_of create = "create"
verb_of update = "update"
verb_of delete = "delete"
verb_of delete_all_of = "delete"
verb_of patch = "patch"
verb_of get = "get"
verb_of list = "list"
verb_of status_update = "update"
verb_of status_patch = "patch"

unfoldable pub on_status : ClientCall → Bool
on_status status_update = true
on_status status_patch = true
on_status _ = false

-- A method of the client: it records, and then answers as the client that it embeds.
unfoldable pub client_call :
    {E Obj S : Type 0}
    → RbacEnv E Obj
    → (ClientCall → Obj → S → Option E × S)
    → ClientCall
    → Obj
    → Recorder E
    → S
    → (Option E × S) × Recorder E
unfolding record_rule_with_status verb_of on_status
client_call env inner call obj c s =
    (inner call obj s, record_rule_with_status env obj (verb_of call) (on_status call) c)

-- `contains` of result.go.
unfoldable pub contains : List String → String → Bool
contains [] e = false
contains (a ∷ s) e = if a == e then true else contains s e

abbrev pub group_resource_name : String → String → String
group_resource_name group resource = str_append group (str_append "_" resource)

-- The loop over the verbs of a rule whose group and resource are known.
unfoldable pub append_verbs : List String → List String → List String
unfolding contains
append_verbs [] verbs = verbs
append_verbs (verb ∷ more) verbs =
    append_verbs more (if not (contains verbs verb) then verbs ++ (verb ∷ []) else verbs)

-- The names of the groups and resources so far, and the rule of each.
pub record Grouped : Type 0 where
  pub names : List String
  pub rules : List (String × PolicyRule)

unfoldable pub group_resource : String → PolicyRule → String → Grouped → Grouped
unfolding append_verbs
group_resource group rule resource st =
    let name = group_resource_name group resource in
    elim (lookup name st.rules) [
      | some prule ↦ record st {
        rules = insert name (record prule { verbs = append_verbs rule.verbs prule.verbs }) st.rules;
      }
      | none ↦ record {
        names = st.names ++ (name ∷ []);
        rules =
            insert name
              (record { api_groups = group ∷ []; resources = resource ∷ []; verbs = rule.verbs })
              st.rules;
      }
    ]

unfoldable pub group_resources : String → PolicyRule → List String → Grouped → Grouped
unfolding group_resource
group_resources group rule [] st = st
group_resources group rule (resource ∷ resources) st =
    group_resources group rule resources (group_resource group rule resource st)

-- The first loop of `reorderRules`; `none` is the panic on a rule without a group.
unfoldable pub group_rules : List PolicyRule → Grouped → Option Grouped
unfolding group_resources
group_rules [] st = some st
group_rules (rule ∷ rules) st = elim rule.api_groups [
  | [] ↦ none
  | group ∷ _ ↦ group_rules rules (group_resources group rule rule.resources st)
]

-- The second loop; a name without a rule would give the empty rule.
unfoldable pub listed_rules : List String → List (String × PolicyRule) → List PolicyRule
listed_rules [] rules = []
listed_rules (name ∷ names) rules =
    elim (lookup name rules) [
      | some rule ↦ rule
      | none ↦ record { api_groups = []; resources = []; verbs = [] }
    ]
    ∷ listed_rules names rules

unfoldable pub reorder_rules : List PolicyRule → Option (List PolicyRule)
unfolding group_rules listed_rules
reorder_rules rules = elim (group_rules rules (record { names = []; rules = [] })) [
  | none ↦ none
  | some st ↦ some (listed_rules st.names st.rules)
]
