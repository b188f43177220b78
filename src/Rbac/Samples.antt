-- ===== src/Rbac/Samples.antt =====
-- Recorded rules, and their grouping.
use Prim.Native.String.{◌++◌ as str_append}
use operator_toolkit.Prelude.{String, true, none, ok, List, [], ◌∷◌, some, ◌≡◌, refl}
use operator_toolkit.Rbac.{
  PolicyRule, contains, append_verbs, group_resource, group_resources, group_rules, listed_rules,
  reorder_rules,
}
use operator_toolkit.Rbac.Output.{OutputEnv, write_result, write_errors, write_all, result}
use operator_toolkit.Rbac.Grouping.{permits}
use operator_toolkit.Rbac.Reorder.{reorder_rules-permits}

abbrev rule : String → String → PolicyRule
rule resource verb = record {
  api_groups = "apps" ∷ [];
  resources = resource ∷ [];
  verbs = verb ∷ [];
}

abbrev recorded : List PolicyRule
recorded =
    rule "deployments" "get"
    ∷ rule "pods" "list"
    ∷ rule "deployments" "update"
    ∷ rule "deployments" "get"
    ∷ []

grouped :
    reorder_rules recorded
    ≡ some (
        record {
          api_groups = "apps" ∷ [];
          resources = "deployments" ∷ [];
          verbs = "get" ∷ "update" ∷ [];
        }
        ∷ rule "pods" "list"
        ∷ [])
unfolding reorder_rules group_rules group_resources group_resource append_verbs contains
    listed_rules
grouped = refl

reorder_rules-permits_example :
    (out : List PolicyRule) × (reorder_rules recorded ≡ some out)
    × ((g r v : String) → permits g r v out ≡ permits g r v recorded)
reorder_rules-permits_example = reorder_rules-permits recorded refl

-- The two writers append to one text each.
abbrev two_texts : OutputEnv String (String × String)
two_texts = record {
  marshal_role = λ rules. ok "role";
  marshal_cluster_role = λ rules. ok "cluster role";
  write_manifest = λ text w. (none, (str_append w.0 text, w.1));
  has_error_writer = true;
  write_error = λ text w. (none, (w.0, str_append w.1 text));
  error_text = λ e. e;
  wrap = λ message e. str_append message e;
}

output :
    result two_texts
      (record {
        role_rules = rule "pods" "list" ∷ [];
        cluster_role_rules = [];
        errors = "no mapping" ∷ [];
      })
      ("", "")
    ≡ some (
      none,
      (
        record {
          role_rules = rule "pods" "list" ∷ [];
          cluster_role_rules = [];
          errors = "no mapping" ∷ [];
        },
        ("\n---\nrole\n---\ncluster role", "Errors during rbac client recording:\nno mapping"),
      ),
    )
unfolding result write_all write_result write_errors reorder_rules group_rules group_resources
    group_resource append_verbs contains listed_rules
output = refl
