-- ===== src/Discovery.antt =====
-- discovery/cluster/cluster.go: what the discovery client answers on versions and resources, and the
-- annotation of webhook/function/default.go that uses it.
pub mod Samples
use operator_toolkit.Prelude.{
  String, Bool, true, false, Option, none, some, List, [], ◌∷◌, ◌==◌, if◌then◌else◌, Result, ok,
  err, ◌>>=◌, insert,
}

-- An API group and version with the kinds of its resources.
pub record ApiResourceList : Type 0 where
  pub group_version : String
  pub kinds : List String

-- The discovery interface of client-go and package semver: parameters. `V` is a parsed version, `C`
-- the answer of a comparison.
pub record DiscoveryEnv (E V C S : Type 0) : Type 0 where
  pub server_version : S → Result E String
  pub server_groups_and_resources : S → Result E (List ApiResourceList)
  pub parse_tolerant : String → Result E V
  pub parse : String → Result E V
  -- `fmt.Sprintf("%d.%d.%d", ...)` of the three numbers.
  pub print_version : V → String
  pub compare_versions : V → V → C

-- The inner loop of `HasResource`.
unfoldable pub has_kind : (kind : String) → List String → Bool
has_kind kind [] = false
has_kind kind (k ∷ kinds) = if k == kind then true else has_kind kind kinds

unfoldable pub has_resource_loop : (api_version kind : String) → List ApiResourceList → Bool
unfolding has_kind
has_resource_loop api_version kind [] = false
has_resource_loop api_version kind (api_list ∷ lists) =
    let rest = has_resource_loop api_version kind lists in
    if api_list.group_version == api_version
    then (if has_kind kind api_list.kinds then true else rest)
    else rest

module _ {E V C S : Type 0} (env : DiscoveryEnv E V C S) where
  unfoldable pub basic_version : String → Result E String
  basic_version version = do ver ← env.parse_tolerant version; ok (env.print_version ver)

  unfoldable pub get_cluster_version : S → Result E String
  unfolding basic_version
  get_cluster_version s = env.server_version s >>= basic_version

  unfoldable pub cluster_version_compare : (target_version : String) → S → Result E C
  unfolding get_cluster_version basic_version
  cluster_version_compare target_version s = do
    current_version ← get_cluster_version s
    cv ← env.parse current_version
    tv_simple ← basic_version target_version
    tv ← env.parse tv_simple
    ok (env.compare_versions cv tv)

  unfoldable pub has_resource : (api_version kind : String) → S → Result E Bool
  unfolding has_resource_loop
  has_resource api_version kind s = do
    api_lists ← env.server_groups_and_resources s
    ok (has_resource_loop api_version kind api_lists)

  -- `AddClusterVersionAnnotation` on the annotations of an object; without a version they stay.
  unfoldable pub add_cluster_version_annotation :
      List (String × String) → S → List (String × String)
  unfolding get_cluster_version
  add_cluster_version_annotation obj_annot s = elim (get_cluster_version s) [
    | err e ↦ obj_annot
    | ok version ↦ insert "cluster-version" version obj_annot
  ]
