-- ===== src/Discovery/Samples.antt =====
-- A cluster with two API groups.
use operator_toolkit.Prelude.{String, Bool, true, false, [], ◌∷◌, ◌≡◌, refl, ok, ◌==◌}
use operator_toolkit.Discovery.{
  DiscoveryEnv, has_kind, has_resource_loop, basic_version, get_cluster_version,
  cluster_version_compare, has_resource, add_cluster_version_annotation,
}

-- A version is its text, and versions are compared for equality only.
abbrev cluster : DiscoveryEnv String String Bool String
cluster = record {
  server_version = λ version. ok version;
  server_groups_and_resources = λ version. ok (
      record { group_version = "v1"; kinds = "Pod" ∷ "Secret" ∷ [] }
      ∷ record { group_version = "apps/v1"; kinds = "Deployment" ∷ [] }
      ∷ []);
  parse_tolerant = λ v. ok v;
  parse = λ v. ok v;
  print_version = λ v. v;
  compare_versions = λ a b. a == b;
}

resources :
    (has_resource cluster "apps/v1" "Deployment" "1.20.0" ≡ ok true)
    × (has_resource cluster "v1" "Deployment" "1.20.0" ≡ ok false)
    × (cluster_version_compare cluster "1.20.0" "1.20.0" ≡ ok true)
unfolding has_resource has_resource_loop has_kind cluster_version_compare get_cluster_version
    basic_version
resources = (refl, refl, refl)

annotated :
    add_cluster_version_annotation cluster (("app", "game") ∷ []) "1.20.0"
    ≡ ("app", "game") ∷ ("cluster-version", "1.20.0") ∷ []
unfolding add_cluster_version_annotation get_cluster_version basic_version
annotated = refl
