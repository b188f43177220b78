-- ===== src/Declarative/Builder/Samples.antt =====
-- A package of two manifests and a kustomization, and a run of kustomize that returns one of them.
use Prim.Native.String.{◌++◌ as str_append}
use operator_toolkit.Prelude.{String, true, false, none, List, [], ◌∷◌, ◌≡◌, ◌==◌, refl, ok}
use operator_toolkit.Kustomization.{Kustomization, mutate, add_namespace}
use operator_toolkit.Declarative.{
  run_transforms, transformed, transform_manifest, transform, copy_entry, copy_entries, deep_copy,
  package_entries, match_kust_files, load_kust_file,
}
use operator_toolkit.Declarative.Samples.{
  Files, named_file, memory, memory-IsFileSystem, texts, suffixed, manifests, changes,
}
use operator_toolkit.Declarative.Transformed.{expected}
use operator_toolkit.Declarative.Copied.{is_file}
use operator_toolkit.Declarative.Builder.{
  KustomizeEnv, KubectlClient, Builder, kustomization_file, load_kustomization,
  load_kustomization_from_package, write_kustomization_in_package, mutate_and_kustomize,
  is_kustomization, manifest_transform_for_package, apply_common, build_common, build_transformed,
  start_builder, apply_options, new_builder, with_manifest_transform, with_common_transforms,
  with_kustomize_mutation_func, apply,
}
use operator_toolkit.Declarative.Builder.Built.{common_expected, new_builder-runs}

abbrev parsed : String → Kustomization String
parsed content = record {
  common_labels = none;
  common_annotations = none;
  namespace = "";
  resources = content ∷ [];
  images = [];
  name_prefix = "";
  name_suffix = "";
}

abbrev kustomize : KustomizeEnv String Files String String
kustomize = record {
  files = memory;
  yaml = texts;
  make_fs_in_memory = [];
  new_loader =
      λ path files. ok (λ name. memory.read_file (str_append path (str_append "/" name)) files);
  recognized_names = "kustomization.yaml" ∷ "kustomization.yml" ∷ [];
  unmarshal = λ content. ok (parsed content);
  enforce_fields = λ k. [];
  marshal = λ k. ok k.namespace;
  join = λ dir name. str_append dir (str_append "/" name);
  has_suffix = λ path name. path == str_append "app/" name;
  run = λ path files. memory.read_file "app/role.yaml" files;
  path_not_found = λ path. path;
  none_found = "none";
  many_found = "many";
  failed_to_read = λ errs. "failed to read kustomization";
  failed_access = λ path e. e;
}

-- A cluster that is the last manifest applied.
abbrev cluster : KubectlClient String String
cluster = record {
  apply_manifest = λ ns m v w. (none, m);
  delete_manifest = λ ns m v w. (none, "");
}

abbrev options :
    List (Builder String Files String String String → Builder String Files String String String)
options =
    with_manifest_transform changes
    ∷ with_common_transforms (suffixed "+all" ∷ [])
    ∷ with_kustomize_mutation_func (add_namespace "games" ∷ [])
    ∷ []

-- A directory of the package reads as an empty file here.
abbrev on_disk : Files
on_disk = ("app", "") ∷ manifests

abbrev configured : Builder String Files String String String
configured = record {
  fs = on_disk;
  package_name = "app";
  kubectl = cluster;
  manifest_transform = changes;
  common_transforms = suffixed "+all" ∷ [];
  k_mutate_funcs = add_namespace "games" ∷ [];
  manifest = "";
}

abbrev finished : Builder String Files String String String
finished = record configured {
  fs =
      ("app", "+all")
      ∷ ("app/role.yaml", "role+1+all")
      ∷ ("app/db.yaml", "db+all")
      ∷ ("app/kustomization.yaml", "games")
      ∷ [];
  manifest = "role+1+all";
}

built : new_builder kustomize cluster "app" on_disk options ≡ ok finished
unfolding new_builder build_transformed build_common apply_common manifest_transform_for_package
    package_entries is_kustomization mutate_and_kustomize load_kustomization_from_package
    load_kustomization load_kust_file match_kust_files write_kustomization_in_package mutate
    add_namespace transform transform_manifest transformed run_transforms deep_copy copy_entries
    copy_entry with_manifest_transform with_common_transforms with_kustomize_mutation_func
built = refl

applied : apply finished "" ≡ (none, "role+1+all")
unfolding apply
applied = refl

with_options :
    apply_options options (start_builder cluster "app" (deep_copy memory on_disk []).1) ≡ configured
unfolding deep_copy copy_entries copy_entry with_manifest_transform with_common_transforms
    with_kustomize_mutation_func
with_options = refl

new_builder-runs_example :
    ((p : String)
      → is_file memory-IsFileSystem (named_file p) (memory.walk "/" on_disk) ≡ true
      → memory.read_file p (deep_copy memory on_disk []).1 ≡ memory.read_file p on_disk)
    × ((own : Files) × ((p content : String)
          → memory.read_file p on_disk ≡ ok content
          → (r : String) × (expected texts memory-IsFileSystem changes [] p content ≡ ok r)
            × (memory.read_file p own ≡ ok r))
        × ((p content : String)
            → (named_file (kustomize.join "app" kustomization_file) == named_file p) ≡ false
            → memory.read_file p own ≡ ok content
            → (r : String) × (common_expected kustomize memory-IsFileSystem configured own p content
                ≡ ok r)
              × (memory.read_file p finished.fs ≡ ok r)))
    × (kustomize.run "app" finished.fs ≡ ok finished.manifest)
unfolding memory-IsFileSystem
new_builder-runs_example =
    new_builder-runs kustomize memory-IsFileSystem cluster "app" on_disk options configured finished
      with_options refl built
