-- ===== src/Declarative/Builder.antt =====
-- declarative/builder.go and declarative/kustomize/kustomize.go: a package is transformed and
-- kustomized in a copy of the file system, and the manifest is applied or deleted.
pub mod Package
pub mod Built
pub mod Samples
use operator_toolkit.Prelude.{
  ℕ, String, Bool, true, false, not, Option, none, some, List, [], ◌∷◌, ◌==◌, if◌then◌else◌, Result,
  ok, err, ◌>>=◌,
}
use operator_toolkit.Kustomization.{Kustomization, MutateFunc, mutate}
use operator_toolkit.Declarative.{
  FileSystem, Yaml, TransformFunc, ManifestTransform, transform, deep_copy, package_entries,
  load_kust_file,
}

abbrev pub kustomization_file : String
kustomization_file = "kustomization.yaml"

-- kustomize's loader, types and runner, path/filepath and strings: parameters, with the errors that
-- the package makes.
pub record KustomizeEnv (E Fs Node Image : Type 0) : Type 0 where
  pub files : FileSystem E Fs
  pub yaml : Yaml E Node
  pub make_fs_in_memory : Fs
  -- The `Load` of a loader at the path.
  pub new_loader : String → Fs → Result E (String → Result E String)
  pub recognized_names : List String
  -- `Unmarshal`, and `FixKustomizationPostUnmarshalling` after it.
  pub unmarshal : String → Result E (Kustomization Image)
  pub enforce_fields : Kustomization Image → List String
  pub marshal : Kustomization Image → Result E String
  pub join : String → String → String
  pub has_suffix : String → String → Bool
  pub run : String → Fs → Result E String
  pub path_not_found : String → E
  pub none_found : E
  pub many_found : E
  pub failed_to_read : List String → E
  pub failed_access : String → E → E

-- `kubectl.KubectlClient`
pub record KubectlClient (E W : Type 0) : Type 0 where
  pub apply_manifest : (namespace manifest : String) (validate : Bool) → W → Option E × W
  pub delete_manifest : (namespace manifest : String) (validate : Bool) → W → Option E × W

pub record Builder (E Fs Node Image W : Type 0) : Type 0 where
  pub fs : Fs
  pub package_name : String
  pub kubectl : KubectlClient E W
  pub manifest_transform : ManifestTransform E Node
  pub common_transforms : List (TransformFunc E Node)
  pub k_mutate_funcs : List (MutateFunc Image)
  pub manifest : String

abbrev pub is_empty_list : {A : Type 0} → List A → Bool
is_empty_list [] = true
is_empty_list (x ∷ xs) = false

-- An error of a step, with the file system that it leaves; or the next step.
abbrev pub after : {E A Fs : Type 0} → Option E × Fs → (Fs → Result E A) → Result E A
after (some e, fs) next = err e
after (none, fs) next = next fs

-- The builder before its options.
abbrev pub start_builder :
    {E Fs Node Image W : Type 0}
    → KubectlClient E W
    → (package_name : String) → Fs
    → Builder E Fs Node Image W
start_builder kubectl package_name fs = record {
  fs = fs;
  package_name = package_name;
  kubectl = kubectl;
  manifest_transform = [];
  common_transforms = [];
  k_mutate_funcs = [];
  manifest = "";
}

abbrev pub apply_options : {B : Type 0} → List (B → B) → B → B
apply_options [] b = b
apply_options (opt ∷ opts) b = apply_options opts (opt b)

-- The loop over the recognized names.
pub is_kustomization : (has_suffix : String → String → Bool) → List String → String → Bool
is_kustomization has_suffix [] path = false
is_kustomization has_suffix (name ∷ names) path =
    if has_suffix path name then true else is_kustomization has_suffix names path

module _ {E Fs Node Image : Type 0} (env : KustomizeEnv E Fs Node Image) where
  pub load_kustomization : String → Result E (Kustomization Image)
  load_kustomization content = do
    k ← env.unmarshal content
    if is_empty_list (env.enforce_fields k)
        then ok k
        else err (env.failed_to_read (env.enforce_fields k))

  pub load_kustomization_from_package : Fs → String → Result E (Kustomization Image)
  load_kustomization_from_package fs path =
      if not (env.files.exists path fs) then err (env.path_not_found path) else (do
        load ← env.new_loader path fs
        kbytes ← load_kust_file env.none_found env.many_found load env.recognized_names
        load_kustomization kbytes)

  pub write_kustomization_in_package : Fs → Kustomization Image → String → Option E × Fs
  write_kustomization_in_package fs k path = elim (env.marshal k) [
    | err e ↦ (some e, fs)
    | ok y ↦ env.files.write_file (env.join path kustomization_file) y fs
  ]

  -- The manifest, and the file system in which kustomize was run.
  pub mutate_and_kustomize : Fs → List (MutateFunc Image) → String → Result E (String × Fs)
  mutate_and_kustomize fs mutate_funcs path = do
    k ← load_kustomization_from_package fs path
    after (write_kustomization_in_package fs (mutate mutate_funcs k) path)
        (λ fs'. do m ← env.run path fs'; ok (m, fs'))

  pub manifest_transform_for_package : Fs → String → Result E (ManifestTransform E Node)
  manifest_transform_for_package fs package_name =
      package_entries (is_kustomization env.has_suffix env.recognized_names) env.failed_access
        (env.files.walk package_name fs) []

  module _ {W : Type 0} where
    -- "Load all the non-kustomization files and transform them all with the common transforms."
    pub apply_common : Builder E Fs Node Image W → Result E Fs
    apply_common b = if is_empty_list b.common_transforms then ok b.fs else (do
      mt ← manifest_transform_for_package b.fs b.package_name
      after (transform env.yaml env.files mt b.common_transforms b.fs) ok)

    -- The part of `NewBuilder` from the common transforms on.
    pub build_common : Builder E Fs Node Image W → Result E (Builder E Fs Node Image W)
    build_common b = do
      fs' ← apply_common b
      (m, fs'') ← mutate_and_kustomize fs' b.k_mutate_funcs b.package_name
      ok (record b { fs = fs''; manifest = m })

    pub build_transformed : Builder E Fs Node Image W → Result E (Builder E Fs Node Image W)
    build_transformed b =
        if is_empty_list b.manifest_transform
        then build_common b
        else after (transform env.yaml env.files b.manifest_transform [] b.fs)
            (λ fs'. build_common (record b { fs = fs' }))

    pub new_builder :
        (kubectl : KubectlClient E W) (package_name : String)
        → Fs
        → List (Builder E Fs Node Image W → Builder E Fs Node Image W)
        → Result E (Builder E Fs Node Image W)
    new_builder kubectl package_name fs opts =
        after (deep_copy env.files fs env.make_fs_in_memory) (λ fs_copy.
          build_transformed (apply_options opts (start_builder kubectl package_name fs_copy)))

module _ {E Fs Node Image W : Type 0} where
  pub with_kubectl_client :
      KubectlClient E W → Builder E Fs Node Image W → Builder E Fs Node Image W
  with_kubectl_client kubectl b = record b { kubectl = kubectl }

  pub with_manifest_transform :
      ManifestTransform E Node → Builder E Fs Node Image W → Builder E Fs Node Image W
  with_manifest_transform manifest_transform b = record b {
    manifest_transform = manifest_transform;
  }

  pub with_common_transforms :
      List (TransformFunc E Node) → Builder E Fs Node Image W → Builder E Fs Node Image W
  with_common_transforms common_transforms b = record b { common_transforms = common_transforms }

  pub with_kustomize_mutation_func :
      List (MutateFunc Image) → Builder E Fs Node Image W → Builder E Fs Node Image W
  with_kustomize_mutation_func k_mutate_funcs b = record b { k_mutate_funcs = k_mutate_funcs }

  -- "Skip when the manifest is empty."
  pub apply : Builder E Fs Node Image W → W → Option E × W
  apply b w = if b.manifest == "" then (none, w) else b.kubectl.apply_manifest "" b.manifest true w

  pub delete : Builder E Fs Node Image W → W → Option E × W
  delete b w =
      if b.manifest == "" then (none, w) else b.kubectl.delete_manifest "" b.manifest true w
