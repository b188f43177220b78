-- ===== src/Declarative/Builder/Built.antt =====
-- declarative/builder.go, `NewBuilder`: what kustomize is run on.
use operator_toolkit.Prelude.{
  String, Bool, true, false, not, ◌&&◌, ◌==◌, none, some, lookup, Result, List, [], ◌≡◌, refl, sym,
  arith, ap, ◌∙◌, if◌then◌else◌, ok, Bool-cases, Result-cases, inl, inr,
}
use operator_toolkit.Kustomization.{Kustomization, MutateFunc, mutate}
use operator_toolkit.Declarative.{ManifestTransform, transformed, transform, deep_copy}
use operator_toolkit.Declarative.Transformed.{
  IsFileSystem, distinct_keys, cleaned, expected_of, expected, transform-reads,
}
use operator_toolkit.Declarative.Copied.{is_file, deep_copy-reads}
use operator_toolkit.Declarative.Builder.{
  kustomization_file, KustomizeEnv, KubectlClient, Builder, is_empty_list, after,
  load_kustomization_from_package, write_kustomization_in_package, mutate_and_kustomize,
  is_kustomization, manifest_transform_for_package, apply_common, build_common, build_transformed,
  apply_options, start_builder, new_builder,
}
use operator_toolkit.Declarative.Builder.Package.{
  distinct-cleaned, keyed, lookup-cleaned, package_entries-all_clean, after_inv, bind_inv, empty-eq,
  ok_inv, is_manifest, package_entries_lem,
}

module _ {E Fs Node Image : Type 0} (env : KustomizeEnv E Fs Node Image)
    (l : IsFileSystem env.files) where
  -- The manifests of the package, by the names of kustomization files.
  abbrev pub in_package : String → String → Fs → Bool
  in_package package_name p fs =
      is_manifest (is_kustomization env.has_suffix env.recognized_names) env.failed_access p
        (env.files.walk package_name fs)

  -- What a file with the content is to read as once the common transforms have run on the package.
  abbrev pub common_expected :
      {W : Type 0} → Builder E Fs Node Image W → Fs → (p content : String) → Result E String
  common_expected b fs p content =
      if not (is_empty_list b.common_transforms) && in_package b.package_name (l.clean p) fs
      then transformed env.yaml (l.clean p) [] b.common_transforms content
      else ok content

  write_kustomization-reads :
      (fs : Fs) (k : Kustomization Image) (path : String)
      → (write_kustomization_in_package env fs k path).0 ≡ none
      → (p content : String) → (l.clean (env.join path kustomization_file) == l.clean p) ≡ false
      → env.files.read_file p fs ≡ ok content
      → env.files.read_file p (write_kustomization_in_package env fs k path).1 ≡ ok content
  unfolding write_kustomization_in_package
  write_kustomization-reads fs k path h p content apart reads =
      elim (Result-cases (env.marshal k)) [
        | inr (e, bad) ↦ absurd (ground (arith, h, bad))
        | inl (y, good) ↦ ground (
          arith,
          h,
          good,
          apart,
          reads,
          l.read-write_other (env.join path kustomization_file) p y content fs,
        )
      ]

  mutate_and_kustomize-reads :
      (fs fs' : Fs) (funcs : List (MutateFunc Image)) (path m : String)
      → mutate_and_kustomize env fs funcs path ≡ ok (m, fs')
      → (env.run path fs' ≡ ok m)
        × ((p content : String)
            → (l.clean (env.join path kustomization_file) == l.clean p) ≡ false
            → env.files.read_file p fs ≡ ok content
            → env.files.read_file p fs' ≡ ok content)
  unfolding mutate_and_kustomize
  mutate_and_kustomize-reads fs fs' funcs path m h =
      let (k, loaded, rest) = bind_inv (load_kustomization_from_package env fs path) _ (m, fs') h in
      let (written, ran) =
        after_inv (write_kustomization_in_package env fs (mutate funcs k) path) _ (m, fs') rest in
      let (m', run, same) =
        bind_inv (env.run path (write_kustomization_in_package env fs (mutate funcs k) path).1) _
          (m, fs') ran in
      let is = ok_inv same in
      (
        ap (λ x. env.run path x.1) (sym is) ∙ run ∙ ap (λ x. ok x.0) is,
        λ p content apart reads.
            ap (λ x. env.files.read_file p x.1) (sym is)
            ∙ write_kustomization-reads fs (mutate funcs k) path written p content apart reads,
      )

  -- The map of the package by its cleaned paths: the files of the walk that are no kustomization.
  package_map_lem :
      {W : Type 0} (b : Builder E Fs Node Image W) (mt : ManifestTransform E Node)
      → manifest_transform_for_package env b.fs b.package_name ≡ ok mt
      → (distinct_keys (cleaned l.clean mt) ≡ true)
        × ((q : String)
            → lookup q (cleaned l.clean mt)
              ≡ (if in_package b.package_name q b.fs then some (q, []) else none))
  unfolding manifest_transform_for_package
  package_map_lem b mt entries =
      let kust = is_kustomization env.has_suffix env.recognized_names in
      let walk = env.files.walk b.package_name b.fs in
      let (d, at) = package_entries_lem kust env.failed_access walk [] mt entries refl in
      let c =
        package_entries-all_clean kust env.failed_access l.clean walk [] mt entries
          (l.walk_clean b.package_name b.fs) refl in
      (
        distinct-cleaned l.clean mt c d,
        λ q. lookup-cleaned l.clean q mt c ∙ ap (keyed l.clean q) (at q) ∙ ground arith,
      )

  apply_common-reads :
      {W : Type 0} (b : Builder E Fs Node Image W) (fs : Fs)
      → apply_common env b ≡ ok fs
      → (p content : String) → env.files.read_file p b.fs ≡ ok content
      → (r : String) × (common_expected b b.fs p content ≡ ok r) × (env.files.read_file p fs ≡ ok r)
  unfolding apply_common
  apply_common-reads b fs h p content reads =
      elim (Bool-cases (is_empty_list b.common_transforms)) [
        | inl no_common ↦ (content, rw no_common refl, ground (arith, h, no_common, reads))
        | inr some_common ↦
            let (mt, entries, rest) =
              bind_inv (manifest_transform_for_package env b.fs b.package_name)
                (λ mt. after (transform env.yaml env.files mt b.common_transforms b.fs) ok) fs
                (ground (arith, h, some_common)) in
            let (fine, same) =
              after_inv (transform env.yaml env.files mt b.common_transforms b.fs) ok fs rest in
            let (d, at) = package_map_lem b mt entries in
            let (r, wanted, found) =
              transform-reads env.yaml l mt b.common_transforms b.fs d fine p content reads in
            (
              r,
              elim (Bool-cases (in_package b.package_name (l.clean p) b.fs)) [
                | inl inside ↦
                    let at_p : lookup (l.clean p) (cleaned l.clean mt) ≡ some (l.clean p, []) =
                      at (l.clean p) ∙ rw inside refl in
                    rw (some_common, inside)
                      (sym (ap (λ o. expected_of env.yaml l b.common_transforms o content) at_p)
                        ∙ wanted)
                | inr outside ↦
                    let at_p : lookup (l.clean p) (cleaned l.clean mt) ≡ none =
                      at (l.clean p) ∙ rw outside refl in
                    rw (some_common, outside)
                      (sym (ap (λ o. expected_of env.yaml l b.common_transforms o content) at_p)
                        ∙ wanted)
              ],
              ap (λ x. env.files.read_file p x) (sym (ok_inv same)) ∙ found,
            )
      ]

  build_common-reads :
      {W : Type 0} (b b' : Builder E Fs Node Image W)
      → build_common env b ≡ ok b'
      → (env.run b.package_name b'.fs ≡ ok b'.manifest)
        × ((p content : String)
            → (l.clean (env.join b.package_name kustomization_file) == l.clean p) ≡ false
            → env.files.read_file p b.fs ≡ ok content
            → (r : String) × (common_expected b b.fs p content ≡ ok r)
              × (env.files.read_file p b'.fs ≡ ok r))
  unfolding build_common
  build_common-reads b b' h =
      let (fs, made, rest) = bind_inv (apply_common env b) _ b' h in
      let ((m, fs'), ran, same) =
        bind_inv (mutate_and_kustomize env fs b.k_mutate_funcs b.package_name) _ b' rest in
      let (run, kept) = mutate_and_kustomize-reads fs fs' b.k_mutate_funcs b.package_name m ran in
      let is = ok_inv same in
      (
        ap (λ x. env.run b.package_name x.fs) (sym is) ∙ run ∙ ap (λ x. ok x.manifest) is,
        λ p content apart reads.
            let (r, wanted, found) = apply_common-reads b fs made p content reads in
            (r, wanted, ap (λ x. env.files.read_file p x.fs) (sym is) ∙ kept p r apart found),
      )

  build_transformed-runs :
      {W : Type 0} (b b' : Builder E Fs Node Image W)
      → distinct_keys (cleaned l.clean b.manifest_transform) ≡ true
      → build_transformed env b ≡ ok b'
      → (fs : Fs) × ((p content : String)
          → env.files.read_file p b.fs ≡ ok content
          → (r : String) × (expected env.yaml l b.manifest_transform [] p content ≡ ok r)
            × (env.files.read_file p fs ≡ ok r))
        × (build_common env (record b { fs = fs }) ≡ ok b')
  unfolding build_transformed
  build_transformed-runs b b' d h = elim (Bool-cases (is_empty_list b.manifest_transform)) [
    | inl no_own ↦ (
      b.fs,
      (λ p content reads. (
        content,
        ap (λ mt. expected env.yaml l mt [] p content) (empty-eq b.manifest_transform no_own),
        reads,
      )),
      ground (arith, h, no_own),
    )
    | inr some_own ↦
        let r = transform env.yaml env.files b.manifest_transform [] b.fs in
        let (fine, rest) =
          after_inv r (λ fs'. build_common env (record b { fs = fs' })) b'
            (ground (arith, h, some_own)) in
        (r.1, transform-reads env.yaml l b.manifest_transform [] b.fs d fine, rest)
  ]

  -- Over a file system with the laws of `IsFileSystem`, and where no two keys of the transforms are one
  -- file: a `NewBuilder` without an error has run kustomize on the package in a copy of the file
  -- system, in which every file of the original's walk reads as in the original. Of the files that can
  -- be read in the copy, those that have transforms of their own are first changed by these. Then, if
  -- there are common transforms, the files of the package that are no kustomization are changed by
  -- these. Every file but the written kustomization then reads in the copy as this makes it, and the
  -- manifest is what kustomize returns.
  pub new_builder-runs :
      {W : Type 0} (kubectl : KubectlClient E W) (package_name : String) (fs : Fs)
      (opts : List (Builder E Fs Node Image W → Builder E Fs Node Image W))
      (b b' : Builder E Fs Node Image W)
      → apply_options opts
          (start_builder kubectl package_name (deep_copy env.files fs env.make_fs_in_memory).1)
        ≡ b
      → distinct_keys (cleaned l.clean b.manifest_transform) ≡ true
      → new_builder env kubectl package_name fs opts ≡ ok b'
      → ((p : String)
          → is_file l (l.clean p) (env.files.walk "/" fs) ≡ true
          → env.files.read_file p (deep_copy env.files fs env.make_fs_in_memory).1
            ≡ env.files.read_file p fs)
        × ((own : Fs) × ((p content : String)
              → env.files.read_file p b.fs ≡ ok content
              → (r : String) × (expected env.yaml l b.manifest_transform [] p content ≡ ok r)
                × (env.files.read_file p own ≡ ok r))
            × ((p content : String)
                → (l.clean (env.join b.package_name kustomization_file) == l.clean p) ≡ false
                → env.files.read_file p own ≡ ok content
                → (r : String) × (common_expected b own p content ≡ ok r)
                  × (env.files.read_file p b'.fs ≡ ok r)))
        × (env.run b.package_name b'.fs ≡ ok b'.manifest)
  unfolding new_builder
  new_builder-runs kubectl package_name fs opts b b' is d h =
      let copy = deep_copy env.files fs env.make_fs_in_memory in
      let (copied, rest) =
        after_inv copy
          (λ c. build_transformed env (apply_options opts (start_builder kubectl package_name c)))
          b' h in
      let (own, changed, common) =
        build_transformed-runs b b' d (ap (build_transformed env) (sym is) ∙ rest) in
      let (run, reads) = build_common-reads (record b { fs = own }) b' common in
      (
        (λ p file. deep_copy-reads l fs env.make_fs_in_memory copied p file),
        (own, changed, reads),
        run,
      )
