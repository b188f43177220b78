-- ===== src/Declarative/Transformed.antt =====
-- declarative/transform/transform.go, `Transform`: what the file system holds afterwards.
use operator_toolkit.Prelude.{
  String, Bool, true, false, not, ◌&&◌, ◌==◌, Option, none, some, List, [], ◌∷◌, ◌≡◌, refl, sym,
  arith, ap, ◌∙◌, Result, ok, ◌>>=◌, lookup, has, eq_iff, Bool-cases, Option-cases, Result-cases,
  inl, inr, map, all,
}
use operator_toolkit.Declarative.{
  FileSystem, Yaml, TransformFunc, ManifestTransform, transformed, transform_manifest, transform,
}

-- What the file system documents. Paths with the same cleaned path are one file, and a walk visits
-- cleaned paths. A write that succeeds is what a read of the file finds; every other path that could be
-- read still reads the same, and so does every path that could be read before a directory is made.
-- Nothing is said of a path that could not be read, such as a directory that a write creates.
pub record IsFileSystem {E Fs : Type 0} (files : FileSystem E Fs) : Type 0 where
  pub clean : String → String
  pub read-clean :
      (p q content : String) (fs : Fs)
      → clean p ≡ clean q
      → files.read_file p fs ≡ ok content
      → files.read_file q fs ≡ ok content
  pub walk_clean :
      (root : String) (fs : Fs) → all (λ e. clean e.path == e.path) (files.walk root fs) ≡ true
  pub read-write :
      (p q bytes : String) (fs : Fs)
      → (files.write_file p bytes fs).0 ≡ none
      → clean p ≡ clean q
      → files.read_file q (files.write_file p bytes fs).1 ≡ ok bytes
  pub read-write_other :
      (p q bytes content : String) (fs : Fs)
      → (files.write_file p bytes fs).0 ≡ none
      → (clean p == clean q) ≡ false
      → files.read_file q fs ≡ ok content
      → files.read_file q (files.write_file p bytes fs).1 ≡ ok content
  pub read-mkdir :
      (p q content : String) (fs : Fs)
      → (files.mkdir_all p fs).0 ≡ none
      → files.read_file q fs ≡ ok content
      → files.read_file q (files.mkdir_all p fs).1 ≡ ok content

-- The keys of a map: none twice.
abbrev pub distinct_keys {ℓ} : {V : Type ℓ} → List (String × V) → Bool
distinct_keys [] = true
distinct_keys ((k, v) ∷ m) = not (has k m) && distinct_keys m

has-none : {V : Type 0} (k : String) (m : List (String × V)) → has k m ≡ false → lookup k m ≡ none
has-none k [] h = refl
has-none k ((j, v) ∷ m) h = ground (arith, h, has-none k m)

-- The map by its cleaned keys, each with the key that it was given.
abbrev pub cleaned :
    {V : Type 0} → (String → String) → List (String × V) → List (String × (String × V))
cleaned clean m = map (λ e. (clean e.0, e)) m

module _ {E Node Fs : Type 0} (yaml : Yaml E Node) {files : FileSystem E Fs}
    (l : IsFileSystem files) where
  -- What a path with the content reads as after the transforms of the map.
  abbrev pub expected_of :
      (common : List (TransformFunc E Node))
      → Option (String × List (TransformFunc E Node))
      → (content : String) → Result E String
  expected_of common none content = ok content
  expected_of common (some (manifest, transforms)) content =
      transformed yaml manifest transforms common content

  abbrev pub expected :
      ManifestTransform E Node
      → List (TransformFunc E Node)
      → (p content : String) → Result E String
  expected mt common p content =
      expected_of common (lookup (l.clean p) (cleaned l.clean mt)) content

  -- One manifest is transformed: a path that could be read then reads as it should.
  transform_manifest-reads :
      (m : String) (transforms common : List (TransformFunc E Node)) (fs : Fs)
      → (transform_manifest yaml files m transforms common fs).0 ≡ none
      → (p content : String) → files.read_file p fs ≡ ok content
      → ((l.clean m == l.clean p) ≡ true
          → (r : String) × (transformed yaml m transforms common content ≡ ok r)
            × (files.read_file p (transform_manifest yaml files m transforms common fs).1 ≡ ok r))
        × ((l.clean m == l.clean p) ≡ false
            → files.read_file p (transform_manifest yaml files m transforms common fs).1
              ≡ ok content)
  unfolding transform_manifest
  transform_manifest-reads m transforms common fs h p content reads =
      elim (Result-cases (files.read_file m fs >>= transformed yaml m transforms common)) [
        | inr (e, bad) ↦ absurd (ground (arith, h, bad))
        | inl (r, good) ↦
            let is : transform_manifest yaml files m transforms common fs
                ≡ files.write_file m r fs =
              rw (good, transform_manifest) refl in
            let wrote = ap (λ x. x.0) (sym is) ∙ h in
            (
              (λ same.
                  let one = (eq_iff (l.clean m) (l.clean p)).0 same in
                  (
                    r,
                    sym (
                          ap (λ o. o >>= transformed yaml m transforms common)
                            (l.read-clean p m content fs (sym one) reads))
                        ∙ good,
                    ap (λ x. files.read_file p x.1) is ∙ l.read-write m p r fs wrote one,
                  )),
              (λ other.
                  ap (λ x. files.read_file p x.1) is
                  ∙ l.read-write_other m p r content fs wrote other reads),
            )
      ]

  transform-next :
      (p : String) (transforms common : List (TransformFunc E Node)) (mt : ManifestTransform E Node)
      (fs : Fs)
      → (transform yaml files ((p, transforms) ∷ mt) common fs).0 ≡ none
      → ((transform_manifest yaml files p transforms common fs).0 ≡ none)
        × (transform yaml files ((p, transforms) ∷ mt) common fs
            ≡ transform yaml files mt common
                (transform_manifest yaml files p transforms common fs).1)
  unfolding transform
  transform-next p transforms common mt fs h =
      elim (Option-cases (transform_manifest yaml files p transforms common fs).0) [
        | inl good ↦ (good, rw (good, transform) refl)
        | inr (e, bad) ↦ absurd (ground (arith, h, bad))
      ]

  -- Over a file system with the laws of `IsFileSystem`, and for a map no two keys of which are one file:
  -- where `Transform` ends without an error, a path that could be read before and is a manifest of the
  -- map then reads as its content that is parsed, changed by its own transforms and after them by the
  -- common ones, and printed, each without an error, whatever the order in which the map gives its keys.
  -- Every other path that could be read before reads as before.
  pub transform-reads :
      (mt : ManifestTransform E Node) (common : List (TransformFunc E Node)) (fs : Fs)
      → distinct_keys (cleaned l.clean mt) ≡ true
      → (transform yaml files mt common fs).0 ≡ none
      → (p content : String) → files.read_file p fs ≡ ok content
      → (r : String) × (expected mt common p content ≡ ok r)
        × (files.read_file p (transform yaml files mt common fs).1 ≡ ok r)
  unfolding transform
  transform-reads [] common fs d h p content reads = (content, refl, reads)
  transform-reads ((m, ts) ∷ mt) common fs d h p content reads =
      let (good, is) = transform-next m ts common mt fs h in
      let fs' = (transform_manifest yaml files m ts common fs).1 in
      let (as_own, as_before) = transform_manifest-reads m ts common fs good p content reads in
      let rest = ap (λ x. x.0) (sym is) ∙ h in
      elim (Bool-cases (l.clean m == l.clean p)) [
        | inl same ↦
            let (r, changed, now) = as_own same in
            let once : lookup (l.clean p) (cleaned l.clean mt) ≡ none =
              has-none (l.clean p) (cleaned l.clean mt) (
                ap (λ k. has k (cleaned l.clean mt)) (sym ((eq_iff (l.clean m) (l.clean p)).0 same))
                ∙ ground (arith, d)) in
            let (r', kept, later) =
              transform-reads mt common fs' (ground (arith, d)) rest p r now in
            let same_r : r ≡ r' = ground (arith, kept, once) in
            (r, rw same changed, ap (λ x. files.read_file p x.1) is ∙ later ∙ ap ok (sym same_r))
        | inr other ↦
            let (r, wanted, later) =
              transform-reads mt common fs' (ground (arith, d)) rest p content (as_before other) in
            (r, rw other wanted, ap (λ x. files.read_file p x.1) is ∙ later)
      ]
