-- ===== src/Declarative.antt =====
-- declarative/: the transforms of manifests (transform/transform.go), the run of a kustomization
-- (kustomize/kustomize.go), the copy of a file system (loader/filesystem.go) and the builder on them.
pub mod Transformed
pub mod Copied
pub mod Owners
pub mod Builder
pub mod Samples
use Prim.Native.Nat.{compare, Ordering}
use operator_toolkit.Prelude.{
  ℕ, zero, suc, ◌+◌, String, Bool, true, false, not, Option, none, some, List, [], ◌∷◌, ◌++◌, ◌==◌,
  if◌then◌else◌, Result, ok, err, ◌>>=◌, insert, any,
}
use operator_toolkit.Kustomization.{Kustomization, MutateFunc, insert_all, mutate}

-- An entry that `Walk` hands to its function: an error of accessing the path, or the path with whether
-- it is a directory.
pub record WalkEntry (E : Type 0) : Type 0 where
  pub path : String
  pub access_error : Option E
  pub is_dir : Bool

-- kustomize's `filesys.FileSystem`: a parameter. What `Walk` visits is listed.
pub record FileSystem (E Fs : Type 0) : Type 0 where
  pub read_file : String → Fs → Result E String
  pub write_file : String → String → Fs → Option E × Fs
  pub mkdir_all : String → Fs → Option E × Fs
  pub exists : String → Fs → Bool
  pub walk : String → Fs → List (WalkEntry E)

-- kyaml's resource nodes: a parameter. A transform changes a node in place, so it returns the node.
pub record Yaml (E Node : Type 0) : Type 0 where
  pub parse : String → Result E Node
  pub string : Node → Result E String
  pub get_labels : Node → Result E (List (String × String))
  pub set_labels : List (String × String) → Node → Result E Node
  pub get_annotations : Node → Result E (List (String × String))
  pub set_annotations : List (String × String) → Node → Result E Node
  -- `fmt.Errorf("failed to transform %q: %w", ...)`
  pub failed_to_transform : String → E → E

abbrev pub TransformFunc : (E Node : Type 0) → Type 0
TransformFunc E Node = Node → Result E Node

-- The entries of the map, in the order in which `range` gives them.
abbrev pub ManifestTransform : (E Node : Type 0) → Type 0
ManifestTransform E Node = List (String × List (TransformFunc E Node))

module _ {E Node : Type 0} (yaml : Yaml E Node) where
  pub run_transforms : (manifest : String) → List (TransformFunc E Node) → Node → Result E Node
  run_transforms manifest [] obj = ok obj
  run_transforms manifest (t ∷ transforms) obj = elim (t obj) [
    | err e ↦ err (yaml.failed_to_transform manifest e)
    | ok obj' ↦ run_transforms manifest transforms obj'
  ]

  pub add_labels_func : List (String × String) → TransformFunc E Node
  add_labels_func labels obj = do l ← yaml.get_labels obj; yaml.set_labels (insert_all labels l) obj

  pub add_annotations_func : List (String × String) → TransformFunc E Node
  add_annotations_func annotations obj = do
    a ← yaml.get_annotations obj
    yaml.set_annotations (insert_all annotations a) obj

  -- From the content of a manifest to the text that is written back.
  pub transformed :
      (manifest : String) (transforms common : List (TransformFunc E Node))
      → String
      → Result E String
  transformed manifest transforms common o = do
    obj ← yaml.parse o
    obj' ← run_transforms manifest transforms obj
    obj'' ← run_transforms manifest common obj'
    yaml.string obj''

  module _ {Fs : Type 0} (files : FileSystem E Fs) where
    -- The body of the loop of `Transform`.
    pub transform_manifest :
        String → (transforms common : List (TransformFunc E Node)) → Fs → Option E × Fs
    transform_manifest manifest transforms common fs =
        elim (files.read_file manifest fs >>= transformed manifest transforms common) [
          | err e ↦ (some e, fs)
          | ok r ↦ files.write_file manifest r fs
        ]

    pub transform : ManifestTransform E Node → List (TransformFunc E Node) → Fs → Option E × Fs
    transform [] common fs = (none, fs)
    transform ((manifest, transforms) ∷ rest) common fs =
        let (failed, fs') = transform_manifest manifest transforms common fs in
        elim failed [ some e ↦ (some e, fs') | none ↦ transform rest common fs' ]

module _ {E Fs : Type 0} (files : FileSystem E Fs) where
  -- The function that `DeepCopy` walks with, on one entry.
  pub copy_entry : WalkEntry E → (fs1 fs2 : Fs) → Option E × Fs
  copy_entry entry fs1 fs2 = elim entry.access_error [
    | some e ↦ (some e, fs2)
    | none ↦
        if entry.is_dir
        then files.mkdir_all entry.path fs2
        else (elim (files.read_file entry.path fs1) [
          | err e ↦ (some e, fs2)
          | ok content ↦ files.write_file entry.path content fs2
        ])
  ]

  pub copy_entries : List (WalkEntry E) → (fs1 fs2 : Fs) → Option E × Fs
  copy_entries [] fs1 fs2 = (none, fs2)
  copy_entries (entry ∷ entries) fs1 fs2 =
      let (failed, fs2') = copy_entry entry fs1 fs2 in
      elim failed [ some e ↦ (some e, fs2') | none ↦ copy_entries entries fs1 fs2' ]

  pub deep_copy : (fs1 fs2 : Fs) → Option E × Fs
  deep_copy fs1 fs2 = copy_entries (files.walk "/" fs1) fs1 fs2

-- The walk of `ManifestTransformForPackage`, with the map so far: a key for each file that is no
-- kustomization.
pub package_entries :
    {E Node : Type 0} (is_kustomization : String → Bool) (wrap : String → E → E)
    → List (WalkEntry E)
    → ManifestTransform E Node
    → Result E (ManifestTransform E Node)
package_entries is_kustomization wrap [] mt = ok mt
package_entries is_kustomization wrap (entry ∷ entries) mt = elim entry.access_error [
  | some e ↦ err (wrap entry.path e)
  | none ↦ package_entries is_kustomization wrap entries (
      if entry.is_dir
      then mt
      else if is_kustomization entry.path
      then mt
      else insert entry.path [] mt)
]

-- The loop of `loadKustFile` over the recognized names: how many were loaded, and the last content.
pub match_kust_files :
    {E : Type 0} (load : String → Result E String) → List String → ℕ → String → ℕ × String
match_kust_files load [] match content = (match, content)
match_kust_files load (kf ∷ names) match content = elim (load kf) [
  | err e ↦ match_kust_files load names match content
  | ok c ↦ match_kust_files load names (match + 1) c
]

pub load_kust_file :
    {E : Type 0} (none_found many_found : E) (load : String → Result E String)
    → List String
    → Result E String
load_kust_file none_found many_found load names =
    let (match, content) = match_kust_files load names 0 "" in
    elim (compare match 1) [
      | Ordering.lt ↦ err none_found
      | Ordering.eq ↦ ok content
      | Ordering.gt ↦ err many_found
    ]
