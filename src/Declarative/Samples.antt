-- ===== src/Declarative/Samples.antt =====
-- Files in a dictionary, whose manifests are their texts.
use Prim.Native.String.{◌++◌ as str_append}
use operator_toolkit.Prelude.{
  String, false, Option, none, some, List, [], ◌∷◌, ◌≡◌, ◌==◌, refl, arith, map, insert, lookup,
  lookup-insert, has, if◌then◌else◌, true, all, ap, sym, ◌∙◌, eq_iff, Bool-cases, inl, inr, Result,
  ok, err,
}
use operator_toolkit.Declarative.{
  FileSystem, Yaml, TransformFunc, ManifestTransform, run_transforms, transformed,
  transform_manifest, transform, copy_entry, copy_entries, deep_copy, match_kust_files,
  load_kust_file,
}
use operator_toolkit.Declarative.Transformed.{IsFileSystem, expected, transform-reads}
use operator_toolkit.Declarative.Copied.{is_file, deep_copy-reads}

abbrev pub Files : Type 0
Files = List (String × String)

abbrev pub content_or : Option String → Result String String
content_or none = err "not found"
content_or (some content) = ok content

-- The path of the file that a path stands for: an alias of the role's manifest has another name.
abbrev pub named_file : String → String
named_file p = if p == "/app/role.yaml" then "app/role.yaml" else p

abbrev pub memory : FileSystem String Files
memory = record {
  read_file = λ p files. content_or (lookup (named_file p) files);
  write_file = λ p bytes files. (none, insert (named_file p) bytes files);
  mkdir_all = λ p files. (none, files);
  exists = λ p files. has p files;
  walk = λ root files.
      map (λ f. record { path = named_file f.0; access_error = none; is_dir = false }) files;
}

abbrev named_file_twice : (p : String) → named_file (named_file p) ≡ named_file p
named_file_twice p = elim (Bool-cases (p == "/app/role.yaml")) [
  | inl alias ↦ rw alias refl
  | inr own ↦ rw (own, own) refl
]

abbrev walk-named :
    (files : Files) → all (λ e. named_file e.path == e.path) (memory.walk "/" files) ≡ true
walk-named [] = refl
walk-named ((p, bytes) ∷ files) =
    ground (
      arith,
      walk-named files,
      eq_iff (named_file (named_file p)) (named_file p),
      named_file_twice p,
    )

unfoldable pub memory-IsFileSystem : IsFileSystem memory
memory-IsFileSystem = record {
  clean = named_file;
  read-clean = λ p q content files h reads. ap (λ n. content_or (lookup n files)) (sym h) ∙ reads;
  walk_clean = λ root files. walk-named files;
  read-write = λ p q bytes files h one. ground (
    arith,
    lookup-insert (named_file p) (named_file q) bytes files,
    eq_iff (named_file p) (named_file q),
    one,
  );
  read-write_other = λ p q bytes content files h other reads.
      ground (arith, lookup-insert (named_file p) (named_file q) bytes files, other, reads);
  read-mkdir = λ p q content files h reads. reads;
}

abbrev pub texts : Yaml String String
texts = record {
  parse = λ o. ok o;
  string = λ n. ok n;
  get_labels = λ n. ok [];
  set_labels = λ l n. ok n;
  get_annotations = λ n. ok [];
  set_annotations = λ a n. ok n;
  failed_to_transform = λ manifest e. str_append manifest e;
}

abbrev pub suffixed : String → TransformFunc String String
suffixed suffix n = ok (str_append n suffix)

abbrev pub manifests : Files
manifests = ("app/role.yaml", "role") ∷ ("app/db.yaml", "db") ∷ ("app/kustomization.yaml", "k") ∷ []

abbrev pub changes : ManifestTransform String String
changes = ("/app/role.yaml", suffixed "+1" ∷ []) ∷ ("app/db.yaml", []) ∷ []

written :
    (transform texts memory changes (suffixed "+all" ∷ []) manifests).1
    ≡ ("app/role.yaml", "role+1+all")
      ∷ ("app/db.yaml", "db+all")
      ∷ ("app/kustomization.yaml", "k")
      ∷ []
unfolding transform transform_manifest transformed run_transforms
written = refl

-- One of the recognized names must load.
loaded :
    (load_kust_file {E = String} "none" "many"
        (λ n. content_or (lookup n (("kustomization.yml", "k") ∷ [])))
        ("kustomization.yaml" ∷ "kustomization.yml" ∷ [])
      ≡ ok "k")
    × (load_kust_file {E = String} "none" "many"
          (λ n. ok n)
          ("kustomization.yaml" ∷ "kustomization.yml" ∷ [])
        ≡ err "many")
unfolding load_kust_file match_kust_files
loaded = (refl, refl)

transform-reads_example :
    (r : String) × (expected texts memory-IsFileSystem changes
        (suffixed "+all" ∷ [])
        "app/role.yaml"
        "role"
      ≡ ok r)
    × (memory.read_file "app/role.yaml"
          (transform texts memory changes (suffixed "+all" ∷ []) manifests).1
        ≡ ok r)
unfolding transform transform_manifest transformed run_transforms memory-IsFileSystem
transform-reads_example =
    transform-reads texts memory-IsFileSystem changes (suffixed "+all" ∷ []) manifests refl refl
      "app/role.yaml" "role" refl

copied :
    (q : String)
    → is_file memory-IsFileSystem (named_file q) (memory.walk "/" manifests) ≡ true
    → memory.read_file q (deep_copy memory manifests []).1 ≡ memory.read_file q manifests
unfolding deep_copy copy_entries copy_entry memory-IsFileSystem
copied = deep_copy-reads memory-IsFileSystem manifests [] refl
