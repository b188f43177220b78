-- ===== src/Kustomization.antt =====
-- declarative/kustomize/mutate.go: the functions that change a kustomization before it is run. A map
-- that is set is a value here; in the source it stays shared with the caller.
pub mod Images
pub mod Samples
use operator_toolkit.Prelude.{
  String, Bool, true, false, not, Option, none, some, List, [], ◌∷◌, ◌++◌, ◌==◌, if◌then◌else◌,
  lookup, insert, has,
}

-- What the code uses of kustomize's `Image`: its name and its zero value.
pub record ImageType (Image : Type 0) : Type 0 where
  pub name : Image → String
  pub zero_image : Image

-- The fields of `Kustomization` that the functions set; a nil map is `none`.
pub record Kustomization (Image : Type 0) : Type 0 where
  pub common_labels : Option (List (String × String))
  pub common_annotations : Option (List (String × String))
  pub namespace : String
  pub resources : List String
  pub images : List Image
  pub name_prefix : String
  pub name_suffix : String

-- `for key, val := range labels { m[key] = val }`
pub insert_all : List (String × String) → List (String × String) → List (String × String)
insert_all [] m = m
insert_all ((key, val) ∷ entries) m = insert_all entries (insert key val m)

abbrev pub MutateFunc : Type 0 → Type 0
MutateFunc Image = Kustomization Image → Kustomization Image

module _ {Image : Type 0} where
  unfoldable pub mutate : List (MutateFunc Image) → Kustomization Image → Kustomization Image
  mutate [] k = k
  mutate (f ∷ funcs) k = mutate funcs (f k)

  pub add_common_labels : List (String × String) → MutateFunc Image
  add_common_labels labels k = elim k.common_labels [
    | none ↦ record k { common_labels = some labels }
    | some m ↦ record k { common_labels = some (insert_all labels m) }
  ]

  pub add_common_annotations : List (String × String) → MutateFunc Image
  add_common_annotations annotations k = elim k.common_annotations [
    | none ↦ record k { common_annotations = some annotations }
    | some m ↦ record k { common_annotations = some (insert_all annotations m) }
  ]

  unfoldable pub add_namespace : String → MutateFunc Image
  add_namespace namespace k = record k { namespace = namespace }

  pub add_resources : List String → MutateFunc Image
  add_resources resources k = record k { resources = k.resources ++ resources }

  pub add_name_prefix : String → MutateFunc Image
  add_name_prefix prefix k = record k { name_prefix = prefix }

  pub add_name_suffix : String → MutateFunc Image
  add_name_suffix suffix k = record k { name_suffix = suffix }

  module _ (type : ImageType Image) where
    open type use {name, zero_image}

    -- The first loop of `AddImages`, with `imageMap` and `sequence` so far.
    pub record_images :
        List Image → List (String × Image) → List String → List (String × Image) × List String
    record_images [] image_map sequence = (image_map, sequence)
    record_images (i ∷ images) image_map sequence =
        record_images images (insert (name i) i image_map)
          (if not (has (name i) image_map) then sequence ++ (name i ∷ []) else sequence)

    -- The second loop; a missing key reads as the zero value.
    pub populate : List (String × Image) → List String → List Image
    populate image_map [] = []
    populate image_map (n ∷ sequence) =
        elim (lookup n image_map) [ none ↦ zero_image | some i ↦ i ] ∷ populate image_map sequence

    pub unique_images : List Image → List Image
    unique_images images =
        let (image_map, sequence) = record_images images [] [] in populate image_map sequence

    -- The inner of the two last loops: "If entry for the same name is found, ignore it."
    pub found_image : Image → List Image → Bool
    found_image e [] = false
    found_image e (n ∷ images) = if name e == name n then true else found_image e images

    pub keep_images : List Image → List Image → List Image
    keep_images [] unique = []
    keep_images (e ∷ images) unique =
        if not (found_image e unique)
        then e ∷ keep_images images unique
        else keep_images images unique

    pub add_images : List Image → MutateFunc Image
    add_images images k =
        let unique = unique_images images in
        record k { images = keep_images k.images unique ++ unique }
