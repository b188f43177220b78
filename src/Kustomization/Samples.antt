-- ===== src/Kustomization/Samples.antt =====
-- Images that are given twice, and that the kustomization has already.
use operator_toolkit.Prelude.{String, none, some, List, [], ◌∷◌, ◌≡◌, refl, if◌then◌else◌}
use operator_toolkit.Kustomization.{
  ImageType, Kustomization, insert_all, mutate, add_common_labels, add_namespace, record_images,
  populate, unique_images, found_image, keep_images, add_images,
}
use operator_toolkit.Kustomization.Images.{
  first_named, last_named, count_named, is_named, add_images-prefers_last,
}

-- An image is its name and its tag.
abbrev tagged : ImageType (String × String)
tagged = record { name = λ i. i.0; zero_image = ("", "") }

abbrev guestbook : Kustomization (String × String)
guestbook = record {
  common_labels = none;
  common_annotations = none;
  namespace = "";
  resources = "role.yaml" ∷ [];
  images = ("web", "1") ∷ ("db", "1") ∷ ("db", "2") ∷ [];
  name_prefix = "";
  name_suffix = "";
}

abbrev newer : List (String × String)
newer = ("web", "2") ∷ ("cache", "1") ∷ ("web", "3") ∷ []

-- What the kustomization had twice stays twice.
updated :
    (add_images tagged newer guestbook).images
    ≡ ("db", "1") ∷ ("db", "2") ∷ ("web", "3") ∷ ("cache", "1") ∷ []
unfolding add_images unique_images record_images populate keep_images found_image
updated = refl

labelled :
    (mutate
      (add_common_labels (("app", "a") ∷ [])
        ∷ add_namespace "games"
        ∷ add_common_labels (("app", "b") ∷ [])
        ∷ [])
      guestbook).common_labels
    ≡ some (("app", "b") ∷ [])
unfolding mutate add_common_labels add_namespace insert_all
labelled = refl

add_images-prefers_last_example :
    (first_named tagged "web" (add_images tagged newer guestbook).images
      ≡ elim (last_named tagged "web" newer) [
        | none ↦ first_named tagged "web" guestbook.images
        | some i ↦ some i
      ])
    × (count_named tagged "web" (add_images tagged newer guestbook).images
        ≡ (if is_named tagged "web" newer then 1 else count_named tagged "web" guestbook.images))
add_images-prefers_last_example = add_images-prefers_last tagged newer guestbook "web"
