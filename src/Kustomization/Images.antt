-- ===== src/Kustomization/Images.antt =====
-- declarative/kustomize/mutate.go, `AddImages`: the image of each name.
use operator_toolkit.Prelude.{
  ℕ, String, Bool, true, false, not, ◌||◌, ◌==◌, Option, none, some, List, [], ◌∷◌, ◌++◌, ◌≡◌, refl,
  arith, ◌∙◌, if◌then◌else◌, map, elem, elem-append, count_if, count_if-append, lookup, insert, has,
  lookup-insert, has-insert, has→lookup, eq_iff, eq_refl, Option-cases,
}
use operator_toolkit.Kustomization.{
  ImageType, Kustomization, record_images, populate, unique_images, found_image, keep_images,
  add_images,
}

module _ {Image : Type 0} (type : ImageType Image) where
  open type use {name, zero_image}

  -- The first and the last image of a name, and how many there are.
  abbrev pub first_named : String → List Image → Option Image
  first_named n [] = none
  first_named n (i ∷ images) = if name i == n then some i else first_named n images

  abbrev pub last_named : String → List Image → Option Image
  last_named n [] = none
  last_named n (i ∷ images) = elim (last_named n images) [
    | none ↦ (if name i == n then some i else none)
    | some j ↦ some j
  ]

  abbrev pub count_named : String → List Image → ℕ
  count_named n images = count_if (λ i. name i == n) images

  abbrev pub is_named : String → List Image → Bool
  is_named n images = elem n (map name images)

  abbrev times : String → List String → ℕ
  times n sequence = count_if (λ k. k == n) sequence

  -- What the first loop keeps of its map and its sequence.
  record IsRecorded (image_map : List (String × Image)) (sequence : List String) : Type 0 where
    named : (n : String) (i : Image) → lookup n image_map ≡ some i → name i ≡ n
    same : (n : String) → has n image_map ≡ elem n sequence
    once : (n : String) → times n sequence ≡ (if elem n sequence then 1 else 0)

  record_one :
      (i : Image) (image_map : List (String × Image)) (sequence : List String)
      → IsRecorded image_map sequence
      → IsRecorded
          (insert (name i) i image_map)
          (if not (has (name i) image_map) then sequence ++ (name i ∷ []) else sequence)
  record_one i image_map sequence k = record {
    named = λ n j h.
        ground (arith, h, lookup-insert (name i) n i image_map, eq_iff (name i) n, k.named n j);
    same = λ n. ground (
      arith,
      has-insert (name i) n i image_map,
      k.same n,
      k.same (name i),
      elem-append n sequence (name i ∷ []),
      eq_iff (name i) n,
    );
    once = λ n. ground (
      arith,
      k.once n,
      k.same n,
      k.same (name i),
      elem-append n sequence (name i ∷ []),
      eq_iff (name i) n,
      count_if-append (λ x. x == n) sequence (name i ∷ []),
    );
  }

  record_images_lem :
      (images : List Image) (image_map : List (String × Image)) (sequence : List String)
      → IsRecorded image_map sequence
      → IsRecorded
          (record_images type images image_map sequence).0
          (record_images type images image_map sequence).1
        × ((n : String)
            → lookup n (record_images type images image_map sequence).0
              ≡ elim (last_named n images) [ none ↦ lookup n image_map | some j ↦ some j ])
        × ((n : String)
            → elem n (record_images type images image_map sequence).1
              ≡ (elem n sequence || is_named n images))
  unfolding record_images
  record_images_lem [] image_map sequence k = (k, (λ n. refl), λ n. ground arith)
  record_images_lem (i ∷ images) image_map sequence k =
      let (k', found, there) =
        record_images_lem images (insert (name i) i image_map)
          (if not (has (name i) image_map) then sequence ++ (name i ∷ []) else sequence)
          (record_one i image_map sequence k) in
      (
        k',
        (λ n. ground (arith, found n, lookup-insert (name i) n i image_map)),
        λ n. ground (
          arith,
          there n,
          k.same (name i),
          k.same n,
          elem-append n sequence (name i ∷ []),
          eq_iff (name i) n,
        ),
      )

  populate_lem :
      (image_map : List (String × Image)) (sequence : List String)
      → ((n : String) (i : Image) → lookup n image_map ≡ some i → name i ≡ n)
      → ((n : String) → elem n sequence ≡ true → has n image_map ≡ true)
      → ((n : String)
          → first_named n (populate type image_map sequence)
            ≡ (if elem n sequence then lookup n image_map else none))
        × ((n : String) → count_named n (populate type image_map sequence) ≡ times n sequence)
        × ((n : String) → is_named n (populate type image_map sequence) ≡ elem n sequence)
  unfolding populate
  populate_lem image_map [] named there = ((λ n. refl), (λ n. refl), λ n. refl)
  populate_lem image_map (k ∷ sequence) named there =
      let (first, count, is) =
        populate_lem image_map sequence named (λ n h. there n (ground (arith, h))) in
      let (i, at) = has→lookup k image_map (there k (ground (arith, eq_refl k))) in
      rw at (
        (λ n. ground (arith, at, named k i at, first n, eq_iff k n)),
        (λ n. ground (arith, named k i at, count n)),
        λ n. ground (arith, named k i at, is n),
      )

  found_image-is_named :
      (e : Image) (images : List Image) → found_image type e images ≡ is_named (name e) images
  unfolding found_image
  found_image-is_named e [] = refl
  found_image-is_named e (i ∷ images) =
      ground
        (arith, found_image-is_named e images, eq_iff (name e) (name i), eq_iff (name i) (name e))

  keep_images_lem :
      (images unique : List Image) (n : String)
      → (count_named n (keep_images type images unique)
          ≡ (if is_named n unique then 0 else count_named n images))
        × (first_named n (keep_images type images unique)
            ≡ (if is_named n unique then none else first_named n images))
  unfolding keep_images
  keep_images_lem [] unique n = (ground arith, ground arith)
  keep_images_lem (e ∷ images) unique n =
      let (count, first) = keep_images_lem images unique n in
      (
        ground (arith, count, found_image-is_named e unique, eq_iff (name e) n),
        ground (arith, first, found_image-is_named e unique, eq_iff (name e) n),
      )

  first_named-append :
      (n : String) (xs ys : List Image)
      → first_named n (xs ++ ys)
        ≡ elim (first_named n xs) [ none ↦ first_named n ys | some i ↦ some i ]
  first_named-append n [] ys = refl
  first_named-append n (x ∷ xs) ys = ground (arith, first_named-append n xs ys)

  last_named-is_named :
      (n : String) (images : List Image)
      → elim (last_named n images) [ none ↦ false | some i ↦ true ] ≡ is_named n images
  last_named-is_named n [] = refl
  last_named-is_named n (i ∷ images) =
      ground (arith, last_named-is_named n images, Option-cases (last_named n images))

  unique_images_lem :
      (images : List Image) (n : String)
      → (first_named n (unique_images type images) ≡ last_named n images)
        × (count_named n (unique_images type images) ≡ (if is_named n images then 1 else 0))
        × (is_named n (unique_images type images) ≡ is_named n images)
  unfolding unique_images
  unique_images_lem images n =
      let (k, found, there) = record_images_lem images [] [] (record {
        named = λ m i h. absurd (ground (arith, h));
        same = λ m. refl;
        once = λ m. refl;
      }) in
      let r = record_images type images [] [] in
      let (first, count, is) = populate_lem r.0 r.1 k.named (λ m h. k.same m ∙ h) in
      (
        ground (
          arith,
          first n,
          found n,
          there n,
          last_named-is_named n images,
          Option-cases (last_named n images),
        ),
        ground (arith, count n, k.once n, there n),
        ground (arith, is n, there n),
      )

  -- After `AddImages` the first entry of a name, which is the one that kustomize takes, is the last of
  -- the new images with that name, and where there is none, the first that the kustomization had. A name
  -- of the new images stands there once, any other as often as before.
  pub add_images-prefers_last :
      (images : List Image) (k : Kustomization Image) (n : String)
      → (first_named n (add_images type images k).images
          ≡ elim (last_named n images) [ none ↦ first_named n k.images | some i ↦ some i ])
        × (count_named n (add_images type images k).images
            ≡ (if is_named n images then 1 else count_named n k.images))
  unfolding add_images
  add_images-prefers_last images k n =
      let unique = unique_images type images in
      let (first, count, is) = unique_images_lem images n in
      let (kept, kept_first) = keep_images_lem k.images unique n in
      (
        ground (
          arith,
          first_named-append n (keep_images type k.images unique) unique,
          first,
          is,
          kept_first,
          last_named-is_named n images,
          Option-cases (last_named n images),
          Option-cases (first_named n k.images),
        ),
        ground (
          arith,
          count_if-append (λ i. name i == n) (keep_images type k.images unique) unique,
          count,
          is,
          kept,
        ),
      )
