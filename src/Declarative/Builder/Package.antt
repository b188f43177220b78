-- ===== src/Declarative/Builder/Package.antt =====
-- declarative/builder.go: the inversion of a chain of results, and the manifests of a package.
use operator_toolkit.Prelude.{
  String, Bool, true, not, ◌&&◌, ◌==◌, Option, none, some, List, [], ◌∷◌, ◌≡◌, refl, sym, arith,
  if◌then◌else◌, Result, ok, err, ◌>>=◌, lookup, insert, lookup-insert, has-insert, any, eq_iff,
  Option-cases, Bool-cases, inl, inr, all, has, ap, ◌∙◌,
}
use operator_toolkit.Declarative.{WalkEntry, ManifestTransform, package_entries}
use operator_toolkit.Declarative.Transformed.{distinct_keys, cleaned}
use operator_toolkit.Declarative.Builder.{is_empty_list, after}

-- What succeeds has succeeded in its parts.
pub after_inv :
    {E A Fs : Type 0} (r : Option E × Fs) (f : Fs → Result E A) (a : A)
    → after r f ≡ ok a
    → (r.0 ≡ none) × (f r.1 ≡ ok a)
after_inv (some e, fs) f a h = absurd (ground (arith, h))
after_inv (none, fs) f a h = (refl, h)

pub bind_inv :
    {E A B : Type 0} (r : Result E A) (f : A → Result E B) (b : B)
    → (r >>= f) ≡ ok b
    → (a : A) × (r ≡ ok a) × (f a ≡ ok b)
bind_inv (ok a) f b h = (a, refl, h)
bind_inv (err e) f b h = absurd (ground (arith, h))

pub empty-eq : {A : Type 0} (xs : List A) → is_empty_list xs ≡ true → xs ≡ []
empty-eq [] h = refl
empty-eq (x ∷ xs) h = absurd (ground (arith, h))

pub ok_inv : {E A : Type 0} {a b : A} → ◌≡◌ {A = Result E A} (ok a) (ok b) → a ≡ b
ok_inv h = cc

insert-distinct :
    {V : Type 0} (k : String) (v : V) (m : List (String × V))
    → distinct_keys m ≡ true
    → distinct_keys (insert k v m) ≡ true
insert-distinct k v [] d = refl
insert-distinct k v ((j, w) ∷ m) d =
    ground (arith, d, eq_iff j k, insert-distinct k v m, has-insert k j v m, eq_iff k j)

-- Where all keys are cleaned paths, the map by its cleaned keys is the map.
module _ {V : Type 0} (clean : String → String) where
  abbrev pub all_clean : List (String × V) → Bool
  all_clean m = all (λ e. clean e.0 == e.0) m

  insert-all_clean :
      (k : String) (v : V) (m : List (String × V))
      → (clean k == k) ≡ true
      → all_clean m ≡ true
      → all_clean (insert k v m) ≡ true
  insert-all_clean k v [] c h = ground (arith, c)
  insert-all_clean k v ((j, w) ∷ m) c h = ground (arith, c, h, eq_iff j k, insert-all_clean k v m c)

  has-cleaned :
      (q : String) (m : List (String × V)) → all_clean m ≡ true → has q (cleaned clean m) ≡ has q m
  has-cleaned q [] h = refl
  has-cleaned q ((j, w) ∷ m) h = ground (arith, h, has-cleaned q m, eq_iff (clean j) j)

  pub distinct-cleaned :
      (m : List (String × V))
      → all_clean m ≡ true
      → distinct_keys m ≡ true
      → distinct_keys (cleaned clean m) ≡ true
  distinct-cleaned [] h d = refl
  distinct-cleaned ((j, w) ∷ m) h d =
      ground (arith, h, d, distinct-cleaned m, has-cleaned j m, eq_iff (clean j) j)

  abbrev pub keyed : String → Option V → Option (String × V)
  keyed q none = none
  keyed q (some v) = some (q, v)

  pub lookup-cleaned :
      (q : String) (m : List (String × V))
      → all_clean m ≡ true
      → lookup q (cleaned clean m) ≡ keyed q (lookup q m)
  lookup-cleaned q [] h = refl
  lookup-cleaned q ((j, w) ∷ m) h = elim (Bool-cases (j == q)) [
    | inl same ↦
        let is : clean j ≡ j = (eq_iff (clean j) j).0 (ground (arith, h)) in
        rw (is, same) (ap (λ k. some (k, w)) ((eq_iff j q).0 same))
    | inr other ↦
        let is : clean j ≡ j = (eq_iff (clean j) j).0 (ground (arith, h)) in
        rw (is, other) (lookup-cleaned q m (ground (arith, h)))
  ]

module _ {E : Type 0} (kust : String → Bool) (wrap : String → E → E) where
  -- Is the path a file of the walk and no kustomization?
  abbrev pub is_manifest : String → List (WalkEntry E) → Bool
  is_manifest p entries = any (λ e. not e.is_dir && (not (kust e.path) && (e.path == p))) entries

  -- One file more.
  abbrev with_entry :
      {Node : Type 0} → WalkEntry E → ManifestTransform E Node → ManifestTransform E Node
  with_entry entry mt =
      if entry.is_dir then mt else if kust entry.path then mt else insert entry.path [] mt

  with_entry_lem :
      {Node : Type 0} (entry : WalkEntry E) (mt : ManifestTransform E Node)
      → distinct_keys mt ≡ true
      → (distinct_keys (with_entry entry mt) ≡ true)
        × ((p : String)
            → lookup p (with_entry entry mt) ≡ (
                if not entry.is_dir && (not (kust entry.path) && (entry.path == p))
                then some []
                else lookup p mt))
  with_entry_lem entry mt d = (
    ground (arith, d, insert-distinct entry.path [] mt d),
    λ p. ground (arith, lookup-insert entry.path p [] mt),
  )

  pub package_entries_lem :
      {Node : Type 0} (entries : List (WalkEntry E)) (mt mt' : ManifestTransform E Node)
      → package_entries kust wrap entries mt ≡ ok mt'
      → distinct_keys mt ≡ true
      → (distinct_keys mt' ≡ true)
        × ((p : String) → lookup p mt' ≡ (if is_manifest p entries then some [] else lookup p mt))
  unfolding package_entries
  package_entries_lem [] mt mt' h d = rw (sym (ok_inv h)) (d, λ p. refl)
  package_entries_lem (entry ∷ entries) mt mt' h d = elim (Option-cases entry.access_error) [
    | inr (e, bad) ↦ absurd (ground (arith, h, bad))
    | inl fine ↦
        let (d1, at1) = with_entry_lem entry mt d in
        let (d', at) =
          package_entries_lem entries (with_entry entry mt) mt' (ground (arith, h, fine)) d1 in
        (d', λ p. ground (arith, at p, at1 p))
  ]

  pub package_entries-all_clean :
      {Node : Type 0} (clean : String → String) (entries : List (WalkEntry E))
      (mt mt' : ManifestTransform E Node)
      → package_entries kust wrap entries mt ≡ ok mt'
      → all (λ e. clean e.path == e.path) entries ≡ true
      → all_clean clean mt ≡ true
      → all_clean clean mt' ≡ true
  unfolding package_entries
  package_entries-all_clean clean [] mt mt' h w c = ap (all_clean clean) (sym (ok_inv h)) ∙ c
  package_entries-all_clean clean (entry ∷ entries) mt mt' h w c =
      elim (Option-cases entry.access_error) [
        | inr (e, bad) ↦ absurd (ground (arith, h, bad))
        | inl fine ↦
            package_entries-all_clean clean entries (with_entry entry mt) mt'
              (ground (arith, h, fine)) (ground (arith, w))
              (ground (arith, w, c, insert-all_clean clean entry.path [] mt))
      ]
