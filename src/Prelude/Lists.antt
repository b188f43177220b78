-- ===== src/Prelude/Lists.antt =====
-- Lists of names with the Boolean membership test that the program writes out, and dictionaries.
use Prim.Native.Nat.{ℕ, zero, suc, ◌+◌}
use Prim.Native.String.{String}
use mathlib.Core.Path.{◌≡◌, refl}
use mathlib.Core.Bool.{Bool, true, false, ◌||◌, ◌&&◌}
use mathlib.Core.Logic.{inl, inr}
use mathlib.Core.List.{List, [], ◌∷◌, ◌++◌}
use mathlib.Core.Option.{Option, none, some}
use native.Mathlib.Omega.{arith}
use text.Mathlib.Text.{◌==◌}
use text.Mathlib.TextEquality.{eq_iff}
use operator_toolkit.Prelude.Tests.{if◌then◌else◌, Bool-cases}

abbrev pub length {ℓ} : {A : Type ℓ} → List A → ℕ
length [] = 0
length (x ∷ xs) = suc (length xs)

pub length-append {ℓ} : {A : Type ℓ} (xs ys : List A) → length (xs ++ ys) ≡ length xs + length ys
length-append [] ys = omega arith
length-append (x ∷ xs) ys = omega (arith, length-append xs ys)

abbrev pub replicate {ℓ} : {A : Type ℓ} → ℕ → A → List A
replicate zero a = []
replicate (suc n) a = a ∷ replicate n a

abbrev pub get_elem? {ℓ} : {A : Type ℓ} → List A → ℕ → Option A
get_elem? [] i = none
get_elem? (x ∷ xs) zero = some x
get_elem? (x ∷ xs) (suc i) = get_elem? xs i

-- Is `x` one of `ys`?
abbrev pub elem : String → List String → Bool
elem x [] = false
elem x (y ∷ ys) = y == x || elem x ys

pub elem-append : (x : String) (ys zs : List String) → elem x (ys ++ zs) ≡ (elem x ys || elem x zs)
elem-append x [] zs = refl
elem-append x (y ∷ ys) zs = ground (arith, elem-append x ys zs)

-- How many of the list pass the test?
abbrev pub count_if {ℓ} : {A : Type ℓ} → (A → Bool) → List A → ℕ
count_if p [] = 0
count_if p (x ∷ xs) = if p x then suc (count_if p xs) else count_if p xs

pub count_if-append {ℓ} :
    {A : Type ℓ} (p : A → Bool) (xs ys : List A)
    → count_if p (xs ++ ys) ≡ count_if p xs + count_if p ys
count_if-append p [] ys = omega arith
count_if-append p (x ∷ xs) ys = ground (arith, count_if-append p xs ys)

-- Do all of the list pass the test?
abbrev pub all {ℓ} : {A : Type ℓ} → (A → Bool) → List A → Bool
all p [] = true
all p (x ∷ xs) = p x && all p xs

abbrev pub any {ℓ} : {A : Type ℓ} → (A → Bool) → List A → Bool
any p [] = false
any p (x ∷ xs) = p x || any p xs

pub all-elem :
    (p : String → Bool) (xs : List String) (x : String)
    → all p xs ≡ true
    → elem x xs ≡ true
    → p x ≡ true
all-elem p [] x h m = ground arith
all-elem p (y ∷ ys) x h m = ground (arith, eq_iff y x, all-elem p ys x)

-- A failed test has a culprit.
pub all_culprit :
    (p : String → Bool) (xs : List String)
    → all p xs ≡ false
    → (x : String) × (elem x xs ≡ true) × (p x ≡ false)
all_culprit p [] h = absurd (ground arith)
all_culprit p (x ∷ xs) h = elim (Bool-cases (p x)) [
  | inl good ↦ let (y, m, bad) = all_culprit p xs (ground arith) in (y, ground arith, bad)
  | inr bad ↦ (x, ground (arith, eq_iff x x), bad)
]

module _ {ℓ} {V : Type ℓ} where
  abbrev pub lookup : String → List (String × V) → Option V
  lookup k [] = none
  lookup k ((j, v) ∷ m) = if j == k then some v else lookup k m

  -- `m[k] = v`
  abbrev pub insert : (k : String) (v : V) (m : List (String × V)) → List (String × V)
  insert k v [] = (k, v) ∷ []
  insert k v (entry ∷ m) = if entry.0 == k then (k, v) ∷ m else entry ∷ insert k v m

  -- `_, exists := m[k]`
  abbrev pub has : String → List (String × V) → Bool
  has k [] = false
  has k ((j, v) ∷ m) = j == k || has k m

  pub lookup-insert :
      (key other : String) (new : V) (entries : List (String × V))
      → lookup other (insert key new entries)
        ≡ (if key == other then some new else lookup other entries)
  lookup-insert key other new [] = refl
  lookup-insert key other new ((i, w) ∷ entries) =
      ground
        (arith, eq_iff key other, eq_iff i key, eq_iff i other, lookup-insert key other new entries)

  pub has-insert :
      (k j : String) (v : V) (m : List (String × V)) → has j (insert k v m) ≡ (k == j || has j m)
  has-insert k j v [] = refl
  has-insert k j v ((i, w) ∷ m) =
      ground (arith, eq_iff k j, eq_iff i k, eq_iff i j, has-insert k j v m)

  pub has→lookup :
      (k : String) (m : List (String × V)) → has k m ≡ true → (v : V) × (lookup k m ≡ some v)
  has→lookup k [] h = absurd (ground arith)
  has→lookup k ((j, v) ∷ m) h = elim (Bool-cases (j == k)) [
    | inl same ↦ (v, rw same)
    | inr other ↦ let (w, e) = has→lookup k m (ground arith) in (w, rw other e)
  ]

  pub lookup→has :
      (k : String) (v : V) (m : List (String × V)) → lookup k m ≡ some v → has k m ≡ true
  lookup→has k v [] h = ground arith
  lookup→has k v ((j, w) ∷ m) h = ground (arith, lookup→has k v m)
