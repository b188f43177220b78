-- ===== src/Operand/Reverse.antt =====
-- operator/v1/operand/order.go, `Reverse`: the loop from both ends towards the middle.
use operator_toolkit.Prelude.{
  ℕ, zero, suc, ◌+◌, ◌-◌, ◌<◌, ◌≤◌, true, some, List, [], ◌∷◌, ◌≡◌, refl, ap, if◌then◌else◌, arith,
  length, get_elem?, replicate, nat_eq, ltb, Bool-cases, inl, inr, sym, ◌∙◌,
}

module _ {A : Type 0} where
  abbrev get_or : List A → ℕ → A → A
  get_or [] i d = d
  get_or (x ∷ xs) zero d = x
  get_or (x ∷ xs) (suc i) d = get_or xs i d

  abbrev set : List A → ℕ → A → List A
  set [] i v = []
  set (x ∷ xs) zero v = v ∷ xs
  set (x ∷ xs) (suc i) v = x ∷ set xs i v

  length-set : (xs : List A) (i : ℕ) (v : A) → length (set xs i v) ≡ length xs
  length-set [] i v = refl
  length-set (x ∷ xs) zero v = refl
  length-set (x ∷ xs) (suc i) v = ap suc (length-set xs i v)

  get_elem?-set :
      (xs : List A) (i j : ℕ) (v : A)
      → i < length xs
      → get_elem? (set xs i v) j ≡ (if nat_eq i j then some v else get_elem? xs j)
  get_elem?-set [] i j v h = absurd (omega arith)
  get_elem?-set (x ∷ xs) zero zero v h = refl
  get_elem?-set (x ∷ xs) zero (suc j) v h = ground arith
  get_elem?-set (x ∷ xs) (suc i) zero v h = ground arith
  get_elem?-set (x ∷ xs) (suc i) (suc j) v h = ground (arith, get_elem?-set xs i j v)

  get_elem?-get_or :
      (xs : List A) (i : ℕ) (d : A) → i < length xs → get_elem? xs i ≡ some (get_or xs i d)
  get_elem?-get_or [] i d h = absurd (omega arith)
  get_elem?-get_or (x ∷ xs) zero d h = refl
  get_elem?-get_or (x ∷ xs) (suc i) d h = get_elem?-get_or xs i d (omega arith)

  get_elem?-make : (n i : ℕ) (a : A) → i < n → get_elem? (replicate n a) i ≡ some a
  get_elem?-make zero i a h = absurd (omega arith)
  get_elem?-make (suc n) zero a h = refl
  get_elem?-make (suc n) (suc i) a h = get_elem?-make n i a (omega arith)

  length-make : (n : ℕ) (a : A) → length (replicate n a) ≡ n
  length-make zero a = refl
  length-make (suc n) a = ap suc (length-make n a)

  module _ (nil : A) (o : List A) where
    -- `for left < right { r[left], r[right] = o[right], o[left] }`, on fuel.
    reverse_loop : (fuel left right : ℕ) → List A → List A
    reverse_loop zero left right r = r
    reverse_loop (suc fuel) left right r =
        let rest =
          reverse_loop fuel (left + 1) (right - 1)
            (set (set r left (get_or o right nil)) right (get_or o left nil)) in
        if ltb left right then rest else r

    -- A new order of as many steps, each of them nil, and the loop over it. With as much fuel as
    -- there are steps the loop ends by its test.
    unfoldable pub reverse_order : List A
    unfolding reverse_loop
    reverse_order = reverse_loop (length o) 0 (length o - 1) (replicate (length o) nil)

    -- Outside of `left` and `right` the rows are mirrored, between them they are nil.
    record Mirrored (left right : ℕ) (r : List A) : Type 0 where
      size : length r ≡ length o
      meet : left + right + 1 ≡ length o
      outer :
          (i : ℕ)
          → i < length o
          → (if ltb i left then true else ltb right i) ≡ true
          → get_elem? r i ≡ get_elem? o (length o - 1 - i)
      inner : (i : ℕ) → left ≤ i → i ≤ right → get_elem? r i ≡ some nil

    Mirrored-step :
        (left right : ℕ) (r : List A)
        → left < right
        → Mirrored left right r
        → Mirrored
            (left + 1)
            (right - 1)
            (set (set r left (get_or o right nil)) right (get_or o left nil))
    Mirrored-step left right r h m = record {
      size = length-set _ right _ ∙ length-set r left _ ∙ m.size;
      meet = omega (arith, m.meet);
      outer = λ i lt out. rows i lt out;
      inner = λ i lo hi.
          ground (arith, row i, m.inner i, m.size, m.meet, length-set r left (get_or o right nil));
    }
      where
        row :
            (i : ℕ)
            → get_elem? (set (set r left (get_or o right nil)) right (get_or o left nil)) i ≡ (
                if nat_eq right i
                then some (get_or o left nil)
                else if nat_eq left i
                then some (get_or o right nil)
                else get_elem? r i)
        row i =
            get_elem?-set (set r left (get_or o right nil)) right i (get_or o left nil)
              (omega (arith, m.size, m.meet, length-set r left (get_or o right nil)))
            ∙ ap (λ x. if nat_eq right i then some (get_or o left nil) else x)
                (get_elem?-set r left i (get_or o right nil) (omega (arith, m.size, m.meet)))

        rows :
            (i : ℕ)
            → i < length o
            → (if ltb i (left + 1) then true else ltb (right - 1) i) ≡ true
            → get_elem? (set (set r left (get_or o right nil)) right (get_or o left nil)) i
              ≡ get_elem? o (length o - 1 - i)
        rows i lt out = elim (Bool-cases (nat_eq right i)) [
          | inl same ↦ rw (row i, same) (sym (mirror left right (ground arith) i (ground arith)))
          | inr other ↦ elim (Bool-cases (nat_eq left i)) [
            | inl same ↦
                rw (row i, other, same) (sym (mirror right left (ground arith) i (ground arith)))
            | inr apart ↦ rw (row i, other, apart) (m.outer i lt (ground arith))
          ]
        ]
          where
            mirror :
                (j k : ℕ)
                → j + k + 1 ≡ length o
                → (i : ℕ) → k ≡ i
                → get_elem? o (length o - 1 - i) ≡ some (get_or o j nil)
            mirror j k meet i e =
                let at : length o - 1 - i ≡ j = omega arith in
                rw at (get_elem?-get_or o j nil (omega arith))

    Mirrored-end :
        (left right : ℕ) (r : List A)
        → right ≤ left
        → left ≤ right + 1
        → Mirrored left right r
        → (i : ℕ) → i < length o
        → get_elem? r i
          ≡ (if nat_eq (i + i + 1) (length o) then some nil else get_elem? o (length o - 1 - i))
    Mirrored-end left right r h near m i lt = elim (Bool-cases (nat_eq (i + i + 1) (length o))) [
      | inl middle ↦ rw middle (m.inner i (ground (arith, m.meet)) (ground (arith, m.meet)))
      | inr side ↦ rw side (m.outer i lt (ground (arith, m.meet)))
    ]

    reverse_loop-rows :
        (fuel left right : ℕ) (r : List A)
        → right ≤ left + fuel
        → left ≤ right + 1
        → Mirrored left right r
        → (i : ℕ) → i < length o
        → get_elem? (reverse_loop fuel left right r) i
          ≡ (if nat_eq (i + i + 1) (length o) then some nil else get_elem? o (length o - 1 - i))
    unfolding reverse_loop
    reverse_loop-rows zero left right r enough near m i lt =
        Mirrored-end left right r (omega arith) near m i lt
    reverse_loop-rows (suc fuel) left right r enough near m i lt =
        elim (Bool-cases (ltb left right)) [
          | inl more ↦ rw more (
              reverse_loop-rows fuel (left + 1) (right - 1) _ (ground arith) (ground arith)
                (Mirrored-step left right r (ground arith) m) i lt)
          | inr done ↦ rw done (Mirrored-end left right r (ground arith) near m i lt)
        ]

    Mirrored-start : 0 < length o → Mirrored 0 (length o - 1) (replicate (length o) nil)
    Mirrored-start some_rows = record {
      size = length-make (length o) nil;
      meet = omega arith;
      outer = λ i lt out. absurd (ground arith);
      inner = λ i lo hi. get_elem?-make (length o) i nil (omega arith);
    }

    -- Row `i` of `Reverse` is row `i` of the order from its end, but in an order of an odd number of
    -- steps the row in the middle is nil: the loop never writes it.
    pub reverse_order-rows :
        (i : ℕ)
        → i < length o
        → get_elem? reverse_order i
          ≡ (if nat_eq (i + i + 1) (length o) then some nil else get_elem? o (length o - 1 - i))
    unfolding reverse_order
    reverse_order-rows i lt =
        reverse_loop-rows (length o) 0 (length o - 1) (replicate (length o) nil) (omega arith)
          (omega arith) (Mirrored-start (omega arith)) i lt

    length-reverse_loop :
        (fuel left right : ℕ) (r : List A) → length (reverse_loop fuel left right r) ≡ length r
    unfolding reverse_loop
    length-reverse_loop zero left right r = refl
    length-reverse_loop (suc fuel) left right r = ground (
      arith,
      length-reverse_loop fuel (left + 1) (right - 1)
          (set (set r left (get_or o right nil)) right (get_or o left nil)),
      length-set (set r left (get_or o right nil)) right (get_or o left nil),
      length-set r left (get_or o right nil),
    )

    pub length-reverse_order : length reverse_order ≡ length o
    unfolding reverse_order
    length-reverse_order =
        length-reverse_loop (length o) 0 (length o - 1) (replicate (length o) nil)
        ∙ length-make (length o) nil
