-- ===== src/Object/Names.antt =====
-- object/list.go: the namespaced names of a list, and their difference.
use operator_toolkit.Prelude.{
  ℕ, String, Bool, true, false, not, List, [], ◌∷◌, ◌++◌, ◌≡◌, if◌then◌else◌, Result, ok, ◌>>=◌,
  ◌==◌, ◌&&◌, ltb, refl, arith, ◌+◌, sym, map, append-nil, append_assoc, count_if, count_if-append,
  eq_iff, Bool-cases, inl, inr, ◌∙◌, ap,
}

-- `types.NamespacedName`
pub record NamespacedName : Type 0 where
  pub name : String
  pub namespace : String

-- `aa == bb` on two of them.
abbrev pub same_name : NamespacedName → NamespacedName → Bool
same_name a b = (a.name == b.name) && (a.namespace == b.namespace)

-- `extract_list` and `accessor` are those of apimachinery's meta package: parameters.
module _ {E Items Item : Type 0} (extract_list : Items → Result E (List Item))
    (accessor : Item → Result E NamespacedName) where
  unfoldable pub names_loop : List Item → List NamespacedName → Result E (List NamespacedName)
  names_loop [] result = ok result
  names_loop (item ∷ items) result = do obj ← accessor item; names_loop items (result ++ (obj ∷ []))

  unfoldable pub namespaced_names : Items → Result E (List NamespacedName)
  unfolding names_loop
  namespaced_names instances = do items ← extract_list instances; names_loop items []

-- The inner loop of `NamespacedNamesDiff`.
unfoldable pub found_in : List NamespacedName → NamespacedName → Bool
found_in [] aa = false
found_in (bb ∷ b) aa = if same_name aa bb then true else found_in b aa

unfoldable pub diff_loop :
    List NamespacedName → List NamespacedName → List NamespacedName → List NamespacedName
unfolding found_in
diff_loop [] b result = result
diff_loop (aa ∷ a) b result =
    diff_loop a b (if not (found_in b aa) then result ++ (aa ∷ []) else result)

unfoldable pub namespaced_names_diff :
    List NamespacedName → List NamespacedName → List NamespacedName
unfolding diff_loop
namespaced_names_diff a b = diff_loop a b []

-- How often a name stands in a list.
abbrev pub times : NamespacedName → List NamespacedName → ℕ
times n names = count_if (same_name n) names

pub found_in-eq-times :
    (n : NamespacedName) (names : List NamespacedName) → found_in names n ≡ ltb 0 (times n names)
unfolding found_in
found_in-eq-times n [] = ground arith
found_in-eq-times n (m ∷ names) = ground (arith, found_in-eq-times n names)

found_in-cong :
    (b : List NamespacedName) (n m : NamespacedName)
    → same_name n m ≡ true
    → found_in b n ≡ found_in b m
unfolding found_in
found_in-cong [] n m h = refl
found_in-cong (x ∷ b) n m h =
    ground (arith, found_in-cong b n m h, eq_iff n.name m.name, eq_iff n.namespace m.namespace)

diff_loop-times :
    (n : NamespacedName) (a b result : List NamespacedName)
    → times n (diff_loop a b result) ≡ times n result + (if found_in b n then 0 else times n a)
unfolding diff_loop
diff_loop-times n [] b result = ground arith
diff_loop-times n (aa ∷ a) b result = elim (Bool-cases (found_in b aa)) [
  | inl there ↦ rw there (ground (arith, diff_loop-times n a b result, found_in-cong b n aa))
  | inr gone ↦ rw gone (
      ground (
        arith,
        diff_loop-times n a b (result ++ (aa ∷ [])),
        found_in-cong b n aa,
        count_if-append (same_name n) result (aa ∷ []),
      ))
]

-- `NamespacedNamesDiff` keeps each name of the first list, as often as it stands there, if the second
-- list lacks it, and no name that the second list has.
pub namespaced_names_diff-times :
    (n : NamespacedName) (a b : List NamespacedName)
    → times n (namespaced_names_diff a b) ≡ (if ltb 0 (times n b) then 0 else times n a)
unfolding namespaced_names_diff
namespaced_names_diff-times n a b = ground (arith, diff_loop-times n a b [], found_in-eq-times n b)

module _ {E Items Item : Type 0} (extract_list : Items → Result E (List Item))
    (accessor : Item → Result E NamespacedName) (name_of : Item → NamespacedName) where
  names_loop-eq-map :
      (items : List Item) (result : List NamespacedName)
      → ((item : Item) → accessor item ≡ ok (name_of item))
      → names_loop extract_list accessor items result ≡ ok (result ++ map name_of items)
  unfolding names_loop
  names_loop-eq-map [] result h = ap ok (sym (append-nil result))
  names_loop-eq-map (item ∷ items) result h = rw (h item) (
      names_loop-eq-map items (result ++ (name_of item ∷ [])) h
      ∙ ap ok (append_assoc result (name_of item ∷ []) (map name_of items)))

  -- Where every item has its metadata, `NamespacedNames` is the list of the items' names, in order.
  pub namespaced_names-eq-map :
      (instances : Items) (items : List Item)
      → extract_list instances ≡ ok items
      → ((item : Item) → accessor item ≡ ok (name_of item))
      → namespaced_names extract_list accessor instances ≡ ok (map name_of items)
  unfolding namespaced_names
  namespaced_names-eq-map instances items e h = rw e (names_loop-eq-map items [] h)
