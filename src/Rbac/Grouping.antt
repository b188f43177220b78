-- ===== src/Rbac/Grouping.antt =====
-- rbac/client/result.go, the maps of `reorderRules`: what they grant, and that each name has one rule.
use operator_toolkit.Prelude.{
  ◌≤◌, String, Bool, true, false, none, some, List, [], ◌∷◌, ◌++◌, ◌≡◌, ◌==◌, ◌||◌, ◌&&◌, lookup,
  elem, elem-append, any, refl, arith, eq_iff, lookup-insert, Option-cases, Bool-cases, inl, inr,
  ◌∙◌, count_if, count_if-append,
}
use operator_toolkit.Operand.{is_some}
use operator_toolkit.Rbac.Keys.{plain}
use operator_toolkit.Rbac.{
  PolicyRule, contains, group_resource_name, append_verbs, Grouped, group_resource, group_resources,
}

contains-eq-elem : (s : List String) (e : String) → contains s e ≡ elem e s
unfolding contains
contains-eq-elem [] e = refl
contains-eq-elem (a ∷ s) e = ground (arith, contains-eq-elem s e)

elem-append_verbs :
    (v : String) (more verbs : List String)
    → elem v (append_verbs more verbs) ≡ (elem v verbs || elem v more)
unfolding append_verbs
elem-append_verbs v [] verbs = ground arith
elem-append_verbs v (w ∷ more) verbs = elim (Bool-cases (contains verbs w)) [
  | inl old ↦
      rw old (ground (arith, elem-append_verbs v more verbs, contains-eq-elem verbs w, eq_iff w v))
  | inr new ↦
      rw new
        (ground (arith, elem-append_verbs v more (verbs ++ (w ∷ [])), elem-append v verbs (w ∷ [])))
]

-- Does a rule permit the verb on the resource of the group? Only its first group counts.
abbrev pub permits_rule : (group resource verb : String) → PolicyRule → Bool
permits_rule group resource verb rule = elim rule.api_groups [
  | [] ↦ false
  | g ∷ _ ↦ (g == group) && (elem resource rule.resources && elem verb rule.verbs)
]

abbrev pub permits : (group resource verb : String) → List PolicyRule → Bool
permits group resource verb rules = any (permits_rule group resource verb) rules

-- Does a rule name a group, and is there no underscore in it?
abbrev pub has_group : PolicyRule → Bool
has_group rule = elim rule.api_groups [ [] ↦ false | g ∷ _ ↦ plain g ]

-- The same by the names that `getGroupResourceName` gives.
abbrev pub permits_name : (name verb : String) → PolicyRule → Bool
permits_name k v rule = elim rule.api_groups [
  | [] ↦ false
  | g ∷ _ ↦ any (λ r. group_resource_name g r == k) rule.resources && elem v rule.verbs
]

-- Do the rules so far permit it?
abbrev pub granted : String → String → Grouped → Bool
granted k v st = elim (lookup k st.rules) [ none ↦ false | some rule ↦ elem v rule.verbs ]

abbrev pub IsKeyed : String → PolicyRule → Type 0
IsKeyed k rule =
    (g : String) × (r : String) × (rule.api_groups ≡ g ∷ [])
    × (rule.resources ≡ r ∷ [])
    × (group_resource_name g r ≡ k)
    × (plain g ≡ true)

-- Each name stands once in the list and has a rule of its own group and resource.
pub record IsGrouped (st : Grouped) : Type 0 where
  pub keyed : (k : String) (rule : PolicyRule) → lookup k st.rules ≡ some rule → IsKeyed k rule
  pub listed : (k : String) → elem k st.names ≡ is_some (lookup k st.rules)
  pub once : (k : String) → count_if (λ n. n == k) st.names ≤ 1

granted-group_resource :
    (k v g : String) (rule : PolicyRule) (r : String) (st : Grouped)
    → granted k v (group_resource g rule r st)
      ≡ (granted k v st || (group_resource_name g r == k && elem v rule.verbs))
unfolding group_resource
granted-group_resource k v g rule r st =
    elim (Option-cases (lookup (group_resource_name g r) st.rules)) [
      | inl new ↦
          rw (new, group_resource)
            (ground (
              arith,
              eq_iff (group_resource_name g r) k,
              lookup-insert (group_resource_name g r) k
                  (record { api_groups = g ∷ []; resources = r ∷ []; verbs = rule.verbs }) st.rules,
            ))
      | inr (old, there) ↦
          rw (there, group_resource)
            (ground (
              arith,
              eq_iff (group_resource_name g r) k,
              elem-append_verbs v rule.verbs old.verbs,
              lookup-insert (group_resource_name g r) k
                  (record old { verbs = append_verbs rule.verbs old.verbs }) st.rules,
            ))
    ]

pub granted-group_resources :
    (k v g : String) (rule : PolicyRule) (rs : List String) (st : Grouped)
    → granted k v (group_resources g rule rs st)
      ≡ (granted k v st || (any (λ r. group_resource_name g r == k) rs && elem v rule.verbs))
unfolding group_resources
granted-group_resources k v g rule [] st = ground arith
granted-group_resources k v g rule (r ∷ rs) st =
    granted-group_resources k v g rule rs (group_resource g rule r st)
    ∙ rw (granted-group_resource k v g rule r st) (ground arith)

count-zero :
    (k : String) (names : List String) → elem k names ≡ false → count_if (λ n. n == k) names ≡ 0
count-zero k [] h = refl
count-zero k (n ∷ names) h = ground (arith, count-zero k names)

pub group_resource-IsGrouped :
    (g : String) (rule : PolicyRule) (r : String) (st : Grouped)
    → plain g ≡ true
    → IsGrouped st
    → IsGrouped (group_resource g rule r st)
unfolding group_resource
group_resource-IsGrouped g rule r st fine h =
    let name = group_resource_name g r in
    elim (Option-cases (lookup name st.rules)) [
      | inl new ↦
          let added : PolicyRule = record {
            api_groups = g ∷ [];
            resources = r ∷ [];
            verbs = rule.verbs;
          } in
          rw (new, group_resource)
            (record {
              keyed = λ k p e. elim (Bool-cases (name == k)) [
                | inl same ↦
                    let is : added ≡ p = ground (arith, lookup-insert name k added st.rules) in
                    rw (← is) (g, r, refl, refl, (eq_iff name k).0 same, fine)
                | inr other ↦ h.keyed k p (ground (arith, lookup-insert name k added st.rules))
              ];
              listed = λ k. ground (
                arith,
                lookup-insert name k added st.rules,
                h.listed k,
                elem-append k st.names (name ∷ []),
              );
              once = λ k. ground (
                arith,
                h.once k,
                h.listed k,
                eq_iff name k,
                count-zero k st.names,
                count_if-append (λ n. n == k) st.names (name ∷ []),
              );
            })
      | inr (old, there) ↦
          let more : PolicyRule = record old { verbs = append_verbs rule.verbs old.verbs } in
          rw (there, group_resource)
            (record {
              keyed = λ k p e. elim (Bool-cases (name == k)) [
                | inl same ↦
                    let is : more ≡ p = ground (arith, lookup-insert name k more st.rules) in
                    let (g', r', a, b, c, p) = h.keyed name old there in
                    rw (← is) (g', r', a, b, c ∙ (eq_iff name k).0 same, p)
                | inr other ↦ h.keyed k p (ground (arith, lookup-insert name k more st.rules))
              ];
              listed = λ k.
                  ground (arith, lookup-insert name k more st.rules, h.listed k, eq_iff name k);
              once = h.once;
            })
    ]
