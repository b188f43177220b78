-- ===== src/Rbac/Permits.antt =====
-- rbac/client/result.go, `getGroupResourceName`: a rule by the name of its group and resource.
use operator_toolkit.Prelude.{
  String, Bool, true, false, List, [], ◌∷◌, ◌≡◌, ◌==◌, ◌&&◌, elem, all, any, refl, sym, ap, ◌∙◌,
  arith, eq_iff, Bool-cases, inl, inr, ◌⊎◌,
}
use operator_toolkit.Rbac.{PolicyRule, group_resource_name}
use operator_toolkit.Rbac.Keys.{plain, joined_inv}
use operator_toolkit.Rbac.Grouping.{permits_rule, permits, permits_name, has_group}

pub list-cases :
    (l : List String) → (l ≡ []) ⊎ ((a : String) × (rest : List String) × (l ≡ a ∷ rest))
list-cases [] = inl refl
list-cases (a ∷ rest) = inr (a, rest, refl)

-- A rule without a group, or whose group has no underscore.
abbrev pub group_fine : PolicyRule → Bool
group_fine rule = elim rule.api_groups [ [] ↦ true | g ∷ _ ↦ plain g ]

-- Names tell groups and resources apart.
group_resource_name-eq :
    (g r h s : String)
    → plain g ≡ true
    → plain h ≡ true
    → (group_resource_name h s == group_resource_name g r) ≡ ((h == g) && (s == r))
group_resource_name-eq g r h s pg ph =
    elim (Bool-cases (group_resource_name h s == group_resource_name g r)) [
      | inl same ↦
          let (groups, resources) =
            joined_inv h g s r ph pg
              ((eq_iff (group_resource_name h s) (group_resource_name g r)).0 same) in
          same ∙ ground (arith, eq_iff h g, eq_iff s r, groups, resources)
      | inr apart ↦ elim (Bool-cases ((h == g) && (s == r))) [
        | inr other ↦ apart ∙ sym other
        | inl both ↦
            let groups : h ≡ g = ground (arith, both, eq_iff h g) in
            let resources : s ≡ r = ground (arith, both, eq_iff s r) in
            absurd (
              ground (
                arith,
                apart,
                (eq_iff (group_resource_name h s) (group_resource_name g r)).1
                    (λ i. group_resource_name (groups i) (resources i)),
              ))
      ]
    ]

any-named :
    (g r h : String) (rs : List String)
    → plain g ≡ true
    → plain h ≡ true
    → any (λ s. group_resource_name h s == group_resource_name g r) rs ≡ ((h == g) && elem r rs)
any-named g r h [] pg ph = ground arith
any-named g r h (s ∷ rs) pg ph =
    ground (arith, any-named g r h rs pg ph, group_resource_name-eq g r h s pg ph, eq_iff s r)

permits_name-rule :
    (g r v : String) (rule : PolicyRule)
    → plain g ≡ true
    → group_fine rule ≡ true
    → permits_name (group_resource_name g r) v rule ≡ permits_rule g r v rule
permits_name-rule g r v rule pg fine = elim (list-cases rule.api_groups) [
  | inl nothing ↦ rw nothing refl
  | inr (h, gs, is) ↦
      rw is (ground (arith, any-named g r h rule.resources pg (ground (arith, fine, is))))
]

pub permits_name-eq-permits :
    (g r v : String) (rules : List PolicyRule)
    → plain g ≡ true
    → all group_fine rules ≡ true
    → any (permits_name (group_resource_name g r) v) rules ≡ permits g r v rules
permits_name-eq-permits g r v [] pg fine = refl
permits_name-eq-permits g r v (rule ∷ rules) pg fine = ground (
  arith,
  permits_name-rule g r v rule pg (ground (arith, fine)),
  permits_name-eq-permits g r v rules pg (ground (arith, fine)),
)

-- No rule is for a group with an underscore.
pub permits-other :
    (g r v : String) (rules : List PolicyRule)
    → plain g ≡ false
    → all group_fine rules ≡ true
    → permits g r v rules ≡ false
permits-other g r v [] pg fine = refl
permits-other g r v (rule ∷ rules) pg fine = elim (list-cases rule.api_groups) [
  | inl nothing ↦ rw nothing (ground (arith, permits-other g r v rules pg (ground (arith, fine))))
  | inr (h, gs, is) ↦ elim (Bool-cases (h == g)) [
    | inr other ↦
        rw (is, other) (ground (arith, permits-other g r v rules pg (ground (arith, fine))))
    | inl same ↦
        let pg' : plain g ≡ true =
          ap plain (sym ((eq_iff h g).0 same)) ∙ ground (arith, fine, is) in
        absurd (ground (arith, pg, pg'))
  ]
]

pub has_group-fine :
    (rules : List PolicyRule) → all has_group rules ≡ true → all group_fine rules ≡ true
has_group-fine [] h = refl
has_group-fine (rule ∷ rules) h = elim (list-cases rule.api_groups) [
  | inl nothing ↦ ground (arith, h, nothing)
  | inr (g, gs, is) ↦ ground (arith, h, is, has_group-fine rules)
]
