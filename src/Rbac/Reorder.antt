-- ===== src/Rbac/Reorder.antt =====
-- rbac/client/result.go, `reorderRules`: the grouped rules permit what the recorded rules do.
use operator_toolkit.Prelude.{
  String, true, none, some, List, [], ◌∷◌, ◌≡◌, ◌||◌, ◌&&◌, lookup, elem, all, refl, arith, eq_iff,
  Option-cases, Bool-cases, inl, inr, ◌∙◌, ap, sym, any,
}
use operator_toolkit.Rbac.{
  PolicyRule, Grouped, group_resource_name, group_resource, group_resources, group_rules,
  listed_rules, reorder_rules,
}
use operator_toolkit.Rbac.Keys.{plain}
use operator_toolkit.Rbac.Permits.{
  list-cases, group_fine, permits_name-eq-permits, permits-other, has_group-fine,
}
use operator_toolkit.Rbac.Grouping.{
  permits, permits_name, has_group, granted, IsKeyed, IsGrouped, granted-group_resources,
  group_resource-IsGrouped,
}

group_resources-IsGrouped :
    (g : String) (rule : PolicyRule) (rs : List String) (st : Grouped)
    → plain g ≡ true
    → IsGrouped st
    → IsGrouped (group_resources g rule rs st)
unfolding group_resources
group_resources-IsGrouped g rule [] st fine h = h
group_resources-IsGrouped g rule (r ∷ rs) st fine h =
    group_resources-IsGrouped g rule rs (group_resource g rule r st) fine
      (group_resource-IsGrouped g rule r st fine h)

-- What the first loop leaves: every group so far and every rule read is granted.
abbrev Groups : List PolicyRule → Grouped → Grouped → Type 0
Groups rules st st' =
    IsGrouped st'
    × ((k v : String) → granted k v st' ≡ (granted k v st || any (permits_name k v) rules))

group_rules-cons :
    (g : String) (gs : List String) (rule : PolicyRule) (rules : List PolicyRule) (st : Grouped)
    → rule.api_groups ≡ g ∷ gs
    → group_rules (rule ∷ rules) st ≡ group_rules rules (group_resources g rule rule.resources st)
unfolding group_rules
group_rules-cons g gs rule rules st is =
    ap
      (λ groups. elim groups [
        | [] ↦ none
        | g' ∷ _ ↦ group_rules rules (group_resources g' rule rule.resources st)
      ])
      is

group_rules-Groups :
    (rules : List PolicyRule) (st : Grouped)
    → all has_group rules ≡ true
    → IsGrouped st
    → (st' : Grouped) × (group_rules rules st ≡ some st') × Groups rules st st'
unfolding group_rules
group_rules-Groups [] st h grouped = (st, refl, (grouped, λ k v. ground arith))
group_rules-Groups (rule ∷ rules) st h grouped = elim (list-cases rule.api_groups) [
  | inl nothing ↦ ground (arith, h, nothing)
  | inr (g, gs, is) ↦
      let (st', run, (grouped', same)) =
        group_rules-Groups rules (group_resources g rule rule.resources st) (ground (arith, h))
          (group_resources-IsGrouped g rule rule.resources st (ground (arith, h, is)) grouped) in
      (
        st',
        group_rules-cons g gs rule rules st is ∙ run,
        (
          grouped',
          λ k v.
              same k v
              ∙ rw (granted-group_resources k v g rule rule.resources st) (ground (arith, is)),
        ),
      )
]

permits_name-listed_rules :
    (names : List String) (rules : List (String × PolicyRule)) (k v : String)
    → ((n : String) (rule : PolicyRule) → lookup n rules ≡ some rule → IsKeyed n rule)
    → any (permits_name k v) (listed_rules names rules)
      ≡ (elem k names && granted k v (record { names = names; rules = rules }))
unfolding listed_rules
permits_name-listed_rules [] rules k v keyed = refl
permits_name-listed_rules (n ∷ names) rules k v keyed = elim (Option-cases (lookup n rules)) [
  | inl new ↦ ground (arith, permits_name-listed_rules names rules k v keyed, eq_iff n k)
  | inr (rule, there) ↦
      let (g, r, a, b, c, _) = keyed n rule there in
      ground (arith, permits_name-listed_rules names rules k v keyed, eq_iff n k, a, b, c)
]

listed_rules-fine :
    (names : List String) (rules : List (String × PolicyRule))
    → ((n : String) (rule : PolicyRule) → lookup n rules ≡ some rule → IsKeyed n rule)
    → all group_fine (listed_rules names rules) ≡ true
unfolding listed_rules
listed_rules-fine [] rules keyed = refl
listed_rules-fine (n ∷ names) rules keyed = elim (Option-cases (lookup n rules)) [
  | inl new ↦ rw new (listed_rules-fine names rules keyed)
  | inr (rule, there) ↦
      let (g, r, a, b, c, p) = keyed n rule there in
      rw (there, a, p) (listed_rules-fine names rules keyed)
]

-- Where every recorded rule names a group for its first, without an underscore, as API groups are
-- named: `reorderRules` returns, and its rules permit a verb on a resource of a group exactly when the
-- recorded rules do.
pub reorder_rules-permits :
    (rules : List PolicyRule)
    → all has_group rules ≡ true
    → (out : List PolicyRule) × (reorder_rules rules ≡ some out)
      × ((group resource verb : String)
          → permits group resource verb out ≡ permits group resource verb rules)
unfolding reorder_rules
reorder_rules-permits rules h =
    let start : Grouped = record { names = []; rules = [] } in
    let (st, run, (grouped, same)) =
      group_rules-Groups rules start h
        (record { keyed = λ k rule. ground arith; listed = λ k. refl; once = λ k. ground arith }) in
    let out = listed_rules st.names st.rules in
    let out_fine = listed_rules-fine st.names st.rules grouped.keyed in
    let named : (k v : String) → any (permits_name k v) out ≡ any (permits_name k v) rules = λ k v.
      permits_name-listed_rules st.names st.rules k v grouped.keyed
      ∙ ground (arith, same k v, grouped.listed k, Option-cases (lookup k st.rules)) in
    (
      out,
      rw (run, reorder_rules) refl,
      λ g r v. elim (Bool-cases (plain g)) [
        | inl pg ↦
            sym (permits_name-eq-permits g r v out pg out_fine)
            ∙ named (group_resource_name g r) v
            ∙ permits_name-eq-permits g r v rules pg (has_group-fine rules h)
        | inr other ↦
            permits-other g r v out other out_fine
            ∙ sym (permits-other g r v rules other (has_group-fine rules h))
      ],
    )
