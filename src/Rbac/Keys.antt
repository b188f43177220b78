-- ===== src/Rbac/Keys.antt =====
-- rbac/client/result.go, `getGroupResourceName`: where two groups and resources share a name.
use Prim.Native.Char.{Char, char, code}
use Prim.Native.String.append
use Prim.Native.String.{[], ◌∷◌, ◌++◌}
use text.Mathlib.TextLemmas.{append_cancel_left, head-eq_of_cons-eq, tail-eq_of_cons-eq}
use operator_toolkit.Prelude.{String, Bool, true, not, ◌&&◌, ◌≡◌, refl, sym, ap, ◌∙◌, arith, nat_eq}

-- Is there no underscore in the text? There is none in the name of an API group.
abbrev pub plain : String → Bool
plain [] = true
plain (c ∷ s) = not (nat_eq (code c) 95) && plain s

abbrev underscore : Char
underscore = char 95 tt

pub joined_inv :
    (g h r s : String)
    → plain g ≡ true
    → plain h ≡ true
    → g ++ ("_" ++ r) ≡ h ++ ("_" ++ s)
    → (g ≡ h) × (r ≡ s)
joined_inv [] [] r s pg ph e =
    (refl, append_cancel_left "_" r s (sym (append.nil ("_" ++ r)) ∙ e ∙ append.nil ("_" ++ s)))
joined_inv [] (c ∷ h) r s pg ph e =
    let same : underscore ≡ c = head-eq_of_cons-eq (
      sym (append.cons underscore [] r)
      ∙ sym (append.nil ("_" ++ r))
      ∙ e
      ∙ append.cons c h ("_" ++ s)) in
    absurd (ground (arith, ap code same, ph))
joined_inv (c ∷ g) [] r s pg ph e =
    let same : underscore ≡ c = head-eq_of_cons-eq (
      sym (append.cons underscore [] s)
      ∙ sym (append.nil ("_" ++ s))
      ∙ sym e
      ∙ append.cons c g ("_" ++ r)) in
    absurd (ground (arith, ap code same, pg))
joined_inv (c ∷ g) (d ∷ h) r s pg ph e =
    let whole : c ∷ (g ++ ("_" ++ r)) ≡ d ∷ (h ++ ("_" ++ s)) =
      sym (append.cons c g ("_" ++ r)) ∙ e ∙ append.cons d h ("_" ++ s) in
    let (rest, last) =
      joined_inv g h r s (ground (arith, pg)) (ground (arith, ph)) (tail-eq_of_cons-eq whole) in
    ((λ i. head-eq_of_cons-eq whole i ∷ rest i), last)
