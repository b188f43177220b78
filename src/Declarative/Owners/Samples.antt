-- ===== src/Declarative/Owners/Samples.antt =====
-- Two owners, rendered as their names.
use Prim.Native.String.{◌++◌ as str_append}
use operator_toolkit.Prelude.{String, true, none, some, [], ◌∷◌, ◌≡◌, refl, ok}
use operator_toolkit.Declarative.Owners.{
  OwnerReference, OwnerEnv, get_owner_ref_template_param_for, render_owner_refs,
  set_owner_reference,
}

abbrev names : OwnerEnv String String String
names = record {
  parse_template = ok "- ";
  execute = λ tmpl param. ok (str_append tmpl param.param_name);
  parse = λ refs. ok refs;
  set_owner_references = λ parsed obj. ok (str_append obj parsed);
  wrap = λ message e. str_append message e;
}

abbrev owner : String → OwnerReference
owner n = record {
  api_version = "v1";
  kind = "Game";
  name = n;
  uid = "1";
  controller = some true;
  block_owner_deletion = none;
}

owned : set_owner_reference names (owner "a" ∷ owner "b" ∷ []) "manifest " ≡ ok "manifest - a- b"
unfolding set_owner_reference render_owner_refs get_owner_ref_template_param_for
owned = refl
