-- ===== src/Declarative/Owners.antt =====
-- declarative/transform/transform.go: the transform that sets the owner references.
pub mod Samples
use Prim.Native.String.{◌++◌ as str_append}
use operator_toolkit.Prelude.{
  String, Bool, true, false, Option, none, some, List, [], ◌∷◌, Result, ok, err, ◌>>=◌,
}
use operator_toolkit.Declarative.{TransformFunc}

-- `metav1.OwnerReference`
pub record OwnerReference : Type 0 where
  pub api_version : String
  pub kind : String
  pub name : String
  pub uid : String
  pub controller : Option Bool
  pub block_owner_deletion : Option Bool

pub record OwnerRefTemplateParam : Type 0 where
  pub param_api_version : String
  pub param_kind : String
  pub param_name : String
  pub param_uid : String
  pub param_controller : Bool
  pub param_block_owner_deletion : Bool

-- html/template on `ownerRefTemplate`, kyaml's pipes and the errors' wrapping: parameters.
pub record OwnerEnv (E Node Template : Type 0) : Type 0 where
  pub parse_template : Result E Template
  pub execute : Template → OwnerRefTemplateParam → Result E String
  pub parse : String → Result E Node
  -- The write of a parsed node at metadata.ownerReferences.
  pub set_owner_references : Node → Node → Result E Node
  pub wrap : String → E → E

abbrev pub or_false : Option Bool → Bool
or_false none = false
or_false (some b) = b

unfoldable pub get_owner_ref_template_param_for : OwnerReference → OwnerRefTemplateParam
get_owner_ref_template_param_for owner_ref = record {
  param_api_version = owner_ref.api_version;
  param_kind = owner_ref.kind;
  param_name = owner_ref.name;
  param_uid = owner_ref.uid;
  param_controller = or_false owner_ref.controller;
  param_block_owner_deletion = or_false owner_ref.block_owner_deletion;
}

abbrev pub wrapped : {E A : Type 0} → (E → E) → Result E A → Result E A
wrapped f (ok a) = ok a
wrapped f (err e) = err (f e)

module _ {E Node Template : Type 0} (env : OwnerEnv E Node Template) where
  -- The loop over the references, with the texts so far.
  unfoldable pub render_owner_refs : Template → List OwnerReference → String → Result E String
  unfolding get_owner_ref_template_param_for
  render_owner_refs tmpl [] refs = ok refs
  render_owner_refs tmpl (owner_ref ∷ owner_refs) refs = do
    or_result ←
        wrapped (env.wrap "failed to execute OwnerReference template")
          (env.execute tmpl (get_owner_ref_template_param_for owner_ref))
    render_owner_refs tmpl owner_refs (str_append refs or_result)

  unfoldable pub set_owner_reference : List OwnerReference → TransformFunc E Node
  unfolding render_owner_refs
  set_owner_reference owner_refs obj = do
    tmpl ← wrapped (env.wrap "failed parsing OwnerReference template") env.parse_template
    refs ← render_owner_refs tmpl owner_refs ""
    parsed ← wrapped (env.wrap "failed to parse string OwnerReferences") (env.parse refs)
    env.set_owner_references parsed obj
