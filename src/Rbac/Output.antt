-- ===== src/Rbac/Output.antt =====
-- rbac/client/result.go, `Result`: the roles and the errors are written.
use operator_toolkit.Prelude.{
  String, Bool, true, false, not, ◌&&◌, Option, none, some, List, [], ◌∷◌, if◌then◌else◌, Result,
  ok, err,
}
use operator_toolkit.Rbac.{PolicyRule, Recorder, reorder_rules}

abbrev pub yaml_separator : String
yaml_separator = "\n---\n"

-- The two writers on a world `W`, the second of which may be nil, and the marshalling of a role.
pub record OutputEnv (E W : Type 0) : Type 0 where
  pub marshal_role : List PolicyRule → Result E String
  pub marshal_cluster_role : List PolicyRule → Result E String
  pub write_manifest : String → W → Option E × W
  pub has_error_writer : Bool
  pub write_error : String → W → Option E × W
  pub error_text : E → String
  pub wrap : String → E → E

abbrev pub is_none_left : {A : Type 0} → List A → Bool
is_none_left [] = true
is_none_left (x ∷ xs) = false

module _ {E W : Type 0} (env : OutputEnv E W) where
  -- A write, with its error wrapped, and what follows it.
  abbrev then_write :
      (text message : String) → (String → W → Option E × W) → (W → Option E × W) → W → Option E × W
  then_write text message write next w =
      let (failed, w') = write text w in
      elim failed [ some e ↦ (some (env.wrap message e), w') | none ↦ next w' ]

  unfoldable pub write_result : Result E String → W → Option E × W
  write_result (err e) w = (some (env.wrap "failed to marshal role" e), w)
  write_result (ok m) w =
      then_write yaml_separator "failed to write yaml separator" env.write_manifest
        (then_write m "failed to write RBAC manifest" env.write_manifest (λ w'. (none, w'))) w

  unfoldable pub write_errors : List E → W → Option E × W
  write_errors [] w = (none, w)
  write_errors (c_err ∷ errors) w =
      then_write (env.error_text c_err) "failed to write rbac client recorder errors"
        env.write_error (write_errors errors) w

  -- From the reordered rules on.
  unfoldable pub write_all : (role cluster_role : List PolicyRule) → List E → W → Option E × W
  unfolding write_result write_errors
  write_all role cluster_role errors w =
      let (failed, w1) = write_result (env.marshal_role role) w in
      elim failed [
        | some e ↦ (some e, w1)
        | none ↦
            let (failed', w2) = write_result (env.marshal_cluster_role cluster_role) w1 in
            elim failed' [
              | some e ↦ (some e, w2)
              | none ↦
                  if env.has_error_writer && not (is_none_left errors)
                  then then_write "Errors during rbac client recording:\n"
                      "failed to write to rbac client errorWriter" env.write_error
                      (write_errors errors) w2
                  else (none, w2)
            ]
      ]

  -- The client with the reordered rules; `none` where `reorderRules` panics.
  unfoldable pub result : Recorder E → W → Option (Option E × (Recorder E × W))
  unfolding write_all
  result c w = elim (reorder_rules c.role_rules) [
    | none ↦ none
    | some role ↦ elim (reorder_rules c.cluster_role_rules) [
      | none ↦ none
      | some cluster_role ↦ some (
          let (failed, w') = write_all role cluster_role c.errors w in
          (failed, (record c { role_rules = role; cluster_role_rules = cluster_role }, w')))
    ]
  ]
