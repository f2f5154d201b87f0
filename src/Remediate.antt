-- ===== src/Remediate.antt =====
-- internal/remediate/proposal.go: what every layer says of an action. `Operation` is a string type
-- in the source and `Reversibility` an `int`, so both keep values that no constant names.
use ma_klaude.Prelude.{String, List, [], ◌∷◌, if◌then◌else◌, ◌==◌, string_comparable}
use ma_klaude.Prelude.Int.{ℤ, pos}
use Prim.Native.String.{◌++◌}

abbrev pub Operation : Type 0
Operation = String

abbrev pub op_rollout_restart : Operation
op_rollout_restart = "rolloutrestart"

abbrev pub op_rollback_revision : Operation
op_rollback_revision = "rollbackrevision"

abbrev pub op_delete_pod : Operation
op_delete_pod = "deletepod"

abbrev pub op_cordon_node : Operation
op_cordon_node = "cordonnode"

-- `Catalog`.
abbrev pub catalog : List Operation
catalog = op_rollout_restart ∷ op_rollback_revision ∷ op_delete_pod ∷ op_cordon_node ∷ []

abbrev pub Reversibility : Type 0
Reversibility = ℤ

abbrev pub reversible : Reversibility
reversible = pos 0

abbrev pub recreated_by_controller : Reversibility
recreated_by_controller = pos 1

abbrev pub irreversible : Reversibility
irreversible = pos 2

pub record Target : Type 0 where
  pub cluster : String
  pub kind : String
  pub namespace : String
  pub name : String
  pub resource_version : String

-- `Target.String`: the cluster and the resource version are not part of it.
unfoldable pub target_string : Target → String
target_string t =
    if t.namespace == ""
    then t.kind ++ ("/" ++ t.name)
    else t.kind ++ ("/" ++ (t.namespace ++ ("/" ++ t.name)))
