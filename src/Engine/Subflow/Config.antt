-- ===== src/Engine/Subflow/Config.antt =====
-- How a sub-node is executed: its parameters, its input and its overrides (pkg/engine/subflow.go).
use pocket_flow_go.Flow.{DefNode, zero_node, ExecSpec}
use pocket_flow_go.Engine.Fanout.{override_node, override_params, non_empty_or}
use pocket_flow_go.Value.{put, Object, at, put_all, Value, empty, obj, null}
use pocket_flow_go.Prelude.Text.{strip_prefix}
use pocket_flow_go.Prelude.{
  Option, String, List, [], find_first, if◌then◌else◌, some, ◌∷◌, ◌==◌, none, ◌&&◌, not,
}

module _ {F : Type 0} where
  -- The first specification of `SubflowExecs` for the sub-node.
  abbrev sub_spec : DefNode F → String → Option (ExecSpec F)
  sub_spec node curr = find_first (λ (sp : ExecSpec F). sp.node == curr) node.subflow_execs

  unfoldable pub sub_params : DefNode F → DefNode F → Object F → String → Object F
  unfolding override_params put_all
  sub_params node sn params curr =
      override_params (sub_spec node curr) (put_all sn.params (put_all params empty))

  -- "$params.k" reads the parameter k, any other text the inner map.
  sub_ref : Object F → Object F → String → Value F
  unfolding strip_prefix at
  sub_ref params sub_shared path = elim (strip_prefix "$params." path) [
    | some k ↦ at k params
    | none ↦ at path sub_shared
  ]

  sub_fields : Object F → Object F → List (String × String) → Object F
  unfolding sub_ref put
  sub_fields params sub_shared [] = empty
  sub_fields params sub_shared ((k, path) ∷ rest) =
      put k (sub_ref params sub_shared path) (sub_fields params sub_shared rest)

  unfoldable pub sub_input : DefNode F → Object F → Object F → Value F
  unfolding sub_fields sub_ref
  sub_input sn params sub_shared = elim sn.prep.input_map [
    | some fields ↦ obj (sub_fields params sub_shared fields)
    | none ↦ if sn.prep.input_key == "" then null else sub_ref params sub_shared sn.prep.input_key
  ]

  -- What the sub-node leaves open comes from the node around it.
  inherit : DefNode F → DefNode F → DefNode F
  inherit node sn = record zero_node {
    service = sn.service;
    exec_type = non_empty_or sn.exec_type node.exec_type;
    func = non_empty_or sn.func node.func;
    script = if sn.script.cmd == "" && not (node.script.cmd == "") then node.script else sn.script;
  }

  with_spec : Option (ExecSpec F) → DefNode F → DefNode F
  unfolding override_node
  with_spec none eff = eff
  with_spec (some sp) eff = record (override_node (some sp) eff) {
    service = non_empty_or sp.service eff.service;
  }

  unfoldable pub sub_config : DefNode F → String → DefNode F → DefNode F
  unfolding inherit with_spec
  sub_config node curr sn = with_spec (sub_spec node curr) (inherit node sn)
