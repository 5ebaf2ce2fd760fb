-- ===== src/Engine/Choice.antt =====
-- Choice nodes (pkg/engine/choice.go).
pub mod Laws
use pocket_flow_go.Engine.{Engine, M, ◌>>◌}
use pocket_flow_go.Engine.Core.{NodeRunInput, record_run, finish_node, put_output}
use pocket_flow_go.Prelude.{String, List, if◌then◌else◌, ◌==◌, not, ◌∷◌, Option, [], ◌+◌, none}
use pocket_flow_go.Expr.{eval_expr}
use pocket_flow_go.Flow.{pick_action, ChoiceCase}
use pocket_flow_go.Path.{is_null}
use pocket_flow_go.Value.{obj, field, empty, str, null}
use pocket_flow_go.Error.{Err}

module _ {F : Type 0} (e : Engine F) where
  -- The action of the first case whose expression holds.
  unfoldable pub first_case : NodeRunInput F → List (ChoiceCase F) → String
  unfolding eval_expr
  first_case inp [] = ""
  first_case inp (cc ∷ rest) =
      if eval_expr e.rt inp.shared inp.params inp.input cc.expr
      then cc.action
      else first_case inp rest

  -- `if action == "" { action = other }`
  abbrev or_else : String → String → String
  or_else action other = if action == "" then other else action

  keyed_action : NodeRunInput F → String
  unfolding pick_action
  keyed_action inp =
      or_else
        (or_else
          (if is_null inp.input
            then ""
            else pick_action (obj (field "v" inp.input empty)) inp.node.post.action_key)
          (pick_action (obj inp.shared) inp.node.post.action_key))
        inp.node.default_action

  unfoldable pub choice_action : NodeRunInput F → String
  unfolding first_case keyed_action
  choice_action inp =
      let action = first_case inp inp.node.choice_cases in
      if not (action == "")
      then action
      else if not (inp.node.post.action_static == "")
      then inp.node.post.action_static
      else if not (inp.node.post.action_key == "")
      then keyed_action inp
      else inp.node.default_action

  unfoldable pub run_choice : NodeRunInput F → M (Option Err)
  unfolding choice_action record_run finish_node put_output
  run_choice inp = do
    let action = choice_action inp
    let shared = put_output inp.node.post.output_key inp.input inp.shared
    record_run e inp.task inp.node_key 1 "ok"
        (field "input_key" (str inp.node.prep.input_key) empty) inp.input null "" action "" "" ""
    finish_node e inp.task inp.flow_def inp.node_key action shared (inp.task.step_count + 1) none
