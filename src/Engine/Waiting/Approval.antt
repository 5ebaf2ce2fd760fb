-- ===== src/Engine/Waiting/Approval.antt =====
-- Nodes that wait for an approval (pkg/engine/approval.go).
pub mod Laws
use pocket_flow_go.Engine.{Engine, M, ◌>>◌, pure}
use pocket_flow_go.Prelude.{
  String, Bool, false, if◌then◌else◌, ◌==◌, not, true, Option, ◌<>◌, ◌+◌, none,
}
use pocket_flow_go.Value.{Value, as_object, bool, at, str, obj, field, null, empty}
use pocket_flow_go.Flow.{pick_action}
use pocket_flow_go.Engine.Core.{
  runtime_of, NodeRunInput, put_output, clear_runtime, record_run, finish_node, keep_runtime,
  update_task_running,
}
use pocket_flow_go.Engine.Waiting.{text_param}
use pocket_flow_go.Path.{resolve_ref}
use pocket_flow_go.Error.{Err}

module _ {F : Type 0} (e : Engine F) where
  -- val != nil && val != ""
  unfoldable pub is_decided : Value F → Bool
  is_decided null = false
  is_decided (str s) = not (s == "")
  is_decided _ = true

  -- The `switch vv := val.(type)`.
  verdict : String → Value F → String
  verdict action (bool true) = "approved"
  verdict action (bool false) = "rejected"
  verdict action (str s) = if s == "" then action else s
  verdict action _ = action

  unfoldable pub approval_action : NodeRunInput F → Value F → String
  unfolding pick_action verdict
  approval_action inp val =
      if inp.node.post.action_key == ""
      then verdict inp.node.post.action_static val
      else pick_action (obj (field "approval" val empty)) inp.node.post.action_key

  unfoldable pub run_approval : NodeRunInput F → M (Option Err)
  unfolding runtime_of as_object at text_param resolve_ref is_decided approval_action put_output
      clear_runtime record_run finish_node keep_runtime update_task_running
  run_approval inp =
      let rt = runtime_of inp.shared in
      let key = "ap:" <> inp.node_key in
      let approval_key = text_param "approval_key" inp.params in
      let val = resolve_ref inp.shared inp.params inp.input approval_key in
      if is_decided val
      then (do
        let action = approval_action inp val
        let shared = clear_runtime key rt (put_output inp.node.post.output_key val inp.shared)
        record_run e inp.task inp.node_key 1 "ok" (field "approval_key" (str approval_key) empty)
            inp.input val "" action "" "" ""
        finish_node e inp.task inp.flow_def inp.node_key action shared (inp.task.step_count + 1)
            none)
      else (do
        update_task_running e inp.task inp.node_key
            (keep_runtime key (as_object (at key rt)) rt inp.shared)
        pure none)
