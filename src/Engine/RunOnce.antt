-- ===== src/Engine/RunOnce.antt =====
-- One step of a task (`RunOnce`, pkg/engine/core.go).
pub mod Laws
pub mod Forward
pub mod Progress
use pocket_flow_go.Engine.{Engine, M, object_of, ◌>>=◌, gets, pure, now_unix}
use pocket_flow_go.Store.{Task, FlowVersion}
use pocket_flow_go.Engine.Core.{cancel_task, build_input, NodeRunInput}
use pocket_flow_go.Store.Tasks.{get_task}
use pocket_flow_go.Flow.{node_at, DefNode, FlowDef, zero_node}
use pocket_flow_go.Value.{put_all, Object, empty}
use pocket_flow_go.Engine.Choice.{run_choice}
use pocket_flow_go.Prelude.{String, Option, if◌then◌else◌, none, ◌==◌, some, leb}
use pocket_flow_go.Store.Flows.{get_flow_version_by_id}
use pocket_flow_go.Engine.Parallel.{run_parallel}
use pocket_flow_go.Engine.Subflow.{run_subflow}
use pocket_flow_go.Error.{Err, err, ok, text}
use pocket_flow_go.Engine.Waiting.Timer.{run_timer}
use pocket_flow_go.Engine.Foreach.{run_foreach}
use pocket_flow_go.Engine.Waiting.Event.{run_wait_event}
use pocket_flow_go.Engine.Waiting.Approval.{run_approval}
use pocket_flow_go.Engine.Executor.Node.{run_executor_node}

module _ {F : Type 0} (e : Engine F) where
  -- The switch on the kind of the node.
  unfoldable pub dispatch : NodeRunInput F → M (Option Err)
  unfolding run_choice run_parallel run_subflow run_timer run_foreach run_wait_event run_approval
      run_executor_node
  dispatch inp =
      if inp.node.kind == "choice"
      then run_choice e inp
      else if inp.node.kind == "parallel"
      then run_parallel e inp
      else elim (if inp.node.kind == "subflow" then inp.subflow else none) [
        | some flow ↦ run_subflow e inp flow
        | none ↦
            if inp.node.kind == "timer"
            then run_timer e inp
            else if inp.node.kind == "foreach"
            then run_foreach e inp
            else if inp.node.kind == "wait_event"
            then run_wait_event e inp
            else if inp.node.kind == "approval"
            then run_approval e inp
            else run_executor_node e inp
      ]

  -- The node's defaults under the task's parameters.
  unfoldable pub run_params : DefNode F → Task → Object F
  unfolding put_all
  run_params node t = put_all (object_of e t.params_json) (put_all node.params empty)

  -- The context of the current node.
  unfoldable pub node_input : Task → FlowDef F → NodeRunInput F
  unfolding node_at run_params build_input
  node_input t def =
      let found =
        node_at (record { node = zero_node; subflow = none }) t.current_node_key def.nodes in
      let shared = object_of e t.shared_json in
      let params = run_params found.node t in
      record {
        task = t;
        flow_def = def;
        node = found.node;
        subflow = found.subflow;
        node_key = t.current_node_key;
        shared = shared;
        params = params;
        input = build_input e found.node shared params;
      }

  unfoldable run_definition : Task → FlowVersion → M (Option Err)
  unfolding dispatch node_input
  run_definition t fv = elim (e.decode_flow fv.definition_json) [
    | none ↦ pure (some (text "invalid definition"))
    | some def ↦ dispatch (node_input t def)
  ]

  -- The leased task, from the cancellation on.
  unfoldable pub run_leased : Task → M (Option Err)
  unfolding cancel_task get_flow_version_by_id run_definition
  run_leased t = if t.status == "canceling" then cancel_task e t else (do
    fv ← gets (get_flow_version_by_id t.flow_version_id)
    elim fv [ err x ↦ pure (some x) | ok v ↦ run_definition t v ])

  unfoldable run_owned : Task → M (Option Err)
  unfolding run_leased
  run_owned t =
      if t.lease_owner == e.owner
      then (do
        now ← now_unix e
        if leb t.lease_expiry now then pure (some (text "lease_expired")) else run_leased t)
      else pure (some (text "lease_mismatch"))

  unfoldable pub run_once : String → M (Option Err)
  unfolding get_task run_leased run_owned
  run_once id = do
    found ← gets (get_task id)
    elim found [
      | err x ↦ pure (some x)
      | ok t ↦ if e.owner == "" then run_leased t else run_owned t
    ]
