-- ===== src/Engine/Core.antt =====
-- The steps that the handlers share (pkg/engine/core.go, and `updateTaskRunning` of parallel.go):
-- every change of a task is a status update followed by a progress update.
pub mod Kept
pub mod Laws
pub mod Frame
pub mod Outcome
pub mod SharedData
use pocket_flow_go.Engine.{
  Engine, M, object_of, ◌>>◌, pure, ◌>>=◌, now_unix, gen_id, modify, statement, to_json,
}
use pocket_flow_go.Store.{Task}
use pocket_flow_go.Value.{at, delete, put, Object, as_object, size, Value, obj, empty, null, str}
use pocket_flow_go.Flow.{FlowDef, find_next, DefNode, EmbeddedFlow}
use pocket_flow_go.Prelude.{
  Option, String, List, if◌then◌else◌, ℕ, ◌+◌, ◌==◌, nat_eq, some, none, [], ◌∷◌,
}
use pocket_flow_go.Path.{resolve_ref, get_by_path}
use pocket_flow_go.Store.Runs.{save_node_run}
use pocket_flow_go.Store.Tasks.{
  update_task_progress, update_task_status, update_task_progress_owned, update_task_status_owned,
}
use pocket_flow_go.Error.{Err, ok, err}
use pocket_flow_go.Prelude.Text.{has_prefix}

-- The input of a handler (pkg/engine/types.go).
pub record NodeRunInput (F : Type 0) : Type 0 where
  pub task : Task
  pub flow_def : FlowDef F
  pub node : DefNode F
  pub subflow : Option (EmbeddedFlow F)
  pub node_key : String
  pub shared : Object F
  pub params : Object F
  pub input : Value F

-- The status that a finished node leaves: the two branches of `finishNode` on the error.
unfoldable pub finished_status : Option Err → String → String
finished_status none next = if next == "" then "completed" else "running"
finished_status (some x) next = if next == "" then "failed" else "running"

module _ {F : Type 0} (e : Engine F) where
  unfoldable pub put_status : String → String → M (Unit {0})
  unfolding update_task_status update_task_status_owned
  put_status id status =
      if e.owner == ""
      then (do now ← now_unix e; modify (update_task_status now id status))
      else (do
        stamp ← now_unix e
        now ← now_unix e
        modify (update_task_status_owned stamp now id e.owner status))

  unfoldable pub put_progress : String → String → String → Object F → ℕ → M (Unit {0})
  unfolding update_task_progress update_task_progress_owned
  put_progress id node action shared steps =
      if e.owner == ""
      then (do
        now ← now_unix e
        modify (update_task_progress now id node action (to_json e (obj shared)) steps))
      else (do
        stamp ← now_unix e
        now ← now_unix e
        modify (
            update_task_progress_owned stamp now id e.owner node action (to_json e (obj shared))
              steps))

  -- The two updates, one after the other.
  unfoldable pub save_step : String → String → String → String → Object F → ℕ → M (Unit {0})
  unfolding put_status put_progress
  save_step id status node action shared steps = do
    put_status id status
    put_progress id node action shared steps

  -- updateTaskRunning, and the waiting branches of the timer, event and approval nodes
  unfoldable pub update_task_running : Task → String → Object F → M (Unit {0})
  unfolding save_step
  update_task_running t curr shared = save_step t.id "running" curr "" shared (t.step_count + 1)

  unfoldable pub suspend_task : Task → String → Object F → M (Option Err)
  unfolding save_step
  suspend_task t status shared = do
    save_step t.id status t.current_node_key t.last_action shared t.step_count
    pure none

  unfoldable pub record_run_detailed :
      Task
      → String
      → ℕ
      → String
      → String
      → String
      → Object F
      → Value F
      → Value F
      → String
      → String
      → String
      → String
      → String
      → M (Unit {0})
  unfolding save_node_run
  record_run_detailed t curr attempt status sub branch prep input output failure action wid wurl
        log =
      do
        started ← now_unix e
        finished ← now_unix e
        id ← gen_id e "run"
        statement (
            save_node_run id (record {
              id = "";
              task_id = t.id;
              node_key = curr;
              attempt_no = attempt;
              status = status;
              sub_status = sub;
              branch_id = branch;
              prep_json = to_json e (obj prep);
              exec_input_json = to_json e input;
              exec_output_json = to_json e output;
              error_text = failure;
              action = action;
              started_at = started;
              finished_at = finished;
              worker_id = wid;
              worker_url = wurl;
              log_path = log;
            }))
        pure tt

  unfoldable pub record_run :
      Task
      → String
      → ℕ
      → String
      → Object F
      → Value F
      → Value F
      → String
      → String
      → String
      → String
      → String
      → M (Unit {0})
  unfolding record_run_detailed
  record_run t curr attempt status prep input output failure action wid wurl log =
      record_run_detailed t curr attempt status "" "" prep input output failure action wid wurl log

  unfoldable pub finish_node :
      Task → FlowDef F → String → String → Object F → ℕ → Option Err → M (Option Err)
  unfolding save_step finished_status find_next
  finish_node t def curr action shared steps exec_err = do
    let next = find_next def.edges curr action
    save_step t.id (finished_status exec_err next) next action shared steps
    pure none

  unfoldable pub cancel_task : Task → M (Option Err)
  unfolding save_step save_node_run
  cancel_task t = do
    let shared = object_of e t.shared_json
    save_step t.id "canceled" "" "canceled" shared t.step_count
    started ← now_unix e
    finished ← now_unix e
    id ← gen_id e "run"
    saved ← statement (
        save_node_run id (record {
          id = "";
          task_id = t.id;
          node_key = t.current_node_key;
          attempt_no = 0;
          status = "canceled";
          sub_status = "";
          branch_id = "";
          prep_json = to_json e (obj empty);
          exec_input_json = to_json e null;
          exec_output_json = to_json e null;
          error_text = "";
          action = "canceled";
          started_at = started;
          finished_at = finished;
          worker_id = "";
          worker_url = "";
          log_path = "";
        }))
    pure (elim saved [ ok u ↦ none | err x ↦ some x ])

  -- The value of one entry of `InputMap`.
  mapped_input : Object F → Object F → String → Value F
  unfolding resolve_ref has_prefix
  mapped_input shared params path =
      if has_prefix path "$" then resolve_ref shared params null path else str path

  input_fields : Object F → Object F → List (String × String) → Object F
  unfolding mapped_input put
  input_fields shared params [] = empty
  input_fields shared params ((k, path) ∷ rest) =
      put k (mapped_input shared params path) (input_fields shared params rest)

  unfoldable pub build_input : DefNode F → Object F → Object F → Value F
  unfolding input_fields resolve_ref has_prefix get_by_path
  build_input node shared params = elim node.prep.input_map [
    | some fields ↦ obj (input_fields shared params fields)
    | none ↦
        if node.prep.input_key == ""
        then null
        else if has_prefix node.prep.input_key "$"
        then resolve_ref shared params null node.prep.input_key
        else get_by_path (obj shared) node.prep.input_key
  ]

-- The runtime state of waiting nodes: rt, _ := shared["_rt"].(map[string]interface{})
unfoldable pub runtime_of : {F : Type 0} → Object F → Object F
unfolding at as_object
runtime_of shared = as_object (at "_rt" shared)

-- delete(rt, key), and "_rt" itself when nothing is left in it
unfoldable pub clear_runtime : {F : Type 0} → String → Object F → Object F → Object F
unfolding delete put size
clear_runtime key rt shared =
    if nat_eq (size (delete key rt)) 0
    then delete "_rt" shared
    else put "_rt" (obj (delete key rt)) shared

-- rt[key] = state; shared["_rt"] = rt
unfoldable pub keep_runtime : {F : Type 0} → String → Object F → Object F → Object F → Object F
unfolding put
keep_runtime key state rt shared = put "_rt" (obj (put key (obj state) rt)) shared

-- `if key != "" { shared[key] = v }`
unfoldable pub put_output : {F : Type 0} → String → Value F → Object F → Object F
unfolding put
put_output key v shared = if key == "" then shared else put key v shared
