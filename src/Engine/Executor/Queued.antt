-- ===== src/Engine/Executor/Queued.antt =====
-- Execution by the persistent queue (pkg/engine/executor_queue.go).
pub mod Laws
pub mod Latest
pub mod Enqueue
pub mod Kept
use pocket_flow_go.Engine.{Engine, M, to_json, ◌>>=◌, gen_id, gets, now_unix, pure, ◌>>◌, statement}
use pocket_flow_go.Prelude.{
  String, List, Option, ℕ, none, if◌then◌else◌, some, ◌∷◌, ◌==◌, [], true, ◌||◌,
}
use pocket_flow_go.Engine.Executor.Result.{ExecutorInput, ExecutorResult, failure, success}
use pocket_flow_go.Store.{NodeRun}
use pocket_flow_go.Value.{Value, obj, field, str, empty, null}
use pocket_flow_go.Store.Runs.{create_node_run, list_node_runs}
use pocket_flow_go.Store.Queue.{enqueue_task}
use pocket_flow_go.Error.{text, err, ok, async_pending}

-- The latest run of a node: the last of the list with its key.
unfoldable pub last_run : String → List NodeRun → Option NodeRun
last_run key [] = none
last_run key (r ∷ rs) = elim (last_run key rs) [
  | some later ↦ some later
  | none ↦ if r.node_key == key then some r else none
]

module _ {F : Type 0} (e : Engine F) (inp : ExecutorInput F) where
  -- The answer of a run that has ended or is under way; `none` where a new one is to be queued.
  unfoldable pub run_answer : NodeRun → Option (ExecutorResult F)
  run_answer r =
      if r.status == "ok"
      then some (elim (e.rt.unmarshal r.exec_output_json) [
        | none ↦ failure "queue" "queue" (text "failed to parse result")
        | some v ↦ record (success v r.worker_id "queue" r.log_path) { skip_record = true }
      ])
      else if r.status == "error"
      then some (record (failure r.worker_id "queue" (text r.error_text)) {
        log_path = r.log_path;
        skip_record = true;
      })
      else if r.status == "queued" || r.status == "running"
      then some (failure "queue" "queue" async_pending)
      else none

  unfoldable pub queued_run : String → ℕ → NodeRun
  queued_run id started = record {
    id = id;
    task_id = inp.task.id;
    node_key = inp.node_key;
    attempt_no = 1;
    status = "queued";
    sub_status = "";
    branch_id = "";
    prep_json = to_json e (obj (field "input_key" (str inp.node.prep.input_key) empty));
    exec_input_json = to_json e inp.input;
    exec_output_json = to_json e null;
    error_text = "";
    action = "";
    started_at = started;
    finished_at = 0;
    worker_id = "queue";
    worker_url = "queue";
    log_path = "";
  }

  abbrev pub queue_payload : String → Value F
  queue_payload run_id = obj (
      field "input" inp.input (field "params" (obj inp.params) (field "run_id" (str run_id) empty)))

  unfoldable pub enqueue : M (ExecutorResult F)
  unfolding queued_run create_node_run enqueue_task
  enqueue = do
    run_id ← gen_id e "run"
    started ← now_unix e
    statement (create_node_run (queued_run run_id started))
    id ← gen_id e "q"
    now ← now_unix e
    queued ← statement (
        enqueue_task now id inp.task.id inp.node_key inp.node.service
          (to_json e (queue_payload run_id)))
    elim queued [
      | err x ↦ pure (failure "" "" x)
      | ok qid ↦ pure (failure "queue" "queue" async_pending)
    ]

  abbrev answer_of : Option NodeRun → Option (ExecutorResult F)
  answer_of none = none
  answer_of (some r) = run_answer r

  unfoldable pub exec_queue : M (ExecutorResult F)
  unfolding list_node_runs last_run run_answer enqueue
  exec_queue = do
    runs ← gets (list_node_runs inp.task.id)
    elim (answer_of (last_run inp.node_key runs)) [ some res ↦ pure res | none ↦ enqueue ]
