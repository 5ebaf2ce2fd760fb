-- ===== src/Server/Queue.antt =====
-- The pull mode's end points (pkg/server/server.go).
pub mod Laws
use pocket_flow_go.Engine.{
  Engine, M, to_json, ◌>>=◌, now_unix, gen_id, statement, ◌>>◌, modify, pure, gets,
}
use pocket_flow_go.Prelude.{String, if◌then◌else◌, ℕ, ◌==◌, List, none, some}
use pocket_flow_go.Store.{Task, NodeRun}
use pocket_flow_go.Value.{Value}
use pocket_flow_go.Store.Queue.{complete_queue_task, poll_queue}
use pocket_flow_go.Store.Runs.{update_node_run, save_node_run}
use pocket_flow_go.Store.Tasks.{get_task, update_task_status}
use pocket_flow_go.Path.{is_null}
use pocket_flow_go.Server.{Response, respond_error, respond, respond_ok, no_body, queue_body}
use pocket_flow_go.Error.{message, err, ok}

-- The body of `/api/queue/complete`; a result that is absent is nil.
pub record Completion (F : Type 0) : Type 0 where
  pub queue_id : String
  pub result : Value F
  pub error : String
  pub log_path : String
  pub run_id : String

module _ {F : Type 0} (e : Engine F) where
  unfoldable pub handle_queue_poll : String → List String → M Response
  unfolding poll_queue
  handle_queue_poll worker services = do
    now ← now_unix e
    task ← statement (poll_queue now worker services 60)
    elim task [ none ↦ respond 204 no_body | some q ↦ respond 200 (queue_body q) ]

  unfoldable pub handle_queue_update_run : String → String → M Response
  unfolding update_node_run
  handle_queue_update_run run_id status =
      if run_id == ""
      then respond_error 400 "run_id required"
      else (do modify (update_node_run run_id (λ r. record r { status = status })); respond_ok)

  module _ (c : Completion F) where
    abbrev pub run_status : String
    run_status = if c.error == "" then "ok" else "error"

    abbrev pub output_json : String
    output_json = if is_null c.result then "{}" else to_json e c.result

    abbrev completed_run : ℕ → NodeRun → NodeRun
    completed_run now r = record r {
      status = run_status;
      finished_at = now;
      log_path = c.log_path;
      error_text = c.error;
      exec_output_json = output_json;
    }

    fallback_run : Task → ℕ → ℕ → NodeRun
    fallback_run t started ended = record {
      id = "";
      task_id = t.id;
      node_key = t.current_node_key;
      attempt_no = 1;
      status = run_status;
      sub_status = "";
      branch_id = "";
      prep_json = "{}";
      exec_input_json = "{}";
      exec_output_json = output_json;
      error_text = c.error;
      action = "";
      started_at = started;
      finished_at = ended;
      worker_id = "queue-worker";
      worker_url = "queue";
      log_path = c.log_path;
    }

    unfoldable record_completion : Task → M (Unit {0})
    unfolding update_node_run save_node_run fallback_run
    record_completion t =
        if c.run_id == ""
        then (do
          started ← now_unix e
          ended ← now_unix e
          id ← gen_id e "run"
          statement (save_node_run id (fallback_run t started ended))
          pure tt)
        else (do now ← now_unix e; modify (update_node_run c.run_id (completed_run now)))

    unfoldable pub handle_queue_complete : M Response
    unfolding complete_queue_task get_task record_completion update_task_status message
    handle_queue_complete = do
      completed ← statement (complete_queue_task c.queue_id)
      elim completed [
        | err x ↦ respond_error 500 (message x)
        | ok task_id ↦ (do
          found ← gets (get_task task_id)
          elim found [
            | err x ↦ respond_error 404 "task not found"
            | ok t ↦ (do
              record_completion t
              now ← now_unix e
              modify (update_task_status now task_id "pending")
              respond_ok)
          ])
      ]
