-- ===== src/Server/Tasks.antt =====
-- Creating, cancelling, signalling and stepping tasks (pkg/server/server.go).
pub mod Laws
use pocket_flow_go.Engine.{
  Engine, M, ◌>>=◌, gets, now_unix, gen_id, ◌>>◌, modify, statement, object_of, to_json,
}
use pocket_flow_go.Prelude.{String, if◌then◌else◌, ℕ, ◌==◌, none, ◌||◌, some}
use pocket_flow_go.Store.Tasks.{create_task, get_task, update_task_status, update_task_progress}
use pocket_flow_go.Store.Flows.{latest_published_version, get_flow_version_by_flow_id_and_version}
use pocket_flow_go.Error.{message, Err, no_rows, err, ok}
use pocket_flow_go.Engine.RunOnce.{run_once}
use pocket_flow_go.Store.{FlowVersion}
use pocket_flow_go.Server.{Response, respond_error, respond_ok, respond, id_body}
use pocket_flow_go.Value.{put, Value, obj}
use pocket_flow_go.Prelude.Int.{ℤ, eq_ℤ, pos}

-- What a handler answers to an error of the store, where a missing row is told apart.
unfoldable pub store_error : Err → M Response
unfolding message
store_error no_rows = respond_error 404 "not found"
store_error x = respond_error 500 (message x)

module _ {F : Type 0} (e : Engine F) where
  -- handleTasks, POST: a task of the latest published version, or of the version that is named.
  create_from : FlowVersion → String → M Response
  unfolding create_task message
  create_from fv params_json =
      let start = e.decode_start fv.definition_json in
      if start == "" then respond_error 400 "no start" else (do
        id ← gen_id e "task"
        created ← now_unix e
        updated ← now_unix e
        made ← statement (create_task created updated id fv.id params_json "" start)
        elim made [
          | err x ↦ respond_error 500 (message x)
          | ok task_id ↦ respond 200 (id_body task_id)
        ])

  unfoldable pub handle_create_task : String → ℤ → String → M Response
  unfolding latest_published_version get_flow_version_by_flow_id_and_version create_from message
  handle_create_task flow_id version params_json = do
    fv ← gets (
        if eq_ℤ version (pos 0)
        then latest_published_version flow_id
        else get_flow_version_by_flow_id_and_version flow_id version)
    elim fv [ err x ↦ respond_error 500 (message x) | ok v ↦ create_from v params_json ]

  unfoldable pub handle_cancel : String → M Response
  unfolding update_task_status
  handle_cancel id = do now ← now_unix e; modify (update_task_status now id "canceling"); respond_ok

  unfoldable pub handle_task_signal : String → String → Value F → M Response
  unfolding get_task update_task_progress put store_error
  handle_task_signal id key value =
      if id == "" || key == "" then respond_error 400 "bad request" else (do
        found ← gets (get_task id)
        elim found [
          | err x ↦ store_error x
          | ok t ↦ (do
            let shared = put key value (object_of e t.shared_json)
            now ← now_unix e
            modify (
                update_task_progress now id t.current_node_key "" (to_json e (obj shared))
                  t.step_count)
            respond_ok)
        ])

  -- handleRunOnce: an engine of its own, whose owner is the request's or "manual".
  abbrev manual_engine : String → Engine F
  manual_engine owner = record e {
    owner = if owner == "" then "manual" else owner;
    local_funcs = λ name. none;
  }

  run_code : String → ℕ
  run_code s = if s == "lease_mismatch" || s == "lease_expired" then 409 else 500

  unfoldable pub handle_run_once : String → String → M Response
  unfolding run_once message run_code
  handle_run_once id owner = do
    done ← run_once (manual_engine owner) id
    elim done [ none ↦ respond_ok | some x ↦ respond_error (run_code (message x)) (message x) ]
