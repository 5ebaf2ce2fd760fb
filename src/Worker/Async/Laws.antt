-- ===== src/Worker/Async/Laws.antt =====
-- What a round of the pull worker leaves in the history of runs.
use pocket_flow_go.Engine.{Engine, to_json, World, unix, returned, pure}
use pocket_flow_go.Worker.Async.{
  AsyncWorker, async_round, poll, execute_with_log, complete_task, execute, worked, run_logged,
  update_status, Work, executed, completion_of, completed, Round,
}
use pocket_flow_go.Value.{Value}
use pocket_flow_go.Prelude.{
  ℕ, ◌≡◌, none, String, some, ◌≢◌, false, ◌==◌, arith, eq_iff, refl, ap, suc, if◌then◌else◌,
}
use pocket_flow_go.Store.{NodeRun, QueueTask, Db, Task}
use pocket_flow_go.Worker.Async.Served.{server_api, work_of}
use pocket_flow_go.Server.Queue.{
  handle_queue_poll, handle_queue_update_run, handle_queue_complete, Completion,
}
use pocket_flow_go.Store.Queue.{poll_queue}
use pocket_flow_go.Store.Queue.Laws.{find_queued}
use pocket_flow_go.Store.Tasks.Laws.{find_task}
use pocket_flow_go.Engine.Executor.Queued.Latest.{RunsAre, RunsAre-update_where}
use pocket_flow_go.Error.{ok, err_string, Result, message, err}
use pocket_flow_go.Path.{is_null}
use pocket_flow_go.Engine.Core.Laws.{Ends, Ends-continue}
use pocket_flow_go.Store.Runs.{update_node_run}
use pocket_flow_go.Server.Queue.Laws.{Finished, handle_queue_complete-finishes}
use pocket_flow_go.Store.Sql.Laws.{All-map}

module _ {F : Type 0} (e : Engine F) (a : AsyncWorker F) where
  -- The worker's disk works.
  abbrev pub Ready : Type 0
  Ready =
      ((n : ℕ) → a.make_log_dir n ≡ none) × ((n : ℕ) (path : String) → a.create_file n path ≡ none)

  -- A run that has ended with that result, or with that error.
  abbrev pub Reported : Result (Value F) → NodeRun → Type 0
  Reported (ok v) x =
      (x.status ≡ "ok")
      × (x.exec_output_json ≡ (if is_null v then "{}" else to_json e v))
      × (x.worker_id ≡ "queue")
  Reported (err y) x =
      (x.status ≡ (if message y == "" then "ok" else "error"))
      × (x.error_text ≡ message y)
      × (x.worker_id ≡ "queue")

  abbrev running : String → World → World
  running run_id w = record w {
    db = update_node_run run_id (λ r. record r { status = "running" }) w.db;
  }

  run_logged-reports :
      (work : Work) (path : String) (w : World) (r : Result (Value F))
      → (a.run_id_of work.input_json == "") ≡ false
      → execute a work ≡ r
      → run_logged a (server_api e) work path w
        ≡ returned (executed a (server_api e) path r) (running (a.run_id_of work.input_json) w)
  unfolding run_logged update_status server_api handle_queue_update_run
  run_logged-reports work path w r given result = rw given (
      ap
        (λ res.
          returned (executed a (server_api e) path res) (running (a.run_id_of work.input_json) w))
        result)

  -- The completion that the worker sends.
  abbrev sent : Work → String → Result (Value F) → Completion F
  sent work path r =
      let (v, log_path, x) = executed a (server_api e) path r in
      completion_of a (server_api e) work v (err_string x) log_path

  reported :
      (work : Work) (path : String) (r : Result (Value F)) (x : NodeRun)
      → Finished e (sent work path r) "queue" x
      → Reported r x
  unfolding err_string message
  reported work path (ok v) x h = (h.0, h.1, h.3)
  reported work path (err y) x h = (h.0, h.2, h.3)

  complete_task-finishes :
      (work : Work) (v : Value F) (error_text path : String) (row : QueueTask) (t : Task)
      (key : String) (w : World)
      → find_queued work.id w.db ≡ some row
      → find_task row.task_id w.db ≡ some t
      → a.run_id_of work.input_json ≢ ""
      → RunsAre
          (λ x. (x.id ≡ a.run_id_of work.input_json) × (x.worker_id ≡ "queue"))
          row.task_id
          key
          w.db.node_runs
      → Ends (complete_task a (server_api e) work v error_text path w) (λ done u.
        (done ≡ none)
        × RunsAre
            (Finished e (completion_of a (server_api e) work v error_text path) "queue")
            row.task_id
            key
            u.db.node_runs)
  unfolding complete_task server_api
  complete_task-finishes work v error_text path row t key w queued found named runs =
      let c = completion_of a (server_api e) work v error_text path in
      Ends-continue
        (λ answer u.
          (answer ≡ some 200) × RunsAre (Finished e c "queue") row.task_id key u.db.node_runs)
        _ ((server_api e).complete_queue c w) (λ answer. pure (completed a (server_api e) answer))
        (Ends-continue _ _ (handle_queue_complete e c w) _
          (handle_queue_complete-finishes e c w row t row.task_id key "queue" queued found named
            runs)
          (λ res u h. (ap some h.0, h.1)))
        (λ answer u h. (ap (completed a (server_api e)) h.0, h.1))

  -- The round has worked, and the node's runs have ended with that result.
  abbrev pub WorkedOut : String → Result (Value F) → String → String → Round → World → Type 0
  WorkedOut id r task_id key round u =
      (round ≡ worked id none) × RunsAre (Reported r) task_id key u.db.node_runs

  -- Where PollQueue hands out work that is in the queue and its task in the table, the disk works,
  -- and every run of a node is the one that the work names, a round of the worker completes the
  -- work, and the node's runs have ended with the result or the error of the service.
  pub async_round-WorkedOut :
      (w : World) (q row : QueueTask) (db' : Db) (t : Task) (key : String) (r : Result (Value F))
      → poll_queue (unix e w.tick) a.worker_id a.services 60 w.db ≡ (some q, db')
      → find_queued q.id db' ≡ some row
      → find_task row.task_id db' ≡ some t
      → Ready
      → a.run_id_of q.input_json ≢ ""
      → RunsAre
          (λ x. (x.id ≡ a.run_id_of q.input_json) × (x.worker_id ≡ "queue"))
          row.task_id
          key
          db'.node_runs
      → execute a (work_of q) ≡ r
      → Ends (async_round a (server_api e) w) (WorkedOut q.id r row.task_id key)
  unfolding async_round server_api handle_queue_poll poll execute_with_log
  async_round-WorkedOut w q row db' t key r taken queued found ready named runs result =
      let run_id = a.run_id_of q.input_json in
      let path = a.log_file (suc (suc w.tick)) q.id in
      let given : (run_id == "") ≡ false = ground (arith, eq_iff run_id "") in
      let start_world = record w { db = db'; tick = suc (suc (suc (suc w.tick))) } in
      let logged = run_logged-reports (work_of q) path start_world r given result in
      let (v, log_path, x) = executed a (server_api e) path r in
      rw (taken, ready.0, ready.1, logged)
        (Ends-continue _ (WorkedOut q.id r row.task_id key) _ (λ done. pure (worked q.id done))
          (complete_task-finishes (work_of q) v (err_string x) log_path row t key
            (running run_id start_world) queued found named
            (RunsAre-update_where _ _ row.task_id key _ _ (λ y h. (eq_iff y.id run_id).1 h.0)
              (λ y h. h) (λ y. refl) (λ y. refl) db'.node_runs runs))
          (λ done u h. (
            ap (worked q.id) h.0,
            (
              h.1.0,
              All-map
                  (λ y f same_task same_key. reported (work_of q) path r y (f same_task same_key))
                  u.db.node_runs h.1.1,
            ),
          )))
