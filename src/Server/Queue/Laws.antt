-- ===== src/Server/Queue/Laws.antt =====
-- That a completion wakes its task up.
use pocket_flow_go.Store.Sql.{update_where}
use pocket_flow_go.Store.Tasks.{
  joined, set_status, update_task_status, joined, joined, joined, joined, joined, joined, joined,
  joined, joined, joined, joined, joined, joined, joined,
}
use pocket_flow_go.Store.Queue.{set_queue_status}
use pocket_flow_go.Server.Queue.{
  record_completion, Completion, handle_queue_complete, run_status, output_json,
}
use pocket_flow_go.Engine.{Engine, World, unix}
use pocket_flow_go.Store.Queue.{complete_queue_task}
use pocket_flow_go.Store.Runs.{update_node_run}
use pocket_flow_go.Store.{Task, QueueTask, Db, NodeRun}
use pocket_flow_go.Store.Tasks.{set_status}
use pocket_flow_go.Engine.Core.Laws.{Ends, save_node_run-tasks, Ends-continue}
use pocket_flow_go.Store.Queue.Laws.{find_queued}
use pocket_flow_go.Prelude.{
  ◌≡◌, Bool-cases, some, ◌==◌, inl, ℕ, inr, refl, String, ap, find_first, ◌∙◌, ◌≢◌, false, arith,
  eq_iff,
}
use pocket_flow_go.Store.Tasks.Laws.{find_task, find-update_task_status}
use pocket_flow_go.Error.{ok}
use pocket_flow_go.Store.Tasks.Joined.{
  get_task-ok, named, named, named, named, named, named, named, named, named, named, named, named,
  named, named,
}
use pocket_flow_go.Engine.Executor.Queued.Latest.{RunsAre, RunsAre-update_where}

module _ {F : Type 0} (e : Engine F) (c : Completion F) where
  record_completion-tasks :
      (t : Task) (w : World) → Ends (record_completion e c t w) (λ _ v. v.db.tasks ≡ w.db.tasks)
  unfolding record_completion update_node_run
  record_completion-tasks t w = elim (Bool-cases (c.run_id == "")) [
    | inl h ↦ rw (h, save_node_run-tasks) refl
    | inr h ↦ rw h refl
  ]

pub complete_queue_task-ok :
    (id : String) (db : Db) (q : QueueTask)
    → find_queued id db ≡ some q
    → complete_queue_task id db ≡ (ok q.task_id, set_queue_status id "completed" db)
unfolding complete_queue_task update_where
complete_queue_task-ok id db q h = rw (complete_queue_task, h) refl

module _ {F : Type 0} (e : Engine F) (c : Completion F) where
  -- Where the completed work is in the queue and its task in the table, handleQueueComplete ends,
  -- and leaves the task's row pending and otherwise as it was, but for the time of its update,
  -- whether a run id is given or not and whatever the error.
  pub handle_queue_complete-wakes :
      (w : World) (q : QueueTask) (r : Task)
      → find_queued c.queue_id w.db ≡ some q
      → find_task q.task_id w.db ≡ some r
      → Ends
          (handle_queue_complete e c w)
          (λ res v. (stamp : ℕ) × (find_task q.task_id v.db ≡ some (set_status stamp "pending" r)))
  unfolding handle_queue_complete
  handle_queue_complete-wakes w q r queued found =
      let done = set_queue_status c.queue_id "completed" w.db in
      let row : find_task q.task_id done ≡ some r = found in
      rw (complete_queue_task-ok c.queue_id w.db q queued, get_task-ok q.task_id done r row)
        (Ends-continue _ _ (record_completion e c (joined done r) (record w { db = done })) _
          (record_completion-tasks e c (joined done r) (record w { db = done }))
          (λ _ v h. (
            unix e v.tick,
            find-update_task_status q.task_id v.db r
                (ap (find_first (λ (t : Task). t.id == q.task_id)) h ∙ found) (unix e v.tick)
                "pending",
          )))

  -- What a completion writes into its run.
  abbrev pub Finished : String → NodeRun → Type 0
  Finished worker x =
      (x.status ≡ run_status e c)
      × (x.exec_output_json ≡ output_json e c)
      × (x.error_text ≡ c.error)
      × (x.worker_id ≡ worker)

  -- Where the completed work is in the queue, its task in the table, and every run of a node is the
  -- one that the completion names, handleQueueComplete answers 200 and the node's runs hold the
  -- status, the output and the error of the completion.
  pub handle_queue_complete-finishes :
      (w : World) (q : QueueTask) (r : Task) (task_id key worker : String)
      → find_queued c.queue_id w.db ≡ some q
      → find_task q.task_id w.db ≡ some r
      → c.run_id ≢ ""
      → RunsAre (λ x. (x.id ≡ c.run_id) × (x.worker_id ≡ worker)) task_id key w.db.node_runs
      → Ends
          (handle_queue_complete e c w)
          (λ res v. (res.code ≡ 200) × RunsAre (Finished worker) task_id key v.db.node_runs)
  unfolding handle_queue_complete record_completion update_node_run update_task_status
  handle_queue_complete-finishes w q r task_id key worker queued found named runs =
      let done = set_queue_status c.queue_id "completed" w.db in
      let row : find_task q.task_id done ≡ some r = found in
      let given : (c.run_id == "") ≡ false = ground (arith, eq_iff c.run_id "") in
      rw (complete_queue_task-ok c.queue_id w.db q queued, get_task-ok q.task_id done r row, given)
        (
          refl,
          RunsAre-update_where _ (Finished worker) task_id key _ _
              (λ x h. (eq_iff x.id c.run_id).1 h.0) (λ x h. (refl, refl, refl, h.1)) (λ x. refl)
              (λ x. refl) w.db.node_runs runs,
        )
