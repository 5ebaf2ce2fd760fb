-- ===== src/Store/Trace/Keys.antt =====
-- That the ids of every table stay distinct.
use pocket_flow_go.Store.Trace.{
  register_worker_call, heartbeat_worker_call, refresh_workers_call, create_flow_call,
  create_flow_version_call, create_task_call, lease_next_task_call, extend_lease_call,
  update_status_call, update_status_owned_call, update_progress_call, update_progress_owned_call,
  create_run_call, update_run_call, enqueue_call, poll_call, complete_call, fail_call,
}
use pocket_flow_go.Prelude.{
  String, List, Bool, any, ◌≡◌, ◌==◌, ◌∷◌, Bool-cases, [], inl, inr, refl, ℕ, Option-cases, select,
  ◌&&◌,
}
use pocket_flow_go.Store.Sql.{update_where, oldest}
use pocket_flow_go.Store.Sql.Laws.{Keyed}
use pocket_flow_go.Store.{Db, WorkerInfo, FlowRow, FlowVersion, Task, NodeRun, QueueTask}
use pocket_flow_go.Store.Flows.{create_flow, create_flow_version, new_flow, new_flow_version}
use pocket_flow_go.Error.{err, constraint, ok}
use pocket_flow_go.Store.Workers.{refresh_workers_status, register_worker, heartbeat_worker}
use pocket_flow_go.Store.Trace.{
  Reach, perform, later, start, Call, register_worker_call, heartbeat_worker_call,
  refresh_workers_call,
}
use pocket_flow_go.Store.Queue.{
  complete_queue_task, enqueue_task, poll_queue, new_work, fail_queue_task, is_open,
}
use pocket_flow_go.Store.Runs.{create_node_run, update_node_run}
use pocket_flow_go.Store.Tasks.{
  create_task, lease_next_task, new_task, extend_lease, is_eligible, update_task_status, lease_free,
  update_task_status_owned, update_task_progress, update_task_progress_owned,
}
use pocket_flow_go.Store.Queue.Laws.{find_queued}
use pocket_flow_go.Prelude.Int.{ℤ, is_pos}
use pocket_flow_go.Store.Trace.Distinct.{
  Keyed-update_where, Keyed-upsert, inserted, Keyed-insert_row,
}

-- No table has two rows with one id.
abbrev pub IsKeyed : Db → Type 0
IsKeyed db =
    Keyed (λ (w : WorkerInfo). w.id) db.workers
    × Keyed (λ (f : FlowRow). f.id) db.flows
    × Keyed (λ (v : FlowVersion). v.id) db.flow_versions
    × Keyed (λ (t : Task). t.id) db.tasks
    × Keyed (λ (r : NodeRun). r.id) db.node_runs
    × Keyed (λ (q : QueueTask). q.id) db.task_queue

module _ (db : Db) (k : IsKeyed db) where
  create_flow-IsKeyed :
      (now : ℕ) (id name description : String) → IsKeyed (create_flow now id name description db).1
  unfolding create_flow
  create_flow-IsKeyed now id name description =
      let row = new_flow now id name description in
      inserted (λ (f : FlowRow). f.id) row db.flows db IsKeyed (λ rows. record db { flows = rows })
        (err constraint) (ok id) k
        (λ rows e. (
          k.0,
          Keyed-insert_row (λ (f : FlowRow). f.id) row db.flows rows k.1 e,
          k.2,
          k.3,
          k.4,
          k.5,
        ))

  create_flow_version-IsKeyed :
      (id flow_id : String) (version : ℤ) (definition_json status : String)
      → IsKeyed (create_flow_version id flow_id version definition_json status db).1
  unfolding create_flow_version
  create_flow_version-IsKeyed id flow_id version definition_json status =
      let row = new_flow_version id flow_id version definition_json status in
      inserted (λ (v : FlowVersion). v.id) row db.flow_versions db IsKeyed
        (λ rows. record db { flow_versions = rows }) (err constraint) (ok id) k
        (λ rows e. (
          k.0,
          k.1,
          Keyed-insert_row (λ (v : FlowVersion). v.id) row db.flow_versions rows k.2 e,
          k.3,
          k.4,
          k.5,
        ))

  create_task-IsKeyed :
      (created updated : ℕ) (id fv params request start_node : String)
      → IsKeyed (create_task created updated id fv params request start_node db).1
  unfolding create_task
  create_task-IsKeyed created updated id fv params request start_node =
      let row = new_task created updated id fv params request start_node in
      inserted (λ (t : Task). t.id) row db.tasks db IsKeyed (λ rows. record db { tasks = rows })
        (err constraint) (ok id) k
        (λ rows e.
          (k.0, k.1, k.2, Keyed-insert_row (λ (t : Task). t.id) row db.tasks rows k.3 e, k.4, k.5))

  create_node_run-IsKeyed : (row : NodeRun) → IsKeyed (create_node_run row db).1
  unfolding create_node_run
  create_node_run-IsKeyed row =
      inserted (λ (r : NodeRun). r.id) row db.node_runs db IsKeyed
        (λ rows. record db { node_runs = rows }) (err constraint) (ok tt) k
        (λ rows e. (
          k.0,
          k.1,
          k.2,
          k.3,
          Keyed-insert_row (λ (r : NodeRun). r.id) row db.node_runs rows k.4 e,
          k.5,
        ))

  enqueue_task-IsKeyed :
      (now : ℕ) (id task_id node_key service input : String)
      → IsKeyed (enqueue_task now id task_id node_key service input db).1
  unfolding enqueue_task
  enqueue_task-IsKeyed now id task_id node_key service input =
      let row = new_work now id task_id node_key service input in
      inserted (λ (q : QueueTask). q.id) row db.task_queue db IsKeyed
        (λ rows. record db { task_queue = rows }) (err constraint) (ok id) k
        (λ rows e. (
          k.0,
          k.1,
          k.2,
          k.3,
          k.4,
          Keyed-insert_row (λ (q : QueueTask). q.id) row db.task_queue rows k.5 e,
        ))

  -- Updates of the workers, the tasks and the queue that leave the ids alone.
  workers-IsKeyed :
      (test : WorkerInfo → Bool) (set : WorkerInfo → WorkerInfo)
      → ((w : WorkerInfo) → (set w).id ≡ w.id)
      → IsKeyed (record db { workers = update_where test set db.workers })
  workers-IsKeyed test set same = (
    Keyed-update_where (λ (w : WorkerInfo). w.id) test set same db.workers k.0,
    k.1,
    k.2,
    k.3,
    k.4,
    k.5,
  )

  tasks-IsKeyed :
      (test : Task → Bool) (set : Task → Task)
      → ((t : Task) → (set t).id ≡ t.id)
      → IsKeyed (record db { tasks = update_where test set db.tasks })
  tasks-IsKeyed test set same =
      (k.0, k.1, k.2, Keyed-update_where (λ (t : Task). t.id) test set same db.tasks k.3, k.4, k.5)

  queue-IsKeyed :
      (test : QueueTask → Bool) (set : QueueTask → QueueTask)
      → ((q : QueueTask) → (set q).id ≡ q.id)
      → IsKeyed (record db { task_queue = update_where test set db.task_queue })
  queue-IsKeyed test set same = (
    k.0,
    k.1,
    k.2,
    k.3,
    k.4,
    Keyed-update_where (λ (q : QueueTask). q.id) test set same db.task_queue k.5,
  )

  lease_next_task-IsKeyed :
      (now : ℕ) (owner : String) (ttl : ℕ) → IsKeyed (lease_next_task now owner ttl db).1
  unfolding lease_next_task
  lease_next_task-IsKeyed now owner ttl =
      elim (Option-cases
        (oldest (λ (t : Task). t.updated_at) (select (is_eligible now) db.tasks))) [
          | inl e ↦ rw (lease_next_task, e) k
          | inr (t, e) ↦
              elim (Bool-cases (any (λ (r : Task). r.id == t.id && lease_free now r) db.tasks)) [
                | inl h ↦ rw (lease_next_task, e, h) (tasks-IsKeyed _ _ (λ r. refl))
                | inr h ↦ rw (lease_next_task, e, h) k
              ]
        ]

  poll_queue-IsKeyed :
      (now : ℕ) (worker : String) (services : List String) (timeout : ℕ)
      → IsKeyed (poll_queue now worker services timeout db).1
  unfolding poll_queue
  poll_queue-IsKeyed now worker [] timeout = k
  poll_queue-IsKeyed now worker (svc ∷ services) timeout =
      elim (Option-cases (
        oldest (λ (q : QueueTask). q.created_at)
          (select (is_open (svc ∷ services)) db.task_queue))) [
            | inl e ↦ rw (poll_queue, e) k
            | inr (q, e) ↦
                elim (Bool-cases
                  (any (λ (r : QueueTask). r.id == q.id && r.status == "pending") db.task_queue)) [
                    | inl h ↦ rw (poll_queue, e, h) (queue-IsKeyed _ _ (λ r. refl))
                    | inr h ↦ rw (poll_queue, e, h) k
                  ]
          ]

  refresh_workers_status-IsKeyed : (now : ℕ) (ttl : ℤ) → IsKeyed (refresh_workers_status now ttl db)
  unfolding refresh_workers_status
  refresh_workers_status-IsKeyed now ttl = elim (Bool-cases (is_pos ttl)) [
    | inl h ↦ rw h (workers-IsKeyed _ _ (λ w. refl))
    | inr h ↦ rw h k
  ]

  complete_queue_task-IsKeyed : (id : String) → IsKeyed (complete_queue_task id db).1
  unfolding complete_queue_task
  complete_queue_task-IsKeyed id = elim (Option-cases (find_queued id db)) [
    | inl e ↦ rw (complete_queue_task, e) k
    | inr (q, e) ↦ rw (complete_queue_task, e) (queue-IsKeyed _ _ (λ r. refl))
  ]

  -- Every call keeps the primary keys.
  perform-IsKeyed : (c : Call) → IsKeyed (perform c db)
  unfolding perform register_worker heartbeat_worker extend_lease update_task_status
      update_task_status_owned update_task_progress update_task_progress_owned update_node_run
      fail_queue_task
  perform-IsKeyed (register_worker_call now w) =
      (Keyed-upsert _ db.workers k.0, k.1, k.2, k.3, k.4, k.5)
  perform-IsKeyed (heartbeat_worker_call now id url load) = workers-IsKeyed _ _ (λ w. refl)
  perform-IsKeyed (refresh_workers_call now ttl) = refresh_workers_status-IsKeyed now ttl
  perform-IsKeyed (create_flow_call now id name description) =
      create_flow-IsKeyed now id name description
  perform-IsKeyed (create_flow_version_call id flow_id version definition_json status) =
      create_flow_version-IsKeyed id flow_id version definition_json status
  perform-IsKeyed (create_task_call created updated id fv params request start_node) =
      create_task-IsKeyed created updated id fv params request start_node
  perform-IsKeyed (lease_next_task_call now owner ttl) = lease_next_task-IsKeyed now owner ttl
  perform-IsKeyed (extend_lease_call now id owner ttl) = tasks-IsKeyed _ _ (λ r. refl)
  perform-IsKeyed (update_status_call now id status) = tasks-IsKeyed _ _ (λ r. refl)
  perform-IsKeyed (update_status_owned_call stamp now id owner status) =
      tasks-IsKeyed _ _ (λ r. refl)
  perform-IsKeyed (update_progress_call now id node action shared steps) =
      tasks-IsKeyed _ _ (λ r. refl)
  perform-IsKeyed (update_progress_owned_call stamp now id owner node action shared steps) =
      tasks-IsKeyed _ _ (λ r. refl)
  perform-IsKeyed (create_run_call nr) = create_node_run-IsKeyed nr
  perform-IsKeyed (update_run_call id set same) = (
    k.0,
    k.1,
    k.2,
    k.3,
    Keyed-update_where (λ (r : NodeRun). r.id) _ set same db.node_runs k.4,
    k.5,
  )
  perform-IsKeyed (enqueue_call now id task_id node_key service input) =
      enqueue_task-IsKeyed now id task_id node_key service input
  perform-IsKeyed (poll_call now worker services timeout) =
      poll_queue-IsKeyed now worker services timeout
  perform-IsKeyed (complete_call id) = complete_queue_task-IsKeyed id
  perform-IsKeyed (fail_call id) = queue-IsKeyed _ _ (λ r. refl)

-- Where the ids of each table are distinct, they are distinct after any sequence of calls of the
-- store.
pub Reach-IsKeyed :
    {allowed : Call → Type 0} {db db' : Db} → IsKeyed db → Reach allowed db db' → IsKeyed db'
Reach-IsKeyed k start = k
Reach-IsKeyed k (later {mid} r c _) = perform-IsKeyed mid (Reach-IsKeyed k r) c
