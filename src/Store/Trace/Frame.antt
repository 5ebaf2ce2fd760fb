-- ===== src/Store/Trace/Frame.antt =====
-- The calls that leave the queue as it is.
-- Every call but the four of the queue.
use pocket_flow_go.Store.Trace.{
  Call, enqueue_call, perform, poll_call, complete_call, fail_call, refresh_workers_call,
  create_flow_call, create_flow_version_call, create_task_call, create_run_call,
  lease_next_task_call,
}
use pocket_flow_go.Store.{Db, Task, FlowRow, FlowVersion, NodeRun}
use pocket_flow_go.Store.Tasks.{
  lease_next_task, create_task, extend_lease, is_eligible, update_task_status,
  update_task_status_owned, update_task_progress, lease_free, update_task_progress_owned, new_task,
}
use pocket_flow_go.Store.Workers.{refresh_workers_status, register_worker, heartbeat_worker}
use pocket_flow_go.Prelude.{
  ◌≡◌, ℕ, String, Bool-cases, Option-cases, inl, inr, select, refl, any, ◌==◌, ◌&&◌,
}
use pocket_flow_go.Prelude.Int.{ℤ, is_pos}
use pocket_flow_go.Store.Flows.{create_flow, create_flow_version, new_flow, new_flow_version}
use pocket_flow_go.Store.Sql.{oldest}
use pocket_flow_go.Store.Runs.{create_node_run, update_node_run}
use pocket_flow_go.Error.{err, constraint, ok}
use pocket_flow_go.Store.Trace.Distinct.{inserted}

abbrev pub Elsewhere : Call → Type 0
Elsewhere (enqueue_call now id task_id node_key service input) = ⊥
Elsewhere (poll_call now worker services timeout) = ⊥
Elsewhere (complete_call id) = ⊥
Elsewhere (fail_call id) = ⊥
Elsewhere _ = Unit

module _ (db : Db) where
  abbrev SameQueue : Db → Type 0
  SameQueue db' = db'.task_queue ≡ db.task_queue

  lease_next_task-SameQueue :
      (now : ℕ) (owner : String) (ttl : ℕ) → SameQueue (lease_next_task now owner ttl db).1
  unfolding lease_next_task
  lease_next_task-SameQueue now owner ttl =
      elim (Option-cases
        (oldest (λ (x : Task). x.updated_at) (select (is_eligible now) db.tasks))) [
          | inl e ↦ rw (lease_next_task, e) refl
          | inr (x, e) ↦
              elim (Bool-cases (any (λ (r : Task). r.id == x.id && lease_free now r) db.tasks)) [
                | inl h ↦ rw (lease_next_task, e, h) refl
                | inr h ↦ rw (lease_next_task, e, h) refl
              ]
        ]

  refresh_workers_status-SameQueue :
      (now : ℕ) (ttl : ℤ) → SameQueue (refresh_workers_status now ttl db)
  unfolding refresh_workers_status
  refresh_workers_status-SameQueue now ttl = elim (Bool-cases (is_pos ttl)) [
    | inl h ↦ rw h refl
    | inr h ↦ rw h refl
  ]

  pub perform-SameQueue : (c : Call) → Elsewhere c → SameQueue (perform c db)
  unfolding perform register_worker heartbeat_worker create_flow create_flow_version create_task
      create_node_run extend_lease update_task_status update_task_status_owned update_task_progress
      update_task_progress_owned update_node_run
  perform-SameQueue (refresh_workers_call now ttl) h = refresh_workers_status-SameQueue now ttl
  perform-SameQueue (create_flow_call now new name description) h =
      inserted (λ (f : FlowRow). f.id) (new_flow now new name description) db.flows db SameQueue
        (λ rows. record db { flows = rows }) (err constraint) (ok new) refl (λ rows e. refl)
  perform-SameQueue (create_flow_version_call new flow_id version definition_json status) h =
      inserted (λ (v : FlowVersion). v.id)
        (new_flow_version new flow_id version definition_json status) db.flow_versions db SameQueue
        (λ rows. record db { flow_versions = rows }) (err constraint) (ok new) refl (λ rows e. refl)
  perform-SameQueue (create_task_call created updated new fv params request start_node) h =
      inserted (λ (x : Task). x.id) (new_task created updated new fv params request start_node)
        db.tasks db SameQueue (λ rows. record db { tasks = rows }) (err constraint) (ok new) refl
        (λ rows e. refl)
  perform-SameQueue (create_run_call nr) h =
      inserted (λ (r : NodeRun). r.id) nr db.node_runs db SameQueue
        (λ rows. record db { node_runs = rows }) (err constraint) (ok tt) refl (λ rows e. refl)
  perform-SameQueue (lease_next_task_call now owner ttl) h = lease_next_task-SameQueue now owner ttl
  perform-SameQueue (enqueue_call now id task_id node_key service input) h = absurd h
  perform-SameQueue (poll_call now worker services timeout) h = absurd h
  perform-SameQueue (complete_call id) h = absurd h
  perform-SameQueue (fail_call id) h = absurd h
  perform-SameQueue _ h = refl
