-- ===== src/Store/Trace/Held.antt =====
-- What each call does to a lease that lasts.
use pocket_flow_go.Store.Queue.{fail_queue_task, new_work}
use pocket_flow_go.Store.Trace.{
  refresh_workers_call, create_flow_call, create_flow_version_call, create_task_call,
  lease_next_task_call, extend_lease_call, update_status_call, update_status_owned_call,
  update_progress_call, update_progress_owned_call, create_run_call, enqueue_call, poll_call,
  complete_call, perform, Reach, start, later, String, Call,
}
use pocket_flow_go.Store.{FlowRow, FlowVersion, Task, NodeRun, Db, QueueTask}
use pocket_flow_go.Prelude.{
  ℕ, ◌<◌, Bool, ◌≡◌, ◌≢◌, List, Option-cases, true, ◌≤◌, ◌⊎◌, ◌+◌, Bool-cases, ◌∷◌, ◌==◌, false,
  inl, select, ◌&&◌, arith, inr, any, [], refl, eq_iff, sym, ◌∙◌,
}
use pocket_flow_go.Store.Trace.Rows.{Holds, Holds-update_where, Holds-insert_row}
use pocket_flow_go.Store.Queue.{complete_queue_task, poll_queue, is_open, enqueue_task}
use pocket_flow_go.Store.Tasks.{
  create_task, lease_next_task, new_task, lease_free, is_eligible, extend_lease, update_task_status,
  update_task_status_owned, update_task_progress, update_task_progress_owned,
}
use pocket_flow_go.Store.Workers.{refresh_workers_status, register_worker, heartbeat_worker}
use pocket_flow_go.Prelude.Int.{ℤ, is_pos}
use pocket_flow_go.Store.Flows.{create_flow, create_flow_version, new_flow, new_flow_version}
use pocket_flow_go.Store.Queue.Laws.{find_queued}
use pocket_flow_go.Store.Sql.{oldest, update_where}
use pocket_flow_go.Error.{err, constraint, ok}
use pocket_flow_go.Store.Runs.{create_node_run, update_node_run}
use pocket_flow_go.Store.Trace.Distinct.{inserted}

-- A lease of the owner that lasts until then, at least.
abbrev pub Lasts : String → ℕ → Task → Type 0
Lasts owner until t = (t.lease_owner ≡ owner) × (until ≤ t.lease_expiry)

-- There is such a task, and the owner holds its lease.
abbrev pub HeldBy : String → ℕ → String → Db → Type 0
HeldBy owner until id db = Holds (λ (t : Task). t.id) id (Lasts owner until) db.tasks

-- The calls of the time until then, of which the owner's own do not shorten the lease.
abbrev pub Respects : String → ℕ → String → Call → Type 0
Respects owner until id (lease_next_task_call now o ttl) = now ≤ until
Respects owner until id (extend_lease_call now i o ttl) =
    (i ≢ id) ⊎ (o ≢ owner) ⊎ (until ≤ now + ttl)
Respects owner until id _ = Unit

module _ (owner : String) (until : ℕ) (id : String) (db : Db) (h : HeldBy owner until id db) where
  tasks-HeldBy :
      (test : Task → Bool) (set : Task → Task)
      → ((t : Task) → (set t).id ≡ t.id)
      → ((t : Task) → t.id ≡ id → test t ≡ true → Lasts owner until t → Lasts owner until (set t))
      → HeldBy owner until id (record db { tasks = update_where test set db.tasks })
  tasks-HeldBy test set same keep =
      Holds-update_where (λ (t : Task). t.id) id (Lasts owner until) test set same keep db.tasks h

  create_task-HeldBy :
      (created updated : ℕ) (new fv params request start_node : String)
      → HeldBy owner until id (create_task created updated new fv params request start_node db).1
  unfolding create_task
  create_task-HeldBy created updated new fv params request start_node =
      let row = new_task created updated new fv params request start_node in
      inserted (λ (t : Task). t.id) row db.tasks db (HeldBy owner until id)
        (λ rows. record db { tasks = rows }) (err constraint) (ok new) h
        (λ rows e.
          Holds-insert_row (λ (t : Task). t.id) id (Lasts owner until) row db.tasks rows h e)

  -- A lease that lasts is not free to take.
  unfree :
      (now : ℕ)
      → 0 < until
      → now ≤ until
      → (t : Task) → Lasts owner until t
      → lease_free now t ≡ false
  unfree now pos_until le t l = ground (arith, l.1)

  lease_next_task-HeldBy :
      (now : ℕ) (o : String) (ttl : ℕ)
      → 0 < until
      → now ≤ until
      → HeldBy owner until id (lease_next_task now o ttl db).1
  unfolding lease_next_task
  lease_next_task-HeldBy now o ttl pos_until le =
      elim (Option-cases
        (oldest (λ (x : Task). x.updated_at) (select (is_eligible now) db.tasks))) [
          | inl e ↦ rw (lease_next_task, e) h
          | inr (x, e) ↦
              elim (Bool-cases (any (λ (r : Task). r.id == x.id && lease_free now r) db.tasks)) [
                | inl yes_any ↦
                    rw (lease_next_task, e, yes_any)
                      (tasks-HeldBy _ _ (λ r. refl)
                        (λ r own hit l. ground (arith, unfree now pos_until le r l)))
                | inr no_any ↦ rw (lease_next_task, e, no_any) h
              ]
        ]

  poll_queue-HeldBy :
      (now : ℕ) (worker : String) (services : List String) (timeout : ℕ)
      → HeldBy owner until id (poll_queue now worker services timeout db).1
  unfolding poll_queue
  poll_queue-HeldBy now worker [] timeout = h
  poll_queue-HeldBy now worker (svc ∷ services) timeout =
      elim (Option-cases (
        oldest (λ (q : QueueTask). q.created_at)
          (select (is_open (svc ∷ services)) db.task_queue))) [
            | inl e ↦ rw (poll_queue, e) h
            | inr (q, e) ↦
                elim (Bool-cases
                  (any (λ (r : QueueTask). r.id == q.id && r.status == "pending") db.task_queue)) [
                    | inl t ↦ rw (poll_queue, e, t) h
                    | inr f ↦ rw (poll_queue, e, f) h
                  ]
          ]

  refresh_workers_status-HeldBy :
      (now : ℕ) (ttl : ℤ) → HeldBy owner until id (refresh_workers_status now ttl db)
  unfolding refresh_workers_status
  refresh_workers_status-HeldBy now ttl = elim (Bool-cases (is_pos ttl)) [
    | inl t ↦ rw t h
    | inr f ↦ rw f h
  ]

  complete_queue_task-HeldBy :
      (done : String) → HeldBy owner until id (complete_queue_task done db).1
  unfolding complete_queue_task
  complete_queue_task-HeldBy done = elim (Option-cases (find_queued done db)) [
    | inl e ↦ rw (complete_queue_task, e) h
    | inr (q, e) ↦ rw (complete_queue_task, e) h
  ]

  extended :
      (now : ℕ) (i o : String) (ttl : ℕ)
      → ((i ≢ id) ⊎ (o ≢ owner) ⊎ (until ≤ now + ttl))
      → (t : Task) → t.id ≡ id
      → (t.id == i && t.lease_owner == o) ≡ true
      → Lasts owner until t
      → Lasts owner until (record t { lease_owner = o; lease_expiry = now + ttl })
  extended now i o ttl fits t own hit l =
      let same_id : t.id ≡ i = (eq_iff t.id i).0 (ground arith) in
      let same_owner : t.lease_owner ≡ o = (eq_iff t.lease_owner o).0 (ground arith) in
      let mine : o ≡ owner = sym same_owner ∙ l.0 in
      (
        mine,
        elim fits [
          | inl ne ↦ absurd (ne (sym same_id ∙ own))
          | inr rest ↦ elim rest [ inl ne ↦ absurd (ne mine) | inr le ↦ le ]
        ],
      )

  perform-HeldBy :
      (c : Call) → 0 < until → Respects owner until id c → HeldBy owner until id (perform c db)
  unfolding perform register_worker heartbeat_worker create_flow create_flow_version create_node_run
      extend_lease update_task_status update_task_status_owned update_task_progress
      update_task_progress_owned update_node_run enqueue_task fail_queue_task
  perform-HeldBy (refresh_workers_call now ttl) p fits = refresh_workers_status-HeldBy now ttl
  perform-HeldBy (create_flow_call now new name description) p fits =
      inserted (λ (f : FlowRow). f.id) (new_flow now new name description) db.flows db
        (HeldBy owner until id) (λ rows. record db { flows = rows }) (err constraint) (ok new) h
        (λ rows e. h)
  perform-HeldBy (create_flow_version_call new flow_id version definition_json status) p fits =
      inserted (λ (v : FlowVersion). v.id)
        (new_flow_version new flow_id version definition_json status) db.flow_versions db
        (HeldBy owner until id) (λ rows. record db { flow_versions = rows }) (err constraint)
        (ok new) h (λ rows e. h)
  perform-HeldBy (create_run_call nr) p fits =
      inserted (λ (r : NodeRun). r.id) nr db.node_runs db (HeldBy owner until id)
        (λ rows. record db { node_runs = rows }) (err constraint) (ok tt) h (λ rows e. h)
  perform-HeldBy (enqueue_call now new task_id node_key service input) p fits =
      inserted (λ (q : QueueTask). q.id) (new_work now new task_id node_key service input)
        db.task_queue db (HeldBy owner until id) (λ rows. record db { task_queue = rows })
        (err constraint) (ok new) h (λ rows e. h)
  perform-HeldBy (create_task_call created updated new fv params request start_node) p fits =
      create_task-HeldBy created updated new fv params request start_node
  perform-HeldBy (lease_next_task_call now o ttl) p fits = lease_next_task-HeldBy now o ttl p fits
  perform-HeldBy (extend_lease_call now i o ttl) p fits =
      tasks-HeldBy _ _ (λ t. refl) (extended now i o ttl fits)
  perform-HeldBy (update_status_call now i status) p fits =
      tasks-HeldBy _ _ (λ t. refl) (λ t own hit l. l)
  perform-HeldBy (update_status_owned_call stamp now i o status) p fits =
      tasks-HeldBy _ _ (λ t. refl) (λ t own hit l. l)
  perform-HeldBy (update_progress_call now i node action shared steps) p fits =
      tasks-HeldBy _ _ (λ t. refl) (λ t own hit l. l)
  perform-HeldBy (update_progress_owned_call stamp now i o node action shared steps) p fits =
      tasks-HeldBy _ _ (λ t. refl) (λ t own hit l. l)
  perform-HeldBy (poll_call now worker services timeout) p fits =
      poll_queue-HeldBy now worker services timeout
  perform-HeldBy (complete_call done) p fits = complete_queue_task-HeldBy done
  perform-HeldBy _ p fits = h

pub Reach-HeldBy :
    (owner : String) (until : ℕ) (id : String) {db db' : Db}
    → 0 < until
    → HeldBy owner until id db
    → Reach (Respects owner until id) db db'
    → HeldBy owner until id db'
Reach-HeldBy owner until id p h start = h
Reach-HeldBy owner until id p h (later {mid} r c fits) =
    perform-HeldBy owner until id mid (Reach-HeldBy owner until id p h r) c p fits
