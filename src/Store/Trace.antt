-- ===== src/Store/Trace.antt =====
use pocket_flow_go.Store.Runs.{update_node_run}
-- The store as its clients see it (the interface `Store` of pkg/store/store.go): the calls that
-- change a table, and the tables that a sequence of calls leads to. Schedulers, workers and requests
-- interleave as such a sequence, since a statement is atomic.
pub mod Rows
pub mod Keys
pub mod Queue
pub mod Leases
pub mod Phases
pub mod Frame
pub mod Distinct
pub mod Held
use pocket_flow_go.Store.{Db, WorkerInfo, NodeRun}
use pocket_flow_go.Prelude.{ℕ, String, ◌≡◌, List}
use pocket_flow_go.Store.Workers.{register_worker, heartbeat_worker, refresh_workers_status}
use pocket_flow_go.Prelude.Int.{ℤ}
use pocket_flow_go.Store.Flows.{create_flow, create_flow_version}
use pocket_flow_go.Store.Tasks.{
  create_task, lease_next_task, extend_lease, update_task_status, update_task_status_owned,
  update_task_progress, update_task_progress_owned,
}
use pocket_flow_go.Store.Runs.{create_node_run}
use pocket_flow_go.Store.Queue.{enqueue_task, poll_queue, complete_queue_task, fail_queue_task}

-- A call with its readings of the clock and its fresh id. The columns that `UpdateNodeRun` writes
-- are a function on rows, which never includes the id.
pub data Call : Type 0 where
  register_worker_call : ℕ → WorkerInfo → Call
  heartbeat_worker_call : ℕ → String → String → ℤ → Call
  refresh_workers_call : ℕ → ℤ → Call
  create_flow_call : ℕ → String → String → String → Call
  create_flow_version_call : String → String → ℤ → String → String → Call
  create_task_call : ℕ → ℕ → String → String → String → String → String → Call
  lease_next_task_call : ℕ → String → ℕ → Call
  extend_lease_call : ℕ → String → String → ℕ → Call
  update_status_call : ℕ → String → String → Call
  update_status_owned_call : ℕ → ℕ → String → String → String → Call
  update_progress_call : ℕ → String → String → String → String → ℕ → Call
  update_progress_owned_call : ℕ → ℕ → String → String → String → String → String → ℕ → Call
  create_run_call : NodeRun → Call
  update_run_call : String → (set : NodeRun → NodeRun) → ((r : NodeRun) → (set r).id ≡ r.id) → Call
  enqueue_call : ℕ → String → String → String → String → String → Call
  poll_call : ℕ → String → List String → ℕ → Call
  complete_call : String → Call
  fail_call : String → Call

-- The tables after a call.
unfoldable pub perform : Call → Db → Db
perform (register_worker_call now w) db = register_worker now w db
perform (heartbeat_worker_call now id url load) db = heartbeat_worker now id url load db
perform (refresh_workers_call now ttl) db = refresh_workers_status now ttl db
perform (create_flow_call now id name description) db = (create_flow now id name description db).1
perform (create_flow_version_call id flow_id version definition_json status) db =
    (create_flow_version id flow_id version definition_json status db).1
perform (create_task_call created updated id fv params request start) db =
    (create_task created updated id fv params request start db).1
perform (lease_next_task_call now owner ttl) db = (lease_next_task now owner ttl db).1
perform (extend_lease_call now id owner ttl) db = extend_lease now id owner ttl db
perform (update_status_call now id status) db = update_task_status now id status db
perform (update_status_owned_call stamp now id owner status) db =
    update_task_status_owned stamp now id owner status db
perform (update_progress_call now id node action shared steps) db =
    update_task_progress now id node action shared steps db
perform (update_progress_owned_call stamp now id owner node action shared steps) db =
    update_task_progress_owned stamp now id owner node action shared steps db
perform (create_run_call nr) db = (create_node_run nr db).1
perform (update_run_call id set same) db = update_node_run id set db
perform (enqueue_call now id task_id node_key service input) db =
    (enqueue_task now id task_id node_key service input db).1
perform (poll_call now worker services timeout) db = (poll_queue now worker services timeout db).1
perform (complete_call id) db = (complete_queue_task id db).1
perform (fail_call id) db = fail_queue_task id db

-- The tables that calls of an allowed kind lead to, one after the other.
pub data Reach (allowed : Call → Type 0) (db : Db) : Db → Type 0 where
  start : Reach allowed db db
  later :
      {mid : Db} → Reach allowed db mid → (c : Call) → allowed c → Reach allowed db (perform c mid)

abbrev pub AnyCall : Call → Type 0
AnyCall c = Unit {0}
