-- ===== src/Store/Queue.antt =====
-- The persistent queue of the pull mode (pkg/store/sqlstore/sqlite.go).
pub mod Laws
use pocket_flow_go.Prelude.{
  List, String, ℕ, ◌+◌, ◌==◌, Bool, Option, ◌&&◌, find_first, none, any, ◌∷◌, select, some,
  if◌then◌else◌, [],
}
use pocket_flow_go.Store.Sql.{insert_row, oldest, update_where}
use pocket_flow_go.Store.{Db, QueueTask}
use pocket_flow_go.Error.{Result, err, constraint, no_rows, ok}

abbrev pub new_work : ℕ → String → String → String → String → String → QueueTask
new_work now id task_id node_key service input_json = record {
  id = id;
  task_id = task_id;
  node_key = node_key;
  service = service;
  input_json = input_json;
  status = "pending";
  worker_id = "";
  created_at = now;
  started_at = 0;
  timeout_at = 0;
}

unfoldable pub enqueue_task :
    ℕ → String → String → String → String → String → Db → Result String × Db
unfolding insert_row
enqueue_task now id task_id node_key service input_json db =
    elim (insert_row (λ (q : QueueTask). q.id) (new_work now id task_id node_key service input_json)
      db.task_queue) [
        | none ↦ (err constraint, db)
        | some queue ↦ (ok id, record db { task_queue = queue })
      ]

-- status='pending' AND service IN (…)
abbrev pub is_open : List String → QueueTask → Bool
is_open services q = q.status == "pending" && any (λ s. q.service == s) services

abbrev pub claim : ℕ → String → ℕ → QueueTask → QueueTask
claim now worker timeout q = record q {
  status = "claimed";
  worker_id = worker;
  started_at = now;
  timeout_at = now + timeout;
}

-- `none` is the zero `QueueTask`: there is nothing to do. The column `created_at` is not selected.
unfoldable pub poll_queue : ℕ → String → List String → ℕ → Db → Option QueueTask × Db
unfolding oldest update_where
poll_queue now worker [] timeout db = (none, db)
poll_queue now worker (svc ∷ services) timeout db =
    elim (oldest (λ (q : QueueTask). q.created_at)
      (select (is_open (svc ∷ services)) db.task_queue)) [
        | none ↦ (none, db)
        | some q ↦
            if any (λ (r : QueueTask). r.id == q.id && r.status == "pending") db.task_queue
            then (
              some (record (claim now worker timeout q) { created_at = 0 }),
              record db {
                task_queue =
                    update_where (λ r. r.id == q.id && r.status == "pending")
                      (claim now worker timeout) db.task_queue;
              },
            )
            else (none, db)
      ]

abbrev pub set_queue_status : String → String → Db → Db
set_queue_status id status db = record db {
  task_queue =
      update_where (λ (q : QueueTask). q.id == id) (λ q. record q { status = status })
        db.task_queue;
}

unfoldable pub complete_queue_task : String → Db → Result String × Db
unfolding update_where
complete_queue_task id db = elim (find_first (λ (q : QueueTask). q.id == id) db.task_queue) [
  | none ↦ (err no_rows, db)
  | some q ↦ (ok q.task_id, set_queue_status id "completed" db)
]

unfoldable pub fail_queue_task : String → Db → Db
unfolding update_where
fail_queue_task id db = set_queue_status id "failed" db
