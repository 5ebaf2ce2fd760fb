-- ===== src/Store/Tasks.antt =====
-- Tasks, their leases and their progress (pkg/store/sqlstore/sqlite.go).
pub mod Laws
pub mod Leases
pub mod Joined
use pocket_flow_go.Store.{Db, FlowRow, Task, FlowVersion}
use pocket_flow_go.Prelude.{
  List, String, ℕ, ◌==◌, ◌&&◌, Bool, find_first, select, ◌+◌, ltb, nat_eq, ◌||◌, none, some,
  if◌then◌else◌, any,
}
use pocket_flow_go.Store.Sql.{insert_row, oldest, update_where}
use pocket_flow_go.Error.{Result, err, constraint, no_rows, ok, text}
use pocket_flow_go.Prelude.Int.{pos}

abbrev pub new_task : ℕ → ℕ → String → String → String → String → String → Task
new_task created updated id flow_version_id params_json request_id start_node = record {
  id = id;
  flow_version_id = flow_version_id;
  status = "pending";
  params_json = params_json;
  shared_json = "{}";
  current_node_key = start_node;
  last_action = "";
  step_count = 0;
  retry_state_json = "{}";
  lease_owner = "";
  lease_expiry = 0;
  request_id = request_id;
  created_at = created;
  updated_at = updated;
  flow_id = "";
  flow_name = "";
  flow_version = pos 0;
}

unfoldable pub create_task :
    ℕ → ℕ → String → String → String → String → String → Db → Result String × Db
unfolding insert_row
create_task created updated id flow_version_id params_json request_id start_node db =
    elim (insert_row (λ (t : Task). t.id)
      (new_task created updated id flow_version_id params_json request_id start_node) db.tasks) [
        | none ↦ (err constraint, db)
        | some tasks ↦ (ok id, record db { tasks = tasks })
      ]

abbrev with_flow : List FlowRow → FlowVersion → Task → Task
with_flow flows fv t = elim (find_first (λ (f : FlowRow). f.id == fv.flow_id) flows) [
  | none ↦ record t { flow_version = fv.version }
  | some f ↦ record t { flow_version = fv.version; flow_id = f.id; flow_name = f.name }
]

-- LEFT JOIN flow_versions LEFT JOIN flows, with COALESCE
unfoldable pub joined : Db → Task → Task
joined db t =
    elim (find_first (λ (fv : FlowVersion). fv.id == t.flow_version_id) db.flow_versions) [
      | none ↦ record t { flow_id = ""; flow_name = ""; flow_version = pos 0 }
      | some fv ↦ with_flow db.flows fv (record t { flow_id = ""; flow_name = "" })
    ]

unfoldable pub get_task : String → Db → Result Task
unfolding joined
get_task id db = elim (find_first (λ (t : Task). t.id == id) db.tasks) [
  | none ↦ err no_rows
  | some t ↦ ok (joined db t)
]

-- lease_expiry=0 OR lease_expiry<now
abbrev pub lease_free : ℕ → Task → Bool
lease_free now t = nat_eq t.lease_expiry 0 || ltb t.lease_expiry now

abbrev pub is_eligible : ℕ → Task → Bool
is_eligible now t = (t.status == "pending" || t.status == "running") && lease_free now t

-- The task that is returned is read before the transaction commits, so it is the row without the
-- new lease; the caller uses its id.
unfoldable pub lease_next_task : ℕ → String → ℕ → Db → Result Task × Db
unfolding oldest update_where get_task
lease_next_task now owner ttl db =
    elim (oldest (λ (t : Task). t.updated_at) (select (is_eligible now) db.tasks)) [
      | none ↦ (err no_rows, db)
      | some t ↦
          if any (λ (r : Task). r.id == t.id && lease_free now r) db.tasks
          then (
            get_task t.id db,
            record db {
              tasks =
                  update_where (λ r. r.id == t.id && lease_free now r)
                    (λ r. record r {
                      lease_owner = owner;
                      lease_expiry = now + ttl;
                      status = "running";
                    })
                    db.tasks;
            },
          )
          else (err (text "lease_conflict"), db)
    ]

unfoldable pub extend_lease : ℕ → String → String → ℕ → Db → Db
unfolding update_where
extend_lease now id owner ttl db = record db {
  tasks =
      update_where (λ r. r.id == id && r.lease_owner == owner)
        (λ r. record r { lease_owner = owner; lease_expiry = now + ttl }) db.tasks;
}

-- id=? AND lease_owner=? AND lease_expiry>now
abbrev pub holds_lease : ℕ → String → String → Task → Bool
holds_lease now id owner r = r.id == id && r.lease_owner == owner && ltb now r.lease_expiry

abbrev pub set_status : ℕ → String → Task → Task
set_status now status r = record r { status = status; updated_at = now }

abbrev pub set_progress : ℕ → String → String → String → ℕ → Task → Task
set_progress now node action shared steps r = record r {
  current_node_key = node;
  last_action = action;
  shared_json = shared;
  step_count = steps;
  updated_at = now;
}

unfoldable pub update_task_status : ℕ → String → String → Db → Db
unfolding update_where
update_task_status now id status db = record db {
  tasks = update_where (λ r. r.id == id) (set_status now status) db.tasks;
}

-- Both readings of the clock are arguments: `stamp` for updated_at, `now` for the lease.
unfoldable pub update_task_status_owned : ℕ → ℕ → String → String → String → Db → Db
unfolding update_where
update_task_status_owned stamp now id owner status db = record db {
  tasks = update_where (holds_lease now id owner) (set_status stamp status) db.tasks;
}

unfoldable pub update_task_progress : ℕ → String → String → String → String → ℕ → Db → Db
unfolding update_where
update_task_progress now id node action shared steps db = record db {
  tasks = update_where (λ r. r.id == id) (set_progress now node action shared steps) db.tasks;
}

unfoldable pub update_task_progress_owned :
    ℕ → ℕ → String → String → String → String → String → ℕ → Db → Db
unfolding update_where
update_task_progress_owned stamp now id owner node action shared steps db = record db {
  tasks =
      update_where (holds_lease now id owner) (set_progress stamp node action shared steps)
        db.tasks;
}
