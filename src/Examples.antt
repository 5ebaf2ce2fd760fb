-- ===== src/Examples.antt =====
-- A small installation, at which the theorems are applied: an engine whose outside is fixed, tasks,
-- work in the queue and workers.
mod Stored
mod Stepped
mod Executed
mod Served
mod Waited
mod Read
mod Traced
mod Queued
mod Fanned
mod Clients
mod Scheduled
use pocket_flow_go.Store.{Db, Task, empty_db, QueueTask}
use pocket_flow_go.Flow.{DefNode, FlowDef}
use pocket_flow_go.Engine.{Engine, World}
use pocket_flow_go.Runtime.{Runtime}
use pocket_flow_go.Prelude.{String, ℕ, [], some, ◌∷◌, none, false}
use pocket_flow_go.Prelude.Int.{ℤ, ltb_ℤ, pos, eq_ℤ}
use pocket_flow_go.Value.{Object, null, obj, empty}
use pocket_flow_go.Engine.Core.{NodeRunInput}
use pocket_flow_go.Prelude.Decimal.{atoi, itoa}
use pocket_flow_go.Error.{ok}

abbrev pub toy_runtime : Runtime ℤ
toy_runtime = record {
  float_lt = ltb_ℤ;
  float_eq = eq_ℤ;
  of_int = λ n. n;
  to_int = λ n. n;
  parse_float = atoi;
  format_float = λ n. "1";
  marshal = λ v. "{}";
  unmarshal = λ s. some (obj empty);
}

-- The clock stands at 100 seconds.
abbrev pub toy_engine : Engine ℤ
toy_engine = record {
  rt = toy_runtime;
  decode_start = λ s. "a";
  decode_flow = λ s. some (record { start = "a"; nodes = []; edges = [] });
  owner = "s1";
  local_funcs = λ name. none;
  clock = λ n. 100000;
  uuid = λ n. itoa n;
  http = λ n url body. none;
  temp_file = λ n pattern. ok pattern;
  run_command = λ n c. record { output = ""; failed = false };
  arrival = λ n count. [];
  patience = 10;
}

abbrev pub waiting_task : String → String → ℕ → Task
waiting_task id status updated = record {
  id = id;
  flow_version_id = "fv1";
  status = status;
  params_json = "{}";
  shared_json = "{}";
  current_node_key = "a";
  last_action = "";
  step_count = 0;
  retry_state_json = "{}";
  lease_owner = "";
  lease_expiry = 0;
  request_id = "";
  created_at = 1;
  updated_at = updated;
  flow_id = "";
  flow_name = "";
  flow_version = pos 0;
}

abbrev pub leased_task : String → Task
leased_task status = record (waiting_task "t1" status 5) { lease_owner = "s1"; lease_expiry = 150 }

abbrev pub queued_work : String → ℕ → QueueTask
queued_work id created = record {
  id = id;
  task_id = "t1";
  node_key = "a";
  service = "sum";
  input_json = "{}";
  status = "pending";
  worker_id = "";
  created_at = created;
  started_at = 0;
  timeout_at = 0;
}

abbrev pub two_waiting : Db
two_waiting = record empty_db {
  tasks = waiting_task "t1" "pending" 7 ∷ waiting_task "t2" "running" 5 ∷ [];
}

abbrev pub two_queued : Db
two_queued = record empty_db { task_queue = queued_work "q1" 9 ∷ queued_work "q2" 8 ∷ [] }

abbrev pub one_leased : String → World
one_leased status = record {
  db = record empty_db { tasks = waiting_task "t0" "pending" 3 ∷ leased_task status ∷ [] };
  tick = 0;
}

-- A node "a" with two edges, to "b" and to "c".
abbrev pub toy_flow : FlowDef ℤ
toy_flow = record {
  start = "a";
  nodes = [];
  edges =
      record { from = "a"; action = "default"; to = "b" }
      ∷ record { from = "a"; action = "approved"; to = "c" }
      ∷ [];
}

-- A run of node "a" with these settings, shared data and parameters.
abbrev pub run_of : DefNode ℤ → Object ℤ → Object ℤ → NodeRunInput ℤ
run_of node shared params = record {
  task = leased_task "running";
  flow_def = toy_flow;
  node = node;
  subflow = none;
  node_key = "a";
  shared = shared;
  params = params;
  input = null;
}
