-- ===== src/Store.antt =====
-- The rows of the database (pkg/store/store.go) and its tables (pkg/store/sqlstore/sqlite.go).
-- A statement is a function on the tables, with the time of the call as an argument; failures of
-- the disk are not modelled. Texts that hold JSON stay texts, but for the services of a worker,
-- which are kept as the list that the column encodes.
pub mod Sql
pub mod Workers
pub mod Tasks
pub mod Runs
pub mod Queue
pub mod Trace
pub mod Flows
pub mod Listing
use pocket_flow_go.Prelude.{List, String, [], ℕ}
use pocket_flow_go.Prelude.Int.{ℤ}

pub record WorkerInfo : Type 0 where
  pub id : String
  pub url : String
  pub services : List String
  pub load : ℤ
  pub last_heartbeat : ℕ
  pub status : String
  pub worker_type : String

pub record FlowRow : Type 0 where
  pub id : String
  pub name : String
  pub description : String
  pub created_at : ℕ

pub record FlowVersion : Type 0 where
  pub id : String
  pub flow_id : String
  pub version : ℤ
  pub definition_json : String
  pub status : String

-- The last three fields are joined in when a task is read.
pub record Task : Type 0 where
  pub id : String
  pub flow_version_id : String
  pub status : String
  pub params_json : String
  pub shared_json : String
  pub current_node_key : String
  pub last_action : String
  pub step_count : ℕ
  pub retry_state_json : String
  pub lease_owner : String
  pub lease_expiry : ℕ
  pub request_id : String
  pub created_at : ℕ
  pub updated_at : ℕ
  pub flow_id : String
  pub flow_name : String
  pub flow_version : ℤ

pub record NodeRun : Type 0 where
  pub id : String
  pub task_id : String
  pub node_key : String
  pub attempt_no : ℕ
  pub status : String
  pub sub_status : String
  pub branch_id : String
  pub prep_json : String
  pub exec_input_json : String
  pub exec_output_json : String
  pub error_text : String
  pub action : String
  pub started_at : ℕ
  pub finished_at : ℕ
  pub worker_id : String
  pub worker_url : String
  pub log_path : String

pub record QueueTask : Type 0 where
  pub id : String
  pub task_id : String
  pub node_key : String
  pub service : String
  pub input_json : String
  pub status : String
  pub worker_id : String
  pub created_at : ℕ
  pub started_at : ℕ
  pub timeout_at : ℕ

pub record Db : Type 0 where
  pub workers : List WorkerInfo
  pub flows : List FlowRow
  pub flow_versions : List FlowVersion
  pub tasks : List Task
  pub node_runs : List NodeRun
  pub task_queue : List QueueTask

abbrev pub empty_db : Db
empty_db = record {
  workers = [];
  flows = [];
  flow_versions = [];
  tasks = [];
  node_runs = [];
  task_queue = [];
}
