-- ===== src/Engine/Executor/Result.antt =====
-- What an execution is given and gives back (pkg/engine/types.go).
use pocket_flow_go.Prelude.{String, Option, none, ℕ, Bool, false, not, some, ◌||◌, ◌&&◌, leb}
use pocket_flow_go.Store.{Task}
use pocket_flow_go.Value.{Value, obj, Object, field, null, empty}
use pocket_flow_go.Prelude.Int.{ℤ, eq_ℤ, pos, is_pos, pos_part}
use pocket_flow_go.Flow.{DefNode}
use pocket_flow_go.Error.{Err}

pub record ExecutorInput (F : Type 0) : Type 0 where
  pub task : Task
  pub node : DefNode F
  pub node_key : String
  pub input : Value F
  pub params : Object F

pub record ExecutorResult (F : Type 0) : Type 0 where
  pub result : Value F
  pub worker_id : String
  pub worker_url : String
  pub log_path : String
  pub error : Option Err
  pub skip_record : Bool

-- ExecutorResult{WorkerID: …, WorkerURL: …, Error: …}
abbrev pub failure : {F : Type 0} → String → String → Err → ExecutorResult F
failure worker_id worker_url x = record {
  result = null;
  worker_id = worker_id;
  worker_url = worker_url;
  log_path = "";
  error = some x;
  skip_record = false;
}

abbrev pub success : {F : Type 0} → Value F → String → String → String → ExecutorResult F
success v worker_id worker_url log_path = record {
  result = v;
  worker_id = worker_id;
  worker_url = worker_url;
  log_path = log_path;
  error = none;
  skip_record = false;
}

-- {"input": in.Input, "params": in.Params}
abbrev pub payload : {F : Type 0} → ExecutorInput F → Value F
payload inp = obj (field "input" inp.input (field "params" (obj inp.params) empty))

-- attempts go on: not (MaxAttempts == 0 || (MaxAttempts > 0 && attempts >= MaxAttempts))
abbrev pub goes_on : ℤ → ℕ → Bool
goes_on max_attempts attempts =
    not (eq_ℤ max_attempts (pos 0) || is_pos max_attempts && leb (pos_part max_attempts) attempts)

-- ternary(err == nil, "ok", "error")
abbrev pub ok_or_error : Option Err → String
ok_or_error none = "ok"
ok_or_error (some x) = "error"
