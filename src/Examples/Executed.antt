-- ===== src/Examples/Executed.antt =====
-- The theorems on the executors and on nodes with branches, applied.
use pocket_flow_go.Engine.Fanout.{Collected, store_result, fanout_action}
use pocket_flow_go.Flow.{DefNode, zero_node, Post}
use pocket_flow_go.Engine.Executor.Result.{ExecutorInput, success, failure}
use pocket_flow_go.Engine.Fanout.Laws.{Same, store_result_swap, fanout_action-key}
use pocket_flow_go.Prelude.{String, false, ◌∷◌, [], ◌≡◌, arith, eq_iff, inr, refl, none, some}
use pocket_flow_go.Engine.Executor.Node.{run_executor_node}
use pocket_flow_go.Store.{NodeRun, empty_db}
use pocket_flow_go.Engine.{World, Engine}
use pocket_flow_go.Prelude.Int.{ℤ, pos}
use pocket_flow_go.Value.{empty, int, null, str}
use pocket_flow_go.Examples.{leased_task, toy_engine, run_of, one_leased}
use pocket_flow_go.Error.{text, ok}
use pocket_flow_go.Engine.Core.Laws.{Ends, Writable}
use pocket_flow_go.Engine.Executor.Node.Rows.{Leads, run_executor_node-Leads}

abbrev queue_node : DefNode ℤ
queue_node = record zero_node { exec_type = "unknown"; max_retries = pos 2 }

-- The function "echo" answers with its input.
abbrev echo_engine : Engine ℤ
echo_engine = record toy_engine { local_funcs = λ name. some (λ n input params. ok input) }

abbrev echo_node : DefNode ℤ
echo_node = record zero_node {
  exec_type = "local_func";
  func = "echo";
  max_retries = pos 2;
  max_attempts = pos 3;
}

echo_held : Writable echo_engine (leased_task "running")
echo_held = inr (λ same. ground (arith, eq_iff "s1" "", same), refl, λ n. omega arith)

run_executor_node-Leads_example :
    Ends (run_executor_node echo_engine (run_of echo_node empty empty) (one_leased "running")) (
      Leads echo_engine
        (run_of echo_node empty empty)
        (leased_task "running")
        (one_leased "running"))
run_executor_node-Leads_example =
    run_executor_node-Leads echo_engine (run_of echo_node empty empty) 3 refl
      (leased_task "running") (one_leased "running") refl echo_held

abbrev queue_run : String → NodeRun
queue_run status = record {
  id = "r1";
  task_id = "t1";
  node_key = "a";
  attempt_no = 1;
  status = status;
  sub_status = "";
  branch_id = "";
  prep_json = "{}";
  exec_input_json = "{}";
  exec_output_json = "{}";
  error_text = "refused";
  action = "";
  started_at = 90;
  finished_at = 0;
  worker_id = "w1";
  worker_url = "queue";
  log_path = "";
}

abbrev with_run : String → World
with_run status = record { db = record empty_db { node_runs = queue_run status ∷ [] }; tick = 0 }

abbrev queue_input : ExecutorInput ℤ
queue_input = record {
  task = leased_task "running";
  node = queue_node;
  node_key = "a";
  input = null;
  params = empty;
}

abbrev nothing_collected : Collected ℤ
nothing_collected = record { done = empty; errs = empty; had_err = false; has_pending = false }

store_result_swap_example :
    Same
      (store_result "sum"
        (success (int (pos 3)) "w" "u" "")
        (store_result "mul" (failure "w" "u" (text "refused")) nothing_collected))
      (store_result "mul"
        (failure "w" "u" (text "refused"))
        (store_result "sum" (success (int (pos 3)) "w" "u" "") nothing_collected))
store_result_swap_example =
    store_result_swap "sum" "mul" (success (int (pos 3)) "w" "u" "")
      (failure "w" "u" (text "refused")) nothing_collected
      (λ same. ground (arith, eq_iff "sum" "mul", same))

abbrev keyed_post : Post
keyed_post = record {
  output_key = "";
  output_map = none;
  action_static = "";
  action_key = "result";
}

fanout_action-key_example :
    fanout_action {F = ℤ} keyed_post (str "approved" ∷ str "rejected" ∷ []) ≡ ""
fanout_action-key_example =
    fanout_action-key {F = ℤ} keyed_post (str "approved" ∷ str "rejected" ∷ []) refl
