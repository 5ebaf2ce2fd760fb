-- ===== src/Examples/Queued.antt =====
-- The way of work through the queue, applied.
use pocket_flow_go.Worker.Async.{AsyncWorker, run_service, async_round, worked}
use pocket_flow_go.Engine.{Engine, World}
use pocket_flow_go.Engine.Executor.Result.{ExecutorInput, failure}
use pocket_flow_go.Value.{Value, obj, field, at, null, str, empty}
use pocket_flow_go.Store.Runs.{list_node_runs}
use pocket_flow_go.Examples.{one_leased, leased_task, toy_engine, toy_runtime}
use pocket_flow_go.Store.Sql.{order_by}
use pocket_flow_go.Prelude.Int.{ℤ, ◌+ℤ◌}
use pocket_flow_go.Engine.Executor.Queued.{last_run, exec_queue}
use pocket_flow_go.Prelude.{some, ◌∷◌, [], none, ◌≡◌, refl}
use pocket_flow_go.Flow.{zero_node}
use pocket_flow_go.Engine.Core.Laws.{Ends}
use pocket_flow_go.Error.{ok, async_pending}
use pocket_flow_go.Worker.Async.Served.{server_api}
use pocket_flow_go.Worker.Async.RoundTrip.{Returns, queue_round_trip}
use pocket_flow_go.Examples.Stored.{other_text}

abbrev sent : Value ℤ
sent = obj (field "status" (str "sent") (field "to" (str "") empty))

abbrev mail_engine : Engine ℤ
mail_engine = record toy_engine {
  uuid = λ n. "x";
  rt = record toy_runtime { unmarshal = λ s. some sent };
}

abbrev mail_worker : AsyncWorker ℤ
mail_worker = record {
  kit = record {
    rt = toy_runtime;
    add = ◌+ℤ◌;
    mul = λ a b. a;
    upper = λ s. s;
    lower = λ s. s;
    show = λ v. "";
  };
  worker_id = "w1";
  services = "email-service" ∷ [];
  payload_of = λ s. ok (record { input = null; params = empty });
  run_id_of = λ s. "run-x";
  make_log_dir = λ n. none;
  log_file = λ n id. id;
  create_file = λ n path. none;
}

abbrev mail_input : ExecutorInput ℤ
mail_input = record {
  task = leased_task "running";
  node = record zero_node { exec_type = "queue"; service = "email-service" };
  node_key = "a";
  input = null;
  params = empty;
}

abbrev mail_world : World
mail_world = one_leased "running"

queue_round_trip_example : Ends (exec_queue mail_engine mail_input mail_world) (λ first w1.
    (first ≡ failure "queue" "queue" async_pending)
    × Ends (async_round mail_worker (server_api mail_engine) w1) (λ round w2.
      (round ≡ worked "q-x" none)
      × Returns mail_engine mail_input mail_worker
          (ok sent)
          (exec_queue mail_engine mail_input w2)
          w2))
unfolding list_node_runs order_by last_run run_service at
queue_round_trip_example =
    queue_round_trip mail_engine mail_input mail_worker mail_world (leased_task "running") (ok sent)
      refl refl refl refl refl refl (λ n. refl, λ n path. refl) refl (other_text "run-x" "" refl)
      refl refl (refl, refl)
