-- ===== src/Examples/Served.antt =====
-- The theorems on the handlers, applied.
use pocket_flow_go.Server.Queue.{Completion, handle_queue_complete}
use pocket_flow_go.Engine.Core.Laws.{Ends}
use pocket_flow_go.Prelude.{String, ℕ, ◌∷◌, [], ◌≡◌, some, true, ◌⊎◌, arith, refl, eq_iff}
use pocket_flow_go.Engine.{World}
use pocket_flow_go.Store.Tasks.{get_task, joined, set_progress, set_status}
use pocket_flow_go.Store.{empty_db, WorkerInfo, FlowRow}
use pocket_flow_go.Server.Workers.{handle_allocate, handle_register_worker}
use pocket_flow_go.Prelude.Int.{ℤ, pos}
use pocket_flow_go.Server.Tasks.{handle_task_signal}
use pocket_flow_go.Value.{null, bool}
use pocket_flow_go.Examples.{toy_engine, waiting_task, queued_work}
use pocket_flow_go.Store.Tasks.Laws.{find_task}
use pocket_flow_go.Server.{error_body, worker_body}
use pocket_flow_go.Store.Workers.{list_workers}
use pocket_flow_go.Server.Queue.Laws.{handle_queue_complete-wakes}
use pocket_flow_go.Server.Tasks.Laws.{handle_task_signal-row}
use pocket_flow_go.Server.Workers.Laws.{Allocated, handle_allocate-Allocated}
use mathlib.Core.List.{Perm}
use pocket_flow_go.Server.Listing.Laws.{pages, flows_of, handle_list_flows-pages}
use pocket_flow_go.Server.Workers.Alive.{register-allocate}
use pocket_flow_go.Server.Listing.{handle_list_flows}

abbrev completion : Completion ℤ
completion = record { queue_id = "q1"; result = null; error = ""; log_path = ""; run_id = "" }

abbrev queued_world : World
queued_world = record {
  db = record empty_db {
    tasks = waiting_task "t1" "waiting_queue" 5 ∷ [];
    task_queue = queued_work "q1" 9 ∷ [];
  };
  tick = 0;
}

handle_queue_complete-wakes_example :
    Ends (handle_queue_complete toy_engine completion queued_world) (λ res v.
      (stamp : ℕ) × (find_task "t1" v.db
        ≡ some (set_status stamp "pending" (waiting_task "t1" "waiting_queue" 5))))
handle_queue_complete-wakes_example =
    handle_queue_complete-wakes toy_engine completion queued_world (queued_work "q1" 9)
      (waiting_task "t1" "waiting_queue" 5) refl refl

handle_task_signal-row_example :
    Ends (handle_task_signal toy_engine "t1" "go" (bool true) queued_world) (λ res v.
      (res.code ≡ 200)
      × (stamp : ℕ) × (find_task "t1" v.db
          ≡ some (set_progress stamp "a" "" "{}" 0 (waiting_task "t1" "waiting_queue" 5))))
unfolding get_task joined
handle_task_signal-row_example =
    handle_task_signal-row toy_engine "t1" "go" (bool true) queued_world
      (waiting_task "t1" "waiting_queue" 5) (waiting_task "t1" "waiting_queue" 5)
      (λ same. ground (arith, eq_iff "t1" "", same)) (λ same. ground (arith, eq_iff "go" "", same))
      refl refl

abbrev fresh_worker : String → ℕ → WorkerInfo
fresh_worker id load = record {
  id = id;
  url = id;
  services = "sum" ∷ [];
  load = pos load;
  last_heartbeat = 95;
  status = "online";
  worker_type = "";
}

abbrev two_workers : World
two_workers = record {
  db = record empty_db { workers = fresh_worker "w1" 4 ∷ fresh_worker "w2" 1 ∷ [] };
  tick = 0;
}

handle_allocate-Allocated_example : Ends (handle_allocate toy_engine "sum" two_workers) (λ res v.
    ((res ≡ record { code = 500; body = error_body "no worker" })
      × (list_workers 100 "sum" (pos 15) v.db ≡ []))
    ⊎ ((x : WorkerInfo) × (res ≡ record { code = 200; body = worker_body x })
        × Allocated 100 "sum" v.db x))
handle_allocate-Allocated_example = handle_allocate-Allocated toy_engine "sum" two_workers

-- A worker registers, and another one is there already.
register-allocate_example :
    Ends (handle_register_worker toy_engine "w3" "u3" ("sum" ∷ []) "" two_workers) (λ res w1.
      (res.code ≡ 200)
      × Ends (handle_allocate toy_engine "sum" w1) (λ answer w2.
        (x : WorkerInfo) × (answer ≡ record { code = 200; body = worker_body x })
        × Allocated 100 "sum" w2.db x))
register-allocate_example =
    register-allocate toy_engine "w3" "u3" "sum" "" ("sum" ∷ []) two_workers refl (omega arith)

abbrev flow_row : String → ℕ → FlowRow
flow_row id created = record { id = id; name = id; description = ""; created_at = created }

abbrev two_flows : World
two_flows = record {
  db = record empty_db { flows = flow_row "f1" 1 ∷ flow_row "f2" 2 ∷ [] };
  tick = 0;
}

-- Two pages of one row each.
handle_list_flows-pages_example :
    Perm (pages (λ p. flows_of (handle_list_flows (pos p) (pos 1) two_flows)) 2) two_flows.db.flows
handle_list_flows-pages_example =
    handle_list_flows-pages 2 1 two_flows (omega arith) (omega arith) (omega arith)
