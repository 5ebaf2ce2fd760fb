-- ===== src/Examples/Stored.antt =====
-- The theorems on the tables, applied.
use pocket_flow_go.Store.Sql.Laws.{Keyed}
use pocket_flow_go.Prelude.{
  String, ◌==◌, ℕ, ◌∷◌, ◌≡◌, [], false, ◌≢◌, arith, refl, eq_iff, inl, inr, some,
}
use pocket_flow_go.Store.Tasks.{
  lease_next_task, update_task_status_owned, get_task, update_task_progress_owned, joined,
  update_task_status,
}
use pocket_flow_go.Store.{Task, WorkerInfo, empty_db}
use pocket_flow_go.Store.Sql.{oldest, update_where}
use pocket_flow_go.Examples.{one_leased, two_waiting, waiting_task}
use pocket_flow_go.Store.Tasks.Laws.{owned_updates-Foreign}
use pocket_flow_go.Prelude.Int.{pos}
use pocket_flow_go.Store.Tasks.Leases.{lease-canceling}
use pocket_flow_go.Store.Workers.Laws.{find_worker, alive, heartbeat-shared_url}
use pocket_flow_go.Store.Workers.{refresh_workers_status, heartbeat_worker}

pub other_text : (a b : String) → (a == b) ≡ false → a ≢ b
other_text a b h same = ground (arith, eq_iff a b)

pub Keyed-waiting : Keyed (λ (r : Task). r.id) two_waiting.tasks
Keyed-waiting = ((other_text "t2" "t1" refl, tt), (tt, tt))

lease-canceling_example : ◌≢◌ {A = String} "t1" "t2"
unfolding lease_next_task oldest update_where get_task joined update_task_status
lease-canceling_example =
    lease-canceling 10 9 15 "t2" "s1" two_waiting _ (waiting_task "t1" "pending" 7) refl

-- A scheduler "s2" that no longer holds the lease of "t1".
owned_updates-Foreign_example :
    (update_task_status_owned 100 100 "t1" "s2" "failed" (one_leased "running").db
      ≡ (one_leased "running").db)
    × (update_task_progress_owned 100 100 "t1" "s2" "b" "x" "{}" 1 (one_leased "running").db
        ≡ (one_leased "running").db)
owned_updates-Foreign_example =
    owned_updates-Foreign 100 100 "t1" "s2" "failed" "b" "x" "{}" 1 (one_leased "running").db
      (inl (other_text "t0" "t1" refl), (inr (inl (other_text "s1" "s2" refl)), tt))

abbrev worker : String → ℕ → WorkerInfo
worker id load = record {
  id = id;
  url = id;
  services = [];
  load = pos load;
  last_heartbeat = 0;
  status = "online";
  worker_type = "";
}

abbrev pull_worker : String → WorkerInfo
pull_worker id = record {
  id = id;
  url = "queue";
  services = [];
  load = pos 3;
  last_heartbeat = 5;
  status = "online";
  worker_type = "async";
}

-- "w2" is silent since 5, and "w1" sends a heartbeat at 100.
heartbeat-shared_url_example :
    find_worker "w2" (
      refresh_workers_status 110 (pos 15) (
        heartbeat_worker 100 "w1" "queue"
          (pos 0)
          (record empty_db { workers = pull_worker "w1" ∷ pull_worker "w2" ∷ [] })))
    ≡ some (alive 100 (pos 0) (pull_worker "w2"))
heartbeat-shared_url_example =
    heartbeat-shared_url 100 110 (pos 15) "w1" (pos 0) (pull_worker "w2")
      (record empty_db { workers = pull_worker "w1" ∷ pull_worker "w2" ∷ [] }) refl (omega arith)
