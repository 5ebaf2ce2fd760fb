-- ===== src/Server/Workers.antt =====
-- The worker registry's end points (pkg/server/server.go).
pub mod Laws
pub mod Alive
use pocket_flow_go.Engine.{Engine, M, ◌>>=◌, now_unix, ◌>>◌, modify, gets}
use pocket_flow_go.Store.{WorkerInfo}
use pocket_flow_go.Prelude.{List, String, ◌∷◌, if◌then◌else◌, [], ℕ}
use pocket_flow_go.Store.Workers.{
  heartbeat_worker, refresh_workers_status, register_worker, list_workers,
}
use pocket_flow_go.Prelude.Int.{ℤ, ltb_ℤ, pos}
use pocket_flow_go.Server.{Response, respond_ok, respond_error, respond, worker_body}

-- `best := lst[0]; for … { if wkr.Load < best.Load { best = wkr } }`
unfoldable pub least_loaded : WorkerInfo → List WorkerInfo → WorkerInfo
least_loaded best [] = best
least_loaded best (w ∷ ws) = least_loaded (if ltb_ℤ w.load best.load then w else best) ws

abbrev pub registration : String → String → List String → String → ℕ → WorkerInfo
registration id url services worker_type heartbeat = record {
  id = id;
  url = url;
  services = services;
  load = pos 0;
  last_heartbeat = heartbeat;
  status = "online";
  worker_type = worker_type;
}

module _ {F : Type 0} (e : Engine F) where
  unfoldable pub handle_register_worker : String → String → List String → String → M Response
  unfolding register_worker
  handle_register_worker id url services worker_type = do
    heartbeat ← now_unix e
    now ← now_unix e
    modify (register_worker now (registration id url services worker_type heartbeat))
    respond_ok

  unfoldable pub handle_heartbeat : String → String → ℤ → M Response
  unfolding heartbeat_worker
  handle_heartbeat id url load = do
    now ← now_unix e
    modify (heartbeat_worker now id url load)
    respond_ok

  unfoldable pub handle_allocate : String → M Response
  unfolding refresh_workers_status list_workers least_loaded
  handle_allocate service = do
    refreshed ← now_unix e
    modify (refresh_workers_status refreshed (pos 15))
    now ← now_unix e
    lst ← gets (list_workers now service (pos 15))
    elim lst [
      | [] ↦ respond_error 500 "no worker"
      | w ∷ ws ↦ respond 200 (worker_body (least_loaded w (w ∷ ws)))
    ]
