-- ===== src/Store/Workers/Laws.antt =====
-- Which workers count as alive.
use pocket_flow_go.Prelude.{
  String, ℕ, Option, find_first, ◌≡◌, ◌==◌, some, ◌≤◌, ◌+◌, ◌||◌, ◌∙◌, Bool-cases, ap,
  if◌then◌else◌, inr, arith, inl, eq_refl, ltb, ◌&&◌, refl,
}
use pocket_flow_go.Store.Workers.{heartbeat_worker, refresh_workers_status, is_stale}
use pocket_flow_go.Store.{Db, WorkerInfo}
use pocket_flow_go.Prelude.Int.{ℤ, pos_part, is_pos}
use pocket_flow_go.Store.Sql.Laws.{find_first-update_where, map_row}

abbrev pub find_worker : String → Db → Option WorkerInfo
find_worker id db = find_first (λ (w : WorkerInfo). w.id == id) db.workers

-- A worker that has just sent a heartbeat with that load.
abbrev pub alive : ℕ → ℤ → WorkerInfo → WorkerInfo
alive now load w = record w { last_heartbeat = now; load = load; status = "online" }

heartbeat_worker-shared :
    (now : ℕ) (id : String) (load : ℤ) (w : WorkerInfo) (db : Db)
    → find_worker w.id db ≡ some w
    → find_worker w.id (heartbeat_worker now id w.url load db) ≡ some (alive now load w)
unfolding heartbeat_worker
heartbeat_worker-shared now id load w db found =
    find_first-update_where (λ (r : WorkerInfo). r.id == w.id) (λ r. r.id == id || r.url == w.url)
      (alive now load) (λ r. refl) db.workers
    ∙ ap (map_row (λ r. if r.id == id || r.url == w.url then alive now load r else r)) found
    ∙ (ground (arith, eq_refl w.url))

refresh-alive :
    (later : ℕ) (ttl : ℤ) (id : String) (w : WorkerInfo) (db : Db)
    → find_worker id db ≡ some w
    → later ≤ w.last_heartbeat + pos_part ttl
    → find_worker id (refresh_workers_status later ttl db) ≡ some w
unfolding refresh_workers_status
refresh-alive later ttl id w db found fresh = elim (Bool-cases (is_pos ttl)) [
  | inr f ↦ rw f found
  | inl t ↦ rw t (
      find_first-update_where (λ (r : WorkerInfo). r.id == id)
        (λ r. ltb 0 r.last_heartbeat && is_stale later ttl r) (λ r. record r { status = "offline" })
        (λ r. refl) db.workers
      ∙ ap
          (map_row (λ r.
            if ltb 0 r.last_heartbeat && is_stale later ttl r
            then record r { status = "offline" }
            else r))
          found
      ∙ (ground arith))
]

-- After a HeartbeatWorker with the URL of a registered worker, under whatever id, and a
-- RefreshWorkersStatus that is at most its ttl later, that worker's row is online, with the
-- heartbeat's time and load.
pub heartbeat-shared_url :
    (now later : ℕ) (ttl : ℤ) (id : String) (load : ℤ) (w : WorkerInfo) (db : Db)
    → find_worker w.id db ≡ some w
    → later ≤ now + pos_part ttl
    → find_worker w.id (refresh_workers_status later ttl (heartbeat_worker now id w.url load db))
      ≡ some (alive now load w)
heartbeat-shared_url now later ttl id load w db found fresh =
    refresh-alive later ttl w.id (alive now load w) (heartbeat_worker now id w.url load db)
      (heartbeat_worker-shared now id load w db found) fresh
