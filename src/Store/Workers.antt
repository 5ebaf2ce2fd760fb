-- ===== src/Store/Workers.antt =====
-- The worker registry (pkg/store/sqlstore/sqlite.go).
pub mod Laws
use pocket_flow_go.Prelude.{
  String, ℕ, Bool, List, if◌then◌else◌, ◌==◌, any, ltb, not, select, ◌∷◌, ◌&&◌, ◌+◌, [], ◌||◌,
}
use pocket_flow_go.Store.{WorkerInfo, Db}
use pocket_flow_go.Store.Sql.{update_where}
use pocket_flow_go.Prelude.Int.{ℤ, is_pos, pos_part}

abbrev with_type : WorkerInfo → WorkerInfo
with_type w = if w.worker_type == "" then record w { worker_type = "http" } else w

-- ON CONFLICT(id) DO UPDATE SET every other column
unfoldable pub upsert : WorkerInfo → List WorkerInfo → List WorkerInfo
upsert w [] = w ∷ []
upsert w (v ∷ vs) = let rest = upsert w vs in if v.id == w.id then w ∷ vs else v ∷ rest

unfoldable pub register_worker : ℕ → WorkerInfo → Db → Db
unfolding upsert
register_worker now w db = record db {
  workers = upsert (record (with_type w) { last_heartbeat = now }) db.workers;
}

unfoldable pub heartbeat_worker : ℕ → String → String → ℤ → Db → Db
unfolding update_where
heartbeat_worker now id url load db = record db {
  workers =
      update_where (λ w. w.id == id || w.url == url)
        (λ w. record w { last_heartbeat = now; load = load; status = "online" }) db.workers;
}

-- last_heartbeat < now - ttl, for a positive ttl
abbrev pub is_stale : ℕ → ℤ → WorkerInfo → Bool
is_stale now ttl w = ltb (w.last_heartbeat + pos_part ttl) now

unfoldable pub refresh_workers_status : ℕ → ℤ → Db → Db
unfolding update_where
refresh_workers_status now ttl db =
    if is_pos ttl
    then record db {
      workers =
          update_where (λ w. ltb 0 w.last_heartbeat && is_stale now ttl w)
            (λ w. record w { status = "offline" }) db.workers;
    }
    else db

abbrev pub offers : String → WorkerInfo → Bool
offers service w = any (λ s. s == service) w.services

-- The loop over the rows: both `continue`s are tests that the row has to pass.
abbrev pub is_listed : ℕ → String → ℤ → WorkerInfo → Bool
is_listed now service ttl w =
    not (is_pos ttl && is_stale now ttl w) && (service == "" || offers service w)

unfoldable pub list_workers : ℕ → String → ℤ → Db → List WorkerInfo
list_workers now service ttl db = select (is_listed now service ttl) db.workers
