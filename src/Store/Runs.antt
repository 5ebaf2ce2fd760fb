-- ===== src/Store/Runs.antt =====
-- The history of node runs (pkg/store/sqlstore/sqlite.go). A column that the caller's map leaves out
-- is NULL, which reads as the empty text.
use pocket_flow_go.Prelude.{String, ◌==◌, List, find_first, select, none, some}
use pocket_flow_go.Store.Sql.{insert_row, order_by, update_where}
use pocket_flow_go.Store.{Db, NodeRun}
use pocket_flow_go.Error.{Result, err, constraint, no_rows, ok}

unfoldable pub create_node_run : NodeRun → Db → Result (Unit {0}) × Db
unfolding insert_row
create_node_run nr db = elim (insert_row (λ (r : NodeRun). r.id) nr db.node_runs) [
  | none ↦ (err constraint, db)
  | some runs ↦ (ok tt, record db { node_runs = runs })
]

-- SaveNodeRun: the same under a fresh id
unfoldable pub save_node_run : String → NodeRun → Db → Result (Unit {0}) × Db
unfolding create_node_run
save_node_run id nr db = create_node_run (record nr { id = id }) db

-- The map of updates is the function that writes its columns.
unfoldable pub update_node_run : String → (NodeRun → NodeRun) → Db → Db
unfolding update_where
update_node_run id set db = record db {
  node_runs = update_where (λ r. r.id == id) set db.node_runs;
}

unfoldable pub list_node_runs : String → Db → List NodeRun
unfolding order_by
list_node_runs task_id db =
    order_by (λ (r : NodeRun). r.started_at)
      (select (λ (r : NodeRun). r.task_id == task_id) db.node_runs)

unfoldable pub get_node_run : String → Db → Result NodeRun
get_node_run id db = elim (find_first (λ (r : NodeRun). r.id == id) db.node_runs) [
  | none ↦ err no_rows
  | some r ↦ ok r
]
