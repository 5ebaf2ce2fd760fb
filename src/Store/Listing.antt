-- ===== src/Store/Listing.antt =====
-- The statements that list rows for the user interface (pkg/store/sqlstore/sqlite.go).
pub mod Laws
use pocket_flow_go.Prelude.{
  Bool, List, String, if◌then◌else◌, ◌∷◌, ◌==◌, [], ℕ, leb, select, take, ◌||◌, ◌&&◌, length, drop,
}
use pocket_flow_go.Store.Tasks.{joined}
use pocket_flow_go.Prelude.Int.{ℤ, is_pos, leb_ℤ, pos_part}
use pocket_flow_go.Store.{Db, Task, FlowRow, FlowVersion}

module _ {A : Type 0} where
  unfoldable pub insert_with : (A → A → Bool) → A → List A → List A
  insert_with before r [] = r ∷ []
  insert_with before r (s ∷ ss) = if before r s then r ∷ s ∷ ss else s ∷ insert_with before r ss

  -- ORDER BY, with `before r s` where a row r that is stored before s also comes before it
  unfoldable pub order_with : (A → A → Bool) → List A → List A
  unfolding insert_with
  order_with before [] = []
  order_with before (r ∷ rs) = insert_with before r (order_with before rs)

  -- `if limit > 0 { q += " LIMIT … OFFSET …" }`; SQLite takes a negative offset for 0
  abbrev pub window : ℤ → ℤ → List A → List A
  window limit offset rows =
      if is_pos limit then take (pos_part limit) (drop (pos_part offset) rows) else rows

-- The rows of the page, and the count of all rows.
unfoldable pub list_flows : ℤ → ℤ → Db → List FlowRow × ℕ
unfolding order_with
list_flows limit offset db = (
  window limit offset (order_with (λ (f g : FlowRow). leb g.created_at f.created_at) db.flows),
  length db.flows,
)

unfoldable pub list_flow_versions : String → Db → List FlowVersion
unfolding order_with
list_flow_versions flow_id db =
    order_with (λ (v w : FlowVersion). leb_ℤ w.version v.version)
      (select (λ (v : FlowVersion). v.flow_id == flow_id) db.flow_versions)

-- WHERE 1=1, and one more condition for each argument that is not empty
abbrev pub is_asked : String → String → Task → Bool
is_asked status flow_version_id t =
    (status == "" || t.status == status)
    && (flow_version_id == "" || t.flow_version_id == flow_version_id)

map_rows : {A B : Type 0} → (A → B) → List A → List B
map_rows f [] = []
map_rows f (r ∷ rs) = f r ∷ map_rows f rs

unfoldable pub list_tasks : String → String → ℤ → ℤ → Db → List Task × ℕ
unfolding order_with joined map_rows
list_tasks status flow_version_id limit offset db =
    let asked = select (is_asked status flow_version_id) db.tasks in
    (
      map_rows (joined db)
          (window limit offset (order_with (λ (t u : Task). leb u.updated_at t.updated_at) asked)),
      length asked,
    )
