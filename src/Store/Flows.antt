-- ===== src/Store/Flows.antt =====
-- Flows and their versions (pkg/store/sqlstore/sqlite.go).
use pocket_flow_go.Prelude.{
  List, Option, String, ℕ, none, find_first, select, ◌∷◌, ◌==◌, some, ◌&&◌, if◌then◌else◌, [],
}
use pocket_flow_go.Store.Sql.{insert_row}
use pocket_flow_go.Store.{Db, FlowVersion, FlowRow}
use pocket_flow_go.Prelude.Int.{ℤ, eq_ℤ, leb_ℤ}
use pocket_flow_go.Error.{Result, err, constraint, no_rows, ok}

abbrev pub new_flow : ℕ → String → String → String → FlowRow
new_flow now id name description = record {
  id = id;
  name = name;
  description = description;
  created_at = now;
}

unfoldable pub create_flow : ℕ → String → String → String → Db → Result String × Db
unfolding insert_row
create_flow now id name description db =
    elim (insert_row (λ (f : FlowRow). f.id) (new_flow now id name description) db.flows) [
      | none ↦ (err constraint, db)
      | some flows ↦ (ok id, record db { flows = flows })
    ]

abbrev pub new_flow_version : String → String → ℤ → String → String → FlowVersion
new_flow_version id flow_id version definition_json status = record {
  id = id;
  flow_id = flow_id;
  version = version;
  definition_json = definition_json;
  status = status;
}

unfoldable pub create_flow_version : String → String → ℤ → String → String → Db → Result String × Db
unfolding insert_row
create_flow_version id flow_id version definition_json status db =
    elim (insert_row (λ (v : FlowVersion). v.id)
      (new_flow_version id flow_id version definition_json status) db.flow_versions) [
        | none ↦ (err constraint, db)
        | some versions ↦ (ok id, record db { flow_versions = versions })
      ]

abbrev found : Option FlowVersion → Result FlowVersion
found none = err no_rows
found (some fv) = ok fv

unfoldable pub get_flow_version_by_id : String → Db → Result FlowVersion
get_flow_version_by_id id db = found (find_first (λ (v : FlowVersion). v.id == id) db.flow_versions)

unfoldable pub get_flow_version_by_flow_id_and_version : String → ℤ → Db → Result FlowVersion
get_flow_version_by_flow_id_and_version flow_id version db = found (
    find_first (λ (v : FlowVersion). v.flow_id == flow_id && eq_ℤ v.version version)
      db.flow_versions)

-- ORDER BY version DESC LIMIT 1; of rows with one version, the row stored first
unfoldable pub newest : List FlowVersion → Option FlowVersion
newest [] = none
newest (v ∷ vs) = elim (newest vs) [
  | none ↦ some v
  | some w ↦ if leb_ℤ w.version v.version then some v else some w
]

unfoldable pub latest_published_version : String → Db → Result FlowVersion
unfolding newest
latest_published_version flow_id db = found (
    newest (
      select (λ (v : FlowVersion). v.flow_id == flow_id && v.status == "published")
        db.flow_versions))
