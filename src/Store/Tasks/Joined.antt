-- ===== src/Store/Tasks/Joined.antt =====
-- What GetTask reads: the row, with the names of its flow filled in (pkg/store/sqlstore/sqlite.go).
use pocket_flow_go.Store.Tasks.{with_flow}
use pocket_flow_go.Prelude.Int.{ℤ, pos}
use pocket_flow_go.Prelude.{
  String, ◌≡◌, Option-cases, some, find_first, refl, ◌∙◌, ◌==◌, ap, inl, inr,
}
use pocket_flow_go.Store.Tasks.{get_task, joined}
use pocket_flow_go.Store.{Db, Task, FlowVersion, FlowRow}
use pocket_flow_go.Store.Tasks.Laws.{find_task}
use pocket_flow_go.Error.{ok}

-- The row with the flow's id, name and version.
abbrev pub named : String → String → ℤ → Task → Task
named flow name version t = record t { flow_id = flow; flow_name = name; flow_version = version }

-- The join fills these three columns, and no other.
pub joined-named :
    (db : Db) (t : Task)
    → (flow : String) × (name : String) × (version : ℤ) × joined db t ≡ named flow name version t
unfolding joined
joined-named db t =
    elim (Option-cases
      (find_first (λ (v : FlowVersion). v.id == t.flow_version_id) db.flow_versions)) [
        | inl h ↦ ("", "", pos 0, rw (joined, h) refl)
        | inr (fv, h) ↦
            elim (Option-cases (find_first (λ (f : FlowRow). f.id == fv.flow_id) db.flows)) [
              | inl k ↦ ("", "", fv.version, rw (joined, h, with_flow, k) refl)
              | inr (f, k) ↦ (f.id, f.name, fv.version, rw (joined, h, with_flow, k) refl)
            ]
      ]

pub get_task-ok :
    (id : String) (db : Db) (r : Task)
    → find_task id db ≡ some r
    → get_task id db ≡ ok (joined db r)
unfolding get_task joined
get_task-ok id db r h = rw (get_task, h) refl

pub get_task-named :
    (id : String) (db : Db) (r : Task)
    → find_task id db ≡ some r
    → (flow : String) × (name : String) × (version : ℤ) × get_task id db
        ≡ ok (named flow name version r)
get_task-named id db r h =
    let (flow, name, version, e) = joined-named db r in
    (flow, name, version, get_task-ok id db r h ∙ ap ok e)
