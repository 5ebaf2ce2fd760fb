-- ===== src/Server/Tasks/Laws.antt =====
-- What a signal writes.
use pocket_flow_go.Store.Tasks.{set_progress}
use pocket_flow_go.Engine.{Engine, World, to_json, object_of, unix}
use pocket_flow_go.Server.Tasks.{handle_task_signal}
use pocket_flow_go.Prelude.{String, ◌≢◌, ◌≡◌, some, ℕ, ◌==◌, false, arith, eq_iff, refl}
use pocket_flow_go.Value.{Value, obj, put}
use pocket_flow_go.Store.{Task}
use pocket_flow_go.Store.Tasks.{get_task}
use pocket_flow_go.Error.{ok}
use pocket_flow_go.Store.Tasks.Laws.{find_task, find-update_task_progress}
use pocket_flow_go.Engine.Core.Laws.{Ends}

module _ {F : Type 0} (e : Engine F) where
  -- For a non-empty id and key and a task that is found, handleTaskSignal ends with the status
  -- 200, and leaves the row at its node and step count, without an action, with the key set to
  -- the value in the shared data.
  pub handle_task_signal-row :
      (id key : String) (value : Value F) (w : World) (r t : Task)
      → id ≢ ""
      → key ≢ ""
      → get_task id w.db ≡ ok t
      → find_task id w.db ≡ some r
      → Ends (handle_task_signal e id key value w) (λ res v.
        (res.code ≡ 200)
        × (stamp : ℕ) × (find_task id v.db
            ≡ some (
                set_progress stamp t.current_node_key ""
                  (to_json e (obj (put key value (object_of e t.shared_json))))
                  t.step_count
                  r)))
  unfolding handle_task_signal
  handle_task_signal-row id key value w r t named keyed read found =
      let a : (id == "") ≡ false = ground (arith, eq_iff id "", named) in
      let b : (key == "") ≡ false = ground (arith, eq_iff key "", keyed) in
      rw (a, b, read)
        (
          refl,
          unix e w.tick,
          find-update_task_progress id w.db r found (unix e w.tick) t.current_node_key ""
              (to_json e (obj (put key value (object_of e t.shared_json)))) t.step_count,
        )
