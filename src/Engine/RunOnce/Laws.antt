-- ===== src/Engine/RunOnce/Laws.antt =====
-- When a step of a task is refused, and what a cancellation does.
use pocket_flow_go.Engine.RunOnce.{run_owned, run_leased}
use pocket_flow_go.Prelude.{
  suc, ◌≢◌, some, ◌≤◌, ◌==◌, false, arith, eq_iff, inl, true, inr, leb, ℕ, refl, sym,
}
use pocket_flow_go.Engine.{Engine, World, returned, unix, object_of}
use pocket_flow_go.Prelude.{String, ◌≡◌}
use pocket_flow_go.Engine.RunOnce.{run_once}
use pocket_flow_go.Store.{Db, Task}
use pocket_flow_go.Store.Tasks.{
  get_task, get_task, get_task, get_task, get_task, get_task, get_task, get_task, get_task,
  get_task, get_task, get_task, get_task, get_task,
}
use pocket_flow_go.Error.{ok, text}
use pocket_flow_go.Engine.Core.{cancel_task, save_step}
use pocket_flow_go.Store.Tasks.Laws.{find_task, find_task-id}
use pocket_flow_go.Engine.Core.Laws.{
  Writable, Ends, Moved, Ends-continue, save_step-row, save_node_run-tasks,
}
use pocket_flow_go.Store.Tasks.Joined.{
  get_task-named, get_task-named, named, get_task-named, named, get_task-named, named,
  get_task-named, named, get_task-named, named, get_task-named, named, get_task-named, named,
  get_task-named, named, get_task-named, named, get_task-named, named, get_task-named, named,
  get_task-named, named, get_task-named, named,
}
use pocket_flow_go.Prelude.Int.{ℤ}
use mathlib.Core.Path.{subst}

module _ {F : Type 0} (e : Engine F) where
  -- The row that `RunOnce` starts from.
  abbrev pub Found : String → Db → Task → Type 0
  Found id db t = get_task id db ≡ ok t

  -- For an engine with an owner and a found task with another lease owner, RunOnce returns the
  -- error lease_mismatch and leaves the tables and the clock as they were.
  pub run_once-lease_mismatch :
      (id : String) (w : World) (t : Task)
      → Found id w.db t
      → e.owner ≢ ""
      → t.lease_owner ≢ e.owner
      → run_once e id w ≡ returned (some (text "lease_mismatch")) w
  unfolding run_once run_owned
  run_once-lease_mismatch id w t found owned other =
      let own : (e.owner == "") ≡ false = ground (arith, eq_iff e.owner "", owned) in
      let differ : (t.lease_owner == e.owner) ≡ false =
        ground (arith, eq_iff t.lease_owner e.owner, other) in
      rw (found, own, differ)

  -- For an engine with an owner and a found task whose lease is its own but over, RunOnce returns
  -- the error lease_expired and leaves the tables as they were.
  run_once-lease_expired :
      (id : String) (w : World) (t : Task)
      → Found id w.db t
      → e.owner ≢ ""
      → t.lease_owner ≡ e.owner
      → t.lease_expiry ≤ unix e w.tick
      → run_once e id w ≡ returned (some (text "lease_expired")) (record w { tick = suc w.tick })
  unfolding run_once run_owned
  run_once-lease_expired id w t found owned same late =
      let own : (e.owner == "") ≡ false = ground (arith, eq_iff e.owner "", owned) in
      let equals : (t.lease_owner == e.owner) ≡ true = (eq_iff t.lease_owner e.owner).1 same in
      let over : leb t.lease_expiry (unix e w.tick) ≡ true = ground (arith, late) in
      rw (found, own, equals, over)

  -- `cancelTask`: the row is canceled, and keeps the shared data and the step count.
  cancel_task-row :
      (t r : Task) (w : World)
      → find_task t.id w.db ≡ some r
      → Writable e r
      → Ends (cancel_task e t w) (λ _ v.
        Moved e t.id r "canceled" "" "canceled" (object_of e t.shared_json) t.step_count v)
  unfolding cancel_task
  cancel_task-row t r w found may =
      Ends-continue
        (λ _ v. Moved e t.id r "canceled" "" "canceled" (object_of e t.shared_json) t.step_count v)
        _ (save_step e t.id "canceled" "" "canceled" (object_of e t.shared_json) t.step_count w) _
        (save_step-row e t.id r w found "canceled" "" "canceled" (object_of e t.shared_json)
          t.step_count may)
        (λ _ v (stamp, h). (stamp, rw save_node_run-tasks h))

  -- Where the row may be written, `RunOnce` does what the leased part does with the task as it is
  -- read, at some later reading of the clock.
  abbrev pub Runs : String → World → Task → Type 0
  Runs id w r =
      (flow : String) × (name : String) × (version : ℤ) × (tick : ℕ) × (run_once e id w
        ≡ run_leased e (named flow name version r) (record w { tick = tick }))

  pub run_once-Runs :
      (id : String) (w : World) (r : Task) → find_task id w.db ≡ some r → Writable e r → Runs id w r
  unfolding run_once run_owned
  run_once-Runs id w r found (inl unowned) =
      let nobody : (e.owner == "") ≡ true = (eq_iff e.owner "").1 unowned in
      let (flow, name, version, read) = get_task-named id w.db r found in
      (flow, name, version, w.tick, rw (read, nobody) refl)
  run_once-Runs id w r found (inr (owned, own, live)) =
      let somebody : (e.owner == "") ≡ false = ground (arith, eq_iff e.owner "", owned) in
      let equals : (r.lease_owner == e.owner) ≡ true = (eq_iff r.lease_owner e.owner).1 own in
      let alive : leb r.lease_expiry (unix e w.tick) ≡ false = ground (arith, live w.tick) in
      let (flow, name, version, read) = get_task-named id w.db r found in
      (flow, name, version, suc w.tick, rw (read, somebody, equals, alive) refl)

  -- For a found task in status canceling that the engine may write (it has no owner, or the
  -- task's lease is its own and outlasts every reading of the clock), RunOnce ends, and leaves
  -- the row canceled, without a node, with the action canceled, with its shared data and its step
  -- count.
  pub run_once-canceling :
      (id : String) (w : World) (r : Task)
      → find_task id w.db ≡ some r
      → Writable e r
      → r.status ≡ "canceling"
      → Ends
          (run_once e id w)
          (λ _ v. Moved e id r "canceled" "" "canceled" (object_of e r.shared_json) r.step_count v)
  unfolding run_leased
  run_once-canceling id w r found may asked =
      let (flow, name, version, tick, step) = run_once-Runs id w r found may in
      let canceling : (r.status == "canceling") ≡ true = (eq_iff r.status "canceling").1 asked in
      let own = find_task-id id w.db r found in
      let ends =
        cancel_task-row (named flow name version r) r (record w { tick = tick })
          (subst (λ i. find_task i w.db ≡ some r) (sym own) found) may in
      rw (step, canceling)
        (subst
          (λ i. Ends (cancel_task e (named flow name version r) (record w { tick = tick })) (λ _ v.
            Moved e i r "canceled" "" "canceled" (object_of e r.shared_json) r.step_count v))
          own ends)
