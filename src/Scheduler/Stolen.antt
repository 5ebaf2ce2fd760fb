-- ===== src/Scheduler/Stolen.antt =====
-- What a scheduler does to a task that another one has taken over.
use pocket_flow_go.Scheduler.{ttl, after_step, step_task, leave}
use pocket_flow_go.Engine.{Engine, World, unix}
use pocket_flow_go.Store.Tasks.{extend_lease, set_status}
use pocket_flow_go.Prelude.{String, ◌≡◌, some, ◌≢◌, ℕ, suc, ◌==◌, ◌&&◌, ◌+◌, arith, eq_iff, refl}
use pocket_flow_go.Store.{Task}
use pocket_flow_go.Store.Tasks.Laws.{find_task, find-set_miss, find-update_task_status}
use pocket_flow_go.Engine.Core.Laws.{Ends}
use pocket_flow_go.Store.Tasks.Joined.{get_task-named, named}
use pocket_flow_go.Engine.RunOnce.Laws.{run_once-lease_mismatch}

module _ {F : Type 0} (e : Engine F) where
  -- Where the row of a found task has another lease owner than the scheduler, a round of the
  -- scheduler's inner loop ends, leaves the inner loop, and has set the row's status to failed,
  -- with the rest of the row as it was but for the time of its update.
  pub step_task-taken_over :
      (id : String) (r : Task) (w : World)
      → find_task id w.db ≡ some r
      → e.owner ≢ ""
      → r.lease_owner ≢ e.owner
      → Ends (step_task e id w) (λ next v.
        (next ≡ leave) × (stamp : ℕ) × (find_task id v.db ≡ some (set_status stamp "failed" r)))
  unfolding step_task extend_lease after_step
  step_task-taken_over id r w found owned other =
      let now = unix e w.tick in
      let extended : World = record {
        db = extend_lease now id e.owner (ttl e) w.db;
        tick = suc w.tick;
      } in
      let still : find_task id extended.db ≡ some r =
        find-set_miss id (λ s. s.id == id && s.lease_owner == e.owner)
          (λ s. record s { lease_owner = e.owner; lease_expiry = now + ttl e }) (λ t. refl)
          w.db.tasks r found (ground (arith, other, eq_iff r.lease_owner e.owner)) in
      let (flow, name, version, read) = get_task-named id extended.db r still in
      let refused =
        run_once-lease_mismatch e id extended (named flow name version r) read owned other in
      rw refused (
        refl,
        unix e (suc w.tick),
        find-update_task_status id extended.db r still (unix e (suc w.tick)) "failed",
      )
