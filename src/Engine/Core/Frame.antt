-- ===== src/Engine/Core/Frame.antt =====
-- That a step of one task leaves the rows of the others.
use pocket_flow_go.Engine.{Engine, World, pure, unix, to_json}
use pocket_flow_go.Prelude.{
  String, ◌≢◌, ℕ, ◌==◌, Bool, Option, ◌≡◌, true, false, Bool-cases, arith, refl, eq_iff, inl, none,
  inr, suc,
}
use pocket_flow_go.Engine.Core.{finish_node, put_progress, put_status, save_step, finished_status}
use pocket_flow_go.Store.{Task, Db}
use pocket_flow_go.Flow.{FlowDef, find_next}
use pocket_flow_go.Value.{Object, obj}
use pocket_flow_go.Store.Tasks.{
  update_task_progress, update_task_status, update_task_progress_owned, update_task_status_owned,
  holds_lease, set_progress, set_status,
}
use pocket_flow_go.Engine.Core.Laws.{Ends, Ends-continue}
use pocket_flow_go.Error.{Err}
use pocket_flow_go.Store.Tasks.Laws.{find_task}
use mathlib.Core.Path.{subst}
use pocket_flow_go.Store.Sql.{update_where}
use pocket_flow_go.Store.Sql.Laws.{find_first-update_where_ne}

module _ (id other : String) (apart : other ≢ id) where
  distinct : (r : Task) → (r.id == other) ≡ true → (r.id == id) ≡ false
  distinct r h = ground (arith, eq_iff r.id other, eq_iff r.id id)

  unheld :
      (now : ℕ) (owner : String) (r : Task)
      → (r.id == other) ≡ true
      → holds_lease now id owner r ≡ false
  unheld now owner r h = rw (distinct r h) refl

  kept :
      (test : Task → Bool) (set : Task → Task)
      → ((t : Task) → (set t).id ≡ t.id)
      → ((t : Task) → (t.id == other) ≡ true → test t ≡ false)
      → (db : Db)
      → find_task other (record db { tasks = update_where test set db.tasks }) ≡ find_task other db
  kept test set same away db =
      find_first-update_where_ne (λ (t : Task). t.id == other) test set (λ t. rw (same t)) away
        db.tasks

  module _ {F : Type 0} (e : Engine F) where
    put_status-kept :
        (status : String) (w : World)
        → Ends (put_status e id status w) (λ _ v. find_task other v.db ≡ find_task other w.db)
    unfolding put_status update_task_status update_task_status_owned
    put_status-kept status w = elim (Bool-cases (e.owner == "")) [
      | inl h ↦ rw h (kept _ (set_status (unix e w.tick) status) (λ t. refl) distinct w.db)
      | inr h ↦ rw h (
          kept _ (set_status (unix e w.tick) status) (λ t. refl)
            (unheld (unix e (suc w.tick)) e.owner) w.db)
    ]

    put_progress-kept :
        (node action : String) (shared : Object F) (steps : ℕ) (w : World)
        → Ends
            (put_progress e id node action shared steps w)
            (λ _ v. find_task other v.db ≡ find_task other w.db)
    unfolding put_progress update_task_progress update_task_progress_owned
    put_progress-kept node action shared steps w = elim (Bool-cases (e.owner == "")) [
      | inl h ↦ rw h (
          kept _ (set_progress (unix e w.tick) node action (to_json e (obj shared)) steps)
            (λ t. refl) distinct w.db)
      | inr h ↦ rw h (
          kept _ (set_progress (unix e w.tick) node action (to_json e (obj shared)) steps)
            (λ t. refl) (unheld (unix e (suc w.tick)) e.owner) w.db)
    ]

    save_step-kept :
        (status node action : String) (shared : Object F) (steps : ℕ) (w : World)
        → Ends
            (save_step e id status node action shared steps w)
            (λ _ v. find_task other v.db ≡ find_task other w.db)
    unfolding save_step
    save_step-kept status node action shared steps w =
        Ends-continue (λ _ v. find_task other v.db ≡ find_task other w.db) _
          (put_status e id status w) (λ _. put_progress e id node action shared steps)
          (put_status-kept status w)
          (λ _ v h.
            subst
              (λ o.
                Ends (put_progress e id node action shared steps v)
                  (λ _ x. find_task other x.db ≡ o))
              h (put_progress-kept node action shared steps v))

module _ {F : Type 0} (e : Engine F) where
  -- finishNode ends, and leaves the row of every other id as it was, whichever owner the engine
  -- has.
  pub finish_node-others :
      (t : Task) (def : FlowDef F) (curr action : String) (shared : Object F) (steps : ℕ)
      (failure : Option Err) (other : String) (w : World)
      → other ≢ t.id
      → Ends
          (finish_node e t def curr action shared steps failure w)
          (λ _ v. find_task other v.db ≡ find_task other w.db)
  unfolding finish_node
  finish_node-others t def curr action shared steps failure other w apart =
      let next = find_next def.edges curr action in
      Ends-continue (λ _ v. find_task other v.db ≡ find_task other w.db) _
        (save_step e t.id (finished_status failure next) next action shared steps w)
        (λ _. pure none)
        (save_step-kept t.id other apart e (finished_status failure next) next action shared steps
          w)
        (λ _ v h. h)
