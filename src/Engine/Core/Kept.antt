-- ===== src/Engine/Core/Kept.antt =====
-- What a call leaves of the tables that decide where a task goes.
use pocket_flow_go.Engine.{Engine, World, Outcome, M, continue, returned, panicked, looping, pure}
use pocket_flow_go.Store.Runs.{create_node_run, save_node_run}
use pocket_flow_go.Store.{NodeRun, Task}
use pocket_flow_go.Engine.Core.{
  record_run_detailed, finish_node, save_step, put_status, put_progress, finished_status,
}
use pocket_flow_go.Prelude.{
  ◌∙◌, ◌≡◌, Option-cases, String, inl, inr, ℕ, refl, some, ap, find_first, ◌==◌, Option, Bool-cases,
  none,
}
use pocket_flow_go.Engine.Core.Laws.{Ends, Ends-continue, Ends-map}
use pocket_flow_go.Store.Sql.{insert_row}
use pocket_flow_go.Value.{Object, Value}
use pocket_flow_go.Store.Tasks.Laws.{find_task}
use pocket_flow_go.Flow.{FlowDef, find_next}
use pocket_flow_go.Error.{Err}
use pocket_flow_go.Store.Tasks.{
  update_task_status, update_task_status_owned, update_task_progress, update_task_progress_owned,
}

-- The call has changed no task and no version of a flow.
abbrev pub Kept : World → World → Type 0
Kept w v = (v.db.tasks ≡ w.db.tasks) × (v.db.flow_versions ≡ w.db.flow_versions)

pub create_node_run-Kept :
    (nr : NodeRun) (w : World) → Kept w (record w { db = (create_node_run nr w.db).1 })
unfolding create_node_run
create_node_run-Kept nr w =
    elim (Option-cases (insert_row (λ (x : NodeRun). x.id) nr w.db.node_runs)) [
      | inl h ↦ rw (create_node_run, h) (refl, refl)
      | inr (rows, h) ↦ rw (create_node_run, h) (refl, refl)
    ]

pub Kept-trans : (u v w : World) → Kept u v → Kept v w → Kept u w
Kept-trans u v w h k = (k.0 ∙ h.0, k.1 ∙ h.1)

pub find-Kept :
    (id : String) (r : Task) (w v : World)
    → Kept w v
    → find_task id w.db ≡ some r
    → find_task id v.db ≡ some r
find-Kept id r w v kept found = ap (find_first (λ (t : Task). t.id == id)) kept.0 ∙ found

-- A call that ends has a result, and is the return of it.
pub Ends-returned :
    {A : Type 0} (P : A → World → Type 0) (o : Outcome A)
    → Ends o P
    → Ends o (λ a v. P a v × (o ≡ returned a v))
Ends-returned P (returned a v) h = (h, refl)
Ends-returned P panicked h = h
Ends-returned P looping h = h

pub Ends-Kept :
    {A B : Type 0} (u : World) (o : Outcome A) (f : A → M B)
    → Ends o (λ _ v. Kept u v)
    → ((a : A) (v : World) → Ends (f a v) (λ _ x. Kept v x))
    → Ends (continue o f) (λ _ x. Kept u x)
Ends-Kept u o f h k =
    Ends-continue (λ _ v. Kept u v) (λ _ x. Kept u x) o f h
      (λ a v kept.
        Ends-map (λ _ x. Kept v x) (λ _ x. Kept u x) (f a v) (k a v)
          (λ _ x later. Kept-trans u v x kept later))

module _ {F : Type 0} (e : Engine F) where
  -- Recording a run changes the runs only.
  pub record_run_detailed-Kept :
      (t : Task) (curr : String) (attempt : ℕ) (status sub branch : String) (prep : Object F)
      (input output : Value F) (failure action wid wurl log : String) (w : World)
      → Ends
          (record_run_detailed e t curr attempt status sub branch prep input output failure action
            wid wurl log w)
          (λ _ v. Kept w v)
  unfolding record_run_detailed save_node_run
  record_run_detailed-Kept t curr attempt status sub branch prep input output failure action wid
        wurl log w =
      create_node_run-Kept _ w

  -- Of these tables, a step of a task writes that of the tasks only.
  abbrev pub SameVersions : {A : Type 0} → World → A → World → Type 0
  SameVersions w _ v = v.db.flow_versions ≡ w.db.flow_versions

  pub save_step-SameVersions :
      (id status node action : String) (shared : Object F) (steps : ℕ) (w : World)
      → Ends (save_step e id status node action shared steps w) (SameVersions w)
  unfolding save_step put_status put_progress update_task_status update_task_status_owned
      update_task_progress update_task_progress_owned
  save_step-SameVersions id status node action shared steps w = elim (Bool-cases (e.owner == "")) [
    | inl h ↦ rw (Ends, h) refl
    | inr h ↦ rw (Ends, h) refl
  ]

  pub finish_node-SameVersions :
      (t : Task) (def : FlowDef F) (curr action : String) (shared : Object F) (steps : ℕ)
      (failure : Option Err) (w : World)
      → Ends (finish_node e t def curr action shared steps failure w) (SameVersions w)
  unfolding finish_node
  finish_node-SameVersions t def curr action shared steps failure w =
      let next = find_next def.edges curr action in
      Ends-continue _ (SameVersions w)
        (save_step e t.id (finished_status failure next) next action shared steps w)
        (λ _. pure none)
        (save_step-SameVersions t.id (finished_status failure next) next action shared steps w)
        (λ _ v h. h)

-- Two facts about one call.
pub Ends-both :
    {A : Type 0} (P Q : A → World → Type 0) (o : Outcome A)
    → Ends o P
    → Ends o Q
    → Ends o (λ a v. P a v × Q a v)
Ends-both P Q (returned a v) h k = (h, k)
Ends-both P Q panicked h k = h
Ends-both P Q looping h k = h
