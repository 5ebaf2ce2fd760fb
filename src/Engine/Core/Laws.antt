-- ===== src/Engine/Core/Laws.antt =====
-- What the shared steps of the handlers leave in the tables.
use pocket_flow_go.Engine.Core.Outcome.{
  Follows, StatusOf, find_next-Follows, finished_status-StatusOf,
}
use pocket_flow_go.Engine.{
  Engine, Outcome, World, M, returned, continue, panicked, looping, to_json, unix, ◌>>◌, pure,
}
use pocket_flow_go.Store.{Task, NodeRun, Db}
use pocket_flow_go.Engine.Core.{
  save_step, put_progress, put_status, finish_node, record_run, record_run_detailed,
  finished_status, update_task_running,
}
use pocket_flow_go.Prelude.{
  suc, ℕ, String, ◌≡◌, some, ◌⊎◌, ◌≢◌, ◌<◌, inl, ◌==◌, true, eq_iff, inr, false, arith, Option,
  none, refl, ap, find_first, ◌∙◌, Option-cases, ◌+◌, Bool, if◌then◌else◌, List,
}
use pocket_flow_go.Store.Tasks.Laws.{
  find_task, find-update_task_progress, find-update_task_status, find-update_task_progress_owned,
  find-update_task_status_owned,
}
use pocket_flow_go.Value.{Object, obj, Value}
use pocket_flow_go.Store.Tasks.{set_progress, set_status}
use pocket_flow_go.Store.Runs.{save_node_run, create_node_run}
use pocket_flow_go.Flow.{FlowDef, find_next, DefEdge}
use pocket_flow_go.Error.{Err}
use pocket_flow_go.Store.Sql.{insert_row}

-- A call ends with a result for which `P` holds: it neither panics nor runs on.
abbrev pub Ends : {A : Type 0} → Outcome A → (A → World → Type 0) → Type 0
Ends (returned a w) P = P a w
Ends panicked P = ⊥
Ends looping P = ⊥

pub Ends-continue :
    {A B : Type 0} (P : A → World → Type 0) (Q : B → World → Type 0) (o : Outcome A) (f : A → M B)
    → Ends o P
    → ((a : A) (w : World) → P a w → Ends (f a w) Q)
    → Ends (continue o f) Q
Ends-continue P Q (returned a w) f h k = k a w h
Ends-continue P Q panicked f h k = elim h [ ]
Ends-continue P Q looping f h k = elim h [ ]

pub Ends-map :
    {A : Type 0} (P Q : A → World → Type 0) (o : Outcome A)
    → Ends o P
    → ((a : A) (w : World) → P a w → Q a w)
    → Ends o Q
Ends-map P Q (returned a w) h k = k a w h
Ends-map P Q panicked h k = h
Ends-map P Q looping h k = h

pub Ends-if :
    {A : Type 0} (b : Bool) (m k : M A) (P : A → World → Type 0) (w : World)
    → (b ≡ true → Ends (m w) P)
    → (b ≡ false → Ends (k w) P)
    → Ends ((if b then m else k) w) P
Ends-if true m k P w if_true if_false = if_true refl
Ends-if false m k P w if_true if_false = if_false refl

create_node_run-tasks : (nr : NodeRun) (db : Db) → (create_node_run nr db).1.tasks ≡ db.tasks
unfolding create_node_run
create_node_run-tasks nr db =
    elim (Option-cases (insert_row (λ (x : NodeRun). x.id) nr db.node_runs)) [
      | inl h ↦ rw (create_node_run, h)
      | inr (rows, h) ↦ rw (create_node_run, h)
    ]

pub save_node_run-tasks :
    (id : String) (nr : NodeRun) (db : Db) → (save_node_run id nr db).1.tasks ≡ db.tasks
unfolding save_node_run
save_node_run-tasks id nr db = create_node_run-tasks (record nr { id = id }) db

module _ {F : Type 0} (e : Engine F) where
  -- The row is the engine's to write: it runs without an owner, or holds the lease at every time.
  abbrev pub Writable : Task → Type 0
  Writable r =
      (e.owner ≡ "")
      ⊎ ((e.owner ≢ "") × (r.lease_owner ≡ e.owner) × ((n : ℕ) → unix e n < r.lease_expiry))

  -- The row with the status, and with the position in the flow.
  abbrev pub moved : ℕ → String → String → String → Object F → ℕ → Task → Task
  moved stamp status node action shared steps r =
      set_progress stamp node action (to_json e (obj shared)) steps (set_status stamp status r)

  -- The row under the id has moved on from `r`.
  abbrev pub Moved : String → Task → String → String → String → Object F → ℕ → World → Type 0
  Moved id r status node action shared steps w =
      (stamp : ℕ) × find_task id w.db ≡ some (moved stamp status node action shared steps r)

  module _ (id : String) (r : Task) (w : World) (found : find_task id w.db ≡ some r) where
    put_status-row :
        (status : String)
        → Writable r
        → Ends
            (put_status e id status w)
            (λ _ v. (stamp : ℕ) × find_task id v.db ≡ some (set_status stamp status r))
    unfolding put_status
    put_status-row status (inl o) =
        let unowned : (e.owner == "") ≡ true = (eq_iff e.owner "").1 o in
        rw unowned (unix e w.tick, find-update_task_status id w.db r found (unix e w.tick) status)
    put_status-row status (inr (o, own, live)) =
        let owned : (e.owner == "") ≡ false = ground (arith, eq_iff e.owner "", o) in
        rw owned (
          unix e w.tick,
          find-update_task_status_owned id w.db r found (unix e w.tick) (unix e (suc w.tick))
              e.owner status own (live (suc w.tick)),
        )

    put_progress-row :
        (node action : String) (shared : Object F) (steps : ℕ)
        → Writable r
        → Ends (put_progress e id node action shared steps w) (λ _ v.
          (stamp : ℕ) × find_task id v.db
            ≡ some (set_progress stamp node action (to_json e (obj shared)) steps r))
    unfolding put_progress
    put_progress-row node action shared steps (inl o) =
        let unowned : (e.owner == "") ≡ true = (eq_iff e.owner "").1 o in
        rw unowned (
          unix e w.tick,
          find-update_task_progress id w.db r found (unix e w.tick) node action
              (to_json e (obj shared)) steps,
        )
    put_progress-row node action shared steps (inr (o, own, live)) =
        let owned : (e.owner == "") ≡ false = ground (arith, eq_iff e.owner "", o) in
        rw owned (
          unix e w.tick,
          find-update_task_progress_owned id w.db r found (unix e w.tick) (unix e (suc w.tick))
              e.owner node action (to_json e (obj shared)) steps own (live (suc w.tick)),
        )

  -- Both updates find the row, and leave it moved.
  pub save_step-row :
      (id : String) (r : Task) (w : World)
      → find_task id w.db ≡ some r
      → (status node action : String) (shared : Object F) (steps : ℕ) → Writable r
      → Ends
          (save_step e id status node action shared steps w)
          (λ _ v. Moved id r status node action shared steps v)
  unfolding save_step
  save_step-row id r w found status node action shared steps may =
      Ends-continue _ _ (put_status e id status w) (λ _. put_progress e id node action shared steps)
        (put_status-row id r w found status may)
        (λ _ v (stamp, h).
          put_progress-row id (set_status stamp status r) v h node action shared steps may)

  -- The row has left the node under the action: along the first edge that fits, in the status that
  -- the error and the next node decide.
  abbrev pub Leaves :
      String → Task → List DefEdge → String → Option Err → String → Object F → ℕ → World → Type 0
  Leaves id r edges from failure action shared steps w =
      (next status : String) × Follows edges from action next
      × StatusOf failure next status
      × Moved id r status next action shared steps w

  pub Moved-Leaves :
      (id : String) (r : Task) (edges : List DefEdge) (from : String) (failure : Option Err)
      (action : String) (shared : Object F) (steps : ℕ) (w : World)
      → Moved id r
          (finished_status failure (find_next edges from action))
          (find_next edges from action)
          action
          shared
          steps
          w
      → Leaves id r edges from failure action shared steps w
  Moved-Leaves id r edges from failure action shared steps w h = (
    find_next edges from action,
    finished_status failure (find_next edges from action),
    find_next-Follows edges from action,
    finished_status-StatusOf failure (find_next edges from action),
    h,
  )

  -- Both updates of finishNode, by the code's own choice of the next node.
  pub finish_node-Moved :
      (t r : Task) (w : World)
      → find_task t.id w.db ≡ some r
      → (def : FlowDef F) (curr action : String) (shared : Object F) (steps : ℕ)
        (failure : Option Err)
      → Writable r
      → Ends (finish_node e t def curr action shared steps failure w) (λ res v.
        (res ≡ none)
        × Moved t.id r
            (finished_status failure (find_next def.edges curr action))
            (find_next def.edges curr action)
            action
            shared
            steps
            v)
  unfolding finish_node
  finish_node-Moved t r w found def curr action shared steps failure may =
      let next = find_next def.edges curr action in
      Ends-continue _ _ (save_step e t.id (finished_status failure next) next action shared steps w)
        (λ _. pure none)
        (save_step-row t.id r w found (finished_status failure next) next action shared steps may)
        (λ _ v h. (refl, h))

  -- For a found task that the engine may write, finishNode ends without an error and leaves the
  -- row at the target of the first edge from the node with that action, or with the action
  -- default where it is empty, with that action, the shared data and the step count: running
  -- where there is such an edge with a target, else completed without an error, and failed with
  -- one.
  pub finish_node-row :
      (t r : Task) (w : World)
      → find_task t.id w.db ≡ some r
      → (def : FlowDef F) (curr action : String) (shared : Object F) (steps : ℕ)
        (failure : Option Err)
      → Writable r
      → Ends
          (finish_node e t def curr action shared steps failure w)
          (λ res v. (res ≡ none) × Leaves t.id r def.edges curr failure action shared steps v)
  finish_node-row t r w found def curr action shared steps failure may =
      Ends-map
        (λ res v.
          (res ≡ none)
          × Moved t.id r (finished_status failure (find_next def.edges curr action))
              (find_next def.edges curr action) action shared steps v)
        (λ res v. (res ≡ none) × Leaves t.id r def.edges curr failure action shared steps v)
        (finish_node e t def curr action shared steps failure w)
        (finish_node-Moved t r w found def curr action shared steps failure may)
        (λ res v (fine, h).
          (fine, Moved-Leaves t.id r def.edges curr failure action shared steps v h))

  -- Recording a run changes no task.
  pub record_run_detailed-tasks :
      (t : Task) (curr : String) (attempt : ℕ) (status sub branch : String) (prep : Object F)
      (input output : Value F) (failure action wid wurl log : String) (w : World)
      → Ends
          (record_run_detailed e t curr attempt status sub branch prep input output failure action
            wid wurl log w)
          (λ _ v. v.db.tasks ≡ w.db.tasks)
  unfolding record_run_detailed
  record_run_detailed-tasks t curr attempt status sub branch prep input output failure action wid
        wurl log w =
      rw save_node_run-tasks

  -- A handler's end: the run is recorded, and the node finished.
  pub recorded_end :
      (t r : Task) (w : World)
      → find_task t.id w.db ≡ some r
      → (curr status failure : String) (prep : Object F) (input output : Value F) (def : FlowDef F)
        (action : String) (shared : Object F) (steps : ℕ) (x : Option Err)
      → Writable r
      → Ends
          ((record_run e t curr 1 status prep input output failure action "" "" ""
              >> finish_node e t def curr action shared steps x)
            w)
          (λ res v.
            (res ≡ none)
            × Moved t.id r
                (finished_status x (find_next def.edges curr action))
                (find_next def.edges curr action)
                action
                shared
                steps
                v)
  unfolding record_run
  recorded_end t r w found curr status failure prep input output def action shared steps x may =
      Ends-continue _ _ (record_run e t curr 1 status prep input output failure action "" "" "" w)
        (λ _. finish_node e t def curr action shared steps x)
        (record_run_detailed-tasks t curr 1 status "" "" prep input output failure action "" "" ""
          w)
        (λ _ v h.
          finish_node-Moved t r v (ap (find_first (λ (x : Task). x.id == t.id)) h ∙ found) def curr
            action shared steps x may)

  -- A node that still waits keeps its row: running, at the node, without an action.
  pub waiting-row :
      (t r : Task) (w : World)
      → find_task t.id w.db ≡ some r
      → (curr : String) (shared : Object F) → Writable r
      → Ends
          ((update_task_running e t curr shared >> pure {A = Option Err} none) w)
          (λ res v. (res ≡ none) × Moved t.id r "running" curr "" shared (t.step_count + 1) v)
  unfolding update_task_running
  waiting-row t r w found curr shared may =
      Ends-continue _ _ (save_step e t.id "running" curr "" shared (t.step_count + 1) w)
        (λ _. pure none)
        (save_step-row t.id r w found "running" curr "" shared (t.step_count + 1) may)
        (λ _ v h. (refl, h))

  -- The same, with the end said by the relations.
  pub recorded_end-Leaves :
      (t r : Task) (w : World)
      → find_task t.id w.db ≡ some r
      → (curr status failure : String) (prep : Object F) (input output : Value F) (def : FlowDef F)
        (action : String) (shared : Object F) (steps : ℕ) (x : Option Err)
      → Writable r
      → Ends
          ((record_run e t curr 1 status prep input output failure action "" "" ""
              >> finish_node e t def curr action shared steps x)
            w)
          (λ res v. (res ≡ none) × Leaves t.id r def.edges curr x action shared steps v)
  recorded_end-Leaves t r w found curr status failure prep input output def action shared steps x
        may =
      Ends-map
        (λ res v.
          (res ≡ none)
          × Moved t.id r (finished_status x (find_next def.edges curr action))
              (find_next def.edges curr action) action shared steps v)
        (λ res v. (res ≡ none) × Leaves t.id r def.edges curr x action shared steps v) _
        (recorded_end t r w found curr status failure prep input output def action shared steps x
          may)
        (λ res v (fine, h). (fine, Moved-Leaves t.id r def.edges curr x action shared steps v h))
