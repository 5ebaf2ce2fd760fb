-- ===== src/Scheduler/Round.antt =====
-- That a round of the scheduling loop comes to its end.
use pocket_flow_go.Engine.{Engine, World, unix}
use pocket_flow_go.Store.Tasks.{lease_next_task, lease_free}
use pocket_flow_go.Prelude.{
  String, ℕ, Option, ◌≢◌, some, ◌≡◌, Option-cases, none, ◌<◌, inl, inr, Bool-cases, any, ◌==◌, ◌&&◌,
  refl, suc, ap, sym, ◌∙◌,
}
use pocket_flow_go.Store.{Db, FlowVersion, Task}
use pocket_flow_go.Scheduler.Laws.{IsQuick, Done, step_rounds-Done}
use pocket_flow_go.Flow.{FlowDef}
use pocket_flow_go.Engine.RunOnce.Progress.{LeftRow, LowerRow-ForwardRow}
use pocket_flow_go.Engine.RunOnce.Forward.{IsForward}
use pocket_flow_go.Scheduler.{lease_and_step, step_rounds}
use pocket_flow_go.Store.Sql.Laws.{Keyed}
use pocket_flow_go.Store.Flows.{get_flow_version_by_id}
use pocket_flow_go.Error.{ok, Result-cases, Result}
use pocket_flow_go.Engine.Core.Laws.{Ends, Ends-continue}
use pocket_flow_go.Scheduler.{ttl}
use pocket_flow_go.Store.Tasks.Leases.{candidate}
use pocket_flow_go.Store.Trace.Rows.{Holds-find_first}
use pocket_flow_go.Store.Trace.Leases.{lease_next_task-HeldBy_self}

lease_next_task-versions :
    (now ttl : ℕ) (owner : String) (db : Db)
    → (lease_next_task now owner ttl db).1.flow_versions ≡ db.flow_versions
unfolding lease_next_task
lease_next_task-versions now ttl owner db = elim (Option-cases (candidate now db)) [
  | inl h ↦ rw (lease_next_task, h) refl
  | inr (t, h) ↦ elim (Bool-cases (any (λ (r : Task). r.id == t.id && lease_free now r) db.tasks)) [
    | inl free ↦ rw (lease_next_task, h, free) refl
    | inr held ↦ rw (lease_next_task, h, held) refl
  ]
]

module _ {F : Type 0} (e : Engine F) (rank : String → ℕ) where
  -- Every stored flow that can be read goes forward.
  abbrev pub AllForward : World → Type 0
  AllForward w =
      (id : String) (fv : FlowVersion) (def : FlowDef F)
      → get_flow_version_by_id id w.db ≡ ok fv
      → e.decode_flow fv.definition_json ≡ some def
      → IsForward rank def

  -- No task was leased, or the leased one has been left.
  abbrev pub Served : Option String → World → Type 0
  Served none v = Unit
  Served (some id) v = LeftRow e rank id v

  module _ (owned : e.owner ≢ "") (quick : IsQuick e) where
    leased-Done :
        (rounds : ℕ) (w : World) (t : Task) (db' : Db)
        → Keyed (λ (r : Task). r.id) w.db.tasks
        → AllForward w
        → ((key : String) → rank key < rounds)
        → lease_next_task (unix e w.tick) e.owner (ttl e) w.db ≡ (ok t, db')
        → Ends
            (step_rounds e rounds t.id (record { db = db'; tick = suc w.tick }))
            (Done e rank owned quick t.id)
    leased-Done rounds w t db' keyed forward enough leased =
        let now = unix e w.tick in
        let (r, found, lasts) =
          Holds-find_first (λ (x : Task). x.id) t.id _ db'.tasks
            (lease_next_task-HeldBy_self now (ttl e) e.owner w.db db' t keyed leased) in
        let same : db'.flow_versions ≡ w.db.flow_versions =
          ap (λ (x : Result Task × Db). x.1.flow_versions) (sym leased)
          ∙ lease_next_task-versions now (ttl e) e.owner w.db in
        step_rounds-Done e rank owned quick rounds t.id r (record { db = db'; tick = suc w.tick })
          found lasts.0
          (LowerRow-ForwardRow e rank r r w (record { db = db'; tick = suc w.tick })
            (forward r.flow_version_id) refl same)
          (enough r.current_node_key)

    -- Let the engine have an owner, any two readings of its clock lie less than the lease of
    -- three seconds apart, the ids of the tasks be distinct, and every stored flow that decodes
    -- consist of choice nodes, and of executor nodes whose max_attempts is not negative, with
    -- edges that go down in a rank. With as many rounds of the inner loop as bound the rank, a
    -- round of the scheduling loop ends, whatever the workers, functions and scripts answer, and
    -- the task that it has leased, if any, is then completed, failed, waiting for the queue or
    -- without a node.
    pub lease_and_step-Served :
        (rounds : ℕ) (w : World)
        → Keyed (λ (r : Task). r.id) w.db.tasks
        → AllForward w
        → ((key : String) → rank key < rounds)
        → Ends (lease_and_step e rounds w) Served
    unfolding lease_and_step
    lease_and_step-Served rounds w keyed forward enough =
        let taken = lease_next_task (unix e w.tick) e.owner (ttl e) w.db in
        elim (Result-cases taken.0) [
          | inr (x, h) ↦ rw (Ends, h) tt
          | inl (t, h) ↦ rw h (
              Ends-continue (Done e rank owned quick t.id) Served
                (step_rounds e rounds t.id (record { db = taken.1; tick = suc w.tick })) _
                (leased-Done rounds w t taken.1 keyed forward enough
                  (ap (λ (x : Result Task). (x, taken.1)) h))
                (λ next v done. done.1))
        ]
