-- ===== src/Scheduler/Laws.antt =====
-- That the scheduler leaves a task in the end.
use pocket_flow_go.Scheduler.{or_more, after_step}
use pocket_flow_go.Scheduler.{next_of, ttl, Next, leave, again, step_rounds, step_task}
use pocket_flow_go.Engine.{Engine, unix, World, M}
use pocket_flow_go.Prelude.{
  String, ℕ, ◌≢◌, ◌<◌, ◌+◌, ◌≡◌, some, ◌⊎◌, ◌==◌, inl, ◌&&◌, arith, inr, eq_iff, refl, Bool-cases,
  Option, suc, zero, none,
}
use pocket_flow_go.Store.Tasks.{extend_lease, get_task, set_status}
use pocket_flow_go.Store.{Db, Task}
use pocket_flow_go.Store.Tasks.Laws.{find_task, find-set_hit, find_task-id, find-update_task_status}
use pocket_flow_go.Engine.RunOnce.Progress.{
  LeftRow, LowerRow, ForwardRow, Goes, LowerRow-ForwardRow, run_once-Goes,
}
use pocket_flow_go.Engine.RunOnce.Forward.{is_left}
use pocket_flow_go.Store.Tasks.Joined.{get_task-named}
use pocket_flow_go.Error.{Err}
use pocket_flow_go.Engine.Core.Laws.{Ends, Ends-continue, Writable}
use pocket_flow_go.Engine.RunOnce.{run_once}

module _ {F : Type 0} (e : Engine F) where
  -- The clock stays within one lease.
  abbrev pub IsQuick : Type 0
  IsQuick = (n m : ℕ) → unix e n < unix e m + ttl e

  find-extend_lease :
      (now : ℕ) (id owner : String) (span : ℕ) (db : Db) (r : Task)
      → find_task id db ≡ some r
      → r.lease_owner ≡ owner
      → find_task id (extend_lease now id owner span db)
        ≡ some (record r { lease_owner = owner; lease_expiry = now + span })
  unfolding extend_lease
  find-extend_lease now id owner span db r found own =
      find-set_hit id (λ s. s.id == id && s.lease_owner == owner)
        (λ s. record s { lease_owner = owner; lease_expiry = now + span }) (λ t. refl) db.tasks r
        found
        (ground
          (arith, find_task-id id db r found, own, eq_iff r.id id, eq_iff r.lease_owner owner))

  module _ (rank : String → ℕ) (owned : e.owner ≢ "") (quick : IsQuick) where
    -- A round leaves the task, or brings it down, with its lease kept.
    abbrev Rounds : String → Task → World → Next → World → Type 0
    Rounds id r w leave v = LeftRow e rank id v
    Rounds id r w again v = LowerRow e rank id r w v

    told :
        (id : String) (r : Task) (w v : World)
        → LeftRow e rank id v ⊎ LowerRow e rank id r w v
        → Rounds id r w (next_of e (get_task id v.db)) v
    told id r w v (inl (r', found, left)) =
        let (flow, name, version, read) = get_task-named id v.db r' found in
        rw (read, left) (r', found, left)
    told id r w v (inr (r', found, flow, owner, lower, same)) =
        let (f, name, version, read) = get_task-named id v.db r' found in
        elim (Bool-cases (is_left r')) [
          | inl left ↦ rw (read, left) (r', found, left)
          | inr stays ↦ rw (read, stays) (r', found, flow, owner, lower, same)
        ]

    -- The row with its lease extended, and the tables that hold it.
    abbrev leased : Task → World → Task
    leased r w = record r { lease_owner = e.owner; lease_expiry = unix e w.tick + ttl e }

    abbrev extended : String → World → World
    extended id w = record {
      db = extend_lease (unix e w.tick) id e.owner (ttl e) w.db;
      tick = suc w.tick;
    }

    after_step-Rounds :
        (id : String) (r : Task) (w v : World) (res : Option Err)
        → Goes e rank id r w res v
        → Ends (after_step e id res v) (Rounds id r w)
    unfolding after_step
    after_step-Rounds id r w v none goes = told id r w v goes
    after_step-Rounds id r w v (some x) (r', found) = (
      set_status (unix e v.tick) "failed" r',
      find-update_task_status id v.db r' found (unix e v.tick) "failed",
      refl,
    )

    step_task-Rounds :
        (id : String) (r : Task) (w : World)
        → find_task id w.db ≡ some r
        → r.lease_owner ≡ e.owner
        → ForwardRow e rank r w
        → Ends (step_task e id w) (Rounds id (leased r w) (extended id w))
    unfolding step_task extend_lease
    step_task-Rounds id r w found own forward =
        let there = find-extend_lease (unix e w.tick) id e.owner (ttl e) w.db r found own in
        let may : Writable e (leased r w) = inr (owned, refl, λ n. quick n w.tick) in
        Ends-continue (Goes e rank id (leased r w) (extended id w))
          (Rounds id (leased r w) (extended id w)) (run_once e id (extended id w)) _
          (run_once-Goes e rank id (leased r w) (extended id w) there may forward)
          (λ res v goes. after_step-Rounds id (leased r w) (extended id w) v res goes)

    -- The task has been left.
    abbrev pub Done : String → Next → World → Type 0
    Done id next v = (next ≡ leave) × LeftRow e rank id v

    or_more-Done :
        (id : String) (r : Task) (w : World) (more : M Next) (next : Next) (v : World)
        → Rounds id r w next v
        → (LowerRow e rank id r w v → Ends (more v) (Done id))
        → Ends (or_more e more next v) (Done id)
    unfolding or_more
    or_more-Done id r w more leave v left k = (refl, left)
    or_more-Done id r w more again v lower k = k lower

    -- With more rounds than the rank of its node, the inner loop leaves a found task that the
    -- scheduler has leased, in a forward flow.
    pub step_rounds-Done :
        (rounds : ℕ) (id : String) (r : Task) (w : World)
        → find_task id w.db ≡ some r
        → r.lease_owner ≡ e.owner
        → ForwardRow e rank r w
        → rank r.current_node_key < rounds
        → Ends (step_rounds e rounds id w) (Done id)
    unfolding step_rounds extend_lease
    step_rounds-Done zero id r w found own forward enough = absurd (omega (arith, enough))
    step_rounds-Done (suc rounds) id r w found own forward enough =
        Ends-continue (Rounds id (leased r w) (extended id w)) (Done id) (step_task e id w) _
          (step_task-Rounds id r w found own forward)
          (λ next v round.
            or_more-Done id (leased r w) (extended id w) (step_rounds e rounds id) next v round
              (λ (r', found', flow, owner, below, same).
                step_rounds-Done rounds id r' v found' owner
                  (LowerRow-ForwardRow e rank r r' w v forward flow same)
                  (omega (arith, below, enough))))
