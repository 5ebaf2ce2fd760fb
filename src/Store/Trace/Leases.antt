-- ===== src/Store/Trace/Leases.antt =====
-- That a lease is kept until it runs out, whatever calls come between.
use pocket_flow_go.Store.Trace.{Reach, String}
use pocket_flow_go.Store.{Task, Db}
use pocket_flow_go.Prelude.{
  ℕ, ◌<◌, Bool, ◌≡◌, ◌≢◌, List, true, ◌≤◌, ◌+◌, ◌∷◌, ◌==◌, false, ◌&&◌, arith, any, [], refl,
  eq_iff, if◌then◌else◌, sym, ◌∙◌,
}
use pocket_flow_go.Store.Trace.Rows.{any-update_where, any-mem, Holds-mem}
use pocket_flow_go.Store.Tasks.{lease_next_task, lease_free, is_eligible}
use pocket_flow_go.Store.Sql.{update_where}
use pocket_flow_go.Error.{ok}
use pocket_flow_go.Store.Sql.Laws.{All, Keyed, oldest-test}
use pocket_flow_go.Store.Tasks.Leases.{lease_inversion, candidate-mem, free_rows}
use mathlib.Core.Path.{subst}
use pocket_flow_go.Store.Trace.Held.{HeldBy, Lasts, Respects, Reach-HeldBy}

leased_row :
    (now ttl : ℕ) (owner id : String) (x : Task) (b : Bool)
    → (x.id == id && lease_free now x) ≡ b
    → (x.id ≡ id → lease_free now x ≡ true)
    → (let row =
          if b
          then record x { lease_owner = owner; lease_expiry = now + ttl; status = "running" }
          else x in
        row.id ≡ id → Lasts owner (now + ttl) row)
leased_row now ttl owner id x true h free own = (refl, omega arith)
leased_row now ttl owner id x false h free own = ground (arith, free own, eq_iff x.id id)

leased_rows :
    (now ttl : ℕ) (owner id : String) (rs : List Task)
    → All (λ (x : Task). x.id ≡ id → lease_free now x ≡ true) rs
    → All
        (λ (x : Task). x.id ≡ id → Lasts owner (now + ttl) x)
        (update_where
          (λ s. s.id == id && lease_free now s)
          (λ s. record s { lease_owner = owner; lease_expiry = now + ttl; status = "running" })
          rs)
unfolding update_where
leased_rows now ttl owner id [] a = tt
leased_rows now ttl owner id (x ∷ xs) a =
    (leased_row now ttl owner id x _ refl a.0, leased_rows now ttl owner id xs a.1)

-- A successful lease is held.
pub lease_next_task-HeldBy_self :
    (now ttl : ℕ) (owner : String) (db db' : Db) (t : Task)
    → Keyed (λ (r : Task). r.id) db.tasks
    → lease_next_task now owner ttl db ≡ (ok t, db')
    → HeldBy owner (now + ttl) t.id db'
lease_next_task-HeldBy_self now ttl owner db db' t keyed leased =
    let (r, e, t_id, rows) = lease_inversion now owner ttl db db' t leased in
    let set : Task → Task =
      λ s. record s { lease_owner = owner; lease_expiry = now + ttl; status = "running" } in
    let there : any (λ (x : Task). x.id == r.id) db'.tasks ≡ true = rw rows (
      any-update_where (λ (x : Task). x.id) r.id (Lasts owner (now + ttl))
        (λ s. s.id == r.id && lease_free now s) set (λ s. refl) db.tasks
      ∙ any-mem (λ (x : Task). x.id) r.id (Lasts owner (now + ttl)) db.tasks r
          (candidate-mem now db r e) refl) in
    let held : HeldBy owner (now + ttl) r.id db' =
      (there, rw rows (leased_rows now ttl owner r.id db.tasks (free_rows now db r keyed e))) in
    subst (λ x. HeldBy owner (now + ttl) x db') (sym t_id) held

-- After a successful LeaseNextTask with a positive ttl, on a tasks table whose ids are distinct,
-- and any calls of the store of which no LeaseNextTask is later than the lease's expiry and no
-- ExtendLease of that task by its owner ends before it, the task's row still names the owner and
-- an expiry that is not earlier.
lease_kept :
    (now ttl : ℕ) (owner : String) (db db' mid : Db) (t : Task)
    → Keyed (λ (r : Task). r.id) db.tasks
    → 0 < ttl
    → lease_next_task now owner ttl db ≡ (ok t, db')
    → Reach (Respects owner (now + ttl) t.id) db' mid
    → HeldBy owner (now + ttl) t.id mid
lease_kept now ttl owner db db' mid t keyed pos_ttl leased between =
    Reach-HeldBy owner (now + ttl) t.id (omega arith)
      (lease_next_task-HeldBy_self now ttl owner db db' t keyed leased) between

-- After a successful LeaseNextTask with a positive ttl, on a tasks table whose ids are distinct,
-- let any calls of the store follow, of which no LeaseNextTask is later than the lease's expiry
-- and no ExtendLease of that task by its owner ends before it. Then a successful LeaseNextTask no
-- later than the expiry, by whichever owner, returns a task with another id.
pub lease_next_task_once :
    (now ttl later_now ttl' : ℕ) (owner owner' : String) (db db' mid db'' : Db) (t u : Task)
    → Keyed (λ (r : Task). r.id) db.tasks
    → 0 < ttl
    → lease_next_task now owner ttl db ≡ (ok t, db')
    → Reach (Respects owner (now + ttl) t.id) db' mid
    → later_now ≤ now + ttl
    → lease_next_task later_now owner' ttl' mid ≡ (ok u, db'')
    → u.id ≢ t.id
lease_next_task_once now ttl later_now ttl' owner owner' db db' mid db'' t u keyed pos_ttl first
      between within second same =
    let (s, e, u_id, _) = lease_inversion later_now owner' ttl' mid db'' u second in
    let held = lease_kept now ttl owner db db' mid t keyed pos_ttl first between in
    let lasts =
      Holds-mem (λ (x : Task). x.id) t.id (Lasts owner (now + ttl)) mid.tasks s held
        (candidate-mem later_now mid s e) (sym u_id ∙ same) in
    let opened = oldest-test (λ (x : Task). x.updated_at) (is_eligible later_now) mid.tasks s e in
    ground (arith, lasts.1, opened)
