-- ===== src/Store/Tasks/Leases.antt =====
-- Leases: which task is leased, and that it is leased to one owner at a time.
use pocket_flow_go.Store.Tasks.{
  get_task, lease_next_task, joined, is_eligible, lease_free, set_status, update_task_status,
}
use pocket_flow_go.Prelude.{
  ℕ, String, Option, ◌≡◌, select, some, Option-cases, ◌==◌, inl, ◌&&◌, arith, inr, ◌+◌, List, ◌<◌,
  ◌≤◌, ◌≢◌, true, false, ◌∷◌, [], Bool, eq_iff, sym, ◌∙◌, if◌then◌else◌, refl,
}
use pocket_flow_go.Store.{Db, Task}
use pocket_flow_go.Store.Sql.{oldest, update_where}
use pocket_flow_go.Error.{ok}
use pocket_flow_go.Store.Tasks.Laws.{find_task, find_task-id}
use pocket_flow_go.Store.Sql.Laws.{
  select-mem, Keyed, All, oldest-test, Keyed-All, All-mem, oldest-mem, oldest-le,
}
use mathlib.Core.List.{Memᴰ}
use mathlib.Core.Bool.{false≢true}

get_task-id : (id : String) (db : Db) (t : Task) → get_task id db ≡ ok t → t.id ≡ id
unfolding get_task joined
get_task-id id db t h = elim (Option-cases (find_task id db)) [
  | inl e ↦ ground arith
  | inr (r, e) ↦ ground (arith, find_task-id id db r e)
]

abbrev pub candidate : ℕ → Db → Option Task
candidate now db = oldest (λ (r : Task). r.updated_at) (select (is_eligible now) db.tasks)

-- The row that a successful lease has selected, and the tables that it leaves.
abbrev pub LeasedFrom : ℕ → String → ℕ → Db → Task → Db → Type 0
LeasedFrom now owner ttl db t db' =
    (r : Task) × (candidate now db ≡ some r)
    × (t.id ≡ r.id)
    × (db'.tasks
        ≡ update_where (λ s. s.id == r.id && lease_free now s)
            (λ s. record s { lease_owner = owner; lease_expiry = now + ttl; status = "running" })
            db.tasks)

pub lease_inversion :
    (now : ℕ) (owner : String) (ttl : ℕ) (db db' : Db) (t : Task)
    → lease_next_task now owner ttl db ≡ (ok t, db')
    → LeasedFrom now owner ttl db t db'
unfolding lease_next_task
lease_inversion now owner ttl db db' t h = elim (Option-cases (candidate now db)) [
  | inl e ↦ ground arith
  | inr (r, e) ↦ (r, e, ground (arith, get_task-id r.id db t), ground arith)
]

and_right : (a b : Bool) → (a && b) ≡ true → b ≡ true
and_right a b h = ground arith

-- After a lease, no row with that id can be leased until the lease has run out.
closed_rows :
    (now later ttl : ℕ) (owner : String) (r : Task) (rs : List Task)
    → 0 < ttl
    → later ≤ now + ttl
    → All (λ (x : Task). x.id ≡ r.id → lease_free now x ≡ true) rs
    → All
        (λ (x : Task). x.id ≡ r.id → is_eligible later x ≡ false)
        (update_where
          (λ s. s.id == r.id && lease_free now s)
          (λ s. record s { lease_owner = owner; lease_expiry = now + ttl; status = "running" })
          rs)
unfolding update_where
closed_rows now later ttl owner r [] pos_ttl h a = tt
closed_rows now later ttl owner r (x ∷ xs) pos_ttl h a = (
  λ same.
      let own : x.id ≡ r.id = ground arith in
      let free = a.0 own in ground (arith, free, eq_iff x.id r.id),
  closed_rows now later ttl owner r xs pos_ttl h a.1,
)

pub candidate-mem : (now : ℕ) (db : Db) (r : Task) → candidate now db ≡ some r → Memᴰ r db.tasks
candidate-mem now db r e =
    select-mem (is_eligible now) db.tasks r
      (oldest-mem (λ (x : Task). x.updated_at) (select (is_eligible now) db.tasks) r e)

pub free_rows :
    (now : ℕ) (db : Db) (r : Task)
    → Keyed (λ (x : Task). x.id) db.tasks
    → candidate now db ≡ some r
    → All (λ (x : Task). x.id ≡ r.id → lease_free now x ≡ true) db.tasks
free_rows now db r keyed e =
    Keyed-All (λ (x : Task). x.id) (λ x. lease_free now x ≡ true) db.tasks r keyed
      (candidate-mem now db r e)
      (and_right _ _ (oldest-test (λ (x : Task). x.updated_at) (is_eligible now) db.tasks r e))

-- After a successful LeaseNextTask with a positive ttl, on a tasks table whose ids are distinct,
-- a second successful LeaseNextTask on the tables the first left, no later than the lease's
-- expiry and by whichever owner, returns a task with another id.
lease_next_task_exclusive :
    (now later ttl ttl' : ℕ) (owner owner' : String) (db db' db'' : Db) (t u : Task)
    → Keyed (λ (r : Task). r.id) db.tasks
    → 0 < ttl
    → later ≤ now + ttl
    → lease_next_task now owner ttl db ≡ (ok t, db')
    → lease_next_task later owner' ttl' db' ≡ (ok u, db'')
    → u.id ≢ t.id
lease_next_task_exclusive now later ttl ttl' owner owner' db db' db'' t u keyed pos_ttl within first
      second same =
    let (r, e, t_id, rows) = lease_inversion now owner ttl db db' t first in
    let (s, e', u_id, rows') = lease_inversion later owner' ttl' db' db'' u second in
    let closed =
      closed_rows now later ttl owner r db.tasks pos_ttl within (free_rows now db r keyed e) in
    let here : Memᴰ s db'.tasks = candidate-mem later db' s e' in
    let shut = All-mem _ db'.tasks s (rw (← rows) at closed) here in
    let open_again = oldest-test (λ (x : Task). x.updated_at) (is_eligible later) db'.tasks s e' in
    false≢true (sym (shut (sym u_id ∙ same ∙ t_id)) ∙ open_again)

-- The task that a successful LeaseNextTask returns is a row that was pending or running and free
-- of a lease, and no such row was updated earlier.
lease_next_task_oldest :
    (now ttl : ℕ) (owner : String) (db db' : Db) (t : Task)
    → lease_next_task now owner ttl db ≡ (ok t, db')
    → (r : Task) × (t.id ≡ r.id)
      × (is_eligible now r ≡ true)
      × All (λ (x : Task). r.updated_at ≤ x.updated_at) (select (is_eligible now) db.tasks)
lease_next_task_oldest now ttl owner db db' t h =
    let (r, e, t_id, rows) = lease_inversion now owner ttl db db' t h in
    (
      r,
      t_id,
      oldest-test (λ (x : Task). x.updated_at) (is_eligible now) db.tasks r e,
      oldest-le (λ (x : Task). x.updated_at) (select (is_eligible now) db.tasks) r e,
    )

canceling_row :
    (now stamp : ℕ) (id : String) (x : Task) (b : Bool)
    → (x.id == id) ≡ b
    → (if b then set_status stamp "canceling" x else x).id ≡ id
    → is_eligible now (if b then set_status stamp "canceling" x else x) ≡ false
canceling_row now stamp id x true e same = refl
canceling_row now stamp id x false e same = cc (e, (eq_iff x.id id).1 same)

canceling_rows :
    (now stamp : ℕ) (id : String) (rs : List Task)
    → All
        (λ (x : Task). x.id ≡ id → is_eligible now x ≡ false)
        (update_where (λ x. x.id == id) (set_status stamp "canceling") rs)
unfolding update_where
canceling_rows now stamp id [] = tt
canceling_rows now stamp id (x ∷ xs) =
    (canceling_row now stamp id x (x.id == id) refl, canceling_rows now stamp id xs)

-- After UpdateTaskStatus has set a task to canceling, a successful LeaseNextTask on these tables
-- returns a task with another id.
pub lease-canceling :
    (now stamp ttl : ℕ) (id owner : String) (db db' : Db) (t : Task)
    → lease_next_task now owner ttl (update_task_status stamp id "canceling" db) ≡ (ok t, db')
    → t.id ≢ id
unfolding update_task_status
lease-canceling now stamp ttl id owner db db' t h same =
    let canceled = update_task_status stamp id "canceling" db in
    let (r, e, t_id, rows) = lease_inversion now owner ttl canceled db' t h in
    let shut =
      All-mem _ canceled.tasks r (canceling_rows now stamp id db.tasks)
        (candidate-mem now canceled r e) in
    false≢true (
      sym (shut (sym t_id ∙ same))
      ∙ oldest-test (λ (x : Task). x.updated_at) (is_eligible now) canceled.tasks r e)
