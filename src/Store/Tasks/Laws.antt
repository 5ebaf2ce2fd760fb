-- ===== src/Store/Tasks/Laws.antt =====
-- What a task's row is after an update, and that the other rows stay.
use pocket_flow_go.Prelude.{
  String, ℕ, List, Bool, Option, ◌≡◌, false, find_first, some, ◌≢◌, ◌<◌, ◌==◌, eq_iff, ◌⊎◌, ◌∷◌, [],
  true, ◌≤◌, arith, if◌then◌else◌, refl,
}
use pocket_flow_go.Store.Tasks.{
  update_task_status_owned, update_task_progress_owned, holds_lease, set_status,
  update_task_progress, update_task_status, set_progress,
}
use pocket_flow_go.Store.Sql.{update_where}
use pocket_flow_go.Store.{Db, Task}
use pocket_flow_go.Store.Sql.Laws.{All, find_first-test, map_row, find_first-update_where}

abbrev pub find_task : String → Db → Option Task
find_task id db = find_first (λ (t : Task). t.id == id) db.tasks

pub find_task-id : (id : String) (db : Db) (r : Task) → find_task id db ≡ some r → r.id ≡ id
find_task-id id db r h = (eq_iff r.id id).0 (find_first-test (λ (t : Task). t.id == id) db.tasks h)

-- The row of an update's own id, where its further condition holds or fails.
module _ (id : String) (test : Task → Bool) (set : Task → Task)
    (same : (t : Task) → (set t).id ≡ t.id) where
  find-set :
      (rs : List Task)
      → find_first (λ (t : Task). t.id == id) (update_where test set rs)
        ≡ map_row (λ r. if test r then set r else r) (find_first (λ (t : Task). t.id == id) rs)
  find-set rs = find_first-update_where (λ (t : Task). t.id == id) test set (λ t. rw (same t)) rs

  pub find-set_hit :
      (rs : List Task) (r : Task)
      → find_first (λ (t : Task). t.id == id) rs ≡ some r
      → test r ≡ true
      → find_first (λ (t : Task). t.id == id) (update_where test set rs) ≡ some (set r)
  find-set_hit rs r h t = rw (find-set, h, t)

  pub find-set_miss :
      (rs : List Task) (r : Task)
      → find_first (λ (t : Task). t.id == id) rs ≡ some r
      → test r ≡ false
      → find_first (λ (t : Task). t.id == id) (update_where test set rs) ≡ some r
  find-set_miss rs r h t = rw (find-set, h, t)

module _ (id : String) (db : Db) (r : Task) (found : find_task id db ≡ some r) where
  is_own : (r.id == id) ≡ true
  is_own = find_first-test (λ (t : Task). t.id == id) db.tasks found

  pub find-update_task_status :
      (now : ℕ) (status : String)
      → find_task id (update_task_status now id status db) ≡ some (set_status now status r)
  unfolding update_task_status
  find-update_task_status now status =
      find-set_hit id _ (set_status now status) (λ t. refl) db.tasks r found is_own

  pub find-update_task_progress :
      (now : ℕ) (node action shared : String) (steps : ℕ)
      → find_task id (update_task_progress now id node action shared steps db)
        ≡ some (set_progress now node action shared steps r)
  unfolding update_task_progress
  find-update_task_progress now node action shared steps =
      find-set_hit id _ (set_progress now node action shared steps) (λ t. refl) db.tasks r found
        is_own

  holding :
      (now : ℕ) (owner : String)
      → r.lease_owner ≡ owner
      → now < r.lease_expiry
      → holds_lease now id owner r ≡ true
  holding now owner e lt = rw is_own (ground (arith, eq_iff r.lease_owner owner))

  pub find-update_task_status_owned :
      (stamp now : ℕ) (owner status : String)
      → r.lease_owner ≡ owner
      → now < r.lease_expiry
      → find_task id (update_task_status_owned stamp now id owner status db)
        ≡ some (set_status stamp status r)
  unfolding update_task_status_owned
  find-update_task_status_owned stamp now owner status e lt =
      find-set_hit id (holds_lease now id owner) (set_status stamp status) (λ t. refl) db.tasks r
        found (holding now owner e lt)

  pub find-update_task_progress_owned :
      (stamp now : ℕ) (owner node action shared : String) (steps : ℕ)
      → r.lease_owner ≡ owner
      → now < r.lease_expiry
      → find_task id (update_task_progress_owned stamp now id owner node action shared steps db)
        ≡ some (set_progress stamp node action shared steps r)
  unfolding update_task_progress_owned
  find-update_task_progress_owned stamp now owner node action shared steps e lt =
      find-set_hit id (holds_lease now id owner) (set_progress stamp node action shared steps)
        (λ t. refl) db.tasks r found (holding now owner e lt)

-- A row is written only by the owner of an unexpired lease: what another scheduler writes, or the
-- same one too late, changes no table.
abbrev pub Foreign : ℕ → String → String → Db → Type 0
Foreign now id owner db =
    All (λ (t : Task). (t.id ≢ id) ⊎ (t.lease_owner ≢ owner) ⊎ (t.lease_expiry ≤ now)) db.tasks

update_where-none :
    (test : Task → Bool) (set : Task → Task) (rs : List Task)
    → All (λ t. test t ≡ false) rs
    → update_where test set rs ≡ rs
unfolding update_where
update_where-none test set [] a = refl
update_where-none test set (r ∷ rs) a = rw (a.0, update_where-none test set rs a.1)

foreign_rows :
    (now : ℕ) (id owner : String) (rs : List Task)
    → All (λ (t : Task). (t.id ≢ id) ⊎ (t.lease_owner ≢ owner) ⊎ (t.lease_expiry ≤ now)) rs
    → All (λ t. holds_lease now id owner t ≡ false) rs
foreign_rows now id owner [] a = tt
foreign_rows now id owner (t ∷ rs) a = (
  ground (arith, a.0, eq_iff t.id id, eq_iff t.lease_owner owner),
  foreign_rows now id owner rs a.1,
)

-- If every row with the given id has another lease owner than the caller or a lease that is over,
-- UpdateTaskStatusOwned and UpdateTaskProgressOwned change no table.
pub owned_updates-Foreign :
    (stamp now : ℕ) (id owner status node action shared : String) (steps : ℕ) (db : Db)
    → Foreign now id owner db
    → (update_task_status_owned stamp now id owner status db ≡ db)
      × (update_task_progress_owned stamp now id owner node action shared steps db ≡ db)
unfolding update_task_status_owned update_task_progress_owned
owned_updates-Foreign stamp now id owner status node action shared steps db f =
    let none_held = foreign_rows now id owner db.tasks f in
    (
      rw (
          update_where-none (holds_lease now id owner) (set_status stamp status) db.tasks
            none_held),
      rw (
          update_where-none (holds_lease now id owner) (set_progress stamp node action shared steps)
            db.tasks none_held),
    )
