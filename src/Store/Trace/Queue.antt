-- ===== src/Store/Trace/Queue.antt =====
-- That work which has been handed out is never handed out again, whatever calls come between.
use pocket_flow_go.Store.Trace.Frame.{
  perform-SameQueue, perform-SameQueue, perform-SameQueue, perform-SameQueue, perform-SameQueue,
  perform-SameQueue, perform-SameQueue, perform-SameQueue, perform-SameQueue, perform-SameQueue,
  perform-SameQueue, perform-SameQueue, perform-SameQueue, perform-SameQueue, perform-SameQueue,
}
use pocket_flow_go.Store.Trace.{
  enqueue_call, poll_call, complete_call, fail_call, Call, perform, Reach, later, start,
}
use pocket_flow_go.Store.{QueueTask, Db}
use pocket_flow_go.Prelude.{
  String, ◌==◌, ◌≡◌, false, Bool, ℕ, ◌&&◌, List, Option-cases, Bool-cases, if◌then◌else◌, some, ◌∷◌,
  inl, select, ◌≢◌, [], arith, inr, any, eq_iff, refl, true, ◌∙◌, sym,
}
use pocket_flow_go.Store.Trace.Rows.{
  Holds, Holds-update_where, Holds-insert_row, any-update_where, any-mem, Holds-mem,
}
use pocket_flow_go.Store.Queue.{
  complete_queue_task, enqueue_task, poll_queue, new_work, claim, is_open, fail_queue_task,
}
use pocket_flow_go.Store.Sql.{update_where, oldest}
use pocket_flow_go.Store.Sql.Laws.{All, select-mem, oldest-mem, oldest-test}
use pocket_flow_go.Store.Queue.Laws.{find_queued, claimed_rows, poll_inversion}
use pocket_flow_go.Error.{err, constraint, ok}
use mathlib.Core.List.{Memᴰ}
use pocket_flow_go.Store.Trace.Distinct.{inserted}

abbrev pub NotPending : QueueTask → Type 0
NotPending q = (q.status == "pending") ≡ false

-- There is such work, and it is not pending.
abbrev pub Taken : String → Db → Type 0
Taken id db = Holds (λ (q : QueueTask). q.id) id NotPending db.task_queue

module _ (id : String) (db : Db) (t : Taken id db) where
  queue-Taken :
      (test : QueueTask → Bool) (set : QueueTask → QueueTask)
      → ((q : QueueTask) → (set q).id ≡ q.id)
      → ((q : QueueTask) → NotPending (set q))
      → Taken id (record db { task_queue = update_where test set db.task_queue })
  queue-Taken test set same closed =
      Holds-update_where (λ (q : QueueTask). q.id) id NotPending test set same
        (λ q own hit old. closed q) db.task_queue t

  enqueue_task-Taken :
      (now : ℕ) (new task_id node_key service input : String)
      → Taken id (enqueue_task now new task_id node_key service input db).1
  unfolding enqueue_task
  enqueue_task-Taken now new task_id node_key service input =
      let row = new_work now new task_id node_key service input in
      inserted (λ (q : QueueTask). q.id) row db.task_queue db (Taken id)
        (λ rows. record db { task_queue = rows }) (err constraint) (ok new) t
        (λ rows e.
          Holds-insert_row (λ (q : QueueTask). q.id) id NotPending row db.task_queue rows t e)

  poll_queue-Taken :
      (now : ℕ) (worker : String) (services : List String) (timeout : ℕ)
      → Taken id (poll_queue now worker services timeout db).1
  unfolding poll_queue
  poll_queue-Taken now worker [] timeout = t
  poll_queue-Taken now worker (svc ∷ services) timeout =
      elim (Option-cases (
        oldest (λ (q : QueueTask). q.created_at)
          (select (is_open (svc ∷ services)) db.task_queue))) [
            | inl e ↦ rw (poll_queue, e) t
            | inr (q, e) ↦
                elim (Bool-cases
                  (any (λ (r : QueueTask). r.id == q.id && r.status == "pending") db.task_queue)) [
                    | inl h ↦ rw (poll_queue, e, h) (queue-Taken _ _ (λ r. refl) (λ r. refl))
                    | inr h ↦ rw (poll_queue, e, h) t
                  ]
          ]

  complete_queue_task-Taken : (done : String) → Taken id (complete_queue_task done db).1
  unfolding complete_queue_task
  complete_queue_task-Taken done = elim (Option-cases (find_queued done db)) [
    | inl e ↦ rw (complete_queue_task, e) t
    | inr (q, e) ↦ rw (complete_queue_task, e) (queue-Taken _ _ (λ r. refl) (λ r. refl))
  ]

  -- No call makes it pending again.
  perform-Taken : (c : Call) → Taken id (perform c db)
  unfolding perform fail_queue_task
  perform-Taken (enqueue_call now new task_id node_key service input) =
      enqueue_task-Taken now new task_id node_key service input
  perform-Taken (poll_call now worker services timeout) =
      poll_queue-Taken now worker services timeout
  perform-Taken (complete_call done) = complete_queue_task-Taken done
  perform-Taken (fail_call done) = queue-Taken _ _ (λ r. refl) (λ r. refl)
  perform-Taken c = rw (perform-SameQueue db c tt) t

Reach-Taken :
    {allowed : Call → Type 0} {db db' : Db} (id : String)
    → Taken id db
    → Reach allowed db db'
    → Taken id db'
Reach-Taken id t start = t
Reach-Taken id t (later {mid} r c _) = perform-Taken id mid (Reach-Taken id t r) c

claimed_row :
    (now : ℕ) (worker : String) (timeout : ℕ) (id : String) (q : QueueTask) (b : Bool)
    → (q.id == id && q.status == "pending") ≡ b
    → (if b then claim now worker timeout q else q).id ≡ id
    → NotPending (if b then claim now worker timeout q else q)
claimed_row now worker timeout id q true h own = refl
claimed_row now worker timeout id q false h own = ground (arith, eq_iff q.id id)

claimed-All :
    (now : ℕ) (worker : String) (timeout : ℕ) (id : String) (rows : List QueueTask)
    → All (λ (q : QueueTask). q.id ≡ id → NotPending q) (claimed_rows now worker timeout id rows)
unfolding update_where
claimed-All now worker timeout id [] = tt
claimed-All now worker timeout id (q ∷ rows) =
    (claimed_row now worker timeout id q _ refl, claimed-All now worker timeout id rows)

-- Work that a successful PollQueue has handed out is not handed out again: whatever calls of the
-- store follow and at whatever time, a later successful PollQueue hands out work with another id.
pub poll_queue_once :
    {allowed : Call → Type 0} (now later_now timeout timeout' : ℕ) (worker worker' : String)
    (services services' : List String) (db db' mid db'' : Db) (p q : QueueTask)
    → poll_queue now worker services timeout db ≡ (some p, db')
    → Reach allowed db' mid
    → poll_queue later_now worker' services' timeout' mid ≡ (some q, db'')
    → q.id ≢ p.id
poll_queue_once now later_now timeout timeout' worker worker' services services' db db' mid db'' p q
      first between second same =
    let (r, e, p_id, rows) = poll_inversion now worker services timeout db db' p first in
    let (s, e', q_id, _) = poll_inversion later_now worker' services' timeout' mid db'' q second in
    let row : Memᴰ r db.task_queue = select-mem (is_open services) db.task_queue r (
      oldest-mem (λ (x : QueueTask). x.created_at) (select (is_open services) db.task_queue) r e) in
    let kept : any (λ (x : QueueTask). x.id == r.id) db'.task_queue ≡ true = rw rows (
      any-update_where (λ (x : QueueTask). x.id) r.id NotPending
        (λ x. x.id == r.id && x.status == "pending") (claim now worker timeout) (λ x. refl)
        db.task_queue
      ∙ any-mem (λ (x : QueueTask). x.id) r.id NotPending db.task_queue r row refl) in
    let taken : Taken r.id db' =
      (kept, rw rows (claimed-All now worker timeout r.id db.task_queue)) in
    let still = Reach-Taken r.id taken between in
    let here : Memᴰ s mid.task_queue = select-mem (is_open services') mid.task_queue s (
      oldest-mem (λ (x : QueueTask). x.created_at) (select (is_open services') mid.task_queue) s
        e') in
    let shut =
      Holds-mem (λ (x : QueueTask). x.id) r.id NotPending mid.task_queue s still here
        (sym q_id ∙ same ∙ p_id) in
    let opened =
      oldest-test (λ (x : QueueTask). x.created_at) (is_open services') mid.task_queue s e' in
    ground (arith, shut, opened)
